-- ===== src/RequestQueue.antt =====
-- elevator/requestqueue.h and elevator/requestqueue.cpp: the requests that wait for an elevator,
-- earliest deadline first. The priority queue is the list of its entries sorted by deadline, where
-- entries with one deadline leave in the order in which they came. The lock makes each operation one
-- step; a wait is cut at its wake-ups, which say what other threads did meanwhile.
pub mod Sorted
pub mod Rescheduling
pub mod Cleaning
pub mod Waiting
pub mod Acknowledging
pub mod Calls
use ttk.Prelude.{
  ℕ, zero, suc, ◌+◌, ◌*◌, Bool, true, false, not, ◌&&◌, List, [], ◌∷◌, map, Option, none, some, ltb,
  leb, ◌==◌, if◌then◌else◌, length,
}
use ttk.Prelude.Int.{ℤ, ◌==ℤ◌}
use ttk.Outcome.{Outcome, ok, failed}
use ttk.Command.{Command, call_to_floor_and_go_up, call_to_floor_and_go_down}
use ttk.State.{
  StateChange, ChangeType, going_to_serve_up, going_to_serve_down, served_up, served_down,
  same_change,
}
use ttk.State

-- Nanoseconds of the steady clock.
abbrev pub TimePoint : Type 0
TimePoint = ℕ

abbrev pub milliseconds : ℕ → TimePoint
milliseconds n = n * 1000000

pub data RequestType : Type 0 where
  not_acknowledged not_done done : RequestType

pub record Request : Type 0 where
  pub type : RequestType
  pub repeated : ℕ
  pub command : Command
  pub deadline_delta : ℕ
  pub deadline : TimePoint
  pub tweaked_deadline : Option TimePoint

-- The constructor, at the time `now`.
pub new_request : Command → ℕ → TimePoint → Request
new_request c delta now = record {
  type = not_acknowledged;
  repeated = 0;
  command = c;
  deadline_delta = delta;
  deadline = now + milliseconds delta;
  tweaked_deadline = none;
}

unfoldable pub update_deadline : TimePoint → Request → Request
update_deadline now r = record r { deadline = now + milliseconds r.deadline_delta }

abbrev pub is_done : RequestType → Bool
is_done done = true
is_done _ = false

abbrev pub is_not_acknowledged : RequestType → Bool
is_not_acknowledged not_acknowledged = true
is_not_acknowledged _ = false

abbrev pub is_nothing : Option TimePoint → Bool
is_nothing none = true
is_nothing (some t) = false

unfoldable pub trigger_type : Request → ChangeType
trigger_type r = elim r.command.command_type [
  | call_to_floor_and_go_up ↦ if is_not_acknowledged r.type then going_to_serve_up else served_up
  | call_to_floor_and_go_down ↦
      if is_not_acknowledged r.type then going_to_serve_down else served_down
  | _ ↦ State.none
]

-- The queue's push: behind all entries with a deadline that is not later.
unfoldable pub insert : Request → List Request → List Request
insert r [] = r ∷ []
insert r (x ∷ xs) =
    let rest = insert r xs in if ltb r.deadline x.deadline then r ∷ x ∷ xs else x ∷ rest

unfoldable pub earliest_deadline : List Request → TimePoint → TimePoint
earliest_deadline [] extra = extra
earliest_deadline (r ∷ q) extra = if ltb extra r.deadline then extra else r.deadline

-- The new queue, and whether the waiter is notified.
unfoldable pub push : Request → List Request → List Request × Bool
push r [] = (insert r [], true)
push r (x ∷ xs) = (insert r (x ∷ xs), ltb r.deadline x.deadline)

-- ackRequest on one request.
unfoldable pub matches : StateChange → Request → Bool
unfolding same_change
matches change r =
    (r.command.target_elevator_id ==ℤ change.state.id)
    && same_change (trigger_type r) change.change_type
    && (r.command.target_floor ==ℤ change.change_floor)

abbrev pub acknowledged : RequestType → RequestType
acknowledged not_acknowledged = not_done
acknowledged not_done = done
acknowledged done = done

-- A delta of 0 keeps the deadline.
unfoldable pub tweak : ℕ → TimePoint → Request → Request
tweak delta now r =
    if delta == 0
    then r
    else record r { tweaked_deadline = some (now + milliseconds delta); deadline_delta = delta }

unfoldable pub ack_one : StateChange → ℕ → TimePoint → Request → Request
ack_one change delta now r =
    if matches change r
    then record (tweak delta now (record r { type = acknowledged r.type })) { repeated = 0 }
    else r

unfoldable pub ack_request : StateChange → ℕ → TimePoint → List Request → List Request
ack_request change delta now q = map (ack_one change delta now) q

pub size : List Request → ℕ
size q = length q

-- The loops that do what ackRequest only flagged.
abbrev pub top_done : List Request → Bool
top_done [] = false
top_done (r ∷ q) = is_done r.type

abbrev pub top_tweaked : List Request → Bool
top_tweaked [] = false
top_tweaked (r ∷ q) = not (is_nothing r.tweaked_deadline)

unfoldable pub drop_done : List Request → List Request
drop_done [] = []
drop_done (r ∷ q) = let rest = drop_done q in if is_done r.type then rest else r ∷ q

abbrev pub retime : TimePoint → Request → Request
retime t r = record r { deadline = t; tweaked_deadline = none }

-- The flag `cleaned` after a pass: neither inner loop had anything to do.
unfoldable pub untouched : List Request → Bool
untouched q = not (top_done q) && not (top_tweaked (drop_done q))

-- `none`: out of fuel.
unfoldable pub reschedule : ℕ → List Request → Option (List Request)
reschedule zero q = none
reschedule (suc n) [] = some []
reschedule (suc n) (r ∷ q) = elim r.tweaked_deadline [
  | none ↦ some (r ∷ q)
  | some t ↦ reschedule n (insert (retime t r) q)
]

unfoldable pub clean : ℕ → List Request → Option (List Request)
clean zero q = none
clean (suc n) q = elim (reschedule (suc (length q)) (drop_done q)) [
  | none ↦ none
  | some p ↦ elim (untouched q) [ true ↦ some p | false ↦ clean n p ]
]

unfoldable pub cleaned : List Request → List Request
cleaned q = elim (clean (suc (2 * length q)) q) [ none ↦ q | some p ↦ p ]

-- What another thread does to the queue.
pub data QueueChange : Type 0 where
  pushed : Request → QueueChange
  acked : StateChange → ℕ → TimePoint → QueueChange

unfoldable pub apply_change : QueueChange → List Request → List Request
apply_change (pushed r) q = (push r q).0
apply_change (acked c delta now) q = ack_request c delta now q

unfoldable pub apply_changes : List QueueChange → List Request → List Request
apply_changes [] q = q
apply_changes (c ∷ cs) q = apply_changes cs (apply_change c q)

-- The end of one wait_until: what was done to the queue meanwhile, whether the deadline passed, and
-- the next reading of the clock.
pub record WakeUp : Type 0 where
  pub changes : List QueueChange
  pub timed_out : Bool
  pub now : TimePoint

pub data WaitResult : Type 0 where
  waiting : WaitResult
  stopped : Outcome (Option Request) → WaitResult

-- What follows the loop.
unfoldable pub take_due : TimePoint → List Request → List Request × WaitResult
take_due now [] = ([], stopped (ok none))
take_due now (r ∷ q) =
    if leb r.deadline now
    then (q, stopped (if is_nothing r.tweaked_deadline then ok (some r) else failed))
    else (r ∷ q, stopped (ok none))

-- `waiting`: the thread still waits when the listed wake-ups are over.
unfoldable pub wait_loop :
    TimePoint → TimePoint → List WakeUp → List Request → List Request × WaitResult
wait_loop d₀ now [] q =
    let c = cleaned q in if leb (earliest_deadline c d₀) now then take_due now c else (c, waiting)
wait_loop d₀ now (w ∷ ws) q = elim (leb (earliest_deadline (cleaned q) d₀) now) [
  | true ↦ take_due now (cleaned q)
  | false ↦ elim w.timed_out [
    | true ↦ take_due now (apply_changes w.changes (cleaned q))
    | false ↦ wait_loop d₀ w.now ws (apply_changes w.changes (cleaned q))
  ]
]

unfoldable pub wait_for_earliest_deadline :
    ℕ → TimePoint → TimePoint → List WakeUp → List Request → List Request × WaitResult
wait_for_earliest_deadline timeout start now ws q =
    wait_loop (start + milliseconds timeout) now ws q
