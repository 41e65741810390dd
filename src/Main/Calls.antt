-- ===== src/Main/Calls.antt =====
-- tools/main.cpp, elevator/elevator.cpp and elevator/scheduler.cpp: the elevator of a node reports to
-- the queue from which its scheduler takes the state changes.
use ttk.Prelude.{
  suc, ◌+◌, ◌≤◌, ◌<◌, ◌≡◌, ◌≢◌, ◌⊎◌, refl, sym, ap, ◌∙◌, subst, arith, Bool, true, false, List, [],
  ◌∷◌, ◌++◌, All, In, head, tail, if◌then◌else◌, Bool-cases, inl, inr,
}
use mathlib.Core.List.{append-nil}
use ttk.Prelude.Int.{ℤ, pos, ◌≤ℤ◌, ◌==ℤ◌, ==ℤ_iff}
use ttk.Outcome.{ok}
use ttk.Driver.{ButtonType, call_up, call_down, InBounds}
use ttk.Driver.Ops.{driver_info}
use ttk.State.{StateChange, ElevatorState, ChangeType, button_up_pressed, button_down_pressed}
use ttk.ConcurrentQueue.{ConcurrentQueue, timeout_dequeue, enqueue}
use ttk.GlobalState
use ttk.GlobalState.{GlobalState, Elevators, put}
use ttk.Elevator.{World, returned}
use ttk.Elevator.Inputs.{Locals}
use ttk.Elevator.Runs.{Reach}
use ttk.Elevator.Consistency.{IsSound, Consistent}
use ttk.Elevator.Consistency.Rounds.{Reach-Consistent}
use ttk.RequestQueue.{new_request, insert}
use ttk.Scheduler.{
  Scheduler, sched_round, handle_update, handle_maybe_update, dispatch, handle_button_press,
  steady_now, to_milliseconds, light_command, call_command, range,
}
use ttk.Scheduler.Choosing.{IsBest, IsAlive}
use ttk.Scheduler.Serving.{Sends, handle_button_press-local}

-- The two kinds of call buttons, and the changes that report them.
abbrev pub call_type : Bool → ButtonType
call_type up = if up then call_up else call_down

abbrev pub pressed : Bool → ChangeType
pressed up = if up then button_up_pressed else button_down_pressed

-- The scheduler after it took the change from its queue, stored the state, and passed it on.
abbrev pub informed : StateChange → List StateChange → Scheduler → Scheduler
informed u later s = record s {
  state_update_in = record { queue = later };
  global_state = GlobalState.update u.state s.global_state;
  state_update_out = enqueue u s.state_update_out;
}

In-put : (i : ℤ) (e : ElevatorState) (es : Elevators) → (k : ℤ) × In (k, e) (put i e es)
unfolding put
In-put i e [] = (i, head _)
In-put i e ((j, t) ∷ es) = elim (Bool-cases (j ==ℤ i)) [
  | inl q ↦ rw q (j, head _)
  | inr q ↦ let (k, m) = In-put i e es in rw q (k, tail _ m)
]

put-Numbered :
    (i : ℤ) (e : ElevatorState) (es : Elevators)
    → pos 0 ≤ℤ e.id
    → All (λ (x : ℤ × ElevatorState). pos 0 ≤ℤ x.1.id) es
    → All (λ (x : ℤ × ElevatorState). pos 0 ≤ℤ x.1.id) (put i e es)
unfolding put
put-Numbered i e [] n h = (n, tt)
put-Numbered i e ((j, t) ∷ es) n h = elim (Bool-cases (j ==ℤ i)) [
  | inl q ↦ rw q (n, h.1)
  | inr q ↦ rw q (h.0, put-Numbered i e es n h.1)
]

pub dispatch-pressed :
    (up : Bool) (u : StateChange) (s : Scheduler)
    → u.change_type ≡ pressed up
    → dispatch u u.change_type s ≡ handle_button_press u.state.id (call_type up) u.change_floor s
unfolding dispatch
dispatch-pressed true u s e = rw e refl
dispatch-pressed false u s e = rw e refl

-- The end of the round.
abbrev beaten : Scheduler → Scheduler
beaten s = record s { readings = suc s.readings; sched_beat = to_milliseconds (s.clock s.readings) }

round-takes :
    (u : StateChange) (later : List StateChange) (s s' : Scheduler)
    → s.state_update_in.queue ≡ u ∷ later
    → u.state.id ≡ s.local_elev_id
    → dispatch u u.change_type (informed u later s) ≡ (s', ok tt)
    → sched_round [] s ≡ (beaten s', ok tt)
unfolding sched_round handle_maybe_update handle_update timeout_dequeue steady_now
round-takes u later s s' q i e =
    let own : (u.state.id ==ℤ s.local_elev_id) ≡ true = (==ℤ_iff u.state.id s.local_elev_id).1 i in
    let queued : s.state_update_in.queue ++ [] ≡ u ∷ later =
      append-nil s.state_update_in.queue ∙ q in
    rw (queued, own, e) refl

-- A change of another node than the elevator's.
abbrev pub FromOthers : ℤ → StateChange → Type 0
FromOthers id u = u.state.id ≢ id

-- The first change in the queue, if it is the elevator's, has a sound state.
first-IsSound :
    (id : ℤ) (w : World) (u : StateChange) (later : List StateChange)
    → w.out_state.queue ≡ u ∷ later
    → u.state.id ≡ id
    → Consistent (FromOthers id) id w
    → IsSound id u.state
first-IsSound id w u later q own h =
    elim (subst (All (λ (u : StateChange). IsSound id u.state ⊎ FromOthers id u)) q h.reports).0 [
      | inl k ↦ k
      | inr foreign ↦ absurd (foreign own)
    ]

-- A press that the elevator of the node reports, on the hardware's four floors, never fails in the
-- scheduler, as long as the report is not older than 1500 ms: once it is the first change in the
-- queue that both share, the scheduler's round takes it, passes it on to the other nodes, sends
-- the light, sends the call to a best elevator, and keeps a request for it. Behind it may wait any
-- other changes. The elevator is in any state that its control thread reaches from a consistent
-- one, while between its rounds changes are taken from the queue and changes with other
-- identifiers than its own come in; the known identifiers are from 0 on.
pub reported-served :
    (id : ℤ) (w₀ w : World) (l : Locals) (s : Scheduler) (up : Bool) (u : StateChange)
    (later : List StateChange)
    → Consistent (FromOthers id) id w₀
    → pos 0 ≤ℤ id
    → Reach (FromOthers id) w₀ (w, returned l)
    → w.out_state.queue ≡ u ∷ later
    → u.state.id ≡ id
    → s.state_update_in ≡ w.out_state
    → s.local_elev_id ≡ id
    → s.bounds ≡ driver_info
    → All (λ (e : ℤ × ElevatorState). pos 0 ≤ℤ e.1.id) s.global_state.elevators
    → u.change_type ≡ pressed up
    → InBounds u.change_floor driver_info
    → to_milliseconds (s.clock s.readings) ≤ u.state.timestamp + 1500
    → (i : ℤ) × (s' : Scheduler) × (sched_round [] s ≡ (s', ok tt))
      × IsBest s.bounds
          (to_milliseconds (s.clock s.readings))
          (call_type up)
          u.change_floor
          (put u.state.id u.state s.global_state.elevators)
          i
      × Sends
          (light_command (call_type up) u.change_floor
            ∷ call_command (call_type up) i u.change_floor
            ∷ [])
          (informed u later s)
          s'
      × (s'.global_state.requests
          ≡ insert
              (new_request
                (call_command (call_type up) i u.change_floor)
                100
                (s.clock (suc s.readings)))
              s.global_state.requests)
unfolding GlobalState.update GlobalState.update_buttons
reported-served id w₀ w l s up u later h natural reach q mine shared same bounds ids c floor young =
    let k =
      first-IsSound id w u later q mine
        (Reach-Consistent (FromOthers id) id w₀ (w, returned l) h reach) in
    let own : u.state.id ≡ s.local_elev_id = k.own_id ∙ sym same in
    let (key, known) = In-put u.state.id u.state s.global_state.elevators in
    let (i, s', e, best, sends, kept) =
      handle_button_press-local (informed u later s) (call_type up) u.change_floor key u.state
        (put-Numbered u.state.id u.state s.global_state.elevators
          (subst (λ j. pos 0 ≤ℤ j) (sym k.own_id) natural) ids)
        known (young_enough young) (subst (InBounds u.state.last_floor) (sym bounds) k.on_floor)
        (subst (InBounds u.change_floor) (sym bounds) floor) (small bounds) in
    (
      i,
      beaten s',
      round-takes u later s s' (ap (λ (t : ConcurrentQueue StateChange). t.queue) shared ∙ q) own (
          dispatch-pressed up u (informed u later s) c
          ∙ ap (λ j. handle_button_press j (call_type up) u.change_floor (informed u later s)) own
          ∙ e),
      best,
      record {
        same_id = sends.same_id;
        same_elevators = sends.same_elevators;
        same_in = sends.same_in;
        same_out = sends.same_out;
        local = sends.local;
        remote = sends.remote;
      },
      kept,
    )
  where
    young_enough :
        to_milliseconds (s.clock s.readings) ≤ u.state.timestamp + 1500
        → IsAlive s.bounds
            (to_milliseconds (s.clock s.readings))
            (call_type up)
            u.change_floor
            u.state
    young_enough y = ground (arith, y)

    small : s.bounds ≡ driver_info → range s.bounds < 1000000
    small e = subst (λ d. range d < 1000000) (sym e) (omega arith)
