-- ===== src/Scheduler.antt =====
-- elevator/scheduler.h and elevator/scheduler.cpp: the choice of the elevator that serves a call, and
-- the loops that send calls and send them again. The log output is left out. A round of one of the
-- two threads is one step; what other threads do to the request queue during a wait is part of it.
pub mod Costs
pub mod Choosing
pub mod Serving
pub mod Resending
pub mod Lifecycle
pub mod Remote
use ttk.Prelude.{
  ℕ, suc, ◌+◌, ◌*◌, ◌/◌, Bool, true, false, not, ◌&&◌, ◌||◌, List, [], ◌∷◌, Option, none, some, ltb,
  if◌then◌else◌,
}
use ttk.Prelude.Int.{ℤ, pos, ◌==ℤ◌, ◌-ℤ◌, ◌+ℤ◌, ltb_ℤ, leb_ℤ, gap, int32, abs_int, int_min, int_max}
use ttk.Outcome
use ttk.Outcome.{Outcome, ok, failed}
use ttk.Driver.{
  ButtonType, call_up, call_down, is_call_up, Direction, stay, up, down, is_direction, DriverInfo,
}
use ttk.Command.{
  Command, CommandType, any_id, call_to_floor_and_go_up, call_to_floor_and_go_down,
  turn_on_light_up, turn_on_light_down, turn_off_light_up, turn_off_light_down,
}
use ttk.State.{
  ElevatorState, StateChange, ChangeType, button_up_pressed, button_down_pressed, served_up,
  served_down, going_to_serve_up, going_to_serve_down,
}
use ttk.ConcurrentQueue.{ConcurrentQueue, enqueue, timeout_dequeue}
use ttk.RequestQueue.{
  TimePoint, Request, RequestType, not_acknowledged, not_done, done, new_request, update_deadline,
  push, ack_request, WakeUp, WaitResult, waiting, stopped, wait_for_earliest_deadline,
}
use ttk.GlobalState
use ttk.GlobalState.{GlobalState, Elevators}

-- `clock` is the sequence of the readings of the steady clock, and `readings` how many were made.
pub record Scheduler : Type 0 where
  pub local_elev_id : ℤ
  pub bounds : DriverInfo
  pub global_state : GlobalState
  pub state_update_in : ConcurrentQueue StateChange
  pub state_update_out : ConcurrentQueue StateChange
  pub commands_to_remote : ConcurrentQueue Command
  pub commands_to_local : ConcurrentQueue Command
  pub sched_beat : ℕ
  pub req_beat : ℕ
  pub clock : ℕ → TimePoint
  pub readings : ℕ

-- A method changes the object also where an assertion then fails.
abbrev pub M : Type 0 → Type 0
M A = Scheduler → Scheduler × Outcome A

abbrev pub and_then : {A B : Type 0} → Scheduler → Outcome A → (A → M B) → Scheduler × Outcome B
and_then s (ok a) f = f a s
and_then s failed f = (s, failed)

infixl 5 ◌>>=◌ ◌>>◌
abbrev pub ◌>>=◌ : {A B : Type 0} → M A → (A → M B) → M B
◌>>=◌ m f s = let (s', o) = m s in and_then s' o f

abbrev pub ◌>>◌ : {B : Type 0} → M (Unit {0}) → M B → M B
m >> k = m >>= λ _. k

abbrev pub gets : {A : Type 0} → (Scheduler → A) → M A
gets f s = (s, ok (f s))

abbrev pub modify : (Scheduler → Scheduler) → M (Unit {0})
modify f s = (f s, ok tt)

abbrev pub when : Bool → M (Unit {0}) → M (Unit {0})
when true m = m
when false m = modify (λ s. s)

-- std::chrono::steady_clock::now(), and the same in milliseconds.
unfoldable pub steady_now : M TimePoint
steady_now s = (record s { readings = suc s.readings }, ok (s.clock s.readings))

abbrev pub to_milliseconds : TimePoint → ℕ
to_milliseconds t = t / 1000000

abbrev pub with_requests : (List Request → List Request) → Scheduler → Scheduler
with_requests f s = record s {
  global_state = record s.global_state { requests = f s.global_state.requests };
}

unfoldable pub forward_to_targets : Command → M (Unit {0})
forward_to_targets comm = modify (λ s.
    let here = comm.target_elevator_id ==ℤ s.local_elev_id in
    record s {
      commands_to_local =
          if (comm.target_elevator_id ==ℤ any_id) || here
          then enqueue comm s.commands_to_local
          else s.commands_to_local;
      commands_to_remote = if here then s.commands_to_remote else enqueue comm s.commands_to_remote;
    })

-- keepAlive, and the two thresholds: 1.2 and 3 times as long.
abbrev pub keep_alive : ℕ
keep_alive = 500

abbrev pub outdated_thresh : ℕ
outdated_thresh = keep_alive * 12 / 10

abbrev pub dead_thresh : ℕ
dead_thresh = keep_alive * 3

-- now - state.timestamp > threshold
abbrev pub older : ℕ → ℕ → ElevatorState → Bool
older threshold now s = ltb (s.timestamp + threshold) now

abbrev pub range : DriverInfo → ℕ
range d = gap d.max_floor d.min_floor

-- The elevator passes the floor in the direction of the call, or must turn there.
unfoldable pub on_the_way : DriverInfo → ButtonType → ℤ → ElevatorState → Bool
on_the_way d type floor s =
    (is_direction s.direction up
      && ((is_call_up type && ltb_ℤ s.last_floor floor) || (floor ==ℤ d.max_floor)))
    || (is_direction s.direction down
        && ((not (is_call_up type) && ltb_ℤ floor s.last_floor) || (floor ==ℤ d.min_floor)))

-- What is added to the distance.
unfoldable pub penalties : DriverInfo → ℕ → ButtonType → ℤ → ElevatorState → ℕ
penalties d now type floor s =
    (if older outdated_thresh now s then 10 * range d else 0)
    + (if s.stopped then 10 * range d else 0)
    + (if on_the_way d type floor s
        then range d + 1
        else if not (is_direction s.direction stay)
        then 2 * (range d + 1)
        else 0)

-- The distance with the penalties, in ints: to wrap the sum once at its end is to wrap it at each
-- addition. (An overflow, which only floors that are far out of bounds can cause, is undefined in
-- the source; here it wraps.)
unfoldable pub cost : DriverInfo → ℕ → ButtonType → ℤ → ElevatorState → ℤ
unfolding penalties
cost d now type floor s =
    int32 (abs_int (int32 (s.last_floor -ℤ floor)) +ℤ pos (penalties d now type floor s))

-- The body of the loop of _optimalElevator: the least distance so far and its elevator.
unfoldable pub consider : DriverInfo → ℕ → ButtonType → ℤ → ElevatorState → ℤ × ℤ → ℤ × ℤ
unfolding cost
consider d now type floor s best =
    if older dead_thresh now s
    then best
    else if ltb_ℤ (cost d now type floor s) best.0
    then (cost d now type floor s, s.id)
    else best

unfoldable pub nearest : DriverInfo → ℕ → ButtonType → ℤ → Elevators → ℤ × ℤ → ℤ × ℤ
nearest d now type floor [] best = best
nearest d now type floor ((i, s) ∷ es) best =
    nearest d now type floor es (consider d now type floor s best)

-- assert_leq( 0, minId )
unfoldable pub assert_found : ℤ → Outcome ℤ
assert_found i = Outcome.◌>>◌ (Outcome.assert (leb_ℤ (pos 0) i)) (ok i)

-- From INT_MAX and INT_MIN.
unfoldable pub choose_elevator : DriverInfo → ℕ → ButtonType → ℤ → Elevators → Outcome ℤ
unfolding assert_found
choose_elevator d now type floor es =
    assert_found (nearest d now type floor es (int_max, int_min)).1

unfoldable pub optimal_elevator : ButtonType → ℤ → M ℤ
unfolding steady_now
optimal_elevator type floor = do
  t ← steady_now
  λ s. (s, choose_elevator s.bounds (to_milliseconds t) type floor s.global_state.elevators)

abbrev pub is_call_to_go_up : CommandType → Bool
is_call_to_go_up call_to_floor_and_go_up = true
is_call_to_go_up _ = false

abbrev pub is_not_done : RequestType → Bool
is_not_done not_done = true
is_not_done _ = false

-- A new target, for a request that was sent too often or was not served in time.
unfoldable pub retarget : Request → M Request
unfolding optimal_elevator
retarget r = do
  i ←
      optimal_elevator (if is_call_to_go_up r.command.command_type then call_up else call_down)
        r.command.target_floor
  gets (λ s. record r {
    command = record r.command { target_elevator_id = i };
    type = not_acknowledged;
  })

unfoldable pub push_request : Request → M (Unit {0})
push_request r = modify (with_requests (λ q. (push r q).0))

unfoldable pub resend_request : Request → M (Unit {0})
unfolding retarget steady_now push_request forward_to_targets
resend_request r = do
  let again = record r { repeated = suc r.repeated }
  r' ← if ltb 3 again.repeated || is_not_done r.type then retarget again else gets (λ s. again)
  t ← steady_now
  push_request (update_deadline t r')
  forward_to_targets r'.command

unfoldable pub add_and_forward_request : Command → M (Unit {0})
unfolding steady_now push_request forward_to_targets
add_and_forward_request comm = do
  t ← steady_now
  push_request (new_request comm 100 t)
  forward_to_targets comm

abbrev pub call_command : ButtonType → ℤ → ℤ → Command
call_command type i floor = record {
  command_type = if is_call_up type then call_to_floor_and_go_up else call_to_floor_and_go_down;
  target_elevator_id = i;
  target_floor = floor;
}

abbrev pub light_command : ButtonType → ℤ → Command
light_command type floor = record {
  command_type = if is_call_up type then turn_on_light_up else turn_on_light_down;
  target_elevator_id = any_id;
  target_floor = floor;
}

unfoldable pub handle_button_press : ℤ → ButtonType → ℤ → M (Unit {0})
unfolding forward_to_targets optimal_elevator add_and_forward_request
handle_button_press id type floor = do
  forward_to_targets (light_command type floor)
  here ← gets (λ s. id ==ℤ s.local_elev_id)
  when here
      (do i ← optimal_elevator type floor; add_and_forward_request (call_command type i floor))

abbrev pub light_off : CommandType → ℤ → ℤ → Command
light_off type i floor = record {
  command_type = type;
  target_elevator_id = i;
  target_floor = floor;
}

-- The deadline after an acknowledgement is read from the clock only if there is a new one.
unfoldable pub acknowledge : StateChange → ℕ → M (Unit {0})
unfolding steady_now
acknowledge update delta = do t ← steady_now; modify (with_requests (ack_request update delta t))

-- The lamp of a served call, on this node, and the request.
unfoldable pub handle_served : CommandType → StateChange → M (Unit {0})
unfolding forward_to_targets acknowledge
handle_served type update = do
  i ← gets (λ s. s.local_elev_id)
  forward_to_targets (light_off type i update.change_floor)
  modify (with_requests (ack_request update 0 0))

-- The switch of _schedLoop.
unfoldable pub dispatch : StateChange → ChangeType → M (Unit {0})
unfolding handle_button_press handle_served acknowledge
dispatch u button_up_pressed = handle_button_press u.state.id call_up u.change_floor
dispatch u button_down_pressed = handle_button_press u.state.id call_down u.change_floor
dispatch u served_down = handle_served turn_off_light_down u
dispatch u served_up = handle_served turn_off_light_up u
dispatch u going_to_serve_up = acknowledge u (30 * 1000)
dispatch u going_to_serve_down = acknowledge u (30 * 1000)
dispatch u _ = modify (λ s. s)

unfoldable pub handle_update : StateChange → M (Unit {0})
unfolding dispatch
handle_update u = do
  modify (λ s. record s { global_state = GlobalState.update u.state s.global_state })
  modify (λ s. record s {
    state_update_out =
        if u.state.id ==ℤ s.local_elev_id then enqueue u s.state_update_out else s.state_update_out;
  })
  dispatch u u.change_type

unfoldable pub handle_maybe_update : Option StateChange → M (Unit {0})
unfolding handle_update
handle_maybe_update none = modify (λ s. s)
handle_maybe_update (some u) = handle_update u

-- One round of _schedLoop, where `arrivals` come while it waits.
unfoldable pub sched_round : List StateChange → M (Unit {0})
unfolding handle_maybe_update steady_now
sched_round arrivals = do
  u ← λ s.
      let (q, u) = timeout_dequeue arrivals s.state_update_in in
      (record s { state_update_in = q }, ok u)
  handle_maybe_update u
  t ← steady_now
  modify (λ s. record s { sched_beat = to_milliseconds t })

-- What _reqCheckLoop does with the end of a wait; a thread that still waits does nothing.
unfoldable pub handle_wait : WaitResult → M (Unit {0})
unfolding resend_request steady_now
handle_wait waiting = modify (λ s. s)
handle_wait (stopped failed) = λ s. (s, failed)
handle_wait (stopped (ok r)) = do
  elim r [ none ↦ modify (λ s. s) | some r ↦ resend_request r ]
  t ← steady_now
  modify (λ s. record s { req_beat = to_milliseconds t })

-- One round of _reqCheckLoop, for the threshold of its heartbeat and the wake-ups of its wait.
unfoldable pub req_check_round : ℕ → List WakeUp → M (Unit {0})
unfolding handle_wait steady_now
req_check_round threshold ws = do
  start ← steady_now
  now ← steady_now
  answer ← λ s.
      let (q, a) =
        wait_for_earliest_deadline (threshold / 10) start now ws s.global_state.requests in
      (with_requests (λ _. q) s, ok a)
  handle_wait answer
