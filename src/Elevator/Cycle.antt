-- ===== src/Elevator/Cycle.antt =====
-- elevator/elevator.cpp: the rounds of the control loop, _loop, in the order of the source.
use ttk.Prelude.{ℕ, ◌+◌, Bool, true, false, not, ◌&&◌, ◌||◌, ltb, leb, if◌then◌else◌}
use ttk.Prelude.Int.{ℤ, ◌==ℤ◌, int_min}
use ttk.Outcome.{ok}
use ttk.Driver.{stay, up, down, is_direction, call_up, call_down, target_floor}
use ttk.Driver.Ops.{set_button_lamp, get_stop_lamp, set_door_open_lamp, set_floor_indicator}
use ttk.FloorSet
use ttk.FloorSet.{FloorSet}
use ttk.State.{keep_alive, served, served_up, served_down, other_change}
use ttk.Elevator.{
  M, ◌>>=◌, ◌>>◌, return, lift, gets, modify_state, on_driver, now, info, put_floor, when, inside,
  upward, downward, emit_state_change,
}
use ttk.Elevator.Motion.{
  update_and_get_floor, stop, start, priority_floors_in_direction, all_buttons,
}
use ttk.Elevator.Lights.{
  set_button_lamp_and_flag, should_stop, clear_direction_button_lamp, initialize_elevator,
  gen_floor_buttons,
}
use ttk.Elevator.Inputs.{
  Mode, normal, waiting_for_in_button, halted, Locals, check_consistency, handle_buttons,
  handle_stop, handle_obstruction, handle_command,
}

-- _waitThreshold and keepAlive
abbrev pub wait_threshold : ℕ
wait_threshold = 5000

abbrev pub keep_alive_period : ℕ
keep_alive_period = 500

-- The safety precautions at the two ends of the shaft.
unfoldable pub guard_top : ℤ → M (Unit {0})
guard_top floor = do
  w ← gets (λ w. w)
  when ((floor ==ℤ (info w).max_floor) && is_direction w.elev_state.direction up) stop

unfoldable pub guard_bottom : ℤ → M (Unit {0})
guard_bottom floor = do
  w ← gets (λ w. w)
  when ((floor ==ℤ (info w).min_floor) && is_direction w.elev_state.direction down) stop

-- The indicator, and the report of a move.
unfoldable pub show_floor : ℤ → ℤ → M ℤ
show_floor prev_floor floor = do
  when (not (floor ==ℤ int_min)) (on_driver (set_floor_indicator floor))
  when (not (floor ==ℤ prev_floor)) (emit_state_change other_change floor)
  return floor

unfoldable pub handle_floor : ℤ → M ℤ
handle_floor prev_floor = do
  floor ← update_and_get_floor
  guard_top floor
  guard_bottom floor
  show_floor prev_floor floor

-- The door is open from now on.
unfoldable pub begin_wait : M ℕ
begin_wait = do modify_state (λ s. record s { door_open = true }); now

unfoldable pub finish_arrival : ℤ → ℕ → M ℕ
finish_arrival floor started = do
  put_floor inside false floor
  emit_state_change served floor
  return started

-- Arrival at a floor that is to be served. The result is doorWaitingStarted.
unfoldable pub arrive : ℤ → M ℕ
arrive floor = do
  set_button_lamp_and_flag (record { type = target_floor; floor = floor }) false
  on_driver (λ d. ok (set_door_open_lamp true d))
  started ← begin_wait
  stop
  finish_arrival floor started

-- Leave for a call, by the old direction if an inside button asks for it.
unfoldable pub depart : ℤ → M (Unit {0})
depart floor = do
  w ← gets (λ w. w)
  priority ← lift (priority_floors_in_direction w.previous_direction (info w) w.elev_state)
  start (if priority then w.previous_direction else stay)
  emit_state_change other_change floor

unfoldable pub rest : ℤ → M (Unit {0})
rest floor = do
  w ← gets (λ w. w)
  when (FloorSet.has_any (all_buttons w.elev_state)) (depart floor)
  clear_direction_button_lamp

-- `currentFloor != INT_MIN && _shouldStop( currentFloor )`
unfoldable pub arrived : ℤ → M Bool
arrived floor = do
  w ← gets (λ w. w)
  if floor ==ℤ int_min then return false else lift (should_stop floor (info w) w.elev_state)

unfoldable pub handle_normal : ℤ → Locals → M Locals
handle_normal floor l = do
  here ← arrived floor
  w ← gets (λ w. w)
  if here
      then (do
        started ← arrive floor
        return (record l { mode = waiting_for_in_button; door_waiting_started = started }))
      else (do when (is_direction w.elev_state.direction stay) (rest floor); return l)

-- The wait is over with no button pressed: nobody wants to leave from here.
unfoldable pub door_timeout : ℤ → M (Unit {0})
door_timeout floor = do
  put_floor downward false floor
  put_floor upward false floor
  on_driver (set_button_lamp (record { type = call_up; floor = floor }) false)
  on_driver (set_button_lamp (record { type = call_down; floor = floor }) false)
  emit_state_change served_up floor
  emit_state_change served_down floor

unfoldable pub after_close : ℤ → Bool → M (Unit {0})
after_close floor timeout = do
  modify_state (λ s. record s { door_open = false })
  emit_state_change other_change floor
  if timeout then door_timeout floor else clear_direction_button_lamp

unfoldable pub close_door : ℤ → Bool → M (Unit {0})
close_door floor timeout = do
  on_driver (λ d. ok (set_door_open_lamp false d))
  after_close floor timeout

unfoldable pub handle_waiting : ℤ → Locals → M Locals
handle_waiting floor l = do
  t ← now
  let timeout = ltb (l.door_waiting_started + wait_threshold) t
  let pressed = FloorSet.has_additional l.in_floor_buttons_last l.in_floor_buttons
  if pressed || timeout
      then (do close_door floor timeout; return (record l { mode = normal }))
      else return l

unfoldable pub handle_mode : Mode → ℤ → Locals → M Locals
handle_mode normal floor l = handle_normal floor l
handle_mode waiting_for_in_button floor l = handle_waiting floor l
handle_mode halted floor l = return l

unfoldable pub keep_alive_check : ℤ → M (Unit {0})
keep_alive_check floor = do
  w ← gets (λ w. w)
  t ← now
  when (leb (w.last_state_update + keep_alive_period) t) (emit_state_change keep_alive floor)

unfoldable pub finish_cycle : Locals → ℤ → M Locals
finish_cycle l floor = do
  l' ← handle_mode l.mode floor l
  keep_alive_check floor
  return (record l' { prev_floor = floor })

-- One round of the loop: the local variables before and after.
unfoldable pub cycle : Locals → M Locals
cycle l = do
  check_consistency
  d ← gets info
  seen ← handle_buttons (gen_floor_buttons d) (FloorSet.reset l.in_floor_buttons)
  s ← handle_stop l.stop_now l.mode
  handle_obstruction
  handle_command
  floor ← handle_floor l.prev_floor
  finish_cycle
      (record l {
        in_floor_buttons = seen;
        in_floor_buttons_last = l.in_floor_buttons;
        stop_last = l.stop_now;
        stop_now = s.1;
        mode = s.0;
      })
      floor

abbrev pub initial_locals : Mode → Locals
initial_locals mode = record {
  in_floor_buttons = FloorSet.empty;
  in_floor_buttons_last = FloorSet.empty;
  stop_last = false;
  stop_now = false;
  prev_floor = int_min;
  door_waiting_started = 0;
  mode = mode;
}

-- The start of _loop, before the first round.
unfoldable pub enter : M Locals
enter = do
  initialize_elevator
  lamp ← gets (λ w. get_stop_lamp w.driver)
  return (initial_locals (if lamp then halted else normal))

-- An exception leaves the loop and so stops the elevator (the deferred call of _stopElevator); the
-- restart wrapper then enters the loop anew.
unfoldable pub unwind : M Locals
unwind = do stop; enter
