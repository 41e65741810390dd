-- ===== src/Elevator/Inputs.antt =====
-- elevator/elevator.cpp: what one round of _loop does with buttons, the stop button, an obstruction
-- and a command. Within a round the input channels keep their values.
use ttk.Prelude.{
  ℕ, Bool, true, false, not, ◌&&◌, ◌||◌, List, [], ◌∷◌, Option, none, some, if◌then◌else◌,
}
use ttk.Prelude.Int.{ℤ, leb_ℤ, ltb_ℤ, ◌==ℤ◌}
use ttk.Outcome.{ok}
use ttk.Driver.{DriverInfo, Button, call_up, call_down, is_target_floor}
use ttk.Driver.Channels
use ttk.Driver.Io.{io_set_bit}
use ttk.Driver.Ops.{
  set_button_lamp, get_button_lamp, get_button_signal, get_stop_lamp, set_stop_lamp, get_stop,
  get_obstruction, shutdown,
}
use ttk.FloorSet
use ttk.FloorSet.{FloorSet}
use ttk.Command.{
  Command, CommandType, nothing, call_to_floor_and_go_up, call_to_floor_and_go_down,
  turn_on_light_up, turn_off_light_up, turn_on_light_down, turn_off_light_down, any_id,
}
use ttk.State.{going_to_serve_up, going_to_serve_down, other_change, assert_consistency}
use ttk.ConcurrentQueue.{try_dequeue}
use ttk.Elevator.{
  returned, hung, M, ◌>>=◌, ◌>>◌, return, lift, assert, gets, modify_state, on_driver, ask_driver,
  info, set_floor, put_floor, when, inside, upward, downward, emit_state_change,
}
use ttk.Elevator.Motion.{update_and_get_floor, stop, start}
use ttk.Elevator.Lights.{change_type_by_button, set_button_lamp_and_flag}

-- `State` of _loop.
pub data Mode : Type 0 where
  normal waiting_for_in_button halted : Mode

-- The local variables of _loop.
pub record Locals : Type 0 where
  pub in_floor_buttons : FloorSet
  pub in_floor_buttons_last : FloorSet
  pub stop_last : Bool
  pub stop_now : Bool
  pub prev_floor : ℤ
  pub door_waiting_started : ℕ
  pub mode : Mode

-- Elevator::assertConsistency
unfoldable pub check_consistency : M (Unit {0})
check_consistency = do
  w ← gets (λ w. w)
  assert (ltb_ℤ (info w).min_floor (info w).max_floor)
  lift (assert_consistency (info w) w.elev_state)
  assert (leb_ℤ (info w).min_floor w.elev_state.last_floor)
  assert (leb_ℤ w.elev_state.last_floor (info w).max_floor)

unfoldable pub new_press : Button → M (Unit {0})
new_press b = do
  set_button_lamp_and_flag b true
  when (is_target_floor b.type) (put_floor inside true b.floor)
  emit_state_change (change_type_by_button b.type) b.floor

unfoldable pub add_seen : Button → DriverInfo → FloorSet → M FloorSet
add_seen b d seen = do r ← lift (FloorSet.set true b.floor d seen); return r.0

-- One button of the loop over the buttons; the set is inFloorButtons.
unfoldable pub handle_button : Button → FloorSet → M FloorSet
unfolding new_press add_seen
handle_button b seen = do
  signal ← ask_driver (get_button_signal b)
  lit ← if signal then ask_driver (get_button_lamp b) else return true
  when (not lit) (new_press b)
  w ← gets (λ w. w)
  if signal && is_target_floor b.type then add_seen b (info w) seen else return seen

unfoldable pub handle_buttons : List Button → FloorSet → M FloorSet
handle_buttons [] seen = return seen
handle_buttons (b ∷ bs) seen = do seen' ← handle_button b seen; handle_buttons bs seen'

-- The stop button stops the elevator where it is, and pressed again resumes.
unfoldable pub halt : M Mode
halt = do stop; floor ← update_and_get_floor; emit_state_change other_change floor; return halted

unfoldable pub resume : M Mode
resume = do
  direction ← gets (λ w. w.previous_direction)
  start direction
  floor ← update_and_get_floor
  emit_state_change other_change floor
  return normal

unfoldable pub toggle_stop : M Mode
unfolding halt resume
toggle_stop = do
  lamp ← gets (λ w. get_stop_lamp w.driver)
  modify_state (λ s. record s { stopped = not lamp })
  on_driver (λ d. ok (set_stop_lamp (not lamp) d))
  if lamp then resume else halt

-- The new mode, and whether the button is pressed now.
unfoldable pub handle_stop : Bool → Mode → M (Mode × Bool)
unfolding toggle_stop
handle_stop stop_last mode = do
  pressed ← gets (λ w. get_stop w.driver)
  mode' ← if pressed && not stop_last then toggle_stop else return mode
  return (mode', pressed)

-- `while ( _driver.getObstruction() ) { }`
unfoldable pub wait_obstruction : M (Unit {0})
wait_obstruction w =
    if w.obstruction_clears
    then (
      record w {
        driver = record w.driver { io = io_set_bit Channels.obstruction false w.driver.io };
      },
      returned tt,
    )
    else (w, hung)

unfoldable pub handle_obstruction : M (Unit {0})
unfolding wait_obstruction
handle_obstruction = do
  obstructed ← gets (λ w. get_obstruction w.driver)
  when obstructed (do on_driver shutdown; wait_obstruction)

unfoldable pub call_here : Bool → ℤ → M (Unit {0})
call_here upwards floor = do
  old ← set_floor (if upwards then upward else downward) true floor
  on_driver (
      set_button_lamp (record { type = if upwards then call_up else call_down; floor = floor })
        true)
  emit_state_change (if upwards then going_to_serve_up else going_to_serve_down) floor

unfoldable pub obey : CommandType → ℤ → M (Unit {0})
unfolding call_here
obey nothing floor = return tt
obey call_to_floor_and_go_up floor = call_here true floor
obey call_to_floor_and_go_down floor = call_here false floor
obey turn_on_light_up floor =
    on_driver (set_button_lamp (record { type = call_up; floor = floor }) true)
obey turn_off_light_up floor =
    on_driver (set_button_lamp (record { type = call_up; floor = floor }) false)
obey turn_on_light_down floor =
    on_driver (set_button_lamp (record { type = call_down; floor = floor }) true)
obey turn_off_light_down floor =
    on_driver (set_button_lamp (record { type = call_down; floor = floor }) false)

unfoldable pub obey_received : Option Command → M (Unit {0})
obey_received none = return tt
obey_received (some c) = do
  id ← gets (λ w. w.elev_state.id)
  assert ((c.target_elevator_id ==ℤ id) || (c.target_elevator_id ==ℤ any_id))
  obey c.command_type c.target_floor

unfoldable pub next_command : M (Option Command)
next_command w =
    let (q, c) = try_dequeue w.in_commands in (record w { in_commands = q }, returned c)

unfoldable pub handle_command : M (Unit {0})
unfolding obey_received next_command
handle_command = do c ← next_command; obey_received c
