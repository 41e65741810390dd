-- ===== src/Tests/Elevators.antt =====
-- elevator/elevator.cpp: a car on floor 1 with the inside button of floor 1 pressed.
use ttk.Prelude.{
  ◌+◌, ◌≡◌, ◌≢◌, ◌⊎◌, ◌↔◌, In, arith, refl, Bool, true, false, ◌||◌, [], some, List, length, leb,
  if◌then◌else◌,
}
use ttk.Prelude.Int.{ℤ, pos, ◌==ℤ◌, ◌+ℤ◌, ◌<ℤ◌}
use ttk.Outcome.{ok, Decides}
use ttk.Driver.{stay, up, down, call_up, InBounds}
use ttk.Driver.Channels
use ttk.Driver.Channels.{lamp_channel, button_channel}
use ttk.Driver.Io.{io_set_bit, io_write_analog, io_read_bit}
use ttk.Driver.Ops.{
  driver_info, get_door_open_lamp, get_stop_lamp, get_obstruction, all_floors, set_button_lamp,
  get_button_lamp, lamp, button, get_button_signal, get_stop, get_floor, set_floor_indicator,
  set_door_open_lamp, stop_elevator, new_driver,
}
use ttk.Driver.Shutdown.{LampsOff}
use ttk.FloorSet
use ttk.FloorSet.{FloorSet, Has}
use ttk.State.{StateChange, ElevatorState, assert_consistency, new_state}
use ttk.ConcurrentQueue.{try_dequeue}
use ttk.Elevator.{
  World, Result, returned, raised, hung, on_driver, ask_driver, now, set_floor, put_floor,
  emit_state_change,
}
use ttk.Elevator.Motion.{update_and_get_floor, stop, start, all_buttons, optimal_direction}
use ttk.Elevator.Stopping.{Reason, should_stop-Reason}
use ttk.Elevator.Majority.{Lists, Wanted, optimal_direction-majority}
use ttk.Elevator.Buttons.{Exists, gen_floor_buttons-Exists}
use ttk.Elevator.Directions.{known_floor, start-direction}
use ttk.Elevator.Lights.{
  initialize_elevator, initialize_floors, initialize_floor, initialize_lamps, gen_floor_buttons,
  buttons_of, set_button_lamp_and_flag, should_stop,
}
use ttk.Elevator.Inputs.{
  normal, Locals, check_consistency, handle_button, handle_buttons, handle_stop, handle_obstruction,
  handle_command,
}
use ttk.Elevator.Cycle.{
  cycle, enter, initial_locals, handle_floor, guard_top, guard_bottom, show_floor, finish_cycle,
  handle_mode, handle_normal, arrived, arrive, begin_wait, finish_arrival, keep_alive_check,
}
use ttk.Elevator.Runs.{Reach, entered}
use ttk.Elevator.Consistency.{Consistent}
use ttk.Elevator.Consistency.Rounds.{Reach-Consistent}
use ttk.Elevator.Start.{new_elevator, recover}
use ttk.Main.{maybe_recover}
use ttk.Main.Starting.{built, built-safe}
use ttk.Elevator.Safety.Door.{DoorSafe, door_open_motor_off}
use ttk.Elevator.Safety.Motor.{MotorAgrees, motor_follows_direction, running}
use ttk.Elevator.Safety.Obstruction.{handle_obstruction-hung, handle_obstruction-stale}

-- The sensor of floor 1, the inside button of floor 1, and the lamp of the open door.
abbrev at_first : ℤ → Bool
at_first c = (c ==ℤ Channels.sensor1) || (c ==ℤ pos (0x300 + 21)) || (c ==ℤ Channels.door_open)

abbrev parked_state : ElevatorState
parked_state = record {
  id = pos 0;
  timestamp = 0;
  last_floor = pos 1;
  direction = stay;
  stopped = false;
  door_open = true;
  inside_buttons = record { floors = 0 };
  up_buttons = record { floors = 0 };
  down_buttons = record { floors = 0 };
}

abbrev pub parked : World
parked = record {
  driver = record {
    info = driver_info;
    last_direction = stay;
    io = record { set_bits = at_first; analog = λ c. 0 };
  };
  elev_state = parked_state;
  previous_direction = stay;
  last_state_update = 0;
  in_commands = record { queue = [] };
  out_state = record { queue = [] };
  clock = λ n. 1000 + n;
  readings = 0;
  obstruction_clears = false;
}

abbrev entered_world : World
entered_world = (enter parked).0

abbrev locals_of : World × Result Locals → Locals
locals_of (w, returned l) = l
locals_of (w, raised) = initial_locals normal
locals_of (w, hung) = initial_locals normal

abbrev served_world : World
served_world = (cycle (initial_locals normal) entered_world).0

unfoldable pub served_locals : Locals
unfolding enter initialize_elevator initialize_floors initialize_floor initialize_lamps cycle
    check_consistency assert_consistency handle_buttons handle_button gen_floor_buttons buttons_of
    all_floors ◌+ℤ◌ set_button_lamp_and_flag should_stop handle_stop handle_obstruction
    handle_command handle_floor guard_top guard_bottom show_floor finish_cycle handle_mode
    handle_normal arrived arrive begin_wait finish_arrival keep_alive_check update_and_get_floor
    stop all_buttons on_driver ask_driver now set_floor put_floor emit_state_change set_button_lamp
    get_button_lamp lamp button get_button_signal get_stop get_stop_lamp get_door_open_lamp
    get_obstruction get_floor set_floor_indicator set_door_open_lamp stop_elevator io_set_bit
    io_write_analog io_read_bit lamp_channel button_channel try_dequeue FloorSet.get FloorSet.set
    FloorSet.assign FloorSet.flag FloorSet.other_mask FloorSet.any_higher FloorSet.higher_mask
    FloorSet.consistent FloorSet.union FloorSet.reset FloorSet.has_any FloorSet.any_lower
    FloorSet.lower_mask FloorSet.empty
served_locals = locals_of (cycle (initial_locals normal) entered_world)

-- No node but this one.
abbrev Nothing : StateChange → Type 0
Nothing u = ⊥

entered_reached : Reach Nothing parked (entered_world, returned (initial_locals normal))
unfolding served_locals
entered_reached = entered

served_opens : get_door_open_lamp served_world.driver ≡ true
unfolding served_locals
served_opens = refl

parked-DoorSafe : DoorSafe parked
parked-DoorSafe = λ lit. refl

door_open_motor_off_example : DoorSafe entered_world
door_open_motor_off_example =
    door_open_motor_off parked entered_world (initial_locals normal) parked-DoorSafe entered_reached

parked-MotorAgrees : MotorAgrees parked
parked-MotorAgrees = record {
  off = λ e. refl;
  on = λ n. absurd (n refl);
  way = λ n. absurd (n refl);
}

motor_follows_direction_example : MotorAgrees entered_world
motor_follows_direction_example =
    motor_follows_direction parked entered_world (initial_locals normal) parked-MotorAgrees refl
      entered_reached

-- The car moves up, and something stands in the door.
abbrev blocked : Bool → World
blocked clears = record parked {
  driver = record {
    info = driver_info;
    last_direction = up;
    io = record { set_bits = λ c. c ==ℤ Channels.obstruction; analog = λ c. running };
  };
  elev_state = record parked_state { direction = up };
  obstruction_clears = clears;
}

handle_obstruction-hung_example :
    (w' : World) × (handle_obstruction (blocked false) ≡ (w', hung))
    × LampsOff w'.driver
    × (w'.driver.io.analog Channels.motor ≡ 0)
unfolding get_obstruction io_read_bit
handle_obstruction-hung_example = handle_obstruction-hung (blocked false) refl refl refl

handle_obstruction-stale_example :
    (w' : World) × (handle_obstruction (blocked true) ≡ (w', returned tt))
    × (w'.elev_state.direction ≡ up)
    × (w'.driver.io.analog Channels.motor ≡ 0)
    × (¬ MotorAgrees w')
unfolding get_obstruction io_read_bit
handle_obstruction-stale_example = handle_obstruction-stale (blocked true) refl refl refl (λ e. cc)

abbrev at_two : InBounds (pos 2) driver_info
at_two = record { above_min = omega arith; below_max = omega arith }

should_stop-Reason_example : Decides (should_stop (pos 2) driver_info parked_state) (
    Has parked_state.inside_buttons driver_info (pos 2)
    ⊎ Reason stay driver_info parked_state (pos 2))
should_stop-Reason_example =
    should_stop-Reason (pos 2) driver_info parked_state at_two (omega arith, omega arith)
      (record { inside = omega arith; upward = omega arith; downward = omega arith })

gen_floor_buttons-Exists_example :
    In (record { type = call_up; floor = pos 2 }) (gen_floor_buttons driver_info)
    ↔ Exists driver_info (record { type = call_up; floor = pos 2 })
gen_floor_buttons-Exists_example =
    gen_floor_buttons-Exists driver_info (record { type = call_up; floor = pos 2 })

start-direction_example :
    ((known_floor parked ≡ pos 1) × ((start up parked).0.elev_state.direction ≡ up))
    ⊎ ((known_floor parked ≢ pos 1)
        × (known_floor parked ≡ pos 4)
        × ((start up parked).0.elev_state.direction ≡ down))
    ⊎ ((known_floor parked ≢ pos 1)
        × (known_floor parked ≢ pos 4)
        × ((start up parked).0.elev_state.direction ≡ up))
start-direction_example = start-direction up parked (λ e. cc)

pub parked-Consistent : Consistent Nothing (pos 0) parked
parked-Consistent = record {
  hardware = refl;
  sound = record {
    own_id = refl;
    on_floor = record { above_min = omega arith; below_max = omega arith };
    inside_floors = omega arith;
    up_floors = omega arith;
    down_floors = omega arith;
  };
  reports = tt;
}

Reach-Consistent_example : Consistent Nothing (pos 0) entered_world
Reach-Consistent_example =
    Reach-Consistent Nothing (pos 0) parked (entered_world, returned (initial_locals normal))
      parked-Consistent entered_reached

-- A node that recovers on hardware at floor 1.
abbrev first_world : World
first_world =
    built (pos 0) (record { queue = [] }) stay (record { set_bits = at_first; analog = λ c. 0 })
      (λ n. 1000 + n) false (some parked_state)

abbrev first_round : World
first_round = (enter first_world).0

first_reached : Reach Nothing first_world (first_round, returned (initial_locals normal))
unfolding served_locals built maybe_recover recover new_elevator new_driver new_state
first_reached = entered

built-safe_example :
    DoorSafe first_round
    × Consistent Nothing (pos 0) first_round
    × (check_consistency first_round ≡ (first_round, returned tt))
built-safe_example =
    built-safe (pos 0) (record { queue = [] }) stay
      (record { set_bits = at_first; analog = λ c. 0 }) (λ n. 1000 + n) false (some parked_state)
      first_round (initial_locals normal) parked-Consistent.sound (omega arith) first_reached

-- Calls below on floor 1, and above on floors 3 and 4.
abbrev between : ElevatorState
between = record parked_state {
  last_floor = pos 2;
  up_buttons = record { floors = 1 };
  down_buttons = record { floors = 12 };
}

optimal_direction-majority_example :
    (below : List ℤ) × (above : List ℤ) × Lists
      (λ f. (Wanted driver_info between f × (f <ℤ pos 2)) × InBounds f driver_info)
      below
    × Lists (λ f. (Wanted driver_info between f × (pos 2 <ℤ f)) × InBounds f driver_info) above
    × (optimal_direction driver_info between
        ≡ ok (if leb (length below) (length above) then up else down))
optimal_direction-majority_example =
    optimal_direction-majority driver_info between (omega arith, omega arith)
      (record { inside = omega arith; upward = omega arith; downward = omega arith })
