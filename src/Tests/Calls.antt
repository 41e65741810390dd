-- ===== src/Tests/Calls.antt =====
-- tools/main.cpp: a call on the panel of a node with one elevator.
use ttk.Prelude.{◌+◌, ◌≡◌, refl, sym, subst, In, head, inl, inr, arith, true, false, ◌||◌, [], ◌∷◌}
use ttk.Prelude.Int.{ℤ, pos, ◌==ℤ◌}
use ttk.Outcome.{ok}
use ttk.Driver.{call_up, stay}
use ttk.Driver.Channels
use ttk.Driver.Ops.{driver_info}
use ttk.State.{StateChange, ElevatorState, button_up_pressed, other_change}
use ttk.ConcurrentQueue.{enqueue}
use ttk.Elevator.{World, returned}
use ttk.Elevator.Inputs.{normal, Locals}
use ttk.Elevator.Cycle.{cycle, enter, initial_locals, rest}
use ttk.Elevator.Lights.{clear_direction_button_lamp, cleared_button}
use ttk.Elevator.Runs.{Reach, entered, round, changed, shared}
use ttk.Elevator.Consistency.{Consistent}
use ttk.RequestQueue.{new_request, insert}
use ttk.GlobalState.{new_global_state, put}
use ttk.Scheduler.{Scheduler, sched_round, light_command, call_command}
use ttk.Scheduler.Choosing.{IsBest}
use ttk.Scheduler.Serving.{Sends}
use ttk.Main.Calls.{FromOthers, informed, reported-served}
use ttk.Tests.Elevators.{parked, served_locals, parked-Consistent}

-- Somebody on floor 2 wants to go up.
abbrev calling : World
calling = record parked {
  driver = record parked.driver {
    io = record {
      set_bits = λ c. (c ==ℤ Channels.sensor1) || (c ==ℤ pos (0x300 + 16));
      analog = λ c. 0;
    };
  };
}

abbrev called : World
called = (cycle (initial_locals normal) (enter calling).0).0

abbrev panel_state : ElevatorState
panel_state = record {
  id = pos 0;
  timestamp = 1000;
  last_floor = pos 1;
  direction = stay;
  stopped = false;
  door_open = true;
  inside_buttons = record { floors = 0 };
  up_buttons = record { floors = 0 };
  down_buttons = record { floors = 0 };
}

abbrev press : StateChange
press = record { change_type = button_up_pressed; change_floor = pos 2; state = panel_state }

abbrev lights : StateChange
lights = record {
  change_type = other_change;
  change_floor = pos 1;
  state = record panel_state { timestamp = 1001 };
}

reports : called.out_state.queue ≡ press ∷ lights ∷ []
unfolding served_locals rest clear_direction_button_lamp cleared_button enqueue
reports = refl

calling-Consistent : Consistent (FromOthers (pos 0)) (pos 0) calling
calling-Consistent = record { hardware = refl; sound = parked-Consistent.sound; reports = tt }

-- The light is taken and a change of node 1 comes in behind the press.
abbrev elsewhere : StateChange
elsewhere = record {
  change_type = other_change;
  change_floor = pos 3;
  state = record panel_state { id = pos 1 };
}

abbrev joined : World
joined = record called { out_state = record { queue = press ∷ elsewhere ∷ [] } }

called_reached : (l : Locals) × Reach (FromOthers (pos 0)) calling (called, returned l)
unfolding served_locals rest clear_direction_button_lamp cleared_button
called_reached = (_, round entered)

joined_reached : Reach (FromOthers (pos 0)) calling (joined, returned called_reached.0)
joined_reached = changed called_reached.1 (
    shared (record { queue = press ∷ elsewhere ∷ [] })
      (inl (subst (In press) (sym reports) (head _)), (inr (λ e. cc), tt)))

abbrev scheduler : Scheduler
scheduler = record {
  local_elev_id = pos 0;
  bounds = driver_info;
  global_state = new_global_state;
  state_update_in = joined.out_state;
  state_update_out = record { queue = [] };
  commands_to_remote = record { queue = [] };
  commands_to_local = record { queue = [] };
  sched_beat = 0;
  req_beat = 0;
  clock = λ n. 1002000000 + n;
  readings = 0;
}

reported-served_example :
    (i : ℤ) × (s' : Scheduler) × (sched_round [] scheduler ≡ (s', ok tt))
    × IsBest driver_info 1002 call_up (pos 2) (put (pos 0) panel_state new_global_state.elevators) i
    × Sends
        (light_command call_up (pos 2) ∷ call_command call_up i (pos 2) ∷ [])
        (informed press (elsewhere ∷ []) scheduler)
        s'
    × (s'.global_state.requests
        ≡ insert
            (new_request (call_command call_up i (pos 2)) 100 1002000001)
            new_global_state.requests)
unfolding new_global_state
reported-served_example =
    reported-served (pos 0) calling joined called_reached.0 scheduler true press (elsewhere ∷ [])
      calling-Consistent (omega arith) joined_reached refl refl refl refl refl tt refl
      (record { above_min = omega arith; below_max = omega arith }) (omega arith)
