-- ===== src/Elevator/Start.antt =====
-- elevator/elevator.h and elevator/elevator.cpp: the constructor and recover.
use ttk.Prelude.{ℕ, Bool, not}
use ttk.Prelude.Int.{ℤ}
use ttk.Driver.{Direction, stay}
use ttk.Driver.Io.{Io}
use ttk.Driver.Ops.{driver_info, new_driver}
use ttk.State.{ElevatorState, StateChange, new_state}
use ttk.Command.{Command}
use ttk.ConcurrentQueue.{ConcurrentQueue}
use ttk.Elevator.{World, M, ◌>>◌, assert, modify_state}

-- The driver is constructed on the hardware as it is; `unset` is what it has for a last direction.
-- The clock and the outlook on an obstruction belong to the environment.
unfoldable pub new_elevator :
    ℤ
    → ConcurrentQueue Command
    → ConcurrentQueue StateChange
    → Direction
    → Io
    → (ℕ → ℕ)
    → Bool
    → World
unfolding new_driver new_state
new_elevator id in_commands out_state unset io clock clears = record {
  driver = new_driver unset io;
  elev_state = record new_state { id = id; last_floor = driver_info.min_floor };
  previous_direction = stay;
  last_state_update = 0;
  in_commands = in_commands;
  out_state = out_state;
  clock = clock;
  readings = 0;
  obstruction_clears = clears;
}

-- `started` says that the thread can be joined, or that the elevator was terminated.
unfoldable pub recover : Bool → ElevatorState → M (Unit {0})
recover started state = do
  assert (not started)
  modify_state (λ s. record state { direction = stay })
