-- ===== src/Main/Starting.antt =====
-- tools/main.cpp, elevator/elevator.cpp: a node's elevator from its construction on, recovered or
-- not.
use ttk.Prelude.{ℕ, ◌≡◌, refl, ◌∙◌, Bool, false, arith, [], Option, none, some}
use ttk.Prelude.Int.{ℤ, pos, ◌≤ℤ◌}
use ttk.Driver.{Direction}
use ttk.Driver.Io.{Io, io_write_analog}
use ttk.Driver.Ops.{new_driver, stop_elevator}
use ttk.FloorSet
use ttk.State.{StateChange, ElevatorState}
use ttk.Command.{Command}
use ttk.ConcurrentQueue.{ConcurrentQueue}
use ttk.Elevator.{World, returned}
use ttk.Elevator.Start.{new_elevator}
use ttk.Elevator.Inputs.{Locals, check_consistency}
use ttk.Elevator.Runs.{Reach}
use ttk.Elevator.Consistency.{IsSound, Consistent}
use ttk.Elevator.Consistency.Rounds.{Reach-Consistent}
use ttk.Elevator.Consistency.Checks.{check_consistency-passes}
use ttk.Elevator.Safety.Door.{DoorSafe, door_open_motor_off}
use ttk.Elevator.Safety.Motor.{MotorAgrees, motor_follows_direction}
use ttk.Main.{maybe_recover}

-- The recovered state, if there is one, is sound.
abbrev pub IsRecoverable : ℤ → Option ElevatorState → Type 0
IsRecoverable id none = Unit
IsRecoverable id (some s) = IsSound id s

module _ (id : ℤ) (in_commands : ConcurrentQueue Command) (unset : Direction) (io : Io)
    (clock : ℕ → ℕ) (clears : Bool) where
  -- The elevator of a node with an empty queue of reports, after the recovery.
  unfoldable pub built : Option ElevatorState → World
  unfolding maybe_recover new_elevator
  built recovered =
      (maybe_recover recovered
        (new_elevator id in_commands (record { queue = [] }) unset io clock clears)).0

  built-DoorSafe : (r : Option ElevatorState) → DoorSafe (built r)
  unfolding built stop_elevator io_write_analog
  built-DoorSafe none = λ lit. refl
  built-DoorSafe (some s) = λ lit. refl

  built-MotorAgrees : (r : Option ElevatorState) → MotorAgrees (built r)
  unfolding built new_driver stop_elevator io_write_analog
  built-MotorAgrees none = record {
    off = λ e. refl;
    on = λ n. absurd (n refl);
    way = λ n. absurd (n refl);
  }
  built-MotorAgrees (some s) = record {
    off = λ e. refl;
    on = λ n. absurd (n refl);
    way = λ n. absurd (n refl);
  }

  built-clears : (r : Option ElevatorState) → (built r).obstruction_clears ≡ clears
  unfolding built
  built-clears none = refl
  built-clears (some s) = refl

  built-Consistent :
      {Foreign : StateChange → Type 0} (r : Option ElevatorState)
      → IsRecoverable id r
      → Consistent Foreign id (built r)
  unfolding built new_driver stop_elevator FloorSet.empty
  built-Consistent none v = record {
    hardware = refl;
    sound = record {
      own_id = refl;
      on_floor = omega arith;
      inside_floors = omega arith;
      up_floors = omega arith;
      down_floors = omega arith;
    };
    reports = tt;
  }
  built-Consistent (some s) v = record {
    hardware = refl;
    sound = record {
      own_id = v.own_id;
      on_floor = v.on_floor;
      inside_floors = v.inside_floors;
      up_floors = v.up_floors;
      down_floors = v.down_floors;
    };
    reports = tt;
  }

  -- From the construction of a node's elevator on, with a recovered state or without, and whatever
  -- the hardware's bits are at the start: between two rounds a lit door lamp means that the motor
  -- is off, the state stays on the four floors, and so does every change in the queue but the
  -- foreign ones that the environment put in, and the check of the next round passes. The
  -- identifier is from 0 on, and a recovered state must be one that the elevator could have
  -- reported.
  pub built-safe :
      {Foreign : StateChange → Type 0} (r : Option ElevatorState) (w : World) (l : Locals)
      → IsRecoverable id r
      → pos 0 ≤ℤ id
      → Reach Foreign (built r) (w, returned l)
      → DoorSafe w × Consistent Foreign id w × (check_consistency w ≡ (w, returned tt))
  built-safe {Foreign} r w l v natural reach = (
    door_open_motor_off (built r) w l (built-DoorSafe r) reach,
    Reach-Consistent Foreign id (built r) (w, returned l) (built-Consistent r v) reach,
    check_consistency-passes id (built r) w l (built-Consistent r v) natural reach,
  )

  -- Where an obstruction that is met does not go away, the motor follows the direction as well.
  built-motor :
      {Foreign : StateChange → Type 0} (r : Option ElevatorState) (w : World) (l : Locals)
      → clears ≡ false
      → Reach Foreign (built r) (w, returned l)
      → MotorAgrees w
  built-motor r w l lasting reach =
      motor_follows_direction (built r) w l (built-MotorAgrees r) (built-clears r ∙ lasting) reach
