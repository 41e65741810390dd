-- ===== src/Elevator/Safety/Motor.antt =====
-- elevator/elevator.cpp: the motor does what the direction of the state says, unless an obstruction
-- is met that goes away again.
use ttk.Prelude.{ℕ, ◌+◌, ◌*◌, ◌≡◌, ◌≢◌, inl, inr, refl, sym, ap, ◌∙◌, Bool, true, false, arith}
use ttk.Outcome.{ok, Outcome-cases, ok_injective, failed-ne_ok}
use ttk.State.{StateChange, ElevatorState}
use ttk.Driver.{DriverInfo, Direction, stay, up, down, is_direction}
use ttk.Driver.Channels
use ttk.Driver.Io.{io_set_bit, io_write_analog, io_read_bit}
use ttk.Driver.Ops.{
  set_door_open_lamp, set_stop_lamp, stop_elevator, set_motor_speed, shutdown, get_obstruction,
  all_floors,
}
use ttk.Elevator.{
  World, Result, returned, raised, hung, on_driver, ◌>>◌, and_then, from_outcome-returned,
}
use ttk.Elevator.Triples.{Post, Triple, Triple-bind, Triple-when}
use ttk.Elevator.Quiet.{SameDrive}
use ttk.Elevator.Motion.{
  stop, start, aim, drive, choose, update_and_get_floor, optimal_direction, count_floors,
  floors_to_serve,
}
use ttk.Elevator.Inputs.{Locals, handle_obstruction, wait_obstruction}
use ttk.Elevator.Runs.{Reach}
use ttk.Elevator.Safety.{Drives, Reach-keeps}

-- The value that `setMotorSpeed` writes at the speed of the elevator.
abbrev pub running : ℕ
running = 2048 + 4 * 300

pub record MotorAgrees (w : World) : Type 0 where
  pub off : w.elev_state.direction ≡ stay → w.driver.io.analog Channels.motor ≡ 0
  pub on : w.elev_state.direction ≢ stay → w.driver.io.analog Channels.motor ≡ running
  pub way :
      w.elev_state.direction ≢ stay
      → io_read_bit Channels.motordir w.driver.io ≡ is_direction w.elev_state.direction down

abbrev pub Lasting : World → Type 0
Lasting w = w.obstruction_clears ≡ false

abbrev Agrees : World → Type 0
Agrees w = MotorAgrees w × Lasting w

stops : Triple Lasting stop Agrees Lasting
unfolding stop on_driver stop_elevator io_set_bit io_write_analog io_read_bit
stops w h = ground arith

drives : (d : Direction) → d ≢ stay → Triple Lasting (drive d) Agrees Lasting
unfolding drive on_driver set_motor_speed set_door_open_lamp io_set_bit io_write_analog io_read_bit
drives d n w h = ground arith

-- The elevator never starts without a direction.
optimal-ne_stay :
    (i : DriverInfo) (s : ElevatorState) (c : Direction) → optimal_direction i s ≡ ok c → c ≢ stay
unfolding optimal_direction
optimal-ne_stay i s c e =
    elim (Outcome-cases (count_floors (floors_to_serve s) s.last_floor i (all_floors i) (0, 0))) [
      | inl f ↦ absurd (failed-ne_ok (rw f at e))
      | inr (counts, f) ↦ λ n. ground (arith, ok_injective (rw f at e), n)
    ]

choose-ne_stay :
    (d : Direction) (i : DriverInfo) (s : ElevatorState) (c : Direction)
    → choose d i s ≡ ok c
    → c ≢ stay
unfolding choose
choose-ne_stay stay i s c e = optimal-ne_stay i s c e
choose-ne_stay up i s c e = λ n. cc
choose-ne_stay down i s c e = λ n. cc

-- What `aim` leaves, and that its choice is a direction of travel.
aims :
    (d : Direction) (w : World)
    → ((aim d w).0.obstruction_clears ≡ w.obstruction_clears)
      × ((c : Direction) → (aim d w).1 ≡ returned c → c ≢ stay)
unfolding aim update_and_get_floor
aims d w = (refl, λ c e. choose-ne_stay _ _ _ c (from_outcome-returned _ e))

starts : (d : Direction) → Triple Lasting (start d) Agrees Lasting
unfolding start
starts d w h = let (clears, moves) = aims d w in drive_after (aim d w) (clears ∙ h) moves
  where
    drive_after :
        (x : World × Result Direction)
        → Lasting x.0
        → ((c : Direction) → x.1 ≡ returned c → c ≢ stay)
        → Post Agrees Lasting (and_then x.0 x.1 drive)
    drive_after (v, returned c) k m = drives c (m c refl) v k
    drive_after (v, raised) k m = k
    drive_after (v, hung) k m = k

opens : Triple Agrees (on_driver (λ d. ok (set_door_open_lamp true d))) Lasting Lasting
unfolding on_driver
opens w h = h.1

closes : Triple Agrees (on_driver (λ d. ok (set_door_open_lamp false d))) Agrees Lasting
unfolding on_driver set_door_open_lamp io_set_bit io_read_bit
closes w h = ground arith

stop_lamp : (v : Bool) → Triple Agrees (on_driver (λ d. ok (set_stop_lamp v d))) Agrees Lasting
unfolding on_driver set_stop_lamp io_set_bit io_read_bit
stop_lamp v w h = ground arith

-- An obstruction that lasts keeps the thread in its loop.
waits : Triple Lasting wait_obstruction Agrees Lasting
unfolding wait_obstruction
waits w k = ground arith

shuts : Triple Agrees (on_driver shutdown) Lasting Lasting
unfolding on_driver
shuts w h = elim (Outcome-cases (shutdown w.driver)) [ inl e ↦ rw e h.1 | inr (d, e) ↦ rw e h.1 ]

obstructs : Triple Agrees handle_obstruction Agrees Lasting
unfolding handle_obstruction
obstructs w =
    Triple-when Agrees Lasting (get_obstruction w.driver) (on_driver shutdown >> wait_obstruction)
      (Triple-bind Agrees Lasting Agrees Lasting (on_driver shutdown) (λ _. wait_obstruction) shuts
        (λ _. waits))
      w

keeps : (w w' : World) → SameDrive w w' → Agrees w → Agrees w'
keeps w w' s h = (
  record {
    off = λ e. s.same_motor ∙ h.0.off (sym s.same_direction ∙ e);
    on = λ n. s.same_motor ∙ h.0.on (λ e. n (s.same_direction ∙ e));
    way = λ n.
        s.same_motordir
        ∙ h.0.way (λ e. n (s.same_direction ∙ e))
        ∙ ap (λ (d : Direction). is_direction d down) (sym s.same_direction);
  },
  s.same_clears ∙ h.1,
)

motor_law : Drives Agrees Lasting
motor_law = record {
  weaken = λ w h. h.1;
  keep = keeps;
  keep_weak = λ w w' s h. s ∙ h;
  stops = stops;
  starts = starts;
  opens = opens;
  closes = closes;
  stop_lamp = stop_lamp;
  obstructs = obstructs;
}

-- Between two rounds of the control loop the motor is off when the direction of the state is none,
-- and otherwise it runs at the elevator's speed in that direction: in every state that can be
-- reached from a start with this property, in an environment where an obstruction that is met does
-- not go away, also across failed assertions and restarts of the loop.
pub motor_follows_direction :
    {Foreign : StateChange → Type 0} (w₀ w : World) (l : Locals)
    → MotorAgrees w₀
    → w₀.obstruction_clears ≡ false
    → Reach Foreign w₀ (w, returned l)
    → MotorAgrees w
motor_follows_direction w₀ w l h k r = (Reach-keeps Agrees Lasting motor_law (h, k) r).0
