-- ===== src/Elevator/Safety/Door.antt =====
-- elevator/elevator.cpp: the door is shown open only while the motor is off.
use ttk.Prelude.{◌≡◌, refl, sym, ◌∙◌, Bool, true, false, arith, inl, inr}
use ttk.Outcome.{ok, Outcome-cases}
use ttk.Driver.{Direction}
use ttk.Driver.Channels
use ttk.Driver.Io.{io_set_bit, io_write_analog, io_read_bit}
use ttk.Driver.Ops.{
  get_door_open_lamp, set_door_open_lamp, set_stop_lamp, stop_elevator, set_motor_speed, shutdown,
  init, get_obstruction,
}
use mathlib.Core.Bool.{false≢true}
use ttk.Driver.Shutdown.{init_door_off}
use ttk.Elevator.{World, Result, returned, raised, hung, on_driver, ◌>>◌}
use ttk.Elevator.Triples.{Post, Triple, Triple-bind, Triple-when}
use ttk.Elevator.Motion.{stop, start, aim, drive}
use ttk.Elevator.Inputs.{Locals, handle_obstruction, wait_obstruction}
use ttk.State.{StateChange}
use ttk.Elevator.Runs.{Reach}
use ttk.Elevator.Safety.{Drives, Reach-keeps}

abbrev pub DoorSafe : World → Type 0
DoorSafe w = get_door_open_lamp w.driver ≡ true → w.driver.io.analog Channels.motor ≡ 0

abbrev Anything : World → Type 0
Anything w = Unit {0}

anything : {A : Type 0} (x : World × Result A) → Post Anything Anything x
anything (w, returned a) = tt
anything (w, raised) = tt
anything (w, hung) = tt

stops : Triple Anything stop DoorSafe Anything
unfolding stop on_driver stop_elevator io_set_bit io_write_analog
stops w h = λ e. refl

drives : (d : Direction) → Triple Anything (drive d) DoorSafe Anything
unfolding drive on_driver set_motor_speed set_door_open_lamp get_door_open_lamp io_set_bit
    io_read_bit
drives d w h = λ e. cc

closes : Triple DoorSafe (on_driver (λ d. ok (set_door_open_lamp false d))) DoorSafe Anything
unfolding on_driver set_door_open_lamp get_door_open_lamp io_set_bit io_read_bit
closes w h = λ e. cc

stop_lamp : (v : Bool) → Triple DoorSafe (on_driver (λ d. ok (set_stop_lamp v d))) DoorSafe Anything
unfolding on_driver set_stop_lamp get_door_open_lamp io_set_bit io_read_bit
stop_lamp v w h = h

shuts_down : Triple DoorSafe (on_driver shutdown) DoorSafe Anything
unfolding on_driver shutdown
shuts_down w h = elim (Outcome-cases (init (stop_elevator w.driver))) [
  | inl e ↦ rw e tt
  | inr (d, e) ↦
      rw e (λ lit. absurd (false≢true (sym (init_door_off (stop_elevator w.driver) e) ∙ lit)))
]

waits : Triple DoorSafe wait_obstruction DoorSafe Anything
unfolding wait_obstruction get_door_open_lamp io_read_bit io_set_bit
waits w h = ground arith

obstructs : Triple DoorSafe handle_obstruction DoorSafe Anything
unfolding handle_obstruction
obstructs w =
    Triple-when DoorSafe Anything (get_obstruction w.driver)
      (on_driver shutdown >> wait_obstruction)
      (Triple-bind DoorSafe DoorSafe DoorSafe Anything (on_driver shutdown) (λ _. wait_obstruction)
        shuts_down (λ _. waits))
      w

door_law : Drives DoorSafe Anything
unfolding start
door_law = record {
  weaken = λ w h. tt;
  keep = λ w w' s h e. s.same_motor ∙ h (sym s.same_door ∙ e);
  keep_weak = λ w w' s h. tt;
  stops = stops;
  starts = λ d.
      Triple-bind Anything Anything DoorSafe Anything (aim d) drive (λ w h. anything (aim d w))
        drives;
  opens = λ w h. anything (on_driver (λ d. ok (set_door_open_lamp true d)) w);
  closes = closes;
  stop_lamp = stop_lamp;
  obstructs = obstructs;
}

-- A lit door lamp means that the motor is off, in every state between two rounds of the control
-- loop that can be reached from a start with this property, whatever buttons, sensors and commands
-- do between the rounds, also across failed assertions and restarts of the loop.
pub door_open_motor_off :
    {Foreign : StateChange → Type 0} (w₀ w : World) (l : Locals)
    → DoorSafe w₀
    → Reach Foreign w₀ (w, returned l)
    → DoorSafe w
door_open_motor_off w₀ w l h r = Reach-keeps DoorSafe Anything door_law h r
