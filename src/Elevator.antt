-- ===== src/Elevator.antt =====
-- elevator/elevator.h: the object behind the control loop, and the monad of its methods. A method
-- changes the world also where an assertion then fails: the exception unwinds, the fields stay.
pub mod Motion
pub mod Lights
pub mod Inputs
pub mod Cycle
pub mod Quiet
pub mod Runs
pub mod Triples
pub mod Stopping
pub mod Buttons
pub mod Directions
pub mod Majority
pub mod Consistency
pub mod Start
pub mod Safety
use ttk.Prelude.{ℕ, suc, ◌+◌, ◌≡◌, Bool, true, false, List, [], ◌∷◌, ◌++◌, Option, none, some}
use ttk.Prelude.Int.{ℤ, pos}
use ttk.Outcome
use ttk.Outcome.{Outcome}
use ttk.Driver.{Direction, stay, up, down, Button, DriverInfo}
use ttk.Driver.Ops.{Driver}
use ttk.FloorSet
use ttk.FloorSet.{FloorSet}
use ttk.Command.{Command}
use ttk.State.{ElevatorState, StateChange, ChangeType}
use ttk.ConcurrentQueue.{ConcurrentQueue, enqueue, try_dequeue}

-- `clock` is the sequence of the readings of the steady clock, and `readings` how many were made.
-- `obstruction_clears` says whether the environment ends an obstruction.
pub record World : Type 0 where
  pub driver : Driver
  pub elev_state : ElevatorState
  pub previous_direction : Direction
  pub last_state_update : ℕ
  pub in_commands : ConcurrentQueue Command
  pub out_state : ConcurrentQueue StateChange
  pub clock : ℕ → ℕ
  pub readings : ℕ
  pub obstruction_clears : Bool

-- `raised`: an assertion failed. `hung`: the method loops for ever.
pub data Result (A : Type 0) : Type 0 where
  returned : A → Result A
  raised : Result A
  hung : Result A

abbrev pub M : Type 0 → Type 0
M A = World → World × Result A

-- What follows a step that returned.
abbrev pub and_then : {A B : Type 0} → World → Result A → (A → M B) → World × Result B
and_then w (returned a) f = f a w
and_then w raised f = (w, raised)
and_then w hung f = (w, hung)

infixl 5 ◌>>=◌ ◌>>◌
abbrev pub ◌>>=◌ : {A B : Type 0} → M A → (A → M B) → M B
◌>>=◌ m f w = let (w', r) = m w in and_then w' r f

abbrev pub ◌>>◌ : {B : Type 0} → M (Unit {0}) → M B → M B
m >> k = m >>= λ _. k

abbrev pub return : {A : Type 0} → A → M A
return a w = (w, returned a)

abbrev pub from_outcome : {A : Type 0} → Outcome A → Result A
from_outcome (Outcome.ok a) = returned a
from_outcome Outcome.failed = raised

pub from_outcome-returned :
    {A : Type 0} (o : Outcome A) {a : A} → from_outcome o ≡ returned a → o ≡ Outcome.ok a
from_outcome-returned (Outcome.ok b) e = cc
from_outcome-returned Outcome.failed e = cc

abbrev pub lift : {A : Type 0} → Outcome A → M A
lift o w = (w, from_outcome o)

abbrev pub assert : Bool → M (Unit {0})
assert b = lift (Outcome.assert b)

-- An if with no else.
abbrev pub when : Bool → M (Unit {0}) → M (Unit {0})
when true m = m
when false m = return tt

-- Read a part of the world.
abbrev pub gets : {A : Type 0} → (World → A) → M A
gets f w = (w, returned (f w))

abbrev pub modify_state : (ElevatorState → ElevatorState) → M (Unit {0})
modify_state f w = (record w { elev_state = f w.elev_state }, returned tt)

abbrev pub set_driver : Driver → M (Unit {0})
set_driver d w = (record w { driver = d }, returned tt)

-- A call on the driver that may fail an assertion.
unfoldable pub on_driver : (Driver → Outcome Driver) → M (Unit {0})
on_driver f = do d ← gets (λ w. w.driver); d' ← lift (f d); set_driver d'

unfoldable pub ask_driver : {A : Type 0} → (Driver → Outcome A) → M A
ask_driver f = do d ← gets (λ w. w.driver); lift (f d)

-- now()
unfoldable pub now : M ℕ
now w = (record w { readings = suc w.readings }, returned (w.clock w.readings))

abbrev pub info : World → DriverInfo
info w = w.driver.info

-- Which of the three floor sets of the state.
pub data ButtonSet : Type 0 where
  inside upward downward : ButtonSet

abbrev pub buttons : ButtonSet → ElevatorState → FloorSet
buttons inside s = s.inside_buttons
buttons upward s = s.up_buttons
buttons downward s = s.down_buttons

abbrev pub with_buttons : ButtonSet → FloorSet → ElevatorState → ElevatorState
with_buttons inside b s = record s { inside_buttons = b }
with_buttons upward b s = record s { up_buttons = b }
with_buttons downward b s = record s { down_buttons = b }

-- `_elevState.…Buttons.set( value, floor, _driver )`, with its result.
unfoldable pub set_floor : ButtonSet → Bool → ℤ → M Bool
set_floor which value floor = do
  w ← gets (λ w. w)
  r ← lift (FloorSet.set value floor (info w) (buttons which w.elev_state))
  modify_state (with_buttons which r.0)
  return r.1

-- The same without the result.
unfoldable pub put_floor : ButtonSet → Bool → ℤ → M (Unit {0})
unfolding set_floor
put_floor which value floor = do old ← set_floor which value floor; return tt

-- _emitStateChange
unfoldable pub emit_state_change : ChangeType → ℤ → M (Unit {0})
unfolding now
emit_state_change type floor = do
  t ← now
  λ w.
      let change : StateChange = record {
        change_type = type;
        change_floor = floor;
        state = record w.elev_state { timestamp = t };
      } in
      (record w { last_state_update = t; out_state = enqueue change w.out_state }, returned tt)
