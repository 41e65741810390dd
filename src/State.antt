-- ===== src/State.antt =====
-- elevator/state.h: the state of one elevator, and the changes that it reports.
use ttk.Prelude.{ℕ, Bool, true, false, ◌==◌}
use ttk.Prelude.Int.{ℤ, pos, leb_ℤ, int_min}
use ttk.Outcome.{Outcome, ◌>>=◌, ◌>>◌, assert}
use ttk.Driver.{Direction, stay, DriverInfo}
use ttk.FloorSet
use ttk.FloorSet.{FloorSet}

pub data ChangeType : Type 0 where
  none keep_alive inside_button_pressed button_down_pressed button_up_pressed : ChangeType
  going_to_serve_up going_to_serve_down served served_up served_down other_change : ChangeType

pub record ElevatorState : Type 0 where
  pub id : ℤ
  pub timestamp : ℕ
  pub last_floor : ℤ
  pub direction : Direction
  pub stopped : Bool
  pub door_open : Bool
  pub inside_buttons : FloorSet
  pub up_buttons : FloorSet
  pub down_buttons : FloorSet

pub record StateChange : Type 0 where
  pub change_type : ChangeType
  pub change_floor : ℤ
  pub state : ElevatorState

unfoldable pub new_state : ElevatorState
unfolding FloorSet.empty
new_state = record {
  id = int_min;
  timestamp = 0;
  last_floor = int_min;
  direction = stay;
  stopped = false;
  door_open = true;
  inside_buttons = FloorSet.empty;
  up_buttons = FloorSet.empty;
  down_buttons = FloorSet.empty;
}

check_set : DriverInfo → FloorSet → Outcome (Unit {0})
check_set d s = do fine ← FloorSet.consistent d s; assert fine

-- The test of the direction has no case that fails: the type has these three values.
unfoldable pub assert_consistency : DriverInfo → ElevatorState → Outcome (Unit {0})
unfolding check_set
assert_consistency d s = do
  assert (leb_ℤ (pos 0) s.id)
  check_set d s.inside_buttons
  check_set d s.up_buttons
  check_set d s.down_buttons
  assert (leb_ℤ d.min_floor s.last_floor)

-- The values of the enumeration, in the order of its declaration, and ==.
abbrev pub change_value : ChangeType → ℕ
change_value none = 0
change_value keep_alive = 1
change_value inside_button_pressed = 2
change_value button_down_pressed = 3
change_value button_up_pressed = 4
change_value going_to_serve_up = 5
change_value going_to_serve_down = 6
change_value served = 7
change_value served_up = 8
change_value served_down = 9
change_value other_change = 10

unfoldable pub same_change : ChangeType → ChangeType → Bool
same_change a b = change_value a == change_value b
