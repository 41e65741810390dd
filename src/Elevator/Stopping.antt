-- ===== src/Elevator/Stopping.antt =====
-- elevator/elevator.cpp, _shouldStop: where the elevator stops.
use ttk.Prelude.{◌≡◌, refl, ◌⊎◌}
use ttk.Prelude.Int.{ℤ, ◌<ℤ◌, ◌==ℤ◌, ==ℤ_iff}
use ttk.Outcome.{ok, Decides, or_else-Decides, and_also-Decides, negate-Decides}
use ttk.Driver.{Direction, stay, up, down, DriverInfo, InBounds}
use ttk.FloorSet
use ttk.FloorSet.{FloorSet, Has, IsWord, Fits}
use ttk.FloorSet.Members.{get-Has, union-IsWord}
use ttk.FloorSet.Ranges.{any_higher-Has, any_lower-Has}
use ttk.State.{ElevatorState}
use ttk.Elevator.Motion.{all_buttons}
use ttk.Elevator.Lights.{should_stop, should_stop_going, last_call}

-- The floor sets of the state are 64-bit words.
pub record Words (s : ElevatorState) : Type 0 where
  pub inside : IsWord s.inside_buttons
  pub upward : IsWord s.up_buttons
  pub downward : IsWord s.down_buttons

-- Somebody calls on the floor, from inside or outside.
abbrev pub Calls : DriverInfo → ElevatorState → ℤ → Type 0
Calls d s f = Has (all_buttons s) d f

-- The reasons to stop, apart from the inside button of the floor.
abbrev pub Reason : Direction → DriverInfo → ElevatorState → ℤ → Type 0
Reason up d s f = Has s.up_buttons d f ⊎ ((¬ ((g : ℤ) × (f <ℤ g) × Calls d s g)) × Calls d s f)
Reason down d s f = Has s.down_buttons d f ⊎ ((¬ ((g : ℤ) × (g <ℤ f) × Calls d s g)) × Calls d s f)
Reason stay d s f = ((f ≡ d.min_floor) × Calls d s f) ⊎ ((f ≡ d.max_floor) × Calls d s f)

same-Decides : (a b : ℤ) → Decides (ok (a ==ℤ b)) (a ≡ b)
same-Decides a b = (a ==ℤ b, refl, ==ℤ_iff a b)

module _ (f : ℤ) (d : DriverInfo) (s : ElevatorState) (b : InBounds f d) (fits : Fits d)
    (w : Words s) where
  all-IsWord : IsWord (all_buttons s)
  unfolding all_buttons
  all-IsWord = union-IsWord _ _ (union-IsWord _ _ w.inside w.upward) w.downward

  calls : Decides (FloorSet.get f d (all_buttons s)) (Calls d s f)
  calls = get-Has f d (all_buttons s) b fits all-IsWord

  going-Decides : (way : Direction) → Decides (should_stop_going way f d s) (Reason way d s f)
  unfolding should_stop_going last_call
  going-Decides up = or_else-Decides _ _ (get-Has f d s.up_buttons b fits w.upward) (
      and_also-Decides _ _ (negate-Decides _ (any_higher-Has f d (all_buttons s) b fits all-IsWord))
        calls)
  going-Decides down = or_else-Decides _ _ (get-Has f d s.down_buttons b fits w.downward) (
      and_also-Decides _ _ (negate-Decides _ (any_lower-Has f d (all_buttons s) b fits all-IsWord))
        calls)
  going-Decides stay =
      or_else-Decides _ _ (and_also-Decides _ _ (same-Decides f d.min_floor) calls)
        (and_also-Decides _ _ (same-Decides f d.max_floor) calls)

  -- In bounds, for at most 64 floors and button sets that are 64-bit words, _shouldStop decides
  -- without a failed assertion whether there is a reason to stop: the inside button of the floor;
  -- in travel, the call button of that direction, or a call on the floor with none beyond it;
  -- without a direction, a call at an end of the shaft.
  pub should_stop-Reason :
      Decides (should_stop f d s) (Has s.inside_buttons d f ⊎ Reason s.direction d s f)
  unfolding should_stop
  should_stop-Reason =
      or_else-Decides _ _ (get-Has f d s.inside_buttons b fits w.inside) (going-Decides s.direction)
