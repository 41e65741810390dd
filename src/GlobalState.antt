-- ===== src/GlobalState.antt =====
-- elevator/globalstate.h: what a node knows of all elevators. The map from identifiers to states is
-- an association list with one entry for each identifier; the lock makes each operation one step.
pub mod Lookup
pub mod Buttons
use ttk.Prelude.{Bool, true, false, ◌||◌, List, [], ◌∷◌, if◌then◌else◌}
use ttk.Prelude.Int.{ℤ, ◌==ℤ◌}
use ttk.Outcome.{Outcome, ok, failed, ◌>>=◌, ◌>>◌, assert}
use ttk.Driver.{DriverInfo}
use ttk.FloorSet
use ttk.FloorSet.{FloorSet}
use ttk.State
use ttk.State.{ElevatorState}
use ttk.RequestQueue.{Request}

abbrev pub Elevators : Type 0
Elevators = List (ℤ × ElevatorState)

pub record GlobalState : Type 0 where
  pub up_buttons : FloorSet
  pub down_buttons : FloorSet
  pub elevators : Elevators
  pub requests : List Request

unfoldable pub new_global_state : GlobalState
unfolding FloorSet.empty
new_global_state = record {
  up_buttons = FloorSet.empty;
  down_buttons = FloorSet.empty;
  elevators = [];
  requests = [];
}

-- _elevators[ i ] = state
unfoldable pub put : ℤ → ElevatorState → Elevators → Elevators
put i s [] = (i, s) ∷ []
put i s ((j, t) ∷ es) = let rest = put i s es in if j ==ℤ i then (j, s) ∷ es else (j, t) ∷ rest

-- _elevators.find( i )
unfoldable pub find : ℤ → Elevators → Outcome ElevatorState
find i [] = failed
find i ((j, t) ∷ es) = let rest = find i es in if j ==ℤ i then ok t else rest

-- The loop of updateButtons for one of the two sets.
unfoldable pub merge : (ElevatorState → FloorSet) → FloorSet → Elevators → FloorSet
merge pick s [] = s
merge pick s ((i, e) ∷ es) = merge pick (FloorSet.union s (pick e)) es

unfoldable pub update_buttons : GlobalState → GlobalState
unfolding FloorSet.reset
update_buttons g = record g {
  up_buttons = merge (λ e. e.up_buttons) (FloorSet.reset g.up_buttons) g.elevators;
  down_buttons = merge (λ e. e.down_buttons) (FloorSet.reset g.down_buttons) g.elevators;
}

unfoldable pub update : ElevatorState → GlobalState → GlobalState
unfolding update_buttons
update s g = update_buttons (record g { elevators = put s.id s g.elevators })

unfoldable pub get : ℤ → GlobalState → Outcome ElevatorState
get i g = find i g.elevators

unfoldable pub has : ℤ → GlobalState → Bool
has i g = elim (find i g.elevators) [ ok s ↦ true | failed ↦ false ]

-- The loop of assertConsistency.
unfoldable pub all_consistent : DriverInfo → Elevators → Outcome (Unit {0})
all_consistent d [] = ok tt
all_consistent d ((i, e) ∷ es) = do State.assert_consistency d e; all_consistent d es

-- The up buttons are tested twice, as in the source.
unfoldable pub assert_consistency : DriverInfo → GlobalState → Outcome (Unit {0})
assert_consistency d g = do
  up ← FloorSet.consistent d g.up_buttons
  assert up
  again ← FloorSet.consistent d g.up_buttons
  assert again
  all_consistent d g.elevators
