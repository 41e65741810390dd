-- ===== src/GlobalState/Buttons.antt =====
-- elevator/globalstate.h: the two sets of call buttons are the unions over the known elevators.
use ttk.Prelude.{◌≡◌, arith, ◌↔◌, ◌⊎◌, inl, inr, List, [], ◌∷◌, In, head, tail}
use ttk.Prelude.Int.{ℤ, gap}
use ttk.Prelude.Word.{bit-zero}
use ttk.Outcome.{ok}
use ttk.Driver.{DriverInfo}
use ttk.FloorSet
use ttk.FloorSet.{FloorSet, Has}
use ttk.FloorSet.Members.{union-Has}
use ttk.State.{ElevatorState}
use ttk.GlobalState.{Elevators, GlobalState, merge, update, update_buttons, get, new_global_state}
use ttk.GlobalState.Lookup.{Unique, updates, updates-Unique, put-Unique, find-In, In-find}

abbrev HasOne : (ElevatorState → FloorSet) → DriverInfo → ℤ → Elevators → Type 0
HasOne pick d f es = (i : ℤ) × (e : ElevatorState) × In (i, e) es × Has (pick e) d f

module _ (pick : ElevatorState → FloorSet) (d : DriverInfo) (f : ℤ) where
  into :
      (s : FloorSet) (es : Elevators) → Has (merge pick s es) d f → Has s d f ⊎ HasOne pick d f es
  unfolding merge
  into s [] h = inl h
  into s ((i, e) ∷ es) h = elim (into (FloorSet.union s (pick e)) es h) [
    | inr (j, t, m, k) ↦ inr (j, t, tail (i, e) m, k)
    | inl u ↦ elim ((union-Has s (pick e) d f).0 u) [
      | inl k ↦ inl k
      | inr k ↦ inr (i, e, head es, k)
    ]
  ]

  keeps : (s : FloorSet) (es : Elevators) → Has s d f → Has (merge pick s es) d f
  unfolding merge
  keeps s [] h = h
  keeps s ((i, e) ∷ es) h =
      keeps (FloorSet.union s (pick e)) es ((union-Has s (pick e) d f).1 (inl h))

  from :
      (i : ℤ) (e : ElevatorState) (s : FloorSet) (es : Elevators)
      → In (i, e) es
      → Has (pick e) d f
      → Has (merge pick s es) d f
  unfolding merge
  from i e s _ (head es) h =
      keeps (FloorSet.union s (pick e)) es ((union-Has s (pick e) d f).1 (inr h))
  from i e s _ (tail (j, t) m) h = from i e (FloorSet.union s (pick t)) _ m h

  reset-empty : (s : FloorSet) → Has (FloorSet.reset s) d f → ⊥
  unfolding FloorSet.reset
  reset-empty s h = omega (arith, bit-zero (gap f d.min_floor), h.is_set)

  merged :
      (s : FloorSet) (g : GlobalState)
      → Unique g.elevators
      → Has (merge pick (FloorSet.reset s) g.elevators) d f
        ↔ ((i : ℤ) × (e : ElevatorState) × (get i g ≡ ok e) × Has (pick e) d f)
  unfolding get
  merged s g u = (
    λ h. elim (into (FloorSet.reset s) g.elevators h) [
      | inl k ↦ absurd (reset-empty s k)
      | inr (i, e, m, k) ↦ (i, e, In-find i e g.elevators u m, k)
    ],
    λ (i, e, m, k). from i e (FloorSet.reset s) g.elevators (find-In i e g.elevators m) k,
  )

-- The button of some known elevator.
abbrev pub Known : (ElevatorState → FloorSet) → DriverInfo → ℤ → GlobalState → Type 0
Known pick d f g = (i : ℤ) × (e : ElevatorState) × (get i g ≡ ok e) × Has (pick e) d f

-- After any sequence of updates that ends with one more, a floor is in the up (down) buttons of
-- the global state exactly when it is in the up (down) buttons of some elevator that the node
-- knows.
pub update-Has :
    (ss : List ElevatorState) (s : ElevatorState) (d : DriverInfo) (f : ℤ)
    → let g = update s (updates ss new_global_state) in
      (Has g.up_buttons d f ↔ Known (λ e. e.up_buttons) d f g)
      × (Has g.down_buttons d f ↔ Known (λ e. e.down_buttons) d f g)
unfolding update update_buttons new_global_state
update-Has ss s d f =
    let old = updates ss new_global_state in
    let u = put-Unique s.id s old.elevators (updates-Unique ss new_global_state tt) in
    (
      merged (λ e. e.up_buttons) d f old.up_buttons (update s old) u,
      merged (λ e. e.down_buttons) d f old.down_buttons (update s old) u,
    )
