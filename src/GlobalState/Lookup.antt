-- ===== src/GlobalState/Lookup.antt =====
-- elevator/globalstate.h: the states that a node has received are the entries of a finite map.
use ttk.Prelude.{
  ◌≡◌, ◌≢◌, refl, subst, arith, false, List, [], ◌∷◌, if◌then◌else◌, All, All-In, In, head, tail,
  Bool-cases, inl, inr,
}
use ttk.Prelude.Int.{ℤ, ◌==ℤ◌, ==ℤ_iff}
use ttk.Outcome.{ok, ok_injective, failed-ne_ok}
use ttk.State.{ElevatorState}
use ttk.GlobalState.{Elevators, GlobalState, put, find, get, update, update_buttons}

find-put :
    (i j : ℤ) (s : ElevatorState) (es : Elevators)
    → find j (put i s es) ≡ (if i ==ℤ j then ok s else find j es)
unfolding find put
find-put i j s [] = refl
find-put i j s ((k, t) ∷ es) = elim (Bool-cases (k ==ℤ i)) [
  | inl e ↦ let same = (==ℤ_iff k i).0 e in rw (e, same) (ground arith)
  | inr e ↦ rw (e, find-put i j s es) (ground (arith, ==ℤ_iff k i, ==ℤ_iff k j, ==ℤ_iff i j))
]

-- After an update, get returns the new state for its identifier and what it returned before for
-- any other.
get-update :
    (j : ℤ) (s : ElevatorState) (g : GlobalState)
    → get j (update s g) ≡ (if s.id ==ℤ j then ok s else get j g)
unfolding get update update_buttons
get-update j s g = find-put s.id j s g.elevators

-- The updates that a node receives, in this order.
unfoldable pub updates : List ElevatorState → GlobalState → GlobalState
updates [] g = g
updates (s ∷ ss) g = updates ss (update s g)

-- No identifier has two entries.
abbrev pub Unique : Elevators → Type 0
Unique [] = Unit
Unique ((i, s) ∷ es) = All (λ (e : ℤ × ElevatorState). e.0 ≢ i) es × Unique es

put-All {ℓ} :
    (P : ℤ → Type ℓ) (i : ℤ) (s : ElevatorState) (es : Elevators)
    → P i
    → All (λ (e : ℤ × ElevatorState). P e.0) es
    → All (λ (e : ℤ × ElevatorState). P e.0) (put i s es)
unfolding put
put-All P i s [] p h = (p, tt)
put-All P i s ((j, t) ∷ es) p h = elim (Bool-cases (j ==ℤ i)) [
  | inl e ↦ rw e h
  | inr e ↦ rw e (h.0, put-All P i s es p h.1)
]

pub put-Unique : (i : ℤ) (s : ElevatorState) (es : Elevators) → Unique es → Unique (put i s es)
unfolding put
put-Unique i s [] h = (tt, tt)
put-Unique i s ((j, t) ∷ es) h = elim (Bool-cases (j ==ℤ i)) [
  | inl e ↦ rw e h
  | inr e ↦
      rw e (
        put-All (λ k. k ≢ j) i s es (λ k. ground (arith, k, ==ℤ_iff j i)) h.0,
        put-Unique i s es h.1,
      )
]

pub find-In : (i : ℤ) (s : ElevatorState) (es : Elevators) → find i es ≡ ok s → In (i, s) es
unfolding find
find-In i s [] h = absurd (failed-ne_ok h)
find-In i s ((j, t) ∷ es) h = elim (Bool-cases (j ==ℤ i)) [
  | inl e ↦
      let same = (==ℤ_iff j i).0 e in
      let equal : t ≡ s = ok_injective (rw e at h) in
      subst (λ p. In p ((j, t) ∷ es)) (λ k. (same k, equal k)) (head es)
  | inr e ↦ tail (j, t) (find-In i s es (rw e at h))
]

pub In-find :
    (i : ℤ) (s : ElevatorState) (es : Elevators) → Unique es → In (i, s) es → find i es ≡ ok s
unfolding find
In-find i s _ u (head es) = rw ((==ℤ_iff i i).1 refl) refl
In-find i s _ u (tail (j, t) m) =
    let apart = All-In (λ (e : ℤ × ElevatorState). e.0 ≢ j) m u.0 in
    let e : (j ==ℤ i) ≡ false = ground (arith, apart, ==ℤ_iff j i) in rw e (In-find i s _ u.1 m)

pub updates-Unique :
    (ss : List ElevatorState) (g : GlobalState)
    → Unique g.elevators
    → Unique (updates ss g).elevators
unfolding updates update update_buttons
updates-Unique [] g u = u
updates-Unique (s ∷ ss) g u = updates-Unique ss (update s g) (put-Unique s.id s g.elevators u)
