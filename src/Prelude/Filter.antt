-- ===== src/Prelude/Filter.antt =====
-- The entries of a list that pass a test.
use mathlib.Core.Path.{◌≡◌}
use mathlib.Core.Logic.{◌↔◌, inl, inr}
use mathlib.Core.Bool.{Bool, true}
use mathlib.Core.List.{List, [], ◌∷◌}
use ttk.Prelude.Tests.{if◌then◌else◌, Bool-cases}
use ttk.Prelude.Lists.{All, All-of, All-In, In, head, tail, Distinct}

unfoldable pub keep {ℓ} : {A : Type ℓ} → (A → Bool) → List A → List A
keep p [] = []
keep p (x ∷ xs) = let rest = keep p xs in if p x then x ∷ rest else rest

module _ {ℓ} {A : Type ℓ} (p : A → Bool) where
  kept-In :
      (x f : A) (xs : List A)
      → (In f (keep p xs) → In f xs × (p f ≡ true))
      → In f (keep p (x ∷ xs))
      → In f (x ∷ xs) × (p f ≡ true)
  unfolding keep
  kept-In x f xs more = elim (Bool-cases (p x)) [
    | inl e ↦ rw e (λ m. first x f xs e more m)
    | inr e ↦ rw e (λ m. let (k, t) = more m in (tail x k, t))
  ]
    where
      first :
          (y g : A) (ys : List A)
          → p y ≡ true
          → (In g (keep p ys) → In g ys × (p g ≡ true))
          → In g (y ∷ keep p ys)
          → In g (y ∷ ys) × (p g ≡ true)
      first y _ ys e more (head _) = (head ys, e)
      first y g ys e more (tail _ m) = let (k, t) = more m in (tail y k, t)

  In-kept :
      (x f : A) (xs : List A)
      → (In f xs → p f ≡ true → In f (keep p xs))
      → In f (x ∷ xs)
      → p f ≡ true
      → In f (keep p (x ∷ xs))
  unfolding keep
  In-kept x _ xs more (head _) t = rw t (head (keep p xs))
  In-kept x f xs more (tail _ m) t = elim (Bool-cases (p x)) [
    | inl e ↦ rw e (tail x (more m t))
    | inr e ↦ rw e (more m t)
  ]

  pub In-keep : (xs : List A) (f : A) → In f (keep p xs) ↔ (In f xs × (p f ≡ true))
  unfolding keep
  In-keep [] f = ((λ m. elim m [ ]), (λ m. elim m.0 [ ]))
  In-keep (x ∷ xs) f =
      let h = In-keep xs f in
      (kept-In x f xs h.0, (λ m. In-kept x f xs (λ k t. h.1 (k, t)) m.0 m.1))

  keep-All : (x : A) (xs : List A) → All (λ y. y ≡ x → ⊥) xs → All (λ y. y ≡ x → ⊥) (keep p xs)
  keep-All x xs h =
      All-of (λ y. y ≡ x → ⊥) (keep p xs) (λ y m. All-In (λ y. y ≡ x → ⊥) ((In-keep xs y).0 m).0 h)

  pub keep-Distinct : (xs : List A) → Distinct xs → Distinct (keep p xs)
  unfolding keep
  keep-Distinct [] h = tt
  keep-Distinct (x ∷ xs) h = elim (Bool-cases (p x)) [
    | inl e ↦ rw e (keep-All x xs h.0, keep-Distinct xs h.1)
    | inr e ↦ rw e (keep-Distinct xs h.1)
  ]
