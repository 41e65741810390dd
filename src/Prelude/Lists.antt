-- ===== src/Prelude/Lists.antt =====
-- Lists measured by native numbers, under the library's names, and a membership relation.
use Prim.Native.Nat.{ℕ, suc, ◌+◌, ◌≤◌}
use mathlib.Core.Path.{◌≡◌, refl}
use mathlib.Core.Logic.{◌⊎◌, inl, inr}
use mathlib.Core.Bool.{Bool}
use mathlib.Core.List.{List, [], ◌∷◌, ◌++◌}
use ttk.Prelude.Tests.{if◌then◌else◌}
use native.Mathlib.Omega.{arith}

module _ {ℓ} {A : Type ℓ} where
  abbrev pub length : List A → ℕ
  length [] = 0
  length (x ∷ xs) = suc (length xs)

  pub length-append : (xs ys : List A) → length (xs ++ ys) ≡ length xs + length ys
  length-append [] ys = omega arith
  length-append (x ∷ xs) ys = omega (arith, length-append xs ys)

-- A predicate on every entry, and an entry that has it.
abbrev pub All {ℓ κ} : {A : Type ℓ} → (A → Type κ) → List A → Type κ
All P [] = Unit
All P (x ∷ xs) = P x × All P xs

-- The entry stands in the list (the library's `Mem` is its truncation).
pub data In {ℓ} {A : Type ℓ} (a : A) : List A → Type ℓ where
  head : (xs : List A) → In a (a ∷ xs)
  tail : (x : A) {xs : List A} → In a xs → In a (x ∷ xs)

pub In-append_left {ℓ} :
    {A : Type ℓ} {a : A} {xs : List A} (ys : List A) → In a xs → In a (xs ++ ys)
In-append_left ys (head xs) = head (xs ++ ys)
In-append_left ys (tail x m) = tail x (In-append_left ys m)

pub In-append_right {ℓ} :
    {A : Type ℓ} {a : A} (xs : List A) {ys : List A} → In a ys → In a (xs ++ ys)
In-append_right [] m = m
In-append_right (x ∷ xs) m = tail x (In-append_right xs m)

pub All-In {ℓ κ} : {A : Type ℓ} (P : A → Type κ) {a : A} {xs : List A} → In a xs → All P xs → P a
All-In P (head xs) h = h.0
All-In P (tail x m) h = All-In P m h.1

pub All-map {ℓ κ ν} :
    {A : Type ℓ} (P : A → Type κ) (Q : A → Type ν) (f : (a : A) → P a → Q a) (xs : List A)
    → All P xs
    → All Q xs
All-map P Q f [] h = tt
All-map P Q f (x ∷ xs) h = (f x h.0, All-map P Q f xs h.1)

pub All-of {ℓ κ} :
    {A : Type ℓ} (P : A → Type κ) (xs : List A) → ((a : A) → In a xs → P a) → All P xs
All-of P [] f = tt
All-of P (x ∷ xs) f = (f x (head xs), All-of P xs (λ a m. f a (tail x m)))

-- How many entries pass a test, and the lists that are equal but for the order.
abbrev pub count_if {ℓ} : {A : Type ℓ} → (A → Bool) → List A → ℕ
count_if p [] = 0
count_if p (x ∷ xs) = (if p x then 1 else 0) + count_if p xs

abbrev pub SameEntries {ℓ} : {A : Type ℓ} → List A → List A → Type ℓ
SameEntries {A = A} xs ys = (p : A → Bool) → count_if p xs ≡ count_if p ys

pub In-append {ℓ} : {A : Type ℓ} {a : A} (xs ys : List A) → In a (xs ++ ys) → In a xs ⊎ In a ys
In-append [] ys m = inr m
In-append (x ∷ xs) ys (head _) = inl (head xs)
In-append (x ∷ xs) ys (tail _ m) = elim (In-append xs ys m) [
  | inl k ↦ inl (tail x k)
  | inr k ↦ inr k
]

-- The list without one entry.
without {ℓ} : {A : Type ℓ} {a : A} {xs : List A} → In a xs → List A
without (head xs) = xs
without (tail x m) = x ∷ without m

length-without {ℓ} :
    {A : Type ℓ} {a : A} {xs : List A} (m : In a xs) → suc (length (without m)) ≡ length xs
unfolding without
length-without (head xs) = refl
length-without (tail x m) = omega (arith, length-without m)

In-without {ℓ} :
    {A : Type ℓ} {a b : A} {xs : List A} (m : In a xs) → (b ≡ a → ⊥) → In b xs → In b (without m)
unfolding without
In-without (head xs) n (head _) = absurd (n refl)
In-without (head xs) n (tail _ k) = k
In-without (tail x m) n (head _) = head (without m)
In-without (tail x m) n (tail _ k) = tail x (In-without m n k)

-- No entry stands twice in the list.
abbrev pub Distinct {ℓ} : {A : Type ℓ} → List A → Type ℓ
Distinct [] = Unit
Distinct (x ∷ xs) = All (λ y. y ≡ x → ⊥) xs × Distinct xs

-- The pigeonhole principle.
pub length-le_Distinct {ℓ} :
    {A : Type ℓ} (xs ys : List A) → Distinct xs → All (λ x. In x ys) xs → length xs ≤ length ys
length-le_Distinct {A} [] ys d h = omega arith
length-le_Distinct {A} (x ∷ xs) ys d h =
    omega (arith, length-without h.0, length-le_Distinct xs (without h.0) d.1 (moved xs d.0 h.1))
  where
    moved :
        (zs : List A)
        → All (λ y. y ≡ x → ⊥) zs
        → All (λ y. In y ys) zs
        → All (λ y. In y (without h.0)) zs
    moved [] n k = tt
    moved (z ∷ zs) n k = (In-without h.0 n.0 k.0, moved zs n.1 k.1)
