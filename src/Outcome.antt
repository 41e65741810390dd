-- ===== src/Outcome.antt =====
-- The result of an operation that may fail an assertion (elevator/test.h: a failed assert throws
-- GenerallAssertionFailed).
use mathlib.Core.Bool.{false≢true}
use ttk.Prelude.{Bool, true, false, ◌≡◌, refl, ◌↔◌, ◌⊎◌, inl, inr}

pub data Outcome {ℓ} (A : Type ℓ) : Type ℓ where
  ok : A → Outcome A
  failed : Outcome A

infixl 5 ◌>>=◌ ◌>>◌
abbrev pub ◌>>=◌ {ℓ κ} : {A : Type ℓ} {B : Type κ} → Outcome A → (A → Outcome B) → Outcome B
ok a >>= f = f a
failed >>= f = failed

abbrev pub ◌>>◌ {ℓ} : {B : Type ℓ} → Outcome (Unit {0}) → Outcome B → Outcome B
m >> k = m >>= λ _. k

abbrev pub assert : Bool → Outcome (Unit {0})
assert true = ok tt
assert false = failed

-- `a || b` and `a && b`, where the second is evaluated only if it matters.
abbrev pub or_else : Outcome Bool → Outcome Bool → Outcome Bool
or_else (ok true) b = ok true
or_else (ok false) b = b
or_else failed b = failed

abbrev pub and_also : Outcome Bool → Outcome Bool → Outcome Bool
and_also (ok true) b = b
and_also (ok false) b = ok false
and_also failed b = failed

abbrev pub negate : Outcome Bool → Outcome Bool
negate (ok true) = ok false
negate (ok false) = ok true
negate failed = failed

-- The outcome is a value, and `true` exactly when P holds.
abbrev pub Decides {ℓ} : Outcome Bool → Type ℓ → Type ℓ
Decides o P = (b : Bool) × (o ≡ ok b) × ((b ≡ true) ↔ P)

pub ok_injective {ℓ} : {A : Type ℓ} {a b : A} → ok a ≡ ok b → a ≡ b
ok_injective e = cc

pub failed-ne_ok {ℓ} : {A : Type ℓ} {a : A} → failed ≡ ok a → ⊥
failed-ne_ok e = cc

pub Outcome-cases {ℓ} : {A : Type ℓ} (o : Outcome A) → (o ≡ failed) ⊎ ((a : A) × (o ≡ ok a))
Outcome-cases failed = inl refl
Outcome-cases (ok a) = inr (a, refl)

-- The Boolean connectives decide what their names say.
pub or_else-Decides {ℓ κ} :
    {P : Type ℓ} {Q : Type κ} (o p : Outcome Bool)
    → Decides o P
    → Decides p Q
    → Decides (or_else o p) (P ⊎ Q)
or_else-Decides o p (true, e, h) k = (true, rw e refl, (λ t. inl (h.0 t), λ t. refl))
or_else-Decides o p (false, e, h) (b, f, k) = (
  b,
  rw (e, f) refl,
  (λ t. inr (k.0 t), λ t. elim t [ inl x ↦ absurd (false≢true (h.1 x)) | inr y ↦ k.1 y ]),
)

pub and_also-Decides {ℓ κ} :
    {P : Type ℓ} {Q : Type κ} (o p : Outcome Bool)
    → Decides o P
    → Decides p Q
    → Decides (and_also o p) (P × Q)
and_also-Decides o p (true, e, h) (b, f, k) =
    (b, rw (e, f) refl, (λ t. (h.0 refl, k.0 t), λ t. k.1 t.1))
and_also-Decides o p (false, e, h) k =
    (false, rw e refl, (λ t. absurd (false≢true t), λ t. absurd (false≢true (h.1 t.0))))

pub negate-Decides {ℓ} : {P : Type ℓ} (o : Outcome Bool) → Decides o P → Decides (negate o) (¬ P)
negate-Decides o (true, e, h) =
    (false, rw e refl, (λ t. absurd (false≢true t), λ n. absurd (n (h.0 refl))))
negate-Decides o (false, e, h) = (true, rw e refl, (λ t x. false≢true (h.1 x), λ n. refl))

Decides-map {ℓ κ} :
    {P : Type ℓ} {Q : Type κ} (o : Outcome Bool) → (P → Q) → (Q → P) → Decides o P → Decides o Q
Decides-map o f g (b, e, h) = (b, e, (λ t. f (h.0 t), λ q. h.1 (g q)))
