-- ===== src/Prelude/Int.antt =====
-- The C++ type int as an integer over the native numbers, under the library's names.
-- Orders and sums go through the two parts of an integer, which are numbers that `omega` reads.
use ttk.Prelude.{
  inl, inr, refl, ap, ◌∙◌, ◌⊎◌, ℕ, suc, ◌+◌, ◌-◌, ◌%◌, ◌≤◌, ◌<◌, ◌^◌, ◌≡◌, ◌↔◌, Bool, true, false,
  arith, ltb, leb, ◌==◌, if◌then◌else◌,
}

-- `negsuc n` is -(n + 1).
pub data ℤ : Type 0 where
  pos : ℕ → ℤ
  negsuc : ℕ → ℤ

abbrev pub pos_part : ℤ → ℕ
pos_part (pos n) = n
pos_part (negsuc n) = 0

abbrev pub neg_part : ℤ → ℕ
neg_part (pos n) = 0
neg_part (negsuc n) = suc n

-- a - b, as an integer.
abbrev pub sub_ℕ : ℕ → ℕ → ℤ
sub_ℕ a b = if leb b a then pos (a - b) else negsuc (b - a - 1)

infixl 65 ◌+ℤ◌ ◌-ℤ◌
infix 50 ◌≤ℤ◌ ◌<ℤ◌ ◌==ℤ◌
unfoldable pub ◌+ℤ◌ : ℤ → ℤ → ℤ
a +ℤ b = sub_ℕ (pos_part a + pos_part b) (neg_part a + neg_part b)

unfoldable pub ◌-ℤ◌ : ℤ → ℤ → ℤ
a -ℤ b = sub_ℕ (pos_part a + neg_part b) (neg_part a + pos_part b)

abbrev pub ◌≤ℤ◌ : ℤ → ℤ → Type 0
a ≤ℤ b = pos_part a + neg_part b ≤ pos_part b + neg_part a

abbrev pub ◌<ℤ◌ : ℤ → ℤ → Type 0
a <ℤ b = pos_part a + neg_part b < pos_part b + neg_part a

abbrev pub ltb_ℤ : ℤ → ℤ → Bool
ltb_ℤ a b = ltb (pos_part a + neg_part b) (pos_part b + neg_part a)

abbrev pub leb_ℤ : ℤ → ℤ → Bool
leb_ℤ a b = leb (pos_part a + neg_part b) (pos_part b + neg_part a)

abbrev pub ◌==ℤ◌ : ℤ → ℤ → Bool
a ==ℤ b = pos_part a + neg_part b == pos_part b + neg_part a

-- a - b where b ≤ a, as a number.
abbrev pub gap : ℤ → ℤ → ℕ
gap a b = pos_part a + neg_part b - (pos_part b + neg_part a)

-- std::abs( a - b )
abbrev pub distance : ℤ → ℤ → ℕ
distance a b = gap a b + gap b a

pub eq_of_parts : (a b : ℤ) → pos_part a + neg_part b ≡ pos_part b + neg_part a → a ≡ b
eq_of_parts a b h = ground arith

pub ==ℤ_iff : (a b : ℤ) → ((a ==ℤ b) ≡ true) ↔ (a ≡ b)
==ℤ_iff a b = ground arith

-- The operations stay shut in proofs: these lemmas let `omega` work with them.
pub +ℤ_parts :
    (a b : ℤ)
    → pos_part (a +ℤ b) + neg_part a + neg_part b ≡ neg_part (a +ℤ b) + pos_part a + pos_part b
unfolding ◌+ℤ◌
+ℤ_parts a b = ground arith

-ℤ_parts :
    (a b : ℤ)
    → pos_part (a -ℤ b) + neg_part a + pos_part b ≡ neg_part (a -ℤ b) + pos_part a + neg_part b
unfolding ◌-ℤ◌
-ℤ_parts a b = ground arith

parts_zero : (a : ℤ) → (pos_part a ≡ 0) ⊎ (neg_part a ≡ 0)
parts_zero (pos n) = inr refl
parts_zero (negsuc n) = inl refl

-- INT_MIN and INT_MAX of a 32-bit int.
abbrev pub int_min : ℤ
int_min = negsuc (2 ^ 31 - 1)

abbrev pub int_max : ℤ
int_max = pos (2 ^ 31 - 1)

-- The conversion of a 64-bit number to a 32-bit int, and of an integer: two's complement.
unfoldable pub to_int32 : ℕ → ℤ
to_int32 n =
    if ltb (n % 2 ^ 32) (2 ^ 31) then pos (n % 2 ^ 32) else negsuc (2 ^ 32 - 1 - n % 2 ^ 32)

-- -x - 1
abbrev complement : ℤ → ℤ
complement (pos n) = negsuc n
complement (negsuc n) = pos n

unfoldable pub int32 : ℤ → ℤ
unfolding to_int32
int32 (pos n) = to_int32 n
int32 (negsuc n) = complement (to_int32 n)

-- std::abs
unfoldable pub abs_int : ℤ → ℤ
unfolding int32
abs_int (pos n) = pos n
abs_int (negsuc n) = int32 (pos (suc n))

pub int_small : (n : ℕ) → n < 2 ^ 31 → to_int32 n ≡ pos n
unfolding to_int32
int_small n h =
    let e : n % 2 ^ 32 ≡ n = omega arith in
    let f : ltb (n % 2 ^ 32) (2 ^ 31) ≡ true = ground arith in rw f (ap pos e)

-- Small ints do not wrap.
pub abs-difference :
    (a b : ℤ) → distance a b < 2 ^ 31 → abs_int (int32 (a -ℤ b)) ≡ pos (distance a b)
unfolding ◌-ℤ◌ int32 abs_int
abs-difference a b h =
    go (pos_part a + neg_part b) (neg_part a + pos_part b) (omega arith) ∙ ap pos (omega arith)
  where
    order : (x y : ℕ) → (y ≤ x) ⊎ (x < y)
    order x y = omega arith

    go :
        (x y : ℕ)
        → (x - y) + (y - x) < 2 ^ 31
        → abs_int (int32 (sub_ℕ x y)) ≡ pos ((x - y) + (y - x))
    go x y k = elim (order x y) [
      | inl l ↦
          let e : leb y x ≡ true = ground arith in
          rw (e, int_small (x - y) (omega arith)) (ap pos (omega arith))
      | inr l ↦
          let e : leb y x ≡ false = ground arith in
          rw (e, int_small (y - x - 1) (omega arith), int_small (suc (y - x - 1)) (omega arith))
            (ap pos (omega arith))
    ]

pub int-sum : (m n : ℕ) → m + n < 2 ^ 31 → int32 (pos m +ℤ pos n) ≡ pos (m + n)
unfolding ◌+ℤ◌ int32
int-sum m n h =
    let e : leb 0 (m + n) ≡ true = ground arith in
    let f : m + n - 0 ≡ m + n = omega arith in rw (e, f) (int_small (m + n) h)
