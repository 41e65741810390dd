-- ===== src/Prelude/Word.antt =====
-- 64-bit words (uint64_t) as native numbers, read bit by bit. `bit x i` is bit `i` of `x`, 0 or 1.
mod Step
use Step.{bit_and-Digitwise, bit_or-Digitwise, bit_xor-Digitwise}
use Prim.Native.Nat.{
  min, max, bit_and, bit_or, bit_xor, bit_and-bitwise, bit_or-bitwise, bit_xor-bitwise,
}
use native.Mathlib.Nat.{pow-suc, one-le-pow}
use ttk.Prelude.{
  ℕ, zero, suc, ◌+◌, ◌-◌, ◌*◌, ◌/◌, ◌%◌, ◌^◌, ◌≤◌, ◌<◌, ◌≡◌, ◌≢◌, refl, sym, ap, ◌∙◌, arith, ◌==◌,
  ltb, if◌then◌else◌, ◌⊎◌, inl, inr,
}

pub bit : ℕ → ℕ → ℕ
bit x zero = x % 2
bit x (suc i) = bit (x / 2) i

pub bit-le_one : (x i : ℕ) → bit x i ≤ 1
unfolding bit
bit-le_one x zero = omega arith
bit-le_one x (suc i) = bit-le_one (x / 2) i

pub bit-and : (a b i : ℕ) → bit (bit_and a b) i ≡ min (bit a i) (bit b i)
unfolding bit
bit-and a b zero = omega (arith, bit_and-Digitwise a b)
bit-and a b (suc i) =
    let e : bit_and a b / 2 ≡ bit_and (a / 2) (b / 2) = omega (arith, bit_and-Digitwise a b) in
    rw e (bit-and (a / 2) (b / 2) i)

pub bit-or : (a b i : ℕ) → bit (bit_or a b) i ≡ max (bit a i) (bit b i)
unfolding bit
bit-or a b zero = omega (arith, bit_or-Digitwise a b)
bit-or a b (suc i) =
    let e : bit_or a b / 2 ≡ bit_or (a / 2) (b / 2) = omega (arith, bit_or-Digitwise a b) in
    rw e (bit-or (a / 2) (b / 2) i)

pub bit-xor : (a b i : ℕ) → bit (bit_xor a b) i ≡ (bit a i + bit b i) % 2
unfolding bit
bit-xor a b zero = omega (arith, bit_xor-Digitwise a b)
bit-xor a b (suc i) =
    let e : bit_xor a b / 2 ≡ bit_xor (a / 2) (b / 2) = omega (arith, bit_xor-Digitwise a b) in
    rw e (bit-xor (a / 2) (b / 2) i)

pub bit-double_zero : (x : ℕ) → bit (x * 2) 0 ≡ 0
unfolding bit
bit-double_zero x = omega arith

pub bit-double_suc : (x i : ℕ) → bit (x * 2) (suc i) ≡ bit x i
unfolding bit
bit-double_suc x i = let e : x * 2 / 2 ≡ x = omega arith in rw e

-- ~x at width w
pub bit-complement : (w x i : ℕ) → x < 2 ^ w → i < w → bit (2 ^ w - 1 - x) i ≡ 1 - bit x i
unfolding bit
bit-complement zero x i h k = elim k [ ]
bit-complement (suc w) x zero h k = omega (arith, pow-suc 2 w, one-le-pow w 2)
bit-complement (suc w) x (suc i) h k =
    let e : (2 ^ suc w - 1 - x) / 2 ≡ 2 ^ w - 1 - x / 2 = omega (arith, pow-suc 2 w) in
    rw e (bit-complement w (x / 2) i (omega (arith, pow-suc 2 w)) (omega arith))

pub bit-zero : (i : ℕ) → bit 0 i ≡ 0
unfolding bit
bit-zero zero = refl
bit-zero (suc i) = bit-zero i

pub bit-power : (s i : ℕ) → bit (2 ^ s) i ≡ (if i == s then 1 else 0)
unfolding bit
bit-power zero zero = refl
bit-power zero (suc i) = ground (arith, bit-zero i)
bit-power (suc s) zero = ground (arith, pow-suc 2 s)
bit-power (suc s) (suc i) =
    let e : 2 ^ suc s / 2 ≡ 2 ^ s = omega (arith, pow-suc 2 s) in
    rw e (ground (arith, bit-power s i))

-- ( 1 << s ) - 1
pub bit-mask : (s i : ℕ) → bit (2 ^ s - 1) i ≡ (if ltb i s then 1 else 0)
unfolding bit
bit-mask zero i = ground (arith, bit-zero i)
bit-mask (suc s) zero = ground (arith, pow-suc 2 s, one-le-pow s 2)
bit-mask (suc s) (suc i) =
    let e : (2 ^ suc s - 1) / 2 ≡ 2 ^ s - 1 = omega (arith, pow-suc 2 s) in
    rw e (ground (arith, bit-mask s i))

bit-add_high : (w q r i : ℕ) → i < w → bit (q * 2 ^ w + r) i ≡ bit r i
unfolding bit
bit-add_high zero q r i h = elim h [ ]
bit-add_high (suc w) q r zero h = omega (arith, ap (λ (t : ℕ). q * t) (pow-suc 2 w))
bit-add_high (suc w) q r (suc i) h =
    let e : (q * 2 ^ suc w + r) / 2 ≡ q * 2 ^ w + r / 2 =
      omega (arith, ap (λ (t : ℕ). q * t) (pow-suc 2 w)) in
    rw e (bit-add_high w q (r / 2) i (omega arith))

-- Truncation to w bits.
pub bit-mod : (w x i : ℕ) → i < w → bit (x % 2 ^ w) i ≡ bit x i
bit-mod w x i h =
    let e : x ≡ x / 2 ^ w * 2 ^ w + x % 2 ^ w = grind (arith, one-le-pow w 2) in
    sym (bit-add_high w (x / 2 ^ w) (x % 2 ^ w) i h) ∙ ap (λ (t : ℕ). bit t i) (sym e)

pub bit-above : (w x i : ℕ) → x < 2 ^ w → w ≤ i → bit x i ≡ 0
unfolding bit
bit-above zero x i h k = let e : x ≡ 0 = omega arith in rw e (bit-zero i)
bit-above (suc w) x zero h k = absurd (omega arith)
bit-above (suc w) x (suc i) h k = bit-above w (x / 2) i (omega (arith, pow-suc 2 w)) (omega arith)

-- A number that is not 0 has a bit set.
pub some_bit : (w x : ℕ) → x < 2 ^ w → x ≢ 0 → (i : ℕ) × (i < w) × (bit x i ≡ 1)
unfolding bit
some_bit zero x h n = absurd (n (omega arith))
some_bit (suc w) x h n = elim (parity x) [
  | inl odd ↦ (0, omega arith, odd)
  | inr even ↦
      let (i, k, e) = some_bit w (x / 2) (omega (arith, pow-suc 2 w)) (λ z. n (omega arith)) in
      (suc i, omega arith, e)
]
  where
    parity : (x : ℕ) → (x % 2 ≡ 1) ⊎ (x % 2 ≡ 0)
    parity x = omega arith

-- Two words with the same bits are equal.
bits_ext : (w a b : ℕ) → a < 2 ^ w → b < 2 ^ w → ((i : ℕ) → i < w → bit a i ≡ bit b i) → a ≡ b
unfolding bit
bits_ext zero a b h k e = omega arith
bits_ext (suc w) a b h k e = omega (
  arith,
  e 0 (omega arith),
  bits_ext w (a / 2) (b / 2) (omega (arith, pow-suc 2 w)) (omega (arith, pow-suc 2 w))
      (λ i l. e (suc i) (omega arith)),
)

pub and-lt : (w a b : ℕ) → a < 2 ^ w → bit_and a b < 2 ^ w
and-lt w zero b h = omega (arith, bit_and-bitwise 0 b)
and-lt zero (suc a) b h = absurd (omega arith)
and-lt (suc w) (suc a) b h = omega (
  arith,
  pow-suc 2 w,
  bit_and-Digitwise (suc a) b,
  and-lt w (suc a / 2) (b / 2) (omega (arith, pow-suc 2 w)),
)

pub or-lt : (w a b : ℕ) → a < 2 ^ w → b < 2 ^ w → bit_or a b < 2 ^ w
or-lt w zero b h k = omega (arith, bit_or-bitwise 0 b)
or-lt zero (suc a) b h k = absurd (omega arith)
or-lt (suc w) (suc a) b h k = omega (
  arith,
  pow-suc 2 w,
  bit_or-Digitwise (suc a) b,
  or-lt w (suc a / 2) (b / 2) (omega (arith, pow-suc 2 w)) (omega (arith, pow-suc 2 w)),
)

pub xor-lt : (w a b : ℕ) → a < 2 ^ w → b < 2 ^ w → bit_xor a b < 2 ^ w
xor-lt w zero b h k = omega (arith, bit_xor-bitwise 0 b)
xor-lt zero (suc a) b h k = absurd (omega arith)
xor-lt (suc w) (suc a) b h k = omega (
  arith,
  pow-suc 2 w,
  bit_xor-Digitwise (suc a) b,
  xor-lt w (suc a / 2) (b / 2) (omega (arith, pow-suc 2 w)) (omega (arith, pow-suc 2 w)),
)
