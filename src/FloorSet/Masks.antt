-- ===== src/FloorSet/Masks.antt =====
-- The bits of the masks of elevator/floorset.h, and what a non-zero `&` means.
use Prim.Native.Nat.{bit_and}
use native.Mathlib.Nat.{pow-le-pow_right, one-le-pow}
use ttk.Prelude.{
  ℕ, zero, suc, ◌-◌, ◌*◌, ◌^◌, ◌<◌, ◌≡◌, ◌↔◌, ◌≢◌, true, ◌==◌, ltb, if◌then◌else◌, arith, ap,
}
use ttk.Prelude.Int.{ℤ, gap}
use ttk.Prelude.Word.{
  bit, bit-le_one, bit-and, bit-complement, bit-power, bit-mask, bit-mod, bit-zero, bit-double_zero,
  bit-double_suc, some_bit, and-lt,
}
use ttk.Driver.{DriverInfo}
use ttk.FloorSet.{flag, higher_mask, lower_mask, other_mask, test, word_not}

power-lt : (s : ℕ) → s < 64 → 2 ^ s < 2 ^ 64
power-lt s h = omega (arith, pow-le-pow_right {n = 2} (omega arith) {i = s} {j = 63} (omega arith))

module _ (f : ℤ) (d : DriverInfo) (fits : gap f d.min_floor < 64) where
  pub flag-eq : flag f d ≡ 2 ^ gap f d.min_floor
  unfolding flag
  flag-eq = omega (arith, power-lt (gap f d.min_floor) fits)

  flag-pos : 0 < flag f d
  flag-pos = rw flag-eq (one-le-pow _ 2 (omega arith))

  pub flag-lt : flag f d < 2 ^ 64
  flag-lt = rw flag-eq (power-lt _ fits)

  pub bit-flag : (i : ℕ) → bit (flag f d) i ≡ (if i == gap f d.min_floor then 1 else 0)
  bit-flag i = rw flag-eq (bit-power (gap f d.min_floor) i)

  pub bit-lower_mask :
      (i : ℕ) → bit (lower_mask f d) i ≡ (if ltb i (gap f d.min_floor) then 1 else 0)
  unfolding lower_mask
  bit-lower_mask i = rw flag-eq (bit-mask (gap f d.min_floor) i)

  pub bit-other_mask :
      (i : ℕ) → i < 64 → bit (other_mask f d) i ≡ (if i == gap f d.min_floor then 0 else 1)
  unfolding other_mask
  bit-other_mask i h = rw (bit-complement 64 (flag f d) i flag-lt h) (ground (arith, bit-flag i))

  pub bit-higher_mask :
      (i : ℕ) → i < 64 → bit (higher_mask f d) i ≡ (if ltb (gap f d.min_floor) i then 1 else 0)
  unfolding higher_mask
  bit-higher_mask i h = rw (bit-mod 64 (word_not (flag f d - 1) * 2) i h) (go i h)
    where
      go :
          (i : ℕ)
          → i < 64
          → bit (word_not (flag f d - 1) * 2) i ≡ (if ltb (gap f d.min_floor) i then 1 else 0)
      go zero h = ground (arith, bit-double_zero (word_not (flag f d - 1)))
      go (suc i) h = ground (
        arith,
        bit-double_suc (word_not (flag f d - 1)) i,
        bit-complement 64 (flag f d - 1) i,
        flag-lt,
        bit-mask (gap f d.min_floor) i,
        flag-eq,
      )

-- A bit of `x & m` is set when both have it.
bit-and_one : (x m i : ℕ) → bit (bit_and x m) i ≡ 1 → (bit x i ≡ 1) × (bit m i ≡ 1)
bit-and_one x m i e = omega (arith, bit-and x m i, bit-le_one x i, bit-le_one m i)

-- `x & m` is not zero exactly when both have a bit in common.
pub test-and :
    (x m : ℕ)
    → x < 2 ^ 64
    → (test (bit_and x m) ≡ true) ↔ ((i : ℕ) × (i < 64) × (bit x i ≡ 1) × (bit m i ≡ 1))
test-and x m h = (λ t. common (ground arith), λ e. shared e.0 e.2 e.3)
  where
    common : bit_and x m ≢ 0 → (i : ℕ) × (i < 64) × (bit x i ≡ 1) × (bit m i ≡ 1)
    common n =
        let (i, k, e) = some_bit 64 (bit_and x m) (and-lt 64 x m h) n in
        let (p, q) = bit-and_one x m i e in (i, k, p, q)

    shared : (i : ℕ) → bit x i ≡ 1 → bit m i ≡ 1 → test (bit_and x m) ≡ true
    shared i p q =
        ground (arith, bit-and x m i, bit-zero i, ap (λ (t : ℕ). bit t i) {x = bit_and x m} {y = 0})
