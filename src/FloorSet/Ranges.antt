-- ===== src/FloorSet/Ranges.antt =====
-- elevator/floorset.h: anyHigher, anyLower, anyOther, consistent and hasAdditional against the set
-- of floors that the word stands for.
use Prim.Native.Nat.{bit_and, bit_xor}
use ttk.Prelude.{ℕ, ◌+◌, ◌<◌, ◌≡◌, ◌≢◌, ◌↔◌, Bool, true, false, not, arith, refl, ap}
use ttk.Prelude.Int.{ℤ, pos, ◌+ℤ◌, +ℤ_parts, ◌≤ℤ◌, ◌<ℤ◌, gap, pos_part, neg_part, eq_of_parts}
use ttk.Prelude.Word.{bit, bit-le_one, bit-and, bit-xor, bit-zero, some_bit, and-lt, xor-lt}
use ttk.Outcome.{Decides}
use ttk.Driver.{DriverInfo, InBounds}
use ttk.FloorSet.{
  FloorSet, Has, IsWord, Fits, test, higher_mask, lower_mask, other_mask, any_higher, any_lower,
  any_other, consistent, has_additional,
}
use ttk.FloorSet.Masks.{bit-higher_mask, bit-lower_mask, bit-other_mask, test-and}
use ttk.FloorSet.Members.{shift-lt}

-- The floor of a bit.
floor_at : DriverInfo → ℕ → ℤ
floor_at d i = d.min_floor +ℤ pos i

floor_at_parts :
    (d : DriverInfo) (i : ℕ)
    → pos_part (floor_at d i) + neg_part d.min_floor
      ≡ pos_part d.min_floor + i + neg_part (floor_at d i)
unfolding floor_at
floor_at_parts d i = omega (arith, +ℤ_parts d.min_floor (pos i))

gap-floor_at : (d : DriverInfo) (i : ℕ) → gap (floor_at d i) d.min_floor ≡ i
gap-floor_at d i = omega (arith, floor_at_parts d i)

Has-floor_at :
    (s : FloorSet) (d : DriverInfo) (i : ℕ) → i < 64 → bit s.floors i ≡ 1 → Has s d (floor_at d i)
unfolding floor_at
Has-floor_at s d i h e =
    let g : gap (d.min_floor +ℤ pos i) d.min_floor ≡ i =
      omega (arith, +ℤ_parts d.min_floor (pos i)) in
    record {
      from_min = omega (arith, +ℤ_parts d.min_floor (pos i));
      in_word = omega (arith, g);
      is_set = rw g e;
    }

-- A mask test in bounds finds a floor of the set that the mask holds.
mask-Decides {ℓ} :
    (P : ℤ → Type ℓ) (s : FloorSet) (d : DriverInfo) (m : ℕ)
    → IsWord s
    → ((i : ℕ) → i < 64 → bit m i ≡ 1 → P (floor_at d i))
    → ((g : ℤ) → d.min_floor ≤ℤ g → gap g d.min_floor < 64 → P g → bit m (gap g d.min_floor) ≡ 1)
    → (test (bit_and s.floors m) ≡ true) ↔ ((g : ℤ) × P g × Has s d g)
mask-Decides P s d m w into from =
    let (there, back) = test-and s.floors m w in
    (
      λ h. let (i, k, p, q) = there h in (floor_at d i, into i k q, Has-floor_at s d i k p),
      λ e.
          back
            (gap e.0 d.min_floor, e.2.in_word, e.2.is_set, from e.0 e.2.from_min e.2.in_word e.1),
    )

module _ (f : ℤ) (d : DriverInfo) (s : FloorSet) (b : InBounds f d) (fits : Fits d)
    (w : IsWord s) where
  shift : gap f d.min_floor < 64
  shift = shift-lt f d b fits

  -- In bounds, for at most 64 floors, anyHigher returns without a failed assertion whether the set
  -- holds a floor above the given one.
  pub any_higher-Has : Decides (any_higher f d s) ((g : ℤ) × (f <ℤ g) × Has s d g)
  unfolding any_higher
  any_higher-Has = (
    test (bit_and s.floors (higher_mask f d)),
    ground (arith, b),
    mask-Decides (λ g. f <ℤ g) s d (higher_mask f d) w
        (λ i h e. above i (ground (arith, bit-higher_mask f d shift i h)))
        (λ g p q r. ground (arith, bit-higher_mask f d shift (gap g d.min_floor) q, b)),
  )
    where
      above : (i : ℕ) → gap f d.min_floor < i → f <ℤ floor_at d i
      above i h = omega (arith, floor_at_parts d i, b)

  -- In bounds, for at most 64 floors, anyLower returns without a failed assertion whether the set
  -- holds a floor below the given one.
  pub any_lower-Has : Decides (any_lower f d s) ((g : ℤ) × (g <ℤ f) × Has s d g)
  unfolding any_lower
  any_lower-Has = (
    test (bit_and s.floors (lower_mask f d)),
    ground (arith, b),
    mask-Decides (λ g. g <ℤ f) s d (lower_mask f d) w
        (λ i h e. below i (ground (arith, bit-lower_mask f d shift i)))
        (λ g p q r. ground (arith, bit-lower_mask f d shift (gap g d.min_floor), b)),
  )
    where
      below : (i : ℕ) → i < gap f d.min_floor → floor_at d i <ℤ f
      below i h = omega (arith, floor_at_parts d i, b)

  -- In bounds, for at most 64 floors, anyOther returns without a failed assertion whether the set
  -- holds a floor other than the given one.
  any_other-Has : Decides (any_other f d s) ((g : ℤ) × (g ≢ f) × Has s d g)
  unfolding any_other
  any_other-Has = (
    test (bit_and s.floors (other_mask f d)),
    ground (arith, b),
    mask-Decides (λ g. g ≢ f) s d (other_mask f d) w
        (λ i h e. apart i (ground (arith, bit-other_mask f d shift i h)))
        (λ g p q r. ground (arith, bit-other_mask f d shift (gap g d.min_floor) q, same g, b)),
  )
    where
      apart : (i : ℕ) → i ≢ gap f d.min_floor → floor_at d i ≢ f
      apart i h e = h (rw (← e) (omega (arith, floor_at_parts d i)))

      same : (g : ℤ) → d.min_floor ≤ℤ g → gap g d.min_floor ≡ gap f d.min_floor → g ≡ f
      same g p e = eq_of_parts g f (omega (arith, b))

-- With at most 64 floors, consistent returns without a failed assertion whether the set holds no
-- floor above the highest one.
pub consistent-Has :
    (d : DriverInfo) (s : FloorSet)
    → Fits d
    → IsWord s
    → Decides (consistent d s) ((g : ℤ) → Has s d g → g ≤ℤ d.max_floor)
unfolding consistent
consistent-Has d s fits w =
    let top : InBounds d.max_floor d = record { above_min = fits.0; below_max = omega arith } in
    let (v, e, found) = any_higher-Has d.max_floor d s top fits w in
    (not v, rw e, (λ h g k. below v found h g k, λ all. none_above v found all))
  where
    Above : Type 0
    Above = (g : ℤ) × (d.max_floor <ℤ g) × Has s d g

    below : (v : Bool) → (v ≡ true) ↔ Above → not v ≡ true → (g : ℤ) → Has s d g → g ≤ℤ d.max_floor
    below v found h g k = grind (arith, λ (l : d.max_floor <ℤ g). found.1 (g, l, k))

    none_above :
        (v : Bool) → (v ≡ true) ↔ Above → ((g : ℤ) → Has s d g → g ≤ℤ d.max_floor) → not v ≡ true
    none_above false found all = refl
    none_above true found all = let (g, l, k) = found.0 refl in absurd (omega (arith, all g k))

-- A bit of `(x ^ y) & y` is set when only `y` has it.
bit-gained : (x y i : ℕ) → (bit (bit_and (bit_xor x y) y) i ≡ 1) ↔ ((bit y i ≡ 1) × (bit x i ≡ 0))
bit-gained x y i =
    let e = bit-and (bit_xor x y) y i in
    let f = bit-xor x y i in
    (λ h. omega (arith, e, f, bit-le_one x i, bit-le_one y i), λ h. omega (arith, e, f, h.0, h.1))

-- hasAdditional answers whether some floor is in the second set and not in the first, for two
-- 64-bit words.
has_additional-Has :
    (a b : FloorSet) (d : DriverInfo)
    → IsWord a
    → IsWord b
    → (has_additional a b ≡ true) ↔ ((f : ℤ) × Has b d f × (¬ Has a d f))
unfolding has_additional
has_additional-Has a b d v w = (λ h. gained (ground arith), λ e. lost e)
  where
    x : ℕ
    x = bit_and (bit_xor a.floors b.floors) b.floors

    gained : x ≢ 0 → (f : ℤ) × Has b d f × (¬ Has a d f)
    gained n =
        let (i, k, e) = some_bit 64 x (and-lt 64 _ b.floors (xor-lt 64 a.floors b.floors v w)) n in
        let (p, q) = (bit-gained a.floors b.floors i).0 e in
        (
          floor_at d i,
          Has-floor_at b d i k p,
          λ h. omega (arith, h.is_set, q, ap (bit a.floors) (gap-floor_at d i)),
        )

    lost : ((f : ℤ) × Has b d f × (¬ Has a d f)) → test x ≡ true
    lost (f, h, n) =
        let i = gap f d.min_floor in
        let e : bit a.floors i ≡ 0 = omega (
          arith,
          bit-le_one a.floors i,
          λ (k : bit a.floors i ≡ 1).
              n (record { from_min = h.from_min; in_word = h.in_word; is_set = k }),
        ) in
        ground (
          arith,
          (bit-gained a.floors b.floors i).1 (h.is_set, e),
          bit-zero i,
          ap (λ (t : ℕ). bit t i) {x = x} {y = 0},
        )
