-- ===== src/FloorSet/Members.antt =====
-- elevator/floorset.h: get, set and the union against the set of floors that the word stands for.
use Prim.Native.Nat.{bit_and}
use ttk.Prelude.{
  ℕ, ◌<◌, ◌^◌, ◌≡◌, ◌↔◌, ◌⊎◌, inl, inr, Bool, true, false, ◌==◌, if◌then◌else◌, arith, Bool-cases,
  Bool-ext,
}
use ttk.Prelude.Int.{ℤ, ◌≤ℤ◌, ◌==ℤ◌, gap}
use ttk.Prelude.Word.{bit, bit-le_one, bit-and, bit-or, and-lt, or-lt}
use ttk.Outcome.{ok, failed, Decides}
use ttk.Driver.{DriverInfo, InBounds}
use ttk.FloorSet.{FloorSet, Has, IsWord, Fits, flag, other_mask, test, get, set, assign, union}
use ttk.FloorSet.Masks.{flag-lt, bit-flag, bit-other_mask, test-and}

-- The bit as a Boolean.
abbrev pub is_set : FloorSet → ℕ → Bool
is_set s i = bit s.floors i == 1

pub shift-lt : (f : ℤ) (d : DriverInfo) → InBounds f d → Fits d → gap f d.min_floor < 64
shift-lt f d b fits = omega arith

test-flag :
    (f : ℤ) (d : DriverInfo) (x : ℕ)
    → gap f d.min_floor < 64
    → x < 2 ^ 64
    → test (bit_and x (flag f d)) ≡ (bit x (gap f d.min_floor) == 1)
test-flag f d x fits w =
    let (there, back) = test-and x (flag f d) w in
    Bool-ext _ _ (λ h. found (there h))
      λ h. back (
        gap f d.min_floor,
        fits,
        ground arith,
        ground (arith, bit-flag f d fits (gap f d.min_floor)),
      )
  where
    found :
        ((i : ℕ) × (i < 64) × (bit x i ≡ 1) × (bit (flag f d) i ≡ 1))
        → (bit x (gap f d.min_floor) == 1) ≡ true
    found (i, k, p, q) =
        let e : i ≡ gap f d.min_floor = ground (arith, bit-flag f d fits i) in
        rw (← e) (ground arith)

pub get-ok :
    (f : ℤ) (d : DriverInfo) (s : FloorSet)
    → InBounds f d
    → Fits d
    → IsWord s
    → get f d s ≡ ok (is_set s (gap f d.min_floor))
unfolding get
get-ok f d s b fits w = ground (arith, test-flag f d s.floors (shift-lt f d b fits) w)

get-failed : (f : ℤ) (d : DriverInfo) (s : FloorSet) → ¬ InBounds f d → get f d s ≡ failed
unfolding get
get-failed f d s n = ground (
  arith,
  λ (p : d.min_floor ≤ℤ f) (q : f ≤ℤ d.max_floor). n (record { above_min = p; below_max = q }),
)

-- In bounds, for at most 64 floors, get returns without a failed assertion whether the floor is in
-- the set that the word stands for.
pub get-Has :
    (f : ℤ) (d : DriverInfo) (s : FloorSet)
    → InBounds f d
    → Fits d
    → IsWord s
    → Decides (get f d s) (Has s d f)
get-Has f d s b fits w = (is_set s (gap f d.min_floor), get-ok f d s b fits w, ground arith)

assign-IsWord :
    (v : Bool) (f : ℤ) (d : DriverInfo) (s : FloorSet)
    → InBounds f d
    → Fits d
    → IsWord s
    → IsWord (assign v f d s)
unfolding assign
assign-IsWord true f d s b fits w =
    or-lt 64 s.floors (flag f d) w (flag-lt f d (shift-lt f d b fits))
assign-IsWord false f d s b fits w = and-lt 64 s.floors (other_mask f d) w

bit-assign :
    (v : Bool) (f : ℤ) (d : DriverInfo) (s : FloorSet) (i : ℕ)
    → gap f d.min_floor < 64
    → i < 64
    → is_set (assign v f d s) i ≡ (if i == gap f d.min_floor then v else is_set s i)
unfolding assign
bit-assign true f d s i fits h =
    ground (arith, bit-or s.floors (flag f d) i, bit-flag f d fits i, bit-le_one s.floors i)
bit-assign false f d s i fits h =
    ground (
      arith,
      bit-and s.floors (other_mask f d) i,
      bit-other_mask f d fits i h,
      bit-le_one s.floors i,
    )

-- In bounds, for a set of at most 64 floors, set returns what get answers, and stores a 64-bit
-- word in which get answers the new value for this floor and the old one for every other floor.
pub set-get :
    (v : Bool) (f : ℤ) (d : DriverInfo) (s : FloorSet)
    → InBounds f d
    → Fits d
    → IsWord s
    → (old : Bool) × (set v f d s ≡ ok (assign v f d s, old))
      × (get f d s ≡ ok old)
      × IsWord (assign v f d s)
      × ((g : ℤ) → InBounds g d → get g d (assign v f d s) ≡ (if g ==ℤ f then ok v else get g d s))
unfolding set
set-get v f d s b fits w = (
  is_set s (gap f d.min_floor),
  rw (get-ok f d s b fits w),
  get-ok f d s b fits w,
  assign-IsWord v f d s b fits w,
  λ g c. other g c,
)
  where
    other :
        (g : ℤ) → InBounds g d → get g d (assign v f d s) ≡ (if g ==ℤ f then ok v else get g d s)
    other g c =
        rw
          (
            get-ok g d (assign v f d s) c fits (assign-IsWord v f d s b fits w),
            get-ok g d s c fits w,
            bit-assign v f d s (gap g d.min_floor) (shift-lt f d b fits) (shift-lt g d c fits),
          )
          (ground arith)

-- Out of bounds every operation on a floor fails its assertion.
pub set-failed :
    (v : Bool) (f : ℤ) (d : DriverInfo) (s : FloorSet) → ¬ InBounds f d → set v f d s ≡ failed
unfolding set
set-failed v f d s n = rw (get-failed f d s n)

pub union-IsWord : (a b : FloorSet) → IsWord a → IsWord b → IsWord (union a b)
unfolding union
union-IsWord a b h k = or-lt 64 a.floors b.floors h k

-- A floor is in the union of two sets exactly when it is in one of the two.
pub union-Has :
    (a b : FloorSet) (d : DriverInfo) (f : ℤ) → Has (union a b) d f ↔ (Has a d f ⊎ Has b d f)
unfolding union
union-Has a b d f = (
  λ h. elim (Bool-cases (is_set a (gap f d.min_floor))) [
    | inl e ↦ inl (ground arith)
    | inr e ↦ inr (
        ground (
          arith,
          bit-or a.floors b.floors (gap f d.min_floor),
          bit-le_one a.floors (gap f d.min_floor),
        ))
  ],
  λ e. elim e [
    | inl h ↦ ground (
      arith,
      bit-or a.floors b.floors (gap f d.min_floor),
      bit-le_one b.floors (gap f d.min_floor),
    )
    | inr h ↦ ground (
      arith,
      bit-or a.floors b.floors (gap f d.min_floor),
      bit-le_one a.floors (gap f d.min_floor),
    )
  ],
)
