-- ===== src/FloorSet.antt =====
-- elevator/floorset.h: a set of floors as the bits of a uint64_t, lowest floor first.
-- A floor outside the driver's bounds fails an assertion. A shift by 64 or more is undefined in the
-- source ("can handle up to 64 floors"); the theorems ask for at most 64 floors.
pub mod Masks
pub mod Members
pub mod Ranges
pub mod Building
use Prim.Native.Nat.{bit_and, bit_or, bit_xor}
use ttk.Prelude.{ℕ, ◌+◌, ◌-◌, ◌*◌, ◌%◌, ◌^◌, ◌<◌, ◌≡◌, Bool, true, false, not, ◌==◌, if◌then◌else◌}
use ttk.Prelude.Int.{ℤ, ◌≤ℤ◌, leb_ℤ, gap}
use ttk.Prelude.Word.{bit}
use ttk.Outcome.{Outcome, ok, failed, ◌>>=◌, ◌>>◌, assert}
use ttk.Driver.{DriverInfo}

pub record FloorSet : Type 0 where
  pub floors : ℕ

-- _checkBounds
abbrev pub check_bounds : ℤ → DriverInfo → Outcome (Unit {0})
check_bounds floor d = do assert (leb_ℤ d.min_floor floor); assert (leb_ℤ floor d.max_floor)

abbrev pub word : ℕ → ℕ
word x = x % 2 ^ 64

-- ~x
abbrev pub word_not : ℕ → ℕ
word_not x = 2 ^ 64 - 1 - x

-- 1ul << (floor - d.minFloor())
unfoldable pub flag : ℤ → DriverInfo → ℕ
flag floor d = word (2 ^ gap floor d.min_floor)

unfoldable pub higher_mask : ℤ → DriverInfo → ℕ
higher_mask floor d = word (word_not (flag floor d - 1) * 2)

unfoldable pub lower_mask : ℤ → DriverInfo → ℕ
lower_mask floor d = flag floor d - 1

unfoldable pub other_mask : ℤ → DriverInfo → ℕ
other_mask floor d = word_not (flag floor d)

-- A word as a condition.
abbrev pub test : ℕ → Bool
test x = not (x == 0)

unfoldable pub empty : FloorSet
empty = record { floors = 0 }

unfoldable pub get : ℤ → DriverInfo → FloorSet → Outcome Bool
get floor d s = do check_bounds floor d; ok (test (bit_and s.floors (flag floor d)))

-- `_floors |= flag` or `_floors &= ~flag`
unfoldable pub assign : Bool → ℤ → DriverInfo → FloorSet → FloorSet
assign value floor d s = record s {
  floors = if value then bit_or s.floors (flag floor d) else bit_and s.floors (other_mask floor d);
}

-- The new set, and whether the floor was in the old one.
unfoldable pub set : Bool → ℤ → DriverInfo → FloorSet → Outcome (FloorSet × Bool)
set value floor d s = do orig ← get floor d s; ok (assign value floor d s, orig)

unfoldable pub any_higher : ℤ → DriverInfo → FloorSet → Outcome Bool
any_higher floor d s = do check_bounds floor d; ok (test (bit_and s.floors (higher_mask floor d)))

unfoldable pub any_lower : ℤ → DriverInfo → FloorSet → Outcome Bool
any_lower floor d s = do check_bounds floor d; ok (test (bit_and s.floors (lower_mask floor d)))

unfoldable pub any_other : ℤ → DriverInfo → FloorSet → Outcome Bool
any_other floor d s = do check_bounds floor d; ok (test (bit_and s.floors (other_mask floor d)))

unfoldable pub consistent : DriverInfo → FloorSet → Outcome Bool
consistent d s = do above ← any_higher d.max_floor d s; ok (not above)

unfoldable pub reset : FloorSet → FloorSet
reset s = record s { floors = 0 }

unfoldable pub has_any : FloorSet → Bool
has_any s = test s.floors

-- A floor that is in the second set and not in the first.
unfoldable pub has_additional : FloorSet → FloorSet → Bool
has_additional a b = test (bit_and (bit_xor a.floors b.floors) b.floors)

-- operator| and operator|=
unfoldable pub union : FloorSet → FloorSet → FloorSet
union a b = record { floors = bit_or a.floors b.floors }

-- operator==
pub equals : FloorSet → FloorSet → Bool
equals a b = a.floors == b.floors

-- What the set stands for: the floor `min_floor + i` is in it when bit `i` is set.
pub record Has (s : FloorSet) (d : DriverInfo) (f : ℤ) : Type 0 where
  pub from_min : d.min_floor ≤ℤ f
  pub in_word : gap f d.min_floor < 64
  pub is_set : bit s.floors (gap f d.min_floor) ≡ 1

-- The number is a uint64_t, and the floors of the driver fit one.
abbrev pub IsWord : FloorSet → Type 0
IsWord s = s.floors < 2 ^ 64

abbrev pub Fits : DriverInfo → Type 0
Fits d = (d.min_floor ≤ℤ d.max_floor) × (gap d.max_floor d.min_floor < 64)
