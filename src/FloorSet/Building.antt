-- ===== src/FloorSet/Building.antt =====
-- elevator/floorset.h: a set to which only floors in bounds were added holds no others.
use native.Mathlib.Nat.{pow-le-pow_right, one-le-pow, pow-suc}
use ttk.Prelude.{
  ℕ, suc, ◌^◌, ◌<◌, ◌≤◌, ◌≡◌, sym, ap, ◌∙◌, subst, Bool, true, false, arith, ◌⊎◌, inl, inr,
  Bool-cases,
}
use ttk.Prelude.Int.{ℤ, ◌≤ℤ◌, gap, leb_ℤ}
use ttk.Prelude.Word.{and-lt, or-lt, bit-above}
use ttk.Outcome.{ok, ok_injective, failed-ne_ok}
use ttk.Driver.{DriverInfo, InBounds}
use ttk.FloorSet.{FloorSet, Has, IsWord, Fits, flag, other_mask, set, assign, consistent}
use ttk.FloorSet.Masks.{flag-eq}
use ttk.FloorSet.Members.{set-get, set-failed, shift-lt}
use ttk.FloorSet.Ranges.{consistent-Has}

-- How many floors there are, and the sets of these floors.
abbrev pub width : DriverInfo → ℕ
width d = suc (gap d.max_floor d.min_floor)

abbrev pub IsOfBuilding : DriverInfo → FloorSet → Type 0
IsOfBuilding d s = s.floors < 2 ^ width d

IsOfBuilding-IsWord : (d : DriverInfo) (s : FloorSet) → Fits d → IsOfBuilding d s → IsWord s
IsOfBuilding-IsWord d s fits h = omega (
  arith,
  h,
  pow-le-pow_right {n = 2} (omega arith) {i = width d} {j = 64} (omega (arith, fits.1)),
)

flag-of_building : (f : ℤ) (d : DriverInfo) → InBounds f d → Fits d → flag f d < 2 ^ width d
flag-of_building f d b fits =
    let below : gap f d.min_floor ≤ gap d.max_floor d.min_floor =
      omega (arith, b.above_min, b.below_max) in
    rw (flag-eq f d (shift-lt f d b fits)) (
      omega (
        arith,
        pow-suc 2 (gap d.max_floor d.min_floor),
        one-le-pow (gap d.max_floor d.min_floor) 2 (omega arith),
        pow-le-pow_right {n = 2} (omega arith) {i = gap f d.min_floor}
            {j = gap d.max_floor d.min_floor} below,
      ))

assign-IsOfBuilding :
    (v : Bool) (f : ℤ) (d : DriverInfo) (s : FloorSet)
    → InBounds f d
    → Fits d
    → IsOfBuilding d s
    → IsOfBuilding d (assign v f d s)
unfolding assign
assign-IsOfBuilding true f d s b fits w =
    or-lt (width d) s.floors (flag f d) w (flag-of_building f d b fits)
assign-IsOfBuilding false f d s b fits w = and-lt (width d) s.floors (other_mask f d) w

in_bounds : (f : ℤ) (d : DriverInfo) → InBounds f d ⊎ (¬ InBounds f d)
in_bounds f d = elim (Bool-cases (leb_ℤ d.min_floor f)) [
  | inl e ↦ elim (Bool-cases (leb_ℤ f d.max_floor)) [
    | inl g ↦ inl (record { above_min = ground arith; below_max = ground arith })
    | inr g ↦ inr (λ b. ground (arith, b.below_max))
  ]
  | inr e ↦ inr (λ b. ground (arith, b.above_min))
]

-- So set keeps such a set, whenever its assertions hold.
pub set-IsOfBuilding :
    (v : Bool) (f : ℤ) (d : DriverInfo) (s : FloorSet) (r : FloorSet × Bool)
    → Fits d
    → IsOfBuilding d s
    → set v f d s ≡ ok r
    → IsOfBuilding d r.0
set-IsOfBuilding v f d s r fits h e = elim (in_bounds f d) [
  | inl b ↦
      let (old, g, _, _, _) = set-get v f d s b fits (IsOfBuilding-IsWord d s fits h) in
      subst (λ (t : FloorSet × Bool). IsOfBuilding d t.0) (ok_injective (sym g ∙ e))
        (assign-IsOfBuilding v f d s b fits h)
  | inr n ↦ absurd (failed-ne_ok (sym (set-failed v f d s n) ∙ e))
]

-- Such a set passes the check.
pub consistent-IsOfBuilding :
    (d : DriverInfo) (s : FloorSet) → Fits d → IsOfBuilding d s → consistent d s ≡ ok true
consistent-IsOfBuilding d s fits h =
    let (v, e, decides) = consistent-Has d s fits (IsOfBuilding-IsWord d s fits h) in
    e ∙ ap ok (decides.1 (λ g has. in_building g has (in_bounds g d)))
  where
    in_building : (g : ℤ) → Has s d g → InBounds g d ⊎ (¬ InBounds g d) → g ≤ℤ d.max_floor
    in_building g has (inl b) = b.below_max
    in_building g has (inr n) = elim (Bool-cases (leb_ℤ g d.max_floor)) [
      | inl e ↦ ground arith
      | inr e ↦ absurd (
          omega (
            arith,
            has.is_set,
            bit-above (width d) s.floors (gap g d.min_floor) h
                (ground (arith, fits.0, has.from_min)),
          ))
    ]
