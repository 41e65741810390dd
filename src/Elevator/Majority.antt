-- ===== src/Elevator/Majority.antt =====
-- elevator/elevator.cpp, _optimalDirection: the elevator starts towards the greater number of calls.
use ttk.Prelude.{
  ℕ, zero, suc, ◌+◌, ◌≡◌, refl, ap, ◌∙◌, subst, ◌↔◌, ◌⊎◌, inl, inr, Bool, true, false, ◌&&◌, leb,
  arith, if◌then◌else◌, List, [], ◌∷◌, length, All, All-of, In, Distinct, Bool-cases,
}
use mathlib.Core.Bool.{false≢true}
use ttk.Prelude.Word.{bit-above}
use ttk.Prelude.Filter.{keep, In-keep, keep-Distinct}
use ttk.Prelude.Int.{ℤ, pos, ◌+ℤ◌, +ℤ_parts, ◌<ℤ◌, ◌≤ℤ◌, ltb_ℤ, gap}
use ttk.Outcome.{ok}
use ttk.Driver.{up, down, DriverInfo, InBounds}
use ttk.Driver.Ops.{all_floors, floors_from}
use ttk.FloorSet
use ttk.FloorSet.{FloorSet, Has, IsWord, Fits}
use ttk.FloorSet.Members.{is_set, get-ok, shift-lt, union-IsWord, union-Has}
use ttk.State.{ElevatorState}
use ttk.Elevator.Buttons.{all_floors-InBounds, floors_from-In}
use ttk.Elevator.Stopping.{Words}
use ttk.Elevator.Motion.{count_floors, floors_to_serve, optimal_direction}

floors_from-Distinct : (a : ℤ) (n : ℕ) → Distinct (floors_from a n)
unfolding floors_from
floors_from-Distinct a zero = tt
floors_from-Distinct a (suc n) = (
  All-of (λ y. y ≡ a → ⊥) (floors_from (a +ℤ pos 1) n)
      (λ y m. later y (floors_from-In (a +ℤ pos 1) n y m).0),
  floors_from-Distinct (a +ℤ pos 1) n,
)
  where
    later : (y : ℤ) → (a +ℤ pos 1) ≤ℤ y → y ≡ a → ⊥
    later y h e = omega (arith, subst (λ z. (a +ℤ pos 1) ≤ℤ z) e h, +ℤ_parts a (pos 1))

module _ (s : FloorSet) (last : ℤ) (d : DriverInfo) where
  abbrev wanted_below : ℤ → Bool
  wanted_below f = is_set s (gap f d.min_floor) && ltb_ℤ f last

  abbrev wanted_above : ℤ → Bool
  wanted_above f = is_set s (gap f d.min_floor) && ltb_ℤ last f

  counted :
      (b : Bool) (n : ℕ) (x : ℤ) (xs : List ℤ)
      → (if b then suc n else n) + length xs ≡ n + length (if b then x ∷ xs else xs)
  counted true n x xs = omega arith
  counted false n x xs = refl

  count_floors-keep :
      (is : List ℤ) (lower higher : ℕ)
      → Fits d
      → IsWord s
      → All (λ i. InBounds i d) is
      → count_floors s last d is (lower, higher)
        ≡ ok (lower + length (keep wanted_below is), higher + length (keep wanted_above is))
  unfolding count_floors keep
  count_floors-keep [] lower higher fits word h =
      ap (λ n. ok (n, higher)) (no_more lower) ∙ ap (λ m. ok (lower + 0, m)) (no_more higher)
    where
      no_more : (n : ℕ) → n ≡ n + 0
      no_more n = omega arith
  count_floors-keep (i ∷ is) lower higher fits word h = rw (get-ok i d s h.0 fits word) (
      count_floors-keep is (if wanted_below i then suc lower else lower)
        (if wanted_above i then suc higher else higher) fits word h.1
      ∙ ap
          (λ n.
            ok (n, (if wanted_above i then suc higher else higher) + length (keep wanted_above is)))
          (counted (wanted_below i) lower i (keep wanted_below is))
      ∙ ap (λ m. ok (lower + length (keep wanted_below (i ∷ is)), m))
          (counted (wanted_above i) higher i (keep wanted_above is)))

-- A list of the floors with a property, each once.
pub record Lists (P : ℤ → Type 0) (fs : List ℤ) : Type 0 where
  pub once : Distinct fs
  pub every : (f : ℤ) → In f fs ↔ P f

-- The floors that count: those of the inside buttons, or where none is pressed those of the calls.
abbrev WantedWhen : Bool → DriverInfo → ElevatorState → ℤ → Type 0
WantedWhen true d s f = Has s.inside_buttons d f
WantedWhen false d s f = Has s.up_buttons d f ⊎ Has s.down_buttons d f

abbrev pub Wanted : DriverInfo → ElevatorState → ℤ → Type 0
Wanted d s f = WantedWhen (FloorSet.has_any s.inside_buttons) d s f

none-Has : (d : DriverInfo) (a : FloorSet) (f : ℤ) → FloorSet.has_any a ≡ false → Has a d f → ⊥
unfolding FloorSet.has_any
none-Has d a f e h =
    omega (arith, h.is_set, bit-above 0 a.floors (gap f d.min_floor) (ground arith) (omega arith))

serve-Wanted :
    (d : DriverInfo) (s : ElevatorState) (f : ℤ)
    → Has (floors_to_serve s) d f ↔ WantedWhen (FloorSet.has_any s.inside_buttons) d s f
unfolding floors_to_serve
serve-Wanted d s f = elim (Bool-cases (FloorSet.has_any s.inside_buttons)) [
  | inl e ↦ rw e ((λ h. h), (λ h. h))
  | inr e ↦ rw e (
    (λ h. elim ((union-Has (FloorSet.union s.inside_buttons s.up_buttons) s.down_buttons d f).0 h) [
      | inl k ↦ elim ((union-Has s.inside_buttons s.up_buttons d f).0 k) [
        | inl x ↦ absurd (none-Has d s.inside_buttons f e x)
        | inr x ↦ inl x
      ]
      | inr k ↦ inr k
    ]),
    (λ m. (union-Has (FloorSet.union s.inside_buttons s.up_buttons) s.down_buttons d f).1 (elim m [
      | inl x ↦ inl ((union-Has s.inside_buttons s.up_buttons d f).1 (inr x))
      | inr x ↦ inr x
    ])),
  )
]

serve-IsWord : (s : ElevatorState) → Words s → IsWord (floors_to_serve s)
unfolding floors_to_serve
serve-IsWord s w = elim (Bool-cases (FloorSet.has_any s.inside_buttons)) [
  | inl e ↦ rw e w.inside
  | inr e ↦ rw e (
      union-IsWord (FloorSet.union s.inside_buttons s.up_buttons) s.down_buttons
        (union-IsWord s.inside_buttons s.up_buttons w.inside w.upward) w.downward)
]

-- The floors of the loop that pass a test.
keep-Lists :
    (d : DriverInfo) (p : ℤ → Bool) (P : ℤ → Type 0)
    → ((f : ℤ) → InBounds f d → (p f ≡ true) ↔ P f)
    → Lists (λ f. P f × InBounds f d) (keep p (all_floors d))
unfolding all_floors
keep-Lists d p P h = record {
  once = keep-Distinct p (all_floors d) (floors_from-Distinct d.min_floor _);
  every = λ f. (
    (λ m.
        let (k, t) = (In-keep p (all_floors d) f).0 m in
        let b = (all_floors-InBounds d f).0 k in ((h f b).0 t, b)),
    (λ m. (In-keep p (all_floors d) f).1 ((all_floors-InBounds d f).1 m.1, (h f m.1).1 m.0)),
  );
}

both-tests :
    (a b : Bool) (P Q : Type 0) → ((a ≡ true) ↔ P) → ((b ≡ true) ↔ Q) → ((a && b) ≡ true) ↔ (P × Q)
both-tests true b P Q h k = ((λ e. (h.0 refl, k.0 e)), (λ m. k.1 m.1))
both-tests false b P Q h k = ((λ e. absurd (false≢true e)), (λ m. absurd (false≢true (h.1 m.0))))

set-Wanted :
    (d : DriverInfo) (s : ElevatorState) (f : ℤ)
    → Fits d
    → Words s
    → InBounds f d
    → (is_set (floors_to_serve s) (gap f d.min_floor) ≡ true)
      ↔ WantedWhen (FloorSet.has_any s.inside_buttons) d s f
set-Wanted d s f fits w b =
    let h = serve-Wanted d s f in
    (
      (λ e. h.0 (record {
        from_min = b.above_min;
        in_word = shift-lt f d b fits;
        is_set = ground (arith, e);
      })),
      (λ k. let m = h.1 k in ground (arith, m.is_set)),
    )

-- The loop counts both lists.
counts :
    (d : DriverInfo) (s : ElevatorState)
    → Fits d
    → Words s
    → count_floors (floors_to_serve s) s.last_floor d (all_floors d) (0, 0)
      ≡ ok (
        length (keep (wanted_below (floors_to_serve s) s.last_floor d) (all_floors d)),
        length (keep (wanted_above (floors_to_serve s) s.last_floor d) (all_floors d)),
      )
counts d s fits w =
    count_floors-keep (floors_to_serve s) s.last_floor d (all_floors d) 0 0 fits (serve-IsWord s w)
      (All-of (λ i. InBounds i d) (all_floors d) (λ i m. (all_floors-InBounds d i).0 m))
    ∙ ap
        (λ n.
          ok
            (n, 0 + length (keep (wanted_above (floors_to_serve s) s.last_floor d) (all_floors d))))
        (zero_first _)
    ∙ ap
        (λ n.
          ok (length (keep (wanted_below (floors_to_serve s) s.last_floor d) (all_floors d)), n))
        (zero_first _)
  where
    zero_first : (n : ℕ) → 0 + n ≡ n
    zero_first n = omega arith

-- On at most 64 floors, with button sets that are 64-bit words, the elevator that has no direction
-- starts up if at least as many floors wait for it above its last floor as below, and else down:
-- the floors of the inside buttons, or if none of these is pressed the floors of the call buttons.
pub optimal_direction-majority :
    (d : DriverInfo) (s : ElevatorState)
    → Fits d
    → Words s
    → (below : List ℤ) × (above : List ℤ) × Lists
        (λ f. (Wanted d s f × (f <ℤ s.last_floor)) × InBounds f d)
        below
      × Lists (λ f. (Wanted d s f × (s.last_floor <ℤ f)) × InBounds f d) above
      × (optimal_direction d s ≡ ok (if leb (length below) (length above) then up else down))
unfolding optimal_direction
optimal_direction-majority d s fits w = (
  keep (wanted_below (floors_to_serve s) s.last_floor d) (all_floors d),
  keep (wanted_above (floors_to_serve s) s.last_floor d) (all_floors d),
  keep-Lists d _ _ (λ f b. both-tests _ _ _ _ (set-Wanted d s f fits w b) (ground arith)),
  keep-Lists d _ _ (λ f b. both-tests _ _ _ _ (set-Wanted d s f fits w b) (ground arith)),
  rw (counts d s fits w) refl,
)
