-- ===== src/Elevator/Buttons.antt =====
-- elevator/elevator.cpp, genFloorButtons: the buttons that the control loop watches.
use ttk.Prelude.{
  ℕ, zero, suc, ◌<◌, ◌≡◌, refl, sym, subst, ◌↔◌, ◌⊎◌, inl, inr, arith, Bool, true, false, List, [],
  ◌∷◌, In, head, tail, In-append, In-append_left, In-append_right, if◌then◌else◌,
}
use ttk.Prelude.Int.{ℤ, pos, ◌+ℤ◌, +ℤ_parts, ◌≤ℤ◌, ◌<ℤ◌, ltb_ℤ, gap, eq_of_parts}
use ttk.Driver.{DriverInfo, InBounds, Button, ButtonType, call_up, call_down, target_floor}
use ttk.Driver.Ops.{floors_from, all_floors}
use ttk.Elevator.Lights.{buttons_of, buttons_of_all, gen_floor_buttons}

pub floors_from-In : (a : ℤ) (n : ℕ) (g : ℤ) → In g (floors_from a n) → (a ≤ℤ g) × (gap g a < n)
unfolding floors_from
floors_from-In a zero g m = elim m [ ]
floors_from-In a (suc n) g (head _) = (omega arith, omega arith)
floors_from-In a (suc n) g (tail _ m) =
    let (h, k) = floors_from-In (a +ℤ pos 1) n g m in
    (omega (arith, +ℤ_parts a (pos 1)), omega (arith, +ℤ_parts a (pos 1)))

In-floors_from : (a : ℤ) (n : ℕ) (g : ℤ) → a ≤ℤ g → gap g a < n → In g (floors_from a n)
unfolding floors_from
In-floors_from a zero g h k = absurd (omega arith)
In-floors_from a (suc n) g h k = elim (first (gap g a)) [
  | inl e ↦
      subst (λ z. In z (a ∷ floors_from (a +ℤ pos 1) n)) (eq_of_parts a g (omega arith)) (head _)
  | inr l ↦ tail a (
      In-floors_from (a +ℤ pos 1) n g (omega (arith, +ℤ_parts a (pos 1)))
        (omega (arith, +ℤ_parts a (pos 1))))
]
  where
    first : (x : ℕ) → (x ≡ 0) ⊎ (0 < x)
    first zero = inl refl
    first (suc x) = inr (omega arith)

pub all_floors-InBounds : (d : DriverInfo) (g : ℤ) → In g (all_floors d) ↔ InBounds g d
unfolding all_floors
all_floors-InBounds d g = (
  λ m.
      let (h, k) = floors_from-In d.min_floor _ g m in
      record { above_min = h; below_max = omega (arith, h, k) },
  λ b. In-floors_from d.min_floor _ g b.above_min (omega (arith, b)),
)

of_all-In :
    (d : DriverInfo) (is : List ℤ) (b : Button)
    → In b (buttons_of_all d is)
    → (i : ℤ) × In i is × In b (buttons_of d i)
unfolding buttons_of_all
of_all-In d [] b m = elim m [ ]
of_all-In d (i ∷ is) b m = elim (In-append (buttons_of d i) (buttons_of_all d is) m) [
  | inl k ↦ (i, head is, k)
  | inr k ↦ let (j, p, q) = of_all-In d is b k in (j, tail i p, q)
]

In-of_all :
    (d : DriverInfo) (i : ℤ) (b : Button) (is : List ℤ)
    → In i is
    → In b (buttons_of d i)
    → In b (buttons_of_all d is)
unfolding buttons_of_all
In-of_all d i b _ (head is) m = In-append_left (buttons_of_all d is) m
In-of_all d i b _ (tail j p) m = In-append_right (buttons_of d j) (In-of_all d i b _ p m)

-- A button that a panel has: none up from the highest floor, none down from the lowest.
pub record Exists (d : DriverInfo) (b : Button) : Type 0 where
  pub floor_exists : InBounds b.floor d
  below_top : b.type ≡ call_up → b.floor <ℤ d.max_floor
  above_bottom : b.type ≡ call_down → d.min_floor <ℤ b.floor

optional-In : (c : Bool) (x b : Button) → In b (if c then x ∷ [] else []) → (c ≡ true) × (b ≡ x)
optional-In true x b (head _) = (refl, refl)
optional-In true x b (tail _ m) = elim m [ ]
optional-In false x b m = elim m [ ]

In-optional : (c : Bool) (x : Button) → c ≡ true → In x (if c then x ∷ [] else [])
In-optional c x e = rw e (head [])

of-In : (d : DriverInfo) (i : ℤ) (b : Button) → InBounds i d → In b (buttons_of d i) → Exists d b
unfolding buttons_of
of-In d i b h (head _) = record { floor_exists = h; below_top = λ e. cc; above_bottom = λ e. cc }
of-In d i b h (tail _ m) =
    elim (In-append (if ltb_ℤ i d.max_floor then record { type = call_up; floor = i } ∷ [] else [])
      (if ltb_ℤ d.min_floor i then record { type = call_down; floor = i } ∷ [] else []) m) [
        | inl k ↦
            let (c, e) = optional-In _ _ b k in
            subst (Exists d) (sym e) (record {
              floor_exists = h;
              below_top = λ _. ground (arith, c);
              above_bottom = λ e. cc;
            })
        | inr k ↦
            let (c, e) = optional-In _ _ b k in
            subst (Exists d) (sym e) (record {
              floor_exists = h;
              below_top = λ e. cc;
              above_bottom = λ _. ground (arith, c);
            })
      ]

In-panel :
    (d : DriverInfo) (t : ButtonType) (f : ℤ)
    → Exists d (record { type = t; floor = f })
    → In (record { type = t; floor = f }) (buttons_of d f)
unfolding buttons_of
In-panel d target_floor f x = head _
In-panel d call_up f x =
    let e : ltb_ℤ f d.max_floor ≡ true = ground (arith, x.below_top refl) in
    tail _ (In-append_left _ (In-optional (ltb_ℤ f d.max_floor) _ e))
In-panel d call_down f x =
    let e : ltb_ℤ d.min_floor f ≡ true = ground (arith, x.above_bottom refl) in
    tail _ (In-append_right _ (In-optional (ltb_ℤ d.min_floor f) _ e))

-- The control loop watches exactly the buttons that exist: on every floor the inside button, the
-- up button below the highest floor and the down button above the lowest.
pub gen_floor_buttons-Exists :
    (d : DriverInfo) (b : Button) → In b (gen_floor_buttons d) ↔ Exists d b
unfolding gen_floor_buttons
gen_floor_buttons-Exists d b = (
  λ m.
      let (i, p, q) = of_all-In d (all_floors d) b m in
      of-In d i b ((all_floors-InBounds d i).0 p) q,
  λ x.
      In-of_all d b.floor b (all_floors d) ((all_floors-InBounds d b.floor).1 x.floor_exists)
        (In-panel d b.type b.floor x),
)
