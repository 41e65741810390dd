-- ===== src/Scheduler/Choosing.antt =====
-- elevator/scheduler.cpp, _optimalElevator: the elevator that is chosen is a best one.
use mathlib.Core.Bool.{true≢false}
use ttk.Prelude.{
  ℕ, ◌<◌, ◌≡◌, refl, sym, ap, ◌∙◌, ◌⊎◌, inl, inr, arith, true, false, [], ◌∷◌, All, All-In, All-map,
  All-of, In, head, tail, Bool-cases, subst,
}
use ttk.Prelude.Int.{ℤ, pos, ◌≤ℤ◌, leb_ℤ, ltb_ℤ, int_min, int_max}
use ttk.Outcome.{ok, failed}
use ttk.Driver.{DriverInfo, ButtonType, InBounds}
use ttk.State.{ElevatorState}
use ttk.GlobalState.{Elevators}
use ttk.Scheduler.Costs.{price, plain, price-plain, cheap-found}
use ttk.Scheduler.{older, dead_thresh, range, consider, nearest, assert_found, choose_elevator}

cheaper : (a b : ℤ) → ltb_ℤ a b ≡ true → a ≤ℤ b
cheaper a b h = ground arith

dearer : (a b : ℤ) → ltb_ℤ a b ≡ false → b ≤ℤ a
dearer a b h = ground arith

module _ (d : DriverInfo) (now : ℕ) (type : ButtonType) (floor : ℤ) where
  abbrev pub IsAlive : ElevatorState → Type 0
  IsAlive s = older dead_thresh now s ≡ false

  -- What the body of the loop makes of the best so far.
  record Considered (s : ElevatorState) (best next : ℤ × ℤ) : Type 0 where
    no_worse : next.0 ≤ℤ best.0
    covers : IsAlive s → next.0 ≤ℤ price d now type floor s
    origin : (next ≡ best) ⊎ (IsAlive s × (next ≡ (price d now type floor s, s.id)))

  consider-Considered :
      (s : ElevatorState) (best : ℤ × ℤ) → Considered s best (consider d now type floor s best)
  unfolding consider
  consider-Considered s best = elim (Bool-cases (older dead_thresh now s)) [
    | inl e ↦ rw e (record {
      no_worse = omega arith;
      covers = λ h. absurd (true≢false (sym e ∙ h));
      origin = inl refl;
    })
    | inr e ↦ elim (Bool-cases (ltb_ℤ (price d now type floor s) best.0)) [
      | inl l ↦
          rw (e, l)
            (record {
              no_worse = cheaper (price d now type floor s) best.0 l;
              covers = λ h. omega arith;
              origin = inr (e, refl);
            })
      | inr l ↦
          let g = dearer (price d now type floor s) best.0 l in
          rw (e, l) (record { no_worse = omega arith; covers = λ h. g; origin = inl refl })
    ]
  ]

  -- What the whole loop makes of it.
  record Nearest (es : Elevators) (best last : ℤ × ℤ) : Type 0 where
    no_worse : last.0 ≤ℤ best.0
    covers : All (λ (e : ℤ × ElevatorState). IsAlive e.1 → last.0 ≤ℤ price d now type floor e.1) es
    origin :
        (last ≡ best)
        ⊎ ((i : ℤ) × (s : ElevatorState) × In (i, s) es
            × IsAlive s
            × (last ≡ (price d now type floor s, s.id)))

  nearest-Nearest :
      (es : Elevators) (best : ℤ × ℤ) → Nearest es best (nearest d now type floor es best)
  unfolding nearest
  nearest-Nearest [] best = record { no_worse = omega arith; covers = tt; origin = inl refl }
  nearest-Nearest ((i, s) ∷ es) best =
      let step = consider-Considered s best in
      let rest = nearest-Nearest es (consider d now type floor s best) in
      record {
        no_worse = omega (arith, step.no_worse, rest.no_worse);
        covers = (λ h. omega (arith, rest.no_worse, step.covers h), rest.covers);
        origin = elim rest.origin [
          | inr (j, t, m, h, e) ↦ inr (j, t, tail (i, s) m, h, e)
          | inl e ↦ elim step.origin [
            | inl f ↦ inl (e ∙ f)
            | inr (h, f) ↦ inr (i, s, head es, h, e ∙ f)
          ]
        ];
      }

  -- The elevator is alive, and no other that is alive is cheaper.
  pub record IsBest (es : Elevators) (i : ℤ) : Type 0 where
    pub key : ℤ
    pub state : ElevatorState
    pub known : In (key, state) es
    pub is_alive : IsAlive state
    pub same_id : state.id ≡ i
    pub cheapest :
        All
          (λ (e : ℤ × ElevatorState).
            IsAlive e.1 → price d now type floor state ≤ℤ price d now type floor e.1)
          es

  -- The identifiers of elevators count from 0.
  abbrev pub Numbered : Elevators → Type 0
  Numbered = All (λ (e : ℤ × ElevatorState). pos 0 ≤ℤ e.1.id)

  found : (i : ℤ) → pos 0 ≤ℤ i → assert_found i ≡ ok i
  unfolding assert_found
  found i h = let e : leb_ℤ (pos 0) i ≡ true = ground arith in rw e refl

  lost : assert_found int_min ≡ failed
  unfolding assert_found
  lost = refl

  choose_elevator-cases :
      (es : Elevators)
      → Numbered es
      → ((i : ℤ) × (choose_elevator d now type floor es ≡ ok i) × IsBest es i)
        ⊎ ((choose_elevator d now type floor es ≡ failed)
            × All
                (λ (e : ℤ × ElevatorState). IsAlive e.1 → int_max ≤ℤ price d now type floor e.1)
                es)
  unfolding choose_elevator
  choose_elevator-cases es ids =
      let r = nearest-Nearest es (int_max, int_min) in
      elim r.origin [
        | inl e ↦ inr (
          ap (λ (b : ℤ × ℤ). assert_found b.1) e ∙ lost,
          subst
              (λ (b : ℤ × ℤ).
                All (λ (e : ℤ × ElevatorState). IsAlive e.1 → b.0 ≤ℤ price d now type floor e.1) es)
              e r.covers,
        )
        | inr (k, s, m, h, e) ↦ inl (
          s.id,
          ap (λ (b : ℤ × ℤ). assert_found b.1) e
              ∙ found s.id (All-In (λ (e : ℤ × ElevatorState). pos 0 ≤ℤ e.1.id) m ids),
          record {
            key = k;
            state = s;
            known = m;
            is_alive = h;
            same_id = refl;
            cheapest =
                subst
                  (λ (b : ℤ × ℤ).
                    All (λ (e : ℤ × ElevatorState). IsAlive e.1 → b.0 ≤ℤ price d now type floor e.1)
                      es)
                  e r.covers;
          },
        )
      ]

  -- The last floors of the known elevators, and the floor of the call, are floors of the building.
  pub record Sensible (es : Elevators) : Type 0 where
    pub last_floors : All (λ (e : ℤ × ElevatorState). InBounds e.1.last_floor d) es
    pub call_floor : InBounds floor d
    pub few_floors : range d < 1000000

  all-plain :
      (es : Elevators)
      → Sensible es
      → All
          (λ (e : ℤ × ElevatorState). price d now type floor e.1 ≡ pos (plain d now type floor e.1))
          es
  all-plain es h =
      All-map (λ (e : ℤ × ElevatorState). InBounds e.1.last_floor d)
        (λ (e : ℤ × ElevatorState). price d now type floor e.1 ≡ pos (plain d now type floor e.1))
        (λ e b. price-plain d now type floor e.1 b h.call_floor h.few_floors) es h.last_floors

  none-IsAlive :
      (es : Elevators)
      → Sensible es
      → All (λ (e : ℤ × ElevatorState). IsAlive e.1 → int_max ≤ℤ price d now type floor e.1) es
      → All (λ (e : ℤ × ElevatorState). ¬ IsAlive e.1) es
  none-IsAlive es h dear =
      All-of (λ (e : ℤ × ElevatorState). ¬ IsAlive e.1) es
        (λ e m alive.
          cheap-found d now type floor e.1
            (All-In (λ (e : ℤ × ElevatorState). InBounds e.1.last_floor d) m h.last_floors)
            h.call_floor h.few_floors
            (All-In (λ (e : ℤ × ElevatorState). IsAlive e.1 → int_max ≤ℤ price d now type floor e.1)
              m dear alive))

  -- For elevators with identifiers from 0 on, with their last floors and the floor of the call in
  -- bounds and fewer than a million floors, the costs are the distances with the penalties,
  -- without an overflow of an int, and _optimalElevator either returns an elevator that is alive
  -- and that no other one that is alive undercuts in cost, or its assertion fails and no elevator
  -- is alive.
  pub choose_elevator-IsBest :
      (es : Elevators)
      → Numbered es
      → Sensible es
      → All
          (λ (e : ℤ × ElevatorState). price d now type floor e.1 ≡ pos (plain d now type floor e.1))
          es
        × (((i : ℤ) × (choose_elevator d now type floor es ≡ ok i) × IsBest es i)
            ⊎ ((choose_elevator d now type floor es ≡ failed)
                × All (λ (e : ℤ × ElevatorState). ¬ IsAlive e.1) es))
  choose_elevator-IsBest es ids h = (
    all-plain es h,
    elim (choose_elevator-cases es ids) [
      | inl best ↦ inl best
      | inr (e, dear) ↦ inr (e, none-IsAlive es h dear)
    ],
  )

  -- With some elevator that is alive and whose last floor is in bounds, a floor in bounds and
  -- fewer than a million floors, _optimalElevator does not fail: it returns a best elevator.
  pub choose_elevator-found :
      (es : Elevators) (k : ℤ) (s : ElevatorState)
      → Numbered es
      → In (k, s) es
      → IsAlive s
      → InBounds s.last_floor d
      → InBounds floor d
      → range d < 1000000
      → (i : ℤ) × (choose_elevator d now type floor es ≡ ok i) × IsBest es i
  choose_elevator-found es k s ids m h b c small = elim (choose_elevator-cases es ids) [
    | inl best ↦ best
    | inr (e, all) ↦ absurd (
        cheap-found d now type floor s b c small (
          All-In (λ (e : ℤ × ElevatorState). IsAlive e.1 → int_max ≤ℤ price d now type floor e.1) m
            all h))
  ]
