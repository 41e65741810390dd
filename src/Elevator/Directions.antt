-- ===== src/Elevator/Directions.antt =====
-- elevator/elevator.cpp, _startElevator: the direction in which the elevator starts.
use mathlib.Core.Bool.{true≢false}
use ttk.Prelude.{
  ◌≡◌, ◌≢◌, ◌⊎◌, refl, sym, ◌∙◌, true, false, inl, inr, arith, if◌then◌else◌, Bool-cases,
}
use ttk.Prelude.Int.{ℤ, ◌==ℤ◌, ==ℤ_iff, int_min}
use ttk.Outcome.{ok, Outcome-cases}
use ttk.Driver.{Direction, stay, up, down, DriverInfo}
use ttk.Driver.Ops.{get_floor, set_motor_speed}
use ttk.State.{ElevatorState}
use ttk.Elevator.{World, on_driver, info}
use ttk.Elevator.Motion.{speed, update_and_get_floor, forced_direction, choose, aim, drive, start}

-- The motor may refuse, but the state has the direction.
drive-direction : (c : Direction) (w : World) → (drive c w).0.elev_state.direction ≡ c
unfolding drive on_driver
drive-direction c w = elim (Outcome-cases (set_motor_speed c speed w.driver)) [
  | inl e ↦ rw e refl
  | inr (d, e) ↦ rw e refl
]

-- The state in which the direction is chosen.
abbrev located : Direction → World → ElevatorState
located dir w =
    (update_and_get_floor
      (record w { elev_state = record w.elev_state { direction = dir } })).0.elev_state

start-chosen :
    (dir c : Direction) (w : World)
    → choose
        (forced_direction (info w) (located dir w))
        (info w)
        (record (located dir w) { direction = forced_direction (info w) (located dir w) })
      ≡ ok c
    → (start dir w).0.elev_state.direction ≡ c
unfolding start aim update_and_get_floor
start-chosen dir c w e = rw e (drive-direction c _)

-- The floor that the sensor names, or else the last one.
abbrev pub known_floor : World → ℤ
known_floor w =
    if get_floor w.driver ==ℤ int_min then w.elev_state.last_floor else get_floor w.driver

located-last_floor : (dir : Direction) (w : World) → (located dir w).last_floor ≡ known_floor w
unfolding update_and_get_floor
located-last_floor dir w = elim (Bool-cases (get_floor w.driver ==ℤ int_min)) [
  | inl e ↦ rw e refl
  | inr e ↦ rw e refl
]

located-direction : (dir : Direction) (w : World) → (located dir w).direction ≡ dir
unfolding update_and_get_floor
located-direction dir w = elim (Bool-cases (get_floor w.driver ==ℤ int_min)) [
  | inl e ↦ rw e refl
  | inr e ↦ rw e refl
]

choose-same : (c : Direction) (d : DriverInfo) (s : ElevatorState) → c ≢ stay → choose c d s ≡ ok c
unfolding choose
choose-same stay d s n = absurd (n refl)
choose-same up d s n = refl
choose-same down d s n = refl

same-floor : (a b : ℤ) → a ≡ b → (a ==ℤ b) ≡ true
same-floor a b e = (==ℤ_iff a b).1 e

other-floor : (a b : ℤ) → a ≢ b → (a ==ℤ b) ≡ false
other-floor a b n = ground (arith, ==ℤ_iff a b)

module _ (dir : Direction) (w : World) where
  forced : Direction
  forced = forced_direction (info w) (located dir w)

  start-forced : (c : Direction) → c ≢ stay → forced ≡ c → (start dir w).0.elev_state.direction ≡ c
  unfolding forced
  start-forced c n e = start-chosen dir c w (rw e (choose-same c _ _ n))

  -- A start with a direction leaves the state with the direction up at the lowest floor, else down
  -- at the highest, else with the one asked for, where the floor is the one that the sensor names
  -- or else the last one.
  pub start-direction :
      dir ≢ stay
      → ((known_floor w ≡ (info w).min_floor) × ((start dir w).0.elev_state.direction ≡ up))
        ⊎ ((known_floor w ≢ (info w).min_floor)
            × (known_floor w ≡ (info w).max_floor)
            × ((start dir w).0.elev_state.direction ≡ down))
        ⊎ ((known_floor w ≢ (info w).min_floor)
            × (known_floor w ≢ (info w).max_floor)
            × ((start dir w).0.elev_state.direction ≡ dir))
  unfolding forced forced_direction
  start-direction k = elim (floor_cases (info w).min_floor) [
    | inl e ↦ inl (e, start-forced up (λ f. cc) (rw (at, same-floor _ _ e) refl))
    | inr n ↦ elim (floor_cases (info w).max_floor) [
      | inl e ↦ inr (
          inl
            (n, e, start-forced down (λ f. cc) (rw (at, other-floor _ _ n, same-floor _ _ e) refl)))
      | inr m ↦ inr (
          inr (
            n,
            m,
            start-forced dir k
                (rw (at, other-floor _ _ n, other-floor _ _ m) (located-direction dir w)),
          ))
    ]
  ]
    where
      at : (located dir w).last_floor ≡ known_floor w
      at = located-last_floor dir w

      floor_cases : (f : ℤ) → (known_floor w ≡ f) ⊎ (known_floor w ≢ f)
      floor_cases f = elim (Bool-cases (known_floor w ==ℤ f)) [
        | inl e ↦ inl ((==ℤ_iff _ f).0 e)
        | inr e ↦ inr (λ q. true≢false (sym ((==ℤ_iff _ f).1 q) ∙ e))
      ]
