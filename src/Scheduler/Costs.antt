-- ===== src/Scheduler/Costs.antt =====
-- elevator/scheduler.cpp, _optimalElevator: the int of a cost and the sum that it stands for.
use ttk.Prelude.{ℕ, ◌+◌, ◌*◌, ◌≤◌, ◌<◌, ◌≡◌, arith, not, if◌then◌else◌, subst}
use ttk.Prelude.Int.{ℤ, pos, ◌≤ℤ◌, distance, abs-difference, int-sum, int_max}
use ttk.Driver.{DriverInfo, ButtonType, InBounds, is_direction, stay}
use ttk.State.{ElevatorState}
use ttk.Scheduler.{cost, penalties, older, outdated_thresh, range, on_the_way}

module _ (d : DriverInfo) (now : ℕ) (type : ButtonType) (floor : ℤ) where
  abbrev pub price : ElevatorState → ℤ
  price = cost d now type floor

  -- The sum without ints.
  abbrev pub plain : ElevatorState → ℕ
  plain s = distance s.last_floor floor + penalties d now type floor s

  plain-le :
      (s : ElevatorState) → InBounds s.last_floor d → InBounds floor d → plain s ≤ 23 * range d + 2
  unfolding penalties
  plain-le s b c =
      sum (if older outdated_thresh now s then 10 * range d else 0)
        (if s.stopped then 10 * range d else 0)
        (if on_the_way d type floor s
          then range d + 1
          else if not (is_direction s.direction stay)
          then 2 * (range d + 1)
          else 0)
        (ground arith) (ground arith) (ground arith)
    where
      sum :
          (x y z : ℕ)
          → x ≤ 10 * range d
          → y ≤ 10 * range d
          → z ≤ 2 * (range d + 1)
          → distance s.last_floor floor + (x + y + z) ≤ 23 * range d + 2
      sum x y z h k l = omega (arith, b, c)

  pub price-plain :
      (s : ElevatorState)
      → InBounds s.last_floor d
      → InBounds floor d
      → range d < 1000000
      → price s ≡ pos (plain s)
  unfolding cost
  price-plain s b c small =
      let bound = plain-le s b c in
      rw (abs-difference s.last_floor floor (omega (arith, bound))) (
        int-sum (distance s.last_floor floor) (penalties d now type floor s) (omega (arith, bound)))

  -- Such a cost is less than INT_MAX.
  pub cheap-found :
      (s : ElevatorState)
      → InBounds s.last_floor d
      → InBounds floor d
      → range d < 1000000
      → int_max ≤ℤ price s
      → ⊥
  cheap-found s b c small h =
      let g : int_max ≤ℤ pos (plain s) = subst (λ p. int_max ≤ℤ p) (price-plain s b c small) h in
      omega (arith, g, plain-le s b c)
