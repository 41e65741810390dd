-- ===== src/Elevator/Motion.antt =====
-- elevator/elevator.cpp: start, stop, and the choice of the direction.
use ttk.Prelude.{ℕ, suc, Bool, false, ◌&&◌, List, [], ◌∷◌, leb, if◌then◌else◌}
use ttk.Prelude.Int.{ℤ, ltb_ℤ, ◌==ℤ◌, int_min}
use ttk.Outcome
use ttk.Outcome.{Outcome, ok, failed}
use ttk.Driver.{Direction, stay, up, down, is_direction, DriverInfo}
use ttk.Driver.Ops.{get_floor, stop_elevator, set_motor_speed, set_door_open_lamp, all_floors}
use ttk.FloorSet
use ttk.FloorSet.{FloorSet}
use ttk.State.{ElevatorState}
use ttk.Elevator.{M, ◌>>=◌, ◌>>◌, return, returned, lift, gets, modify_state, on_driver, info}

-- _speed
abbrev pub speed : ℕ
speed = 300

unfoldable pub update_and_get_floor : M ℤ
update_and_get_floor = do
  f ← gets (λ w. get_floor w.driver)
  modify_state (λ s. if f ==ℤ int_min then s else record s { last_floor = f })
  return f

-- _stopElevator
unfoldable pub stop : M (Unit {0})
stop = do
  λ w. (
    record w {
      previous_direction =
          if is_direction w.elev_state.direction stay
          then w.previous_direction
          else w.elev_state.direction;
    },
    returned tt,
  )
  modify_state (λ s. record s { direction = stay })
  on_driver (λ d. ok (stop_elevator d))

-- How many floors of the set lie below and above `last`.
unfoldable pub count_floors : FloorSet → ℤ → DriverInfo → List ℤ → ℕ × ℕ → Outcome (ℕ × ℕ)
count_floors s last d [] counts = ok counts
count_floors s last d (i ∷ is) (lower, higher) = Outcome.◌>>=◌ (FloorSet.get i d s) (λ wanted.
    count_floors s last d is (
      (if wanted && ltb_ℤ i last then suc lower else lower),
      (if wanted && ltb_ℤ last i then suc higher else higher),
    ))

-- The inside buttons, or if there is none of them the buttons on the floors.
unfoldable pub floors_to_serve : ElevatorState → FloorSet
floors_to_serve s =
    if FloorSet.has_any s.inside_buttons
    then s.inside_buttons
    else FloorSet.union (FloorSet.union s.inside_buttons s.up_buttons) s.down_buttons

unfoldable pub optimal_direction : DriverInfo → ElevatorState → Outcome Direction
unfolding count_floors floors_to_serve
optimal_direction d s =
    Outcome.◌>>=◌ (count_floors (floors_to_serve s) s.last_floor d (all_floors d) (0, 0))
      (λ counts. ok (if leb counts.0 counts.1 then up else down))

-- The direction that the ends of the shaft force, or the one that was asked for.
unfoldable pub forced_direction : DriverInfo → ElevatorState → Direction
forced_direction d s =
    if s.last_floor ==ℤ d.min_floor
    then up
    else if s.last_floor ==ℤ d.max_floor
    then down
    else s.direction

unfoldable pub choose : Direction → DriverInfo → ElevatorState → Outcome Direction
choose stay d s = optimal_direction d s
choose up d s = ok up
choose down d s = ok down

-- The direction in which the elevator is to start.
unfoldable pub aim : Direction → M Direction
aim direction = do
  modify_state (λ s. record s { direction = direction })
  floor ← update_and_get_floor
  w ← gets (λ w. w)
  modify_state (λ s. record s { direction = forced_direction (info w) s })
  w₁ ← gets (λ w. w)
  lift (choose w₁.elev_state.direction (info w₁) w₁.elev_state)

unfoldable pub drive : Direction → M (Unit {0})
drive chosen = do
  modify_state (λ s. record s { direction = chosen })
  on_driver (set_motor_speed chosen speed)
  on_driver (λ d. ok (set_door_open_lamp false d))

-- _startElevator( direction ); without an argument the direction is None.
unfoldable pub start : Direction → M (Unit {0})
start direction = do chosen ← aim direction; drive chosen

unfoldable pub priority_floors_in_direction : Direction → DriverInfo → ElevatorState → Outcome Bool
priority_floors_in_direction stay d s = ok false
priority_floors_in_direction up d s = FloorSet.any_higher s.last_floor d s.inside_buttons
priority_floors_in_direction down d s = FloorSet.any_lower s.last_floor d s.inside_buttons

unfoldable pub all_buttons : ElevatorState → FloorSet
all_buttons s = FloorSet.union (FloorSet.union s.inside_buttons s.up_buttons) s.down_buttons
