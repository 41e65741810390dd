-- ===== src/Elevator/Consistency/Methods.antt =====
-- elevator/elevator.cpp: the methods below the control loop keep the state consistent.
use ttk.Prelude.{
  ◌≡◌, ◌≢◌, refl, subst, inl, inr, Bool, true, false, arith, if◌then◌else◌, List, [], ◌∷◌,
  Bool-cases,
}
use ttk.Prelude.Int.{ℤ, ◌==ℤ◌, ==ℤ_iff, int_min}
use ttk.Driver.{Direction, stay, InBounds, Button}
use ttk.Driver.Ops.{Driver, driver_info, get_floor}
use ttk.State.{StateChange, ElevatorState}
use ttk.Elevator.{returned, World, modify_state}
use ttk.Elevator.Consistency.{
  IsSound, Consistent, SameHardware, Keeps, bind-Keeps, when-Keeps, if-Keeps, lift-Keeps,
  return-Keeps, gets-Keeps, now-Keeps, ask_driver-Keeps, emit-Keeps, modify-Keeps, on_driver-Keeps,
  set_floor-Keeps, put_floor-Keeps,
}
use ttk.Elevator.Motion.{update_and_get_floor, stop, start, aim, drive}
use ttk.Elevator.Lights.{
  set_button_lamp_and_flag, clear_up, clear_down, clear_button, clear_direction_button_lamp,
  initialize_floor, initialize_floors, initialize_lamps, initialize_elevator,
}
use ttk.Elevator.Consistency.Hardware.{
  set_button_lamp-Keeps, floor_indicator-Keeps, shutdown-Keeps, door_lamp-Keeps, stop_lamp-Keeps,
  stop_elevator-Keeps, motor-Keeps,
}

module _ (Foreign : StateChange → Type 0) (id : ℤ) where
  stopped-IsSound :
      (s : ElevatorState) (d : Direction) (stopped door : Bool)
      → IsSound id s
      → IsSound id (record s { direction = d; stopped = stopped; door_open = door })
  stopped-IsSound s d stopped door h = record {
    own_id = h.own_id;
    on_floor = h.on_floor;
    inside_floors = h.inside_floors;
    up_floors = h.up_floors;
    down_floors = h.down_floors;
  }

  -- A change of the direction and of the two flags.
  pub flags-Keeps :
      (f : ElevatorState → ElevatorState)
      → ((s : ElevatorState)
          → record s {
            direction = (f s).direction;
            stopped = (f s).stopped;
            door_open = (f s).door_open;
          }
            ≡ f s)
      → Keeps Foreign id (modify_state f)
  flags-Keeps f e = modify-Keeps Foreign id f (λ s h.
      subst (IsSound id) (e s) (stopped-IsSound s (f s).direction (f s).stopped (f s).door_open h))

  sensor : (d : Driver) → get_floor d ≢ int_min → InBounds (get_floor d) driver_info
  unfolding get_floor
  sensor d n = record { above_min = ground arith; below_max = ground arith }

  floor-IsSound :
      (d : Driver) (s : ElevatorState)
      → IsSound id s
      → IsSound id (if get_floor d ==ℤ int_min then s else record s { last_floor = get_floor d })
  floor-IsSound d s h = elim (Bool-cases (get_floor d ==ℤ int_min)) [
    | inl e ↦ rw e h
    | inr e ↦ rw e (record {
      own_id = h.own_id;
      on_floor = sensor d (λ q. ground (arith, (==ℤ_iff (get_floor d) int_min).1 q));
      inside_floors = h.inside_floors;
      up_floors = h.up_floors;
      down_floors = h.down_floors;
    })
  ]

  pub update_and_get_floor-Keeps : Keeps Foreign id update_and_get_floor
  unfolding update_and_get_floor Keeps
  update_and_get_floor-Keeps w h = record {
    hardware = h.hardware;
    sound = floor-IsSound w.driver w.elev_state h.sound;
    reports = h.reports;
  }

-- The rules for the methods that are put together from others.
pub ruleset rules = (
  bind-Keeps, when-Keeps, if-Keeps, lift-Keeps, return-Keeps, gets-Keeps, now-Keeps,
  ask_driver-Keeps, emit-Keeps, set_floor-Keeps, put_floor-Keeps, set_button_lamp-Keeps,
  floor_indicator-Keeps, door_lamp-Keeps, stop_lamp-Keeps, update_and_get_floor-Keeps,
)

module _ (Foreign : StateChange → Type 0) (id : ℤ) where
  remember-Keeps :
      (f : World → Direction)
      → Keeps Foreign id (λ w. (record w { previous_direction = f w }, returned tt))
  unfolding Keeps
  remember-Keeps f w h = record { hardware = h.hardware; sound = h.sound; reports = h.reports }

  head_for-Keeps :
      (f : ElevatorState → Direction)
      → Keeps Foreign id (modify_state (λ s. record s { direction = f s }))
  head_for-Keeps f = flags-Keeps Foreign id (λ s. record s { direction = f s }) (λ s. refl)

  pub stop-Keeps : Keeps Foreign id stop
  unfolding stop
  stop-Keeps = bind-Keeps Foreign id _ _ (remember-Keeps _) λ _.
      bind-Keeps Foreign id _ _ (head_for-Keeps (λ s. stay)) (λ _. stop_elevator-Keeps Foreign id)

  aim-Keeps : (d : Direction) → Keeps Foreign id (aim d)
  unfolding aim Keeps
  aim-Keeps d = search (rules, head_for-Keeps)

  drive-Keeps : (d : Direction) → Keeps Foreign id (drive d)
  unfolding drive
  drive-Keeps d = search (rules, head_for-Keeps, motor-Keeps)

  pub start-Keeps : (d : Direction) → Keeps Foreign id (start d)
  unfolding start
  start-Keeps d = bind-Keeps Foreign id (aim d) drive (aim-Keeps d) drive-Keeps

  clear_up-Keeps : (floor : ℤ) → Keeps Foreign id (clear_up floor)
  unfolding clear_up
  clear_up-Keeps floor = search rules

  clear_down-Keeps : (floor : ℤ) → Keeps Foreign id (clear_down floor)
  unfolding clear_down
  clear_down-Keeps floor = search rules

  clear_button-Keeps : (bs : List Button) → Keeps Foreign id (clear_button bs)
  unfolding clear_button
  clear_button-Keeps [] = return-Keeps Foreign id tt
  clear_button-Keeps (b ∷ bs) = search (rules, clear_up-Keeps, clear_down-Keeps)

  pub clear_direction_button_lamp-Keeps : Keeps Foreign id clear_direction_button_lamp
  unfolding clear_direction_button_lamp
  clear_direction_button_lamp-Keeps = search (rules, clear_button-Keeps)

  pub set_button_lamp_and_flag-Keeps :
      (b : Button) (v : Bool) → Keeps Foreign id (set_button_lamp_and_flag b v)
  unfolding set_button_lamp_and_flag
  set_button_lamp_and_flag-Keeps b v = search rules

  initialize_floor-Keeps : (i : ℤ) → Keeps Foreign id (initialize_floor i)
  unfolding initialize_floor
  initialize_floor-Keeps i = search rules depth 12

  initialize_floors-Keeps : (is : List ℤ) → Keeps Foreign id (initialize_floors is)
  unfolding initialize_floors
  initialize_floors-Keeps [] = return-Keeps Foreign id tt
  initialize_floors-Keeps (i ∷ is) =
      bind-Keeps Foreign id (initialize_floor i) (λ _. initialize_floors is)
        (initialize_floor-Keeps i) (λ _. initialize_floors-Keeps is)

  note_stop-Keeps :
      (b : Bool)
      → Keeps Foreign id (modify_state (λ s. if b then record s { stopped = true } else s))
  note_stop-Keeps true = flags-Keeps Foreign id (λ s. record s { stopped = true }) (λ s. refl)
  note_stop-Keeps false = flags-Keeps Foreign id (λ s. s) (λ s. refl)

  note_door-Keeps :
      (b : Bool)
      → Keeps Foreign id (modify_state (λ s. if b then record s { door_open = true } else s))
  note_door-Keeps true = flags-Keeps Foreign id (λ s. record s { door_open = true }) (λ s. refl)
  note_door-Keeps false = flags-Keeps Foreign id (λ s. s) (λ s. refl)

  initialize_lamps-Keeps : Keeps Foreign id initialize_lamps
  unfolding initialize_lamps
  initialize_lamps-Keeps = search (rules, note_stop-Keeps, note_door-Keeps)

  pub initialize_elevator-Keeps : Keeps Foreign id initialize_elevator
  unfolding initialize_elevator
  initialize_elevator-Keeps = search (rules, initialize_floors-Keeps, initialize_lamps-Keeps)
