-- ===== src/Elevator/Lights.antt =====
-- elevator/elevator.cpp: the buttons and their lamps.
use ttk.Prelude.{Bool, true, false, List, [], ◌∷◌, ◌++◌, if◌then◌else◌}
use ttk.Prelude.Int.{ℤ, ltb_ℤ, ◌==ℤ◌}
use ttk.Outcome.{Outcome, ok, or_else, and_also, negate}
use ttk.Driver.{
  Direction, stay, up, down, DriverInfo, Button, ButtonType, call_up, call_down, target_floor,
  is_target_floor, is_call_up,
}
use ttk.Driver.Ops.{all_floors, set_button_lamp, get_button_lamp, get_stop_lamp, get_door_open_lamp}
use ttk.FloorSet
use ttk.FloorSet.{FloorSet}
use ttk.State.{
  ElevatorState, ChangeType, button_up_pressed, button_down_pressed, inside_button_pressed,
  served_up, served_down,
}
use ttk.Elevator.{
  M, ◌>>=◌, ◌>>◌, return, lift, gets, modify_state, on_driver, ask_driver, info, set_floor,
  put_floor, when, inside, upward, downward, emit_state_change,
}
use ttk.Elevator.Motion.{all_buttons}

-- The buttons that exist on one floor.
unfoldable pub buttons_of : DriverInfo → ℤ → List Button
buttons_of d i =
    record { type = target_floor; floor = i }
    ∷ ((if ltb_ℤ i d.max_floor then record { type = call_up; floor = i } ∷ [] else [])
        ++ (if ltb_ℤ d.min_floor i then record { type = call_down; floor = i } ∷ [] else []))

unfoldable pub buttons_of_all : DriverInfo → List ℤ → List Button
buttons_of_all d [] = []
buttons_of_all d (i ∷ is) = buttons_of d i ++ buttons_of_all d is

unfoldable pub gen_floor_buttons : DriverInfo → List Button
unfolding buttons_of_all
gen_floor_buttons d = buttons_of_all d (all_floors d)

abbrev pub change_type_by_button : ButtonType → ChangeType
change_type_by_button call_up = button_up_pressed
change_type_by_button call_down = button_down_pressed
change_type_by_button target_floor = inside_button_pressed

unfoldable pub set_button_lamp_and_flag : Button → Bool → M (Unit {0})
set_button_lamp_and_flag btn val = do
  on_driver (set_button_lamp btn val)
  when (is_target_floor btn.type) (put_floor inside val btn.floor)

-- A floor that calls and beyond which, in the direction of travel, nobody calls.
unfoldable pub last_call : Outcome Bool → Outcome Bool → Outcome Bool
last_call beyond here = and_also (negate beyond) here

unfoldable pub should_stop_going : Direction → ℤ → DriverInfo → ElevatorState → Outcome Bool
unfolding last_call
should_stop_going up floor d s =
    or_else (FloorSet.get floor d s.up_buttons) (
      last_call (FloorSet.any_higher floor d (all_buttons s))
        (FloorSet.get floor d (all_buttons s)))
should_stop_going down floor d s =
    or_else (FloorSet.get floor d s.down_buttons) (
      last_call (FloorSet.any_lower floor d (all_buttons s)) (FloorSet.get floor d (all_buttons s)))
should_stop_going stay floor d s =
    or_else (and_also (ok (floor ==ℤ d.min_floor)) (FloorSet.get floor d (all_buttons s)))
      (and_also (ok (floor ==ℤ d.max_floor)) (FloorSet.get floor d (all_buttons s)))

unfoldable pub should_stop : ℤ → DriverInfo → ElevatorState → Outcome Bool
unfolding should_stop_going
should_stop floor d s =
    or_else (FloorSet.get floor d s.inside_buttons) (should_stop_going s.direction floor d s)

-- The button whose lamp goes out when the elevator leaves; `none` where no change is required.
direction_button : Direction → ℤ → List Button
direction_button stay floor = []
direction_button up floor = record { type = call_up; floor = floor } ∷ []
direction_button down floor = record { type = call_down; floor = floor } ∷ []

unfoldable pub cleared_button : DriverInfo → ElevatorState → List Button
unfolding direction_button
cleared_button d s =
    if s.last_floor ==ℤ d.max_floor
    then record { type = call_down; floor = d.max_floor } ∷ []
    else if s.last_floor ==ℤ d.min_floor
    then record { type = call_up; floor = d.min_floor } ∷ []
    else direction_button s.direction s.last_floor

unfoldable pub clear_up : ℤ → M (Unit {0})
clear_up floor = do
  was_set ← set_floor upward false floor
  when was_set (emit_state_change served_up floor)

unfoldable pub clear_down : ℤ → M (Unit {0})
clear_down floor = do
  was_set ← set_floor downward false floor
  when was_set (emit_state_change served_down floor)

unfoldable pub clear_button : List Button → M (Unit {0})
unfolding clear_up clear_down
clear_button [] = return tt
clear_button (b ∷ _) = do
  if is_call_up b.type then clear_up b.floor else clear_down b.floor
  on_driver (set_button_lamp b false)

unfoldable pub clear_direction_button_lamp : M (Unit {0})
unfolding clear_button
clear_direction_button_lamp = do
  w ← gets (λ w. w)
  clear_button (cleared_button (info w) w.elev_state)

-- One round of the loop of _initializeElevator.
unfoldable pub initialize_floor : ℤ → M (Unit {0})
initialize_floor i = do
  lit ← ask_driver (get_button_lamp (record { type = target_floor; floor = i }))
  when lit (put_floor inside true i)
  w ← gets (λ w. w)
  pressed ← lift (FloorSet.get i (info w) w.elev_state.inside_buttons)
  when pressed (on_driver (set_button_lamp (record { type = target_floor; floor = i }) true))
  up_called ← lift (FloorSet.get i (info w) w.elev_state.up_buttons)
  on_driver (set_button_lamp (record { type = call_up; floor = i }) up_called)
  down_called ← lift (FloorSet.get i (info w) w.elev_state.down_buttons)
  on_driver (set_button_lamp (record { type = call_down; floor = i }) down_called)

unfoldable pub initialize_floors : List ℤ → M (Unit {0})
initialize_floors [] = return tt
initialize_floors (i ∷ is) = do initialize_floor i; initialize_floors is

unfoldable pub initialize_lamps : M (Unit {0})
initialize_lamps = do
  stop_lamp ← gets (λ w. get_stop_lamp w.driver)
  modify_state (λ s. if stop_lamp then record s { stopped = true } else s)
  door_lamp ← gets (λ w. get_door_open_lamp w.driver)
  modify_state (λ s. if door_lamp then record s { door_open = true } else s)

unfoldable pub initialize_elevator : M (Unit {0})
initialize_elevator = do d ← gets info; initialize_floors (all_floors d); initialize_lamps
