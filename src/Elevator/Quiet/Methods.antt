-- ===== src/Elevator/Quiet/Methods.antt =====
-- The methods of the elevator that leave the drive alone.
use ttk.Prelude.{ℕ, Option, none, some, refl, Bool, true, false, arith, List, [], ◌∷◌}
use ttk.Prelude.Int.{ℤ}
use ttk.Driver.{DriverInfo, Button}
use ttk.Driver.Ops.{all_floors, set_floor_indicator}
use ttk.Elevator.{modify_state, on_driver, now, info}
use ttk.Elevator.Quiet.{
  Quiet, Quiet-bind, Quiet-when, Quiet-if, Quiet-lift, Quiet-gets, Quiet-ask_driver, Quiet-emit,
  Quiet-now, Quiet-set_floor, Quiet-put_floor, Quiet-set_button_lamp, SameDrive-refl,
  Quiet-on_driver,
}
use ttk.Driver.Indicator.{indicator_kept}
use ttk.Elevator.Motion.{update_and_get_floor}
use ttk.Elevator.Lights.{
  set_button_lamp_and_flag, clear_up, clear_down, clear_button, cleared_button,
  clear_direction_button_lamp, initialize_floor, initialize_floors, initialize_lamps,
  initialize_elevator,
}
use ttk.Elevator.Inputs.{
  check_consistency, new_press, add_seen, handle_button, handle_buttons, call_here, obey,
  obey_received, next_command, handle_command,
}
use ttk.Elevator.Cycle.{
  enter, show_floor, begin_wait, finish_arrival, after_close, arrived, door_timeout,
  keep_alive_check,
}
use ttk.FloorSet.{FloorSet}
use ttk.Command.{Command, CommandType, nothing, call_to_floor_and_go_up, call_to_floor_and_go_down}

ruleset quiet = (
  Quiet-bind, Quiet-when, Quiet-if, Quiet-lift, Quiet-gets, Quiet-ask_driver, Quiet-emit, Quiet-now,
  Quiet-set_floor, Quiet-put_floor, Quiet-set_button_lamp, SameDrive-refl,
)

Quiet-clear_up : (floor : ℤ) → Quiet (clear_up floor)
unfolding clear_up
Quiet-clear_up floor = search quiet

Quiet-clear_down : (floor : ℤ) → Quiet (clear_down floor)
unfolding clear_down
Quiet-clear_down floor = search quiet

Quiet-clear_button : (bs : List Button) → Quiet (clear_button bs)
unfolding clear_button
Quiet-clear_button [] = SameDrive-refl
Quiet-clear_button (b ∷ bs) = search (quiet, Quiet-clear_up, Quiet-clear_down)

pub Quiet-clear_direction_button_lamp : Quiet clear_direction_button_lamp
unfolding clear_direction_button_lamp
Quiet-clear_direction_button_lamp w = Quiet-clear_button (cleared_button (info w) w.elev_state) w

pub Quiet-set_button_lamp_and_flag : (b : Button) (v : Bool) → Quiet (set_button_lamp_and_flag b v)
unfolding set_button_lamp_and_flag
Quiet-set_button_lamp_and_flag b v = search quiet

pub Quiet-update_and_get_floor : Quiet update_and_get_floor
unfolding update_and_get_floor
Quiet-update_and_get_floor w = ground arith

Quiet-initialize_floor : (i : ℤ) → Quiet (initialize_floor i)
unfolding initialize_floor
Quiet-initialize_floor i = search quiet depth 12

Quiet-initialize_floors : (is : List ℤ) → Quiet (initialize_floors is)
unfolding initialize_floors
Quiet-initialize_floors [] = SameDrive-refl
Quiet-initialize_floors (i ∷ is) =
    Quiet-bind _ _ (Quiet-initialize_floor i) (λ _. Quiet-initialize_floors is)

Quiet-initialize_lamps : Quiet initialize_lamps
unfolding initialize_lamps
Quiet-initialize_lamps w = ground arith

pub Quiet-initialize_elevator : Quiet initialize_elevator
unfolding initialize_elevator
Quiet-initialize_elevator w =
    Quiet-bind (initialize_floors (all_floors (info w))) _
      (Quiet-initialize_floors (all_floors (info w))) (λ _. Quiet-initialize_lamps) w

pub Quiet-check_consistency : Quiet check_consistency
unfolding check_consistency
Quiet-check_consistency = search quiet depth 8

Quiet-new_press : (b : Button) → Quiet (new_press b)
unfolding new_press
Quiet-new_press b = search (quiet, Quiet-set_button_lamp_and_flag)

Quiet-add_seen : (b : Button) (d : DriverInfo) (seen : FloorSet) → Quiet (add_seen b d seen)
unfolding add_seen
Quiet-add_seen b d seen = search quiet

Quiet-handle_button : (b : Button) (seen : FloorSet) → Quiet (handle_button b seen)
unfolding handle_button
Quiet-handle_button b seen = search (quiet, Quiet-new_press, Quiet-add_seen) depth 8

pub Quiet-handle_buttons : (bs : List Button) (seen : FloorSet) → Quiet (handle_buttons bs seen)
unfolding handle_buttons
Quiet-handle_buttons [] seen = SameDrive-refl
Quiet-handle_buttons (b ∷ bs) seen =
    Quiet-bind _ _ (Quiet-handle_button b seen) (λ seen'. Quiet-handle_buttons bs seen')

Quiet-call_here : (up : Bool) (floor : ℤ) → Quiet (call_here up floor)
unfolding call_here
Quiet-call_here up floor = search quiet

Quiet-obey : (c : CommandType) (floor : ℤ) → Quiet (obey c floor)
unfolding obey
Quiet-obey nothing floor = SameDrive-refl
Quiet-obey call_to_floor_and_go_up floor = Quiet-call_here true floor
Quiet-obey call_to_floor_and_go_down floor = Quiet-call_here false floor
Quiet-obey _ floor = Quiet-set_button_lamp _ _

Quiet-obey_received : (c : Option Command) → Quiet (obey_received c)
unfolding obey_received
Quiet-obey_received none = SameDrive-refl
Quiet-obey_received (some c) = search (quiet, Quiet-obey)

Quiet-next_command : Quiet next_command
unfolding next_command
Quiet-next_command w = record {
  same_door = refl;
  same_motor = refl;
  same_motordir = refl;
  same_direction = refl;
  same_clears = refl;
}

pub Quiet-handle_command : Quiet handle_command
unfolding handle_command
Quiet-handle_command = Quiet-bind next_command obey_received Quiet-next_command Quiet-obey_received

pub Quiet-door_timeout : (floor : ℤ) → Quiet (door_timeout floor)
unfolding door_timeout
Quiet-door_timeout floor = search quiet depth 8

pub Quiet-keep_alive_check : (floor : ℤ) → Quiet (keep_alive_check floor)
unfolding keep_alive_check
Quiet-keep_alive_check floor = search quiet depth 8

pub Quiet-arrived : (floor : ℤ) → Quiet (arrived floor)
unfolding arrived
Quiet-arrived floor = search quiet

Quiet-set_floor_indicator : (floor : ℤ) → Quiet (on_driver (set_floor_indicator floor))
Quiet-set_floor_indicator floor =
    Quiet-on_driver (set_floor_indicator floor) λ d d' e. indicator_kept floor d d' e

pub Quiet-show_floor : (prev floor : ℤ) → Quiet (show_floor prev floor)
unfolding show_floor
Quiet-show_floor prev floor = search (quiet, Quiet-set_floor_indicator)

pub Quiet-begin_wait : Quiet begin_wait
unfolding begin_wait now
Quiet-begin_wait w = ground arith

pub Quiet-finish_arrival : (floor : ℤ) (started : ℕ) → Quiet (finish_arrival floor started)
unfolding finish_arrival
Quiet-finish_arrival floor started = search quiet

Quiet-close_state : Quiet (modify_state (λ s. record s { door_open = false }))
Quiet-close_state w = ground arith

pub Quiet-after_close : (floor : ℤ) (timeout : Bool) → Quiet (after_close floor timeout)
unfolding after_close
Quiet-after_close floor timeout =
    search (quiet, Quiet-close_state, Quiet-door_timeout, Quiet-clear_direction_button_lamp)

pub Quiet-enter : Quiet enter
unfolding enter
Quiet-enter = Quiet-bind initialize_elevator _ Quiet-initialize_elevator (λ _. SameDrive-refl)
