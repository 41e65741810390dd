-- ===== src/Tests/Drivers.antt =====
-- elevator/driver.cpp on its four floors.
use ttk.Prelude.{◌≡◌, ◌≢◌, true, false, arith}
use ttk.Prelude.Int.{pos}
use ttk.Outcome.{ok}
use ttk.Driver.{Button, call_up, target_floor, up}
use ttk.Driver.Ops.{Driver, driver_info, set_button_lamp, get_button_lamp}
use ttk.Driver.Lamps.{IsReal, Keeps, get_button_lamp-set}

-- Everything lit and the motor on.
abbrev busy : Driver
busy = record {
  info = driver_info;
  last_direction = up;
  io = record { set_bits = λ c. true; analog = λ c. 3248 };
}

abbrev up_two : Button
up_two = record { type = call_up; floor = pos 2 }

abbrev inside_four : Button
inside_four = record { type = target_floor; floor = pos 4 }

up_two-IsReal : IsReal up_two
up_two-IsReal = record { floor_exists = omega arith; not_top = λ e f. cc; not_bottom = λ e f. cc }

inside_four-IsReal : IsReal inside_four
inside_four-IsReal = record {
  floor_exists = omega arith;
  not_top = λ e f. cc;
  not_bottom = λ e f. cc;
}

get_button_lamp-set_example :
    (d' : Driver) × (set_button_lamp up_two false busy ≡ ok d')
    × (get_button_lamp up_two d' ≡ ok false)
    × (inside_four ≢ up_two → get_button_lamp inside_four d' ≡ get_button_lamp inside_four busy)
    × Keeps busy d'
get_button_lamp-set_example =
    get_button_lamp-set up_two inside_four false busy up_two-IsReal inside_four-IsReal
