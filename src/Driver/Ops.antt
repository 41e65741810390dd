-- ===== src/Driver/Ops.antt =====
-- elevator/driver.cpp: the operations of the driver on its channels.
use Prim.Native.Nat.{bit_and, bit_or}
use ttk.Prelude.{
  ℕ, zero, suc, ◌+◌, ◌-◌, ◌*◌, Bool, true, false, List, [], ◌∷◌, ◌==◌, ltb, if◌then◌else◌,
}
use ttk.Prelude.Int.{ℤ, pos, ◌+ℤ◌, ◌==ℤ◌, leb_ℤ, gap, int_min, pos_part, neg_part}
use ttk.Outcome.{Outcome, ok, ◌>>=◌, ◌>>◌, assert}
use ttk.Driver.{
  call_up, call_down, target_floor, Button, Direction, up, down, is_direction, DriverInfo,
}
use ttk.Driver.Channels
use ttk.Driver.Channels.{lamp_channel, button_channel}
use ttk.Driver.Io.{Io, io_set_bit, io_write_analog, io_read_bit}

pub record Driver : Type 0 where
  pub info : DriverInfo
  pub open info use *
  pub last_direction : Direction
  pub io : Io

-- N_FLOORS
abbrev pub n_floors : ℕ
n_floors = 4

-- The channel of a button's lamp.
unfoldable pub lamp : Button → Outcome ℤ
lamp btn = do
  assert (leb_ℤ btn.floor (pos n_floors))
  assert (leb_ℤ (pos 1) btn.floor)
  ok (lamp_channel (gap btn.floor (pos 1)) btn.type)

-- The channel of a button's signal.
unfoldable pub button : Button → Outcome ℤ
button btn = do
  assert (leb_ℤ btn.floor (pos n_floors))
  assert (leb_ℤ (pos 1) btn.floor)
  ok (button_channel (gap btn.floor (pos 1)) btn.type)

unfoldable pub set_button_lamp : Button → Bool → Driver → Outcome Driver
set_button_lamp btn state d = do
  channel ← lamp btn
  ok (record d { io = io_set_bit channel state d.io })

unfoldable pub set_stop_lamp : Bool → Driver → Driver
set_stop_lamp state d = record d { io = io_set_bit Channels.light_stop state d.io }

unfoldable pub set_door_open_lamp : Bool → Driver → Driver
set_door_open_lamp state d = record d { io = io_set_bit Channels.door_open state d.io }

-- Floors are counted from 0 in the indicator.
unfoldable pub set_floor_indicator : ℤ → Driver → Outcome Driver
set_floor_indicator floor d = do
  assert (leb_ℤ d.min_floor floor)
  assert (leb_ℤ floor d.max_floor)
  let backend = gap floor (pos 1)
  let high = io_set_bit Channels.floor_ind1 (bit_and backend 0x02 == 0x02) d.io
  ok (record d { io = io_set_bit Channels.floor_ind2 (bit_and backend 0x01 == 0x01) high })

unfoldable pub get_button_lamp : Button → Driver → Outcome Bool
get_button_lamp btn d = do channel ← lamp btn; ok (io_read_bit channel d.io)

unfoldable pub get_stop_lamp : Driver → Bool
get_stop_lamp d = io_read_bit Channels.light_stop d.io

unfoldable pub get_door_open_lamp : Driver → Bool
get_door_open_lamp d = io_read_bit Channels.door_open d.io

abbrev pub to_int : Bool → ℕ
to_int true = 1
to_int false = 0

unfoldable pub get_floor_indicator : Driver → ℤ
get_floor_indicator d =
    let high = to_int (io_read_bit Channels.floor_ind1 d.io) in
    let low = to_int (io_read_bit Channels.floor_ind2 d.io) in pos (bit_or (high * 2) low + 1)

unfoldable pub get_button_signal : Button → Driver → Outcome Bool
get_button_signal btn d = do channel ← button btn; ok (io_read_bit channel d.io)

unfoldable pub set_motor_speed : Direction → ℕ → Driver → Outcome Driver
set_motor_speed direction speed d = do
  assert (ltb 0 speed)
  let io = io_set_bit Channels.motordir (is_direction direction down) d.io
  ok (record d {
    last_direction = direction;
    io = io_write_analog Channels.motor (2048 + 4 * speed) io;
  })

-- Reverse the direction, then stop.
unfoldable pub stop_elevator : Driver → Driver
stop_elevator d =
    let io = io_set_bit Channels.motordir (is_direction d.last_direction up) d.io in
    record d { io = io_write_analog Channels.motor 0 io }

-- The floor whose sensor is lit, or INT_MIN between two floors.
unfoldable pub get_floor : Driver → ℤ
get_floor d =
    if io_read_bit Channels.sensor1 d.io
    then pos 1
    else if io_read_bit Channels.sensor2 d.io
    then pos 2
    else if io_read_bit Channels.sensor3 d.io
    then pos 3
    else if io_read_bit Channels.sensor4 d.io
    then pos 4
    else int_min

unfoldable pub get_stop : Driver → Bool
get_stop d = io_read_bit Channels.stop d.io

unfoldable pub get_obstruction : Driver → Bool
get_obstruction d = io_read_bit Channels.obstruction d.io

-- The floors `first`, `first + 1`, …, as many as the count says.
unfoldable pub floors_from : ℤ → ℕ → List ℤ
floors_from first zero = []
floors_from first (suc n) = first ∷ floors_from (first +ℤ pos 1) n

-- for ( int i = minFloor; i <= maxFloor; ++i )
unfoldable pub all_floors : DriverInfo → List ℤ
unfolding floors_from
all_floors d = floors_from d.min_floor (
    pos_part d.max_floor + neg_part d.min_floor + 1 - (pos_part d.min_floor + neg_part d.max_floor))

-- One round of the loop of init.
unfoldable pub init_floor : ℤ → Driver → Outcome Driver
init_floor i d = do
  d₁ ←
      if i ==ℤ d.max_floor
      then ok d
      else set_button_lamp (record { type = call_up; floor = i }) false d
  d₂ ←
      if i ==ℤ d.min_floor
      then ok d₁
      else set_button_lamp (record { type = call_down; floor = i }) false d₁
  set_button_lamp (record { type = target_floor; floor = i }) false d₂

unfoldable pub init_floors : List ℤ → Driver → Outcome Driver
init_floors [] d = ok d
init_floors (i ∷ is) d = init_floor i d >>= init_floors is

-- Turn all lamps off.
unfoldable pub init : Driver → Outcome Driver
unfolding init_floors init_floor
init d = do
  d' ← init_floors (all_floors d.info) d
  ok (set_door_open_lamp false (set_stop_lamp false d'))

unfoldable pub shutdown : Driver → Outcome Driver
shutdown d = init (stop_elevator d)

-- BasicDriverInfo( 1, 4 )
abbrev pub driver_info : DriverInfo
driver_info = record { min_floor = pos 1; max_floor = pos 4 }

-- The constructor stops the motor. It leaves _lastDirection unset, so its value is an argument.
unfoldable pub new_driver : Direction → Io → Driver
new_driver unset io = stop_elevator (record { info = driver_info; last_direction = unset; io = io })
