-- ===== src/Driver/Indicator.antt =====
-- elevator/driver.cpp: the floor indicator and the floor sensors.
use Prim.Native.Nat.{bit_and, bit_or}
use ttk.Prelude.{ℕ, zero, suc, ◌+◌, ◌*◌, ◌<◌, ◌≡◌, ◌⊎◌, arith, refl, ◌==◌}
use ttk.Prelude.Int.{ℤ, pos, gap, eq_of_parts, int_min}
use ttk.Outcome.{ok}
use ttk.Driver.{InBounds}
use ttk.Driver.Channels
use ttk.Driver.Io.{io_set_bit, io_read_bit}
use ttk.Driver.Ops.{
  Driver, driver_info, to_int, set_floor_indicator, get_floor_indicator, get_floor,
  get_door_open_lamp,
}

-- The two bits of a row give the row.
indicator_bits :
    (i : ℕ)
    → i < 4
    → bit_or (to_int (bit_and i 0x02 == 0x02) * 2) (to_int (bit_and i 0x01 == 0x01)) + 1 ≡ i + 1
indicator_bits zero h = refl
indicator_bits (suc zero) h = refl
indicator_bits (suc (suc zero)) h = refl
indicator_bits (suc (suc (suc zero))) h = refl
indicator_bits (suc (suc (suc (suc i)))) h = absurd (omega arith)

-- On the hardware's four floors the floor indicator shows the floor to which it was set.
get-set_floor_indicator :
    (f : ℤ) (d : Driver)
    → d.info ≡ driver_info
    → InBounds f driver_info
    → (d' : Driver) × (set_floor_indicator f d ≡ ok d') × (get_floor_indicator d' ≡ f)
unfolding set_floor_indicator get_floor_indicator io_set_bit io_read_bit
get-set_floor_indicator f d e b =
    let i = gap f (pos 1) in
    let high = io_set_bit Channels.floor_ind1 (bit_and i 0x02 == 0x02) d.io in
    (
      record d { io = io_set_bit Channels.floor_ind2 (bit_and i 0x01 == 0x01) high },
      rw e (ground (arith, b)),
      eq_of_parts _ f (omega (arith, indicator_bits i (omega (arith, b)), b)),
    )

-- The sensors name a floor of the elevator, or none.
get_floor-InBounds : (d : Driver) → (get_floor d ≡ int_min) ⊎ InBounds (get_floor d) driver_info
unfolding get_floor
get_floor-InBounds d = ground arith

-- The indicator's channels are not those of the motor and the door lamp.
pub indicator_kept :
    (f : ℤ) (d d' : Driver)
    → set_floor_indicator f d ≡ ok d'
    → (get_door_open_lamp d' ≡ get_door_open_lamp d)
      × (d'.io.analog Channels.motor ≡ d.io.analog Channels.motor)
      × (io_read_bit Channels.motordir d'.io ≡ io_read_bit Channels.motordir d.io)
unfolding set_floor_indicator get_door_open_lamp io_set_bit io_read_bit
indicator_kept f d d' e = ground arith
