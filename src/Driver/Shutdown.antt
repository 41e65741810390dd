-- ===== src/Driver/Shutdown.antt =====
-- elevator/driver.cpp: init turns the lamps off and leaves the motor, shutdown stops it.
use ttk.Prelude.{zero, suc, ◌<◌, ◌≢◌, ℕ, ◌≡◌, refl, sym, ap, subst, Bool, false, arith, inl, inr}
use ttk.Prelude.Int.{ℤ, pos, ◌+ℤ◌, eq_of_parts}
use ttk.Outcome.{Outcome, ok, failed, Outcome-cases, ok_injective, failed-ne_ok}
use ttk.Driver.{Direction, ButtonType, Button, call_up, call_down, target_floor}
use ttk.Driver.Channels
use ttk.Driver.Channels.{lamp_channel}
use ttk.Driver.Io.{Io, io_set_bit, io_write_analog, io_read_bit}
use ttk.Driver.Ops.{
  Driver, driver_info, set_button_lamp, get_button_lamp, get_door_open_lamp, get_stop_lamp,
  set_door_open_lamp, set_stop_lamp, stop_elevator, init, init_floor, init_floors, all_floors,
  shutdown, lamp,
}
use ttk.Driver.Lamps.{IsReal, row, lamp-ok}

pub init_door_off : (d : Driver) {d' : Driver} → init d ≡ ok d' → get_door_open_lamp d' ≡ false
unfolding init get_door_open_lamp set_door_open_lamp io_set_bit io_read_bit
init_door_off d {d'} e = elim (Outcome-cases (init_floors (all_floors d.info) d)) [
  | inl f ↦ absurd (failed-ne_ok (rw f at e))
  | inr (d₁, f) ↦ ap get_door (sym (ok_injective (rw f at e)))
]
  where
    get_door : Driver → Bool
    get_door d = d.io.set_bits Channels.door_open

-- No lamp of a button of the hardware is lit, nor the stop lamp, nor the door lamp.
pub record LampsOff (d : Driver) : Type 0 where
  pub door_off : get_door_open_lamp d ≡ false
  pub stop_off : get_stop_lamp d ≡ false
  pub buttons_off : (b : Button) → IsReal b → get_button_lamp b d ≡ ok false

-- What `init` makes of a driver of the hardware.
abbrev Inits : Driver → Type 0
Inits d =
    (d' : Driver) × (init d ≡ ok d')
    × LampsOff d'
    × (d'.io.analog ≡ d.io.analog)
    × (d'.last_direction ≡ d.last_direction)

module _ (direction : Direction) (io : Io) where
  hardware : Driver
  hardware = record { info = driver_info; last_direction = direction; io = io }

  initialised : Driver
  unfolding hardware init init_floors init_floor all_floors set_button_lamp lamp ◌+ℤ◌ lamp_channel
  initialised = get_ok (init hardware)
    where
      get_ok : Outcome Driver → Driver
      get_ok (ok d) = d
      get_ok failed = hardware

  row_off :
      (i : ℕ) (t : ButtonType)
      → i < 4
      → (t ≡ call_up → i ≢ 3)
      → (t ≡ call_down → i ≢ 0)
      → io_read_bit (lamp_channel i t) initialised.io ≡ false
  unfolding initialised set_door_open_lamp set_stop_lamp io_set_bit io_read_bit
  row_off zero call_up h p q = refl
  row_off zero call_down h p q = absurd (q refl refl)
  row_off zero target_floor h p q = refl
  row_off (suc zero) call_up h p q = refl
  row_off (suc zero) call_down h p q = refl
  row_off (suc zero) target_floor h p q = refl
  row_off (suc (suc zero)) call_up h p q = refl
  row_off (suc (suc zero)) call_down h p q = refl
  row_off (suc (suc zero)) target_floor h p q = refl
  row_off (suc (suc (suc zero))) call_up h p q = absurd (p refl refl)
  row_off (suc (suc (suc zero))) call_down h p q = refl
  row_off (suc (suc (suc zero))) target_floor h p q = refl
  row_off (suc (suc (suc (suc i)))) t h p q = absurd (omega arith)

  button_off : (b : Button) → IsReal b → get_button_lamp b initialised ≡ ok false
  unfolding get_button_lamp row
  button_off b r = rw (lamp-ok b r) (
      ap ok (
        row_off (row b) b.type (omega (arith, r.floor_exists))
          (λ e f. r.not_top e (eq_of_parts b.floor (pos 4) (omega (arith, f, r.floor_exists))))
          (λ e f. r.not_bottom e (eq_of_parts b.floor (pos 1) (omega (arith, f, r.floor_exists))))))

  inits : Inits hardware
  unfolding initialised get_door_open_lamp get_stop_lamp set_door_open_lamp set_stop_lamp io_set_bit
      io_read_bit
  inits = (
    initialised,
    refl,
    record { door_off = refl; stop_off = refl; buttons_off = button_off },
    refl,
    refl,
  )

-- With the bounds of the hardware `init` fails no assertion; it turns all lamps off and leaves the
-- motor.
pub init-LampsOff :
    (d : Driver)
    → d.info ≡ driver_info
    → (d' : Driver) × (init d ≡ ok d')
      × LampsOff d'
      × (d'.io.analog ≡ d.io.analog)
      × (d'.last_direction ≡ d.last_direction)
unfolding hardware
init-LampsOff d e = subst Inits (λ i. record d { info = sym e i }) (inits d.last_direction d.io)

-- On the hardware's four floors shutdown fails no assertion, turns all lamps off and stops the
-- motor.
pub shutdown-stops :
    (d : Driver)
    → d.info ≡ driver_info
    → (d' : Driver) × (shutdown d ≡ ok d') × LampsOff d' × (d'.io.analog Channels.motor ≡ 0)
unfolding shutdown stop_elevator io_set_bit io_write_analog
shutdown-stops d e =
    let (d', eq, off, same, _) = init-LampsOff (stop_elevator d) e in
    (d', eq, off, ap (λ (a : ℤ → ℕ). a Channels.motor) same)
