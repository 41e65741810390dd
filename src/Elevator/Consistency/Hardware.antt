-- ===== src/Elevator/Consistency/Hardware.antt =====
-- elevator/driver.cpp: no call of the driver changes what it knows of the hardware.
use ttk.State.{StateChange}
use ttk.Prelude.{
  ℕ, ◌≡◌, refl, sym, ap, ◌∙◌, inl, inr, Bool, true, false, arith, if◌then◌else◌, List, [], ◌∷◌,
}
use ttk.Prelude.Int.{ℤ}
use ttk.Outcome
use ttk.Outcome.{Outcome, ok, failed, ok_injective, failed-ne_ok, Outcome-cases}
use ttk.Driver.{Direction, DriverInfo, Button}
use ttk.Driver.Ops.{
  Driver, all_floors, set_button_lamp, lamp, set_floor_indicator, init_floor, init_floors, init,
  shutdown, stop_elevator, set_motor_speed, set_door_open_lamp, set_stop_lamp,
}
use ttk.Elevator.{on_driver}
use ttk.Elevator.Consistency.{SameHardware, Keeps, on_driver-Keeps}

set_button_lamp-SameHardware : (b : Button) (v : Bool) → SameHardware (set_button_lamp b v)
unfolding set_button_lamp
set_button_lamp-SameHardware b v d d' e = elim (Outcome-cases (lamp b)) [
  | inl f ↦ absurd (failed-ne_ok (rw f at e))
  | inr (c, f) ↦ sym (ap (λ (d : Driver). d.info) (ok_injective (rw f at e)))
]

set_floor_indicator-SameHardware : (floor : ℤ) → SameHardware (set_floor_indicator floor)
unfolding set_floor_indicator
set_floor_indicator-SameHardware floor d d' e = ground arith

-- The driver that comes out, if one does, knows the same of the hardware.
HasInfo : DriverInfo → Outcome Driver → Type 0
HasInfo i failed = Unit
HasInfo i (ok d) = d.info ≡ i

HasInfo-bind :
    (i : DriverInfo) (o : Outcome Driver) (f : Driver → Outcome Driver)
    → HasInfo i o
    → ((d : Driver) → d.info ≡ i → HasInfo i (f d))
    → HasInfo i (Outcome.◌>>=◌ o f)
unfolding HasInfo
HasInfo-bind i failed f h k = tt
HasInfo-bind i (ok d) f h k = k d h

HasInfo-ok : (i : DriverInfo) (d : Driver) → d.info ≡ i → HasInfo i (ok d)
unfolding HasInfo
HasInfo-ok i d e = e

HasInfo-lamp :
    (i : DriverInfo) (b : Button) (v : Bool) (d : Driver)
    → d.info ≡ i
    → HasInfo i (set_button_lamp b v d)
unfolding HasInfo
HasInfo-lamp i b v d e = elim (Outcome-cases (set_button_lamp b v d)) [
  | inl failing ↦ rw failing tt
  | inr (d', g) ↦ rw g (set_button_lamp-SameHardware b v d d' g ∙ e)
]

HasInfo-if :
    (i : DriverInfo) (b : Bool) (o p : Outcome Driver)
    → HasInfo i o
    → HasInfo i p
    → HasInfo i (if b then o else p)
HasInfo-if i true o p h k = h
HasInfo-if i false o p h k = k

init_floor-HasInfo : (i : DriverInfo) (n : ℤ) (d : Driver) → d.info ≡ i → HasInfo i (init_floor n d)
unfolding init_floor
init_floor-HasInfo i n d e = search (HasInfo-bind, HasInfo-if, HasInfo-ok, HasInfo-lamp)

init_floors-HasInfo :
    (i : DriverInfo) (ns : List ℤ) (d : Driver) → d.info ≡ i → HasInfo i (init_floors ns d)
unfolding init_floors
init_floors-HasInfo i [] d e = HasInfo-ok i d e
init_floors-HasInfo i (n ∷ ns) d e =
    HasInfo-bind i (init_floor n d) (init_floors ns) (init_floor-HasInfo i n d e)
      (λ d₁ e₁. init_floors-HasInfo i ns d₁ e₁)

shutdown-SameHardware : SameHardware shutdown
unfolding HasInfo shutdown init stop_elevator set_door_open_lamp set_stop_lamp
shutdown-SameHardware d d' e =
    result (init_floors (all_floors d.info) (stop_elevator d))
      (init_floors-HasInfo d.info (all_floors d.info) (stop_elevator d) refl) e
  where
    result :
        (o : Outcome Driver)
        → HasInfo d.info o
        → Outcome.◌>>=◌ o (λ d₁. ok (set_door_open_lamp false (set_stop_lamp false d₁))) ≡ ok d'
        → d'.info ≡ d.info
    result failed h e = absurd (failed-ne_ok e)
    result (ok d₁) h e = sym (ap (λ (d : Driver). d.info) (ok_injective e)) ∙ h

pure-SameHardware :
    (f : Driver → Driver) → ((d : Driver) → (f d).info ≡ d.info) → SameHardware (λ d. ok (f d))
pure-SameHardware f h d d' e = sym (ap (λ (d : Driver). d.info) (ok_injective e)) ∙ h d

module _ (Foreign : StateChange → Type 0) (id : ℤ) where
  pub set_button_lamp-Keeps :
      (b : Button) (v : Bool) → Keeps Foreign id (on_driver (set_button_lamp b v))
  set_button_lamp-Keeps b v =
      on_driver-Keeps Foreign id (set_button_lamp b v) (set_button_lamp-SameHardware b v)

  pub floor_indicator-Keeps : (floor : ℤ) → Keeps Foreign id (on_driver (set_floor_indicator floor))
  floor_indicator-Keeps floor =
      on_driver-Keeps Foreign id (set_floor_indicator floor)
        (set_floor_indicator-SameHardware floor)

  pub shutdown-Keeps : Keeps Foreign id (on_driver shutdown)
  shutdown-Keeps = on_driver-Keeps Foreign id shutdown shutdown-SameHardware

  pub door_lamp-Keeps : (v : Bool) → Keeps Foreign id (on_driver (λ d. ok (set_door_open_lamp v d)))
  unfolding set_door_open_lamp
  door_lamp-Keeps v =
      on_driver-Keeps Foreign id _ (pure-SameHardware (set_door_open_lamp v) (λ d. refl))

  pub stop_lamp-Keeps : (v : Bool) → Keeps Foreign id (on_driver (λ d. ok (set_stop_lamp v d)))
  unfolding set_stop_lamp
  stop_lamp-Keeps v = on_driver-Keeps Foreign id _ (pure-SameHardware (set_stop_lamp v) (λ d. refl))

  pub stop_elevator-Keeps : Keeps Foreign id (on_driver (λ d. ok (stop_elevator d)))
  unfolding stop_elevator
  stop_elevator-Keeps = on_driver-Keeps Foreign id _ (pure-SameHardware stop_elevator (λ d. refl))

  pub motor-Keeps : (d : Direction) (n : ℕ) → Keeps Foreign id (on_driver (set_motor_speed d n))
  unfolding set_motor_speed
  motor-Keeps direction n = on_driver-Keeps Foreign id _ (λ d d' e. ground arith)
