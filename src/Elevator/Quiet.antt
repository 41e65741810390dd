-- ===== src/Elevator/Quiet.antt =====
-- Methods that leave the drive alone: the motor, the direction and the door lamp.
pub mod Methods
use ttk.Prelude.{
  ℕ, ◌≡◌, refl, ap, inl, inr, ◌∙◌, Bool, true, false, arith, if◌then◌else◌, List, [], ◌∷◌,
}
use ttk.Prelude.Int.{ℤ}
use ttk.Outcome.{Outcome, ok, failed, Outcome-cases}
use ttk.Driver.{Direction, Button}
use ttk.Driver.Channels
use ttk.Driver.Io.{io_read_bit}
use ttk.Driver.Ops.{Driver, get_door_open_lamp, set_button_lamp}
use ttk.Driver.Lamps.{set_button_lamp-Keeps}
use ttk.FloorSet
use ttk.FloorSet.{FloorSet}
use ttk.State.{ElevatorState, ChangeType}
use ttk.Elevator.{
  World, Result, returned, raised, hung, M, ◌>>=◌, ◌>>◌, and_then, return, lift, gets, when,
  modify_state, on_driver, ask_driver, now, set_floor, put_floor, emit_state_change, ButtonSet,
  info, buttons, with_buttons, inside, upward, downward,
}
use ttk.Elevator.Triples.{Post, Triple}

pub record SameDrive (w w' : World) : Type 0 where
  pub same_door : get_door_open_lamp w'.driver ≡ get_door_open_lamp w.driver
  pub same_motor : w'.driver.io.analog Channels.motor ≡ w.driver.io.analog Channels.motor
  pub same_motordir :
      io_read_bit Channels.motordir w'.driver.io ≡ io_read_bit Channels.motordir w.driver.io
  pub same_direction : w'.elev_state.direction ≡ w.elev_state.direction
  pub same_clears : w'.obstruction_clears ≡ w.obstruction_clears

pub SameDrive-refl : (w : World) → SameDrive w w
SameDrive-refl w = record {
  same_door = refl;
  same_motor = refl;
  same_motordir = refl;
  same_direction = refl;
  same_clears = refl;
}

SameDrive-trans : (u v w : World) → SameDrive u v → SameDrive v w → SameDrive u w
SameDrive-trans u v w h k = record {
  same_door = k.same_door ∙ h.same_door;
  same_motor = k.same_motor ∙ h.same_motor;
  same_motordir = k.same_motordir ∙ h.same_motordir;
  same_direction = k.same_direction ∙ h.same_direction;
  same_clears = k.same_clears ∙ h.same_clears;
}

abbrev pub Quiet : {A : Type 0} → M A → Type 0
Quiet m = (w : World) → SameDrive w (m w).0

module _ {A B : Type 0} (f : A → M B) (next : (a : A) → Quiet (f a)) where
  SameDrive-and_then :
      (w : World) (x : World × Result A) → SameDrive w x.0 → SameDrive w (and_then x.0 x.1 f).0
  SameDrive-and_then w (v, returned a) h = SameDrive-trans w v (f a v).0 h (next a v)
  SameDrive-and_then w (v, raised) h = h
  SameDrive-and_then w (v, hung) h = h

pub Quiet-bind :
    {A B : Type 0} (m : M A) (f : A → M B) → Quiet m → ((a : A) → Quiet (f a)) → Quiet (m >>= f)
Quiet-bind m f first next w = SameDrive-and_then f next w (m w) (first w)

pub Quiet-when : (b : Bool) (m : M (Unit {0})) → Quiet m → Quiet (when b m)
Quiet-when true m h = h
Quiet-when false m h = SameDrive-refl

pub Quiet-if : {A : Type 0} (b : Bool) (m n : M A) → Quiet m → Quiet n → Quiet (if b then m else n)
Quiet-if true m n h k = h
Quiet-if false m n h k = k

pub Quiet-lift : {A : Type 0} (o : Outcome A) → Quiet (lift o)
Quiet-lift o = SameDrive-refl

pub Quiet-gets : {A : Type 0} (f : World → A) → Quiet (gets f)
Quiet-gets f = SameDrive-refl

-- A change of the state that keeps the direction.
pub Quiet-modify :
    (f : ElevatorState → ElevatorState)
    → ((s : ElevatorState) → (f s).direction ≡ s.direction)
    → Quiet (modify_state f)
Quiet-modify f h w = record {
  same_door = refl;
  same_motor = refl;
  same_motordir = refl;
  same_direction = h w.elev_state;
  same_clears = refl;
}

pub Quiet-ask_driver : {A : Type 0} (f : Driver → Outcome A) → Quiet (ask_driver f)
unfolding ask_driver
Quiet-ask_driver f = SameDrive-refl

-- A method that leaves the driver, the direction and the outlook on an obstruction.
pub fields_kept :
    (w w' : World)
    → w'.driver ≡ w.driver
    → w'.elev_state.direction ≡ w.elev_state.direction
    → w'.obstruction_clears ≡ w.obstruction_clears
    → SameDrive w w'
fields_kept w w' d s c = record {
  same_door = ap get_door_open_lamp d;
  same_motor = ap (λ (d : Driver). d.io.analog Channels.motor) d;
  same_motordir = ap (λ (d : Driver). io_read_bit Channels.motordir d.io) d;
  same_direction = s;
  same_clears = c;
}

pub Quiet-emit : (c : ChangeType) (floor : ℤ) → Quiet (emit_state_change c floor)
unfolding emit_state_change
Quiet-emit c floor w = fields_kept w _ refl refl refl

pub Quiet-now : Quiet now
unfolding now
Quiet-now w = fields_kept w _ refl refl refl

direction-with_buttons :
    (which : ButtonSet) (b : FloorSet) (s : ElevatorState)
    → (with_buttons which b s).direction ≡ s.direction
direction-with_buttons inside b s = refl
direction-with_buttons upward b s = refl
direction-with_buttons downward b s = refl

pub Quiet-set_floor : (which : ButtonSet) (v : Bool) (floor : ℤ) → Quiet (set_floor which v floor)
unfolding set_floor
Quiet-set_floor which v floor w =
    Quiet-bind (lift (FloorSet.set v floor (info w) (buttons which w.elev_state)))
      (λ r. modify_state (with_buttons which r.0) >> return r.1)
      (Quiet-lift (FloorSet.set v floor (info w) (buttons which w.elev_state)))
      (λ r u. Quiet-modify (with_buttons which r.0) (direction-with_buttons which r.0) u) w

pub Quiet-put_floor : (which : ButtonSet) (v : Bool) (floor : ℤ) → Quiet (put_floor which v floor)
unfolding put_floor
Quiet-put_floor which v floor =
    Quiet-bind (set_floor which v floor) (λ old. return tt) (Quiet-set_floor which v floor)
      (λ old. SameDrive-refl)

-- A call on the driver that leaves the motor and the door lamp.
pub Quiet-on_driver :
    (f : Driver → Outcome Driver)
    → ((d d' : Driver)
        → f d ≡ ok d'
        → (get_door_open_lamp d' ≡ get_door_open_lamp d)
          × (d'.io.analog Channels.motor ≡ d.io.analog Channels.motor)
          × (io_read_bit Channels.motordir d'.io ≡ io_read_bit Channels.motordir d.io))
    → Quiet (on_driver f)
unfolding on_driver
Quiet-on_driver f h w = elim (Outcome-cases (f w.driver)) [
  | inl e ↦ rw e (SameDrive-refl w)
  | inr (d', e) ↦
      let (door, motor, motordir) = h w.driver d' e in
      rw e (record {
        same_door = door;
        same_motor = motor;
        same_motordir = motordir;
        same_direction = refl;
        same_clears = refl;
      })
]

pub Quiet-set_button_lamp : (b : Button) (v : Bool) → Quiet (on_driver (set_button_lamp b v))
Quiet-set_button_lamp b v = Quiet-on_driver (set_button_lamp b v) λ d d' e.
    let k = set_button_lamp-Keeps b v d e in
    (k.same_door, ap (λ (a : ℤ → ℕ). a Channels.motor) k.same_motor, k.same_motordir)
