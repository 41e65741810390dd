-- ===== src/Elevator/Consistency.antt =====
-- elevator/elevator.cpp: what the control loop keeps of the elevator's state and of its reports.
pub mod Hardware
pub mod Methods
pub mod Rounds
pub mod Checks
use ttk.Prelude.{
  ℕ, ◌^◌, ◌<◌, ◌≡◌, refl, sym, ap, ◌∙◌, subst, ◌⊎◌, inl, inr, Bool, true, false, arith,
  if◌then◌else◌, List, [], ◌∷◌, ◌++◌, All,
}
use ttk.Prelude.Int.{ℤ, pos, ◌==ℤ◌, int_min}
use ttk.Outcome.{Outcome, ok, failed, Outcome-cases}
use ttk.Driver.{Direction, DriverInfo, InBounds, Button}
use ttk.Driver.Io.{io_read_bit}
use ttk.Driver.Ops.{
  Driver, driver_info, set_button_lamp, lamp, get_floor, set_floor_indicator, init_floor,
  init_floors, init, shutdown, stop_elevator,
}
use ttk.FloorSet
use ttk.FloorSet.{FloorSet, Fits}
use ttk.FloorSet.Building.{IsOfBuilding, set-IsOfBuilding}
use ttk.State.{ElevatorState, StateChange, ChangeType}
use ttk.ConcurrentQueue.{enqueue}
use ttk.Elevator.{
  World, Result, returned, raised, hung, M, ◌>>=◌, ◌>>◌, and_then, return, lift, gets, when, now,
  modify_state, on_driver, ask_driver, info, set_floor, put_floor, emit_state_change, ButtonSet,
  buttons, with_buttons, inside, upward, downward,
}
use ttk.Elevator.Motion.{update_and_get_floor}

-- The state of elevator `id`: its last floor is one of the floors of the hardware, and so are those
-- of its buttons.
pub record IsSound (id : ℤ) (s : ElevatorState) : Type 0 where
  pub own_id : s.id ≡ id
  pub on_floor : InBounds s.last_floor driver_info
  pub inside_floors : IsOfBuilding driver_info s.inside_buttons
  pub up_floors : IsOfBuilding driver_info s.up_buttons
  pub down_floors : IsOfBuilding driver_info s.down_buttons

-- The state is sound, and so is that of every change in the queue but the foreign ones.
pub record Consistent (Foreign : StateChange → Type 0) (id : ℤ) (w : World) : Type 0 where
  pub hardware : w.driver.info ≡ driver_info
  pub sound : IsSound id w.elev_state
  pub reports : All (λ (u : StateChange). IsSound id u.state ⊎ Foreign u) w.out_state.queue

All-enqueued :
    (P : StateChange → Type 0) (us : List StateChange) (u : StateChange)
    → All P us
    → P u
    → All P (us ++ u ∷ [])
All-enqueued P [] u h k = (k, tt)
All-enqueued P (v ∷ us) u h k = (h.0, All-enqueued P us u h.1 k)

-- The driver keeps what it knows of the hardware.
abbrev pub SameHardware : (Driver → Outcome Driver) → Type 0
SameHardware f = (d d' : Driver) → f d ≡ ok d' → d'.info ≡ d.info

module _ (Foreign : StateChange → Type 0) (id : ℤ) where
  -- A method keeps the consistency, also where it fails or hangs.
  unfoldable pub Keeps : {A : Type 0} → M A → Type 0
  Keeps m = (w : World) → Consistent Foreign id w → Consistent Foreign id (m w).0

  module _ {A B : Type 0} (f : A → M B) (next : (a : A) → Keeps (f a)) where
    and_then-Consistent :
        (x : World × Result A)
        → Consistent Foreign id x.0
        → Consistent Foreign id (and_then x.0 x.1 f).0
    unfolding Keeps
    and_then-Consistent (w, returned a) h = next a w h
    and_then-Consistent (w, raised) h = h
    and_then-Consistent (w, hung) h = h

  pub bind-Keeps :
      {A B : Type 0} (m : M A) (f : A → M B) → Keeps m → ((a : A) → Keeps (f a)) → Keeps (m >>= f)
  unfolding Keeps
  bind-Keeps m f first next w h = and_then-Consistent f next (m w) (first w h)

  pub when-Keeps : (b : Bool) (m : M (Unit {0})) → Keeps m → Keeps (when b m)
  unfolding Keeps
  when-Keeps true m h = h
  when-Keeps false m h = λ w k. k

  pub if-Keeps :
      {A : Type 0} (b : Bool) (m n : M A) → Keeps m → Keeps n → Keeps (if b then m else n)
  if-Keeps true m n h k = h
  if-Keeps false m n h k = k

  pub lift-Keeps : {A : Type 0} (o : Outcome A) → Keeps (lift o)
  unfolding Keeps
  lift-Keeps o w h = h

  pub return-Keeps : {A : Type 0} (a : A) → Keeps (return a)
  unfolding Keeps
  return-Keeps a w h = h

  pub gets-Keeps : {A : Type 0} (f : World → A) → Keeps (gets f)
  unfolding Keeps
  gets-Keeps f w h = h

  pub now-Keeps : Keeps now
  unfolding now Keeps
  now-Keeps w h = record { hardware = h.hardware; sound = h.sound; reports = h.reports }

  pub ask_driver-Keeps : {A : Type 0} (f : Driver → Outcome A) → Keeps (ask_driver f)
  unfolding ask_driver Keeps
  ask_driver-Keeps f w h = h

  pub emit-Keeps : (c : ChangeType) (floor : ℤ) → Keeps (emit_state_change c floor)
  unfolding emit_state_change enqueue Keeps
  emit-Keeps c floor w h = record {
    hardware = h.hardware;
    sound = h.sound;
    reports =
        All-enqueued (λ (u : StateChange). IsSound id u.state ⊎ Foreign u) w.out_state.queue _
          h.reports
          (inl (record {
            own_id = h.sound.own_id;
            on_floor = h.sound.on_floor;
            inside_floors = h.sound.inside_floors;
            up_floors = h.sound.up_floors;
            down_floors = h.sound.down_floors;
          }));
  }

  -- A change of the state that keeps it sound.
  pub modify-Keeps :
      (f : ElevatorState → ElevatorState)
      → ((s : ElevatorState) → IsSound id s → IsSound id (f s))
      → Keeps (modify_state f)
  unfolding Keeps
  modify-Keeps f k w h = record {
    hardware = h.hardware;
    sound = k w.elev_state h.sound;
    reports = h.reports;
  }

  pub on_driver-Keeps : (f : Driver → Outcome Driver) → SameHardware f → Keeps (on_driver f)
  unfolding on_driver Keeps
  on_driver-Keeps f k w h = elim (Outcome-cases (f w.driver)) [
    | inl e ↦ rw e h
    | inr (d, e) ↦
        rw e
          (record { hardware = k w.driver d e ∙ h.hardware; sound = h.sound; reports = h.reports })
  ]

  with_buttons-IsSound :
      (which : ButtonSet) (s : ElevatorState) (b : FloorSet)
      → IsSound id s
      → IsOfBuilding driver_info b
      → IsSound id (with_buttons which b s)
  with_buttons-IsSound inside s b h k = record {
    own_id = h.own_id;
    on_floor = h.on_floor;
    inside_floors = k;
    up_floors = h.up_floors;
    down_floors = h.down_floors;
  }
  with_buttons-IsSound upward s b h k = record {
    own_id = h.own_id;
    on_floor = h.on_floor;
    inside_floors = h.inside_floors;
    up_floors = k;
    down_floors = h.down_floors;
  }
  with_buttons-IsSound downward s b h k = record {
    own_id = h.own_id;
    on_floor = h.on_floor;
    inside_floors = h.inside_floors;
    up_floors = h.up_floors;
    down_floors = k;
  }

  buttons-IsOfBuilding :
      (which : ButtonSet) (s : ElevatorState)
      → IsSound id s
      → IsOfBuilding driver_info (buttons which s)
  buttons-IsOfBuilding inside s h = h.inside_floors
  buttons-IsOfBuilding upward s h = h.up_floors
  buttons-IsOfBuilding downward s h = h.down_floors

  hardware-Fits : Fits driver_info
  hardware-Fits = omega arith

  pub set_floor-Keeps : (which : ButtonSet) (v : Bool) (floor : ℤ) → Keeps (set_floor which v floor)
  unfolding set_floor Keeps
  set_floor-Keeps which v floor w h =
      elim (Outcome-cases (FloorSet.set v floor (info w) (buttons which w.elev_state))) [
        | inl e ↦ rw e h
        | inr (r, e) ↦ rw e (record {
          hardware = h.hardware;
          sound = with_buttons-IsSound which w.elev_state r.0 h.sound (
              set-IsOfBuilding v floor driver_info (buttons which w.elev_state) r hardware-Fits
                (buttons-IsOfBuilding which w.elev_state h.sound)
                (subst (λ d. FloorSet.set v floor d (buttons which w.elev_state) ≡ ok r) h.hardware
                  e));
          reports = h.reports;
        })
      ]

  pub put_floor-Keeps : (which : ButtonSet) (v : Bool) (floor : ℤ) → Keeps (put_floor which v floor)
  unfolding put_floor
  put_floor-Keeps which v floor =
      bind-Keeps (set_floor which v floor) (λ old. return tt) (set_floor-Keeps which v floor)
        (λ old. return-Keeps tt)
