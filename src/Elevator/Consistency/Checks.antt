-- ===== src/Elevator/Consistency/Checks.antt =====
-- elevator/elevator.cpp, Elevator::assertConsistency: the check of a round does not fail.
use ttk.Prelude.{◌≡◌, refl, sym, subst, true, arith}
use ttk.Prelude.Int.{ℤ, pos, leb_ℤ, ◌≤ℤ◌}
use ttk.Outcome.{ok}
use ttk.Driver.Ops.{driver_info}
use ttk.FloorSet.Building.{consistent-IsOfBuilding}
use ttk.State.{StateChange, ElevatorState, assert_consistency}
use ttk.Elevator.{World, returned}
use ttk.Elevator.Consistency.{IsSound, Consistent}
use ttk.Elevator.Inputs.{Locals, check_consistency}
use ttk.Elevator.Runs.{Reach}
use ttk.Elevator.Consistency.Rounds.{Reach-Consistent}

-- Such a state passes ElevatorState::assertConsistency.
IsSound-consistent :
    (id : ℤ) (s : ElevatorState)
    → IsSound id s
    → pos 0 ≤ℤ id
    → assert_consistency driver_info s ≡ ok tt
unfolding assert_consistency
IsSound-consistent id s h natural =
    let numbered : leb_ℤ (pos 0) s.id ≡ true =
      subst (λ i. leb_ℤ (pos 0) i ≡ true) (sym h.own_id) (ground arith) in
    let above : leb_ℤ (pos 1) s.last_floor ≡ true = ground (arith, h.on_floor.above_min) in
    rw
      (
        numbered,
        consistent-IsOfBuilding driver_info s.inside_buttons (omega arith) h.inside_floors,
        consistent-IsOfBuilding driver_info s.up_buttons (omega arith) h.up_floors,
        consistent-IsOfBuilding driver_info s.down_buttons (omega arith) h.down_floors,
        above,
      )
      refl

-- On the hardware's four floors, for an identifier from 0 on and from a start with such a state,
-- the check at the beginning of a round never fails, in whatever state the control thread reaches.
pub check_consistency-passes :
    {Foreign : StateChange → Type 0} (id : ℤ) (w₀ w : World) (l : Locals)
    → Consistent Foreign id w₀
    → pos 0 ≤ℤ id
    → Reach Foreign w₀ (w, returned l)
    → check_consistency w ≡ (w, returned tt)
unfolding check_consistency
check_consistency-passes {Foreign} id w₀ w l h natural r =
    passes (Reach-Consistent Foreign id w₀ (w, returned l) h r)
  where
    passes : Consistent Foreign id w → check_consistency w ≡ (w, returned tt)
    passes k =
        let above : leb_ℤ (pos 1) w.elev_state.last_floor ≡ true =
          ground (arith, k.sound.on_floor.above_min) in
        let below : leb_ℤ w.elev_state.last_floor (pos 4) ≡ true =
          ground (arith, k.sound.on_floor.below_max) in
        simp (k.hardware, IsSound-consistent id w.elev_state k.sound natural, above, below) refl
