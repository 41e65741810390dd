-- ===== src/Elevator/Safety.antt =====
-- elevator/elevator.cpp: an invariant of the drive is kept by every round of the control loop when
-- the few methods that touch the drive keep it.
pub mod Door
pub mod Motor
pub mod Obstruction
use ttk.Prelude.{
  ℕ, ◌≡◌, refl, sym, ◌∙◌, ap, subst, ◌≢◌, ◌⊎◌, inl, inr, Bool, true, false, arith, if◌then◌else◌,
  List, [], ◌∷◌, not, ◌+◌, ltb, ◌||◌, ◌&&◌,
}
use ttk.Prelude.Int.{ℤ, ◌==ℤ◌, int_min}
use ttk.Outcome.{Outcome, ok, failed}
use ttk.Driver.{Direction, stay, Button, is_direction, target_floor}
use ttk.Driver.Ops.{Driver, set_door_open_lamp, set_stop_lamp, get_stop, get_stop_lamp}
use ttk.FloorSet
use ttk.FloorSet.{FloorSet}
use ttk.State.{StateChange, ElevatorState, other_change, served}
use ttk.Elevator.{
  World, Result, returned, raised, hung, M, ◌>>=◌, ◌>>◌, and_then, return, lift, gets, when, now,
  modify_state, on_driver, info, put_floor, emit_state_change, inside,
}
use ttk.Elevator.Triples.{Post, Triple, Triple-bind, Triple-when}
use ttk.Elevator.Quiet.{
  SameDrive, fields_kept, Quiet, Quiet-emit, Quiet-now, Quiet-put_floor, Quiet-lift, Quiet-bind,
  Quiet-if, Quiet-when, Quiet-modify, SameDrive-refl,
}
use ttk.Elevator.Quiet.Methods.{
  Quiet-clear_direction_button_lamp, Quiet-set_button_lamp_and_flag, Quiet-update_and_get_floor,
  Quiet-initialize_elevator, Quiet-check_consistency, Quiet-handle_buttons, Quiet-handle_command,
  Quiet-door_timeout, Quiet-arrived, Quiet-show_floor, Quiet-begin_wait, Quiet-enter,
  Quiet-finish_arrival, Quiet-after_close, Quiet-keep_alive_check,
}
use ttk.Elevator.Runs.{
  Environment, inputs, commands, shared, Reach, entered, changed, round, unwound,
}
use ttk.Elevator.Motion.{
  update_and_get_floor, stop, start, all_buttons, priority_floors_in_direction,
}
use ttk.Elevator.Lights.{gen_floor_buttons, set_button_lamp_and_flag}
use ttk.Elevator.Inputs.{
  Mode, normal, waiting_for_in_button, halted, Locals, check_consistency, handle_buttons,
  toggle_stop, halt, resume, handle_stop, handle_obstruction, handle_command,
}
use ttk.Elevator.Cycle.{
  wait_threshold, guard_top, guard_bottom, show_floor, begin_wait, finish_arrival, after_close,
  handle_floor, arrive, depart, rest, arrived, handle_normal, close_door, handle_waiting,
  handle_mode, finish_cycle, cycle, keep_alive_check, enter, unwind,
}

-- `P` holds between methods; `E` is what is left of it while the drive is changed and after an
-- exception. Both see only the drive.
module _ (P E : World → Type 0) where
  pub record Drives : Type 0 where
    pub weaken : (w : World) → P w → E w
    pub keep : (w w' : World) → SameDrive w w' → P w → P w'
    pub keep_weak : (w w' : World) → w'.obstruction_clears ≡ w.obstruction_clears → E w → E w'
    pub stops : Triple E stop P E
    pub starts : (d : Direction) → Triple E (start d) P E
    pub opens : Triple P (on_driver (λ d. ok (set_door_open_lamp true d))) E E
    pub closes : Triple P (on_driver (λ d. ok (set_door_open_lamp false d))) P E
    pub stop_lamp : (v : Bool) → Triple P (on_driver (λ d. ok (set_stop_lamp v d))) P E
    pub obstructs : Triple P handle_obstruction P E

module _ (P E : World → Type 0) (law : Drives P E) where
  after_quiet : {A : Type 0} (w : World) (x : World × Result A) → SameDrive w x.0 → P w → Post P E x
  after_quiet w (v, returned a) s h = law.keep w v s h
  after_quiet w (v, raised) s h = law.weaken v (law.keep w v s h)
  after_quiet w (v, hung) s h = law.weaken v (law.keep w v s h)

  quiet : {A : Type 0} (m : M A) → Quiet m → Triple P m P E
  quiet m q w h = after_quiet w (m w) (q w) h

  after_weak : {A : Type 0} (w : World) (x : World × Result A) → SameDrive w x.0 → E w → Post E E x
  after_weak w (v, returned a) s h = law.keep_weak w v s.same_clears h
  after_weak w (v, raised) s h = law.keep_weak w v s.same_clears h
  after_weak w (v, hung) s h = law.keep_weak w v s.same_clears h

  weak : {A : Type 0} (m : M A) → Quiet m → Triple E m E E
  weak m q w h = after_weak w (m w) (q w) h

  then_quiet :
      {A B : Type 0} (m : M A) (f : A → M B)
      → Triple P m P E
      → ((a : A) → Quiet (f a))
      → Triple P (m >>= f) P E
  then_quiet m f h q = Triple-bind P P P E m f h (λ a. quiet (f a) (q a))

  stop-keeps : Triple P stop P E
  stop-keeps w h = law.stops w (law.weaken w h)

  start-keeps : (d : Direction) → Triple P (start d) P E
  start-keeps d w h = law.starts d w (law.weaken w h)

  halt-keeps : Triple P halt P E
  unfolding halt
  halt-keeps =
      then_quiet stop _ stop-keeps
        λ _. search (Quiet-bind, Quiet-update_and_get_floor, Quiet-emit, SameDrive-refl)

  resume-keeps : Triple P resume P E
  unfolding resume
  resume-keeps w h =
      then_quiet (start w.previous_direction) _ (start-keeps w.previous_direction)
        (λ _. search (Quiet-bind, Quiet-update_and_get_floor, Quiet-emit, SameDrive-refl)) w h

  either :
      {A : Type 0} (b : Bool) (m n : M A)
      → Triple P m P E
      → Triple P n P E
      → Triple P (if b then m else n) P E
  either true m n h k = h
  either false m n h k = k

  modified :
      (f : ElevatorState → ElevatorState)
      → ((s : ElevatorState) → (f s).direction ≡ s.direction)
      → Triple P (modify_state f) P E
  modified f h = quiet (modify_state f) (Quiet-modify f h)

  toggle_stop-keeps : Triple P toggle_stop P E
  unfolding toggle_stop
  toggle_stop-keeps w h =
      let lamp = get_stop_lamp w.driver in
      Triple-bind P P P E (modify_state (λ s. record s { stopped = not lamp })) _
        (modified (λ s. record s { stopped = not lamp }) (λ s. refl))
        (λ _.
          Triple-bind P P P E (on_driver (λ d. ok (set_stop_lamp (not lamp) d))) _
            (law.stop_lamp (not lamp)) (λ _. either lamp resume halt resume-keeps halt-keeps))
        w h

  handle_stop-keeps : (l : Bool) (mode : Mode) → Triple P (handle_stop l mode) P E
  unfolding handle_stop
  handle_stop-keeps l mode w h =
      let pressed = get_stop w.driver in
      then_quiet (if pressed && not l then toggle_stop else return mode)
        (λ mode'. return (mode', pressed))
        (either (pressed && not l) toggle_stop (return mode) toggle_stop-keeps (λ w h. h))
        (λ _. SameDrive-refl) w h

  guard_top-keeps : (floor : ℤ) → Triple P (guard_top floor) P E
  unfolding guard_top
  guard_top-keeps floor w = Triple-when P E _ stop stop-keeps w

  guard_bottom-keeps : (floor : ℤ) → Triple P (guard_bottom floor) P E
  unfolding guard_bottom
  guard_bottom-keeps floor w = Triple-when P E _ stop stop-keeps w

  handle_floor-keeps : (prev : ℤ) → Triple P (handle_floor prev) P E
  unfolding handle_floor
  handle_floor-keeps prev =
      Triple-bind P P P E update_and_get_floor _
        (quiet update_and_get_floor Quiet-update_and_get_floor)
        λ floor. Triple-bind P P P E (guard_top floor) _ (guard_top-keeps floor) λ _.
          then_quiet (guard_bottom floor) (λ _. show_floor prev floor) (guard_bottom-keeps floor)
            (λ _. Quiet-show_floor prev floor)

  arrive-keeps : (floor : ℤ) → Triple P (arrive floor) P E
  unfolding arrive
  arrive-keeps floor =
      let b : Button = record { type = target_floor; floor = floor } in
      Triple-bind P P P E (set_button_lamp_and_flag b false) _
        (quiet (set_button_lamp_and_flag b false) (Quiet-set_button_lamp_and_flag b false))
        λ _. Triple-bind P E P E (on_driver (λ d. ok (set_door_open_lamp true d))) _ law.opens λ _.
          Triple-bind E E P E begin_wait _ (weak begin_wait Quiet-begin_wait) λ started.
            Triple-bind E P P E stop (λ _. finish_arrival floor started) law.stops
              λ _. quiet (finish_arrival floor started) (Quiet-finish_arrival floor started)

  depart-keeps : (floor : ℤ) → Triple P (depart floor) P E
  unfolding depart
  depart-keeps floor w =
      let o = priority_floors_in_direction w.previous_direction (info w) w.elev_state in
      Triple-bind P P P E (lift o) _ (quiet (lift o) (Quiet-lift o))
        (λ priority.
          then_quiet (start (if priority then w.previous_direction else stay))
            (λ _. emit_state_change other_change floor)
            (start-keeps (if priority then w.previous_direction else stay))
            (λ _. Quiet-emit other_change floor))
        w

  rest-keeps : (floor : ℤ) → Triple P (rest floor) P E
  unfolding rest
  rest-keeps floor w =
      then_quiet (when (FloorSet.has_any (all_buttons w.elev_state)) (depart floor)) _
        (Triple-when P E _ (depart floor) (depart-keeps floor))
        (λ _. Quiet-clear_direction_button_lamp) w

  handle_normal-keeps : (floor : ℤ) (l : Locals) → Triple P (handle_normal floor l) P E
  unfolding handle_normal
  handle_normal-keeps floor l =
      Triple-bind P P P E (arrived floor) _ (quiet (arrived floor) (Quiet-arrived floor)) λ here w.
        either here _ _
          (then_quiet (arrive floor)
            (λ started.
              return (record l { mode = waiting_for_in_button; door_waiting_started = started }))
            (arrive-keeps floor) (λ _. SameDrive-refl))
          (then_quiet (when (is_direction w.elev_state.direction stay) (rest floor)) (λ _. return l)
            (Triple-when P E _ (rest floor) (rest-keeps floor)) (λ _. SameDrive-refl))
          w

  close_door-keeps : (floor : ℤ) (timeout : Bool) → Triple P (close_door floor timeout) P E
  unfolding close_door
  close_door-keeps floor timeout =
      then_quiet (on_driver (λ d. ok (set_door_open_lamp false d))) (λ _. after_close floor timeout)
        law.closes (λ _. Quiet-after_close floor timeout)

  handle_waiting-keeps : (floor : ℤ) (l : Locals) → Triple P (handle_waiting floor l) P E
  unfolding handle_waiting
  handle_waiting-keeps floor l = Triple-bind P P P E now _ (quiet now Quiet-now) λ t.
      let timeout = ltb (l.door_waiting_started + wait_threshold) t in
      either _ _ (return l)
        (then_quiet (close_door floor timeout) (λ _. return (record l { mode = normal }))
          (close_door-keeps floor timeout) (λ _. SameDrive-refl))
        (λ w h. h)

  handle_mode-keeps :
      (mode : Mode) (floor : ℤ) (l : Locals) → Triple P (handle_mode mode floor l) P E
  unfolding handle_mode
  handle_mode-keeps normal floor l = handle_normal-keeps floor l
  handle_mode-keeps waiting_for_in_button floor l = handle_waiting-keeps floor l
  handle_mode-keeps halted floor l = λ w h. h

  finish_cycle-keeps : (l : Locals) (floor : ℤ) → Triple P (finish_cycle l floor) P E
  unfolding finish_cycle
  finish_cycle-keeps l floor =
      then_quiet (handle_mode l.mode floor l) _ (handle_mode-keeps l.mode floor l) λ l'.
        Quiet-bind (keep_alive_check floor) (λ _. return (record l' { prev_floor = floor }))
          (Quiet-keep_alive_check floor) (λ _. SameDrive-refl)

  pub cycle-keeps : (l : Locals) → Triple P (cycle l) P E
  unfolding cycle
  cycle-keeps l =
      Triple-bind P P P E check_consistency _ (quiet check_consistency Quiet-check_consistency)
        λ _ w.
          let bs = gen_floor_buttons (info w) in
          let seen₀ = FloorSet.reset l.in_floor_buttons in
          Triple-bind P P P E (handle_buttons bs seen₀) _
            (quiet (handle_buttons bs seen₀) (Quiet-handle_buttons bs seen₀))
            (λ seen.
              Triple-bind P P P E (handle_stop l.stop_now l.mode) _
                (handle_stop-keeps l.stop_now l.mode)
                λ s. Triple-bind P P P E handle_obstruction _ law.obstructs λ _.
                  Triple-bind P P P E handle_command _ (quiet handle_command Quiet-handle_command)
                    λ _.
                      Triple-bind P P P E (handle_floor l.prev_floor) _
                        (handle_floor-keeps l.prev_floor) λ floor. finish_cycle-keeps _ floor)
            w

  -- After an exception the drive is in order again.
  pub unwind-restores : Triple E unwind P E
  unfolding unwind
  unwind-restores = Triple-bind E P P E stop (λ _. enter) law.stops (λ _. quiet enter Quiet-enter)

  pub enter-keeps : Triple P enter P E
  enter-keeps = quiet enter Quiet-enter

  changed-keeps :
      {Foreign : StateChange → Type 0} {w w' : World} → Environment Foreign w w' → P w → P w'
  changed-keeps {w = w} (inputs bits s) h = law.keep w _ s h
  changed-keeps {w = w} (commands q) h = law.keep w _ (fields_kept w _ refl refl refl) h
  changed-keeps {w = w} (shared q kept) h = law.keep w _ (fields_kept w _ refl refl refl) h

  -- The invariant holds in all that the control thread can reach.
  pub Reach-keeps :
      {Foreign : StateChange → Type 0} {w₀ : World} {x : World × Result Locals}
      → P w₀
      → Reach Foreign w₀ x
      → Post P E x
  Reach-keeps {w₀ = w₀} h entered = enter-keeps w₀ h
  Reach-keeps h (changed r e) = changed-keeps e (Reach-keeps h r)
  Reach-keeps h (round {w} {l} r) = cycle-keeps l w (Reach-keeps h r)
  Reach-keeps h (unwound {w} r) = unwind-restores w (Reach-keeps h r)
