-- ===== src/Elevator/Consistency/Rounds.antt =====
-- elevator/elevator.cpp: every round of the control loop keeps the state consistent.
use ttk.Prelude.{
  All-map, All-In, In, ◌⊎◌, ℕ, refl, inl, inr, Bool, true, false, List, [], ◌∷◌, Option, none, some,
  Bool-cases,
}
use ttk.Prelude.Int.{ℤ}
use ttk.Driver.{Button}
use ttk.FloorSet.{FloorSet}
use ttk.Command.{
  Command, CommandType, nothing, call_to_floor_and_go_up, call_to_floor_and_go_down,
  turn_on_light_up, turn_off_light_up, turn_on_light_down, turn_off_light_down,
}
use ttk.Elevator.{World, Result, returned, raised, modify_state}
use ttk.Elevator.Consistency.{IsSound, Consistent, Keeps, bind-Keeps, return-Keeps}
use ttk.Elevator.Consistency.Hardware.{shutdown-Keeps}
use ttk.Elevator.Consistency.Methods.{
  rules, stop-Keeps, start-Keeps, flags-Keeps, clear_direction_button_lamp-Keeps,
  set_button_lamp_and_flag-Keeps, initialize_elevator-Keeps,
}
use ttk.Elevator.Inputs.{
  Mode, normal, waiting_for_in_button, halted, Locals, check_consistency, new_press, add_seen,
  handle_button, handle_buttons, halt, resume, toggle_stop, handle_stop, wait_obstruction,
  handle_obstruction, call_here, obey, obey_received, next_command, handle_command,
}
use ttk.Elevator.Cycle.{
  guard_top, guard_bottom, show_floor, handle_floor, begin_wait, finish_arrival, arrive, depart,
  rest, arrived, handle_normal, door_timeout, after_close, close_door, handle_waiting, handle_mode,
  keep_alive_check, finish_cycle, cycle, enter, unwind,
}
use ttk.Elevator.Runs.{
  Environment, inputs, commands, shared, Reach, entered, changed, round, unwound,
}
use ttk.State.{StateChange}

module _ (Foreign : StateChange → Type 0) (id : ℤ) where
  check-Keeps : Keeps Foreign id check_consistency
  unfolding check_consistency
  check-Keeps = search rules

  new_press-Keeps : (b : Button) → Keeps Foreign id (new_press b)
  unfolding new_press
  new_press-Keeps b = search (rules, set_button_lamp_and_flag-Keeps)

  handle_button-Keeps : (b : Button) (seen : FloorSet) → Keeps Foreign id (handle_button b seen)
  unfolding handle_button add_seen
  handle_button-Keeps b seen = search (rules, new_press-Keeps) depth 9

  handle_buttons-Keeps :
      (bs : List Button) (seen : FloorSet) → Keeps Foreign id (handle_buttons bs seen)
  unfolding handle_buttons
  handle_buttons-Keeps [] seen = return-Keeps Foreign id seen
  handle_buttons-Keeps (b ∷ bs) seen =
      bind-Keeps Foreign id (handle_button b seen) (handle_buttons bs) (handle_button-Keeps b seen)
        (λ seen'. handle_buttons-Keeps bs seen')

  halt-Keeps : Keeps Foreign id halt
  unfolding halt
  halt-Keeps = search (rules, stop-Keeps)

  resume-Keeps : Keeps Foreign id resume
  unfolding resume
  resume-Keeps = search (rules, start-Keeps) depth 9

  stopped-Keeps : (v : Bool) → Keeps Foreign id (modify_state (λ s. record s { stopped = v }))
  stopped-Keeps v = flags-Keeps Foreign id (λ s. record s { stopped = v }) (λ s. refl)

  toggle_stop-Keeps : Keeps Foreign id toggle_stop
  unfolding toggle_stop
  toggle_stop-Keeps = search (rules, stopped-Keeps, halt-Keeps, resume-Keeps) depth 9

  handle_stop-Keeps : (l : Bool) (mode : Mode) → Keeps Foreign id (handle_stop l mode)
  unfolding handle_stop
  handle_stop-Keeps l mode = search (rules, toggle_stop-Keeps) depth 9

  wait_obstruction-Keeps : Keeps Foreign id wait_obstruction
  unfolding wait_obstruction Keeps
  wait_obstruction-Keeps w h = elim (Bool-cases w.obstruction_clears) [
    | inl e ↦ simp e (record { hardware = h.hardware; sound = h.sound; reports = h.reports })
    | inr e ↦ simp e h
  ]

  handle_obstruction-Keeps : Keeps Foreign id handle_obstruction
  unfolding handle_obstruction
  handle_obstruction-Keeps = search (rules, shutdown-Keeps, wait_obstruction-Keeps)

  call_here-Keeps : (u : Bool) (floor : ℤ) → Keeps Foreign id (call_here u floor)
  unfolding call_here
  call_here-Keeps u floor = search rules

  obey-Keeps : (c : CommandType) (floor : ℤ) → Keeps Foreign id (obey c floor)
  unfolding obey
  obey-Keeps nothing floor = return-Keeps Foreign id tt
  obey-Keeps call_to_floor_and_go_up floor = call_here-Keeps true floor
  obey-Keeps call_to_floor_and_go_down floor = call_here-Keeps false floor
  obey-Keeps turn_on_light_up floor = search rules
  obey-Keeps turn_off_light_up floor = search rules
  obey-Keeps turn_on_light_down floor = search rules
  obey-Keeps turn_off_light_down floor = search rules

  obey_received-Keeps : (c : Option Command) → Keeps Foreign id (obey_received c)
  unfolding obey_received
  obey_received-Keeps none = return-Keeps Foreign id tt
  obey_received-Keeps (some c) = search (rules, obey-Keeps)

  next_command-Keeps : Keeps Foreign id next_command
  unfolding next_command Keeps
  next_command-Keeps w h = record { hardware = h.hardware; sound = h.sound; reports = h.reports }

  handle_command-Keeps : Keeps Foreign id handle_command
  unfolding handle_command
  handle_command-Keeps = search (rules, next_command-Keeps, obey_received-Keeps)

  guard_top-Keeps : (floor : ℤ) → Keeps Foreign id (guard_top floor)
  unfolding guard_top
  guard_top-Keeps floor = search (rules, stop-Keeps)

  guard_bottom-Keeps : (floor : ℤ) → Keeps Foreign id (guard_bottom floor)
  unfolding guard_bottom
  guard_bottom-Keeps floor = search (rules, stop-Keeps)

  show_floor-Keeps : (prev floor : ℤ) → Keeps Foreign id (show_floor prev floor)
  unfolding show_floor
  show_floor-Keeps prev floor = search rules

  handle_floor-Keeps : (prev : ℤ) → Keeps Foreign id (handle_floor prev)
  unfolding handle_floor
  handle_floor-Keeps prev = search (rules, guard_top-Keeps, guard_bottom-Keeps, show_floor-Keeps)

  door-Keeps : (v : Bool) → Keeps Foreign id (modify_state (λ s. record s { door_open = v }))
  door-Keeps v = flags-Keeps Foreign id (λ s. record s { door_open = v }) (λ s. refl)

  begin_wait-Keeps : Keeps Foreign id begin_wait
  unfolding begin_wait
  begin_wait-Keeps = search (rules, door-Keeps)

  finish_arrival-Keeps : (floor : ℤ) (t : ℕ) → Keeps Foreign id (finish_arrival floor t)
  unfolding finish_arrival
  finish_arrival-Keeps floor t = search rules

  arrive-Keeps : (floor : ℤ) → Keeps Foreign id (arrive floor)
  unfolding arrive
  arrive-Keeps floor =
      search
        (rules, set_button_lamp_and_flag-Keeps, begin_wait-Keeps, stop-Keeps, finish_arrival-Keeps)
        depth 9

  depart-Keeps : (floor : ℤ) → Keeps Foreign id (depart floor)
  unfolding depart
  depart-Keeps floor = search (rules, start-Keeps)

  rest-Keeps : (floor : ℤ) → Keeps Foreign id (rest floor)
  unfolding rest
  rest-Keeps floor = search (rules, depart-Keeps, clear_direction_button_lamp-Keeps)

  arrived-Keeps : (floor : ℤ) → Keeps Foreign id (arrived floor)
  unfolding arrived
  arrived-Keeps floor = search rules

  handle_normal-Keeps : (floor : ℤ) (l : Locals) → Keeps Foreign id (handle_normal floor l)
  unfolding handle_normal
  handle_normal-Keeps floor l = search (rules, arrived-Keeps, arrive-Keeps, rest-Keeps) depth 9

  door_timeout-Keeps : (floor : ℤ) → Keeps Foreign id (door_timeout floor)
  unfolding door_timeout
  door_timeout-Keeps floor = search rules depth 9

  after_close-Keeps : (floor : ℤ) (timeout : Bool) → Keeps Foreign id (after_close floor timeout)
  unfolding after_close
  after_close-Keeps floor timeout =
      search (rules, door-Keeps, door_timeout-Keeps, clear_direction_button_lamp-Keeps)

  close_door-Keeps : (floor : ℤ) (timeout : Bool) → Keeps Foreign id (close_door floor timeout)
  unfolding close_door
  close_door-Keeps floor timeout = search (rules, after_close-Keeps)

  handle_waiting-Keeps : (floor : ℤ) (l : Locals) → Keeps Foreign id (handle_waiting floor l)
  unfolding handle_waiting
  handle_waiting-Keeps floor l = search (rules, close_door-Keeps) depth 9

  handle_mode-Keeps :
      (mode : Mode) (floor : ℤ) (l : Locals) → Keeps Foreign id (handle_mode mode floor l)
  unfolding handle_mode
  handle_mode-Keeps normal floor l = handle_normal-Keeps floor l
  handle_mode-Keeps waiting_for_in_button floor l = handle_waiting-Keeps floor l
  handle_mode-Keeps halted floor l = return-Keeps Foreign id l

  keep_alive-Keeps : (floor : ℤ) → Keeps Foreign id (keep_alive_check floor)
  unfolding keep_alive_check
  keep_alive-Keeps floor = search rules

  finish_cycle-Keeps : (l : Locals) (floor : ℤ) → Keeps Foreign id (finish_cycle l floor)
  unfolding finish_cycle
  finish_cycle-Keeps l floor = search (rules, handle_mode-Keeps, keep_alive-Keeps)

  cycle-Keeps : (l : Locals) → Keeps Foreign id (cycle l)
  unfolding cycle
  cycle-Keeps l =
      search
        (
          rules, check-Keeps, handle_buttons-Keeps, handle_stop-Keeps, handle_obstruction-Keeps,
          handle_command-Keeps, handle_floor-Keeps, finish_cycle-Keeps,
        )
        depth 12

  enter-Keeps : Keeps Foreign id enter
  unfolding enter
  enter-Keeps = search (rules, initialize_elevator-Keeps)

  unwind-Keeps : Keeps Foreign id unwind
  unfolding unwind
  unwind-Keeps = search (rules, stop-Keeps, enter-Keeps)

module _ (Foreign : StateChange → Type 0) (id : ℤ) where
  changed-Consistent :
      {w w' : World} → Environment Foreign w w' → Consistent Foreign id w → Consistent Foreign id w'
  changed-Consistent (inputs bits s) h = record {
    hardware = h.hardware;
    sound = h.sound;
    reports = h.reports;
  }
  changed-Consistent (commands q) h = record {
    hardware = h.hardware;
    sound = h.sound;
    reports = h.reports;
  }
  changed-Consistent {w} (shared q kept) h = record {
    hardware = h.hardware;
    sound = h.sound;
    reports =
        All-map (λ (u : StateChange). In u w.out_state.queue ⊎ Foreign u)
          (λ (u : StateChange). IsSound id u.state ⊎ Foreign u)
          (λ u c. elim c [
            | inl m ↦ All-In (λ (u : StateChange). IsSound id u.state ⊎ Foreign u) m h.reports
            | inr f ↦ inr f
          ])
          q.queue kept;
  }

  -- On the hardware's four floors, from a start with this property: whatever buttons, sensors and
  -- commands do, whatever the scheduler takes from the queue of changes and the receiver puts into
  -- it, also across failed assertions and restarts of the loop, the last floor of the state is one
  -- of the four, and its three button sets hold no other floors. Every change in the queue has
  -- such a state with the elevator's identifier, unless it is one of the foreign changes, which
  -- the environment may put in; the foreign ones are any set of changes, for one node none.
  pub Reach-Consistent :
      (w₀ : World) (x : World × Result Locals)
      → Consistent Foreign id w₀
      → Reach Foreign w₀ x
      → Consistent Foreign id x.0
  unfolding Keeps
  Reach-Consistent w₀ _ h entered = enter-Keeps Foreign id w₀ h
  Reach-Consistent w₀ _ h (changed {w} {l = l} r e) =
      changed-Consistent e (Reach-Consistent w₀ (w, returned l) h r)
  Reach-Consistent w₀ _ h (round {w} {l} r) =
      cycle-Keeps Foreign id l w (Reach-Consistent w₀ (w, returned l) h r)
  Reach-Consistent w₀ _ h (unwound {w} r) =
      unwind-Keeps Foreign id w (Reach-Consistent w₀ (w, raised) h r)
