-- ===== src/Scheduler/Remote.antt =====
-- elevator/scheduler.cpp, _schedLoop: what a scheduler does with the state changes of other nodes.
use ttk.Prelude.{
  ℕ, ◌*◌, ◌≡◌, ◌≢◌, refl, sym, ap, ◌∙◌, subst, false, List, [], ◌∷◌, Bool-cases, inl, inr, All,
}
use ttk.Prelude.Int.{ℤ, ◌==ℤ◌, ==ℤ_iff}
use ttk.Outcome.{Outcome, ok}
use ttk.Driver.{ButtonType, call_up, call_down}
use ttk.Command.{CommandType, turn_off_light_up, turn_off_light_down}
use ttk.State.{
  StateChange, ElevatorState, ChangeType, keep_alive, inside_button_pressed, button_down_pressed,
  button_up_pressed, going_to_serve_up, going_to_serve_down, served, served_up, served_down,
  other_change,
}
use ttk.State
use ttk.GlobalState
use ttk.GlobalState.{GlobalState, Elevators}
use ttk.GlobalState.Lookup.{updates}
use ttk.Scheduler.{
  Scheduler, M, ◌>>◌, modify, dispatch, handle_update, handle_button_press, handle_served,
  acknowledge, forward_to_targets, steady_now,
}

pub other_id : (a b : ℤ) → a ≢ b → (a ==ℤ b) ≡ false
other_id a b n = elim (Bool-cases (a ==ℤ b)) [ inl e ↦ absurd (n ((==ℤ_iff a b).0 e)) | inr e ↦ e ]

-- A step that ends so succeeds, and keeps the states, the identifier and what goes to the other
-- nodes.
record Keeps (s : Scheduler) (r : Scheduler × Outcome (Unit {0})) : Type 0 where
  returns : r.1 ≡ ok tt
  same_elevators : r.0.global_state.elevators ≡ s.global_state.elevators
  same_out : r.0.state_update_out ≡ s.state_update_out
  same_id : r.0.local_elev_id ≡ s.local_elev_id

kept : (s : Scheduler) → Keeps s (s, ok tt)
kept s = record { returns = refl; same_elevators = refl; same_out = refl; same_id = refl }

press-Keeps :
    (u : StateChange) (type : ButtonType) (s : Scheduler)
    → (u.state.id ==ℤ s.local_elev_id) ≡ false
    → Keeps s (handle_button_press u.state.id type u.change_floor s)
unfolding handle_button_press forward_to_targets
press-Keeps u type s n =
    rw n (record { returns = refl; same_elevators = refl; same_out = refl; same_id = refl })

served-Keeps :
    (type : CommandType) (u : StateChange) (s : Scheduler) → Keeps s (handle_served type u s)
unfolding handle_served forward_to_targets
served-Keeps type u s = record {
  returns = refl;
  same_elevators = refl;
  same_out = refl;
  same_id = refl;
}

acknowledge-Keeps : (u : StateChange) (delta : ℕ) (s : Scheduler) → Keeps s (acknowledge u delta s)
unfolding acknowledge steady_now
acknowledge-Keeps u delta s = record {
  returns = refl;
  same_elevators = refl;
  same_out = refl;
  same_id = refl;
}

dispatch-Keeps :
    (u : StateChange) (c : ChangeType) (s : Scheduler)
    → (u.state.id ==ℤ s.local_elev_id) ≡ false
    → Keeps s (dispatch u c s)
unfolding dispatch
dispatch-Keeps u button_up_pressed s n = press-Keeps u call_up s n
dispatch-Keeps u button_down_pressed s n = press-Keeps u call_down s n
dispatch-Keeps u served_down s n = served-Keeps turn_off_light_down u s
dispatch-Keeps u served_up s n = served-Keeps turn_off_light_up u s
dispatch-Keeps u going_to_serve_up s n = acknowledge-Keeps u (30 * 1000) s
dispatch-Keeps u going_to_serve_down s n = acknowledge-Keeps u (30 * 1000) s
dispatch-Keeps u State.none s n = kept s
dispatch-Keeps u keep_alive s n = kept s
dispatch-Keeps u inside_button_pressed s n = kept s
dispatch-Keeps u served s n = kept s
dispatch-Keeps u other_change s n = kept s

-- The state change of another node is stored and handled without a failure.
pub record Stores (u : StateChange) (s s' : Scheduler) : Type 0 where
  pub stored :
      s'.global_state.elevators ≡ GlobalState.put u.state.id u.state s.global_state.elevators
  pub same_out : s'.state_update_out ≡ s.state_update_out
  pub same_id : s'.local_elev_id ≡ s.local_elev_id

handle_update-Stores :
    (u : StateChange) (s : Scheduler)
    → u.state.id ≢ s.local_elev_id
    → (s' : Scheduler) × (handle_update u s ≡ (s', ok tt)) × Stores u s s'
unfolding handle_update GlobalState.update GlobalState.update_buttons
handle_update-Stores u s n =
    let e = other_id u.state.id s.local_elev_id n in
    rw e (finish (dispatch-Keeps u u.change_type known e))
  where
    known : Scheduler
    known = record s { global_state = GlobalState.update u.state s.global_state }

    finish :
        Keeps known (dispatch u u.change_type known)
        → (s' : Scheduler) × (dispatch u u.change_type known ≡ (s', ok tt)) × Stores u s s'
    finish k = (
      (dispatch u u.change_type known).0,
      ap (λ o. ((dispatch u u.change_type known).0, o)) k.returns,
      record { stored = k.same_elevators; same_out = k.same_out; same_id = k.same_id },
    )

-- State changes of other nodes, one after another.
pub handle_all : List StateChange → M (Unit {0})
handle_all [] = modify (λ s. s)
handle_all (u ∷ us) = do handle_update u; handle_all us

abbrev pub states : List StateChange → List ElevatorState
states [] = []
states (u ∷ us) = u.state ∷ states us

updates-same :
    (ss : List ElevatorState) (g h : GlobalState)
    → g.elevators ≡ h.elevators
    → (updates ss g).elevators ≡ (updates ss h).elevators
unfolding updates GlobalState.update GlobalState.update_buttons
updates-same [] g h e = e
updates-same (s ∷ ss) g h e =
    updates-same ss (GlobalState.update s g) (GlobalState.update s h)
      (ap (GlobalState.put s.id s) e)

pub handle_all-updates :
    (us : List StateChange) (s : Scheduler)
    → All (λ (u : StateChange). u.state.id ≢ s.local_elev_id) us
    → (s' : Scheduler) × (handle_all us s ≡ (s', ok tt))
      × (s'.global_state.elevators ≡ (updates (states us) s.global_state).elevators)
      × (s'.state_update_out ≡ s.state_update_out)
unfolding handle_all updates GlobalState.update GlobalState.update_buttons
handle_all-updates [] s h = (s, refl, refl, refl)
handle_all-updates (u ∷ us) s h =
    let (t, e, k) = handle_update-Stores u s h.0 in
    let (s', f, elevators, out) =
      handle_all-updates us t
        (subst (λ i. All (λ (u : StateChange). u.state.id ≢ i) us) (sym k.same_id) h.1) in
    (
      s',
      rw (handle_all, e) f,
      elevators
          ∙ updates-same (states us) t.global_state (GlobalState.update u.state s.global_state)
              k.stored,
      out ∙ k.same_out,
    )
