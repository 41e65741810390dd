-- ===== src/Scheduler/Serving.antt =====
-- elevator/scheduler.cpp, _handleButtonPress: what a press of a call button sends.
use mathlib.Core.List.{append_assoc, append-nil}
use ttk.Prelude.{
  suc, ◌<◌, ◌≡◌, refl, sym, ap, subst, ◌∙◌, Bool, true, false, ◌||◌, List, [], ◌∷◌, ◌++◌, In,
  if◌then◌else◌,
}
use ttk.Prelude.Int.{ℤ, ◌==ℤ◌, ==ℤ_iff}
use ttk.Outcome.{ok}
use ttk.Driver.{ButtonType, InBounds}
use ttk.Command.{Command, any_id}
use ttk.State.{ElevatorState}
use ttk.ConcurrentQueue.{enqueue}
use ttk.RequestQueue.{new_request, insert}
use ttk.RequestQueue.Sorted.{push-insert}
use ttk.Scheduler.{
  Scheduler, to_milliseconds, steady_now, forward_to_targets, optimal_elevator, choose_elevator,
  push_request, add_and_forward_request, handle_button_press, light_command, call_command, range,
}
use ttk.Scheduler.Choosing.{IsAlive, IsBest, Numbered, choose_elevator-found}

-- The commands that go to the own elevator and to the other nodes.
abbrev pub to_local : ℤ → List Command → List Command
to_local id [] = []
to_local id (c ∷ cs) =
    (if (c.target_elevator_id ==ℤ any_id) || (c.target_elevator_id ==ℤ id) then c ∷ [] else [])
    ++ to_local id cs

abbrev pub to_remote : ℤ → List Command → List Command
to_remote id [] = []
to_remote id (c ∷ cs) = (if c.target_elevator_id ==ℤ id then [] else c ∷ []) ++ to_remote id cs

-- The commands were sent to their targets, in this order, and the states and the other queues were
-- left.
pub record Sends (cs : List Command) (s s' : Scheduler) : Type 0 where
  pub same_id : s'.local_elev_id ≡ s.local_elev_id
  pub same_elevators : s'.global_state.elevators ≡ s.global_state.elevators
  pub same_in : s'.state_update_in ≡ s.state_update_in
  pub same_out : s'.state_update_out ≡ s.state_update_out
  pub local : s'.commands_to_local.queue ≡ s.commands_to_local.queue ++ to_local s.local_elev_id cs
  pub remote :
      s'.commands_to_remote.queue ≡ s.commands_to_remote.queue ++ to_remote s.local_elev_id cs

gather : (a b x y u : List Command) → b ≡ a ++ (x ++ []) → u ≡ b ++ y → u ≡ a ++ (x ++ y)
gather a b x y u e f =
    f ∙ ap (λ t. t ++ y) (e ∙ ap (λ t. a ++ t) (append-nil x)) ∙ append_assoc a x y

pub forward-Sends : (c : Command) (s : Scheduler) → Sends (c ∷ []) s (forward_to_targets c s).0
unfolding forward_to_targets enqueue
forward-Sends c s = record {
  same_id = refl;
  same_elevators = refl;
  same_in = refl;
  same_out = refl;
  local = queued ((c.target_elevator_id ==ℤ any_id) || (c.target_elevator_id ==ℤ s.local_elev_id));
  remote = kept (c.target_elevator_id ==ℤ s.local_elev_id);
}
  where
    queued :
        (b : Bool)
        → (if b then enqueue c s.commands_to_local else s.commands_to_local).queue
          ≡ s.commands_to_local.queue ++ ((if b then c ∷ [] else []) ++ [])
    queued true = refl
    queued false = sym (append-nil s.commands_to_local.queue)

    kept :
        (b : Bool)
        → (if b then s.commands_to_remote else enqueue c s.commands_to_remote).queue
          ≡ s.commands_to_remote.queue ++ ((if b then [] else c ∷ []) ++ [])
    kept true = sym (append-nil s.commands_to_remote.queue)
    kept false = refl

pub Sends-then :
    (c : Command) (cs : List Command) (s t u : Scheduler)
    → Sends (c ∷ []) s t
    → Sends cs t u
    → Sends (c ∷ cs) s u
Sends-then c cs s t u h k = record {
  same_id = k.same_id ∙ h.same_id;
  same_elevators = k.same_elevators ∙ h.same_elevators;
  same_in = k.same_in ∙ h.same_in;
  same_out = k.same_out ∙ h.same_out;
  local = gather _ _ _ _ _ h.local (
      subst (λ i. u.commands_to_local.queue ≡ t.commands_to_local.queue ++ to_local i cs) h.same_id
        k.local);
  remote = gather _ _ _ _ _ h.remote (
      subst (λ i. u.commands_to_remote.queue ≡ t.commands_to_remote.queue ++ to_remote i cs)
        h.same_id k.remote);
}

module _ (s : Scheduler) (type : ButtonType) (floor i : ℤ) where
  -- The light is sent, the clock is read, and the request is added.
  lit : Scheduler
  lit = (steady_now (forward_to_targets (light_command type floor) s).0).0

  pressed : Scheduler
  pressed = (add_and_forward_request (call_command type i floor) lit).0

  press-pressed :
      choose_elevator s.bounds
          (to_milliseconds (s.clock s.readings))
          type
          floor
          s.global_state.elevators
        ≡ ok i
      → handle_button_press s.local_elev_id type floor s ≡ (pressed, ok tt)
  unfolding lit pressed handle_button_press add_and_forward_request optimal_elevator steady_now
      forward_to_targets push_request
  press-pressed e = rw ((==ℤ_iff s.local_elev_id s.local_elev_id).1 refl, e) refl

  pressed-Sends : Sends (light_command type floor ∷ call_command type i floor ∷ []) s pressed
  unfolding lit pressed add_and_forward_request steady_now push_request forward_to_targets
  pressed-Sends =
      let first = forward-Sends (light_command type floor) s in
      let second =
        forward-Sends (call_command type i floor)
          (push_request (new_request (call_command type i floor) 100 (s.clock (suc s.readings)))
            (record lit { readings = suc lit.readings })).0 in
      Sends-then (light_command type floor) (call_command type i floor ∷ []) s lit pressed
        (record {
          same_id = first.same_id;
          same_elevators = first.same_elevators;
          same_in = first.same_in;
          same_out = first.same_out;
          local = first.local;
          remote = first.remote;
        })
        (record {
          same_id = second.same_id;
          same_elevators = second.same_elevators;
          same_in = second.same_in;
          same_out = second.same_out;
          local = second.local;
          remote = second.remote;
        })

  pressed-requests :
      pressed.global_state.requests
      ≡ insert
          (new_request (call_command type i floor) 100 (s.clock (suc s.readings)))
          s.global_state.requests
  unfolding lit pressed add_and_forward_request steady_now push_request forward_to_targets
  pressed-requests = push-insert _ s.global_state.requests

-- What a press sends, once the elevator is found.
pub press-Sends :
    (s : Scheduler) (type : ButtonType) (floor i : ℤ)
    → choose_elevator s.bounds
        (to_milliseconds (s.clock s.readings))
        type
        floor
        s.global_state.elevators
      ≡ ok i
    → (s' : Scheduler) × (handle_button_press s.local_elev_id type floor s ≡ (s', ok tt))
      × Sends (light_command type floor ∷ call_command type i floor ∷ []) s s'
press-Sends s type floor i e =
    (pressed s type floor i, press-pressed s type floor i e, pressed-Sends s type floor i)

pub handle_button_press-local :
    (s : Scheduler) (type : ButtonType) (floor k : ℤ) (e : ElevatorState)
    → let now = to_milliseconds (s.clock s.readings) in
      Numbered s.bounds now type floor s.global_state.elevators
      → In (k, e) s.global_state.elevators
      → IsAlive s.bounds now type floor e
      → InBounds e.last_floor s.bounds
      → InBounds floor s.bounds
      → range s.bounds < 1000000
      → (i : ℤ) × (s' : Scheduler) × (handle_button_press s.local_elev_id type floor s
          ≡ (s', ok tt))
        × IsBest s.bounds
            (to_milliseconds (s.clock s.readings))
            type
            floor
            s.global_state.elevators
            i
        × Sends (light_command type floor ∷ call_command type i floor ∷ []) s s'
        × (s'.global_state.requests
            ≡ insert
                (new_request (call_command type i floor) 100 (s.clock (suc s.readings)))
                s.global_state.requests)
handle_button_press-local s type floor k e ids m h b c small =
    let (i, found, best) =
      choose_elevator-found s.bounds (to_milliseconds (s.clock s.readings)) type floor
        s.global_state.elevators k e ids m h b c small in
    (
      i,
      pressed s type floor i,
      press-pressed s type floor i found,
      best,
      pressed-Sends s type floor i,
      pressed-requests s type floor i,
    )
