-- ===== src/Scheduler/Lifecycle.antt =====
-- elevator/scheduler.cpp, _schedLoop, with elevator/requestqueue.cpp: a call that is served.
use ttk.Prelude.{◌*◌, ◌≡◌, refl, sym, ap, ◌∙◌, subst, Bool, true, false, All}
use ttk.Prelude.Int.{ℤ}
use ttk.Outcome.{ok}
use ttk.State.{ElevatorState}
use ttk.GlobalState
use ttk.RequestQueue.{Request, done, ack_request}
use ttk.RequestQueue.Acknowledging.{going, served, report}
use ttk.Scheduler.{
  Scheduler, handle_update, dispatch, acknowledge, handle_served, steady_now, forward_to_targets,
}
use ttk.RequestQueue.Calls.{is_call, others, queue-done, queue-others}

-- What the two reports make of the queue.
gone-queue :
    (up : Bool) (floor : ℤ) (e : ElevatorState) (s : Scheduler)
    → (s' : Scheduler) × (handle_update (report (going up) floor e) s ≡ (s', ok tt))
      × (s'.global_state.requests
          ≡ ack_request
              (report (going up) floor e)
              (30 * 1000)
              (s.clock s.readings)
              s.global_state.requests)
unfolding handle_update dispatch acknowledge steady_now GlobalState.update
    GlobalState.update_buttons
gone-queue true floor e s = (_, refl, refl)
gone-queue false floor e s = (_, refl, refl)

finished-queue :
    (up : Bool) (floor : ℤ) (e : ElevatorState) (s : Scheduler)
    → (s' : Scheduler) × (handle_update (report (served up) floor e) s ≡ (s', ok tt))
      × (s'.global_state.requests
          ≡ ack_request (report (served up) floor e) 0 0 s.global_state.requests)
unfolding handle_update dispatch handle_served forward_to_targets GlobalState.update
    GlobalState.update_buttons
finished-queue true floor e s = (_, refl, refl)
finished-queue false floor e s = (_, refl, refl)

-- When elevator `i` reports that it goes to serve a call, and then that it served it, the
-- scheduler handles both reports without a failure, and then every request for this call in its
-- queue is done, in whatever stage it was, while the requests for all other calls are as they
-- were.
pub served-done :
    (up : Bool) (i floor : ℤ) (e e' : ElevatorState) (s : Scheduler)
    → e.id ≡ i
    → e'.id ≡ i
    → (s₁ : Scheduler) × (s₂ : Scheduler) × (handle_update (report (going up) floor e) s
        ≡ (s₁, ok tt))
      × (handle_update (report (served up) floor e') s₁ ≡ (s₂, ok tt))
      × All
          (λ (r : Request). is_call up i floor r.command ≡ true → r.type ≡ done)
          s₂.global_state.requests
      × (others up i floor s₂.global_state.requests ≡ others up i floor s.global_state.requests)
unfolding ack_request
served-done up i floor e e' s same same' =
    let (s₁, f, q₁) = gone-queue up floor e s in
    let (s₂, g, q₂) = finished-queue up floor e' s₁ in
    let q = q₂ ∙ ap (ack_request (report (served up) floor e') 0 0) q₁ in
    (
      s₁,
      s₂,
      f,
      g,
      subst (All (λ (r : Request). is_call up i floor r.command ≡ true → r.type ≡ done)) (sym q)
          (queue-done up i floor e e' same same' (s.clock s.readings) s.global_state.requests),
      ap (others up i floor) q
          ∙ queue-others up i floor e e' same same' (s.clock s.readings) s.global_state.requests,
    )
