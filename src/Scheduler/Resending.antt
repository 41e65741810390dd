-- ===== src/Scheduler/Resending.antt =====
-- elevator/scheduler.cpp, _resendRequest: a request whose deadline has passed is sent again.
use mathlib.Core.List.{append-nil}
use ttk.Prelude.{
  ℕ, suc, ◌<◌, ◌≤◌, ◌≡◌, refl, sym, arith, true, false, ◌||◌, [], ◌∷◌, ltb, All, lt→ltb, ◌⊎◌, inl,
  inr, if◌then◌else◌,
}
use ttk.Prelude.Int.{ℤ}
use ttk.Outcome.{Outcome, ok, failed}
use ttk.Driver.{ButtonType, call_up, call_down}
use ttk.State.{ElevatorState}
use ttk.RequestQueue.{TimePoint, Request, not_acknowledged, not_done, update_deadline, insert}
use ttk.RequestQueue.Sorted.{push-insert}
use ttk.Scheduler.{
  Scheduler, to_milliseconds, steady_now, forward_to_targets, optimal_elevator, choose_elevator,
  push_request, retarget, resend_request, is_call_to_go_up, is_not_done,
}
use ttk.Scheduler.Choosing.{IsAlive, IsBest, Numbered, Sensible, choose_elevator-IsBest}
use ttk.Scheduler.Serving.{Sends, forward-Sends}

-- The way of the call, as `_resendRequest` reads it off the command.
abbrev pub way : Request → ButtonType
way r = if is_call_to_go_up r.command.command_type then call_up else call_down

-- The request as it is sent once more, and as it is given to another elevator.
abbrev pub again : Request → Request
again r = record r { repeated = suc r.repeated }

abbrev pub given_to : ℤ → Request → Request
given_to i r = record r {
  repeated = suc r.repeated;
  command = record r.command { target_elevator_id = i };
  type = not_acknowledged;
}

-- The request was sent and stands in the queue with a new deadline.
abbrev pub Resent : Request → TimePoint → Scheduler → Scheduler → Type 0
Resent r t s s' =
    Sends (r.command ∷ []) s s'
    × (s'.global_state.requests ≡ insert (update_deadline t r) s.global_state.requests)

resent : Request → Scheduler → Scheduler
resent q u =
    (forward_to_targets q.command
      (push_request (update_deadline (u.clock u.readings) q) (steady_now u).0).0).0

resent-Resent : (q : Request) (u : Scheduler) → Resent q (u.clock u.readings) u (resent q u)
unfolding resent push_request steady_now forward_to_targets
resent-Resent q u =
    let f =
      forward-Sends q.command
        (push_request (update_deadline (u.clock u.readings) q) (steady_now u).0).0 in
    (
      record {
        same_id = f.same_id;
        same_elevators = f.same_elevators;
        same_in = f.same_in;
        same_out = f.same_out;
        local = f.local;
        remote = f.remote;
      },
      push-insert _ u.global_state.requests,
    )

-- The request was sent too often, or was not served in time.
abbrev pub IsOverdue : Request → Type 0
IsOverdue r = (3 ≤ r.repeated) ⊎ (r.type ≡ not_done)

overdue : (r : Request) → IsOverdue r → (ltb 3 (suc r.repeated) || is_not_done r.type) ≡ true
overdue r (inl h) =
    let e : ltb 3 (suc r.repeated) ≡ true = lt→ltb 3 (suc r.repeated) (omega arith) in rw e refl
overdue r (inr h) = rw h (ground arith)

module _ (s : Scheduler) (r : Request) where
  abbrev at_ms : ℕ
  at_ms = to_milliseconds (s.clock s.readings)

  abbrev choice : Outcome ℤ
  choice = choose_elevator s.bounds at_ms (way r) r.command.target_floor s.global_state.elevators

  -- An unacknowledged request that was repeated less than three times is sent to the same elevator
  -- once more and queued with a new deadline, counted as repeated once more.
  pub resend_request-again :
      r.repeated < 3
      → r.type ≡ not_acknowledged
      → (s' : Scheduler) × (resend_request r s ≡ (s', ok tt))
        × Resent (again r) (s.clock s.readings) s s'
  unfolding resend_request resent forward_to_targets push_request steady_now
  resend_request-again few n =
      let e : ltb 3 (suc r.repeated) ≡ false = ground arith in
      (resent (again r) s, rw (e, n) refl, resent-Resent (again r) s)

  resend-chosen :
      (i : ℤ)
      → IsOverdue r
      → choice ≡ ok i
      → resend_request r s ≡ (resent (given_to i r) (steady_now s).0, ok tt)
  unfolding resend_request resent forward_to_targets push_request steady_now retarget
      optimal_elevator
  resend-chosen i o e = rw (overdue r o, e) refl

  resend-none : IsOverdue r → choice ≡ failed → resend_request r s ≡ ((steady_now s).0, failed)
  unfolding resend_request resent forward_to_targets push_request steady_now retarget
      optimal_elevator
  resend-none o e = rw (overdue r o, e) refl

  -- A request that was repeated three times (and so sent four times) or was not served in time
  -- either is given to a best elevator, sent there and queued with a new deadline, or, where no
  -- elevator is alive, the assertion fails and the request is neither queued nor sent. The known
  -- identifiers are from 0 on, the last floors of the elevators and the floor of the request are
  -- in bounds, and there are fewer than a million floors.
  pub resend_request-overdue :
      Numbered s.bounds at_ms (way r) r.command.target_floor s.global_state.elevators
      → Sensible s.bounds at_ms (way r) r.command.target_floor s.global_state.elevators
      → IsOverdue r
      → ((i : ℤ) × (s' : Scheduler) × (resend_request r s ≡ (s', ok tt))
          × IsBest s.bounds at_ms (way r) r.command.target_floor s.global_state.elevators i
          × Resent (given_to i r) (s.clock (suc s.readings)) s s')
        ⊎ ((s' : Scheduler) × (resend_request r s ≡ (s', failed))
            × (s'.global_state ≡ s.global_state)
            × Sends [] s s'
            × All
                (λ (e : ℤ × ElevatorState).
                  ¬ IsAlive s.bounds at_ms (way r) r.command.target_floor e.1)
                s.global_state.elevators)
  unfolding steady_now
  resend_request-overdue ids sensible o =
      elim (choose_elevator-IsBest s.bounds at_ms (way r) r.command.target_floor
        s.global_state.elevators ids sensible).1 [
          | inl (i, e, best) ↦
              let (f, q) = resent-Resent (given_to i r) (steady_now s).0 in
              inl (
                i,
                resent (given_to i r) (steady_now s).0,
                resend-chosen i o e,
                best,
                (
                  record {
                    same_id = f.same_id;
                    same_elevators = f.same_elevators;
                    same_in = f.same_in;
                    same_out = f.same_out;
                    local = f.local;
                    remote = f.remote;
                  },
                  q,
                ),
              )
          | inr (e, none_left) ↦ inr (
            (steady_now s).0,
            resend-none o e,
            refl,
            record {
              same_id = refl;
              same_elevators = refl;
              same_in = refl;
              same_out = refl;
              local = sym (append-nil s.commands_to_local.queue);
              remote = sym (append-nil s.commands_to_remote.queue);
            },
            none_left,
          )
        ]
