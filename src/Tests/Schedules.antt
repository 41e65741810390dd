-- ===== src/Tests/Schedules.antt =====
-- elevator/globalstate.h and elevator/scheduler.cpp with two elevators on four floors.
use ttk.Prelude.{ℕ, ◌+◌, ◌≡◌, refl, ◌↔◌, ◌⊎◌, inl, true, false, List, [], ◌∷◌, All, none, arith}
use ttk.Prelude.Int.{ℤ, pos}
use ttk.Outcome.{ok, failed}
use ttk.Driver.{stay, up, call_up, InBounds}
use ttk.Driver.Ops.{driver_info}
use ttk.FloorSet.{Has}
use ttk.Command.{call_to_floor_and_go_up}
use ttk.State.{ElevatorState}
use ttk.RequestQueue.{Request, not_acknowledged, done}
use ttk.GlobalState.{update, new_global_state}
use ttk.GlobalState.Lookup.{updates}
use ttk.GlobalState.Buttons.{Known, update-Has}
use ttk.Scheduler.{Scheduler, choose_elevator, resend_request, handle_update}
use ttk.Scheduler.Costs.{plain, price}
use ttk.Scheduler.Choosing.{IsAlive, IsBest, Numbered, Sensible, choose_elevator-IsBest}
use ttk.RequestQueue.Calls.{is_call, others}
use ttk.Scheduler.Lifecycle.{served-done}
use ttk.RequestQueue.Acknowledging.{going, served, report}
use ttk.Scheduler.Serving.{Sends}
use ttk.Scheduler.Resending.{Resent, again, given_to, resend_request-again, resend_request-overdue}

abbrev idle : ℤ → ℤ → ElevatorState
idle i f = record {
  id = i;
  timestamp = 1000;
  last_floor = f;
  direction = stay;
  stopped = false;
  door_open = false;
  inside_buttons = record { floors = 0 };
  up_buttons = record { floors = 2 };
  down_buttons = record { floors = 0 };
}

abbrev pub near : ElevatorState
near = idle (pos 1) (pos 3)

abbrev pub far : ElevatorState
far = record (idle (pos 0) (pos 1)) { direction = up }

abbrev both : List (ℤ × ElevatorState)
both = (pos 0, far) ∷ (pos 1, near) ∷ []

abbrev pub node : Scheduler
node = record {
  local_elev_id = pos 0;
  bounds = driver_info;
  global_state = record {
    up_buttons = record { floors = 2 };
    down_buttons = record { floors = 0 };
    elevators = both;
    requests = [];
  };
  state_update_in = record { queue = [] };
  state_update_out = record { queue = [] };
  commands_to_remote = record { queue = [] };
  commands_to_local = record { queue = [] };
  sched_beat = 0;
  req_beat = 0;
  clock = λ n. 1200000000 + n;
  readings = 0;
}

update-Has_example :
    let g = update near (updates (far ∷ []) new_global_state) in
    (Has g.up_buttons driver_info (pos 2) ↔ Known (λ e. e.up_buttons) driver_info (pos 2) g)
    × (Has g.down_buttons driver_info (pos 2) ↔ Known (λ e. e.down_buttons) driver_info (pos 2) g)
update-Has_example = update-Has (far ∷ []) near driver_info (pos 2)

both-Numbered : Numbered driver_info 1200 call_up (pos 4) both
both-Numbered = (omega arith, (omega arith, tt))

both-Sensible : (f : ℤ) → InBounds f driver_info → Sensible driver_info 1200 call_up f both
both-Sensible f h = record {
  last_floors = (
    record { above_min = omega arith; below_max = omega arith },
    (record { above_min = omega arith; below_max = omega arith }, tt),
  );
  call_floor = h;
  few_floors = omega arith;
}

choose_elevator-IsBest_example :
    All
      (λ (e : ℤ × ElevatorState).
        price driver_info 1200 call_up (pos 4) e.1
        ≡ pos (plain driver_info 1200 call_up (pos 4) e.1))
      both
    × (((i : ℤ) × (choose_elevator driver_info 1200 call_up (pos 4) both ≡ ok i)
          × IsBest driver_info 1200 call_up (pos 4) both i)
        ⊎ ((choose_elevator driver_info 1200 call_up (pos 4) both ≡ failed)
            × All (λ (e : ℤ × ElevatorState). ¬ IsAlive driver_info 1200 call_up (pos 4) e.1) both))
choose_elevator-IsBest_example =
    choose_elevator-IsBest driver_info 1200 call_up (pos 4) both both-Numbered
      (both-Sensible (pos 4) (record { above_min = omega arith; below_max = omega arith }))

abbrev waiting_call : ℕ → Request
waiting_call n = record {
  type = not_acknowledged;
  repeated = n;
  command = record {
    command_type = call_to_floor_and_go_up;
    target_elevator_id = pos 1;
    target_floor = pos 2;
  };
  deadline_delta = 100;
  deadline = 0;
  tweaked_deadline = none;
}

resend_request-again_example :
    (s' : Scheduler) × (resend_request (waiting_call 1) node ≡ (s', ok tt))
    × Resent (again (waiting_call 1)) 1200000000 node s'
resend_request-again_example = resend_request-again node (waiting_call 1) (omega arith) refl

resend_request-overdue_example :
    ((i : ℤ) × (s' : Scheduler) × (resend_request (waiting_call 3) node ≡ (s', ok tt))
      × IsBest driver_info 1200 call_up (pos 2) both i
      × Resent (given_to i (waiting_call 3)) 1200000001 node s')
    ⊎ ((s' : Scheduler) × (resend_request (waiting_call 3) node ≡ (s', failed))
        × (s'.global_state ≡ node.global_state)
        × Sends [] node s'
        × All (λ (e : ℤ × ElevatorState). ¬ IsAlive driver_info 1200 call_up (pos 2) e.1) both)
resend_request-overdue_example =
    resend_request-overdue node (waiting_call 3) (omega arith, (omega arith, tt))
      (both-Sensible (pos 2) (record { above_min = omega arith; below_max = omega arith }))
      (inl (omega arith))

-- One call that waits to be acknowledged, and one that is done.
abbrev busy : Scheduler
busy = record node {
  global_state = record node.global_state {
    requests = waiting_call 1 ∷ record (waiting_call 0) { type = done } ∷ [];
  };
}

served-done_example :
    (s₁ : Scheduler) × (s₂ : Scheduler) × (handle_update (report (going true) (pos 2) near) busy
      ≡ (s₁, ok tt))
    × (handle_update (report (served true) (pos 2) near) s₁ ≡ (s₂, ok tt))
    × All
        (λ (r : Request). is_call true (pos 1) (pos 2) r.command ≡ true → r.type ≡ done)
        s₂.global_state.requests
    × (others true (pos 1) (pos 2) s₂.global_state.requests
        ≡ others true (pos 1) (pos 2) busy.global_state.requests)
served-done_example = served-done true (pos 1) (pos 2) near near busy refl refl
