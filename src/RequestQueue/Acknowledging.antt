-- ===== src/RequestQueue/Acknowledging.antt =====
-- elevator/requestqueue.cpp, ackRequest: the life of the request of a call.
use ttk.Prelude.{
  ℕ, ◌+◌, ◌≡◌, ◌≢◌, refl, sym, ap, ◌∙◌, arith, Bool, true, false, ◌&&◌, some, if◌then◌else◌,
}
use ttk.Prelude.Int.{ℤ, ==ℤ_iff, ◌==ℤ◌}
use ttk.Command.{Command, CommandType, call_to_floor_and_go_up, call_to_floor_and_go_down}
use ttk.State.{
  ChangeType, ElevatorState, StateChange, going_to_serve_up, going_to_serve_down, served_up,
  served_down, same_change,
}
use ttk.RequestQueue.{
  Request, TimePoint, not_acknowledged, not_done, done, milliseconds, trigger_type, matches, tweak,
  ack_one, is_not_acknowledged,
}

-- A call up or down, and the changes that report on it.
abbrev pub call_type : Bool → CommandType
call_type up = if up then call_to_floor_and_go_up else call_to_floor_and_go_down

abbrev pub going : Bool → ChangeType
going up = if up then going_to_serve_up else going_to_serve_down

abbrev pub served : Bool → ChangeType
served up = if up then served_up else served_down

abbrev pub report : ChangeType → ℤ → ElevatorState → StateChange
report c f s = record { change_type = c; change_floor = f; state = s }

pub matches-report :
    (c : ChangeType) (f : ℤ) (r : Request) (s : ElevatorState)
    → s.id ≡ r.command.target_elevator_id
    → f ≡ r.command.target_floor
    → matches (report c f s) r ≡ same_change (trigger_type r) c
unfolding matches
matches-report c f r s i j =
    rw (i, j, same r.command.target_elevator_id, same r.command.target_floor)
      (both (same_change (trigger_type r) c))
  where
    same : (z : ℤ) → (z ==ℤ z) ≡ true
    same z = (==ℤ_iff z z).1 refl

    both : (b : Bool) → b && true ≡ b
    both true = refl
    both false = refl

trigger-new :
    (up : Bool) (r : Request)
    → r.type ≡ not_acknowledged
    → r.command.command_type ≡ call_type up
    → trigger_type r ≡ going up
unfolding trigger_type
trigger-new true r n c = rw (n, c) refl
trigger-new false r n c = rw (n, c) refl

pub trigger-going :
    (up : Bool) (r : Request)
    → is_not_acknowledged r.type ≡ false
    → r.command.command_type ≡ call_type up
    → trigger_type r ≡ served up
unfolding trigger_type
trigger-going true r n c = rw c (ap (λ b. if b then going_to_serve_up else served_up) n)
trigger-going false r n c = rw c (ap (λ b. if b then going_to_serve_down else served_down) n)

same-going : (up : Bool) → same_change (going up) (going up) ≡ true
unfolding same_change
same-going true = refl
same-going false = refl

pub same-served : (up : Bool) → same_change (served up) (served up) ≡ true
unfolding same_change
same-served true = refl
same-served false = refl

going-ne_served : (up : Bool) → same_change (going up) (served up) ≡ false
unfolding same_change
going-ne_served true = refl
going-ne_served false = refl

pub served-ne_going : (up : Bool) → same_change (served up) (going up) ≡ false
unfolding same_change
served-ne_going true = refl
served-ne_going false = refl

-- The request of a call after the elevator said that it goes to serve it.
abbrev served_next : ℕ → TimePoint → Request → Request
served_next delta t r = record (tweak delta t (record r { type = not_done })) { repeated = 0 }

ack-going :
    (c : StateChange) (delta : ℕ) (t : TimePoint) (r : Request)
    → r.type ≡ not_acknowledged
    → matches c r ≡ true
    → ack_one c delta t r ≡ served_next delta t r
unfolding ack_one
ack-going c delta t r n m = rw (m, n) refl

ack-served :
    (c : StateChange) (t : TimePoint) (r : Request)
    → r.type ≡ not_done
    → matches c r ≡ true
    → (ack_one c 0 t r).type ≡ done
unfolding ack_one tweak
ack-served c t r n m = rw (m, n) refl

ack-unmatched :
    (c : StateChange) (delta : ℕ) (t : TimePoint) (r : Request)
    → matches c r ≡ false
    → ack_one c delta t r ≡ r
unfolding ack_one
ack-unmatched c delta t r m = ground (arith, m)

served_next-deadline :
    (delta : ℕ) (t : TimePoint) (r : Request)
    → delta ≢ 0
    → (served_next delta t r).tweaked_deadline ≡ some (t + milliseconds delta)
unfolding tweak
served_next-deadline delta t r d = ground arith

served_next-same :
    (delta : ℕ) (t : TimePoint) (r : Request)
    → ((served_next delta t r).type ≡ not_done) × ((served_next delta t r).command ≡ r.command)
unfolding tweak
served_next-same delta t r = ground arith

-- For an unacknowledged call, the target's report that it goes there makes the request wait for
-- the service until the given new deadline, and the report of the service then makes it done; a
-- report of the service alone changes nothing.
pub ack_one-lifecycle :
    (up : Bool) (r : Request) (s s' : ElevatorState) (delta : ℕ) (t t' : TimePoint)
    → r.type ≡ not_acknowledged
    → r.command.command_type ≡ call_type up
    → s.id ≡ r.command.target_elevator_id
    → s'.id ≡ r.command.target_elevator_id
    → delta ≢ 0
    → (r' : Request) × (ack_one (report (going up) r.command.target_floor s) delta t r ≡ r')
      × (r'.type ≡ not_done)
      × (r'.tweaked_deadline ≡ some (t + milliseconds delta))
      × ((ack_one (report (served up) r.command.target_floor s') 0 t' r').type ≡ done)
      × (ack_one (report (served up) r.command.target_floor s') 0 t' r ≡ r)
ack_one-lifecycle up r s s' delta t t' n c i i' d =
    let r' = served_next delta t r in
    let (type, command) = served_next-same delta t r in
    let found =
      matches-report (going up) _ r s i refl ∙ rw (trigger-new up r n c) (same-going up) in
    let seen =
      matches-report (served up) r.command.target_floor r' s'
        (i' ∙ sym (ap (λ (k : Command). k.target_elevator_id) command))
        (sym (ap (λ (k : Command). k.target_floor) command))
      ∙ rw
          (trigger-going up r' (ap is_not_acknowledged type)
            (ap (λ (k : Command). k.command_type) command ∙ c))
          (same-served up) in
    let unseen =
      matches-report (served up) _ r s' i' refl ∙ rw (trigger-new up r n c) (going-ne_served up) in
    (
      r',
      ack-going (report (going up) r.command.target_floor s) delta t r n found,
      type,
      served_next-deadline delta t r d,
      ack-served _ t' r' type seen,
      ack-unmatched (report (served up) r.command.target_floor s') 0 t' r unseen,
    )
