-- ===== src/RequestQueue/Calls.antt =====
-- elevator/requestqueue.cpp, ackRequest: what the reports of an elevator make of the requests for a
-- call.
use mathlib.Core.Bool.{false≢true, true≢false}
use ttk.Prelude.{
  ℕ, ◌*◌, ◌≡◌, refl, sym, ap, ◌∙◌, subst, arith, Bool, true, false, not, ◌&&◌, if◌then◌else◌, List,
  [], ◌∷◌, map, All, Bool-cases, inl, inr,
}
use ttk.Prelude.Int.{ℤ, ◌==ℤ◌, ==ℤ_iff}
use ttk.Command.{
  Command, CommandType, nothing, call_to_floor_and_go_up, call_to_floor_and_go_down,
  turn_on_light_up, turn_off_light_up, turn_on_light_down, turn_off_light_down,
}
use ttk.State
use ttk.State.{ElevatorState, StateChange, ChangeType, same_change}
use ttk.RequestQueue.{
  Request, RequestType, TimePoint, not_acknowledged, not_done, done, ack_one, matches, trigger_type,
  tweak, acknowledged, is_not_acknowledged,
}
use ttk.RequestQueue.Acknowledging.{
  call_type, going, served, report, ack_one-lifecycle, trigger-going, matches-report, same-served,
  served-ne_going,
}

abbrev is_call_type : Bool → CommandType → Bool
is_call_type up call_to_floor_and_go_up = up
is_call_type up call_to_floor_and_go_down = not up
is_call_type up _ = false

-- The request of a call up or down that was given to an elevator.
unfoldable pub is_call : Bool → ℤ → ℤ → Command → Bool
is_call up i floor c =
    (c.target_elevator_id ==ℤ i) && is_call_type up c.command_type && (c.target_floor ==ℤ floor)

-- The requests of all other calls.
abbrev pub others : Bool → ℤ → ℤ → List Request → List Request
others up i floor [] = []
others up i floor (r ∷ q) =
    let rest = others up i floor q in if is_call up i floor r.command then rest else r ∷ rest

and-weaken :
    (a b b' c : Bool) → (b' ≡ true → b ≡ true) → (a && b && c) ≡ false → (a && b' && c) ≡ false
and-weaken a b true c f e = rw (f refl) at e
and-weaken true b false c f e = refl
and-weaken false b false c f e = refl

and-parts : (a b c : Bool) → (a && b && c) ≡ true → (a ≡ true) × (b ≡ true) × (c ≡ true)
and-parts true true true e = (refl, refl, refl)
and-parts true true false e = absurd (false≢true e)
and-parts true false c e = absurd (false≢true e)
and-parts false b c e = absurd (false≢true e)

is_call_type-kind : (up : Bool) (t : CommandType) → is_call_type up t ≡ true → t ≡ call_type up
is_call_type-kind true call_to_floor_and_go_up e = refl
is_call_type-kind false call_to_floor_and_go_up e = absurd (false≢true e)
is_call_type-kind true call_to_floor_and_go_down e = absurd (false≢true e)
is_call_type-kind false call_to_floor_and_go_down e = refl
is_call_type-kind up nothing e = absurd (false≢true e)
is_call_type-kind up turn_on_light_up e = absurd (false≢true e)
is_call_type-kind up turn_off_light_up e = absurd (false≢true e)
is_call_type-kind up turn_on_light_down e = absurd (false≢true e)
is_call_type-kind up turn_off_light_down e = absurd (false≢true e)

-- Only a call of this kind is triggered by the two reports.
Triggered : Bool → CommandType → Request → Type 0
Triggered up t r =
    (same_change (trigger_type r) (going up) ≡ true → is_call_type up t ≡ true)
    × (same_change (trigger_type r) (served up) ≡ true → is_call_type up t ≡ true)

module _ (r : Request) where
  other-Triggered : (up : Bool) (t : CommandType) → trigger_type r ≡ State.none → Triggered up t r
  unfolding same_change Triggered
  other-Triggered true t e = rw e ((λ p. absurd (false≢true p)), (λ p. absurd (false≢true p)))
  other-Triggered false t e = rw e ((λ p. absurd (false≢true p)), (λ p. absurd (false≢true p)))

  call-Triggered : (up : Bool) (t : CommandType) → r.command.command_type ≡ t → Triggered up t r
  unfolding trigger_type same_change Triggered
  call-Triggered true call_to_floor_and_go_up e = ((λ p. refl), (λ p. refl))
  call-Triggered false call_to_floor_and_go_down e = ((λ p. refl), (λ p. refl))
  call-Triggered false call_to_floor_and_go_up e = kinds r.type refl
    where
      kinds : (k : RequestType) → r.type ≡ k → Triggered false call_to_floor_and_go_up r
      kinds not_acknowledged f = rw (trigger_type, e, f) ((λ p. p), (λ p. p))
      kinds not_done f = rw (trigger_type, e, f) ((λ p. p), (λ p. p))
      kinds done f = rw (trigger_type, e, f) ((λ p. p), (λ p. p))
  call-Triggered true call_to_floor_and_go_down e = kinds r.type refl
    where
      kinds : (k : RequestType) → r.type ≡ k → Triggered true call_to_floor_and_go_down r
      kinds not_acknowledged f = rw (trigger_type, e, f) ((λ p. p), (λ p. p))
      kinds not_done f = rw (trigger_type, e, f) ((λ p. p), (λ p. p))
      kinds done f = rw (trigger_type, e, f) ((λ p. p), (λ p. p))
  call-Triggered up nothing e = other-Triggered up nothing (rw (trigger_type, e) refl)
  call-Triggered up turn_on_light_up e =
      other-Triggered up turn_on_light_up (rw (trigger_type, e) refl)
  call-Triggered up turn_off_light_up e =
      other-Triggered up turn_off_light_up (rw (trigger_type, e) refl)
  call-Triggered up turn_on_light_down e =
      other-Triggered up turn_on_light_down (rw (trigger_type, e) refl)
  call-Triggered up turn_off_light_down e =
      other-Triggered up turn_off_light_down (rw (trigger_type, e) refl)

-- The two reports of elevator `i` on its way to `floor`: when it goes, and when it is there.
module _ (up : Bool) (i floor : ℤ) (e e' : ElevatorState) (same : e.id ≡ i) (same' : e'.id ≡ i)
    (t : TimePoint) where
  abbrev gone : Request → Request
  gone r = ack_one (report (going up) floor e) (30 * 1000) t r

  abbrev finished : Request → Request
  finished r = ack_one (report (served up) floor e') 0 0 r

  other-unmatched :
      (r : Request)
      → is_call up i floor r.command ≡ false
      → (matches (report (going up) floor e) r ≡ false)
        × (matches (report (served up) floor e') r ≡ false)
  unfolding matches Triggered is_call
  other-unmatched r n =
      let (f, g) = call-Triggered r up r.command.command_type refl in
      (
        subst
            (λ j.
              ((r.command.target_elevator_id ==ℤ j)
                && same_change (trigger_type r) (going up)
                && (r.command.target_floor ==ℤ floor))
              ≡ false)
            (sym same) (and-weaken (r.command.target_elevator_id ==ℤ i) _ _ _ f n),
        subst
            (λ j.
              ((r.command.target_elevator_id ==ℤ j)
                && same_change (trigger_type r) (served up)
                && (r.command.target_floor ==ℤ floor))
              ≡ false)
            (sym same') (and-weaken (r.command.target_elevator_id ==ℤ i) _ _ _ g n),
      )

  other-kept : (r : Request) → is_call up i floor r.command ≡ false → finished (gone r) ≡ r
  unfolding ack_one
  other-kept r n = let (f, g) = other-unmatched r n in rw (f, g) refl

  ack-command :
      (c : StateChange) (d : ℕ) (u : TimePoint) (r : Request)
      → (ack_one c d u r).command ≡ r.command
  unfolding ack_one tweak
  ack-command c d u r = ground arith

  -- The parts of a request of the call.
  record OfCall (r : Request) : Type 0 where
    target : r.command.target_elevator_id ≡ i
    kind : r.command.command_type ≡ call_type up
    place : r.command.target_floor ≡ floor

  is_call-OfCall : (r : Request) → is_call up i floor r.command ≡ true → OfCall r
  unfolding is_call
  is_call-OfCall r h =
      let (a, b, c) = and-parts (r.command.target_elevator_id ==ℤ i) _ _ h in
      record {
        target = (==ℤ_iff r.command.target_elevator_id i).0 a;
        kind = is_call_type-kind up r.command.command_type b;
        place = (==ℤ_iff r.command.target_floor floor).0 c;
      }

  -- Once it was acknowledged, the first report does nothing, and the second one makes it done.
  acknowledged-done :
      (r : Request)
      → OfCall r
      → is_not_acknowledged r.type ≡ false
      → (finished (gone r)).type ≡ done
  unfolding ack_one tweak
  acknowledged-done r h n =
      let trigger = trigger-going up r n h.kind in
      let unseen : matches (report (going up) floor e) r ≡ false =
        matches-report (going up) floor r e (same ∙ sym h.target) (sym h.place)
        ∙ rw trigger (served-ne_going up) in
      let seen : matches (report (served up) floor e') r ≡ true =
        matches-report (served up) floor r e' (same' ∙ sym h.target) (sym h.place)
        ∙ rw trigger (same-served up) in
      rw (unseen, seen) (ends r.type n)
    where
      ends : (k : RequestType) → is_not_acknowledged k ≡ false → acknowledged k ≡ done
      ends not_acknowledged q = absurd (true≢false q)
      ends not_done q = refl
      ends done q = refl

  new-done : (r : Request) → OfCall r → r.type ≡ not_acknowledged → (finished (gone r)).type ≡ done
  new-done r h n =
      let (r', gone_so, _, _, ends, _) =
        ack_one-lifecycle up r e e' (30 * 1000) t 0 n h.kind (same ∙ sym h.target)
          (same' ∙ sym h.target) (omega arith) in
      subst
        (λ f.
          (ack_one (report (served up) f e') 0 0
            (ack_one (report (going up) f e) (30 * 1000) t r)).type
          ≡ done)
        h.place
        (ap (λ x. (ack_one (report (served up) r.command.target_floor e') 0 0 x).type) gone_so
          ∙ ends)

  call-done : (r : Request) → is_call up i floor r.command ≡ true → (finished (gone r)).type ≡ done
  call-done r h = elim (Bool-cases (is_not_acknowledged r.type)) [
    | inl n ↦ new-done r (is_call-OfCall r h) (is_new r.type n)
    | inr n ↦ acknowledged-done r (is_call-OfCall r h) n
  ]
    where
      is_new : (k : RequestType) → is_not_acknowledged k ≡ true → k ≡ not_acknowledged
      is_new not_acknowledged q = refl
      is_new not_done q = absurd (false≢true q)
      is_new done q = absurd (false≢true q)

  same_command : (r : Request) → (finished (gone r)).command ≡ r.command
  same_command r =
      ack-command (report (served up) floor e') 0 0 (gone r)
      ∙ ack-command (report (going up) floor e) (30 * 1000) t r

  -- The whole queue.
  pub queue-done :
      (q : List Request)
      → All
          (λ (r : Request). is_call up i floor r.command ≡ true → r.type ≡ done)
          (map finished (map gone q))
  queue-done [] = tt
  queue-done (r ∷ q) = (
    (λ h. call-done r (subst (λ c. is_call up i floor c ≡ true) (same_command r) h)),
    queue-done q,
  )

  pub queue-others :
      (q : List Request) → others up i floor (map finished (map gone q)) ≡ others up i floor q
  queue-others [] = refl
  queue-others (r ∷ q) = elim (Bool-cases (is_call up i floor r.command)) [
    | inl h ↦ let k = ap (is_call up i floor) (same_command r) ∙ h in rw (k, h) (queue-others q)
    | inr h ↦
        let k = ap (is_call up i floor) (same_command r) ∙ h in
        rw (k, h)
          (ap (λ x. x ∷ others up i floor (map finished (map gone q))) (other-kept r h)
            ∙ ap (λ x. r ∷ x) (queue-others q))
  ]
