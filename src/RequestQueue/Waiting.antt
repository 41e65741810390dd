-- ===== src/RequestQueue/Waiting.antt =====
-- elevator/requestqueue.cpp: what a wait answers.
use mathlib.Core.Bool.{true≢false}
use ttk.Prelude.{
  suc, ◌≤◌, ◌<◌, ◌≡◌, refl, sym, subst, ◌∙◌, arith, Bool, true, false, not, Option, none, some,
  List, [], ◌∷◌, map, leb, All, In, head, tail, Bool-cases, inl, inr, leb→le, le→leb,
}
use ttk.Outcome.{ok}
use ttk.RequestQueue.{
  Request, TimePoint, is_done, is_nothing, top_done, top_tweaked, earliest_deadline, cleaned,
  QueueChange, pushed, acked, apply_change, apply_changes, WakeUp, WaitResult, waiting, stopped,
  take_due, wait_loop,
}
use ttk.RequestQueue.Sorted.{
  Sorted, NotBefore, NotBefore-trans, insert-All, push-insert, ack-NotBefore, apply_changes-Sorted,
}
use ttk.RequestQueue.Cleaning.{cleaned-Cleaned}

-- The readings of the clock in a wait.
abbrev pub readings : TimePoint → List WakeUp → List TimePoint
readings now ws = now ∷ map (λ (w : WakeUp). w.now) ws

-- What other threads push while the waiter sleeps is due later than the waiter's last reading of
-- the clock: a deadline is set in the future.
abbrev pub IsLater : TimePoint → QueueChange → Type 0
IsLater t (pushed r) = t < r.deadline
IsLater t (acked c delta now) = Unit

abbrev pub Fresh : TimePoint → List WakeUp → Type 0
Fresh now [] = Unit
Fresh now (w ∷ ws) = All (IsLater now) w.changes × Fresh w.now ws

-- A request that the wait may return, where `q` is left.
pub record Due (ts : List TimePoint) (q : List Request) (r : Request) : Type 0 where
  pub unfinished : is_done r.type ≡ false
  pub settled : r.tweaked_deadline ≡ none
  pub earliest : NotBefore r.deadline q
  pub reading : TimePoint
  pub was_read : In reading ts
  pub passed : r.deadline ≤ reading

pub data Answer (ts : List TimePoint) (q : List Request) : WaitResult → Type 0 where
  still_waiting : Answer ts q waiting
  no_request : Answer ts q (stopped (ok none))
  request : {r : Request} → Due ts q r → Answer ts q (stopped (ok (some r)))

Answer-later :
    (t : TimePoint) (ts : List TimePoint) (q : List Request) (a : WaitResult)
    → Answer ts q a
    → Answer (t ∷ ts) q a
Answer-later t ts q _ still_waiting = still_waiting
Answer-later t ts q _ no_request = no_request
Answer-later t ts q _ (request d) = request (record {
  unfinished = d.unfinished;
  settled = d.settled;
  earliest = d.earliest;
  reading = d.reading;
  was_read = tail t d.was_read;
  passed = d.passed;
})

nothing-none : (o : Option TimePoint) → is_nothing o ≡ true → o ≡ none
nothing-none none e = refl
nothing-none (some t) e = absurd (true≢false (sym e))

-- Nothing is due before its time.
take_due-later :
    (now : TimePoint) (q : List Request)
    → NotBefore (suc now) q
    → take_due now q ≡ (q, stopped (ok none))
unfolding take_due
take_due-later now [] h = refl
take_due-later now (r ∷ q) h = let e : leb r.deadline now ≡ false = ground (arith, h.0) in rw e refl

take_due-due :
    (now : TimePoint) (r : Request) (q : List Request)
    → r.deadline ≤ now
    → is_nothing r.tweaked_deadline ≡ true
    → take_due now (r ∷ q) ≡ (q, stopped (ok (some r)))
unfolding take_due
take_due-due now r q h n = rw (le→leb r.deadline now h, n) refl

abbrev Answers : List TimePoint → List Request × WaitResult → Type 0
Answers ts a = Answer ts a.0 a.1

not-false : (b : Bool) → not b ≡ false → b ≡ true
not-false true h = refl
not-false false h = absurd (true≢false h)

take_due-Answer :
    (now : TimePoint) (ts : List TimePoint) (c : List Request)
    → Sorted c
    → top_done c ≡ false
    → top_tweaked c ≡ false
    → Answers (now ∷ ts) (take_due now c)
unfolding take_due
take_due-Answer now ts [] s d n = no_request
take_due-Answer now ts (r ∷ q) s d n = elim (Bool-cases (leb r.deadline now)) [
  | inr e ↦ rw e no_request
  | inl e ↦
      let h = leb→le r.deadline now e in
      let set = not-false (is_nothing r.tweaked_deadline) n in
      subst (Answers (now ∷ ts)) (sym (take_due-due now r q h set)) (
        request (record {
          unfinished = d;
          settled = nothing-none r.tweaked_deadline set;
          earliest = s.0;
          reading = now;
          was_read = head ts;
          passed = h;
        }))
]

-- What others do while the waiter sleeps makes nothing due.
apply_changes-later :
    (now : TimePoint) (cs : List QueueChange) (q : List Request)
    → All (IsLater now) cs
    → NotBefore (suc now) q
    → NotBefore (suc now) (apply_changes cs q)
unfolding apply_changes apply_change
apply_changes-later now [] q h k = k
apply_changes-later now (pushed r ∷ cs) q h k =
    apply_changes-later now cs _ h.1 (rw (push-insert r q) (insert-All _ r q h.0 k))
apply_changes-later now (acked c delta t ∷ cs) q h k =
    apply_changes-later now cs _ h.1 (ack-NotBefore c delta t (suc now) q k)

Sorted-NotBefore :
    (now d₀ : TimePoint) (c : List Request)
    → Sorted c
    → leb (earliest_deadline c d₀) now ≡ false
    → NotBefore (suc now) c
unfolding earliest_deadline
Sorted-NotBefore now d₀ [] s e = tt
Sorted-NotBefore now d₀ (r ∷ q) s e =
    let l : suc now ≤ r.deadline = ground (arith, e) in
    (l, NotBefore-trans (suc now) r.deadline q l s.0)

module _ (d₀ now : TimePoint) (w : WakeUp) (ws : List WakeUp) (q : List Request) where
  -- A wait that is not over at once and then sleeps.
  wait_loop-woken :
      leb (earliest_deadline (cleaned q) d₀) now ≡ false
      → w.timed_out ≡ false
      → wait_loop d₀ now (w ∷ ws) q ≡ wait_loop d₀ w.now ws (apply_changes w.changes (cleaned q))
  unfolding wait_loop
  wait_loop-woken e t = rw (wait_loop, e, t) refl

  -- A wait that sleeps until a deadline passes returns nothing, also when the deadline is that of
  -- a request: on a sorted queue, where what other threads push meanwhile is due after the
  -- waiter's last reading of the clock.
  pub wait_loop-timeout :
      Sorted q
      → All (IsLater now) w.changes
      → leb (earliest_deadline (cleaned q) d₀) now ≡ false
      → w.timed_out ≡ true
      → wait_loop d₀ now (w ∷ ws) q ≡ (apply_changes w.changes (cleaned q), stopped (ok none))
  unfolding wait_loop
  wait_loop-timeout s f e t =
      let c = (cleaned-Cleaned q).1 in
      rw (wait_loop, e, t)
        (take_due-later now _ (
          apply_changes-later now w.changes (cleaned q) f
            (Sorted-NotBefore now d₀ (cleaned q) (c.stays_sorted s) e)))

due_now :
    (d₀ now : TimePoint) (ws : List WakeUp) (q : List Request)
    → leb (earliest_deadline (cleaned q) d₀) now ≡ true
    → wait_loop d₀ now ws q ≡ take_due now (cleaned q)
unfolding wait_loop
due_now d₀ now [] q e = rw (wait_loop, e) refl
due_now d₀ now (w ∷ ws) q e = rw (wait_loop, e) refl

wait_loop-last :
    (d₀ now : TimePoint) (q : List Request)
    → leb (earliest_deadline (cleaned q) d₀) now ≡ false
    → wait_loop d₀ now [] q ≡ (cleaned q, waiting)
unfolding wait_loop
wait_loop-last d₀ now q e = rw (wait_loop, e) refl

due-Answer :
    (d₀ now : TimePoint) (ws : List WakeUp) (q : List Request)
    → Sorted q
    → leb (earliest_deadline (cleaned q) d₀) now ≡ true
    → Answers (readings now ws) (wait_loop d₀ now ws q)
due-Answer d₀ now ws q s e =
    let c = (cleaned-Cleaned q).1 in
    subst (Answers (readings now ws)) (sym (due_now d₀ now ws q e))
      (take_due-Answer now _ (cleaned q) (c.stays_sorted s) c.not_done c.not_tweaked)

-- On a sorted queue, where what other threads push during a sleep is due after the waiter's last
-- reading of the clock, a wait never fails its assertion: it goes on, returns nothing, or returns
-- a request that is not done, has no new deadline pending, is due at one of the readings of the
-- clock, and is due no later than what is left in the queue.
pub wait_loop-Answer :
    (d₀ now : TimePoint) (ws : List WakeUp) (q : List Request)
    → Sorted q
    → Fresh now ws
    → Answer (readings now ws) (wait_loop d₀ now ws q).0 (wait_loop d₀ now ws q).1
wait_loop-Answer d₀ now [] q s f = elim (Bool-cases (leb (earliest_deadline (cleaned q) d₀) now)) [
  | inl e ↦ due-Answer d₀ now [] q s e
  | inr e ↦ subst (Answers (now ∷ [])) (sym (wait_loop-last d₀ now q e)) still_waiting
]
wait_loop-Answer d₀ now (w ∷ ws) q s f =
    let c = (cleaned-Cleaned q).1 in
    let later =
      wait_loop-Answer d₀ w.now ws _ (apply_changes-Sorted w.changes _ (c.stays_sorted s)) f.1 in
    elim (Bool-cases (leb (earliest_deadline (cleaned q) d₀) now)) [
      | inl e ↦ due-Answer d₀ now (w ∷ ws) q s e
      | inr e ↦ elim (Bool-cases w.timed_out) [
        | inl t ↦
            subst (Answers (readings now (w ∷ ws)))
              (sym (wait_loop-timeout d₀ now w ws q s f.0 e t)) no_request
        | inr t ↦
            subst (Answers (readings now (w ∷ ws))) (sym (wait_loop-woken d₀ now w ws q e t))
              (Answer-later now _ _ _ later)
      ]
    ]

-- When the top of the cleaned queue is due, the wait returns it at once and removes it.
pub wait_loop-due :
    (d₀ now : TimePoint) (ws : List WakeUp) (r : Request) (q rest : List Request)
    → cleaned q ≡ r ∷ rest
    → r.deadline ≤ now
    → wait_loop d₀ now ws q ≡ (rest, stopped (ok (some r)))
unfolding earliest_deadline
wait_loop-due d₀ now ws r q rest e h =
    let untweaked = subst (λ c. top_tweaked c ≡ false) e (cleaned-Cleaned q).1.not_tweaked in
    due_now d₀ now ws q (rw e (ground arith))
    ∙ rw e (take_due-due now r rest h (not-false (is_nothing r.tweaked_deadline) untweaked))
