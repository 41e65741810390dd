-- ===== src/ConcurrentQueue/Fifo.antt =====
-- elevator/concurrentqueue.h: items come out in the order in which they went in, over any sequence
-- of calls by any threads.
use mathlib.Core.List.{append-nil, append_assoc}
use ttk.Prelude.{List, [], ◌∷◌, ◌++◌, Option, none, some, ◌≡◌, refl, sym, ap, ◌∙◌, ◌↔◌}
use ttk.ConcurrentQueue.{
  ConcurrentQueue, enqueue, try_dequeue, dequeue, timeout_dequeue, take_front,
}

-- One call of an operation, with what arrives while it waits.
pub data Call {ℓ} (A : Type ℓ) : Type ℓ where
  put : A → Call A
  try_take : Call A
  take : List A → Call A
  take_timeout : List A → Call A

module _ {ℓ} {A : Type ℓ} where
  abbrev to_list : Option A → List A
  to_list none = []
  to_list (some a) = a ∷ []

  -- The queue after a call and what the call returned.
  pub step : ConcurrentQueue A → Call A → ConcurrentQueue A × Option A
  step q (put a) = (enqueue a q, none)
  step q try_take = try_dequeue q
  step q (take arrivals) = dequeue arrivals q
  step q (take_timeout arrivals) = timeout_dequeue arrivals q

  -- What a call adds to the queue.
  pub added : Call A → List A
  added (put a) = a ∷ []
  added try_take = []
  added (take arrivals) = arrivals
  added (take_timeout arrivals) = arrivals

  pub run : ConcurrentQueue A → List (Call A) → ConcurrentQueue A × List A
  run q [] = (q, [])
  run q (c ∷ cs) =
      let (q₁, out) = step q c in let (q₂, outs) = run q₁ cs in (q₂, to_list out ++ outs)

  pub all_added : List (Call A) → List A
  unfolding added
  all_added [] = []
  all_added (c ∷ cs) = added c ++ all_added cs

  take_front-order : (xs : List A) → to_list (take_front xs).1 ++ (take_front xs).0.queue ≡ xs
  unfolding take_front
  take_front-order [] = refl
  take_front-order (x ∷ xs) = refl

  step-order :
      (q : ConcurrentQueue A) (c : Call A)
      → to_list (step q c).1 ++ (step q c).0.queue ≡ q.queue ++ added c
  unfolding step added enqueue try_dequeue dequeue timeout_dequeue
  step-order q (put a) = refl
  step-order q try_take = take_front-order q.queue ∙ sym (append-nil q.queue)
  step-order q (take arrivals) = take_front-order (q.queue ++ arrivals)
  step-order q (take_timeout arrivals) = take_front-order (q.queue ++ arrivals)

  -- Over any sequence of calls, what was taken out followed by what is still in the queue is what
  -- was in it at first followed by what was put in, in this order.
  pub run-order :
      (q : ConcurrentQueue A) (cs : List (Call A))
      → (run q cs).1 ++ (run q cs).0.queue ≡ q.queue ++ all_added cs
  unfolding run all_added
  run-order q [] = sym (append-nil q.queue)
  run-order q (c ∷ cs) =
      append_assoc (to_list (step q c).1) _ _
      ∙ ap (λ t. to_list (step q c).1 ++ t) (run-order (step q c).0 cs)
      ∙ sym (append_assoc (to_list (step q c).1) _ _)
      ∙ ap (λ t. t ++ all_added cs) (step-order q c)
      ∙ append_assoc q.queue (added c) (all_added cs)

  -- A reader gets nothing, or blocks, only when the queue stays empty.
  dequeue-none :
      (q : ConcurrentQueue A) (arrivals : List A)
      → ((dequeue arrivals q).1 ≡ none) ↔ (q.queue ++ arrivals ≡ [])
  unfolding dequeue
  dequeue-none q arrivals = nothing (q.queue ++ arrivals)
    where
      nothing : (xs : List A) → ((take_front xs).1 ≡ none) ↔ (xs ≡ [])
      nothing [] = (λ e. refl, λ e. refl)
      nothing (x ∷ xs) = (λ e. cc, λ e. cc)
