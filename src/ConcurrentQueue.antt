-- ===== src/ConcurrentQueue.antt =====
-- elevator/concurrentqueue.h: a queue behind a lock. Each operation holds the lock, so it is one
-- step; what arrives while a reader waits on the condition is an argument.
pub mod Fifo
use ttk.Prelude.{Bool, true, false, List, [], ◌∷◌, ◌++◌, Option, none, some}

pub record ConcurrentQueue {ℓ} (A : Type ℓ) : Type ℓ where
  pub queue : List A

module _ {ℓ} {A : Type ℓ} where
  pub new_queue : ConcurrentQueue A
  new_queue = record { queue = [] }

  unfoldable pub enqueue : A → ConcurrentQueue A → ConcurrentQueue A
  enqueue a q = record { queue = q.queue ++ a ∷ [] }

  -- front and pop_front
  take_front : List A → ConcurrentQueue A × Option A
  take_front [] = (record { queue = [] }, none)
  take_front (a ∷ rest) = (record { queue = rest }, some a)

  unfoldable pub try_dequeue : ConcurrentQueue A → ConcurrentQueue A × Option A
  unfolding take_front
  try_dequeue q = take_front q.queue

  -- `arrivals` is what other threads enqueue before the reader wakes up. With nothing in the queue
  -- by then the caller is still blocked: `none`.
  unfoldable pub dequeue : List A → ConcurrentQueue A → ConcurrentQueue A × Option A
  unfolding take_front
  dequeue arrivals q = take_front (q.queue ++ arrivals)

  -- Here `none` is the return value Nothing, after the timeout.
  unfoldable pub timeout_dequeue : List A → ConcurrentQueue A → ConcurrentQueue A × Option A
  unfolding take_front
  timeout_dequeue arrivals q = take_front (q.queue ++ arrivals)

  is_empty : List A → Bool
  is_empty [] = true
  is_empty (a ∷ rest) = false

  pub empty : ConcurrentQueue A → Bool
  unfolding is_empty
  empty q = is_empty q.queue
