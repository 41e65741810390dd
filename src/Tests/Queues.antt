-- ===== src/Tests/Queues.antt =====
-- elevator/concurrentqueue.h with two writers and a reader.
use ttk.Prelude.{ℕ, ◌≡◌, List, [], ◌∷◌, ◌++◌}
use ttk.ConcurrentQueue.{ConcurrentQueue}
use ttk.ConcurrentQueue.Fifo.{Call, put, try_take, take, run, all_added, run-order}

abbrev calls : List (Call ℕ)
calls = put 1 ∷ try_take ∷ take (2 ∷ 3 ∷ []) ∷ put 4 ∷ []

abbrev one : ConcurrentQueue ℕ
one = record { queue = 0 ∷ [] }

run-order_example : (run one calls).1 ++ (run one calls).0.queue ≡ (0 ∷ []) ++ all_added calls
run-order_example = run-order one calls
