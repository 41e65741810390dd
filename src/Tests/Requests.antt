-- ===== src/Tests/Requests.antt =====
-- elevator/requestqueue.cpp: two calls, of which one was acknowledged.
use ttk.Prelude.{suc, ◌*◌, ◌≡◌, refl, true, false, List, [], ◌∷◌, none, some, length, arith}
use ttk.Prelude.Int.{pos}
use ttk.Outcome.{ok}
use ttk.Command.{Command, call_to_floor_and_go_up}
use ttk.RequestQueue.{
  Request, not_acknowledged, not_done, done, clean, cleaned, insert, untouched, drop_done,
  reschedule, WakeUp, stopped, wait_loop, apply_changes, pushed, earliest_deadline,
}
use ttk.RequestQueue.Sorted.{Sorted}
use ttk.RequestQueue.Cleaning.{Cleaned, cleaned-Cleaned}
use ttk.RequestQueue.Waiting.{Answer, readings, wait_loop-Answer, wait_loop-timeout, wait_loop-due}

abbrev up_two : Command
up_two = record {
  command_type = call_to_floor_and_go_up;
  target_elevator_id = pos 0;
  target_floor = pos 2;
}

abbrev new_call : Request
new_call = record {
  type = not_acknowledged;
  repeated = 0;
  command = up_two;
  deadline_delta = 100;
  deadline = 500;
  tweaked_deadline = none;
}

-- Acknowledged: its new deadline is not in the queue yet.
abbrev going_call : Request
going_call = record new_call { type = not_done; deadline = 300; tweaked_deadline = some 900 }

abbrev done_call : Request
done_call = record new_call { type = done; deadline = 200 }

abbrev queue : List Request
queue = done_call ∷ going_call ∷ new_call ∷ []

queue-Sorted : Sorted queue
queue-Sorted = ((omega arith, (omega arith, tt)), ((omega arith, tt), (tt, tt)))

abbrev wake_ups : List WakeUp
wake_ups =
    record {
      changes = pushed (record new_call { deadline = 450 }) ∷ [];
      timed_out = false;
      now = 460;
    }
    ∷ []

cleaned-Cleaned_example :
    (clean (suc (2 * length queue)) queue ≡ some (cleaned queue)) × Cleaned queue (cleaned queue)
cleaned-Cleaned_example = cleaned-Cleaned queue

cleaned_queue :
    cleaned queue ≡ new_call ∷ record going_call { deadline = 900; tweaked_deadline = none } ∷ []
unfolding cleaned clean untouched drop_done reschedule insert
cleaned_queue = refl

wait_loop-Answer_example :
    Answer
      (readings 400 wake_ups)
      (wait_loop 1000 400 wake_ups queue).0
      (wait_loop 1000 400 wake_ups queue).1
wait_loop-Answer_example =
    wait_loop-Answer 1000 400 wake_ups queue queue-Sorted ((omega arith, tt), tt)

wait_loop-timeout_example :
    wait_loop 1000 400 (record { changes = []; timed_out = true; now = 600 } ∷ []) queue
    ≡ (apply_changes [] (cleaned queue), stopped (ok none))
unfolding cleaned clean untouched drop_done reschedule insert earliest_deadline
wait_loop-timeout_example =
    wait_loop-timeout 1000 400 (record { changes = []; timed_out = true; now = 600 }) [] queue
      queue-Sorted tt refl refl

wait_loop-due_example : wait_loop 1000 600 [] queue ≡ (
  record going_call { deadline = 900; tweaked_deadline = none } ∷ [],
  stopped (ok (some new_call)),
)
wait_loop-due_example = wait_loop-due 1000 600 [] new_call queue _ cleaned_queue (omega arith)
