-- ===== src/Tests/HeartBeats.antt =====
-- elevator/heartbeat.h: a heartbeat with a threshold of a second.
use ttk.Prelude.{ℕ, ◌+◌, List, refl, ◌≤◌, ◌≡◌, ◌≢◌, false, [], ◌∷◌, head, tail, arith}
use ttk.Prelude.Int.{ℤ}
use ttk.HeartBeat.{
  HeartBeat, check, in_time, throw_if_late, check_beats, new_manager, beat, get_new, Pass, wake,
  thrown, run_in_this_thread,
}
use ttk.HeartBeat.Lateness.{throw_if_late-wraps, check_beats-finds}
use ttk.HeartBeat.Rerun.{get_all}
use ttk.HeartBeat.Watching.{Timely, AllTimely, limit, run_in_this_thread-finds}

abbrev second : HeartBeat
second = record { last_beat = 1000; threshold = 1000 }

abbrev fresh : HeartBeat
fresh = record { last_beat = 2900; threshold = 1000 }

-- More than 49 days without a beat.
throw_if_late-wraps_example :
    (check 4294968800 second ≡ false) × (throw_if_late 4294968800 second ≡ in_time)
throw_if_late-wraps_example =
    throw_if_late-wraps 4294968800 second (omega arith) (omega arith) (omega arith)

check_beats-finds_example : check_beats (λ i. 3000) 0 (fresh ∷ second ∷ []) ≢ in_time
check_beats-finds_example =
    check_beats-finds (λ i. 3000) second 0 (fresh ∷ second ∷ []) (tail fresh (head []))
      (λ j. (omega arith, omega arith))

abbrev thresholds : List (ℕ × ℕ)
thresholds = (0, 500) ∷ (0, 2000) ∷ []

-- The first of the two threads beats for the last time at 1000.
abbrev pass : ℕ → Pass
pass started = record {
  terminate = false;
  beats =
      record { last_beat = 1000; threshold = 500 }
      ∷ record { last_beat = 1490; threshold = 2000 }
      ∷ [];
  clock = λ j. started;
  ends = started + 10;
  delay = 5;
}

abbrev watched_passes : List Pass
watched_passes = pass 1500 ∷ pass 1555 ∷ []

abbrev watched_beat : HeartBeat
watched_beat = record { last_beat = 0; threshold = 500 }

passes-AllTimely :
    AllTimely (get_all thresholds new_manager) 5 (beat 1000 watched_beat) 1500 watched_passes
unfolding get_all get_new new_manager beat wake
passes-AllTimely = (timely 1500, (timely 1555, tt))
  where
    timely : (n : ℕ) → Timely (get_all thresholds new_manager) 5 (beat 1000 watched_beat) n (pass n)
    timely n = record {
      goes_on = refl;
      sees = head _;
      reads_after = λ j. omega arith;
      reads_before = λ j. omega arith;
      short = omega arith;
      prompt = omega arith;
    }

run_in_this_thread-finds_example :
    (s : ℕ) × (d : ℤ) × (t : ℕ) × (run_in_this_thread
        (get_all thresholds new_manager)
        1500
        watched_passes
      ≡ thrown s d t)
    × (s ≤ limit (beat 1000 watched_beat) 5)
unfolding get_all get_new new_manager beat
run_in_this_thread-finds_example =
    run_in_this_thread-finds thresholds watched_beat 1000 5 1500 watched_passes (head _)
      (omega arith) passes-AllTimely (omega arith) (omega arith)
