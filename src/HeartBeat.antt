-- ===== src/HeartBeat.antt =====
-- elevator/heartbeat.h: threads report that they live, and a manager looks for the one that does not.
-- The text of the exception and the start of the thread are left out.
pub mod Lateness
pub mod Rerun
pub mod Watching
use ttk.Prelude.{
  ℕ, ◌+◌, ◌-◌, ◌/◌, ◌%◌, ◌^◌, Bool, true, false, List, [], ◌∷◌, ◌++◌, ltb, leb, if◌then◌else◌,
}
use ttk.Prelude.Int.{ℤ, pos, ltb_ℤ, to_int32}

pub record HeartBeat : Type 0 where
  pub last_beat : ℕ
  pub threshold : ℕ

unfoldable pub beat : ℕ → HeartBeat → HeartBeat
beat now b = record b { last_beat = now }

-- _delta(): the steady clock does not go back.
abbrev pub delta : ℕ → HeartBeat → ℕ
delta now b = now - b.last_beat

unfoldable pub check : ℕ → HeartBeat → Bool
check now b = leb (delta now b) b.threshold

-- throwIfLate returns, or throws HeartBeatException( delta, threshold ).
pub data Verdict : Type 0 where
  in_time : Verdict
  late : ℤ → ℕ → Verdict

unfoldable pub throw_if_late : ℕ → HeartBeat → Verdict
throw_if_late now b =
    if ltb_ℤ (pos b.threshold) (to_int32 (delta now b))
    then late (to_int32 (delta now b)) b.threshold
    else in_time

pub record HeartBeatManager : Type 0 where
  pub beats : List HeartBeat
  pub rerun_time : ℕ

unfoldable pub new_manager : HeartBeatManager
new_manager = record { beats = []; rerun_time = 10000 }

-- `start` is what the new object's uninitialised _lastBeat holds until the first beat.
unfoldable pub get_new : ℕ → ℕ → HeartBeatManager → HeartBeatManager
get_new start threshold m = record {
  beats = m.beats ++ record { last_beat = start; threshold = threshold } ∷ [];
  rerun_time = if ltb (threshold / 10) m.rerun_time then threshold / 10 else m.rerun_time;
}

-- One round of the loop of runInThisThread: the first late heartbeat throws. `clock` gives the
-- readings of the clock from the one numbered `i` on.
unfoldable pub check_beats : (ℕ → ℕ) → ℕ → List HeartBeat → Verdict
check_beats clock i [] = in_time
check_beats clock i (b ∷ bs) = elim (throw_if_late (clock i) b) [
  | late d t ↦ late d t
  | in_time ↦ check_beats clock (i + 1) bs
]

-- What the system and the other threads make of one pass of the loop, with times in milliseconds of
-- the steady clock: whether the thread is to terminate, what the heartbeats hold when they are
-- checked and the readings of the clock for it, when the checks are through, and how much later
-- than asked the thread wakes up.
pub record Pass : Type 0 where
  pub terminate : Bool
  pub beats : List HeartBeat
  pub clock : ℕ → ℕ
  pub ends : ℕ
  pub delay : ℕ

-- When the next pass begins: sleep_until does not wait for what is past.
unfoldable pub wake : HeartBeatManager → ℕ → Pass → ℕ
wake m started p =
    let next = started + m.rerun_time in (if ltb p.ends next then next else p.ends) + p.delay

-- What comes of some passes: the loop goes on with a pass that begins at the time, was terminated,
-- or an exception left it in the pass that began at the time.
pub data Ending : Type 0 where
  running : ℕ → Ending
  terminated : Ending
  thrown : ℕ → ℤ → ℕ → Ending

-- The loop from a pass on that begins at the given time.
unfoldable pub run_in_this_thread : HeartBeatManager → ℕ → List Pass → Ending
run_in_this_thread m started [] = running started
run_in_this_thread m started (p ∷ ps) = elim p.terminate [
  | true ↦ terminated
  | false ↦ elim (check_beats p.clock 0 p.beats) [
    | late d t ↦ thrown started d t
    | in_time ↦ run_in_this_thread m (wake m started p) ps
  ]
]
