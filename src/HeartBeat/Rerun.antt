-- ===== src/HeartBeat/Rerun.antt =====
-- elevator/heartbeat.h, getNew: the pause between two passes of the manager.
use ttk.Prelude.{ℕ, ◌*◌, ◌≤◌, arith, List, [], ◌∷◌, ◌++◌, All}
use ttk.HeartBeat.{HeartBeat, HeartBeatManager, new_manager, get_new}

-- The thresholds of the objects that were asked for, in order.
unfoldable pub get_all : List (ℕ × ℕ) → HeartBeatManager → HeartBeatManager
get_all [] m = m
get_all ((start, threshold) ∷ ts) m = get_all ts (get_new start threshold m)

abbrev pub OftenEnough : HeartBeatManager → Type 0
OftenEnough m = All (λ (b : HeartBeat). 10 * m.rerun_time ≤ b.threshold) m.beats

get_new-OftenEnough :
    (start threshold : ℕ) (m : HeartBeatManager)
    → OftenEnough m
    → OftenEnough (get_new start threshold m)
unfolding get_new
get_new-OftenEnough start threshold m h =
    added m.beats (omega (arith, rerun-own)) (λ b k. omega (arith, k, rerun-old)) h
  where
    rerun-own : 10 * (get_new start threshold m).rerun_time ≤ threshold
    rerun-own = ground arith

    rerun-old : (get_new start threshold m).rerun_time ≤ m.rerun_time
    rerun-old = ground arith

    added :
        (bs : List HeartBeat)
        → 10 * (get_new start threshold m).rerun_time ≤ threshold
        → ((b : HeartBeat)
            → 10 * m.rerun_time ≤ b.threshold
            → 10 * (get_new start threshold m).rerun_time ≤ b.threshold)
        → All (λ (b : HeartBeat). 10 * m.rerun_time ≤ b.threshold) bs
        → All
            (λ (b : HeartBeat). 10 * (get_new start threshold m).rerun_time ≤ b.threshold)
            (bs ++ record { last_beat = start; threshold = threshold } ∷ [])
    added [] x f h = (x, tt)
    added (b ∷ bs) x f h = (f b h.0, added bs x f h.1)

Keeps : HeartBeatManager → Type 0
Keeps m = OftenEnough m × (m.rerun_time ≤ 10000)

keeps : (ts : List (ℕ × ℕ)) (m : HeartBeatManager) → Keeps m → Keeps (get_all ts m)
unfolding get_all Keeps get_new
keeps [] m h = h
keeps ((start, threshold) ∷ ts) m h =
    keeps ts (get_new start threshold m)
      (get_new-OftenEnough start threshold m h.0, ground (arith, h.1))

-- However many heartbeats are asked for, the pause between two passes is at most a tenth of each
-- threshold and at most ten seconds.
pub get_all-OftenEnough :
    (ts : List (ℕ × ℕ))
    → OftenEnough (get_all ts new_manager) × ((get_all ts new_manager).rerun_time ≤ 10000)
unfolding Keeps new_manager
get_all-OftenEnough ts = keeps ts new_manager (tt, omega arith)
