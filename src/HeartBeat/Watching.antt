-- ===== src/HeartBeat/Watching.antt =====
-- elevator/heartbeat.h, runInThisThread: when the manager's loop finds a thread that stopped.
use ttk.Prelude.{
  ℕ, suc, ◌+◌, ◌*◌, ◌/◌, ◌^◌, ◌≤◌, ◌<◌, ◌≡◌, ◌≢◌, refl, ◌⊎◌, inl, inr, arith, false, List, [], ◌∷◌,
  In, All-In, length,
}
use ttk.Prelude.Int.{ℤ}
use ttk.HeartBeat.{
  HeartBeat, beat, HeartBeatManager, new_manager, in_time, check_beats, Pass, wake, running, thrown,
  run_in_this_thread,
}
use ttk.HeartBeat.Lateness.{verdict_cases, check_beats-finds}
use ttk.HeartBeat.Rerun.{get_all, get_all-OftenEnough}

-- A pass that begins at the time and sees the heartbeat: its checks read the clock while it lasts,
-- it is shorter than the pause, and the thread wakes up at most `most` ms late.
pub record Timely (m : HeartBeatManager) (most : ℕ) (b : HeartBeat) (started : ℕ) (p : Pass)
    : Type 0 where
  pub goes_on : p.terminate ≡ false
  pub sees : In b p.beats
  pub reads_after : (j : ℕ) → started ≤ p.clock j
  pub reads_before : (j : ℕ) → p.clock j ≤ p.ends
  pub short : p.ends ≤ started + m.rerun_time
  pub prompt : p.delay ≤ most

abbrev pub AllTimely : HeartBeatManager → ℕ → HeartBeat → ℕ → List Pass → Type 0
AllTimely m most b started [] = Unit
AllTimely m most b started (p ∷ ps) =
    Timely m most b started p × AllTimely m most b (wake m started p) ps

-- The last moment at which a pass begins that finds the heartbeat late.
abbrev pub limit : HeartBeat → ℕ → ℕ
limit b most = b.last_beat + b.threshold + b.threshold / 10 + most

module _ (m : HeartBeatManager) (most : ℕ) (b : HeartBeat) (often : 10 * m.rerun_time ≤ b.threshold)
    (small : 2 * b.threshold + most < 2 ^ 31) where
  -- A pass that begins after the threshold throws.
  finds :
      (started : ℕ) (p : Pass)
      → Timely m most b started p
      → b.last_beat + b.threshold < started
      → started ≤ limit b most
      → check_beats p.clock 0 p.beats ≢ in_time
  finds started p h past soon = check_beats-finds p.clock b 0 p.beats h.sees (λ j. (
    omega (arith, h.reads_after j, past),
    omega (arith, h.reads_before j, h.short, soon, often, small),
  ))

  wakes_soon :
      (started : ℕ) (p : Pass)
      → Timely m most b started p
      → (wake m started p ≤ started + m.rerun_time + most)
        × (started + m.rerun_time ≤ wake m started p)
  unfolding wake
  wakes_soon started p h = ground (arith, h.short, h.prompt)

  more : (n r : ℕ) → suc n * r ≡ r + n * r
  more n r = omega arith

  -- The loop threw soon enough, or it is not late yet.
  watched :
      (started : ℕ) (ps : List Pass)
      → AllTimely m most b started ps
      → started ≤ limit b most
      → ((s : ℕ) × (d : ℤ) × (t : ℕ) × (run_in_this_thread m started ps ≡ thrown s d t)
          × (s ≤ limit b most))
        ⊎ ((s : ℕ) × (run_in_this_thread m started ps ≡ running s)
            × (s ≤ limit b most)
            × (started + length ps * m.rerun_time ≤ s))
  unfolding run_in_this_thread
  watched started [] h soon = inr (started, refl, soon, omega arith)
  watched started (p ∷ ps) h soon = elim (verdict_cases (check_beats p.clock 0 p.beats)) [
    | inr (d, t, e) ↦ inl (started, d, t, rw (h.0.goes_on, e) refl, soon)
    | inl e ↦
        let (late_by, later) = wakes_soon started p h.0 in
        let early : started ≤ b.last_beat + b.threshold =
          not_past started (λ past. finds started p h.0 past soon e) in
        elim (watched (wake m started p) ps h.1 (omega (arith, late_by, early, often))) [
          | inl (s, d, t, f, g) ↦ inl (s, d, t, rw (h.0.goes_on, e) f, g)
          | inr (s, f, g, k) ↦
              inr (
                s,
                rw (h.0.goes_on, e) f,
                g,
                omega (arith, k, later, more (length ps) m.rerun_time),
              )
        ]
  ]
    where
      not_past : (n : ℕ) → ¬ (b.last_beat + b.threshold < n) → n ≤ b.last_beat + b.threshold
      not_past n h = omega (arith, h)

-- A thread that does not beat any more after some moment makes the manager's loop throw, in a pass
-- that begins no later than this moment, the threshold, a tenth of the threshold, and the longest
-- delay of the scheduler together. The heartbeat is one of those that were asked for, and so many
-- passes are made that they would go on after this time. Each pass sees the heartbeat as it was at
-- that moment and is not terminated, reads the clock while it lasts, lasts no longer than the
-- pause and is delayed by at most the longest delay; the loop is watched from a pass on that
-- begins by that time, and twice the threshold with the longest delay is below 2^31 ms.
pub run_in_this_thread-finds :
    (ts : List (ℕ × ℕ)) (b : HeartBeat) (last most started : ℕ) (ps : List Pass)
    → In b (get_all ts new_manager).beats
    → 2 * b.threshold + most < 2 ^ 31
    → AllTimely (get_all ts new_manager) most (beat last b) started ps
    → started ≤ limit (beat last b) most
    → limit (beat last b) most < started + length ps * (get_all ts new_manager).rerun_time
    → (s : ℕ) × (d : ℤ) × (t : ℕ) × (run_in_this_thread (get_all ts new_manager) started ps
        ≡ thrown s d t)
      × (s ≤ limit (beat last b) most)
unfolding beat
run_in_this_thread-finds ts b last most started ps known small h soon enough =
    let m = get_all ts new_manager in
    let often : 10 * m.rerun_time ≤ b.threshold =
      All-In (λ (c : HeartBeat). 10 * m.rerun_time ≤ c.threshold) known
        (get_all-OftenEnough ts).0 in
    elim (watched m most (beat last b) often small started ps h soon) [
      | inl found ↦ found
      | inr (s, f, g, k) ↦ absurd (omega (arith, enough, g, k))
    ]
