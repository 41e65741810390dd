-- ===== src/HeartBeat/Lateness.antt =====
-- elevator/heartbeat.h: when a missed heartbeat is found.
use ttk.Prelude.{
  ℕ, ◌+◌, ◌-◌, ◌≤◌, ◌<◌, ◌^◌, ◌≡◌, ◌≢◌, refl, sym, ◌∙◌, ◌↔◌, ◌⊎◌, inl, inr, arith, true, false,
  List, ◌∷◌, In, head, tail, ltb, ap, ◌%◌,
}
use ttk.Prelude.Int.{ℤ, pos, ltb_ℤ, to_int32, int_small}
use ttk.HeartBeat.{HeartBeat, delta, check, Verdict, in_time, late, throw_if_late, check_beats}

int_wraps : (n k : ℕ) → n ≡ 2 ^ 32 + k → k < 2 ^ 31 → to_int32 n ≡ pos k
unfolding to_int32
int_wraps n k e h =
    let f : n % 2 ^ 32 ≡ k = omega arith in
    let g : ltb (n % 2 ^ 32) (2 ^ 31) ≡ true = ground arith in rw g (ap pos f)

throws :
    (now n : ℕ) (b : HeartBeat)
    → to_int32 (delta now b) ≡ pos n
    → b.threshold < n
    → throw_if_late now b ≡ late (pos n) b.threshold
unfolding throw_if_late
throws now n b e h = let c : ltb_ℤ (pos b.threshold) (pos n) ≡ true = ground arith in rw (e, c) refl

returns :
    (now n : ℕ) (b : HeartBeat)
    → to_int32 (delta now b) ≡ pos n
    → n ≤ b.threshold
    → throw_if_late now b ≡ in_time
unfolding throw_if_late
returns now n b e h =
    let c : ltb_ℤ (pos b.threshold) (pos n) ≡ false = ground arith in rw (e, c) refl

late-ne_in_time : {d : ℤ} {t : ℕ} → late d t ≡ in_time → ⊥
late-ne_in_time e = cc

check-within : (now : ℕ) (b : HeartBeat) → (check now b ≡ true) ↔ (delta now b ≤ b.threshold)
unfolding check
check-within now b = ground arith

-- Up to a delay of 2^31 ms, throwIfLate throws exactly when check answers false.
throw_if_late-check :
    (now : ℕ) (b : HeartBeat)
    → delta now b < 2 ^ 31
    → (throw_if_late now b ≡ in_time) ↔ (check now b ≡ true)
throw_if_late-check now b h =
    let e = int_small (delta now b) h in
    let (there, back) = check-within now b in
    (
      λ t. elim (decide (delta now b) b.threshold) [
        | inl l ↦ back l
        | inr g ↦ absurd (late-ne_in_time (sym (throws now _ b e g) ∙ t))
      ],
      λ c. returns now _ b e (there c),
    )
  where
    decide : (x y : ℕ) → (x ≤ y) ⊎ (y < x)
    decide x y = omega arith

-- A delay that exceeds 2^32 ms by at most a threshold below 2^31 ms is late for check and not for
-- throwIfLate.
pub throw_if_late-wraps :
    (now : ℕ) (b : HeartBeat)
    → 2 ^ 32 ≤ delta now b
    → delta now b ≤ 2 ^ 32 + b.threshold
    → b.threshold < 2 ^ 31
    → (check now b ≡ false) × (throw_if_late now b ≡ in_time)
unfolding check
throw_if_late-wraps now b h k t =
    let e = int_wraps (delta now b) (delta now b - 2 ^ 32) (omega arith) (omega arith) in
    (ground arith, returns now _ b e (omega arith))

pub verdict_cases : (v : Verdict) → (v ≡ in_time) ⊎ ((d : ℤ) × (t : ℕ) × (v ≡ late d t))
verdict_cases in_time = inl refl
verdict_cases (late d t) = inr (d, t, refl)

-- The heartbeat is late at every reading of the clock from `i` on, by less than 2 ^ 31 ms.
abbrev pub IsLate : (ℕ → ℕ) → HeartBeat → Type 0
IsLate clock b = (j : ℕ) → (b.threshold < delta (clock j) b) × (delta (clock j) b < 2 ^ 31)

first_late :
    (clock : ℕ → ℕ) (i : ℕ) (b : HeartBeat) (bs : List HeartBeat) (d : ℤ) (t : ℕ)
    → throw_if_late (clock i) b ≡ late d t
    → check_beats clock i (b ∷ bs) ≢ in_time
unfolding check_beats
first_late clock i b bs d t e f =
    late-ne_in_time {d = d} {t = t} (sym (rw (check_beats, e) refl) ∙ f)

-- A round of the manager throws when one of its heartbeats is late at every reading of the clock,
-- by less than 2^31 ms.
pub check_beats-finds :
    (clock : ℕ → ℕ) (b : HeartBeat) (i : ℕ) (bs : List HeartBeat)
    → In b bs
    → IsLate clock b
    → check_beats clock i bs ≢ in_time
unfolding check_beats
check_beats-finds clock b i _ (head bs) h =
    first_late clock i b bs _ _ (throws (clock i) _ b (int_small _ (h i).1) (h i).0)
check_beats-finds clock b i _ (tail x {xs = bs} m) h =
    elim (verdict_cases (throw_if_late (clock i) x)) [
      | inl e ↦ rw (check_beats, e) (check_beats-finds clock b (i + 1) bs m h)
      | inr (d, t, e) ↦ first_late clock i x bs d t e
    ]
