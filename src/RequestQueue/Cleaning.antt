-- ===== src/RequestQueue/Cleaning.antt =====
-- elevator/requestqueue.cpp: the loops at the start of a wait end, and lose no request.
use ttk.Prelude.{
  ℕ, zero, suc, ◌+◌, ◌*◌, ◌≤◌, ◌<◌, ◌≡◌, refl, sym, ap, subst, ◌∙◌, arith, Bool, true, false, not,
  ◌&&◌, some, List, [], ◌∷◌, length, SameEntries, Bool-cases, Option-cases, inl, inr,
}
use mathlib.Core.Bool.{true≢false}
use ttk.RequestQueue.{
  Request, top_done, top_tweaked, drop_done, reschedule, untouched, clean, cleaned,
}
use ttk.RequestQueue.Sorted.{Sorted, drop_done-Sorted}
use ttk.RequestQueue.Rescheduling.{
  outstanding, tweaks, drop_done-outstanding, drop_done-length, drop_done-tweaks, drop_done-same,
  tweaks-length, Keeps, Keeps-trans, Rescheduled, reschedule-Rescheduled,
}

-- What is left after the loops: the top neither done nor with a new deadline.
pub record Cleaned (q p : List Request) : Type 0 where
  pub kept : SameEntries (outstanding p) (outstanding q)
  pub stays_sorted : Sorted q → Sorted p
  pub not_done : top_done p ≡ false
  pub not_tweaked : top_tweaked p ≡ false

drop_done-Keeps : (q : List Request) → Keeps q (drop_done q)
drop_done-Keeps q = record { kept = drop_done-outstanding q; stays_sorted = drop_done-Sorted q }

-- One pass of the outer loop.
pass-Rescheduled :
    (q : List Request)
    → (p : List Request) × (reschedule (suc (length q)) (drop_done q) ≡ some p)
      × Rescheduled (drop_done q) p
pass-Rescheduled q =
    reschedule-Rescheduled (suc (length q)) (drop_done q)
      (omega (arith, tweaks-length q, drop_done-tweaks q))

clean-next :
    (n : ℕ) (q p : List Request)
    → reschedule (suc (length q)) (drop_done q) ≡ some p
    → untouched q ≡ false
    → clean (suc n) q ≡ clean n p
unfolding clean
clean-next n q p e h = rw (clean, e, h) refl

clean-last :
    (n : ℕ) (q p : List Request)
    → reschedule (suc (length q)) (drop_done q) ≡ some p
    → untouched q ≡ true
    → clean (suc n) q ≡ some p
unfolding clean
clean-last n q p e h = rw (clean, e, h) refl

weight : List Request → ℕ
weight q = length q + tweaks q

neither : (a b : Bool) → not a && not b ≡ true → (a ≡ false) × (b ≡ false)
neither true b h = ground (arith, h)
neither false b h = ground (arith, h)

other : (a b : Bool) → not a && not b ≡ false → a ≡ false → b ≡ true
other true b h e = ground (arith, e)
other false b h e = ground (arith, h)

drop_done-shorter : (q : List Request) → top_done q ≡ true → suc (length (drop_done q)) ≤ length q
drop_done-shorter q e = ground (arith, drop_done-length q)

-- A pass that changed something left less to do.
lighter :
    (q p : List Request) → Rescheduled (drop_done q) p → untouched q ≡ false → weight p < weight q
unfolding weight untouched
lighter q p k h = elim (Bool-cases (top_done q)) [
  | inl e ↦ ground (arith, k.fewer, k.same_length, drop_done-shorter q e, drop_done-tweaks q)
  | inr e ↦
      let moved = other (top_done q) (top_tweaked (drop_done q)) h e in
      ground (arith, moved, k.fewer, k.same_length, drop_done-length q, drop_done-tweaks q)
]

reschedule-same : (n : ℕ) (q : List Request) → top_tweaked q ≡ false → reschedule (suc n) q ≡ some q
unfolding reschedule
reschedule-same n [] e = refl
reschedule-same n (r ∷ q) e = elim (Option-cases r.tweaked_deadline) [
  | inl f ↦ simp f refl
  | inr (t, f) ↦ absurd (true≢false (sym (rw f refl) ∙ e))
]

-- A pass that changed nothing ends the loop.
untouched-parts :
    (q : List Request) → untouched q ≡ true → (top_done q ≡ false) × (top_tweaked q ≡ false)
unfolding untouched
untouched-parts q u =
    let (not_done, rest) = neither (top_done q) (top_tweaked (drop_done q)) u in
    (not_done, subst (λ t. top_tweaked t ≡ false) (drop_done-same q not_done) rest)

last-Cleaned :
    (q : List Request)
    → untouched q ≡ true
    → (reschedule (suc (length q)) (drop_done q) ≡ some q) × Cleaned q q
last-Cleaned q u =
    let (not_done, not_tweaked) = untouched-parts q u in
    (
      rw (drop_done-same q not_done) (reschedule-same (length q) q not_tweaked),
      record {
        kept = λ p. refl;
        stays_sorted = λ s. s;
        not_done = not_done;
        not_tweaked = not_tweaked;
      },
    )

next-Cleaned : (q p o : List Request) → Rescheduled (drop_done q) p → Cleaned p o → Cleaned q o
next-Cleaned q p o k c =
    let keeps = Keeps-trans (drop_done-Keeps q) k.keeps in
    record {
      kept = λ t. c.kept t ∙ keeps.kept t;
      stays_sorted = λ s. c.stays_sorted (keeps.stays_sorted s);
      not_done = c.not_done;
      not_tweaked = c.not_tweaked;
    }

clean-Cleaned :
    (n : ℕ) (q : List Request)
    → weight q < n
    → (p : List Request) × (clean n q ≡ some p) × Cleaned q p
clean-Cleaned zero q h = absurd (omega arith)
clean-Cleaned (suc n) q h = elim (Bool-cases (untouched q)) [
  | inl u ↦ let (e, c) = last-Cleaned q u in (q, clean-last n q q e u, c)
  | inr u ↦
      let (p, e, k) = pass-Rescheduled q in
      let (o, f, c) = clean-Cleaned n p (omega (arith, lighter q p k u)) in
      (o, clean-next n q p e u ∙ f, next-Cleaned q p o k c)
]

cleaned-some : (q p : List Request) → clean (suc (2 * length q)) q ≡ some p → cleaned q ≡ p
unfolding cleaned
cleaned-some q p e = rw (cleaned, e) refl

-- The cleaning loops end within two passes for each request: they leave the same outstanding
-- requests with the same effective deadlines, keep the order by deadline, and leave a top that is
-- neither done nor waiting for a new deadline.
pub cleaned-Cleaned :
    (q : List Request) → (clean (suc (2 * length q)) q ≡ some (cleaned q)) × Cleaned q (cleaned q)
unfolding weight
cleaned-Cleaned q =
    let (p, e, c) = clean-Cleaned (suc (2 * length q)) q (omega (arith, tweaks-length q)) in
    let f = sym (cleaned-some q p e) in (e ∙ ap some f, subst (Cleaned q) f c)
