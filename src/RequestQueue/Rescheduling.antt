-- ===== src/RequestQueue/Rescheduling.antt =====
-- elevator/requestqueue.cpp: the loop that gives requests their new deadlines.
use ttk.Prelude.{
  ℕ, zero, suc, ◌+◌, ◌≤◌, ◌<◌, ◌≡◌, refl, sym, ap, ◌∙◌, arith, Bool, false, not, ◌&&◌, none, some,
  List, [], ◌∷◌, if◌then◌else◌, length, count_if, SameEntries, Bool-cases, Option-cases, inl, inr,
}
use ttk.RequestQueue.{
  Request, insert, is_done, is_nothing, top_done, top_tweaked, drop_done, retime, reschedule,
}
use ttk.RequestQueue.Sorted.{Sorted, insert-Sorted, insert-count_if, insert-length}

-- The request with its new deadline, and the requests that are not done.
abbrev pub settle : Request → Request
settle r = elim r.tweaked_deadline [ none ↦ r | some t ↦ retime t r ]

abbrev pub outstanding : List Request → List Request
outstanding [] = []
outstanding (r ∷ q) = if is_done r.type then outstanding q else settle r ∷ outstanding q

abbrev pub tweaks : List Request → ℕ
tweaks = count_if (λ (r : Request). not (is_nothing r.tweaked_deadline))

outstanding-count_if :
    (p : Request → Bool) (q : List Request)
    → count_if p (outstanding q) ≡ count_if (λ r. not (is_done r.type) && p (settle r)) q
outstanding-count_if p [] = refl
outstanding-count_if p (r ∷ q) = elim (Bool-cases (is_done r.type)) [
  | inl e ↦ rw e (omega (arith, outstanding-count_if p q))
  | inr e ↦ rw e (omega (arith, outstanding-count_if p q))
]

insert-outstanding :
    (r : Request) (q : List Request) → SameEntries (outstanding (insert r q)) (outstanding (r ∷ q))
insert-outstanding r q p =
    outstanding-count_if p (insert r q)
    ∙ insert-count_if _ r q
    ∙ sym (outstanding-count_if p (r ∷ q))

pub drop_done-same : (q : List Request) → top_done q ≡ false → drop_done q ≡ q
unfolding drop_done
drop_done-same [] e = refl
drop_done-same (r ∷ q) e = rw e refl

pub drop_done-outstanding :
    (q : List Request) → SameEntries (outstanding (drop_done q)) (outstanding q)
unfolding drop_done
drop_done-outstanding [] p = refl
drop_done-outstanding (r ∷ q) p = elim (Bool-cases (is_done r.type)) [
  | inl e ↦ rw e (drop_done-outstanding q p)
  | inr e ↦ ap (λ t. count_if p (outstanding t)) (drop_done-same (r ∷ q) e)
]

-- Removing what is done makes the queue shorter when the top is done.
pub drop_done-length :
    (q : List Request) → length (drop_done q) + (if top_done q then 1 else 0) ≤ length q
unfolding drop_done
drop_done-length [] = omega arith
drop_done-length (r ∷ q) = elim (Bool-cases (is_done r.type)) [
  | inl e ↦ rw e (ground (arith, drop_done-length q))
  | inr e ↦ rw e (omega arith)
]

pub drop_done-tweaks : (q : List Request) → tweaks (drop_done q) ≤ tweaks q
unfolding drop_done
drop_done-tweaks [] = omega arith
drop_done-tweaks (r ∷ q) = elim (Bool-cases (is_done r.type)) [
  | inl e ↦ rw e (omega (arith, drop_done-tweaks q))
  | inr e ↦ rw e (omega arith)
]

pub tweaks-length : (q : List Request) → tweaks q ≤ length q
tweaks-length [] = omega arith
tweaks-length (r ∷ q) = ground (arith, tweaks-length q)

-- What a pass makes of a queue: the same outstanding requests, in order.
pub record Keeps (q p : List Request) : Type 0 where
  pub kept : SameEntries (outstanding p) (outstanding q)
  pub stays_sorted : Sorted q → Sorted p

pub Keeps-trans : {q p o : List Request} → Keeps q p → Keeps p o → Keeps q o
Keeps-trans h k = record {
  kept = λ t. k.kept t ∙ h.kept t;
  stays_sorted = λ s. k.stays_sorted (h.stays_sorted s);
}

pub record Rescheduled (q p : List Request) : Type 0 where
  pub keeps : Keeps q p
  pub same_length : length p ≡ length q
  pub fewer : tweaks p + (if top_tweaked q then 1 else 0) ≤ tweaks q
  pub settled : top_tweaked p ≡ false

retime-Keeps :
    (r : Request) (q : List Request) (t : ℕ)
    → r.tweaked_deadline ≡ some t
    → Keeps (r ∷ q) (insert (retime t r) q)
retime-Keeps r q t e = record {
  kept = λ p. insert-outstanding (retime t r) q p ∙ rw e refl;
  stays_sorted = λ s. insert-Sorted (retime t r) q s.1;
}

retime-tweaks :
    (r : Request) (q : List Request) (t : ℕ)
    → r.tweaked_deadline ≡ some t
    → suc (tweaks (insert (retime t r) q)) ≡ tweaks (r ∷ q)
retime-tweaks r q t e = rw e (
    omega (
      arith,
      insert-count_if (λ (x : Request). not (is_nothing x.tweaked_deadline)) (retime t r) q,
    ))

reschedule-again :
    (n : ℕ) (r : Request) (q : List Request) (t : ℕ)
    → r.tweaked_deadline ≡ some t
    → reschedule (suc n) (r ∷ q) ≡ reschedule n (insert (retime t r) q)
unfolding reschedule
reschedule-again n r q t e = rw e refl

retime-Rescheduled :
    (r : Request) (q : List Request) (t : ℕ) (p : List Request)
    → r.tweaked_deadline ≡ some t
    → Rescheduled (insert (retime t r) q) p
    → Rescheduled (r ∷ q) p
retime-Rescheduled r q t p e k = record {
  keeps = Keeps-trans (retime-Keeps r q t e) k.keeps;
  same_length = k.same_length ∙ insert-length (retime t r) q;
  fewer = ground (arith, k.fewer, retime-tweaks r q t e);
  settled = k.settled;
}

unchanged-Rescheduled : (q : List Request) → top_tweaked q ≡ false → Rescheduled q q
unchanged-Rescheduled q e = record {
  keeps = record { kept = λ p. refl; stays_sorted = λ s. s };
  same_length = refl;
  fewer = rw e (omega arith);
  settled = e;
}

pub reschedule-Rescheduled :
    (n : ℕ) (q : List Request)
    → tweaks q < n
    → (p : List Request) × (reschedule n q ≡ some p) × Rescheduled q p
unfolding reschedule
reschedule-Rescheduled zero q h = absurd (omega arith)
reschedule-Rescheduled (suc n) [] h = ([], refl, unchanged-Rescheduled [] refl)
reschedule-Rescheduled (suc n) (r ∷ q) h = elim (Option-cases r.tweaked_deadline) [
  | inl e ↦ (r ∷ q, simp e refl, unchanged-Rescheduled (r ∷ q) (rw e refl))
  | inr (t, e) ↦
      let few = retime-tweaks r q t e in
      let (p, eq, k) = reschedule-Rescheduled n (insert (retime t r) q) (omega (arith, few)) in
      (p, reschedule-again n r q t e ∙ eq, retime-Rescheduled r q t p e k)
]
