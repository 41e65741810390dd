-- ===== src/RequestQueue/Sorted.antt =====
-- elevator/requestqueue.cpp: every operation keeps the queue in the order of the deadlines.
use ttk.Prelude.{
  ℕ, suc, ◌≤◌, ◌≡◌, refl, arith, Bool, false, ltb, List, [], ◌∷◌, length, All, count_if, Bool-cases,
  inl, inr, ltb→lt,
}
use ttk.State.{StateChange}
use ttk.RequestQueue.{
  Request, TimePoint, insert, push, ack_one, ack_request, tweak, drop_done, earliest_deadline,
  QueueChange, pushed, acked, apply_change, apply_changes, is_done,
}

-- No entry of the list is due before `t`.
abbrev pub NotBefore : TimePoint → List Request → Type 0
NotBefore t = All (λ (r : Request). t ≤ r.deadline)

abbrev pub Sorted : List Request → Type 0
Sorted [] = Unit
Sorted (r ∷ q) = NotBefore r.deadline q × Sorted q

pub NotBefore-trans : (s t : TimePoint) (q : List Request) → s ≤ t → NotBefore t q → NotBefore s q
NotBefore-trans s t [] h k = tt
NotBefore-trans s t (r ∷ q) h k = (omega (arith, k.0), NotBefore-trans s t q h k.1)

pub insert-All {ℓ} :
    (P : Request → Type ℓ) (r : Request) (q : List Request) → P r → All P q → All P (insert r q)
unfolding insert
insert-All P r [] h k = (h, k)
insert-All P r (x ∷ q) h k = elim (Bool-cases (ltb r.deadline x.deadline)) [
  | inl e ↦ rw e (h, k)
  | inr e ↦ rw e (k.0, insert-All P r q h k.1)
]

pub insert-Sorted : (r : Request) (q : List Request) → Sorted q → Sorted (insert r q)
unfolding insert
insert-Sorted r [] h = (tt, tt)
insert-Sorted r (x ∷ q) h = elim (Bool-cases (ltb r.deadline x.deadline)) [
  | inl e ↦
      let l = ltb→lt r.deadline x.deadline e in
      rw e ((omega (arith, l), NotBefore-trans _ x.deadline q (omega (arith, l)) h.0), h)
  | inr e ↦ rw e (insert-All _ r q (ground arith) h.0, insert-Sorted r q h.1)
]

pub insert-count_if :
    (p : Request → Bool) (r : Request) (q : List Request)
    → count_if p (insert r q) ≡ count_if p (r ∷ q)
unfolding insert
insert-count_if p r [] = refl
insert-count_if p r (x ∷ q) = elim (Bool-cases (ltb r.deadline x.deadline)) [
  | inl e ↦ rw e refl
  | inr e ↦ rw e (omega (arith, insert-count_if p r q))
]

pub insert-length : (r : Request) (q : List Request) → length (insert r q) ≡ suc (length q)
unfolding insert
insert-length r [] = refl
insert-length r (x ∷ q) = elim (Bool-cases (ltb r.deadline x.deadline)) [
  | inl e ↦ rw e refl
  | inr e ↦ rw e (omega (arith, insert-length r q))
]

pub push-insert : (r : Request) (q : List Request) → (push r q).0 ≡ insert r q
unfolding push
push-insert r [] = refl
push-insert r (x ∷ q) = refl

-- An acknowledgement leaves the deadline: the order does not change.
ack_one-deadline :
    (c : StateChange) (delta : ℕ) (now : TimePoint) (r : Request)
    → (ack_one c delta now r).deadline ≡ r.deadline
unfolding ack_one tweak
ack_one-deadline c delta now r = ground arith

pub ack-NotBefore :
    (c : StateChange) (delta : ℕ) (now t : TimePoint) (q : List Request)
    → NotBefore t q
    → NotBefore t (ack_request c delta now q)
unfolding ack_request
ack-NotBefore c delta now t [] h = tt
ack-NotBefore c delta now t (r ∷ q) h =
    (omega (arith, h.0, ack_one-deadline c delta now r), ack-NotBefore c delta now t q h.1)

ack-Sorted :
    (c : StateChange) (delta : ℕ) (now : TimePoint) (q : List Request)
    → Sorted q
    → Sorted (ack_request c delta now q)
unfolding ack_request
ack-Sorted c delta now [] h = tt
ack-Sorted c delta now (r ∷ q) h = (
  rw (ack_one-deadline c delta now r) (ack-NotBefore c delta now r.deadline q h.0),
  ack-Sorted c delta now q h.1,
)

apply_change-Sorted : (c : QueueChange) (q : List Request) → Sorted q → Sorted (apply_change c q)
unfolding apply_change
apply_change-Sorted (pushed r) q h = rw (push-insert r q) (insert-Sorted r q h)
apply_change-Sorted (acked c delta now) q h = ack-Sorted c delta now q h

pub apply_changes-Sorted :
    (cs : List QueueChange) (q : List Request) → Sorted q → Sorted (apply_changes cs q)
unfolding apply_changes
apply_changes-Sorted [] q h = h
apply_changes-Sorted (c ∷ cs) q h =
    apply_changes-Sorted cs (apply_change c q) (apply_change-Sorted c q h)

drop_done-All {ℓ} : (P : Request → Type ℓ) (q : List Request) → All P q → All P (drop_done q)
unfolding drop_done
drop_done-All P [] h = h
drop_done-All P (r ∷ q) h = elim (Bool-cases (is_done r.type)) [
  | inl e ↦ rw e (drop_done-All P q h.1)
  | inr e ↦ rw e h
]

pub drop_done-Sorted : (q : List Request) → Sorted q → Sorted (drop_done q)
unfolding drop_done
drop_done-Sorted [] h = h
drop_done-Sorted (r ∷ q) h = elim (Bool-cases (is_done r.type)) [
  | inl e ↦ rw e (drop_done-Sorted q h.1)
  | inr e ↦ rw e h
]

-- The waiter's wake-up time never gets earlier by a push that does not notify it.
push-earliest_deadline :
    (r : Request) (q : List Request) (extra : TimePoint)
    → (push r q).1 ≡ false
    → earliest_deadline (push r q).0 extra ≡ earliest_deadline q extra
unfolding push insert earliest_deadline
push-earliest_deadline r [] extra e = cc
push-earliest_deadline r (x ∷ q) extra e = rw e refl
