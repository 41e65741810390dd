-- ===== src/SessionManager/Numbering.antt =====
-- elevator/sessionmanager.cpp: the numbers that the nodes give themselves.
use ttk.Prelude.{
  ℕ, suc, ◌≤◌, ◌≡◌, ◌≢◌, refl, sym, ap, ◌∙◌, subst, arith, true, List, [], ◌∷◌, none, some, All,
  Bool-cases, Option-cases, inl, inr,
}
use ttk.Prelude.Int.{pos}
use ttk.Outcome.{ok, ok_injective, failed-ne_ok}
use ttk.UdpTools.{IPv4Address, same_ip, contains}
use ttk.SessionManager.{SessionManager, number_from, assign_id, find_peer}

some_injective : {n m : ℕ} → some n ≡ some m → n ≡ m
some_injective e = cc

none-ne_some : {n : ℕ} → none ≡ some n → ⊥
none-ne_some e = cc

number_from-from : (i : ℕ) (ls ps : List IPv4Address) (n : ℕ) → number_from i ls ps ≡ some n → i ≤ n
unfolding number_from
number_from-from i ls [] n e = absurd (none-ne_some e)
number_from-from i ls (a ∷ ps) n e = elim (Bool-cases (contains a ls)) [
  | inl c ↦ omega (arith, some_injective (rw c at e))
  | inr c ↦ omega (arith, number_from-from (suc i) ls ps n (rw c at e))
]

-- No address of a peer is local to both nodes, which may well have others in common, such as that
-- of the loopback interface.
abbrev pub Apart : List IPv4Address → List IPv4Address → List IPv4Address → Type 0
Apart ps ls ms = All (λ (a : IPv4Address). contains a ls ≡ true → contains a ms ≡ true → ⊥) ps

pub number_from-Apart :
    (i : ℕ) (ls ms ps : List IPv4Address) (n m : ℕ)
    → Apart ps ls ms
    → number_from i ls ps ≡ some n
    → number_from i ms ps ≡ some m
    → n ≢ m
unfolding number_from
number_from-Apart i ls ms [] n m h e f = absurd (none-ne_some e)
number_from-Apart i ls ms (a ∷ ps) n m h e f = elim (Bool-cases (contains a ls)) [
  | inl c ↦ elim (Bool-cases (contains a ms)) [
    | inl d ↦ absurd (h.0 c d)
    | inr d ↦
        λ q. omega (arith, some_injective (rw c at e), number_from-from (suc i) ms ps m (rw d at f))
  ]
  | inr c ↦ elim (Bool-cases (contains a ms)) [
    | inl d ↦
        λ q. omega (arith, some_injective (rw d at f), number_from-from (suc i) ls ps n (rw c at e))
    | inr d ↦ number_from-Apart (suc i) ls ms ps n m h.1 (rw c at e) (rw d at f)
  ]
]

assigned :
    (ls : List IPv4Address) (s s' : SessionManager)
    → assign_id ls s ≡ ok s'
    → (n : ℕ) × (number_from 0 ls s.peers ≡ some n) × (s'.id ≡ pos n)
unfolding assign_id
assigned ls s s' e = elim (Option-cases (number_from 0 ls s.peers)) [
  | inl c ↦ absurd (failed-ne_ok (rw (assign_id, c) at e))
  | inr (n, c) ↦
      (n, c, sym (ap (λ (t : SessionManager). t.id) (ok_injective (rw (assign_id, c) at e))))
]

-- Two nodes that know the same peers, none of whose addresses is local to both, give themselves different
-- numbers, if neither assertion fails.
assign_id-Apart :
    (ls ms : List IPv4Address) (s t s' t' : SessionManager)
    → Apart t.peers ls ms
    → s.peers ≡ t.peers
    → assign_id ls s ≡ ok s'
    → assign_id ms t ≡ ok t'
    → s'.id ≢ t'.id
assign_id-Apart ls ms s t s' t' h p e f q =
    let (n, a, b) = assigned ls s s' e in
    let (m, c, d) = assigned ms t t' f in
    number_from-Apart 0 ls ms t.peers n m h (subst (λ ps. number_from 0 ls ps ≡ some n) p a) c
      (pos_injective (sym b ∙ q ∙ d))
  where
    pos_injective : {x y : ℕ} → pos x ≡ pos y → x ≡ y
    pos_injective e = cc

-- The addresses of the list that are local are the one address.
abbrev pub OnlyLocal : IPv4Address → List IPv4Address → List IPv4Address → Type 0
OnlyLocal a ls = All (λ (b : IPv4Address). contains b ls ≡ same_ip b a)

-- The number under which a node is looked up by its address is the one that it gives itself, if
-- this address is the only one among the peers that is local to it.
find_peer-number_from :
    (i : ℕ) (a : IPv4Address) (ls ps : List IPv4Address)
    → OnlyLocal a ls ps
    → find_peer i a ps ≡ number_from i ls ps
unfolding find_peer number_from
find_peer-number_from i a ls [] h = refl
find_peer-number_from i a ls (b ∷ ps) h = rw (h.0, find_peer-number_from (suc i) a ls ps h.1) refl
