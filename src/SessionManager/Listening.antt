-- ===== src/SessionManager/Listening.antt =====
-- elevator/sessionmanager.cpp, _initListener: when a node is through with its start.
use ttk.Prelude.{
  ℕ, zero, suc, ◌≡◌, ◌≢◌, refl, sym, ◌∙◌, subst, arith, true, List, [], ◌∷◌, In, head, tail, ◌⊎◌,
  inl, inr, All, length, ◌==◌, ==_iff, Bool-cases,
}
use ttk.Outcome.{ok}
use ttk.UdpTools.{IPv4Address, same_ip, before_ip, insert}
use ttk.UdpTools.AddressSets.{Within}
use ttk.SessionManager.{
  Packet, Content, initial, ready, recovery_peers, recovery_state, other_type, Joining,
  take_content, next_phase, take_packet, init_listener,
}

same-ip : (a b : IPv4Address) → same_ip a b ≡ true → a ≡ b
same-ip a b h = λ i. record { addr = (==_iff a.addr b.addr).0 h i }

pub In-insert_self : (a : IPv4Address) (bs : List IPv4Address) → In a (insert a bs)
unfolding insert
In-insert_self a [] = head []
In-insert_self a (b ∷ bs) = elim (Bool-cases (before_ip a b)) [
  | inl c ↦ rw c (head (b ∷ bs))
  | inr c ↦ elim (Bool-cases (same_ip a b)) [
    | inl d ↦ rw (c, d) (subst (λ x. In x (b ∷ bs)) (sym (same-ip a b d)) (head bs))
    | inr d ↦ rw (c, d) (tail b (In-insert_self a bs))
  ]
]

pub In-insert : (x a : IPv4Address) (bs : List IPv4Address) → In x bs → In x (insert a bs)
unfolding insert
In-insert x a [] m = elim m [ ]
In-insert x a (b ∷ bs) m = elim (Bool-cases (before_ip a b)) [
  | inl c ↦ rw c (tail a m)
  | inr c ↦ elim (Bool-cases (same_ip a b)) [
    | inl d ↦ rw (c, d) m
    | inr d ↦ rw (c, d) (behind x b bs (insert a bs) m (In-insert x a bs))
  ]
]
  where
    behind :
        (x b : IPv4Address) (bs cs : List IPv4Address)
        → In x (b ∷ bs)
        → (In x bs → In x cs)
        → In x (b ∷ cs)
    behind x _ bs cs (head _) f = head cs
    behind x b bs cs (tail _ m) f = tail b (f m)

In-cons : (x a : IPv4Address) (bs : List IPv4Address) → In x (a ∷ bs) → (x ≡ a) ⊎ In x bs
In-cons x _ bs (head _) = inl refl
In-cons x a bs (tail _ m) = inr m

pub insert-In : (x a : IPv4Address) (bs : List IPv4Address) → In x (insert a bs) → (x ≡ a) ⊎ In x bs
unfolding insert
insert-In x a [] m = In-cons x a [] m
insert-In x a (b ∷ bs) m = elim (Bool-cases (before_ip a b)) [
  | inl c ↦ In-cons x a (b ∷ bs) (rw c at m)
  | inr c ↦ elim (Bool-cases (same_ip a b)) [
    | inl d ↦ inr (rw (c, d) at m)
    | inr d ↦ elim (In-cons x b (insert a bs) (rw (c, d) at m)) [
      | inl e ↦ inr (subst (λ t. In t (b ∷ bs)) (sym e) (head bs))
      | inr k ↦ elim (insert-In x a bs k) [ inl e ↦ inl e | inr l ↦ inr (tail b l) ]
    ]
  ]
]

-- Nobody helps with a recovery.
abbrev pub IsPlain : Content → Type 0
IsPlain initial = Unit
IsPlain ready = Unit
IsPlain (recovery_peers _) = ⊥
IsPlain (recovery_state _) = ⊥
IsPlain other_type = Unit

-- The nodes of the barrier are peers, and the last phase begins when they are `count`.
pub record Listens (count : ℕ) (j : Joining) : Type 0 where
  pub are_peers : Within j.barrier j.session.peers
  pub complete : j.init_phase ≡ 2 → length j.barrier ≡ count

next_phase-Listens :
    (count : ℕ) (j : Joining)
    → Within j.barrier j.session.peers
    → j.init_phase ≢ 2
    → Listens count (next_phase count j)
unfolding next_phase
next_phase-Listens count j w n = elim (Bool-cases (length j.barrier == count)) [
  | inl c ↦ rw c (record { are_peers = w; complete = λ _. (==_iff _ count).0 c })
  | inr c ↦ elim (Bool-cases (length j.session.peers == count)) [
    | inl d ↦ rw (c, d) (record { are_peers = w; complete = λ e. absurd (omega (arith, e)) })
    | inr d ↦ rw (c, d) (record { are_peers = w; complete = λ e. absurd (n e) })
  ]
]

content-Within :
    (ip : IPv4Address) (c : Content) (j : Joining)
    → IsPlain c
    → Within j.barrier j.session.peers
    → (j' : Joining) × (take_content ip c j ≡ ok j')
      × Within j'.barrier j'.session.peers
      × (j'.init_phase ≡ j.init_phase)
unfolding take_content
content-Within ip initial j p w = (_, refl, (λ a m. In-insert a ip j.session.peers (w a m)), refl)
content-Within ip ready j p w = (
  _,
  refl,
  (λ a m. elim (insert-In a ip j.barrier m) [
    | inl e ↦
        subst (λ t. In t (insert ip j.session.peers)) (sym e) (In-insert_self ip j.session.peers)
    | inr k ↦ In-insert a ip j.session.peers (w a k)
  ]),
  refl,
)
content-Within ip (recovery_peers _) j p w = elim p [ ]
content-Within ip (recovery_state _) j p w = elim p [ ]
content-Within ip other_type j p w = (j, refl, w, refl)

packet-Listens :
    (count : ℕ) (p : Packet) (j : Joining)
    → IsPlain p.content
    → Within j.barrier j.session.peers
    → j.init_phase ≢ 2
    → (j' : Joining) × (take_packet count p j ≡ ok j') × Listens count j'
unfolding take_packet
packet-Listens count p j plain w n =
    let (j₁, e, v, f) = content-Within p.ip p.content j plain w in
    (next_phase count j₁, rw e refl, next_phase-Listens count j₁ v (λ q. n (sym f ∙ q)))

-- The loop goes on exactly before the last phase.
pub going_on :
    (count : ℕ) (p : Packet) (ps : List Packet) (j : Joining)
    → (init_listener count (p ∷ ps) j ≡ ok j)
      ⊎ ((j.init_phase ≢ 2)
          × ((j' : Joining)
              → take_packet count p j ≡ ok j'
              → init_listener count (p ∷ ps) j ≡ init_listener count ps j'))
unfolding init_listener
going_on count p ps j = phases j.init_phase refl
  where
    phases :
        (n : ℕ)
        → j.init_phase ≡ n
        → (init_listener count (p ∷ ps) j ≡ ok j)
          ⊎ ((j.init_phase ≢ 2)
              × ((j' : Joining)
                  → take_packet count p j ≡ ok j'
                  → init_listener count (p ∷ ps) j ≡ init_listener count ps j'))
    phases zero e = inr ((λ f. omega (arith, e, f)), λ j' t. rw (init_listener, e, t) refl)
    phases (suc zero) e = inr ((λ f. omega (arith, e, f)), λ j' t. rw (init_listener, e, t) refl)
    phases (suc (suc n)) e = inl (simp (init_listener, e) refl)

-- While nobody sends a recovery, the listener fails no assertion, the nodes of its barrier are
-- peers, and it enters the last phase only when the barrier has as many nodes as are expected:
-- from any start where this holds.
pub init_listener-Listens :
    (count : ℕ) (ps : List Packet) (j : Joining)
    → All (λ (p : Packet). IsPlain p.content) ps
    → Listens count j
    → (j' : Joining) × (init_listener count ps j ≡ ok j') × Listens count j'
unfolding init_listener
init_listener-Listens count [] j plain h = (j, refl, h)
init_listener-Listens count (p ∷ ps) j plain h = elim (going_on count p ps j) [
  | inl e ↦ (j, e, h)
  | inr (n, step) ↦
      let (j₁, e, k) = packet-Listens count p j plain.0 h.are_peers n in
      let (j₂, f, l) = init_listener-Listens count ps j₁ plain.1 k in (j₂, step j₁ e ∙ f, l)
]
