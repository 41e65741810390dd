-- ===== src/SessionManager/Orderly.antt =====
-- elevator/sessionmanager.cpp, _initListener: what every packet of the start keeps.
use ttk.Prelude.{
  ℕ, zero, suc, ◌≡◌, refl, sym, ◌∙◌, subst, arith, List, [], ◌∷◌, In, ◌⊎◌, inl, inr, All, length,
  ◌==◌, Bool-cases,
}
use ttk.Outcome.{Outcome, ok, failed, ok_injective, failed-ne_ok, ◌>>=◌}
use ttk.UdpTools.{IPv4Address, insert}
use ttk.UdpTools.AddressSets.{Within, Within-full, Ascending-ext, Ascending, insert-Ascending}
use ttk.SessionManager.{
  Packet, Content, initial, ready, recovery_peers, recovery_state, other_type, Joining,
  take_content, next_phase, take_packet, init_listener,
}
use ttk.SessionManager.Listening.{IsPlain, Listens, insert-In}

-- The loop ends, or takes the packet.
abbrev LoopCases : ℕ → Packet → List Packet → Joining → Joining → Type 0
LoopCases count p ps j j' =
    (j ≡ j')
    ⊎ ((j₁ : Joining) × (take_packet count p j ≡ ok j₁) × (init_listener count ps j₁ ≡ ok j'))

loop-cases :
    (count : ℕ) (p : Packet) (ps : List Packet) (j j' : Joining)
    → init_listener count (p ∷ ps) j ≡ ok j'
    → LoopCases count p ps j j'
unfolding init_listener
loop-cases count p ps j j' e = phases j.init_phase refl
  where
    taken :
        (o : Outcome Joining)
        → take_packet count p j ≡ o
        → (o >>= λ j₁. init_listener count ps j₁) ≡ ok j'
        → LoopCases count p ps j j'
    taken failed t f = absurd (failed-ne_ok f)
    taken (ok j₁) t f = inr (j₁, t, f)

    phases : (n : ℕ) → j.init_phase ≡ n → LoopCases count p ps j j'
    phases zero i =
        let goes : init_listener count (p ∷ ps) j
            ≡ (take_packet count p j >>= λ j₁. init_listener count ps j₁) =
          simp (init_listener, i) refl in
        taken (take_packet count p j) refl (sym goes ∙ e)
    phases (suc zero) i =
        let goes : init_listener count (p ∷ ps) j
            ≡ (take_packet count p j >>= λ j₁. init_listener count ps j₁) =
          simp (init_listener, i) refl in
        taken (take_packet count p j) refl (sym goes ∙ e)
    phases (suc (suc n)) i =
        let stopped : init_listener count (p ∷ ps) j ≡ ok j = simp (init_listener, i) refl in
        inl (ok_injective (sym stopped ∙ e))

-- What every packet keeps, the loop keeps.
module _ {ℓ κ} (count : ℕ) (P : Joining → Type ℓ) (Q : Packet → Type κ)
    (step : (p : Packet) (j j' : Joining) → Q p → P j → take_packet count p j ≡ ok j' → P j') where
  pub loop-keeps :
      (ps : List Packet) (j j' : Joining) → All Q ps → P j → init_listener count ps j ≡ ok j' → P j'
  unfolding init_listener
  loop-keeps [] j j' q h e = subst P (ok_injective e) h
  loop-keeps (p ∷ ps) j j' q h e = elim (loop-cases count p ps j j' e) [
    | inl same ↦ subst P same h
    | inr (j₁, t, f) ↦ loop-keeps ps j₁ j' q.1 (step p j j₁ q.0 h t) f
  ]

-- The two sets are in order, and every peer is one of the nodes.
pub record IsOrderly (nodes : List IPv4Address) (j : Joining) : Type 0 where
  pub peers_ascending : Ascending j.session.peers
  pub barrier_ascending : Ascending j.barrier
  pub known : Within j.session.peers nodes

-- A packet of the start from one of the nodes.
abbrev pub ComesFrom : List IPv4Address → Packet → Type 0
ComesFrom nodes p = IsPlain p.content × In p.ip nodes

insert-Within :
    (ip : IPv4Address) (ps nodes : List IPv4Address)
    → In ip nodes
    → Within ps nodes
    → Within (insert ip ps) nodes
insert-Within ip ps nodes m w a k = elim (insert-In a ip ps k) [
  | inl e ↦ subst (λ x. In x nodes) (sym e) m
  | inr l ↦ w a l
]

content-IsOrderly :
    (nodes : List IPv4Address) (ip : IPv4Address) (c : Content) (j : Joining)
    → IsPlain c
    → In ip nodes
    → IsOrderly nodes j
    → (j' : Joining) × (take_content ip c j ≡ ok j') × IsOrderly nodes j'
unfolding take_content
content-IsOrderly nodes ip initial j p m h = (
  _,
  refl,
  record {
    peers_ascending = insert-Ascending ip j.session.peers h.peers_ascending;
    barrier_ascending = h.barrier_ascending;
    known = insert-Within ip j.session.peers nodes m h.known;
  },
)
content-IsOrderly nodes ip ready j p m h = (
  _,
  refl,
  record {
    peers_ascending = insert-Ascending ip j.session.peers h.peers_ascending;
    barrier_ascending = insert-Ascending ip j.barrier h.barrier_ascending;
    known = insert-Within ip j.session.peers nodes m h.known;
  },
)
content-IsOrderly nodes ip (recovery_peers _) j p m h = elim p [ ]
content-IsOrderly nodes ip (recovery_state _) j p m h = elim p [ ]
content-IsOrderly nodes ip other_type j p m h = (j, refl, h)

phase-IsOrderly :
    (count : ℕ) (nodes : List IPv4Address) (j : Joining)
    → IsOrderly nodes j
    → IsOrderly nodes (next_phase count j)
unfolding next_phase
phase-IsOrderly count nodes j h = elim (Bool-cases (length j.barrier == count)) [
  | inl c ↦ rw c (copy 2)
  | inr c ↦ elim (Bool-cases (length j.session.peers == count)) [
    | inl d ↦ rw (c, d) (copy 1)
    | inr d ↦ rw (c, d) h
  ]
]
  where
    copy : (n : ℕ) → IsOrderly nodes (record j { init_phase = n })
    copy n = record {
      peers_ascending = h.peers_ascending;
      barrier_ascending = h.barrier_ascending;
      known = h.known;
    }

pub packet-IsOrderly :
    (count : ℕ) (nodes : List IPv4Address) (p : Packet) (j j' : Joining)
    → ComesFrom nodes p
    → IsOrderly nodes j
    → take_packet count p j ≡ ok j'
    → IsOrderly nodes j'
unfolding take_packet
packet-IsOrderly count nodes p j j' (plain, m) h e =
    let (j₁, f, k) = content-IsOrderly nodes p.ip p.content j plain m h in
    let taken : take_packet count p j ≡ ok (next_phase count j₁) = rw f refl in
    subst (IsOrderly nodes) (ok_injective (sym taken ∙ e)) (phase-IsOrderly count nodes j₁ k)

-- A set of nodes that is complete and in order is the set of the peers.
pub complete-peers :
    (count : ℕ) (nodes : List IPv4Address) (j : Joining)
    → Ascending nodes
    → length nodes ≡ count
    → IsOrderly nodes j
    → Listens count j
    → j.init_phase ≡ 2
    → j.session.peers ≡ nodes
complete-peers count nodes j asc size h k two =
    Ascending-ext j.session.peers nodes h.peers_ascending asc h.known (λ a m. k.are_peers a (
      Within-full j.barrier nodes h.barrier_ascending (λ b n. h.known b (k.are_peers b n))
        (omega (arith, k.complete two, size)) a m))
