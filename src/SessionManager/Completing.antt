-- ===== src/SessionManager/Completing.antt =====
-- elevator/sessionmanager.cpp: a node comes to the end of its start when it has heard of all others.
use ttk.Prelude.{
  ℕ, zero, suc, ◌+◌, ◌≤◌, ◌<◌, ◌≡◌, refl, sym, ap, ◌∙◌, subst, arith, List, [], ◌∷◌, In, head, tail,
  ◌⊎◌, inl, inr, All, length, ◌==◌, Bool-cases, Distinct, length-le_Distinct,
}
use ttk.Outcome.{ok}
use ttk.UdpTools.{IPv4Address, insert}
use ttk.UdpTools.AddressSets.{Within}
use ttk.SessionManager.{
  Packet, Content, initial, ready, recovery_peers, recovery_state, other_type, Joining,
  take_content, next_phase, take_packet, init_listener,
}
use ttk.SessionManager.Listening.{IsPlain, In-insert_self, In-insert, going_on}

length-insert : (a : IPv4Address) (bs : List IPv4Address) → length (insert a bs) ≤ length bs + 1
unfolding insert
length-insert a [] = omega arith
length-insert a (b ∷ bs) = ground (arith, length-insert a bs)

abbrev pub ready_from : IPv4Address → Packet
ready_from a = record { ip = a; content = ready }

-- What a packet does to the barrier.
record Adds (p : Packet) (j j' : Joining) : Type 0 where
  kept : Within j.barrier j'.barrier
  grows : length j'.barrier ≤ length j.barrier + 1
  heard : (a : IPv4Address) → p ≡ ready_from a → In a j'.barrier

content-Adds :
    (ip : IPv4Address) (c : Content) (j : Joining)
    → IsPlain c
    → (j' : Joining) × (take_content ip c j ≡ ok j')
      × Adds (record { ip = ip; content = c }) j j'
      × (j'.init_phase ≡ j.init_phase)
unfolding take_content
content-Adds ip initial j p = (
  _,
  refl,
  record { kept = λ a m. m; grows = omega arith; heard = λ a e. absurd (not_ready e) },
  refl,
)
  where
    not_ready : {a : IPv4Address} → record { ip = ip; content = initial } ≡ ready_from a → ⊥
    not_ready e = cc
content-Adds ip ready j p = (
  _,
  refl,
  record {
    kept = λ a m. In-insert a ip j.barrier m;
    grows = length-insert ip j.barrier;
    heard = λ a e.
        subst (λ x. In x (insert ip j.barrier)) (ap (λ (q : Packet). q.ip) e)
          (In-insert_self ip j.barrier);
  },
  refl,
)
content-Adds ip (recovery_peers _) j p = elim p [ ]
content-Adds ip (recovery_state _) j p = elim p [ ]
content-Adds ip other_type j p = (
  j,
  refl,
  record { kept = λ a m. m; grows = omega arith; heard = λ a e. absurd (not_ready e) },
  refl,
)
  where
    not_ready : {a : IPv4Address} → record { ip = ip; content = other_type } ≡ ready_from a → ⊥
    not_ready e = cc

-- The node is still in its start, since it has heard of fewer than `count` nodes.
pub record Waits (count : ℕ) (j : Joining) : Type 0 where
  pub going : j.init_phase < 2
  pub few : length j.barrier < count

phase-Waits :
    (count : ℕ) (j : Joining)
    → j.init_phase < 2
    → length j.barrier ≤ count
    → ((next_phase count j).init_phase ≡ 2) ⊎ Waits count (next_phase count j)
unfolding next_phase
phase-Waits count j n l = elim (Bool-cases (length j.barrier == count)) [
  | inl c ↦ rw c (inl refl)
  | inr c ↦ elim (Bool-cases (length j.session.peers == count)) [
    | inl d ↦ rw (c, d) (inr (record { going = omega arith; few = ground arith }))
    | inr d ↦ rw (c, d) (inr (record { going = n; few = ground arith }))
  ]
]

phase-barrier : (count : ℕ) (j : Joining) → (next_phase count j).barrier ≡ j.barrier
unfolding next_phase
phase-barrier count j = elim (Bool-cases (length j.barrier == count)) [
  | inl c ↦ rw c refl
  | inr c ↦ elim (Bool-cases (length j.session.peers == count)) [
    | inl d ↦ rw (c, d) refl
    | inr d ↦ rw (c, d) refl
  ]
]

Adds-barrier :
    (p : Packet) (j j₁ j₂ : Joining) → j₂.barrier ≡ j₁.barrier → Adds p j j₁ → Adds p j j₂
Adds-barrier p j j₁ j₂ e h = record {
  kept = λ a m. subst (In a) (sym e) (h.kept a m);
  grows = subst (λ b. length b ≤ length j.barrier + 1) (sym e) h.grows;
  heard = λ a q. subst (In a) (sym e) (h.heard a q);
}

packet-Waits :
    (count : ℕ) (p : Packet) (j : Joining)
    → IsPlain p.content
    → Waits count j
    → (j' : Joining) × (take_packet count p j ≡ ok j')
      × Adds p j j'
      × ((j'.init_phase ≡ 2) ⊎ Waits count j')
unfolding take_packet
packet-Waits count p j plain w =
    let (j₁, e, h, f) = content-Adds p.ip p.content j plain in
    (
      next_phase count j₁,
      rw e refl,
      Adds-barrier p j j₁ (next_phase count j₁) (phase-barrier count j₁) h,
      phase-Waits count j₁ (omega (arith, f, w.going)) (omega (arith, h.grows, w.few)),
    )

-- The barrier has all nodes that were ready.
pub record HasHeard (ps : List Packet) (j j' : Joining) : Type 0 where
  pub old : Within j.barrier j'.barrier
  pub new : (a : IPv4Address) → In (ready_from a) ps → In a j'.barrier

heard_first :
    (p : Packet) (ps : List Packet) (j j₁ j₂ : Joining)
    → Adds p j j₁
    → HasHeard ps j₁ j₂
    → HasHeard (p ∷ ps) j j₂
heard_first p ps j j₁ j₂ h k = record {
  old = λ a m. k.old a (h.kept a m);
  new = λ a m. by a p ps m (λ e. k.old a (h.heard a e)) (k.new a);
}
  where
    by :
        (a : IPv4Address) (p : Packet) (ps : List Packet)
        → In (ready_from a) (p ∷ ps)
        → (p ≡ ready_from a → In a j₂.barrier)
        → (In (ready_from a) ps → In a j₂.barrier)
        → In a j₂.barrier
    by a _ ps (head _) f g = f refl
    by a p ps (tail _ m) f g = g m

init_listener-done :
    (count : ℕ) (ps : List Packet) (j : Joining)
    → j.init_phase ≡ 2
    → init_listener count ps j ≡ ok j
unfolding init_listener
init_listener-done count [] j e = refl
init_listener-done count (p ∷ ps) j e = elim (going_on count p ps j) [
  | inl f ↦ f
  | inr (n, _) ↦ absurd (n e)
]

-- Before the last phase the loop takes the packet.
step_on :
    (count : ℕ) (p : Packet) (ps : List Packet) (j j' : Joining)
    → j.init_phase < 2
    → take_packet count p j ≡ ok j'
    → init_listener count (p ∷ ps) j ≡ init_listener count ps j'
unfolding init_listener
step_on count p ps j j' l t = phases j.init_phase refl
  where
    phases : (n : ℕ) → j.init_phase ≡ n → init_listener count (p ∷ ps) j ≡ init_listener count ps j'
    phases zero e = rw (init_listener, e, t) refl
    phases (suc zero) e = rw (init_listener, e, t) refl
    phases (suc (suc n)) e = absurd (omega (arith, e, l))

listen :
    (count : ℕ) (ps : List Packet) (j : Joining)
    → All (λ (p : Packet). IsPlain p.content) ps
    → Waits count j
    → (j' : Joining) × (init_listener count ps j ≡ ok j')
      × ((j'.init_phase ≡ 2) ⊎ (Waits count j' × HasHeard ps j j'))
unfolding init_listener
listen count [] j plain w = (j, refl, inr (w, record { old = λ a m. m; new = λ a m. elim m [ ] }))
listen count (p ∷ ps) j plain w =
    let (j₁, e, adds, next) = packet-Waits count p j plain.0 w in
    after j₁ (step_on count p ps j j₁ w.going e) adds next (listen count ps j₁ plain.1)
  where
    after :
        (j₁ : Joining)
        → init_listener count (p ∷ ps) j ≡ init_listener count ps j₁
        → Adds p j j₁
        → (j₁.init_phase ≡ 2) ⊎ Waits count j₁
        → (Waits count j₁
            → (j' : Joining) × (init_listener count ps j₁ ≡ ok j')
              × ((j'.init_phase ≡ 2) ⊎ (Waits count j' × HasHeard ps j₁ j')))
        → (j' : Joining) × (init_listener count (p ∷ ps) j ≡ ok j')
          × ((j'.init_phase ≡ 2) ⊎ (Waits count j' × HasHeard (p ∷ ps) j j'))
    after j₁ step adds (inl two) more = (j₁, step ∙ init_listener-done count ps j₁ two, inl two)
    after j₁ step adds (inr w₁) more =
        let (j₂, f, end) = more w₁ in (j₂, step ∙ f, both j₁ j₂ adds end)
      where
        both :
            (j₁ j₂ : Joining)
            → Adds p j j₁
            → (j₂.init_phase ≡ 2) ⊎ (Waits count j₂ × HasHeard ps j₁ j₂)
            → (j₂.init_phase ≡ 2) ⊎ (Waits count j₂ × HasHeard (p ∷ ps) j j₂)
        both j₁ j₂ adds (inl two) = inl two
        both j₁ j₂ adds (inr (w₂, k)) = inr (w₂, heard_first p ps j j₁ j₂ adds k)

all_heard :
    (nodes : List IPv4Address) (ps : List Packet) (j j' : Joining)
    → HasHeard ps j j'
    → All (λ a. In (ready_from a) ps) nodes
    → All (λ a. In a j'.barrier) nodes
all_heard [] ps j j' k h = tt
all_heard (a ∷ more) ps j j' k h = (k.new a h.0, all_heard more ps j j' k h.1)

-- A node that starts, and to which nobody sends a recovery, fails no assertion and enters the last
-- phase once it has received a ready packet from each of as many different nodes as are expected,
-- whatever else comes and in whatever order.
pub init_listener-completes :
    (count : ℕ) (ps : List Packet) (nodes : List IPv4Address) (j : Joining)
    → All (λ (p : Packet). IsPlain p.content) ps
    → Waits count j
    → Distinct nodes
    → length nodes ≡ count
    → All (λ a. In (ready_from a) ps) nodes
    → (j' : Joining) × (init_listener count ps j ≡ ok j') × (j'.init_phase ≡ 2)
init_listener-completes count ps nodes j plain w distinct size heard =
    let (j', e, end) = listen count ps j plain w in (j', e, ends j' end)
  where
    ends :
        (j' : Joining)
        → (j'.init_phase ≡ 2) ⊎ (Waits count j' × HasHeard ps j j')
        → j'.init_phase ≡ 2
    ends j' (inl two) = two
    ends j' (inr (w₁, k)) = absurd (
        omega (
          arith,
          w₁.few,
          size,
          length-le_Distinct nodes j'.barrier distinct (all_heard nodes ps j j' k heard),
        ))
