-- ===== src/SessionManager/Agreeing.antt =====
-- elevator/sessionmanager.cpp: the nodes that come through their start know the same peers, and each
-- finds its own place among them.
use ttk.Prelude.{
  ℕ, ◌<◌, ◌≡◌, ◌≢◌, refl, sym, ◌∙◌, subst, arith, false, List, [], some, In, All, All-map, length,
  ltb,
}
use ttk.Prelude.Int.{pos}
use ttk.Outcome.{ok, ok_injective}
use ttk.GlobalState.{GlobalState}
use ttk.UdpTools.{IPv4Address}
use ttk.UdpTools.AddressSets.{Ascending-Distinct, Ascending}
use ttk.SessionManager.{SessionManager, Packet, Joining, init_listener, number_from, assign_id}
use ttk.SessionManager.Connecting.{connect, finish_connect, new_session}
use ttk.SessionManager.Numbering.{Apart, number_from-Apart}
use ttk.SessionManager.Listening.{IsPlain, Listens, init_listener-Listens}
use ttk.SessionManager.Completing.{ready_from, init_listener-completes}
use ttk.SessionManager.Orderly.{loop-keeps, IsOrderly, ComesFrom, packet-IsOrderly, complete-peers}

-- Where the start begins.
abbrev pub at_start : SessionManager → Joining
at_start s = record { session = record s { peers = [] }; barrier = []; init_phase = 0 }

at_start-IsOrderly : (nodes : List IPv4Address) (s : SessionManager) → IsOrderly nodes (at_start s)
at_start-IsOrderly nodes s = record {
  peers_ascending = tt;
  barrier_ascending = tt;
  known = λ a m. elim m [ ];
}

at_start-Listens : (count : ℕ) (s : SessionManager) → Listens count (at_start s)
at_start-Listens count s = record {
  are_peers = λ a m. elim m [ ];
  complete = λ e. absurd (omega (arith, e));
}

-- The packets that a node hears during its start: plain ones of the nodes, and among them a ready
-- packet of every node.
pub record HearsAll (nodes : List IPv4Address) (ps : List Packet) : Type 0 where
  pub from_nodes : All (ComesFrom nodes) ps
  pub ready_nodes : All (λ a. In (ready_from a) ps) nodes

listening-agrees :
    (nodes : List IPv4Address) (ps : List Packet) (s : SessionManager)
    → Ascending nodes
    → 0 < length nodes
    → HearsAll nodes ps
    → (j : Joining) × (init_listener (length nodes) ps (at_start s) ≡ ok j)
      × (j.init_phase ≡ 2)
      × (j.session.peers ≡ nodes)
listening-agrees nodes ps s asc some_node h =
    let plain =
      All-map (ComesFrom nodes) (λ (p : Packet). IsPlain p.content) (λ p c. c.0) ps h.from_nodes in
    let (j, e, two) =
      init_listener-completes (length nodes) ps nodes (at_start s) plain
        (record { going = omega arith; few = some_node }) (Ascending-Distinct nodes asc) refl
        h.ready_nodes in
    let (j₂, e₂, k) =
      init_listener-Listens (length nodes) ps (at_start s) plain
        (at_start-Listens (length nodes) s) in
    (
      j,
      e,
      two,
      complete-peers (length nodes) nodes j asc refl
          (loop-keeps (length nodes) (IsOrderly nodes) (ComesFrom nodes)
            (λ p i i' c o t. packet-IsOrderly (length nodes) nodes p i i' c o t) ps (at_start s) j
            h.from_nodes (at_start-IsOrderly nodes s) e)
          (subst (Listens (length nodes)) (ok_injective (sym e₂ ∙ e)) k) two,
    )

assign_id-some :
    (locals : List IPv4Address) (s : SessionManager) (n : ℕ)
    → number_from 0 locals s.peers ≡ some n
    → assign_id locals s ≡ ok (record s { id = pos n })
unfolding assign_id
assign_id-some locals s n e = rw (assign_id, e) refl

-- A node that hears all nodes comes through its start, knows them, and numbers itself by its place.
connect-numbers :
    (nodes : List IPv4Address) (ps : List Packet) (locals : List IPv4Address) (glo : GlobalState)
    (n : ℕ)
    → Ascending nodes
    → 0 < length nodes
    → HearsAll nodes ps
    → number_from 0 locals nodes ≡ some n
    → (s : SessionManager) × (connect (length nodes) ps locals (new_session glo) ≡ ok (some s))
      × (s.peers ≡ nodes)
      × (s.id ≡ pos n)
unfolding connect new_session finish_connect
connect-numbers nodes ps locals glo n asc some_node h number =
    let (j, e, two, agrees) = listening-agrees nodes ps (new_session glo) asc some_node h in
    (
      record j.session { id = pos n },
      finished j e two (subst (λ t. number_from 0 locals t ≡ some n) (sym agrees) number),
      agrees,
      refl,
    )
  where
    finished :
        (j : Joining)
        → init_listener (length nodes) ps (at_start (new_session glo)) ≡ ok j
        → j.init_phase ≡ 2
        → number_from 0 locals j.session.peers ≡ some n
        → connect (length nodes) ps locals (new_session glo)
          ≡ ok (some (record j.session { id = pos n }))
    finished j e two f =
        let past : ltb j.init_phase 2 ≡ false = ground arith in
        rw (e, past, assign_id-some locals j.session n f) refl

-- Nodes that hear a ready packet of each of the same nodes, and nothing but packets of the start
-- from these, come through connect without a failed assertion, whatever the order of the packets:
-- they then know the same peers, and two of them have different identifiers if each has a local
-- address that is among the nodes, and no address among the nodes is local to both. They may have
-- other local addresses in common, such as that of the loopback interface.
pub connect-distinct :
    (nodes : List IPv4Address) (ps qs : List Packet) (ls ms : List IPv4Address)
    (glo hlo : GlobalState) (n m : ℕ)
    → Ascending nodes
    → 0 < length nodes
    → HearsAll nodes ps
    → HearsAll nodes qs
    → Apart nodes ls ms
    → number_from 0 ls nodes ≡ some n
    → number_from 0 ms nodes ≡ some m
    → (s : SessionManager) × (t : SessionManager) × (connect (length nodes) ps ls (new_session glo)
        ≡ ok (some s))
      × (connect (length nodes) qs ms (new_session hlo) ≡ ok (some t))
      × (s.peers ≡ t.peers)
      × (s.id ≢ t.id)
connect-distinct nodes ps qs ls ms glo hlo n m asc some_node h k apart e f =
    let (s, a, b, c) = connect-numbers nodes ps ls glo n asc some_node h e in
    let (t, x, y, z) = connect-numbers nodes qs ms hlo m asc some_node k f in
    (
      s,
      t,
      a,
      x,
      b ∙ sym y,
      (λ q. number_from-Apart 0 ls ms nodes n m apart e f (pos_injective (sym c ∙ q ∙ z))),
    )
  where
    pos_injective : {x y : ℕ} → pos x ≡ pos y → x ≡ y
    pos_injective e = cc
