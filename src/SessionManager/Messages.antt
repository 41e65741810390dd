-- ===== src/SessionManager/Messages.antt =====
-- elevator/sessionmanager.cpp: the packets of the service channel arrive as they were sent.
use ttk.Prelude.{
  ℕ, ◌+◌, ◌*◌, ◌^◌, ◌<◌, ◌≡◌, refl, ap, ◌∙◌, arith, List, [], ◌∷◌, none, some, length, All,
}
use ttk.State.{ElevatorState}
use ttk.UdpTools.{IPv4Address}
use ttk.UdpTools.AddressSets.{Before, Ascending, set_from, set_from-Ascending}
use ttk.Serialization.{Serializable, fundamental, converted, pair, to_packet}
use ttk.Serialization.Laws.{
  RoundTrips, fundamental-RoundTrips, converted-RoundTrips, pair-RoundTrips, from_packet-own,
  RoundTrips-weaken, packet_type-to_packet,
}
use ttk.Serialization.Containers.{container, container-RoundTrips, size_items}
use ttk.Serialization.Messages.{IsSendable, state-RoundTrips, state-size}
use ttk.SessionManager.{Content, initial, ready, recovery_peers, recovery_state, other_type}
use ttk.SessionManager.Formats.{
  address_format, peers_format, recovery_format, write_content, read_content, content_of,
  or_nothing, recovery_peers_type, recovery_state_type,
}

abbrev pub IsAddress : IPv4Address → Type 0
IsAddress a = a.addr < 2 ^ 32

IsAddress-RoundTrips : RoundTrips address_format IsAddress
unfolding address_format
IsAddress-RoundTrips =
    converted-RoundTrips _ _ (fundamental 4) IsAddress (λ n. n < 256 ^ 4) (λ a v. refl) (λ a v. v)
      (fundamental-RoundTrips 4)

-- A set of fewer than 2^20 addresses.
pub record ArePeers (ps : List IPv4Address) : Type 0 where
  pub addresses : All IsAddress ps
  pub ascending : Ascending ps
  pub few : length ps < 2 ^ 20

peers-RoundTrips : RoundTrips peers_format ArePeers
unfolding peers_format
peers-RoundTrips =
    RoundTrips-weaken _ _ ArePeers
      (λ ps v. (
        v.addresses,
        (set_from-Ascending [] ps (nothing_before ps) v.ascending, omega (arith, v.few)),
      ))
      (container-RoundTrips address_format IsAddress IsAddress-RoundTrips (λ ps. ps) (set_from []))
  where
    nothing_before :
        (ps : List IPv4Address)
        → All (λ (x : IPv4Address). All (λ (b : IPv4Address). Before b x) []) ps
    nothing_before [] = tt
    nothing_before (p ∷ ps) = (tt, nothing_before ps)

addresses-size : (ps : List IPv4Address) → size_items address_format ps ≡ 4 * length ps
unfolding size_items address_format converted fundamental
addresses-size [] = refl
addresses-size (p ∷ ps) = omega (arith, addresses-size ps)

peers-size : (ps : List IPv4Address) → peers_format.size ps ≡ 8 + 4 * length ps
unfolding peers_format container
peers-size ps = ap (λ (n : ℕ). 8 + n) (addresses-size ps)

recovery-RoundTrips : RoundTrips recovery_format (λ r. IsSendable r.0 × ArePeers r.1)
unfolding recovery_format
recovery-RoundTrips = pair-RoundTrips _ _ IsSendable ArePeers state-RoundTrips peers-RoundTrips

recovery-size :
    (r : ElevatorState × List IPv4Address) → recovery_format.size r ≡ 50 + 4 * length r.1
unfolding recovery_format pair
recovery-size r = omega (arith, peers-size r.1, state-size r.0)

-- What a node sends has its numbers in the types of the packet.
abbrev pub IsContent : Content → Type 0
IsContent initial = Unit
IsContent ready = Unit
IsContent (recovery_peers none) = ⊥
IsContent (recovery_peers (some ps)) = ArePeers ps
IsContent (recovery_state none) = ⊥
IsContent (recovery_state (some (e, ps))) = IsSendable e × ArePeers ps
IsContent other_type = ⊥

module _ {A : Type 0} (type : ℕ) (s : Serializable A) (a : A) (known : type < 256 ^ 4) where
  read-content : read_content (to_packet type s a) ≡ some (content_of type (to_packet type s a))
  unfolding read_content
  read-content = rw (read_content, packet_type-to_packet type s a known) refl

-- The packets by which the nodes find each other and help each other are read as they were
-- written: the two without content, the peers, and a state with the peers, for sets of fewer than
-- 2^20 addresses and states whose numbers fit the message.
pub read-write_content :
    (c : Content)
    → IsContent c
    → (bytes : List ℕ) × (write_content c ≡ some bytes) × (read_content bytes ≡ some c)
unfolding write_content content_of
read-write_content initial v = (_, refl, read-content _ _ tt (omega arith))
read-write_content ready v = (_, refl, read-content _ _ tt (omega arith))
read-write_content (recovery_peers none) v = elim v [ ]
read-write_content (recovery_peers (some ps)) v = (
  _,
  refl,
  read-content _ _ ps (omega arith)
      ∙ ap (λ o. some (recovery_peers (or_nothing o)))
          (from_packet-own peers_format ArePeers peers-RoundTrips recovery_peers_type ps
            (omega arith) (omega (arith, peers-size ps, v.few)) v),
)
read-write_content (recovery_state none) v = elim v [ ]
read-write_content (recovery_state (some (e, ps))) v = (
  _,
  refl,
  read-content _ _ (e, ps) (omega arith)
      ∙ ap (λ o. some (recovery_state (or_nothing o)))
          (from_packet-own recovery_format (λ r. IsSendable r.0 × ArePeers r.1) recovery-RoundTrips
            recovery_state_type (e, ps) (omega arith)
            (omega (arith, recovery-size (e, ps), v.1.few)) v),
)
read-write_content other_type v = elim v [ ]
