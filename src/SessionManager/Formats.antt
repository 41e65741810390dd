-- ===== src/SessionManager/Formats.antt =====
-- elevator/sessionmanager.cpp: the packets of the service channel as bytes.
use ttk.Prelude.{ℕ, List, [], Option, none, some, ◌==◌, if◌then◌else◌}
use ttk.Outcome.{Outcome, ok, failed}
use ttk.State.{ElevatorState}
use ttk.UdpTools.{IPv4Address}
use ttk.UdpTools.AddressSets.{set_from}
use ttk.Serialization.{
  Serializable, fundamental, converted, pair, to_packet, from_packet, packet_type,
}
use ttk.Serialization.Containers.{unit_format, container}
use ttk.Serialization.Formats.{state_format}
use ttk.SessionManager.{Content, initial, ready, recovery_peers, recovery_state, other_type}

-- IPv4Address::tuple, and a set of addresses.
unfoldable pub address_format : Serializable IPv4Address
address_format = converted (λ a. a.addr) (λ n. record { addr = n }) (fundamental 4)

unfoldable pub peers_format : Serializable (List IPv4Address)
unfolding set_from
peers_format = container address_format (λ ps. ps) (set_from [])

unfoldable pub recovery_format : Serializable (ElevatorState × List IPv4Address)
recovery_format = pair state_format peers_format

-- The signatures of these packets.
abbrev pub initial_packet : ℕ
initial_packet = 4

abbrev pub elevator_ready : ℕ
elevator_ready = 5

abbrev pub recovery_state_type : ℕ
recovery_state_type = 6

abbrev pub recovery_peers_type : ℕ
recovery_peers_type = 7

-- The bytes of a packet that a node sends.
unfoldable pub write_content : Content → Option (List ℕ)
write_content initial = some (to_packet initial_packet unit_format tt)
write_content ready = some (to_packet elevator_ready unit_format tt)
write_content (recovery_peers (some ps)) = some (to_packet recovery_peers_type peers_format ps)
write_content (recovery_state (some r)) = some (to_packet recovery_state_type recovery_format r)
write_content _ = none

-- A packet of the wanted type whose size is wrong fails an assertion.
abbrev pub or_nothing {ℓ} : {A : Type ℓ} → Outcome (Option A) → Option A
or_nothing failed = none
or_nothing (ok r) = r

-- The switch on the type.
unfoldable pub content_of : ℕ → List ℕ → Content
content_of type bytes =
    if type == initial_packet
    then initial
    else if type == elevator_ready
    then ready
    else if type == recovery_peers_type
    then recovery_peers (or_nothing (from_packet recovery_peers_type peers_format bytes))
    else if type == recovery_state_type
    then recovery_state (or_nothing (from_packet recovery_state_type recovery_format bytes))
    else other_type

-- `none` where there are not even the bytes of the type, which the source does not check.
unfoldable pub read_content : List ℕ → Option Content
unfolding content_of
read_content bytes = elim (packet_type bytes) [
  | none ↦ none
  | some type ↦ some (content_of type bytes)
]
