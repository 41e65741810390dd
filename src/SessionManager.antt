-- ===== src/SessionManager.antt =====
-- elevator/sessionmanager.h and elevator/sessionmanager.cpp: how the nodes find each other, number
-- themselves, and help a node that starts again. A packet is what Serializer makes of its bytes; a
-- round of a loop takes the packet that recvPacketWithTimeout returned.
pub mod Numbering
pub mod Listening
pub mod Recovering
pub mod Formats
pub mod Completing
pub mod Connecting
pub mod Orderly
pub mod Agreeing
pub mod Messages
use ttk.Prelude.{
  ℕ, zero, suc, ◌+◌, Bool, true, false, not, List, [], ◌∷◌, Option, none, some, ◌==◌, if◌then◌else◌,
  length,
}
use ttk.Prelude.Int.{ℤ, pos, ◌==ℤ◌, int_min}
use ttk.Outcome.{Outcome, ok, failed, ◌>>=◌}
use ttk.State.{ElevatorState}
use ttk.GlobalState
use ttk.GlobalState.{GlobalState}
use ttk.UdpTools.{IPv4Address, same_ip, insert, contains}

-- The types of packets on the service channel, with what they carry; `none` where the packet of this
-- type cannot be read.
pub data Content : Type 0 where
  initial : Content
  ready : Content
  recovery_peers : Option (List IPv4Address) → Content
  recovery_state : Option (ElevatorState × List IPv4Address) → Content
  other_type : Content

-- A packet with its sender, or with its target.
pub record Packet : Type 0 where
  pub ip : IPv4Address
  pub content : Content

pub record SessionManager : Type 0 where
  pub state : GlobalState
  pub peers : List IPv4Address
  pub id : ℤ
  pub recovered : Option ElevatorState

-- What _initListener works on: the object, its barrier and the phase that it shares with the sender.
pub record Joining : Type 0 where
  pub session : SessionManager
  pub barrier : List IPv4Address
  pub init_phase : ℕ

pub connected : SessionManager → Bool
connected s = not (s.id ==ℤ int_min)

abbrev with_peers : (List IPv4Address → List IPv4Address) → Joining → Joining
with_peers f j = record j { session = record j.session { peers = f j.session.peers } }

-- The switch of _initListener.
unfoldable pub take_content : IPv4Address → Content → Joining → Outcome Joining
take_content ip initial j = ok (with_peers (insert ip) j)
take_content ip ready j = ok (record (with_peers (insert ip) j) { barrier = insert ip j.barrier })
take_content ip (recovery_peers none) j = failed
take_content ip (recovery_peers (some ps)) j =
    ok (record (with_peers (λ _. ps) j) { barrier = ps; init_phase = 2 })
take_content ip (recovery_state none) j = failed
take_content ip (recovery_state (some (s, ps))) j = ok (record {
  session = record j.session {
    state = GlobalState.update s j.session.state;
    recovered = some s;
    peers = ps;
  };
  barrier = ps;
  init_phase = 2;
})
take_content ip other_type j = ok j

-- The tests after the switch.
unfoldable pub next_phase : ℕ → Joining → Joining
next_phase count j =
    if length j.barrier == count
    then record j { init_phase = 2 }
    else if length j.session.peers == count
    then record j { init_phase = 1 }
    else j

unfoldable pub take_packet : ℕ → Packet → Joining → Outcome Joining
unfolding take_content next_phase
take_packet count p j = do j' ← take_content p.ip p.content j; ok (next_phase count j')

-- The loop of _initListener over the packets that come; a timeout changes nothing. It ends with the
-- packets only where the thread still listens.
unfoldable pub init_listener : ℕ → List Packet → Joining → Outcome Joining
init_listener count [] j = ok j
init_listener count (p ∷ ps) j = elim j.init_phase [
  | suc (suc n) ↦ ok j
  | _ ↦ take_packet count p j >>= λ j'. init_listener count ps j'
]

-- The loop of connect over the peers, from number `i` on: `none` where no peer is a local address.
unfoldable pub number_from : ℕ → List IPv4Address → List IPv4Address → Option ℕ
number_from i locals [] = none
number_from i locals (a ∷ rest_peers) =
    let rest = number_from (suc i) locals rest_peers in if contains a locals then some i else rest

-- In the source _id has no value before it is set here, so that the assertion on it need not fail.
unfoldable pub assign_id : List IPv4Address → SessionManager → Outcome SessionManager
assign_id locals s = elim (number_from 0 locals s.peers) [
  | none ↦ failed
  | some i ↦ ok (record s { id = pos i })
]

-- The search of _loop for the number of a peer.
unfoldable pub find_peer : ℕ → IPv4Address → List IPv4Address → Option ℕ
find_peer i ip [] = none
find_peer i ip (a ∷ rest_peers) =
    let rest = find_peer (suc i) ip rest_peers in if same_ip a ip then some i else rest

-- The help for a node that is known.
unfoldable pub recovery_for : ℕ → IPv4Address → SessionManager → Packet
recovery_for i ip s = elim (GlobalState.get (pos i) s.state) [
  | ok e ↦ record { ip = ip; content = recovery_state (some (e, s.peers)) }
  | failed ↦ record { ip = ip; content = recovery_peers (some s.peers) }
]

unfoldable pub answer_initial : IPv4Address → SessionManager → Option Packet
answer_initial ip s = elim (find_peer 0 ip s.peers) [
  | none ↦ none
  | some i ↦ some (recovery_for i ip s)
]

-- One round of _loop: the packet that is sent.
unfoldable pub service_round : Packet → SessionManager → Option Packet
unfolding answer_initial
service_round p s = elim p.content [ initial ↦ answer_initial p.ip s | _ ↦ none ]
