-- ===== src/Tests/Sessions.antt =====
-- elevator/udptools.h and elevator/sessionmanager.cpp with three nodes.
use ttk.Prelude.{ℕ, ◌≡◌, ◌≢◌, refl, false, List, [], ◌∷◌, none, some, head, tail, Distinct, arith}
use ttk.Prelude.Int.{pos, int_min}
use ttk.Outcome.{ok}
use ttk.Driver.{stay}
use ttk.State.{ElevatorState}
use ttk.GlobalState
use ttk.UdpTools.{IPv4Address, Address, ip, as_array, contains, insert}
use ttk.SessionManager.{
  SessionManager, Joining, Packet, initial, ready, recovery_state, number_from, find_peer,
  service_round, take_packet, init_listener, take_content, next_phase,
}
use ttk.SessionManager.Numbering.{Apart}
use ttk.SessionManager.Recovering.{service_round-recovers}
use ttk.SessionManager.Listening.{Listens, init_listener-Listens}
use ttk.SessionManager.Formats.{write_content, read_content}
use ttk.SessionManager.Messages.{IsContent, read-write_content}
use ttk.SessionManager.Completing.{ready_from, init_listener-completes}
use ttk.SessionManager.Connecting.{new_session, connect}
use ttk.SessionManager.Agreeing.{HearsAll, connect-distinct}
use ttk.Serialization.Messages.{IsInt}

abbrev node : ℕ → IPv4Address
node n = record { addr = n }

abbrev peers : List IPv4Address
peers = node 10 ∷ node 20 ∷ node 30 ∷ []

abbrev at_node : ℕ → ℕ → Address
at_node n p = record { ip_address = node n; port = record { port = p } }

abbrev second : ElevatorState
second = record {
  id = pos 1;
  timestamp = 0;
  last_floor = pos 1;
  direction = stay;
  stopped = false;
  door_open = false;
  inside_buttons = record { floors = 4 };
  up_buttons = record { floors = 0 };
  down_buttons = record { floors = 0 };
}

abbrev session : SessionManager
session = record {
  state = record {
    up_buttons = record { floors = 0 };
    down_buttons = record { floors = 0 };
    elevators = (pos 1, second) ∷ [];
    requests = [];
  };
  peers = peers;
  id = int_min;
  recovered = none;
}

abbrev starting : Joining
starting = record { session = record session { peers = [] }; barrier = []; init_phase = 0 }

localhost_array : as_array (ip 127 0 0 1) ≡ 127 ∷ 0 ∷ 0 ∷ 1 ∷ []
unfolding as_array ip
localhost_array = refl

service_round-recovers_example :
    (p : Packet) × (service_round (record { ip = node 20; content = initial }) session ≡ some p)
    × (p.ip ≡ node 20)
    × (j' : Joining) × (take_packet 3 (record { ip = node 10; content = p.content }) starting
        ≡ ok j')
    × (j'.session.peers ≡ peers)
    × (j'.session.recovered ≡ some second)
    × (j'.init_phase ≡ 2)
unfolding find_peer GlobalState.get GlobalState.find
service_round-recovers_example =
    service_round-recovers session (node 20) (node 10) 1 second 3 starting refl refl

abbrev heard : List Packet
heard =
    record { ip = node 20; content = initial }
    ∷ record { ip = node 10; content = ready }
    ∷ record { ip = node 20; content = ready }
    ∷ []

init_listener-Listens_example :
    (j' : Joining) × (init_listener 2 heard starting ≡ ok j') × Listens 2 j'
init_listener-Listens_example =
    init_listener-Listens 2 heard starting (tt, (tt, (tt, tt)))
      (record { are_peers = λ a m. elim m [ ]; complete = λ e. absurd (omega (arith, e)) })

abbrev phase_of : Joining → ℕ
phase_of j = j.init_phase

all_ready : (j' : Joining) × (init_listener 2 heard starting ≡ ok j') × (phase_of j' ≡ 2)
unfolding init_listener take_packet take_content next_phase insert
all_ready = (_, refl, refl)

second_floor : IsInt (pos 1)
second_floor = record { from_min = omega arith; to_max = omega arith }

help_fits : IsContent (recovery_state (some (second, peers)))
help_fits = (
  record {
    id_int = second_floor;
    time_int = omega arith;
    floor_int = second_floor;
    inside_word = omega arith;
    up_word = omega arith;
    down_word = omega arith;
  },
  record {
    addresses = (omega arith, (omega arith, (omega arith, tt)));
    ascending = ((omega arith, (omega arith, tt)), ((omega arith, tt), (tt, tt)));
    few = omega arith;
  },
)

read-write_content_example :
    (bytes : List ℕ) × (write_content (recovery_state (some (second, peers))) ≡ some bytes)
    × (read_content bytes ≡ some (recovery_state (some (second, peers))))
read-write_content_example = read-write_content (recovery_state (some (second, peers))) help_fits

-- Nodes 10 and 20, as one of them hears them and as the other does.
abbrev two_nodes : List IPv4Address
two_nodes = node 10 ∷ node 20 ∷ []

abbrev heard_by_second : List Packet
heard_by_second = ready_from (node 20) ∷ ready_from (node 10) ∷ []

two-Distinct : Distinct two_nodes
two-Distinct = (((λ e. cc), tt), (tt, tt))

init_listener-completes_example :
    (j' : Joining) × (init_listener 2 heard starting ≡ ok j') × (phase_of j' ≡ 2)
init_listener-completes_example =
    init_listener-completes 2 heard two_nodes starting (tt, (tt, (tt, tt)))
      (record { going = omega arith; few = omega arith }) two-Distinct refl
      (tail _ (head _), (tail _ (tail _ (head _)), tt))

-- The addresses of a node's interfaces: the loopback one, which all nodes have, and its own.
abbrev locals : ℕ → List IPv4Address
locals n = record { addr = 2130706433 } ∷ node n ∷ []

second-Apart : Apart two_nodes (locals 10) (locals 20)
unfolding contains
second-Apart = ((λ h k. ground (arith, k)), ((λ h k. ground (arith, h)), tt))

heard-HearsAll : HearsAll two_nodes heard
heard-HearsAll = record {
  from_nodes = ((tt, tail _ (head _)), ((tt, head _), ((tt, tail _ (head _)), tt)));
  ready_nodes = (tail _ (head _), (tail _ (tail _ (head _)), tt));
}

heard_by_second-HearsAll : HearsAll two_nodes heard_by_second
heard_by_second-HearsAll = record {
  from_nodes = ((tt, tail _ (head _)), ((tt, head _), tt));
  ready_nodes = (tail _ (head _), (head _, tt));
}

connect-distinct_example :
    (s : SessionManager) × (t : SessionManager) × (connect 2 heard
        (locals 10)
        (new_session session.state)
      ≡ ok (some s))
    × (connect 2 heard_by_second (locals 20) (new_session session.state) ≡ ok (some t))
    × (s.peers ≡ t.peers)
    × (s.id ≢ t.id)
unfolding number_from contains
connect-distinct_example =
    connect-distinct two_nodes heard heard_by_second (locals 10) (locals 20) session.state
      session.state 0 1 ((omega arith, tt), (tt, tt)) (omega arith) heard-HearsAll
      heard_by_second-HearsAll second-Apart refl refl
