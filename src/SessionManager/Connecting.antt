-- ===== src/SessionManager/Connecting.antt =====
-- elevator/sessionmanager.h and elevator/sessionmanager.cpp: the sender of the start, and connect.
use ttk.Prelude.{ℕ, zero, suc, Bool, true, false, List, [], Option, none, some, ltb, if◌then◌else◌}
use ttk.Prelude.Int.{int_min}
use ttk.Outcome.{Outcome, ok, ◌>>=◌}
use ttk.GlobalState.{GlobalState}
use ttk.UdpTools.{IPv4Address, Address, any_ip, broadcast}
use ttk.SessionManager.{
  SessionManager, Joining, Packet, Content, initial, ready, init_listener, assign_id,
}

abbrev pub comm_send : Address
comm_send = record { ip_address = any_ip; port = record { port = 64032 } }

abbrev pub comm_rcv : Address
comm_rcv = record { ip_address = any_ip; port = record { port = 64033 } }

abbrev pub comm_broadcast : Address
comm_broadcast = record { ip_address = broadcast; port = record { port = 64033 } }

-- The constructor. It leaves _id unset; the model starts it with the value that means `none`.
unfoldable pub new_session : GlobalState → SessionManager
new_session glo = record { state = glo; peers = []; id = int_min; recovered = none }

abbrev is_some {ℓ} : {A : Type ℓ} → Option A → Bool
is_some none = false
is_some (some a) = true

unfoldable pub need_recovery_state : SessionManager → Bool
need_recovery_state s = is_some s.recovered

-- The switch of _initSender: the content of the packet, or `none` for an empty packet, where the
-- listener has just begun the last phase.
unfoldable pub sent_content : ℕ → Option Content
sent_content zero = some initial
sent_content (suc zero) = some ready
sent_content (suc (suc n)) = none

-- One round of _initSender, for the phase that its test reads and the one that its switch reads:
-- what it broadcasts, or that it ends.
pub data Sending : Type 0 where
  ends : Sending
  broadcasts : Option Content → Sending

unfoldable pub sender_round : ℕ → ℕ → Sending
unfolding sent_content
sender_round tested switched = if ltb tested 2 then broadcasts (sent_content switched) else ends

-- connect, for the packets that come and the addresses of the machine: `none` while it listens.
unfoldable pub finish_connect : List IPv4Address → Joining → Outcome (Option SessionManager)
finish_connect locals j =
    if ltb j.init_phase 2 then ok none else (do s ← assign_id locals j.session; ok (some s))

unfoldable pub connect :
    ℕ → List Packet → List IPv4Address → SessionManager → Outcome (Option SessionManager)
unfolding finish_connect
connect count ps locals s = do
  j ← init_listener count ps (record { session = s; barrier = []; init_phase = 0 })
  finish_connect locals j
