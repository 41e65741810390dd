-- ===== src/SessionManager/Recovering.antt =====
-- elevator/sessionmanager.cpp: a node that starts again gets its state and its peers back.
use ttk.Prelude.{ℕ, ◌≡◌, refl, ap, ◌∙◌, List, some, length, ◌==◌, Bool-cases, inl, inr}
use ttk.Prelude.Int.{pos}
use ttk.Outcome.{ok}
use ttk.State.{ElevatorState}
use ttk.GlobalState
use ttk.UdpTools.{IPv4Address}
use ttk.SessionManager.{
  SessionManager, Joining, Packet, initial, recovery_state, find_peer, recovery_for, answer_initial,
  service_round, take_packet, take_content, next_phase,
}

next_phase-recovered :
    (count : ℕ) (j : Joining)
    → j.barrier ≡ j.session.peers
    → j.init_phase ≡ 2
    → ((next_phase count j).session ≡ j.session) × ((next_phase count j).init_phase ≡ 2)
unfolding next_phase
next_phase-recovered count j e f = elim (Bool-cases (length j.session.peers == count)) [
  | inl c ↦ rw (e, c) (refl, refl)
  | inr c ↦ rw (e, c) (refl, f)
]

-- What the listener makes of the packet that helps it.
abbrev recovered_joining : ElevatorState → List IPv4Address → Joining → Joining
recovered_joining e ps j = record {
  session = record j.session {
    state = GlobalState.update e j.session.state;
    recovered = some e;
    peers = ps;
  };
  barrier = ps;
  init_phase = 2;
}

found :
    (s : SessionManager) (ip : IPv4Address) (i : ℕ)
    → find_peer 0 ip s.peers ≡ some i
    → answer_initial ip s ≡ some (recovery_for i ip s)
unfolding answer_initial
found s ip i f = rw (answer_initial, f) refl

helped :
    (s : SessionManager) (ip : IPv4Address) (i : ℕ) (e : ElevatorState)
    → GlobalState.get (pos i) s.state ≡ ok e
    → recovery_for i ip s ≡ record { ip = ip; content = recovery_state (some (e, s.peers)) }
unfolding recovery_for
helped s ip i e g = rw (recovery_for, g) refl

sent :
    (s : SessionManager) (ip : IPv4Address) (i : ℕ) (e : ElevatorState)
    → find_peer 0 ip s.peers ≡ some i
    → GlobalState.get (pos i) s.state ≡ ok e
    → service_round (record { ip = ip; content = initial }) s
      ≡ some (record { ip = ip; content = recovery_state (some (e, s.peers)) })
unfolding service_round
sent s ip i e f g = found s ip i f ∙ ap some (helped s ip i e g)

-- The packet that a node sends to a known peer which starts again, and whose state it has, makes
-- this peer's listener leave its start with that state and with the sender's peers.
pub service_round-recovers :
    (s : SessionManager) (ip helper : IPv4Address) (i : ℕ) (e : ElevatorState) (count : ℕ)
    (j : Joining)
    → find_peer 0 ip s.peers ≡ some i
    → GlobalState.get (pos i) s.state ≡ ok e
    → (p : Packet) × (service_round (record { ip = ip; content = initial }) s ≡ some p)
      × (p.ip ≡ ip)
      × (j' : Joining) × (take_packet count (record { ip = helper; content = p.content }) j ≡ ok j')
      × (j'.session.peers ≡ s.peers)
      × (j'.session.recovered ≡ some e)
      × (j'.init_phase ≡ 2)
unfolding take_packet take_content
service_round-recovers s ip helper i e count j f g =
    let (same, phase) = next_phase-recovered count (recovered_joining e s.peers j) refl refl in
    (
      record { ip = ip; content = recovery_state (some (e, s.peers)) },
      sent s ip i e f g,
      refl,
      next_phase count (recovered_joining e s.peers j),
      refl,
      ap (λ (t : SessionManager). t.peers) same,
      ap (λ (t : SessionManager). t.recovered) same,
      phase,
    )
