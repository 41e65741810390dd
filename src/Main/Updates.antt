-- ===== src/Main/Updates.antt =====
-- elevator/udpqueue.h, tools/main.cpp and elevator/scheduler.cpp: the way of a state change from the
-- scheduler of a node to the global state of another.
use ttk.Prelude.{
  ℕ, suc, ◌≡◌, ◌≢◌, refl, ap, ◌∙◌, arith, false, List, [], ◌∷◌, ◌++◌, some, length, All, All-map,
  if◌then◌else◌, Bool-cases, inl, inr,
}
use ttk.Prelude.Int.{ℤ, ◌==ℤ◌, ==ℤ_iff}
use ttk.Outcome.{ok}
use ttk.State.{StateChange}
use ttk.ConcurrentQueue.{ConcurrentQueue}
use ttk.GlobalState
use ttk.GlobalState.{GlobalState}
use ttk.GlobalState.Lookup.{updates}
use ttk.Scheduler.{Scheduler}
use ttk.Scheduler.Remote.{handle_all, handle_all-updates, states}
use ttk.UdpTools.{Address, same_ip, any_ip}
use ttk.UdpTools.Packets.{open_socket}
use ttk.Serialization.Formats.{state_change_format, elevator_state}
use ttk.Serialization.Messages.{IsUpdate, change_of_state-RoundTrips, state_change-size}
use ttk.UdpQueue.{QueueReceiver, receive_all, send_all, new_sender, new_receiver}
use ttk.UdpQueue.Delivery.{accepted, timed, carried, Fits, send-carried}
use ttk.Main.{stamp, state_changes_sender, state_changes_receiver}

abbrev pub at_time : ℕ → StateChange → StateChange
at_time t u = record u { state = record u.state { timestamp = t } }

-- The state changes of other nodes than `id`, each with the time of its arrival.
abbrev pub stamped : ℤ → (ℕ → ℕ) → List StateChange → List StateChange
stamped id clock [] = []
stamped id clock (u ∷ us) =
    (if u.state.id ==ℤ id then [] else at_time (clock 0) u ∷ [])
    ++ stamped id (λ n. clock (suc n)) us

-- What reaches the scheduler's queue of node `id` when the state changes of another node are sent.
pub received :
    ℤ
    → Address
    → (ℕ → ℕ)
    → ConcurrentQueue StateChange
    → ConcurrentQueue StateChange
    → List StateChange
received id source clock outbox inbox =
    (receive_all elevator_state state_change_format
      (carried source clock
        (send_all elevator_state state_change_format (length outbox.queue)
          (state_changes_sender outbox)).1)
      (state_changes_receiver id inbox)).queue.queue

accepted-stamped :
    (id : ℤ) (us : List StateChange) (clock : ℕ → ℕ)
    → accepted (some (stamp id)) (timed clock us) ≡ stamped id clock us
unfolding stamp
accepted-stamped id [] clock = refl
accepted-stamped id (u ∷ us) clock = elim (Bool-cases (u.state.id ==ℤ id)) [
  | inl e ↦ rw e (accepted-stamped id us (λ n. clock (suc n)))
  | inr e ↦ rw e (ap (λ t. at_time (clock 0) u ∷ t) (accepted-stamped id us (λ n. clock (suc n))))
]

stamped-other :
    (id : ℤ) (us : List StateChange) (clock : ℕ → ℕ)
    → All (λ (u : StateChange). u.state.id ≢ id) (stamped id clock us)
stamped-other id [] clock = tt
stamped-other id (u ∷ us) clock = elim (Bool-cases (u.state.id ==ℤ id)) [
  | inl e ↦ rw e (stamped-other id us (λ n. clock (suc n)))
  | inr e ↦ rw e (not-same u e, stamped-other id us (λ n. clock (suc n)))
]
  where
    not-same : (u : StateChange) → (u.state.id ==ℤ id) ≡ false → u.state.id ≢ id
    not-same u e q = ground (arith, (==ℤ_iff u.state.id id).1 q)

pub received-stamped :
    (id : ℤ) (source : Address) (clock : ℕ → ℕ) (outbox inbox : ConcurrentQueue StateChange)
    → All IsUpdate outbox.queue
    → same_ip source.ip_address any_ip ≡ false
    → received id source clock outbox inbox ≡ inbox.queue ++ stamped id clock outbox.queue
unfolding received state_changes_sender state_changes_receiver new_sender new_receiver open_socket
received-stamped id source clock outbox inbox fits other =
    ap (λ (r : QueueReceiver StateChange). r.queue.queue)
      (send-carried elevator_state state_change_format IsUpdate change_of_state-RoundTrips
        (omega arith) (state_changes_sender outbox) outbox.queue source clock
        (state_changes_receiver id inbox)
        (All-map IsUpdate (Fits state_change_format IsUpdate 1500)
          (λ u v. (v, omega (arith, state_change-size u))) outbox.queue fits)
        other (omega arith))
    ∙ ap (λ t. inbox.queue ++ t) (accepted-stamped id outbox.queue clock)

get-same :
    (j : ℤ) (g h : GlobalState)
    → g.elevators ≡ h.elevators
    → GlobalState.get j g ≡ GlobalState.get j h
unfolding GlobalState.get
get-same j g h e = ap (GlobalState.find j) e

-- When the state changes that a node sends arrive in order, from an address other than 0.0.0.0, at
-- a node whose queue is empty, its scheduler finds those that are not its own in its queue, each
-- with the time of its arrival as timestamp. It handles them without a failure and sends none of
-- them on, and what it then knows of each elevator is what these states, one after another, make
-- of what it knew. This holds for changes whose numbers fit the types of the message.
pub updates-known :
    (s : Scheduler) (source : Address) (clock : ℕ → ℕ) (outbox inbox : ConcurrentQueue StateChange)
    → All IsUpdate outbox.queue
    → same_ip source.ip_address any_ip ≡ false
    → inbox.queue ≡ []
    → let us = stamped s.local_elev_id clock outbox.queue in
      (received s.local_elev_id source clock outbox inbox ≡ us)
      × (s' : Scheduler) × (handle_all us s ≡ (s', ok tt))
      × (s'.state_update_out ≡ s.state_update_out)
      × ((j : ℤ)
          → GlobalState.get j s'.global_state
            ≡ GlobalState.get j (updates (states us) s.global_state))
updates-known s source clock outbox inbox fits other empty =
    let us = stamped s.local_elev_id clock outbox.queue in
    let (s', e, known, out) =
      handle_all-updates us s (stamped-other s.local_elev_id outbox.queue clock) in
    (
      received-stamped s.local_elev_id source clock outbox inbox fits other
          ∙ ap (λ t. t ++ us) empty,
      s',
      e,
      out,
      (λ j. get-same j s'.global_state (updates (states us) s.global_state) known),
    )
