-- ===== src/Main/Commands.antt =====
-- elevator/scheduler.cpp, elevator/udpqueue.h and tools/main.cpp: the way of a command from the
-- scheduler of a node to the elevators of all nodes.
use ttk.Prelude.{
  ℕ, suc, ◌≡◌, ◌≢◌, refl, sym, ap, ◌∙◌, subst, arith, false, List, [], ◌∷◌, ◌++◌, some, length, All,
  if◌then◌else◌, Bool-cases, inl, inr,
}
use mathlib.Core.List.{append-nil}
use ttk.Prelude.Int.{ℤ, ◌==ℤ◌, ==ℤ_iff}
use ttk.Outcome.{ok}
use ttk.Command.{Command, any_id}
use ttk.ConcurrentQueue.{ConcurrentQueue}
use ttk.Driver.{ButtonType}
use ttk.Scheduler.{Scheduler, M, ◌>>◌, modify, forward_to_targets, light_command, call_command}
use ttk.Scheduler.Serving.{Sends, Sends-then, forward-Sends, to_local, to_remote}
use ttk.UdpTools.{Address, same_ip, any_ip}
use ttk.UdpTools.Packets.{open_socket}
use ttk.Serialization.Formats.{command_format, elevator_command}
use ttk.Serialization.Messages.{IsMessage, command-RoundTrips, command-size}
use ttk.UdpQueue.{QueueReceiver, receive_all, send_all, new_sender, new_receiver}
use ttk.UdpQueue.Delivery.{accepted, timed, carried, Fits, send-carried}
use ttk.Main.{is_for, commands_sender, commands_receiver}

-- Several commands, one after another.
pub forward_all : List Command → M (Unit {0})
forward_all [] = modify (λ s. s)
forward_all (c ∷ cs) = do forward_to_targets c; forward_all cs

-- The commands for one node.
abbrev pub for_node : ℤ → List Command → List Command
for_node id [] = []
for_node id (c ∷ cs) = (if is_for id c then c ∷ [] else []) ++ for_node id cs

accepted-for_node :
    (id : ℤ) (cs : List Command) (clock : ℕ → ℕ)
    → accepted (some (λ now comm. (comm, is_for id comm))) (timed clock cs) ≡ for_node id cs
accepted-for_node id [] clock = refl
accepted-for_node id (c ∷ cs) clock =
    ap (λ t. (if is_for id c then c ∷ [] else []) ++ t)
      (accepted-for_node id cs (λ n. clock (suc n)))

-- Nothing that another node wants is kept back.
for_node-to_remote :
    (node id : ℤ) (cs : List Command)
    → node ≢ id
    → for_node node (to_remote id cs) ≡ for_node node cs
unfolding is_for
for_node-to_remote node id [] n = refl
for_node-to_remote node id (c ∷ cs) n = elim (Bool-cases (c.target_elevator_id ==ℤ id)) [
  | inl e ↦ elim (Bool-cases (c.target_elevator_id ==ℤ node)) [
    | inl f ↦
        absurd (
          n (sym ((==ℤ_iff c.target_elevator_id node).0 f) ∙ (==ℤ_iff c.target_elevator_id id).0 e))
    | inr f ↦ rw (e, f) (for_node-to_remote node id cs n)
  ]
  | inr e ↦ rw e (
      ap (λ t. (if c.target_elevator_id ==ℤ node then c ∷ [] else []) ++ t)
        (for_node-to_remote node id cs n))
]

forward_all-Sends :
    (cs : List Command) (s : Scheduler)
    → (s' : Scheduler) × (forward_all cs s ≡ (s', ok tt)) × Sends cs s s'
unfolding forward_all forward_to_targets
forward_all-Sends [] s = (
  s,
  refl,
  record {
    same_id = refl;
    same_elevators = refl;
    same_in = refl;
    same_out = refl;
    local = sym (append-nil s.commands_to_local.queue);
    remote = sym (append-nil s.commands_to_remote.queue);
  },
)
forward_all-Sends (c ∷ cs) s =
    let (s', e, h) = forward_all-Sends cs (forward_to_targets c s).0 in
    (s', e, Sends-then c cs s (forward_to_targets c s).0 s' (forward-Sends c s) h)

-- What reaches the queue of a node's elevator when the commands in the queue of another are sent.
pub received :
    ℤ → Address → (ℕ → ℕ) → ConcurrentQueue Command → ConcurrentQueue Command → List Command
received node source clock outbox inbox =
    (receive_all elevator_command command_format
      (carried source clock
        (send_all elevator_command command_format (length outbox.queue) (commands_sender outbox)).1)
      (commands_receiver node inbox)).queue.queue

All-to_remote :
    (id : ℤ) (cs : List Command)
    → All IsMessage cs
    → All (Fits command_format IsMessage 1500) (to_remote id cs)
All-to_remote id [] h = tt
All-to_remote id (c ∷ cs) h = elim (Bool-cases (c.target_elevator_id ==ℤ id)) [
  | inl e ↦ rw e (All-to_remote id cs h.1)
  | inr e ↦ rw e ((h.0, omega (arith, command-size c)), All-to_remote id cs h.1)
]

received-for_node :
    (node : ℤ) (source : Address) (clock : ℕ → ℕ) (outbox inbox : ConcurrentQueue Command)
    → All (Fits command_format IsMessage 1500) outbox.queue
    → same_ip source.ip_address any_ip ≡ false
    → received node source clock outbox inbox ≡ inbox.queue ++ for_node node outbox.queue
unfolding received commands_sender commands_receiver new_sender new_receiver open_socket
received-for_node node source clock outbox inbox fits other =
    ap (λ (r : QueueReceiver Command). r.queue.queue)
      (send-carried elevator_command command_format IsMessage command-RoundTrips (omega arith)
        (commands_sender outbox) outbox.queue source clock (commands_receiver node inbox) fits other
        (omega arith))
    ∙ ap (λ t. inbox.queue ++ t) (accepted-for_node node outbox.queue clock)

pub Sends-received :
    (s s' : Scheduler) (cs : List Command) (node : ℤ) (source : Address) (clock : ℕ → ℕ)
    (inbox : ConcurrentQueue Command)
    → Sends cs s s'
    → All IsMessage cs
    → node ≢ s.local_elev_id
    → same_ip source.ip_address any_ip ≡ false
    → s.commands_to_remote.queue ≡ []
    → received node source clock s'.commands_to_remote inbox ≡ inbox.queue ++ for_node node cs
Sends-received s s' cs node source clock inbox h ints other_node other empty =
    let sent : s'.commands_to_remote.queue ≡ to_remote s.local_elev_id cs =
      h.remote ∙ ap (λ t. t ++ to_remote s.local_elev_id cs) empty in
    received-for_node node source clock s'.commands_to_remote inbox
      (subst (All (Fits command_format IsMessage 1500)) (sym sent)
        (All-to_remote s.local_elev_id cs ints))
      other
    ∙ ap (λ t. inbox.queue ++ for_node node t) sent
    ∙ ap (λ t. inbox.queue ++ t) (for_node-to_remote node s.local_elev_id cs other_node)

-- When a scheduler whose queue for the other nodes is empty forwards commands whose numbers are
-- ints, its own elevator gets those for its identifier and for ANY_ID. If their packets arrive in
-- order from an address other than 0.0.0.0, the elevator of any other node gets exactly those for
-- the identifier of that node.
pub commands-delivered :
    (s : Scheduler) (cs : List Command) (node : ℤ) (source : Address) (clock : ℕ → ℕ)
    (inbox : ConcurrentQueue Command)
    → All IsMessage cs
    → node ≢ s.local_elev_id
    → same_ip source.ip_address any_ip ≡ false
    → s.commands_to_remote.queue ≡ []
    → (s' : Scheduler) × (forward_all cs s ≡ (s', ok tt))
      × (s'.commands_to_local.queue ≡ s.commands_to_local.queue ++ to_local s.local_elev_id cs)
      × (received node source clock s'.commands_to_remote inbox ≡ inbox.queue ++ for_node node cs)
commands-delivered s cs node source clock inbox ints other_node other empty =
    let (s', e, h) = forward_all-Sends cs s in
    (s', e, h.local, Sends-received s s' cs node source clock inbox h ints other_node other empty)

-- The light is for ANY_ID, which no node takes from the network.
pub light-lost :
    (type : ButtonType) (floor i node : ℤ)
    → node ≢ any_id
    → for_node node (light_command type floor ∷ call_command type i floor ∷ [])
      ≡ (if i ==ℤ node then call_command type i floor ∷ [] else [])
unfolding is_for
light-lost type floor i node n =
    let f : (any_id ==ℤ node) ≡ false = elim (Bool-cases (any_id ==ℤ node)) [
      | inl e ↦ absurd (n (sym ((==ℤ_iff any_id node).0 e)))
      | inr e ↦ e
    ] in
    rw f (append-nil (if i ==ℤ node then call_command type i floor ∷ [] else []))
