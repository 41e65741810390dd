-- ===== src/UdpQueue.antt =====
-- elevator/udpqueue.h: queues between the nodes. A sender takes messages from its queue and sends
-- them, a receiver puts those that it accepts into its queue. One round of a loop is one step; a
-- failed assertion leaves the round and the restart wrapper begins the next one.
pub mod Delivery
use ttk.Prelude.{ℕ, zero, suc, Bool, true, false, List, [], ◌∷◌, Option, none, some, if◌then◌else◌}
use ttk.Outcome.{Outcome, ok, failed, ◌>>=◌}
use ttk.ConcurrentQueue.{ConcurrentQueue, enqueue, dequeue}
use ttk.Serialization.{Serializable, to_packet, from_packet}
use ttk.UdpTools.{Address, same_ip}
use ttk.UdpTools.Packets.{Packet, Socket, Datagram, recv_packet, open_socket}

pub record QueueSender (A : Type 0) : Type 0 where
  pub sock : Socket
  pub send_addr : Address
  pub queue : ConcurrentQueue A

-- The predicate may change the message, and may read the clock: it is given the time of its call.
-- `none` is the receiver without a predicate.
pub record QueueReceiver (A : Type 0) : Type 0 where
  pub sock : Socket
  pub queue : ConcurrentQueue A
  pub pred : Option (ℕ → A → A × Bool)

abbrev pub add_packet : Option Packet → List Packet → List Packet
add_packet none ps = ps
add_packet (some p) ps = p ∷ ps

-- The constructors; the socket option for broadcasts is a call into the system.
module _ {A : Type 0} where
  unfoldable pub new_sender : Address → Address → ConcurrentQueue A → QueueSender A
  new_sender bind_addr send_addr queue = record {
    sock = open_socket bind_addr;
    send_addr = send_addr;
    queue = queue;
  }

  unfoldable pub new_receiver :
      Address → ConcurrentQueue A → Option (ℕ → A → A × Bool) → QueueReceiver A
  new_receiver bind_addr queue pred = record {
    sock = open_socket bind_addr;
    queue = queue;
    pred = pred;
  }

-- The receiver's last step.
module _ {A : Type 0} where
  abbrev pub put_if : Bool → A → QueueReceiver A → QueueReceiver A
  put_if true x r = record r { queue = enqueue x r.queue }
  put_if false x r = r

  -- The call of the predicate, if there is one.
  unfoldable pub offer_by : Option (ℕ → A → A × Bool) → ℕ → A → QueueReceiver A → QueueReceiver A
  offer_by none now x r = put_if true x r
  offer_by (some accept) now x r = let (y, taken) = accept now x in put_if taken y r

  unfoldable pub offer : ℕ → A → QueueReceiver A → QueueReceiver A
  unfolding offer_by
  offer now x r = offer_by r.pred now x r

  -- `Received invalid message`
  unfoldable pub take_message : ℕ → Option A → QueueReceiver A → Outcome (QueueReceiver A)
  take_message now none r = failed
  take_message now (some x) r = ok (offer now x r)

  abbrev pub or_restart : QueueReceiver A → Outcome (QueueReceiver A) → QueueReceiver A
  or_restart r (ok r') = r'
  or_restart r failed = r

module _ {A : Type 0} (type : ℕ) (s : Serializable A) where
  abbrev pub sent_packet : Address → Option A → Option Packet
  sent_packet to none = none
  sent_packet to (some x) = some (record { address = to; bytes = to_packet type s x })

  -- One round of the sender, where `arrivals` come while it waits: the packet that it sends. Whether
  -- the system sent it is not looked at.
  unfoldable pub send_round : List A → QueueSender A → QueueSender A × Option Packet
  unfolding dequeue
  send_round arrivals q =
      let (rest, x) = dequeue arrivals q.queue in
      (record q { queue = rest }, sent_packet q.send_addr x)

  -- What the receiver does with a packet.
  unfoldable pub accept_packet : ℕ → Packet → QueueReceiver A → Outcome (QueueReceiver A)
  unfolding take_message
  accept_packet now pack r =
      if same_ip pack.address.ip_address r.sock.local_address.ip_address
      then ok r
      else (do mx ← from_packet type s pack.bytes; take_message now mx r)

  -- One round of the receiver.
  unfoldable pub receive_round : ℕ → Datagram → QueueReceiver A → Outcome (QueueReceiver A)
  unfolding accept_packet
  receive_round now found r = do pack ← recv_packet r.sock found; accept_packet now pack r

  -- The loop over what the network brings, with the times at which it does.
  unfoldable pub receive_all : List (ℕ × Datagram) → QueueReceiver A → QueueReceiver A
  receive_all [] r = r
  receive_all ((now, found) ∷ more) r = receive_all more (or_restart r (receive_round now found r))

  -- `n` rounds of the sender with nothing new, and the packets that they send.
  unfoldable pub send_all : ℕ → QueueSender A → QueueSender A × List Packet
  unfolding send_round
  send_all zero q = (q, [])
  send_all (suc n) q =
      let (q₁, p) = send_round [] q in let (q₂, ps) = send_all n q₁ in (q₂, add_packet p ps)
