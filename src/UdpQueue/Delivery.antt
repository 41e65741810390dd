-- ===== src/UdpQueue/Delivery.antt =====
-- elevator/udpqueue.h: what leaves the queue of one node and what reaches the queue of another.
use ttk.Prelude.{
  ℕ, zero, suc, ◌+◌, ◌^◌, ◌≤◌, ◌<◌, ◌≡◌, refl, sym, ap, ◌∙◌, arith, Bool, true, false, List, [],
  ◌∷◌, ◌++◌, Option, none, some, length, All, In, head, tail, All-In, All-map, map, ltb, leb,
  if◌then◌else◌,
}
use mathlib.Core.List.{append_assoc, append-nil}
use ttk.Outcome.{ok}
use ttk.ConcurrentQueue.{enqueue, dequeue}
use ttk.Serialization.{Serializable, take, to_packet}
use ttk.Serialization.Laws.{RoundTrips, length-to_packet, from_packet-own}
use ttk.UdpTools.{Address, same_ip}
use ttk.UdpTools.Packets.{Packet, Socket, Datagram, stored, packet_of, packet_from, recv_packet}
use ttk.UdpQueue.{
  QueueSender, QueueReceiver, put_if, offer_by, offer, take_message, accept_packet, receive_round,
  receive_all, or_restart, send_all,
}

take-all : (n : ℕ) (bs : List ℕ) → length bs ≤ n → take n bs ≡ bs
unfolding take
take-all zero [] h = refl
take-all zero (b ∷ bs) h = absurd (omega arith)
take-all (suc n) [] h = refl
take-all (suc n) (b ∷ bs) h = ap (λ t. b ∷ t) (take-all n bs (omega arith))

-- A datagram with at least one byte that fits the buffer is received as it is.
recv_packet-whole :
    (s : Socket) (source : Address) (bs : List ℕ)
    → 1 ≤ length bs
    → length bs ≤ s.rcvbuf_size
    → recv_packet s (some (source, bs)) ≡ ok (record { address = source; bytes = bs })
unfolding recv_packet packet_from packet_of stored
recv_packet-whole s source bs h k =
    let some_bytes : ltb 0 (length bs) ≡ true = ground arith in
    let enough : leb 1 (length bs) ≡ true = ground arith in
    rw (take-all s.rcvbuf_size bs k, some_bytes, enough, take-all (length bs) bs (omega arith)) refl

module _ {A : Type 0} where
  -- What a receiver makes of the messages, each at the time when it arrives.
  abbrev pub accepted : Option (ℕ → A → A × Bool) → List (ℕ × A) → List A
  accepted none [] = []
  accepted none ((now, x) ∷ more) = x ∷ accepted none more
  accepted (some accept) [] = []
  accepted (some accept) ((now, x) ∷ more) =
      (if (accept now x).1 then (accept now x).0 ∷ [] else []) ++ accepted (some accept) more

  abbrev pub with_queue : QueueReceiver A → List A → QueueReceiver A
  with_queue r xs = record r { queue = record { queue = xs } }

put_if-queue :
    {A : Type 0} (b : Bool) (x : A) (r : QueueReceiver A)
    → put_if b x r ≡ with_queue r (r.queue.queue ++ ((if b then x ∷ [] else []) ++ []))
unfolding enqueue
put_if-queue true x r = refl
put_if-queue false x r = ap (with_queue r) (sym (append-nil r.queue.queue))

offer-accepted :
    {A : Type 0} (pred : Option (ℕ → A → A × Bool)) (now : ℕ) (x : A) (r : QueueReceiver A)
    → offer_by pred now x r ≡ with_queue r (r.queue.queue ++ accepted pred ((now, x) ∷ []))
unfolding offer_by enqueue
offer-accepted none now x r = refl
offer-accepted (some accept) now x r = put_if-queue (accept now x).1 (accept now x).0 r

accepted-nil : {A : Type 0} (pred : Option (ℕ → A → A × Bool)) → accepted pred [] ≡ []
accepted-nil none = refl
accepted-nil (some accept) = refl

accepted-cons :
    {A : Type 0} (pred : Option (ℕ → A → A × Bool)) (m : ℕ × A) (more : List (ℕ × A))
    → accepted pred (m ∷ more) ≡ accepted pred (m ∷ []) ++ accepted pred more
accepted-cons none (now, x) more = refl
accepted-cons (some accept) (now, x) more =
    ap (λ t. t ++ accepted (some accept) more)
      (sym (append-nil (if (accept now x).1 then (accept now x).0 ∷ [] else [])))

-- The messages arrive one after another, at the readings of the clock.
abbrev pub timed {ℓ} : {A : Type ℓ} → (ℕ → ℕ) → List A → List (ℕ × A)
timed clock [] = []
timed clock (x ∷ xs) = (clock 0, x) ∷ timed (λ n. clock (suc n)) xs

timed-In {ℓ} :
    {A : Type ℓ} (xs all : List A) (clock : ℕ → ℕ)
    → ((x : A) → In x xs → In x all)
    → All (λ (p : ℕ × A). In p.1 all) (timed clock xs)
timed-In [] all clock h = tt
timed-In (x ∷ xs) all clock h =
    (h x (head xs), timed-In xs all (λ n. clock (suc n)) (λ y m. h y (tail x m)))

-- The packets of one node on the network, one after another.
abbrev pub carried : Address → (ℕ → ℕ) → List Packet → List (ℕ × Datagram)
carried source clock [] = []
carried source clock (p ∷ ps) =
    (clock 0, some (source, p.bytes)) ∷ carried source (λ n. clock (suc n)) ps

-- A message that the format can carry, in a packet that a receive buffer of `n` bytes can hold.
abbrev pub Fits : {A : Type 0} → Serializable A → (A → Type 0) → ℕ → A → Type 0
Fits s Valid n x = Valid x × (8 + s.size x ≤ n)

module _ {A : Type 0} (type : ℕ) (s : Serializable A) where
  abbrev pub packet : Address → A → Packet
  packet to x = record { address = to; bytes = to_packet type s x }

  -- The packet of a message on the network, when it has come from `source`.
  abbrev pub datagram : Address → A → Datagram
  datagram source x = some (source, to_packet type s x)

  abbrev pub arrivals : Address → List (ℕ × A) → List (ℕ × Datagram)
  arrivals source [] = []
  arrivals source ((now, x) ∷ more) = (now, datagram source x) ∷ arrivals source more

module _ {A : Type 0} (type : ℕ) (s : Serializable A) (Valid : A → Type 0)
    (laws : RoundTrips s Valid) (known : type < 256 ^ 4) where
  receive-offer :
      (source : Address) (now : ℕ) (x : A) (r : QueueReceiver A)
      → same_ip source.ip_address r.sock.local_address.ip_address ≡ false
      → r.sock.rcvbuf_size < 256 ^ 4
      → Fits s Valid r.sock.rcvbuf_size x
      → receive_round type s now (datagram type s source x) r ≡ ok (offer now x r)
  unfolding receive_round accept_packet take_message
  receive-offer source now x r other small (v, fit) =
      rw
        (
          recv_packet-whole r.sock source (to_packet type s x)
              (omega (arith, length-to_packet s Valid laws type x))
              (omega (arith, length-to_packet s Valid laws type x)),
          other,
          from_packet-own s Valid laws type x known (omega arith) v,
        )
        refl

  receive_all-accepted :
      (source : Address) (arrived : List (ℕ × A)) (r : QueueReceiver A)
      → same_ip source.ip_address r.sock.local_address.ip_address ≡ false
      → r.sock.rcvbuf_size < 256 ^ 4
      → All (λ (p : ℕ × A). Fits s Valid r.sock.rcvbuf_size p.1) arrived
      → receive_all type s (arrivals type s source arrived) r
        ≡ with_queue r (r.queue.queue ++ accepted r.pred arrived)
  unfolding receive_all offer
  receive_all-accepted source [] r other small fits =
      ap (with_queue r)
        (sym (append-nil r.queue.queue) ∙ ap (λ t. r.queue.queue ++ t) (sym (accepted-nil r.pred)))
  receive_all-accepted source ((now, x) ∷ more) r other small fits =
      ap (λ o. receive_all type s (arrivals type s source more) (or_restart r o))
        (receive-offer source now x r other small fits.0)
      ∙ ap (receive_all type s (arrivals type s source more)) (offer-accepted r.pred now x r)
      ∙ receive_all-accepted source more
          (with_queue r (r.queue.queue ++ accepted r.pred ((now, x) ∷ []))) other small fits.1
      ∙ ap (with_queue r) (
          append_assoc r.queue.queue (accepted r.pred ((now, x) ∷ [])) (accepted r.pred more)
          ∙ ap (λ t. r.queue.queue ++ t) (sym (accepted-cons r.pred (now, x) more)))

  send_all-sends :
      (q : QueueSender A) (xs : List A)
      → send_all type s (length xs) (record q { queue = record { queue = xs } })
        ≡ (record q { queue = record { queue = [] } }, map (packet type s q.send_addr) xs)
  unfolding send_all dequeue
  send_all-sends q [] = refl
  send_all-sends q (x ∷ xs) =
      let rest : List A → QueueSender A × List Packet =
        λ t. send_all type s (length xs) (record q { queue = record { queue = t } }) in
      ap (λ t. ((rest t).0, packet type s q.send_addr x ∷ (rest t).1)) (append-nil xs)
      ∙ ap (λ (r : QueueSender A × List Packet). (r.0, packet type s q.send_addr x ∷ r.1))
          (send_all-sends q xs)

  -- A sender with nothing new takes each message from its queue once, in order, and sends it in a
  -- packet to its address. Whichever of these packets reach a receiver on a node with another
  -- address, in any order and any number of times, the receiver puts exactly the messages that its
  -- predicate accepts, as the predicate leaves them, into its queue, in the order of their
  -- arrival. This holds for a format that reads what it wrote, valid messages, and packets that
  -- fit the buffer.
  pub send-receive :
      (q : QueueSender A) (xs : List A) (source : Address) (arrived : List (ℕ × A))
      (r : QueueReceiver A)
      → All (Fits s Valid r.sock.rcvbuf_size) xs
      → All (λ (p : ℕ × A). In p.1 xs) arrived
      → same_ip source.ip_address r.sock.local_address.ip_address ≡ false
      → r.sock.rcvbuf_size < 256 ^ 4
      → (send_all type s (length xs) (record q { queue = record { queue = xs } })
          ≡ (record q { queue = record { queue = [] } }, map (packet type s q.send_addr) xs))
        × (receive_all type s (arrivals type s source arrived) r
            ≡ with_queue r (r.queue.queue ++ accepted r.pred arrived))
  send-receive q xs source arrived r fits from_xs other small = (
    send_all-sends q xs,
    receive_all-accepted source arrived r other small (
        All-map (λ (p : ℕ × A). In p.1 xs) (λ (p : ℕ × A). Fits s Valid r.sock.rcvbuf_size p.1)
          (λ p m. All-In (Fits s Valid r.sock.rcvbuf_size) m fits) arrived from_xs),
  )

  carried-arrivals :
      (to source : Address) (xs : List A) (clock : ℕ → ℕ)
      → carried source clock (map (packet type s to) xs) ≡ arrivals type s source (timed clock xs)
  carried-arrivals to source [] clock = refl
  carried-arrivals to source (x ∷ xs) clock =
      ap (λ t. (clock 0, datagram type s source x) ∷ t)
        (carried-arrivals to source xs (λ n. clock (suc n)))

  -- The case where all packets arrive in their order.
  pub send-carried :
      (q : QueueSender A) (xs : List A) (source : Address) (clock : ℕ → ℕ) (r : QueueReceiver A)
      → All (Fits s Valid r.sock.rcvbuf_size) xs
      → same_ip source.ip_address r.sock.local_address.ip_address ≡ false
      → r.sock.rcvbuf_size < 256 ^ 4
      → receive_all type s
          (carried source clock
            (send_all type s (length xs) (record q { queue = record { queue = xs } })).1)
          r
        ≡ with_queue r (r.queue.queue ++ accepted r.pred (timed clock xs))
  send-carried q xs source clock r fits other small =
      let (sends, receives) =
        send-receive q xs source (timed clock xs) r fits (timed-In xs xs clock (λ x m. m)) other
          small in
      ap (λ (t : QueueSender A × List Packet). receive_all type s (carried source clock t.1) r)
        sends
      ∙ ap (λ t. receive_all type s t r) (carried-arrivals q.send_addr source xs clock)
      ∙ receives
