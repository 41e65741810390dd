-- ===== src/UdpTools/Packets.antt =====
-- elevator/udptools.h and elevator/udptools.cpp: packets and sockets. What the system calls return is
-- an argument: the datagram that recvfrom takes from the network, and the number of bytes that
-- sendto sent. The conversions to and from the system's form of an address are left out.
use ttk.Prelude.{ℕ, Bool, List, [], Option, none, some, length, ltb, leb, ◌==◌, if◌then◌else◌}
use ttk.Outcome.{Outcome, ok, ◌>>◌, assert}
use ttk.UdpTools.{Address, no_address}
use ttk.Serialization.{take}

pub record Packet : Type 0 where
  pub address : Address
  pub bytes : List ℕ

-- The packet that owns no data.
abbrev pub no_packet : Packet
no_packet = record { address = no_address; bytes = [] }

-- Packet( data, size, addr ), from the `size` bytes behind the pointer.
unfoldable pub packet_of : List ℕ → ℕ → Address → Outcome Packet
packet_of memory size addr = do
  assert (leb 1 size)
  ok (record { address = addr; bytes = take size memory })

abbrev pub size : Packet → ℕ
size p = length p.bytes

pub record Socket : Type 0 where
  pub local_address : Address
  pub rcvbuf_size : ℕ

abbrev pub standard_mtu : ℕ
standard_mtu = 1500

unfoldable pub open_socket : Address → Socket
open_socket local = record { local_address = local; rcvbuf_size = standard_mtu }

unfoldable pub set_recv_buffer_size : ℕ → Socket → Outcome Socket
set_recv_buffer_size size s = do assert (leb 1 size); ok (record s { rcvbuf_size = size })

-- `sent` is what sendto returned.
unfoldable pub send_packet : ℕ → Packet → Bool
send_packet sent p = sent == size p

-- What recvfrom finds: a sender and the bytes that were sent, or `none` after an error or a timeout.
abbrev pub Datagram : Type 0
Datagram = Option (Address × List ℕ)

-- recvfrom stores at most as many bytes as the buffer has, and returns their number.
unfoldable pub stored : Socket → List ℕ → List ℕ
stored s bytes = take s.rcvbuf_size bytes

unfoldable pub packet_from : Address → List ℕ → Outcome Packet
unfolding packet_of
packet_from remote buffer =
    if ltb 0 (length buffer) then packet_of buffer (length buffer) remote else ok no_packet

unfoldable pub recv_packet : Socket → Datagram → Outcome Packet
unfolding packet_from stored
recv_packet s none = ok no_packet
recv_packet s (some (remote, bytes)) = packet_from remote (stored s bytes)
