-- ===== src/UdpTools.antt =====
-- elevator/udptools.h: addresses of the network.
pub mod Addresses
pub mod Packets
pub mod AddressSets
use Prim.Native.Nat.{bit_and, bit_or}
use ttk.Prelude.{
  ℕ, ◌*◌, ◌/◌, ◌%◌, ◌^◌, Bool, true, false, not, ◌&&◌, List, [], ◌∷◌, ltb, ◌==◌, if◌then◌else◌,
}

-- The uint32_t of the address.
pub record IPv4Address : Type 0 where
  pub addr : ℕ

-- (a << 24) | (b << 16) | (c << 8) | d, as a uint32_t
unfoldable pub ip : ℕ → ℕ → ℕ → ℕ → IPv4Address
ip a b c d = record {
  addr = bit_or (bit_or (bit_or (a * 2 ^ 24) (b * 2 ^ 16)) (c * 2 ^ 8)) d % 2 ^ 32;
}

unfoldable pub as_array : IPv4Address → List ℕ
as_array a =
    bit_and (a.addr / 2 ^ 24) 0xff
    ∷ bit_and (a.addr / 2 ^ 16) 0xff
    ∷ bit_and (a.addr / 2 ^ 8) 0xff
    ∷ bit_and (a.addr / 2 ^ 0) 0xff
    ∷ []

abbrev pub same_ip : IPv4Address → IPv4Address → Bool
same_ip a b = a.addr == b.addr

abbrev pub before_ip : IPv4Address → IPv4Address → Bool
before_ip a b = ltb a.addr b.addr

pub record Port : Type 0 where
  pub port : ℕ

pub record Address : Type 0 where
  pub ip_address : IPv4Address
  pub port : Port

abbrev pub same_port : Port → Port → Bool
same_port a b = a.port == b.port

-- The constructors without arguments.
abbrev pub no_address : Address
no_address = record { ip_address = record { addr = 0 }; port = record { port = 0 } }

-- operator==, operator!= (with its &&) and operator<
unfoldable pub same_address : Address → Address → Bool
same_address a b = same_ip a.ip_address b.ip_address && same_port a.port b.port

unfoldable pub other_address : Address → Address → Bool
other_address a b = not (same_ip a.ip_address b.ip_address) && not (same_port a.port b.port)

unfoldable pub before_address : Address → Address → Bool
before_address a b =
    if same_ip a.ip_address b.ip_address
    then ltb a.port.port b.port.port
    else before_ip a.ip_address b.ip_address

-- The constants of udptools.cpp.
abbrev pub any_ip : IPv4Address
any_ip = ip 0 0 0 0

abbrev pub localhost : IPv4Address
localhost = ip 127 0 0 1

abbrev pub broadcast : IPv4Address
broadcast = ip 255 255 255 255

-- std::set< IPv4Address >: its addresses in order. insert and find.
unfoldable pub insert : IPv4Address → List IPv4Address → List IPv4Address
insert a [] = a ∷ []
insert a (b ∷ bs) =
    let rest = insert a bs in
    if before_ip a b then a ∷ b ∷ bs else if same_ip a b then b ∷ bs else b ∷ rest

unfoldable pub contains : IPv4Address → List IPv4Address → Bool
contains a [] = false
contains a (b ∷ bs) = let rest = contains a bs in if same_ip a b then true else rest
