-- ===== src/UdpTools/Addresses.antt =====
-- elevator/udptools.h: the order and the equality of addresses.
use ttk.Prelude.{◌≡◌, ◌≢◌, ◌⊎◌, inl, inr, refl, ap, ℕ, ◌<◌, arith, true, false}
use ttk.UdpTools.{
  IPv4Address, Address, same_ip, same_port, same_address, other_address, before_address,
}

-- Of two addresses either the first comes before the second, or they are equal and neither comes
-- before the other, or the second comes before the first.
before_address-trichotomy :
    (a b : Address)
    → ((before_address a b ≡ true) × (a ≢ b) × (before_address b a ≡ false))
      ⊎ ((before_address a b ≡ false) × (a ≡ b) × (before_address b a ≡ false))
      ⊎ ((before_address a b ≡ false) × (a ≢ b) × (before_address b a ≡ true))
unfolding before_address
before_address-trichotomy a b = elim (order a.ip_address.addr b.ip_address.addr) [
  | inl l ↦ inl (
    ground arith,
    (λ e. omega (arith, l, ap (λ (x : Address). x.ip_address.addr) e)),
    ground arith,
  )
  | inr (inr l) ↦ inr (
      inr (
        ground arith,
        (λ e. omega (arith, l, ap (λ (x : Address). x.ip_address.addr) e)),
        ground arith,
      ))
  | inr (inl p) ↦ elim (order a.port.port b.port.port) [
    | inl l ↦
        inl
          (ground arith, (λ e. omega (arith, l, ap (λ (x : Address). x.port.port) e)), ground arith)
    | inr (inr l) ↦ inr (
        inr (
          ground arith,
          (λ e. omega (arith, l, ap (λ (x : Address). x.port.port) e)),
          ground arith,
        ))
    | inr (inl q) ↦ inr (
        inl (
          ground arith,
          (λ i. record { ip_address = record { addr = p i }; port = record { port = q i } }),
          ground arith,
        ))
  ]
]
  where
    order : (x y : ℕ) → (x < y) ⊎ ((x ≡ y) ⊎ (y < x))
    order x y = omega arith

-- Addresses at one IP address with different ports are neither equal nor, by operator!=, unequal.
other_address-partial :
    (a b : Address)
    → a.ip_address ≡ b.ip_address
    → a.port ≢ b.port
    → (same_address a b ≡ false) × (other_address a b ≡ false)
unfolding same_address other_address
other_address-partial a b e n =
    let f : same_port a.port b.port ≡ false =
      ground (arith, λ (q : a.port.port ≡ b.port.port). n (λ i. record { port = q i })) in
    let g : same_ip a.ip_address b.ip_address ≡ true =
      ground (arith, ap (λ (x : IPv4Address). x.addr) e) in
    (rw (g, f) refl, rw g refl)
