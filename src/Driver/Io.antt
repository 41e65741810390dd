-- ===== src/Driver/Io.antt =====
-- elevator/io.cpp, the branch without libcomedi: digital channels are the map `setBits`, where a
-- missing key reads as false. An analog write is kept as the channel's last value (the branch only
-- prints it; with libcomedi the device receives it). The environment may change the bits of input
-- channels between two operations.
use ttk.Prelude.{ℕ, ◌≡◌, ◌≢◌, arith, Bool, false, if◌then◌else◌}
use ttk.Prelude.Int.{ℤ, ◌==ℤ◌, ==ℤ_iff}

pub record Io : Type 0 where
  pub set_bits : ℤ → Bool
  pub analog : ℤ → ℕ

-- A new map has no key.
unfoldable pub new_io : Io
new_io = record { set_bits = λ c. false; analog = λ c. 0 }

unfoldable pub io_set_bit : ℤ → Bool → Io → Io
io_set_bit channel value io = record io {
  set_bits = λ c. if c ==ℤ channel then value else io.set_bits c;
}

unfoldable pub io_write_analog : ℤ → ℕ → Io → Io
io_write_analog channel value io = record io {
  analog = λ c. if c ==ℤ channel then value else io.analog c;
}

unfoldable pub io_read_bit : ℤ → Io → Bool
io_read_bit channel io = io.set_bits channel

pub read-set_self : (c : ℤ) (v : Bool) (io : Io) → io_read_bit c (io_set_bit c v io) ≡ v
unfolding io_set_bit io_read_bit
read-set_self c v io = ground arith

pub read-set_ne :
    (c k : ℤ) (v : Bool) (io : Io) → c ≢ k → io_read_bit c (io_set_bit k v io) ≡ io_read_bit c io
unfolding io_set_bit io_read_bit
read-set_ne c k v io n = ground (arith, ==ℤ_iff c k, n)
