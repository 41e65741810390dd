-- ===== src/Driver.antt =====
-- elevator/driver.h and elevator/driver.cpp: the data types of the driver's interface.
-- The children model the channels (Channels, Io) and the driver's operations (Ops).
pub mod Channels
pub mod Io
pub mod Ops
pub mod Lamps
pub mod Indicator
pub mod Shutdown
use ttk.Prelude.{Bool, true, false}
use ttk.Prelude.Int.{ℤ, ◌≤ℤ◌}

pub data ButtonType : Type 0 where
  call_up call_down target_floor : ButtonType

pub record Button : Type 0 where
  pub type : ButtonType
  pub floor : ℤ

pub data Direction : Type 0 where
  stay up down : Direction

pub record DriverInfo : Type 0 where
  pub min_floor : ℤ
  pub max_floor : ℤ

-- `dir == other`
abbrev pub is_direction : Direction → Direction → Bool
is_direction stay stay = true
is_direction stay _ = false
is_direction up up = true
is_direction up _ = false
is_direction down down = true
is_direction down _ = false

abbrev pub is_target_floor : ButtonType → Bool
is_target_floor target_floor = true
is_target_floor _ = false

abbrev pub is_call_up : ButtonType → Bool
is_call_up call_up = true
is_call_up _ = false

-- The floor is one that the elevator has.
pub record InBounds (f : ℤ) (d : DriverInfo) : Type 0 where
  pub above_min : d.min_floor ≤ℤ f
  pub below_max : f ≤ℤ d.max_floor
