-- ===== src/Command.antt =====
-- elevator/command.h: commands from the scheduler to an elevator.
use ttk.Prelude.Int.{ℤ, int_min, int_max}

pub data CommandType : Type 0 where
  nothing call_to_floor_and_go_up call_to_floor_and_go_down : CommandType
  turn_on_light_up turn_off_light_up turn_on_light_down turn_off_light_down : CommandType

-- INT_MIN and INT_MAX
abbrev pub no_id : ℤ
no_id = int_min

abbrev pub any_id : ℤ
any_id = int_max

pub record Command : Type 0 where
  pub command_type : CommandType
  pub target_elevator_id : ℤ
  pub target_floor : ℤ

pub empty_command : Command
empty_command = record { command_type = nothing; target_elevator_id = no_id; target_floor = no_id }
