-- ===== src/Tests/Messages.antt =====
-- elevator/serialization.h: a command and a state change as packets.
use ttk.Prelude.{◌≡◌, ◌<◌, ◌^◌, refl, [], ◌∷◌, none, some, true, false, arith, ◌==◌, if◌then◌else◌}
use ttk.Prelude.Int.{pos}
use ttk.Outcome.{ok}
use ttk.Driver.{up}
use ttk.Command.{Command, call_to_floor_and_go_up}
use ttk.State.{StateChange, served}
use ttk.Serialization.{fundamental, to_bytes, to_packet, from_packet}
use ttk.Serialization.Laws.{fundamental-RoundTrips, from_packet-to_packet}
use ttk.Serialization.Formats.{
  command_format, state_change_format, elevator_command, elevator_state,
}
use ttk.Serialization.Messages.{from_packet-messages}

abbrev call : Command
call = record {
  command_type = call_to_floor_and_go_up;
  target_elevator_id = pos 1;
  target_floor = pos 3;
}

abbrev change : StateChange
change = record {
  change_type = served;
  change_floor = pos 2;
  state = record {
    id = pos 1;
    timestamp = 4000;
    last_floor = pos 2;
    direction = up;
    stopped = false;
    door_open = true;
    inside_buttons = record { floors = 8 };
    up_buttons = record { floors = 0 };
    down_buttons = record { floors = 4 };
  };
}

from_packet-messages_example :
    (from_packet elevator_command command_format (to_packet elevator_command command_format call)
      ≡ ok (some call))
    × (from_packet elevator_state state_change_format
          (to_packet elevator_state state_change_format change)
        ≡ ok (some change))
from_packet-messages_example =
    from_packet-messages call change
      (
        record { from_min = omega arith; to_max = omega arith },
        record { from_min = omega arith; to_max = omega arith },
      )
      (
        record { from_min = omega arith; to_max = omega arith },
        record {
          id_int = record { from_min = omega arith; to_max = omega arith };
          time_int = omega arith;
          floor_int = record { from_min = omega arith; to_max = omega arith };
          inside_word = omega arith;
          up_word = omega arith;
          down_word = omega arith;
        },
      )

from_packet-to_packet_example :
    from_packet 3 (fundamental 2) (to_packet 2 (fundamental 2) 513)
    ≡ (if 3 == 2 then ok (some 513) else ok none)
unfolding fundamental
from_packet-to_packet_example =
    from_packet-to_packet (fundamental 2) (λ n. n < 256 ^ 2) (fundamental-RoundTrips 2) 2 3 513
      (omega arith) (omega arith) (omega arith)

little_endian : to_bytes 2 513 ≡ 1 ∷ 2 ∷ []
unfolding to_bytes
little_endian = refl
