-- ===== src/Serialization/Formats.antt =====
-- elevator/command.h, elevator/state.h and elevator/floorset.h: the tuples of the messages between the
-- nodes, with elevator/serialization.h below them. Of the numbers that stand for an enumerator only
-- those that a sender writes are read as the source does.
use ttk.Prelude.{ℕ, ◌+◌, ◌-◌, ◌%◌, ◌^◌, Bool, ◌==◌, ltb, if◌then◌else◌}
use ttk.Prelude.Int.{ℤ, pos, negsuc}
use ttk.Driver.{Direction, stay, up, down}
use ttk.FloorSet.{FloorSet}
use ttk.Command.{
  Command, CommandType, nothing, call_to_floor_and_go_up, call_to_floor_and_go_down,
  turn_on_light_up, turn_off_light_up, turn_on_light_down, turn_off_light_down,
}
use ttk.State.{
  ChangeType, keep_alive, inside_button_pressed, button_down_pressed, button_up_pressed,
  going_to_serve_up, going_to_serve_down, served, served_up, served_down, other_change,
  change_value, ElevatorState, StateChange,
}
use ttk.State
use ttk.Serialization.{Serializable, fundamental, converted, pair}

-- The bits of an int, in two's complement.
unfoldable pub int_bits : ℤ → ℕ
int_bits (pos n) = n
int_bits (negsuc n) = 2 ^ 32 - 1 - n

unfoldable pub int_of : ℕ → ℤ
int_of m = if ltb m (2 ^ 31) then pos m else negsuc (2 ^ 32 - 1 - m)

unfoldable pub int_format : Serializable ℤ
int_format = converted int_bits int_of (fundamental 4)

-- A MillisecondTime goes through an int of the tuple: a negative int becomes a 64-bit number.
unfoldable pub widen : ℕ → ℕ
widen m = if ltb m (2 ^ 31) then m else m + (2 ^ 64 - 2 ^ 32)

unfoldable pub time_format : Serializable ℕ
time_format = converted (λ t. t % 2 ^ 32) widen (fundamental 4)

abbrev pub bool_value : Bool → ℕ
bool_value b = if b then 1 else 0

abbrev pub bool_of : ℕ → Bool
bool_of n = n == 1

unfoldable pub bool_format : Serializable Bool
bool_format = converted bool_value bool_of (fundamental 1)

abbrev pub direction_value : Direction → ℕ
direction_value stay = 0
direction_value up = 1
direction_value down = 2

abbrev pub direction_of : ℕ → Direction
direction_of n = if n == 0 then stay else if n == 1 then up else down

unfoldable pub direction_format : Serializable Direction
direction_format = converted direction_value direction_of (fundamental 4)

abbrev pub command_value : CommandType → ℕ
command_value nothing = 0
command_value call_to_floor_and_go_up = 1
command_value call_to_floor_and_go_down = 2
command_value turn_on_light_up = 3
command_value turn_off_light_up = 4
command_value turn_on_light_down = 5
command_value turn_off_light_down = 6

abbrev pub command_of : ℕ → CommandType
command_of n =
    if n == 0
    then nothing
    else if n == 1
    then call_to_floor_and_go_up
    else if n == 2
    then call_to_floor_and_go_down
    else if n == 3
    then turn_on_light_up
    else if n == 4
    then turn_off_light_up
    else if n == 5
    then turn_on_light_down
    else turn_off_light_down

unfoldable pub command_type_format : Serializable CommandType
command_type_format = converted command_value command_of (fundamental 4)

-- Command::tuple and the constructor from a tuple.
unfoldable pub command_format : Serializable Command
command_format =
    converted (λ c. (c.command_type, (c.target_elevator_id, c.target_floor)))
      (λ t. record { command_type = t.0; target_elevator_id = t.1.0; target_floor = t.1.1 })
      (pair command_type_format (pair int_format int_format))

unfoldable pub floor_set_format : Serializable FloorSet
floor_set_format = converted (λ s. s.floors) (λ n. record { floors = n }) (fundamental 8)

abbrev pub change_of : ℕ → ChangeType
change_of n =
    if n == 0
    then State.none
    else if n == 1
    then keep_alive
    else if n == 2
    then inside_button_pressed
    else if n == 3
    then button_down_pressed
    else if n == 4
    then button_up_pressed
    else if n == 5
    then going_to_serve_up
    else if n == 6
    then going_to_serve_down
    else if n == 7
    then served
    else if n == 8
    then served_up
    else if n == 9
    then served_down
    else other_change

unfoldable pub change_format : Serializable ChangeType
change_format = converted change_value change_of (fundamental 4)

-- ElevatorState::Tuple, from the left.
abbrev pub StateTuple : Type 0
StateTuple = ℤ × (ℕ × (ℤ × (Direction × (Bool × (Bool × (FloorSet × (FloorSet × FloorSet)))))))

abbrev pub state_tuple : ElevatorState → StateTuple
state_tuple s = (
  s.id,
  (
    s.timestamp,
    (
      s.last_floor,
      (s.direction, (s.stopped, (s.door_open, (s.inside_buttons, (s.up_buttons, s.down_buttons))))),
    ),
  ),
)

abbrev pub state_of : StateTuple → ElevatorState
state_of t = record {
  id = t.0;
  timestamp = t.1.0;
  last_floor = t.1.1.0;
  direction = t.1.1.1.0;
  stopped = t.1.1.1.1.0;
  door_open = t.1.1.1.1.1.0;
  inside_buttons = t.1.1.1.1.1.1.0;
  up_buttons = t.1.1.1.1.1.1.1.0;
  down_buttons = t.1.1.1.1.1.1.1.1;
}

unfoldable pub state_format : Serializable ElevatorState
state_format = converted state_tuple state_of (
    pair int_format (
      pair time_format (
        pair int_format (
          pair direction_format (
            pair bool_format (
              pair bool_format
                (pair floor_set_format (pair floor_set_format floor_set_format))))))))

-- StateChange::tuple and the constructor from a tuple.
unfoldable pub state_change_format : Serializable StateChange
state_change_format =
    converted (λ u. (u.change_type, (u.change_floor, u.state)))
      (λ t. record { change_type = t.0; change_floor = t.1.0; state = t.1.1 })
      (pair change_format (pair int_format state_format))

-- TypeSignature::ElevatorCommand and TypeSignature::ElevatorState
abbrev pub elevator_command : ℕ
elevator_command = 2

abbrev pub elevator_state : ℕ
elevator_state = 3
