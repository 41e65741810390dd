-- ===== src/Serialization/Messages.antt =====
-- elevator/command.h and elevator/state.h: the messages between the nodes arrive as they were sent.
use ttk.Prelude.{ℕ, ◌-◌, ◌%◌, ◌^◌, ◌<◌, ◌≡◌, refl, ap, arith, Bool, true, false, ltb, some}
use ttk.Prelude.Int.{ℤ, pos, negsuc, ◌≤ℤ◌, int_min, int_max}
use ttk.Outcome.{ok}
use ttk.Driver.{Direction}
use ttk.FloorSet.{IsWord}
use ttk.Command.{Command, CommandType}
use ttk.State.{ChangeType, change_value, ElevatorState, StateChange}
use ttk.Serialization.{fundamental, converted, pair, to_packet, from_packet}
use ttk.Serialization.Laws.{
  RoundTrips, fundamental-RoundTrips, converted-RoundTrips, pair-RoundTrips, from_packet-to_packet,
}
use ttk.Serialization.Formats.{
  int_bits, int_of, int_format, widen, time_format, bool_value, bool_of, bool_format,
  direction_value, direction_of, direction_format, command_value, command_of, command_type_format,
  command_format, floor_set_format, change_of, change_format, state_tuple, state_of, state_format,
  state_change_format, elevator_command, elevator_state,
}

-- The value of an int.
pub record IsInt (z : ℤ) : Type 0 where
  pub from_min : int_min ≤ℤ z
  pub to_max : z ≤ℤ int_max

int_format-RoundTrips : RoundTrips int_format IsInt
unfolding int_format int_bits int_of
int_format-RoundTrips =
    converted-RoundTrips int_bits int_of (fundamental 4) IsInt (λ n. n < 256 ^ 4) back below
      (fundamental-RoundTrips 4)
  where
    back : (z : ℤ) → IsInt z → int_of (int_bits z) ≡ z
    back (pos n) v = let e : ltb n (2 ^ 31) ≡ true = ground (arith, v.to_max) in rw e refl
    back (negsuc n) v =
        let e : ltb (2 ^ 32 - 1 - n) (2 ^ 31) ≡ false = ground (arith, v.from_min) in
        let f : 2 ^ 32 - 1 - (2 ^ 32 - 1 - n) ≡ n = omega (arith, v.from_min) in rw e (ap negsuc f)

    below : (z : ℤ) → IsInt z → int_bits z < 256 ^ 4
    below (pos n) v = omega (arith, v.to_max)
    below (negsuc n) v = omega (arith, v.from_min)

time-RoundTrips : RoundTrips time_format (λ t. t < 2 ^ 31)
unfolding time_format widen
time-RoundTrips =
    converted-RoundTrips (λ t. t % 2 ^ 32) widen (fundamental 4) (λ t. t < 2 ^ 31)
      (λ n. n < 256 ^ 4) back (λ t v. omega arith) (fundamental-RoundTrips 4)
  where
    back : (t : ℕ) → t < 2 ^ 31 → widen (t % 2 ^ 32) ≡ t
    back t v =
        let m : t % 2 ^ 32 ≡ t = omega arith in
        let e : ltb (t % 2 ^ 32) (2 ^ 31) ≡ true = ground arith in rw e m

bool-RoundTrips : RoundTrips bool_format (λ b. Unit)
unfolding bool_format
bool-RoundTrips =
    converted-RoundTrips bool_value bool_of (fundamental 1) (λ b. Unit) (λ n. n < 256 ^ 1)
      (λ b v. back b) (λ b v. below b) (fundamental-RoundTrips 1)
  where
    back : (b : Bool) → bool_of (bool_value b) ≡ b
    back b = ground arith

    below : (b : Bool) → bool_value b < 256 ^ 1
    below b = ground arith

direction-RoundTrips : RoundTrips direction_format (λ d. Unit)
unfolding direction_format
direction-RoundTrips =
    converted-RoundTrips direction_value direction_of (fundamental 4) (λ d. Unit) (λ n. n < 256 ^ 4)
      (λ d v. back d) (λ d v. below d) (fundamental-RoundTrips 4)
  where
    back : (d : Direction) → direction_of (direction_value d) ≡ d
    back d = ground arith

    below : (d : Direction) → direction_value d < 256 ^ 4
    below d = ground arith

change-RoundTrips : RoundTrips change_format (λ c. Unit)
unfolding change_format
change-RoundTrips =
    converted-RoundTrips change_value change_of (fundamental 4) (λ c. Unit) (λ n. n < 256 ^ 4)
      (λ c v. back c) (λ c v. below c) (fundamental-RoundTrips 4)
  where
    back : (c : ChangeType) → change_of (change_value c) ≡ c
    back c = ground arith

    below : (c : ChangeType) → change_value c < 256 ^ 4
    below c = ground arith

floor_set-RoundTrips : RoundTrips floor_set_format IsWord
unfolding floor_set_format
floor_set-RoundTrips =
    converted-RoundTrips _ _ (fundamental 8) IsWord (λ n. n < 256 ^ 8) (λ s v. refl) (λ s v. v)
      (fundamental-RoundTrips 8)

command_type-RoundTrips : RoundTrips command_type_format (λ c. Unit)
unfolding command_type_format
command_type-RoundTrips =
    converted-RoundTrips command_value command_of (fundamental 4) (λ c. Unit) (λ n. n < 256 ^ 4)
      (λ c v. back c) (λ c v. below c) (fundamental-RoundTrips 4)
  where
    back : (c : CommandType) → command_of (command_value c) ≡ c
    back c = ground arith

    below : (c : CommandType) → command_value c < 256 ^ 4
    below c = ground arith

-- The numbers of a command are ints.
abbrev pub IsMessage : Command → Type 0
IsMessage c = IsInt c.target_elevator_id × IsInt c.target_floor

pub command-RoundTrips : RoundTrips command_format IsMessage
unfolding command_format
command-RoundTrips =
    converted-RoundTrips _ _ _ IsMessage (λ t. Unit × (IsInt t.1.0 × IsInt t.1.1)) (λ c v. refl)
      (λ c v. (tt, v))
      (pair-RoundTrips _ _ (λ c. Unit) (λ t. IsInt t.0 × IsInt t.1) command_type-RoundTrips
        (pair-RoundTrips _ _ IsInt IsInt int_format-RoundTrips int_format-RoundTrips))

-- The numbers of a state fit the tuple's types.
pub record IsSendable (s : ElevatorState) : Type 0 where
  pub id_int : IsInt s.id
  pub time_int : s.timestamp < 2 ^ 31
  pub floor_int : IsInt s.last_floor
  pub inside_word : IsWord s.inside_buttons
  pub up_word : IsWord s.up_buttons
  pub down_word : IsWord s.down_buttons

pub state-RoundTrips : RoundTrips state_format IsSendable
unfolding state_format
state-RoundTrips =
    converted-RoundTrips state_tuple state_of _ IsSendable
      (λ t.
        IsInt t.0
        × ((t.1.0 < 2 ^ 31)
            × (IsInt t.1.1.0
                × (Unit
                    × (Unit
                        × (Unit
                            × (IsWord t.1.1.1.1.1.1.0
                                × (IsWord t.1.1.1.1.1.1.1.0 × IsWord t.1.1.1.1.1.1.1.1))))))))
      (λ s v. refl)
      (λ s v. (
        v.id_int,
        (v.time_int, (v.floor_int, (tt, (tt, (tt, (v.inside_word, (v.up_word, v.down_word))))))),
      ))
      (pair-RoundTrips _ _ IsInt _ int_format-RoundTrips (
        pair-RoundTrips _ _ (λ t. t < 2 ^ 31) _ time-RoundTrips
          (pair-RoundTrips _ _ IsInt _ int_format-RoundTrips (
            pair-RoundTrips _ _ (λ d. Unit) _ direction-RoundTrips
              (pair-RoundTrips _ _ (λ b. Unit) _ bool-RoundTrips
                (pair-RoundTrips _ _ (λ b. Unit) _ bool-RoundTrips
                  (pair-RoundTrips _ _ IsWord _ floor_set-RoundTrips (
                    pair-RoundTrips _ _ IsWord IsWord floor_set-RoundTrips
                      floor_set-RoundTrips))))))))

-- So do those of a change.
abbrev pub IsUpdate : StateChange → Type 0
IsUpdate u = IsInt u.change_floor × IsSendable u.state

pub change_of_state-RoundTrips : RoundTrips state_change_format IsUpdate
unfolding state_change_format
change_of_state-RoundTrips =
    converted-RoundTrips _ _ _ IsUpdate (λ t. Unit × (IsInt t.1.0 × IsSendable t.1.1)) (λ c v. refl)
      (λ c v. (tt, v))
      (pair-RoundTrips _ _ (λ c. Unit) (λ t. IsInt t.0 × IsSendable t.1) change-RoundTrips
        (pair-RoundTrips _ _ IsInt IsSendable int_format-RoundTrips state-RoundTrips))

pub command-size : (c : Command) → command_format.size c ≡ 12
unfolding command_format command_type_format int_format pair converted fundamental
command-size c = refl

pub state-size : (e : ElevatorState) → state_format.size e ≡ 42
unfolding state_format floor_set_format direction_format bool_format time_format int_format pair
    converted fundamental
state-size e = refl

pub state_change-size : (u : StateChange) → state_change_format.size u ≡ 50
unfolding state_change_format state_format change_format floor_set_format direction_format
    bool_format time_format int_format pair converted fundamental
state_change-size u = refl

-- A command whose numbers are ints, and a state change whose numbers are ints, whose floor sets
-- are 64-bit words and whose timestamp is below 2^31, are read from their packets as they were
-- written.
pub from_packet-messages :
    (c : Command) (u : StateChange)
    → IsMessage c
    → IsUpdate u
    → (from_packet elevator_command command_format (to_packet elevator_command command_format c)
        ≡ ok (some c))
      × (from_packet elevator_state state_change_format
            (to_packet elevator_state state_change_format u)
          ≡ ok (some u))
from_packet-messages c u v w = (
  from_packet-to_packet command_format IsMessage command-RoundTrips elevator_command
      elevator_command c (omega arith) (omega (arith, command-size c)) v,
  from_packet-to_packet state_change_format IsUpdate change_of_state-RoundTrips elevator_state
      elevator_state u (omega arith) (omega (arith, state_change-size u)) w,
)
