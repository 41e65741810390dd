-- ===== src/Serialization.antt =====
-- elevator/internal/serialization.h and elevator/serialization.h: values as bytes. The memory behind
-- a pointer is a list of bytes, lowest first, and a number is stored little endian as on the target.
-- A read behind the end, which is undefined in the source, gives `none`.
pub mod Laws
pub mod Formats
pub mod Messages
pub mod Containers
use ttk.Outcome.{Outcome, ok, failed, ◌>>=◌, ◌>>◌, assert}
use ttk.Prelude.{
  ℕ, zero, suc, true, false, ◌==◌, if◌then◌else◌, ◌+◌, ◌-◌, ◌*◌, ◌/◌, ◌%◌, ◌^◌, List, [], ◌∷◌, ◌++◌,
  Option, none, some, length,
}

-- SerializableImpl: the size, and the two functions that move a pointer.
pub record Serializable (A : Type 0) : Type 0 where
  pub size : A → ℕ
  pub serialize : A → List ℕ
  pub deserialize : List ℕ → Option (A × List ℕ)

-- The bytes of a number of `w` bytes.
unfoldable pub to_bytes : ℕ → ℕ → List ℕ
to_bytes zero n = []
to_bytes (suc w) n = n % 256 ∷ to_bytes w (n / 256)

abbrev pub add_byte : ℕ → Option (ℕ × List ℕ) → Option (ℕ × List ℕ)
add_byte b none = none
add_byte b (some (n, rest)) = some (b + 256 * n, rest)

unfoldable pub from_bytes : ℕ → List ℕ → Option (ℕ × List ℕ)
from_bytes zero bs = some (0, bs)
from_bytes (suc w) [] = none
from_bytes (suc w) (b ∷ bs) = add_byte b (from_bytes w bs)

-- Trait::Fundamental for an unsigned type of `w` bytes.
unfoldable pub fundamental : ℕ → Serializable ℕ
fundamental w = record { size = λ n. w; serialize = to_bytes w; deserialize = from_bytes w }

module _ {A B : Type 0} where
  abbrev pub with_first : (B → A) → Option (B × List ℕ) → Option (A × List ℕ)
  with_first f none = none
  with_first f (some (b, rest)) = some (f b, rest)

  -- Trait::TupleSerializable and Trait::Enum: through another type.
  unfoldable pub converted : (A → B) → (B → A) → Serializable B → Serializable A
  converted to from s = record {
    size = λ a. s.size (to a);
    serialize = λ a. s.serialize (to a);
    deserialize = λ bs. with_first from (s.deserialize bs);
  }

  abbrev pub with_second : A → Option (B × List ℕ) → Option ((A × B) × List ℕ)
  with_second a none = none
  with_second a (some (b, rest)) = some ((a, b), rest)

  abbrev pub then_second : Serializable B → Option (A × List ℕ) → Option ((A × B) × List ℕ)
  then_second t none = none
  then_second t (some (a, rest)) = with_second a (t.deserialize rest)

  -- Trait::Tuple, for a first part and what follows.
  unfoldable pub pair : Serializable A → Serializable B → Serializable (A × B)
  pair s t = record {
    size = λ p. s.size p.0 + t.size p.1;
    serialize = λ p. s.serialize p.0 ++ t.serialize p.1;
    deserialize = λ bs. then_second t (s.deserialize bs);
  }

-- The first `n` bytes.
unfoldable pub take : ℕ → List ℕ → List ℕ
take zero bs = []
take (suc n) [] = []
take (suc n) (b ∷ bs) = b ∷ take n bs

-- Serialized with its type, and Serializer. A type signature is its value.
pub record Serialized : Type 0 where
  pub datatype : ℕ
  pub data_size : ℕ
  pub bytes : List ℕ

module _ {A : Type 0} where
  unfoldable pub serialize : ℕ → Serializable A → A → Serialized
  serialize type s a = record { datatype = type; data_size = s.size a; bytes = s.serialize a }

  -- The assertion on the size; a read behind the end fails too.
  unfoldable pub checked : Serializable A → ℕ → Option (A × List ℕ) → Outcome (Option A)
  checked s n none = failed
  checked s n (some (a, rest)) = do assert (n == s.size a); ok (some a)

  -- `ok none` is the Nothing of a wrong type.
  unfoldable pub deserialize : ℕ → Serializable A → Serialized → Outcome (Option A)
  unfolding checked
  deserialize type s d =
      let read = checked s d.data_size (s.deserialize d.bytes) in
      if type == d.datatype then read else ok none

  -- The packet: the type signature, the size, the data.
  unfoldable pub to_packet : ℕ → Serializable A → A → List ℕ
  unfolding serialize
  to_packet type s a =
      let d = serialize type s a in to_bytes 4 d.datatype ++ (to_bytes 4 d.data_size ++ d.bytes)

-- The constructor of Serialized in fromPacket, after the type signature.
unfoldable pub read_data : ℕ → Option (ℕ × List ℕ) → Option Serialized
unfolding take
read_data type none = none
read_data type (some (size, rest)) =
    some (record { datatype = type; data_size = size; bytes = take size rest })

unfoldable pub read_packet : Option (ℕ × List ℕ) → Option Serialized
unfolding read_data
read_packet none = none
read_packet (some (type, rest)) = read_data type (from_bytes 4 rest)

abbrev pub first_of : Option (ℕ × List ℕ) → Option ℕ
first_of none = none
first_of (some (a, rest)) = some a

unfoldable pub packet_type : List ℕ → Option ℕ
packet_type p = first_of (from_bytes 4 p)

unfoldable pub from_packet : {A : Type 0} → ℕ → Serializable A → List ℕ → Outcome (Option A)
unfolding deserialize read_packet
from_packet type s p = elim (read_packet (from_bytes 4 p)) [
  | none ↦ failed
  | some d ↦ deserialize type s d
]
