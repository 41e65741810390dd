-- ===== src/Serialization/Laws.antt =====
-- elevator/internal/serialization.h: what is written is read again.
use mathlib.Core.List.{append_assoc, append-nil}
use native.Mathlib.Nat.{pow-suc}
use ttk.Prelude.{
  ℕ, zero, suc, ◌+◌, ◌/◌, ◌%◌, ◌^◌, ◌<◌, ◌≡◌, refl, sym, ap, subst, ==_iff, ◌∙◌, arith, true, List,
  [], ◌∷◌, ◌++◌, none, some, length, length-append, ◌==◌, if◌then◌else◌,
}
use ttk.Outcome.{ok}
use ttk.Serialization.{
  Serializable, to_bytes, from_bytes, add_byte, fundamental, with_first, converted, with_second,
  then_second, pair, take, first_of, packet_type, serialize, checked, deserialize, to_packet,
  read_data, read_packet, from_packet,
}

-- The laws of a format for the values that it can carry.
pub record RoundTrips {A : Type 0} (s : Serializable A) (Valid : A → Type 0) : Type 0 where
  pub sized : (a : A) → length (s.serialize a) ≡ s.size a
  pub reads :
      (a : A) → Valid a → (rest : List ℕ) → s.deserialize (s.serialize a ++ rest) ≡ some (a, rest)

to_bytes-length : (w n : ℕ) → length (to_bytes w n) ≡ w
unfolding to_bytes
to_bytes-length zero n = refl
to_bytes-length (suc w) n = ap suc (to_bytes-length w (n / 256))

from_bytes-to_bytes :
    (w n : ℕ) → n < 256 ^ w → (rest : List ℕ) → from_bytes w (to_bytes w n ++ rest) ≡ some (n, rest)
unfolding to_bytes from_bytes
from_bytes-to_bytes zero n h rest = let e : 0 ≡ n = omega arith in rw e refl
from_bytes-to_bytes (suc w) n h rest =
    ap (add_byte (n % 256)) (from_bytes-to_bytes w (n / 256) (omega (arith, pow-suc 256 w)) rest)
    ∙ ap (λ (m : ℕ). some (m, rest)) (omega arith)

pub fundamental-RoundTrips : (w : ℕ) → RoundTrips (fundamental w) (λ n. n < 256 ^ w)
unfolding fundamental
fundamental-RoundTrips w = record { sized = to_bytes-length w; reads = from_bytes-to_bytes w }

module _ {A B : Type 0} where
  pub converted-RoundTrips :
      (to : A → B) (from : B → A) (s : Serializable B) (Valid : A → Type 0) (V : B → Type 0)
      → ((a : A) → Valid a → from (to a) ≡ a)
      → ((a : A) → Valid a → V (to a))
      → RoundTrips s V
      → RoundTrips (converted to from s) Valid
  unfolding converted
  converted-RoundTrips to from s Valid V back valid laws = record {
    sized = λ a. laws.sized (to a);
    reads = λ a v rest.
        ap (with_first from) (laws.reads (to a) (valid a v) rest)
        ∙ ap (λ x. some (x, rest)) (back a v);
  }

  pub pair-RoundTrips :
      (s : Serializable A) (t : Serializable B) (V : A → Type 0) (W : B → Type 0)
      → RoundTrips s V
      → RoundTrips t W
      → RoundTrips (pair s t) (λ p. V p.0 × W p.1)
  unfolding pair
  pair-RoundTrips s t V W h k = record {
    sized = λ p.
        omega (arith, length-append (s.serialize p.0) (t.serialize p.1), h.sized p.0, k.sized p.1);
    reads = λ p v rest.
        ap (λ bs. then_second t (s.deserialize bs))
          (append_assoc (s.serialize p.0) (t.serialize p.1) rest)
        ∙ ap (then_second t) (h.reads p.0 v.0 (t.serialize p.1 ++ rest))
        ∙ ap (with_second p.0) (k.reads p.1 v.1 rest);
  }

pub RoundTrips-weaken :
    {A : Type 0} (s : Serializable A) (V W : A → Type 0)
    → ((a : A) → W a → V a)
    → RoundTrips s V
    → RoundTrips s W
RoundTrips-weaken s V W f laws = record {
  sized = laws.sized;
  reads = λ a w rest. laws.reads a (f a w) rest;
}

pub packet_type-to_packet :
    {A : Type 0} (type : ℕ) (s : Serializable A) (a : A)
    → type < 256 ^ 4
    → packet_type (to_packet type s a) ≡ some type
unfolding packet_type to_packet serialize
packet_type-to_packet type s a t = ap first_of (from_bytes-to_bytes 4 type t _)

take-length : (xs : List ℕ) → take (length xs) xs ≡ xs
unfolding take
take-length [] = refl
take-length (x ∷ xs) = ap (λ t. x ∷ t) (take-length xs)

module _ {A : Type 0} (s : Serializable A) (Valid : A → Type 0) (laws : RoundTrips s Valid) where
  read-packet :
      (type : ℕ) (a : A)
      → type < 256 ^ 4
      → s.size a < 256 ^ 4
      → read_packet (from_bytes 4 (to_packet type s a)) ≡ some (serialize type s a)
  unfolding to_packet read_packet read_data serialize
  read-packet type a t h =
      ap read_packet (from_bytes-to_bytes 4 type t _)
      ∙ ap (read_data type) (from_bytes-to_bytes 4 (s.size a) h (s.serialize a))
      ∙ ap (λ bs. some (record { datatype = type; data_size = s.size a; bytes = bs }))
          (subst (λ n. take n (s.serialize a) ≡ s.serialize a) (laws.sized a)
            (take-length (s.serialize a)))

  from_packet-is :
      (type wanted : ℕ) (a : A)
      → type < 256 ^ 4
      → s.size a < 256 ^ 4
      → from_packet wanted s (to_packet type s a) ≡ deserialize wanted s (serialize type s a)
  unfolding from_packet
  from_packet-is type wanted a t h = rw (from_packet, read-packet type a t h) refl

  read-bytes :
      (type : ℕ) (a : A)
      → Valid a
      → checked s (s.size a) (s.deserialize (s.serialize a)) ≡ ok (some a)
  unfolding checked
  read-bytes type a v =
      ap (checked s (s.size a))
        (ap s.deserialize (sym (append-nil (s.serialize a))) ∙ laws.reads a v [])
      ∙ (let e : (s.size a == s.size a) ≡ true = (==_iff (s.size a) (s.size a)).1 refl in rw e refl)

  pub length-to_packet : (type : ℕ) (a : A) → length (to_packet type s a) ≡ 8 + s.size a
  unfolding to_packet serialize
  length-to_packet type a = omega (
    arith,
    length-append (to_bytes 4 type) (to_bytes 4 (s.size a) ++ s.serialize a),
    length-append (to_bytes 4 (s.size a)) (s.serialize a),
    to_bytes-length 4 type,
    to_bytes-length 4 (s.size a),
    laws.sized a,
  )

  -- For any format whose values are read as they were written, a value that the format can carry,
  -- with a type signature and a size of four bytes, is read from its packet as it was written if
  -- the wanted type is its own, and gives Nothing if it is another.
  pub from_packet-to_packet :
      (type wanted : ℕ) (a : A)
      → type < 256 ^ 4
      → s.size a < 256 ^ 4
      → Valid a
      → from_packet wanted s (to_packet type s a)
        ≡ (if wanted == type then ok (some a) else ok none)
  unfolding deserialize serialize
  from_packet-to_packet type wanted a t h v =
      from_packet-is type wanted a t h ∙ rw (read-bytes type a v) refl

  pub from_packet-own :
      (type : ℕ) (a : A)
      → type < 256 ^ 4
      → s.size a < 256 ^ 4
      → Valid a
      → from_packet type s (to_packet type s a) ≡ ok (some a)
  from_packet-own type a t h v =
      let e : (type == type) ≡ true = (==_iff type type).1 refl in
      from_packet-to_packet type type a t h v ∙ rw e refl
