-- ===== src/Serialization/Containers.antt =====
-- elevator/internal/serialization.h, Trait::Container: the number of the items, as a long, and the
-- items; and the tuple without parts.
use ttk.Prelude.{
  ℕ, zero, suc, ◌+◌, ◌^◌, ◌<◌, ◌≡◌, refl, ap, ◌∙◌, arith, true, List, [], ◌∷◌, ◌++◌, Option, none,
  some, length, length-append, All, ltb, if◌then◌else◌,
}
use mathlib.Core.List.{append_assoc}
use ttk.Serialization.{Serializable, to_bytes, from_bytes, fundamental}
use ttk.Serialization.Laws.{RoundTrips, fundamental-RoundTrips}

-- Nothing is written for a tuple without parts.
unfoldable pub unit_format : Serializable (Unit {0})
unit_format = record { size = λ a. 0; serialize = λ a. []; deserialize = λ bs. some (tt, bs) }

unit-RoundTrips : RoundTrips unit_format (λ a. Unit)
unfolding unit_format
unit-RoundTrips = record { sized = λ a. refl; reads = λ a v rest. refl }

module _ {A : Type 0} (s : Serializable A) where
  unfoldable pub size_items : List A → ℕ
  size_items [] = 0
  size_items (x ∷ xs) = s.size x + size_items xs

  unfoldable pub write_items : List A → List ℕ
  write_items [] = []
  write_items (x ∷ xs) = s.serialize x ++ write_items xs

  abbrev pub add_item : A → Option (List A × List ℕ) → Option (List A × List ℕ)
  add_item x none = none
  add_item x (some (xs, rest)) = some (x ∷ xs, rest)

  abbrev pub item_then :
      (List ℕ → Option (List A × List ℕ)) → Option (A × List ℕ) → Option (List A × List ℕ)
  item_then more none = none
  item_then more (some (x, rest)) = add_item x (more rest)

  -- The loop over `count` items.
  unfoldable pub read_items : ℕ → List ℕ → Option (List A × List ℕ)
  read_items zero bs = some ([], bs)
  read_items (suc count) bs = item_then (read_items count) (s.deserialize bs)

  -- A long with its highest bit set is negative: the loop makes no round.
  abbrev pub rounds : ℕ → ℕ
  rounds count = if ltb count (2 ^ 63) then count else 0

  abbrev pub items_after : Option (ℕ × List ℕ) → Option (List A × List ℕ)
  items_after none = none
  items_after (some (count, rest)) = read_items (rounds count) rest

  module _ {C : Type 0} where
    abbrev pub built : (List A → C) → Option (List A × List ℕ) → Option (C × List ℕ)
    built build none = none
    built build (some (xs, rest)) = some (build xs, rest)

    -- `items` is the iteration over a container, `build` its constructor from a range.
    unfoldable pub container : (C → List A) → (List A → C) → Serializable C
    container items build = record {
      size = λ c. 8 + size_items (items c);
      serialize = λ c. to_bytes 8 (length (items c)) ++ write_items (items c);
      deserialize = λ bs. built build (items_after (from_bytes 8 bs));
    }

module _ {A : Type 0} (s : Serializable A) (Valid : A → Type 0) (laws : RoundTrips s Valid) where
  items-sized : (xs : List A) → length (write_items s xs) ≡ size_items s xs
  unfolding write_items size_items
  items-sized [] = refl
  items-sized (x ∷ xs) =
      omega (arith, length-append (s.serialize x) (write_items s xs), laws.sized x, items-sized xs)

  items-read :
      (xs : List A) (rest : List ℕ)
      → All Valid xs
      → read_items s (length xs) (write_items s xs ++ rest) ≡ some (xs, rest)
  unfolding read_items write_items
  items-read [] rest v = refl
  items-read (x ∷ xs) rest v =
      ap (λ bs. item_then s (read_items s (length xs)) (s.deserialize bs))
        (append_assoc (s.serialize x) (write_items s xs) rest)
      ∙ ap (item_then s (read_items s (length xs))) (laws.reads x v.0 (write_items s xs ++ rest))
      ∙ ap (add_item s x) (items-read xs rest v.1)

  pub container-RoundTrips :
      {C : Type 0} (items : C → List A) (build : List A → C)
      → RoundTrips
          (container s items build)
          (λ c. All Valid (items c) × ((build (items c) ≡ c) × (length (items c) < 2 ^ 63)))
  unfolding container fundamental
  container-RoundTrips items build = record {
    sized = λ c. omega (
      arith,
      length-append (to_bytes 8 (length (items c))) (write_items s (items c)),
      (fundamental-RoundTrips 8).sized (length (items c)),
      items-sized (items c),
    );
    reads = λ c v rest.
        ap (λ bs. built s build (items_after s (from_bytes 8 bs)))
          (append_assoc (to_bytes 8 (length (items c))) (write_items s (items c)) rest)
        ∙ ap (λ t. built s build (items_after s t))
            ((fundamental-RoundTrips 8).reads (length (items c)) (omega (arith, v.1.1))
              (write_items s (items c) ++ rest))
        ∙ (let e : ltb (length (items c)) (2 ^ 63) ≡ true = ground (arith, v.1.1) in
            rw e (
              ap (built s build) (items-read (items c) rest v.0) ∙ ap (λ t. some (t, rest)) v.1.0));
  }
