-- ===== src/UdpTools/AddressSets.antt =====
-- elevator/udptools.h: sets of addresses are in ascending order, and so is what is built from them.
use mathlib.Core.List.{append_assoc, append-nil}
use ttk.Prelude.{
  ◌≤◌, ◌<◌, ◌≡◌, refl, sym, ap, ◌∙◌, subst, arith, false, List, [], ◌∷◌, ◌++◌, All, All-map, All-In,
  All-of, In, head, tail, Distinct, length, length-le_Distinct, ◌⊎◌, Bool-cases, inl, inr, ==_iff,
  ltb→lt,
}
use ttk.UdpTools.{IPv4Address, before_ip, same_ip, insert}

abbrev pub Before : IPv4Address → IPv4Address → Type 0
Before a b = a.addr < b.addr

abbrev pub Ascending : List IPv4Address → Type 0
Ascending [] = Unit
Ascending (a ∷ more) = All (λ (b : IPv4Address). Before a b) more × Ascending more

-- The constructor of a set from a range: the addresses are inserted one after another.
unfoldable pub set_from : List IPv4Address → List IPv4Address → List IPv4Address
set_from set [] = set
set_from set (a ∷ more) = set_from (insert a set) more

insert-All {ℓ} :
    (P : IPv4Address → Type ℓ) (a : IPv4Address) (bs : List IPv4Address)
    → P a
    → All P bs
    → All P (insert a bs)
unfolding insert
insert-All P a [] p h = (p, tt)
insert-All P a (b ∷ bs) p h = elim (Bool-cases (before_ip a b)) [
  | inl c ↦ rw c (p, h)
  | inr c ↦ elim (Bool-cases (same_ip a b)) [
    | inl d ↦ rw (c, d) h
    | inr d ↦ rw (c, d) (h.0, insert-All P a bs p h.1)
  ]
]

-- A set stays in order.
pub insert-Ascending :
    (a : IPv4Address) (bs : List IPv4Address) → Ascending bs → Ascending (insert a bs)
unfolding insert
insert-Ascending a [] h = (tt, tt)
insert-Ascending a (b ∷ bs) h = elim (Bool-cases (before_ip a b)) [
  | inl c ↦ rw c (
    (
      ltb→lt a.addr b.addr c,
      All-map (λ x. Before b x) (λ x. Before a x) (λ x l. omega (arith, l, ltb→lt a.addr b.addr c))
          bs h.0,
    ),
    h,
  )
  | inr c ↦ elim (Bool-cases (same_ip a b)) [
    | inl d ↦ rw (c, d) h
    | inr d ↦
        rw (c, d) (insert-All (λ x. Before b x) a bs (behind c d) h.0, insert-Ascending a bs h.1)
  ]
]
  where
    behind : before_ip a b ≡ false → same_ip a b ≡ false → Before b a
    behind c d = ground arith

insert-last :
    (a : IPv4Address) (bs : List IPv4Address)
    → All (λ (b : IPv4Address). Before b a) bs
    → insert a bs ≡ bs ++ a ∷ []
unfolding insert
insert-last a [] h = refl
insert-last a (b ∷ bs) h =
    let c : before_ip a b ≡ false = ground (arith, h.0) in
    let d : same_ip a b ≡ false = ground (arith, h.0) in
    rw (c, d) (ap (λ t. b ∷ t) (insert-last a bs h.1))

All-append {ℓ} :
    (P : IPv4Address → Type ℓ) (xs : List IPv4Address) (a : IPv4Address)
    → All P xs
    → P a
    → All P (xs ++ a ∷ [])
All-append P [] a h p = (p, tt)
All-append P (x ∷ xs) a h p = (h.0, All-append P xs a h.1 p)

All-zip :
    (more bs : List IPv4Address) (a : IPv4Address)
    → All (λ (x : IPv4Address). All (λ (b : IPv4Address). Before b x) bs) more
    → All (λ (x : IPv4Address). Before a x) more
    → All (λ (x : IPv4Address). All (λ (b : IPv4Address). Before b x) (bs ++ a ∷ [])) more
All-zip [] bs a h k = tt
All-zip (x ∷ more) bs a h k =
    (All-append (λ (b : IPv4Address). Before b x) bs a h.0 k.0, All-zip more bs a h.1 k.1)

-- Addresses that are in order are their own set.
pub set_from-Ascending :
    (bs more : List IPv4Address)
    → All (λ (x : IPv4Address). All (λ (b : IPv4Address). Before b x) bs) more
    → Ascending more
    → set_from bs more ≡ bs ++ more
unfolding set_from
set_from-Ascending bs [] h k = sym (append-nil bs)
set_from-Ascending bs (a ∷ more) h k =
    ap (λ t. set_from t more) (insert-last a bs h.0)
    ∙ set_from-Ascending (bs ++ a ∷ []) more (All-zip more bs a h.1 k.0) k.1
    ∙ append_assoc bs (a ∷ []) more

not-Before_itself : (a b : IPv4Address) → Before a b → b ≡ a → ⊥
not-Before_itself a b l e = omega (arith, l, ap (λ (x : IPv4Address). x.addr) e)

pub Ascending-Distinct : (xs : List IPv4Address) → Ascending xs → Distinct xs
Ascending-Distinct [] h = tt
Ascending-Distinct (x ∷ xs) h = (
  All-map (λ y. Before x y) (λ y. y ≡ x → ⊥) (λ y l. not-Before_itself x y l) xs h.0,
  Ascending-Distinct xs h.1,
)

-- Membership in the set is decided by comparing addresses.
In-or_not : (a : IPv4Address) (xs : List IPv4Address) → In a xs ⊎ All (λ y. y ≡ a → ⊥) xs
In-or_not a [] = inr tt
In-or_not a (x ∷ xs) = elim (Bool-cases (same_ip x a)) [
  | inl e ↦
      inl
        (subst (λ y. In y (x ∷ xs)) (λ i. record { addr = (==_iff x.addr a.addr).0 e i }) (head xs))
  | inr e ↦ elim (In-or_not a xs) [ inl m ↦ inl (tail x m) | inr n ↦ inr ((λ q. other q e), n) ]
]
  where
    other : x ≡ a → same_ip x a ≡ false → ⊥
    other q e = ground (arith, ap (λ (y : IPv4Address). y.addr) q)

abbrev pub Within : List IPv4Address → List IPv4Address → Type 0
Within xs ys = (a : IPv4Address) → In a xs → In a ys

-- A set with as many addresses as one that holds it is that one.
pub Within-full :
    (xs ys : List IPv4Address) → Ascending xs → Within xs ys → length ys ≤ length xs → Within ys xs
Within-full xs ys asc w l a m = elim (In-or_not a xs) [
  | inl k ↦ k
  | inr n ↦ absurd (
      omega (
        arith,
        length-le_Distinct (a ∷ xs) ys (n, Ascending-Distinct xs asc)
            (m, All-of (λ x. In x ys) xs w),
      ))
]

behind_first :
    (a b : IPv4Address) (bs : List IPv4Address)
    → All (λ x. Before b x) bs
    → In a (b ∷ bs)
    → (a ≡ b) ⊎ ((b.addr < a.addr) × In a bs)
behind_first a _ bs h (head _) = inl refl
behind_first a b bs h (tail _ m) = inr (All-In (λ x. Before b x) m h, m)

tails-Within :
    (x y : IPv4Address) (xs ys : List IPv4Address)
    → x ≡ y
    → All (λ z. Before x z) xs
    → All (λ z. Before y z) ys
    → Within (x ∷ xs) (y ∷ ys)
    → Within xs ys
tails-Within x y xs ys e h k w a m = elim (behind_first a y ys k (w a (tail x m))) [
  | inl q ↦ absurd (not-Before_itself x a (All-In (λ z. Before x z) m h) (q ∙ sym e))
  | inr (l, n) ↦ n
]

-- Two sets with the same addresses are equal.
pub Ascending-ext :
    (xs ys : List IPv4Address) → Ascending xs → Ascending ys → Within xs ys → Within ys xs → xs ≡ ys
Ascending-ext [] [] h k v w = refl
Ascending-ext [] (y ∷ ys) h k v w = elim (w y (head ys)) [ ]
Ascending-ext (x ∷ xs) [] h k v w = elim (v x (head xs)) [ ]
Ascending-ext (x ∷ xs) (y ∷ ys) h k v w =
    let e = firsts in
    (λ i.
      e i
      ∷ Ascending-ext xs ys h.1 k.1 (tails-Within x y xs ys e h.0 k.0 v)
          (tails-Within y x ys xs (sym e) k.0 h.0 w) i)
  where
    firsts : x ≡ y
    firsts = elim (behind_first x y ys k.0 (v x (head xs))) [
      | inl e ↦ e
      | inr (l, m) ↦ elim (behind_first y x xs h.0 (w y (head ys))) [
        | inl e ↦ sym e
        | inr (l₁, m₁) ↦ absurd (omega arith)
      ]
    ]
