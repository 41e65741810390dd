-- ===== src/SpinLock/Exclusion.antt =====
-- elevator/spinlock.h: at most one thread is behind the guard.
use mathlib.Core.Bool.{false≢true}
use ttk.Prelude.{
  ℕ, ◌+◌, ◌≤◌, ◌≡◌, refl, sym, ap, ◌∙◌, subst, arith, Bool, true, false, List, [], ◌∷◌, ◌++◌, All,
  count_if, if◌then◌else◌, ◌↔◌,
}
use ttk.SpinLock.{
  SpinLock, Phase, outside, spinning, guarded, test_and_set, spin, release, Step, begins, spins,
  leaves, Reach, here, after,
}

abbrev is_guarded : Phase → Bool
is_guarded guarded = true
is_guarded _ = false

-- How many threads are behind the guard.
abbrev pub holders : List Phase → ℕ
holders = count_if is_guarded

holders-middle :
    (before rest : List Phase) (p : Phase)
    → holders (before ++ p ∷ rest) ≡ (if is_guarded p then 1 else 0) + holders (before ++ rest)
holders-middle [] rest p = refl
holders-middle (q ∷ before) rest p = omega (arith, holders-middle before rest p)

-- The flag is set exactly while one thread is behind the guard.
abbrev Guards : SpinLock → Type 0
Guards s = holders s.threads ≡ (if s.flag then 1 else 0)

spin-Guards :
    (f : Bool) (before rest : List Phase)
    → holders (before ++ spinning ∷ rest) ≡ (if f then 1 else 0)
    → Guards (record { flag = (spin f).0; threads = before ++ (spin f).1 ∷ rest })
unfolding spin test_and_set
spin-Guards true before rest h = h
spin-Guards false before rest h =
    omega (arith, h, holders-middle before rest spinning, holders-middle before rest guarded)

leave-Guards :
    (f : Bool) (before rest : List Phase)
    → holders (before ++ guarded ∷ rest) ≡ (if f then 1 else 0)
    → Guards (record { flag = release.0; threads = before ++ release.1 ∷ rest })
unfolding release
leave-Guards true before rest h =
    omega (arith, h, holders-middle before rest guarded, holders-middle before rest outside)
leave-Guards false before rest h = absurd (omega (arith, h, holders-middle before rest guarded))

Step-Guards : (s t : SpinLock) → Step s t → Guards s → Guards t
Step-Guards s t (begins before rest e f) h = subst Guards (sym f) (
    holders-middle before rest spinning
    ∙ sym (holders-middle before rest outside)
    ∙ ap holders (sym e)
    ∙ h)
Step-Guards s t (spins before rest e f) h =
    subst Guards (sym f) (spin-Guards s.flag before rest (ap holders (sym e) ∙ h))
Step-Guards s t (leaves before rest e f) h =
    subst Guards (sym f) (leave-Guards s.flag before rest (ap holders (sym e) ∙ h))

Reach-Guards : (s t : SpinLock) → Guards s → Reach s t → Guards t
Reach-Guards s _ h here = h
Reach-Guards s _ h (after {t} {u} r step) = Step-Guards t u step (Reach-Guards s t h r)

all_outside : (ps : List Phase) → All (λ p. p ≡ outside) ps → holders ps ≡ 0
all_outside [] h = refl
all_outside (p ∷ ps) h = rw h.0 (omega (arith, all_outside ps h.1))

-- From a start with a clear flag and all threads outside, in whatever order the threads take their
-- steps, at most one of them is behind the guard, and one is exactly while the flag is set.
pub mutual_exclusion :
    (s t : SpinLock)
    → s.flag ≡ false
    → All (λ p. p ≡ outside) s.threads
    → Reach s t
    → (holders t.threads ≤ 1) × ((t.flag ≡ true) ↔ (holders t.threads ≡ 1))
mutual_exclusion s t clear out r = ends t.flag (holders t.threads) (Reach-Guards s t start-Guards r)
  where
    start-Guards : Guards s
    start-Guards = all_outside s.threads out ∙ ap (λ b. if b then 1 else 0) (sym clear)

    ends : (f : Bool) (n : ℕ) → n ≡ (if f then 1 else 0) → (n ≤ 1) × ((f ≡ true) ↔ (n ≡ 1))
    ends true n e = (omega arith, ((λ q. e), (λ q. refl)))
    ends false n e =
        (omega arith, ((λ q. absurd (false≢true q)), (λ q. absurd (omega (arith, q, e)))))
