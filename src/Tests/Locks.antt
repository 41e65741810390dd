-- ===== src/Tests/Locks.antt =====
-- elevator/spinlock.h with two threads, of which the first is behind the guard.
use ttk.Prelude.{◌≡◌, ◌≤◌, ◌↔◌, refl, true, false, [], ◌∷◌}
use ttk.SpinLock.{SpinLock, outside, guarded, spin, test_and_set, begins, spins, Reach, here, after}
use ttk.SpinLock.Exclusion.{holders, mutual_exclusion}

abbrev free : SpinLock
free = record { flag = false; threads = outside ∷ outside ∷ [] }

abbrev taken : SpinLock
taken = record { flag = true; threads = guarded ∷ outside ∷ [] }

taken_reached : Reach free taken
unfolding spin test_and_set
taken_reached =
    after (after here (begins [] (outside ∷ []) refl refl)) (spins [] (outside ∷ []) refl refl)

mutual_exclusion_example :
    (holders taken.threads ≤ 1) × ((taken.flag ≡ true) ↔ (holders taken.threads ≡ 1))
mutual_exclusion_example = mutual_exclusion free taken refl (refl, (refl, tt)) taken_reached
