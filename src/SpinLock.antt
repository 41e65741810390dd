-- ===== src/SpinLock.antt =====
-- elevator/spinlock.h: threads that guard a section with one flag. The call of test_and_set and the
-- call of clear are one step each, since the flag is atomic.
pub mod Exclusion
use ttk.Prelude.{◌≡◌, Bool, true, false, List, ◌∷◌, ◌++◌, if◌then◌else◌}

-- Where a thread is: before the guard's constructor, in its loop, or behind it.
pub data Phase : Type 0 where
  outside spinning guarded : Phase

pub record SpinLock : Type 0 where
  pub flag : Bool
  pub threads : List Phase

-- The flag after test_and_set, and what the call returns.
unfoldable pub test_and_set : Bool → Bool × Bool
test_and_set flag = (true, flag)

-- One round of the constructor's loop.
unfoldable pub spin : Bool → Bool × Phase
unfolding test_and_set
spin flag =
    let (after, was_set) = test_and_set flag in (after, if was_set then spinning else guarded)

-- The destructor.
unfoldable pub release : Bool × Phase
release = (false, outside)

-- A step of one of the threads, which stands between `before` and `after`.
pub data Step (s t : SpinLock) : Type 0 where
  begins :
      (before after : List Phase)
      → s.threads ≡ before ++ outside ∷ after
      → t ≡ record { flag = s.flag; threads = before ++ spinning ∷ after }
      → Step s t
  spins :
      (before after : List Phase)
      → s.threads ≡ before ++ spinning ∷ after
      → t ≡ record { flag = (spin s.flag).0; threads = before ++ (spin s.flag).1 ∷ after }
      → Step s t
  leaves :
      (before after : List Phase)
      → s.threads ≡ before ++ guarded ∷ after
      → t ≡ record { flag = release.0; threads = before ++ release.1 ∷ after }
      → Step s t

pub data Reach (s : SpinLock) : SpinLock → Type 0 where
  here : Reach s s
  after : {t u : SpinLock} → Reach s t → Step t u → Reach s u
