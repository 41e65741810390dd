-- ===== src/Elevator/Triples.antt =====
-- Reasoning about the methods of the elevator: what holds of the world after a method, whether it
-- returned or not.
use ttk.Prelude.{Bool, true, false}
use ttk.Elevator.{World, Result, returned, raised, hung, M, ◌>>=◌, and_then, when}

-- `Q` holds after a return, and `E` after an exception or in an endless loop.
abbrev pub Post : {A : Type 0} → (World → Type 0) → (World → Type 0) → World × Result A → Type 0
Post Q E (w, returned a) = Q w
Post Q E (w, raised) = E w
Post Q E (w, hung) = E w

abbrev pub Triple :
    {A : Type 0} → (World → Type 0) → M A → (World → Type 0) → (World → Type 0) → Type 0
Triple P m Q E = (w : World) → P w → Post Q E (m w)

module _ {A B : Type 0} (Q R E : World → Type 0) (f : A → M B)
    (next : (a : A) → Triple Q (f a) R E) where
  Post-and_then : (x : World × Result A) → Post Q E x → Post R E (and_then x.0 x.1 f)
  Post-and_then (w, returned a) h = next a w h
  Post-and_then (w, raised) h = h
  Post-and_then (w, hung) h = h

pub Triple-bind :
    {A B : Type 0} (P Q R E : World → Type 0) (m : M A) (f : A → M B)
    → Triple P m Q E
    → ((a : A) → Triple Q (f a) R E)
    → Triple P (m >>= f) R E
Triple-bind P Q R E m f first next w h = Post-and_then Q R E f next (m w) (first w h)

pub Triple-when :
    (P E : World → Type 0) (b : Bool) (m : M (Unit {0})) → Triple P m P E → Triple P (when b m) P E
Triple-when P E true m h = h
Triple-when P E false m h = λ w k. k
