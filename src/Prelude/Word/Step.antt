-- ===== src/Prelude/Word/Step.antt =====
-- One equation for the lowest digit of each native bit operation, which is defined by a recursion
-- on binary digits with fuel.
use Prim.Native.Nat.{
  min, max, differ, digits, bit_and, bit_or, bit_xor, bit_and-bitwise, bit_or-bitwise,
  bit_xor-bitwise,
}
use ttk.Prelude.{ℕ, zero, suc, ◌+◌, ◌*◌, ◌/◌, ◌%◌, ◌≤◌, ◌<◌, ◌≡◌, refl, ap, arith}

module _ (rest : ℕ → ℕ) (join : ℕ → ℕ → ℕ) where
  abbrev run : ℕ → ℕ → ℕ → ℕ
  run = digits rest join

  -- Any fuel that covers the first number gives one result.
  run_stable : (fuel x y other : ℕ) → x ≤ fuel → x ≤ other → run other x y ≡ run fuel x y
  run_stable zero zero y zero h k = refl
  run_stable zero zero y (suc other) h k = refl
  run_stable zero (suc x) y other h k = elim h [ ]
  run_stable (suc fuel) zero y zero h k = refl
  run_stable (suc fuel) zero y (suc other) h k = refl
  run_stable (suc fuel) (suc x) y zero h k = elim k [ ]
  run_stable (suc fuel) (suc x) y (suc other) h k =
      ap (λ (t : ℕ). t * 2 + join (suc x % 2) (y % 2))
        (run_stable fuel (suc x / 2) (y / 2) other (omega arith) (omega arith))

  run_first :
      (x y : ℕ)
      → run (suc x) (suc x) y ≡ run (suc x / 2) (suc x / 2) (y / 2) * 2 + join (suc x % 2) (y % 2)
  run_first x y =
      ap (λ (t : ℕ). t * 2 + join (suc x % 2) (y % 2))
        (run_stable (suc x / 2) (suc x / 2) (y / 2) x (omega arith) (omega arith))

-- The lowest digit of the result, and the operation on what remains.
abbrev pub Digitwise : (ℕ → ℕ → ℕ) → (ℕ → ℕ → ℕ) → Type 0
Digitwise op join = (x y : ℕ) → op x y ≡ join (x % 2) (y % 2) + 2 * op (x / 2) (y / 2)

differ_mod : (a b : ℕ) → a < 2 → b < 2 → differ a b ≡ (a + b) % 2
differ_mod zero b p q = omega arith
differ_mod (suc zero) zero p q = refl
differ_mod (suc zero) (suc zero) p q = refl
differ_mod (suc zero) (suc (suc b)) p q = omega arith
differ_mod (suc (suc a)) b p q = omega arith

pub bit_xor-Digitwise : Digitwise bit_xor (λ p q. (p + q) % 2)
bit_xor-Digitwise zero y = simp bit_xor-bitwise (omega arith)
bit_xor-Digitwise (suc x) y = simp bit_xor-bitwise (
    omega (
      arith,
      run_first (λ r. r) differ x y,
      differ_mod (suc x % 2) (y % 2) (omega arith) (omega arith),
    ))

pub bit_and-Digitwise : Digitwise bit_and min
bit_and-Digitwise zero y = simp bit_and-bitwise (omega arith)
bit_and-Digitwise (suc x) y = simp bit_and-bitwise (omega (arith, run_first (λ r. 0) min x y))

pub bit_or-Digitwise : Digitwise bit_or max
bit_or-Digitwise zero y = simp bit_or-bitwise (omega arith)
bit_or-Digitwise (suc x) y = simp bit_or-bitwise (omega (arith, run_first (λ r. r) max x y))
