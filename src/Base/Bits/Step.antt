-- ===== src/Base/Bits/Step.antt =====
-- The lowest digit of `&` and of `^`. The native operations stand for a recursion over digits
-- on fuel; any fuel that reaches the first number gives one result.
use Prim.Native.Nat.{
  ℕ, zero, suc, ◌+◌, ◌*◌, ◌/◌, ◌%◌, ◌≤◌, ◌<◌, min, max, differ, digits, bitwise, bit_and, bit_or,
  bit_xor, bit_and-bitwise, bit_or-bitwise, bit_xor-bitwise,
}
use mathlib.Core.Path.{◌≡◌, refl, ◌∙◌, ap}
use native.Mathlib.Decide.{dec_lt}
use native.Mathlib.Omega.{arith}

module _ (rest : ℕ → ℕ) (f : ℕ → ℕ → ℕ) where
  one_more : (n x y : ℕ) → x ≤ n → digits rest f (suc n) x y ≡ digits rest f n x y
  one_more zero zero y h = refl
  one_more (suc n) zero y h = refl
  one_more zero (suc x) y h = absurd (omega arith)
  one_more (suc n) (suc x) y h = rw (one_more n (suc x / 2) (y / 2) (omega arith))

  enough : (n x y : ℕ) → x ≤ n → digits rest f n x y ≡ bitwise rest f x y
  enough zero zero y h = refl
  enough zero (suc x) y h = absurd (omega arith)
  enough (suc n) x y h = elim (dec_lt n x) [
    | yes p ↦ ap (λ (t : ℕ). digits rest f t x y) {x = suc n} {y = x} (omega arith)
    | no p ↦ one_more n x y (omega arith) ∙ enough n x y (omega arith)
  ]

  lowest_digit :
      (x y : ℕ)
      → bitwise rest f (suc x) y ≡ bitwise rest f (suc x / 2) (y / 2) * 2 + f (suc x % 2) (y % 2)
  lowest_digit x y =
      ap (λ (t : ℕ). t * 2 + f (suc x % 2) (y % 2)) (enough x (suc x / 2) (y / 2) (omega arith))

differ-eq-mod : (p q : ℕ) → p < 2 → q < 2 → differ p q ≡ (p + q) % 2
differ-eq-mod zero zero h k = refl
differ-eq-mod zero (suc zero) h k = refl
differ-eq-mod (suc zero) zero h k = refl
differ-eq-mod (suc zero) (suc zero) h k = refl
differ-eq-mod (suc (suc p)) q h k = absurd (omega arith)
differ-eq-mod zero (suc (suc q)) h k = absurd (omega arith)
differ-eq-mod (suc zero) (suc (suc q)) h k = absurd (omega arith)

pub bit_xor_step : (x y : ℕ) → bit_xor x y ≡ bit_xor (x / 2) (y / 2) * 2 + (x + y) % 2
bit_xor_step zero y = simp bit_xor-bitwise (omega arith)
bit_xor_step (suc x) y = simp bit_xor-bitwise (
    omega (
      arith,
      lowest_digit (λ t. t) differ x y,
      differ-eq-mod (suc x % 2) (y % 2) (omega arith) (omega arith),
    ))

min-eq-mul : (p q : ℕ) → p < 2 → q < 2 → min p q ≡ p * q
min-eq-mul zero q h k = omega arith
min-eq-mul (suc zero) q h k = omega arith
min-eq-mul (suc (suc p)) q h k = absurd (omega arith)

pub bit_and_step : (x y : ℕ) → bit_and x y ≡ bit_and (x / 2) (y / 2) * 2 + x % 2 * (y % 2)
bit_and_step zero y = simp bit_and-bitwise (omega arith)
bit_and_step (suc x) y = simp bit_and-bitwise (
    omega (
      arith,
      lowest_digit (λ t. 0) min x y,
      min-eq-mul (suc x % 2) (y % 2) (omega arith) (omega arith),
    ))

pub bit_and_digit-lt : (x y : ℕ) → x % 2 * (y % 2) < 2
bit_and_digit-lt x y = omega (arith, min-eq-mul (x % 2) (y % 2) (omega arith) (omega arith))

no_bits : (n x : ℕ) → x ≤ n → bit_and x 0 ≡ 0
no_bits n zero h = refl
no_bits zero (suc x) h = absurd (omega arith)
no_bits (suc n) (suc x) h =
    omega (arith, bit_and_step (suc x) 0, no_bits n (suc x / 2) (omega arith))

pub bit_and-zero : (x : ℕ) → bit_and x 0 ≡ 0
bit_and-zero x = no_bits x x (omega arith)

pub max-eq : (p q : ℕ) → p < 2 → q < 2 → max p q + p * q ≡ p + q
max-eq zero q h k = omega arith
max-eq (suc zero) zero h k = refl
max-eq (suc zero) (suc zero) h k = refl
max-eq (suc (suc p)) q h k = absurd (omega arith)
max-eq (suc zero) (suc (suc q)) h k = absurd (omega arith)

pub max-lt : (p q : ℕ) → p < 2 → q < 2 → max p q < 2
max-lt zero q h k = omega arith
max-lt (suc zero) zero h k = omega arith
max-lt (suc zero) (suc zero) h k = omega arith
max-lt (suc (suc p)) q h k = absurd (omega arith)
max-lt (suc zero) (suc (suc q)) h k = absurd (omega arith)

pub bit_or_step : (x y : ℕ) → bit_or x y ≡ bit_or (x / 2) (y / 2) * 2 + max (x % 2) (y % 2)
bit_or_step zero y = simp bit_or-bitwise (omega arith)
bit_or_step (suc x) y = simp bit_or-bitwise (omega (arith, lowest_digit (λ t. t) max x y))
