-- ===== src/Base/Bits.antt =====
-- Bits of a number, and what `&` and `^` do to them.
pub mod Step
use Prim.Native.Nat.{ℕ, zero, suc, ◌+◌, ◌-◌, ◌*◌, ◌/◌, ◌%◌, ◌^◌, ◌<◌, bit_and, bit_or, bit_xor}
use mathlib.Core.Path.{◌≡◌, refl, sym, ap, ◌∙◌}
use native.Mathlib.Nat.{
  pow-suc, one-le-pow, mod-lt, div-add-mod, mod-eq_of_lt, mul-add-mod_self_left,
}
use native.Mathlib.Omega.{arith}
use Step.{bit_and_step, bit_or_step, max-eq, max-lt, bit_xor_step, bit_and-zero, bit_and_digit-lt}

mod_unique : (m q r x : ℕ) → r < m → m * q + r ≡ x → x % m ≡ r
mod_unique m q r x h e =
    ap (λ (t : ℕ). t % m) (sym e) ∙ mul-add-mod_self_left m q r ∙ mod-eq_of_lt h

-- The bit at position `i`.
unfoldable pub bit : ℕ → ℕ → ℕ
bit x zero = x % 2
bit x (suc i) = bit (x / 2) i

pub bit-lt : (x i : ℕ) → bit x i < 2
unfolding bit
bit-lt x zero = omega arith
bit-lt x (suc i) = bit-lt (x / 2) i

pub bit-xor : (x y i : ℕ) → bit (bit_xor x y) i ≡ (bit x i + bit y i) % 2
unfolding bit
bit-xor x y zero = omega (arith, bit_xor_step x y)
bit-xor x y (suc i) =
    ap (λ (t : ℕ). bit t i) {x = bit_xor x y / 2} {y = bit_xor (x / 2) (y / 2)}
      (omega (arith, bit_xor_step x y))
    ∙ bit-xor (x / 2) (y / 2) i

pub bit-and : (x y i : ℕ) → bit (bit_and x y) i ≡ bit x i * bit y i
unfolding bit
bit-and x y zero = omega (arith, bit_and_step x y, bit_and_digit-lt x y)
bit-and x y (suc i) =
    ap (λ (t : ℕ). bit t i) {x = bit_and x y / 2} {y = bit_and (x / 2) (y / 2)}
      (omega (arith, bit_and_step x y, bit_and_digit-lt x y))
    ∙ bit-and (x / 2) (y / 2) i

pub bit-or : (x y i : ℕ) → bit (bit_or x y) i + bit x i * bit y i ≡ bit x i + bit y i
unfolding bit
bit-or x y zero = omega (
  arith,
  bit_or_step x y,
  max-eq (x % 2) (y % 2) (omega arith) (omega arith),
  max-lt (x % 2) (y % 2) (omega arith) (omega arith),
)
bit-or x y (suc i) =
    ap (λ (t : ℕ). bit t i + bit (x / 2) i * bit (y / 2) i) {x = bit_or x y / 2}
      {y = bit_or (x / 2) (y / 2)}
      (omega (arith, bit_or_step x y, max-lt (x % 2) (y % 2) (omega arith) (omega arith)))
    ∙ bit-or (x / 2) (y / 2) i

-- The remainder by the next power of two, from the lowest digit.
mod-two_pow-suc : (x k : ℕ) → x % 2 ^ suc k ≡ x / 2 % 2 ^ k * 2 + x % 2
mod-two_pow-suc x k =
    mod_unique (2 ^ suc k) (x / 2 / 2 ^ k) (x / 2 % 2 ^ k * 2 + x % 2) x
      (ground (arith, pow-suc 2 k, mod-lt (x / 2) (one-le-pow k 2 (omega arith))))
      (omega
        (arith, div-add-mod (x / 2) (2 ^ k), ap (λ (t : ℕ). t * (x / 2 / 2 ^ k)) (pow-suc 2 k)))

-- A mask of `k` ones is the remainder by `2 ^ k`.
pub bit_and_mask : (k a : ℕ) → bit_and a (2 ^ k - 1) ≡ a % 2 ^ k
bit_and_mask zero a = bit_and-zero a ∙ omega arith
bit_and_mask (suc k) a =
    rw
      (
        bit_and_step a (2 ^ suc k - 1),
        half_mask,
        odd_mask,
        bit_and_mask k (a / 2),
        mod-two_pow-suc a k,
      )
      (omega arith)
  where
    half_mask : (2 ^ suc k - 1) / 2 ≡ 2 ^ k - 1
    half_mask = omega (arith, pow-suc 2 k, one-le-pow k 2 (omega arith))

    odd_mask : (2 ^ suc k - 1) % 2 ≡ 1
    odd_mask = omega (arith, pow-suc 2 k, one-le-pow k 2 (omega arith))

-- Numbers with equal bits below `k` agree modulo `2 ^ k`.
pub mod-eq_of_bit : (k x y : ℕ) → ((i : ℕ) → i < k → bit x i ≡ bit y i) → x % 2 ^ k ≡ y % 2 ^ k
unfolding bit
mod-eq_of_bit zero x y h = omega arith
mod-eq_of_bit (suc k) x y h = grind (
  arith,
  h 0 (omega arith),
  mod-eq_of_bit k (x / 2) (y / 2) (λ i p. h (suc i) (omega arith)),
  mod-two_pow-suc,
)

-- And the other way round.
pub bit-eq_of_mod : (k x y i : ℕ) → i < k → x % 2 ^ k ≡ y % 2 ^ k → bit x i ≡ bit y i
unfolding bit
bit-eq_of_mod zero x y i p h = absurd (omega arith)
bit-eq_of_mod (suc k) x y zero p h = omega (arith, mod-two_pow-suc x k, mod-two_pow-suc y k)
bit-eq_of_mod (suc k) x y (suc i) p h =
    bit-eq_of_mod k (x / 2) (y / 2) i (omega arith)
      (omega (arith, mod-two_pow-suc x k, mod-two_pow-suc y k))

-- The bit at `n` and the bits below it.
pub mod-bit : (n x : ℕ) → x % 2 ^ suc n ≡ bit x n * 2 ^ n + x % 2 ^ n
unfolding bit
mod-bit zero x = omega arith
mod-bit (suc n) x = omega (
  arith,
  mod-two_pow-suc x (suc n),
  mod-bit n (x / 2),
  mod-two_pow-suc x n,
  ap (λ (t : ℕ). bit (x / 2) n * t) (pow-suc 2 n),
)

-- `&` with a single bit.
pub bit_and_two_pow : (n x : ℕ) → bit_and x (2 ^ n) ≡ bit x n * 2 ^ n
unfolding bit
bit_and_two_pow zero x = omega (arith, bit_and_mask 1 x)
bit_and_two_pow (suc n) x =
    rw (bit_and_step x (2 ^ suc n), half, even, bit_and_two_pow n (x / 2))
      (omega (arith, ap (λ (t : ℕ). bit (x / 2) n * t) (pow-suc 2 n)))
  where
    half : 2 ^ suc n / 2 ≡ 2 ^ n
    half = omega (arith, pow-suc 2 n)

    even : 2 ^ suc n % 2 ≡ 0
    even = omega (arith, pow-suc 2 n)

pub zero-bit : (n : ℕ) → bit 0 n ≡ 0
unfolding bit
zero-bit zero = refl
zero-bit (suc n) = zero-bit n
