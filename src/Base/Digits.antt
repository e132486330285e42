-- ===== src/Base/Digits.antt =====
-- Bits of shifted, cut and single-bit numbers.
use Prim.Native.Nat.{ℕ, zero, suc, ◌+◌, ◌-◌, ◌*◌, ◌/◌, ◌%◌, ◌^◌, ◌≤◌, ◌<◌, bit_xor}
use mathlib.Core.Path.{◌≡◌, sym, ap, ◌∙◌}
use mathlib.Core.Logic.{◌⊎◌, inl, inr}
use native.Mathlib.Nat.{pow-suc, one-le-pow, mod-mod, mul-le-mul_right, div-div-eq-div-mul}
use native.Mathlib.Omega.{arith}
use rss_ring_ppml.Base.Bits.{bit, bit-eq_of_mod, zero-bit}

pub bit-div : (x n j : ℕ) → bit (x / 2 ^ n) j ≡ bit x (j + n)
unfolding bit
bit-div x zero j =
    ap (λ (t : ℕ). bit t j) {x = x / 2 ^ 0} {y = x} (omega arith)
    ∙ ap (bit x) {x = j} {y = j + 0} (omega arith)
bit-div x (suc n) j =
    ap (λ (t : ℕ). bit t j) {x = x / 2 ^ suc n} {y = x / 2 / 2 ^ n}
      (ap (λ (t : ℕ). x / t) {x = 2 ^ suc n} {y = 2 * 2 ^ n} (omega (arith, pow-suc 2 n))
        ∙ sym (div-div-eq-div-mul x 2 (2 ^ n)))
    ∙ bit-div (x / 2) n j
    ∙ ap (bit x) {x = suc (j + n)} {y = j + suc n} (omega arith)

pub bit-mod : (x n j : ℕ) → j < n → bit (x % 2 ^ n) j ≡ bit x j
bit-mod x n j h = bit-eq_of_mod n (x % 2 ^ n) x j h (mod-mod x (2 ^ n))

-- No bit is set at or above the width.
pub bit-high : (x n j : ℕ) → x < 2 ^ n → n ≤ j → bit x j ≡ 0
unfolding bit
bit-high x zero j h le = ap (λ (t : ℕ). bit t j) {x = x} {y = 0} (omega arith) ∙ zero-bit j
bit-high x (suc n) zero h le = absurd (omega arith)
bit-high x (suc n) (suc j) h le = bit-high (x / 2) n j (omega (arith, pow-suc 2 n)) (omega arith)

pub bit-double : (x j : ℕ) → bit (x * 2) (suc j) ≡ bit x j
unfolding bit
bit-double x j = ap (λ (t : ℕ). bit t j) {x = x * 2 / 2} {y = x} (omega arith)

pub bit-power_same : (n b : ℕ) → b < 2 → bit (b * 2 ^ n) n ≡ b
unfolding bit
bit-power_same zero b h = omega arith
bit-power_same (suc n) b h =
    ap (λ (t : ℕ). bit t n) {x = b * 2 ^ suc n / 2} {y = b * 2 ^ n}
      (omega (arith, ap (λ (t : ℕ). b * t) (pow-suc 2 n)))
    ∙ bit-power_same n b h

pub bit-power_below : (n b j : ℕ) → j < n → bit (b * 2 ^ n) j ≡ 0
unfolding bit
bit-power_below zero b j h = absurd (omega arith)
bit-power_below (suc n) b zero h = omega (arith, ap (λ (t : ℕ). b * t) (pow-suc 2 n))
bit-power_below (suc n) b (suc j) h =
    ap (λ (t : ℕ). bit t j) {x = b * 2 ^ suc n / 2} {y = b * 2 ^ n}
      (omega (arith, ap (λ (t : ℕ). b * t) (pow-suc 2 n)))
    ∙ bit-power_below n b j (omega arith)

pub bit-power_above : (n b j : ℕ) → b < 2 → n < j → bit (b * 2 ^ n) j ≡ 0
bit-power_above n b j h lt =
    bit-high (b * 2 ^ n) (suc n) j
      (omega (
        arith,
        pow-suc 2 n,
        mul-le-mul_right {m = b} {n = 1} (2 ^ n) (omega arith),
        one-le-pow n 2 (omega arith),
      ))
      lt

pub bit-ones : (w j : ℕ) → j < w → bit (2 ^ w - 1) j ≡ 1
unfolding bit
bit-ones zero j h = absurd (omega arith)
bit-ones (suc w) zero h = omega (arith, pow-suc 2 w, one-le-pow w 2 (omega arith))
bit-ones (suc w) (suc j) h =
    ap (λ (t : ℕ). bit t j) {x = (2 ^ suc w - 1) / 2} {y = 2 ^ w - 1}
      (omega (arith, pow-suc 2 w, one-le-pow w 2 (omega arith)))
    ∙ bit-ones w j (omega arith)

pub bit_cases : (x : ℕ) → x < 2 → (x ≡ 0) ⊎ (x ≡ 1)
bit_cases x h = ground arith

pub bit_xor-lt : (v r : ℕ) → v < 2 → r < 2 → bit_xor v r < 2
bit_xor-lt v r hv hr = elim (bit_cases v hv) [
  | inl v0 ↦ elim (bit_cases r hr) [
    | inl r0 ↦ rw (v0, r0) (omega arith)
    | inr r1 ↦ rw (v0, r1) (omega arith)
  ]
  | inr v1 ↦ elim (bit_cases r hr) [
    | inl r0 ↦ rw (v1, r0) (omega arith)
    | inr r1 ↦ rw (v1, r1) (omega arith)
  ]
]
