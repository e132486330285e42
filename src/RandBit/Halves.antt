-- ===== src/RandBit/Halves.antt =====
-- A square root of 1 in Z/2^(k+2) is 1 or -1 up to the factor 2^(k+1).
use native.Mathlib.Nat.{pow-suc, zero-div}
use rss_ring_ppml.Base.{
  ℕ, zero, suc, ◌+◌, ◌*◌, ◌/◌, ◌%◌, ◌^◌, ◌≤◌, ◌≡◌, ◌⊎◌, inl, inr, ap, sym, arith, ◌==◌, ==→≡,
  Bool-cases,
}
use rss_ring_ppml.Base.Cong.{
  Cong, Cong_trans, Cong_sym, Cong_refl, Cong_eq, Cong_of_eq, Cong→eq, Cong_modulus, Cong_of_le,
  Cong-cancel, mul-Cong,
}

-- A common factor of modulus and sides goes.
scale : (m p q r s : ℕ) → 2 * p + m * 2 * r ≡ 2 * q + m * 2 * s → p + m * r ≡ q + m * s
scale m p q r s h = omega (arith, h)

halve : (n x y : ℕ) → Cong (2 ^ suc n) (2 * x) (2 * y) → Cong (2 ^ n) x y
halve n x y h =
    Cong_of_eq (2 * y / (2 ^ n * 2)) (2 * x / (2 ^ n * 2))
      (scale (2 ^ n) x y _ _ (Cong→eq (Cong_modulus (pow-suc 2 n) h)))

-- An odd factor is a unit.
odd_factor : (n y x : ℕ) → y % 2 ≡ 1 → Cong (2 ^ n) (y * x) 0 → Cong (2 ^ n) x 0
odd_factor zero y x odd h = record { same = omega arith }
odd_factor (suc n) y x odd h =
    let half = odd_factor n y (x / 2) odd halved in
    Cong_trans (Cong_eq (sym even)) (
      Cong_of_eq 0 (x / 2 / 2 ^ n) (
        omega (
          arith,
          Cong→eq half,
          zero-div (2 ^ n),
          ap (λ (t : ℕ). t * (x / 2 / 2 ^ n)) (pow-suc 2 n),
        )))
  where
    even : 2 * (x / 2) ≡ x
    even = omega (
      arith,
      (Cong_of_le {k = 1} (omega arith) h).same,
      ap (λ (t : ℕ). t * x) {x = 2 * (y / 2) + 1} {y = y} (omega (arith, odd)),
    )

    halved : Cong (2 ^ n) (y * (x / 2)) 0
    halved =
        halve n (y * (x / 2)) 0 (Cong_trans (Cong_eq (omega (arith, ap (λ (t : ℕ). y * t) even))) h)

-- The square of an odd number is 1 modulo 8.
pub odd_square : (u : ℕ) → Cong 8 ((2 * u + 1) * (2 * u + 1)) 1
odd_square u = elim (Bool-cases (u % 2 == 0)) [
  | inl e ↦
      Cong_trans
        (Cong_eq (
          ap (λ (t : ℕ). (2 * t + 1) * (2 * t + 1)) {x = u} {y = 2 * (u / 2)}
            (omega (arith, ==→≡ _ _ e))))
        (Cong_of_eq 0 (2 * (u / 2) * (u / 2) + u / 2) (omega arith))
  | inr e ↦
      Cong_trans
        (Cong_eq
          (ap (λ (t : ℕ). (2 * t + 1) * (2 * t + 1)) {x = u} {y = 2 * (u / 2) + 1} (ground arith)))
        (Cong_of_eq 0 (2 * (u / 2) * (u / 2) + 3 * (u / 2) + 1) (omega arith))
]

-- If the square of `2 h + 1` is 1 modulo `2 ^ (k + 2)`, then `h` is 0 or -1 modulo `2 ^ k`.
square_root_of_one :
    (k h : ℕ)
    → Cong (2 ^ suc (suc k)) ((2 * h + 1) * (2 * h + 1)) 1
    → (Cong (2 ^ k) h 0) ⊎ (Cong (2 ^ k) (h + 1) 0)
square_root_of_one k h sq = elim (Bool-cases (h % 2 == 0)) [
  | inl e ↦ inl (
      odd_factor k (h + 1) h (omega (arith, ==→≡ _ _ e))
        (Cong_trans (Cong_eq (omega arith)) product))
  | inr e ↦ inr (odd_factor k h (h + 1) (ground arith) product)
]
  where
    product : Cong (2 ^ k) (h * (h + 1)) 0
    product = halve k (h * (h + 1)) 0 (
        halve (suc k) (2 * (h * (h + 1))) (2 * 0)
          (Cong-cancel {c = 1} {d = 1} (Cong_trans (Cong_eq (omega arith)) sq) (Cong_refl 1)))

pub odd_product : (c u : ℕ) → c % 2 ≡ 1 → 2 * (c * (2 * u + 1) / 2) + 1 ≡ c * (2 * u + 1)
odd_product c u odd =
    omega
      (arith, ap (λ (t : ℕ). t * (2 * u + 1)) {x = 2 * (c / 2) + 1} {y = c} (omega (arith, odd)))

two_more : (k : ℕ) → 2 ^ (k + 2) ≡ 2 ^ suc (suc k)
two_more k = ap (λ (t : ℕ). 2 ^ t) {x = k + 2} {y = suc (suc k)} (omega arith)

-- Half of a number of `k + 2` bits, of which `k` are used.
pub half_Cong : (k p q : ℕ) → Cong (2 ^ (k + 2)) (2 * p) (2 * q) → Cong (2 ^ k) p q
half_Cong k p q eq =
    Cong_of_le {w = suc k} (omega arith) (halve (suc k) p q (Cong_modulus (two_more k) eq))

-- For an odd inverse root `c` of the square of an odd number `x`, the number `c * x` is a square
-- root of 1.
pub root_of_unit :
    (k c e u : ℕ)
    → c % 2 ≡ 1
    → Cong (2 ^ (k + 2)) (c * c * e) 1
    → Cong (2 ^ (k + 2)) e ((2 * u + 1) * (2 * u + 1))
    → (Cong (2 ^ k) (c * (2 * u + 1) / 2) 0) ⊎ (Cong (2 ^ k) (c * (2 * u + 1) / 2 + 1) 0)
root_of_unit k c e u odd unit square = square_root_of_one k (c * (2 * u + 1) / 2) (
    Cong_modulus (two_more k) (
      Cong_trans (Cong_eq (ap (λ (t : ℕ). t * t) (odd_product c u odd))) (
        Cong_trans (Cong_eq (omega arith))
          (Cong_trans (mul-Cong (Cong_refl (c * c)) (Cong_sym square)) unit))))

-- Twice the half of an even word.
pub twice_half :
    {n : ℕ} (c a r t word : ℕ)
    → 1 ≤ n
    → c % 2 ≡ 1
    → Cong (2 ^ n) a (r * 2 ^ 1 + t)
    → Cong (2 ^ n) word (c * a + t)
    → Cong (2 ^ n) (2 * (word / 2 ^ 1)) (c * a + t)
twice_half c a r t word one odd of_a of_word =
    Cong_trans
      (Cong_eq (
        omega (
          arith,
          (Cong_of_le {k = 1} one of_word).same,
          (Cong_of_le {k = 1} one of_a).same,
          ap (λ (s : ℕ). s * a) {x = 2 * (c / 2) + 1} {y = c} (omega (arith, odd)),
        )))
      of_word
