-- ===== src/BitLt/Carry.antt =====
-- The carry of pairs (p, g), the pairs of the next round, and the carry of a sum.
use native.Mathlib.Nat.{pow-suc, mod-lt, one-le-pow}
use rss_ring_ppml.Base.{
  ℕ, zero, suc, ◌+◌, ◌*◌, ◌/◌, ◌%◌, ◌^◌, ◌≤◌, ◌<◌, ◌≡◌, ◌∙◌, ap, arith, ltb, if◌then◌else◌, inl,
  inr, refl, lt→ltb, ≥→ltb,
}
use rss_ring_ppml.Base.Digits.{bit_cases}
use rss_ring_ppml.Base.Bits.{bit, bit-lt, mod-bit}

-- The carry out of the `r` lowest positions, where none comes in.
unfoldable pub carry : (ℕ → ℕ) → (ℕ → ℕ) → ℕ → ℕ
carry p g zero = 0
carry p g (suc r) = g r + p r * carry p g r

-- Two pairs make one; the last of an odd number stays.
unfoldable pub merged_p : ℕ → (ℕ → ℕ) → ℕ → ℕ
merged_p r p j = if ltb (2 * j + 1) r then p (2 * j) * p (2 * j + 1) else p (2 * j)

unfoldable pub merged_g : ℕ → (ℕ → ℕ) → (ℕ → ℕ) → ℕ → ℕ
merged_g r p g j =
    if ltb (2 * j + 1) r then g (2 * j) * p (2 * j + 1) + g (2 * j + 1) else g (2 * j)

module _ (r : ℕ) (p g : ℕ → ℕ) where
  carry-merged_even :
      (n : ℕ) → 2 * n ≤ r → carry (merged_p r p) (merged_g r p g) n ≡ carry p g (2 * n)
  unfolding carry merged_p merged_g
  carry-merged_even zero h = refl
  carry-merged_even (suc n) h =
      let twice : 2 * suc n ≡ suc (suc (2 * n)) = omega arith in
      let next : 2 * n + 1 ≡ suc (2 * n) = omega arith in
      rw (lt→ltb (2 * n + 1) r (omega arith), carry-merged_even n (omega arith), twice, next)
        (omega arith)

  carry-merged_odd :
      (n : ℕ) → suc (2 * n) ≡ r → carry (merged_p r p) (merged_g r p g) (suc n) ≡ carry p g r
  unfolding carry merged_p merged_g
  carry-merged_odd n e =
      rw (≥→ltb (2 * n + 1) r (omega arith), carry-merged_even n (omega arith)) (ap (carry p g) e)

  -- A round keeps the carry.
  pub carry-merged : carry (merged_p r p) (merged_g r p g) (r / 2 + r % 2) ≡ carry p g r
  carry-merged = elim (bit_cases (r % 2) (omega arith)) [
    | inl e ↦
        ap (carry (merged_p r p) (merged_g r p g)) {x = r / 2 + r % 2} {y = r / 2} (omega arith)
        ∙ carry-merged_even (r / 2) (omega arith)
        ∙ ap (carry p g) {x = 2 * (r / 2)} {y = r} (omega arith)
    | inr e ↦
        ap (carry (merged_p r p) (merged_g r p g)) {x = r / 2 + r % 2} {y = suc (r / 2)}
          (omega arith)
        ∙ carry-merged_odd (r / 2) (omega arith)
  ]

-- The carry out of the `r` low bits of `a + b + 1`.
unfoldable pub carry_out : ℕ → ℕ → ℕ → ℕ
carry_out a b r = if ltb (a % 2 ^ r + b % 2 ^ r + 1) (2 ^ r) then 0 else 1

-- The pairs of the sum, where the carry that comes in is merged with the lowest of them.
abbrev pub sum_p : ℕ → ℕ → ℕ → ℕ
sum_p a b j = bit a j + bit b j

unfoldable pub sum_g : ℕ → ℕ → ℕ → ℕ
sum_g a b zero = bit a 0 * bit b 0 + (bit a 0 + bit b 0)
sum_g a b (suc j) = bit a (suc j) * bit b (suc j)

module _ (a b : ℕ) where
  carry_step :
      (r c : ℕ)
      → c % 2 ≡ carry_out a b r % 2
      → (bit a r * bit b r + (bit a r + bit b r) * c) % 2 ≡ carry_out a b (suc r) % 2
  unfolding carry_out
  carry_step r c h = elim (bit_cases (bit a r) (bit-lt a r)) [
    | inl a0 ↦ elim (bit_cases (bit b r) (bit-lt b r)) [
      | inl b0 ↦
          rw (mod-bit r a, mod-bit r b, a0, b0, pow-suc 2 r) (ground (arith, below a, below b, h))
      | inr b1 ↦
          rw (mod-bit r a, mod-bit r b, a0, b1, pow-suc 2 r) (ground (arith, below a, below b, h))
    ]
    | inr a1 ↦ elim (bit_cases (bit b r) (bit-lt b r)) [
      | inl b0 ↦
          rw (mod-bit r a, mod-bit r b, a1, b0, pow-suc 2 r) (ground (arith, below a, below b, h))
      | inr b1 ↦
          rw (mod-bit r a, mod-bit r b, a1, b1, pow-suc 2 r) (ground (arith, below a, below b, h))
    ]
  ]
    where
      below : (x : ℕ) → x % 2 ^ r < 2 ^ r
      below x = mod-lt x (one-le-pow r 2 (omega arith))

  -- The carry of the pairs of a sum is that of the sum.
  pub carry-sum : (r : ℕ) → carry (sum_p a b) (sum_g a b) (suc r) % 2 ≡ carry_out a b (suc r) % 2
  unfolding carry sum_g
  carry-sum zero =
      ap (λ (t : ℕ). t % 2) {x = bit a 0 * bit b 0 + (bit a 0 + bit b 0) + (bit a 0 + bit b 0) * 0}
        {y = bit a 0 * bit b 0 + (bit a 0 + bit b 0) * 1} (omega arith)
      ∙ carry_step 0 1 (unfold carry_out in ground arith)
  carry-sum (suc r) = carry_step (suc r) (carry (sum_p a b) (sum_g a b) (suc r)) (carry-sum r)

  -- For the complement of `b` the carry says that `a` is not less than it.
  pub carry_out-complement :
      (b' r : ℕ)
      → b' % 2 ^ r + b % 2 ^ r + 1 ≡ 2 ^ r
      → carry_out a b' r ≡ (if ltb (a % 2 ^ r) (b % 2 ^ r) then 0 else 1)
  unfolding carry_out
  carry_out-complement b' r h = ground (arith, h)
