-- ===== src/BitAdd/Sum.antt =====
-- The bits of a sum are those of its parts and the carry that comes in.
use native.Mathlib.Nat.{mod-add-div, mod-lt, one-le-pow, pow-suc}
use rss_ring_ppml.Base.{
  ℕ, zero, suc, ◌+◌, ◌-◌, ◌*◌, ◌/◌, ◌%◌, ◌^◌, ◌<◌, ◌≡◌, ◌∙◌, ap, sym, refl, arith, ltb, ltb→<,
  ltb→≥, if◌then◌else◌, Bool-cases, inl, inr,
}
use rss_ring_ppml.Base.Bits.{bit, bit-lt, mod-bit}
use rss_ring_ppml.Base.Digits.{bit-div, bit_cases}
use rss_ring_ppml.MatMult.Correct.{row_at}
use rss_ring_ppml.BitLt.Carry.{carry}

abbrev pub add_p : ℕ → ℕ → ℕ → ℕ
add_p x y j = bit x j + bit y j

abbrev pub add_g : ℕ → ℕ → ℕ → ℕ
add_g x y j = bit x j * bit y j

-- The carry out of the `r` low bits of `x + y`.
unfoldable pub carry_of : ℕ → ℕ → ℕ → ℕ
carry_of x y r = if ltb (x % 2 ^ r + y % 2 ^ r) (2 ^ r) then 0 else 1

pub carry_of-lt : (x y r : ℕ) → carry_of x y r < 2
unfolding carry_of
carry_of-lt x y r = ground arith

pub bit-quotient : (z r : ℕ) → bit z r ≡ z / 2 ^ r % 2
bit-quotient z r =
    ap (bit z) {x = r} {y = 0 + r} (omega arith) ∙ sym (bit-div z r 0) ∙ (unfold bit in refl)

module _ (x y : ℕ) where
  carry_step :
      (r c : ℕ)
      → c % 2 ≡ carry_of x y r
      → (bit x r * bit y r + (bit x r + bit y r) * c) % 2 ≡ carry_of x y (suc r)
  unfolding carry_of
  carry_step r c h = elim (bit_cases (bit x r) (bit-lt x r)) [
    | inl x0 ↦ elim (bit_cases (bit y r) (bit-lt y r)) [
      | inl y0 ↦
          rw (mod-bit r x, mod-bit r y, x0, y0, pow-suc 2 r) (ground (arith, below x, below y, h))
      | inr y1 ↦
          rw (mod-bit r x, mod-bit r y, x0, y1, pow-suc 2 r) (ground (arith, below x, below y, h))
    ]
    | inr x1 ↦ elim (bit_cases (bit y r) (bit-lt y r)) [
      | inl y0 ↦
          rw (mod-bit r x, mod-bit r y, x1, y0, pow-suc 2 r) (ground (arith, below x, below y, h))
      | inr y1 ↦
          rw (mod-bit r x, mod-bit r y, x1, y1, pow-suc 2 r) (ground (arith, below x, below y, h))
    ]
  ]
    where
      below : (z : ℕ) → z % 2 ^ r < 2 ^ r
      below z = mod-lt z (one-le-pow r 2 (omega arith))

  pub carry-add : (r : ℕ) → carry (add_p x y) (add_g x y) r % 2 ≡ carry_of x y r
  unfolding carry
  carry-add zero = unfold carry_of in ground arith
  carry-add (suc r) = carry_step r (carry (add_p x y) (add_g x y) r) (carry-add r)

  pub add-quotient : (r : ℕ) → (x + y) / 2 ^ r ≡ x / 2 ^ r + y / 2 ^ r + carry_of x y r
  unfolding carry_of
  add-quotient r = elim (Bool-cases (ltb (x % 2 ^ r + y % 2 ^ r) (2 ^ r))) [
    | inl e ↦ rw e (
        ap (λ (z : ℕ). z / 2 ^ r) {x = x + y}
          {y = (x / 2 ^ r + y / 2 ^ r + 0) * 2 ^ r + (x % 2 ^ r + y % 2 ^ r)}
          (omega (arith, mod-add-div x (2 ^ r), mod-add-div y (2 ^ r)))
        ∙ row_at (2 ^ r) (x / 2 ^ r + y / 2 ^ r + 0) _ (ltb→< _ _ e))
    | inr e ↦ rw e (
        ap (λ (z : ℕ). z / 2 ^ r) {x = x + y}
          {y = (x / 2 ^ r + y / 2 ^ r + 1) * 2 ^ r + (x % 2 ^ r + y % 2 ^ r - 2 ^ r)}
          (omega (arith, mod-add-div x (2 ^ r), mod-add-div y (2 ^ r), ltb→≥ _ _ e))
        ∙ row_at (2 ^ r) (x / 2 ^ r + y / 2 ^ r + 1) _ (
            omega (
              arith,
              ltb→≥ _ _ e,
              mod-lt x (one-le-pow r 2 (omega arith)),
              mod-lt y (one-le-pow r 2 (omega arith)),
            )))
  ]

  pub bit-add : (r : ℕ) → bit (x + y) r ≡ (bit x r + bit y r + carry_of x y r) % 2
  bit-add r = omega (
    arith,
    bit-quotient (x + y) r,
    bit-quotient x r,
    bit-quotient y r,
    ap (λ (z : ℕ). z % 2) (add-quotient r),
  )
