-- ===== src/BitLt/Masks.antt =====
-- The tables `EVEN` and `ODD`, and the words that `OptimalBuffer` makes with them.
use native.Mathlib.Nat.{mod-lt}
use rss_ring_ppml.Base.{
  ℕ, zero, suc, ◌+◌, ◌-◌, ◌/◌, ◌%◌, ◌^◌, ◌≤◌, ◌<◌, ◌==◌, if◌then◌else◌, ◌≡◌, ◌∙◌, ap, arith,
  Bool-cases, ltb, inl, inr,
}
use rss_ring_ppml.Base.Bits.{bit, zero-bit}
use rss_ring_ppml.Base.Digits.{bit-div, bit-mod, bit-high}
use rss_ring_ppml.Word.{shl}
use rss_ring_ppml.Word.Laws.{mask_mod, mask-lt, two_pow-pos}
use rss_ring_ppml.Word.Digits.{bit-shl_zero, bit-shl-suc, bit-or_left, bit-or_right}
use rss_ring_ppml.BitLt.{parity_loop, even_mask, odd_mask}

parity_loop-zero : (w n : ℕ) → 0 < w → bit (parity_loop w n) 0 ≡ 0
unfolding parity_loop
parity_loop-zero w zero h = zero-bit 0
parity_loop-zero w (suc n) h = bit-shl_zero w _ h

parity_digit : (m : ℕ) → bit (if m % 2 == 0 then 1 else 0) 0 ≡ suc m % 2
unfolding bit
parity_digit m = ground arith

parity_digit-high : (m j : ℕ) → bit (if m % 2 == 0 then 1 else 0) (suc j) ≡ 0
parity_digit-high m j =
    bit-high (if m % 2 == 0 then 1 else 0) 1 (suc j) (ground arith) (omega arith)

parity_loop-suc : (w m j : ℕ) → suc j < w → bit (parity_loop w (m + suc j)) (suc j) ≡ suc m % 2
unfolding parity_loop
parity_loop-suc w m zero h =
    ap (λ (t : ℕ). bit (parity_loop w t) 1) {x = m + 1} {y = suc m} (omega arith)
    ∙ bit-shl-suc w _ 0 h
    ∙ bit-or_right (parity_loop w m) _ 0 (parity_loop-zero w m (omega arith))
    ∙ parity_digit m
parity_loop-suc w m (suc j) h =
    ap (λ (t : ℕ). bit (parity_loop w t) (suc (suc j))) {x = m + suc (suc j)} {y = suc (m + suc j)}
      (omega arith)
    ∙ bit-shl-suc w _ (suc j) h
    ∙ bit-or_left (parity_loop w (m + suc j)) _ (suc j) (parity_digit-high (m + suc j) j)
    ∙ parity_loop-suc w m j (omega arith)

module _ (w r : ℕ) (even : w % 2 ≡ 0) (fits : r ≤ w) where
  parity_lem : (j : ℕ) → j < w → bit (parity_loop w (suc w)) j ≡ j % 2
  parity_lem zero h = parity_loop-zero w (suc w) h ∙ omega arith
  parity_lem (suc j) h =
      ap (λ (t : ℕ). bit (parity_loop w t) (suc j)) {x = suc w} {y = (w - j) + suc j} (omega arith)
      ∙ parity_loop-suc w (w - j) j h
      ∙ omega arith

  parity-lt : parity_loop w (suc w) < 2 ^ w
  unfolding parity_loop shl
  parity-lt = mod-lt _ (two_pow-pos w)

  pub bit-odd_mask : (j : ℕ) → j < r → bit (odd_mask w r) j ≡ j % 2
  unfolding odd_mask
  bit-odd_mask j h =
      ap (λ (t : ℕ). bit t j) (mask_mod fits (parity_loop w (suc w)))
      ∙ bit-mod (parity_loop w (suc w)) r j h
      ∙ parity_lem j (omega arith)

  pub bit-even_mask : (j : ℕ) → j < r → bit (even_mask w r) j ≡ suc j % 2
  unfolding even_mask
  bit-even_mask j h =
      ap (λ (t : ℕ). bit t j) (mask_mod fits (parity_loop w (suc w) / 2 ^ 1))
      ∙ bit-mod (parity_loop w (suc w) / 2 ^ 1) r j h
      ∙ bit-div (parity_loop w (suc w)) 1 j
      ∙ ap (bit (parity_loop w (suc w))) {x = j + 1} {y = suc j} (omega arith)
      ∙ elim (Bool-cases (ltb (suc j) w)) [
        | inl e ↦ parity_lem (suc j) (ground arith)
        | inr e ↦ bit-high (parity_loop w (suc w)) w (suc j) parity-lt (ground arith) ∙ ground arith
      ]

  pub odd_mask-lt : odd_mask w r < 2 ^ r
  unfolding odd_mask
  odd_mask-lt = mask-lt fits (parity_loop w (suc w))
