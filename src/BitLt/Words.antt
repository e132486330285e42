-- ===== src/BitLt/Words.antt =====
-- The words of `OptimalBuffer`, bit by bit, and the bytes they are cut into.
use rss_ring_ppml.Base.{
  ℕ, zero, suc, ◌+◌, ◌*◌, ◌/◌, ◌%◌, ◌^◌, ◌≤◌, ◌<◌, ◌≡◌, ◌∙◌, ap, arith, bit_and, Bool-cases, ltb,
  inl, inr,
}
use rss_ring_ppml.Base.Bits.{bit, zero-bit}
use rss_ring_ppml.Base.Digits.{bit-div, bit-mod, bit-high}
use rss_ring_ppml.Word.{shl, shr}
use rss_ring_ppml.Word.Digits.{
  bit-shl_zero, bit-shl-suc, bit-or_left, bit-or_right, bit-and_one, bit-and_zero,
}
use rss_ring_ppml.BitLt.{even_mask, odd_mask, even_word, odd_word}
use rss_ring_ppml.BitLt.Masks.{bit-even_mask, bit-odd_mask, odd_mask-lt}

module _ (w r : ℕ) (even : w % 2 ≡ 0) (fits : r ≤ w) where
  -- Nothing of a word that is moved up by one from the even bits is at an even place.
  moved-even : (g m : ℕ) → m < r → m % 2 ≡ 0 → bit (shl w (bit_and g (even_mask w r)) 1) m ≡ 0
  moved-even g zero h e = bit-shl_zero w _ (omega arith)
  moved-even g (suc m) h e =
      bit-shl-suc w _ m (omega arith)
      ∙ bit-and_zero g _ m (bit-even_mask w r even fits m (omega arith) ∙ omega arith)

  pub even_word-even : (p g m : ℕ) → m < r → m % 2 ≡ 0 → bit (even_word w r 0 p g) m ≡ bit p m
  unfolding even_word
  even_word-even p g m h e =
      bit-or_left _ _ m (moved-even g m h e)
      ∙ bit-or_right 0 _ m (zero-bit m)
      ∙ bit-and_one p _ m (bit-even_mask w r even fits m h ∙ omega arith)

  pub even_word-odd :
      (p g m : ℕ) → suc m < r → m % 2 ≡ 0 → bit (even_word w r 0 p g) (suc m) ≡ bit g m
  unfolding even_word
  even_word-odd p g m h e =
      bit-or_right _ _ (suc m) (
        bit-or_right 0 _ (suc m) (zero-bit (suc m))
        ∙ bit-and_zero p _ (suc m) (bit-even_mask w r even fits (suc m) h ∙ omega arith))
      ∙ bit-shl-suc w _ m (omega arith)
      ∙ bit-and_one g _ m (bit-even_mask w r even fits m (omega arith) ∙ omega arith)

  -- The word that is moved down by one.
  moved_down :
      (p m : ℕ) → bit (shr (bit_and p (odd_mask w r)) 1) m ≡ bit (bit_and p (odd_mask w r)) (suc m)
  moved_down p m =
      bit-div (bit_and p (odd_mask w r)) 1 m
      ∙ ap (bit (bit_and p (odd_mask w r))) {x = m + 1} {y = suc m} (omega arith)

  odd_mask-next : (m : ℕ) → suc m < r → m % 2 ≡ 0 → bit (odd_mask w r) (suc (suc m)) ≡ 0
  odd_mask-next m h e = elim (Bool-cases (ltb (suc (suc m)) r)) [
    | inl f ↦ bit-odd_mask w r even fits (suc (suc m)) (ground arith) ∙ omega arith
    | inr f ↦ bit-high (odd_mask w r) r (suc (suc m)) (odd_mask-lt w r even fits) (ground arith)
  ]

  pub odd_word-even : (p m : ℕ) → suc m < r → m % 2 ≡ 0 → bit (odd_word w r 0 p) m ≡ bit p (suc m)
  unfolding odd_word
  odd_word-even p m h e =
      bit-or_left _ _ m
        (bit-and_zero p _ m (bit-odd_mask w r even fits m (omega arith) ∙ omega arith))
      ∙ bit-or_right 0 _ m (zero-bit m)
      ∙ moved_down p m
      ∙ bit-and_one p _ (suc m) (bit-odd_mask w r even fits (suc m) h ∙ omega arith)

  pub odd_word-odd :
      (p m : ℕ) → suc m < r → m % 2 ≡ 0 → bit (odd_word w r 0 p) (suc m) ≡ bit p (suc m)
  unfolding odd_word
  odd_word-odd p m h e =
      bit-or_right _ _ (suc m) (
        bit-or_right 0 _ (suc m) (zero-bit (suc m))
        ∙ moved_down p (suc m)
        ∙ bit-and_zero p _ (suc (suc m)) (odd_mask-next m h e))
      ∙ bit-and_one p _ (suc m) (bit-odd_mask w r even fits (suc m) h ∙ omega arith)

-- The bit at `m` of a word is in its byte `m / 8`.
pub byte-bit : (x q l m n : ℕ) → l < 8 → l + 8 * q ≡ m → bit (x / 2 ^ (8 * q) % 2 ^ 8) l ≡ bit x m
byte-bit x q l m n h e = bit-mod (x / 2 ^ (8 * q)) 8 l h ∙ bit-div x (8 * q) l ∙ ap (bit x) e
