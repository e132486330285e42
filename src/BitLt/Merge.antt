-- ===== src/BitLt/Merge.antt =====
-- One round of the loop merges the pairs that the parties share.
use rss_ring_ppml.BitLt.Bytes.{HasPairs, split-lt, split_bytes-bit, bit_xor-Cong}
use rss_ring_ppml.Base.{
  ℕ, suc, ◌+◌, ◌-◌, ◌*◌, ◌/◌, ◌%◌, ◌≤◌, ◌<◌, ◌≡◌, ◌∙◌, ap, arith, bit_xor, Bool-cases, ltb, inl,
  inr, refl, lt→ltb, ≥→ltb,
}
use rss_ring_ppml.Base.Bits.{bit}
use rss_ring_ppml.Base.Cong.{Cong_trans, Cong_eq}
use rss_ring_ppml.Word.Memory.{for_each_at, unit_size}
use rss_ring_ppml.Net.{World}
use rss_ring_ppml.Prg.{Streams, Positions}
use rss_ring_ppml.Prg.Sync.{InStep}
use rss_ring_ppml.Share.{Shares, IsShared}
use rss_ring_ppml.Share.Laws.{IsShared_congr}
use rss_ring_ppml.Share.Linear.{IsShared_move, IsShared_sum}
use rss_ring_ppml.Mult.{rss_mult_byte}
use rss_ring_ppml.Mult.Byte.{bit-rss_mult_byte}
use rss_ring_ppml.BitLt.{
  Pairs, even_word, odd_word, optimal_buffer, split_bytes, cleared_pairs, next_pairs,
}
use rss_ring_ppml.BitLt.Words.{even_word-even, even_word-odd, odd_word-even, odd_word-odd}
use rss_ring_ppml.BitLt.Store.{
  bit-store_p, bit-store_g, p_bit-eq, g_bit-eq, move_unused-below, move_unused-last,
}
use rss_ring_ppml.BitLt.Carry.{merged_p, merged_g}

module _ (w r size : ℕ) (even : w % 2 ≡ 0) (fits : r ≤ w) (streams : Streams)
    (positions : Positions) (step : InStep positions) (d : Pairs) (a_old b_old u_old : World Shares)
    {i : ℕ} (h : i < size) {p g : ℕ → ℕ} (pairs : HasPairs r d i p g) where
  abbrev n : ℕ
  n = unit_size r

  abbrev buffer : Pairs
  buffer = optimal_buffer w r size cleared_pairs d

  abbrev a : World Shares
  a = split_bytes n size buffer.p a_old

  abbrev b : World Shares
  b = split_bytes n size buffer.g b_old

  abbrev u : World Shares
  u = (rss_mult_byte (n * size) streams positions u_old a b).c

  p-at : (pid s : ℕ) → buffer.p pid s i ≡ even_word w r 0 (d.p pid s i) (d.g pid s i)
  unfolding optimal_buffer
  p-at pid s = for_each_at size _ _ h

  g-at : (pid s : ℕ) → buffer.g pid s i ≡ odd_word w r 0 (d.p pid s i)
  unfolding optimal_buffer
  g-at pid s = for_each_at size _ _ h

  -- A bit of the buffer is a bit of `d`.
  from_bit :
      (x y : World Shares) (m l : ℕ) {v : ℕ}
      → ((pid s : ℕ) → bit (y pid s i) l ≡ bit (x pid s i) m)
      → IsShared 1 (λ pid s k. bit (x pid s k) m) i v
      → IsShared 1 (λ pid s k. bit (y pid s k) l) i v
  from_bit x y m l e = IsShared_move (λ pid s k. bit (x pid s k) m) (λ pid s k. bit (y pid s k) l) e

  module _ (j : ℕ) (lt : 2 * j + 1 < r) where
    abbrev q : ℕ
    q = j / 4 + i * n

    one : 2 * j + 1 ≡ suc (2 * j)
    one = omega arith

    below : j / 4 < n
    below = omega arith

    -- The bit at `m` of the product, from bits of `a` and `b` at the place.
    product_bit :
        (m l : ℕ) {x y : ℕ}
        → l < 8
        → l + 8 * (j / 4) ≡ m
        → IsShared 1 (λ pid s k. bit (buffer.p pid s k) m) i x
        → IsShared 1 (λ pid s k. bit (buffer.g pid s k) m) i y
        → IsShared 1 (λ pid s k. bit (u pid s k) l) q (x * y)
    product_bit m l small e s t =
        bit-rss_mult_byte (n * size) streams positions step u_old a b l
          (split-lt n size buffer.p a_old h below)
          (IsShared_move (λ pid s k. bit (buffer.p pid s k) m) (λ pid s k. bit (a pid s k) l)
            (λ pid s. split_bytes-bit n size buffer.p a_old h below l m pid s small e) s)
          (IsShared_move (λ pid s k. bit (buffer.g pid s k) m) (λ pid s k. bit (b pid s k) l)
            (λ pid s. split_bytes-bit n size buffer.g b_old h below l m pid s small e) t)

    even_lem : IsShared 1 (λ pid s k. bit (u pid s k) (2 * j % 8)) q (p (2 * j) * p (2 * j + 1))
    even_lem =
        product_bit (2 * j) (2 * j % 8) (omega arith) (omega arith)
          (from_bit d.p buffer.p (2 * j) (2 * j)
            (λ pid s.
              ap (λ (t : ℕ). bit t (2 * j)) (p-at pid s)
              ∙ even_word-even w r even fits _ _ (2 * j) (omega arith) (omega arith))
            (pairs.p_bit (2 * j) (omega arith)))
          (rw one (
            from_bit d.p buffer.g (suc (2 * j)) (2 * j)
              (λ pid s.
                ap (λ (t : ℕ). bit t (2 * j)) (g-at pid s)
                ∙ odd_word-even w r even fits _ (2 * j) (omega arith) (omega arith))
              (pairs.p_bit (suc (2 * j)) (omega arith))))

    odd_lem :
        IsShared 1 (λ pid s k. bit (u pid s k) ((2 * j + 1) % 8)) q (g (2 * j) * p (2 * j + 1))
    odd_lem =
        product_bit (2 * j + 1) ((2 * j + 1) % 8) (omega arith) (omega arith)
          (rw one (
            from_bit d.g buffer.p (2 * j) (suc (2 * j))
              (λ pid s.
                ap (λ (t : ℕ). bit t (suc (2 * j))) (p-at pid s)
                ∙ even_word-odd w r even fits _ _ (2 * j) (omega arith) (omega arith))
              (pairs.g_bit (2 * j) (omega arith))))
          (rw one (
            from_bit d.p buffer.g (suc (2 * j)) (suc (2 * j))
              (λ pid s.
                ap (λ (t : ℕ). bit t (suc (2 * j))) (g-at pid s)
                ∙ odd_word-odd w r even fits _ (2 * j) (omega arith) (omega arith))
              (pairs.p_bit (suc (2 * j)) (omega arith))))

    stored_p :
        (pid s : ℕ) → bit ((next_pairs w r size u d).p pid s i) j ≡ bit (u pid s q) (2 * j % 8)
    unfolding next_pairs
    stored_p pid s =
        ap (λ (t : ℕ). bit t j) (for_each_at size _ _ h)
        ∙ move_unused-below w r (d.p pid s i) _ fits j (omega arith)
        ∙ bit-store_p w (u pid s) (i * n) (r / 2) (omega arith) j (omega arith)
        ∙ p_bit-eq w (u pid s) (i * n) j

    stored_g :
        (pid s : ℕ)
        → bit ((next_pairs w r size u d).g pid s i) j
          ≡ bit_xor (bit (u pid s q) ((2 * j + 1) % 8)) (bit (d.g pid s i) (2 * j + 1))
    unfolding next_pairs
    stored_g pid s =
        ap (λ (t : ℕ). bit t j) (for_each_at size _ _ h)
        ∙ move_unused-below w r (d.g pid s i) _ fits j (omega arith)
        ∙ bit-store_g w (u pid s) (i * n) (d.g pid s i) (r / 2) (omega arith) j (omega arith)
        ∙ g_bit-eq w (u pid s) (i * n) (d.g pid s i) j

    merged_p-IsShared :
        IsShared 1 (λ pid s k. bit ((next_pairs w r size u d).p pid s k) j) i (merged_p r p j)
    unfolding merged_p
    merged_p-IsShared = rw (lt→ltb (2 * j + 1) r lt) (
        IsShared_move (λ pid s k. bit (u pid s k) (2 * j % 8))
          (λ pid s k. bit ((next_pairs w r size u d).p pid s k) j) stored_p even_lem)

    merged_g-IsShared :
        IsShared 1 (λ pid s k. bit ((next_pairs w r size u d).g pid s k) j) i (merged_g r p g j)
    unfolding merged_g
    merged_g-IsShared = rw (lt→ltb (2 * j + 1) r lt) (
        IsShared_congr
          (λ pid s k. bit (u pid s q) ((2 * j + 1) % 8) + bit (d.g pid s k) (2 * j + 1))
          (λ pid s k. bit ((next_pairs w r size u d).g pid s k) j)
          (λ pid s. Cong_trans (Cong_eq (stored_g pid s)) (bit_xor-Cong _ _))
          (IsShared_sum (λ pid s k. bit (u pid s q) ((2 * j + 1) % 8))
            (λ pid s k. bit (d.g pid s k) (2 * j + 1))
            (IsShared_move (λ pid s k. bit (u pid s k) ((2 * j + 1) % 8))
              (λ pid s k. bit (u pid s q) ((2 * j + 1) % 8)) (λ pid s. refl) odd_lem)
            (pairs.g_bit (2 * j + 1) lt)))

  -- The pair that is left over.
  module _ (odd : r % 2 ≡ 1) where
    last : 2 * (r / 2) ≡ r - 1
    last = omega arith

    moved_p-IsShared :
        IsShared 1
          (λ pid s k. bit ((next_pairs w r size u d).p pid s k) (r / 2))
          i
          (merged_p r p (r / 2))
    unfolding merged_p next_pairs
    moved_p-IsShared =
        rw (≥→ltb (2 * (r / 2) + 1) r (omega arith), last)
          (from_bit d.p (next_pairs w r size u d).p (r - 1) (r / 2)
            (λ pid s.
              ap (λ (t : ℕ). bit t (r / 2)) (for_each_at size _ _ h)
              ∙ move_unused-last w r (d.p pid s i) _ fits odd)
            (pairs.p_bit (r - 1) (omega arith)))

    moved_g-IsShared :
        IsShared 1
          (λ pid s k. bit ((next_pairs w r size u d).g pid s k) (r / 2))
          i
          (merged_g r p g (r / 2))
    unfolding merged_g next_pairs
    moved_g-IsShared =
        rw (≥→ltb (2 * (r / 2) + 1) r (omega arith), last)
          (from_bit d.g (next_pairs w r size u d).g (r - 1) (r / 2)
            (λ pid s.
              ap (λ (t : ℕ). bit t (r / 2)) (for_each_at size _ _ h)
              ∙ move_unused-last w r (d.g pid s i) _ fits odd)
            (pairs.g_bit (r - 1) (omega arith)))

  pub next_pairs-HasPairs :
      HasPairs (r / 2 + r % 2) (next_pairs w r size u d) i (merged_p r p) (merged_g r p g)
  next_pairs-HasPairs = record {
    p_bit = λ j lt. elim (Bool-cases (ltb (2 * j + 1) r)) [
      | inl e ↦ merged_p-IsShared j (ground arith)
      | inr e ↦ let last : j ≡ r / 2 = ground arith in rw last (moved_p-IsShared (ground arith))
    ];
    g_bit = λ j lt. elim (Bool-cases (ltb (2 * j + 1) r)) [
      | inl e ↦ merged_g-IsShared j (ground arith)
      | inr e ↦ let last : j ≡ r / 2 = ground arith in rw last (moved_g-IsShared (ground arith))
    ];
  }
