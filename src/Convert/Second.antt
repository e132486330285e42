-- ===== src/Convert/Second.antt =====
-- The second part of the conversion: from bits that are shared by exclusive or to additive shares in
-- the other ring.
use rss_ring_ppml.Base.{ℕ, ◌+◌, ◌*◌, ◌/◌, ◌%◌, ◌^◌, ◌<◌, ◌≡◌, ◌∙◌, ap, refl, arith, bit_xor}
use rss_ring_ppml.Base.Bits.{bit, bit-lt}
use rss_ring_ppml.Base.Digits.{bit-mod}
use rss_ring_ppml.Base.Cong.{Cong_trans, Cong_refl, Cong_eq, add-Cong}
use rss_ring_ppml.Word.{IsRing, get_bit}
use rss_ring_ppml.Word.Digits.{get_bit-eq}
use rss_ring_ppml.Word.Memory.{Array, zeros, for_each, for_each_at}
use rss_ring_ppml.Net.{World}
use rss_ring_ppml.Share.{Shares, IsShared, IsXorShared, unit_share}
use rss_ring_ppml.Share.Linear.{IsShared_move, IsShared_value}
use rss_ring_ppml.Share.Xor.{IsXorShared-xor, IsXorShared-move}
use rss_ring_ppml.MatMult.Correct.{row_at, column_at, index-lt}
use rss_ring_ppml.Open.{rss_open_bitwise}
use rss_ring_ppml.Open.Bitwise.{rss_open_bitwise_lem}
use rss_ring_ppml.B2a.{flip_share}
use rss_ring_ppml.B2a.Correct.{flip_share_lem}
use rss_ring_ppml.B2a.Flip.{unmask, flip-IsShared}
use rss_ring_ppml.Convert.{bit_words, flipped_bits, sum_bits, to_prime}
use rss_ring_ppml.Convert.Bits.{
  number, number-bit, bit-number, bit-bit_xor, set_bits-IsXorShared, sum_bits-IsShared,
}

module _ {w k m : ℕ} (ring : IsRing w k) (m_ring : IsRing w m) (size offset : ℕ)
    (r_shares r_2 : World Shares) {i : ℕ} (h : i < size) (b : ℕ → ℕ) (small : (t : ℕ) → b t < 2)
    (random : (t : ℕ) → t < k → IsShared m r_shares (offset + i * k + t) (b t)) where
  -- The low bits of the random shares, put together.
  pub bit_words-IsXorShared : IsXorShared k (bit_words w k size offset r_shares r_2) i (number b k)
  unfolding bit_words
  bit_words-IsXorShared =
      set_bits-IsXorShared (offset + i * k) ring.fits r_shares
        (bit_words w k size offset r_shares r_2) r_2 b m_ring.pos small
        (λ pid s. for_each_at size _ (r_2 pid s) h) random

  module _ (c_memory : World Array) (a_2 : World Shares) {v : ℕ} (s : IsXorShared k a_2 i v) where
    abbrev sum : World Shares
    sum pid s' =
        for_each size
          (λ n. bit_xor (a_2 pid s' n) (bit_words w k size offset r_shares r_2 pid s' n)) zeros

    abbrev opened : World Array
    opened = (rss_open_bitwise w k size c_memory sum).res

    abbrev masked : ℕ
    masked = bit_xor v (number b k)

    opened_lem :
        (opened 1 i ≡ masked % 2 ^ k)
        × (opened 2 i ≡ masked % 2 ^ k)
        × (opened 3 i ≡ masked % 2 ^ k)
        × IsXorShared k (rss_open_bitwise w k size c_memory sum).a i masked
    opened_lem = rss_open_bitwise_lem ring size c_memory sum h (
        IsXorShared-move
          (λ pid s' n. bit_xor (a_2 pid s' n) (bit_words w k size offset r_shares r_2 pid s' n)) sum
          (λ pid s'. for_each_at size _ zeros h)
          (IsXorShared-xor a_2 (bit_words w k size offset r_shares r_2) s bit_words-IsXorShared))

    module _ (t : ℕ) (lt : t < k) where
      abbrev c : ℕ
      c = bit_xor (bit v t) (b t)

      bit_at :
          (pid : ℕ)
          → (opened pid i ≡ masked % 2 ^ k)
          → get_bit (opened pid ((i * k + t) / k)) ((i * k + t) % k) ≡ c
      bit_at pid e =
          rw (row_at k i t lt, column_at k i t lt)
            (get_bit-eq (opened pid i) t
              ∙ ap (λ (z : ℕ). bit z t) e
              ∙ bit-mod masked k t lt
              ∙ bit-bit_xor v (number b k) t
              ∙ ap (bit_xor (bit v t)) (bit-number b small k t lt))

      -- The share of bit `t` in the other ring.
      flipped-IsShared :
          IsShared m (flipped_bits w k size offset opened r_shares) (i * k + t) (bit v t)
      unfolding flipped_bits
      flipped-IsShared =
          flip-IsShared {v = bit v t} {r = b t} {c = c}
            (λ pid n. get_bit (opened pid (n / k)) (n % k))
            (flipped_bits w k size offset opened r_shares)
            (λ pid s' n. r_shares pid s' (offset + n)) (bit_at 1 opened_lem.0)
            (bit_at 2 opened_lem.1) (bit_at 3 opened_lem.2)
            (λ pid s' e.
              Cong_trans
                (add-Cong
                  (Cong_eq (
                    for_each_at (size * k) _ zeros (index-lt h lt)
                    ∙ ap
                        (λ (z : ℕ).
                          flip_share w (unit_share pid s') z
                            (r_shares pid s' (offset + (i * k + t))))
                        e))
                  (Cong_refl _))
                (flip_share_lem m_ring.pos m_ring size a_2 r_shares h (unit_share pid s') c
                  (r_shares pid s' (offset + (i * k + t)))))
            (unmask (bit v t) (b t) c (bit-lt v t) (small t) refl)
            (IsShared_move r_shares (λ pid s' n. r_shares pid s' (offset + n))
              (λ pid s'.
                ap (r_shares pid s') {x = offset + (i * k + t)} {y = offset + i * k + t}
                  (omega arith))
              (random t lt))

    pub to_prime_lem : IsShared m (to_prime w k size offset c_memory r_shares r_2 a_2) i (v % 2 ^ k)
    unfolding to_prime
    to_prime_lem = IsShared_value (Cong_eq (number-bit v k)) (
        IsShared_move
          (λ pid s' n. sum_bits w (flipped_bits w k size offset opened r_shares pid s') (i * k) k 0)
          (to_prime w k size offset c_memory r_shares r_2 a_2)
          (λ pid s'. for_each_at size _ zeros h)
          (sum_bits-IsShared m_ring.fits (flipped_bits w k size offset opened r_shares) (bit v)
            (i * k) i k (λ t lt. flipped-IsShared t lt)))
