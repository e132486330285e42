-- ===== src/EdaBit/Carry.antt =====
-- `Rss_BitAdd_trunc` shares a sum and the carries that `Rss_edaBit_trunc` needs.
use rss_ring_ppml.Base.{ℕ, suc, ◌+◌, ◌-◌, ◌*◌, ◌≤◌, ◌<◌, ◌≡◌, refl, arith, lt→ltb, ≥→ltb}
use rss_ring_ppml.Base.Bits.{bit, bit-lt}
use rss_ring_ppml.Word.{IsRing, IsWidth, get_bit}
use rss_ring_ppml.Word.Digits.{get_bit-eq}
use rss_ring_ppml.Net.{World}
use rss_ring_ppml.Prg.{Streams, Positions}
use rss_ring_ppml.Prg.Sync.{InStep}
use rss_ring_ppml.Share.{Shares, IsShared, IsXorShared}
use rss_ring_ppml.Share.Linear.{IsShared_value, IsShared_move}
use rss_ring_ppml.Share.Xor.{IsXorShared-move, one_bit-IsXorShared}
use rss_ring_ppml.Mult.{rss_mult_bitwise}
use rss_ring_ppml.BitLt.Store.{get_bit-lt}
use rss_ring_ppml.BitAdd.{rss_circle_op_l, rss_bit_add}
use rss_ring_ppml.BitAdd.Sum.{carry_of, carry_of-lt, carry-add}
use rss_ring_ppml.BitAdd.Correct.{first_pairs, bit_add_carries, rss_bit_add_lem}
use rss_ring_ppml.EdaBit.{carry_bits, rss_bit_add_trunc}

-- A bit of shared words, as words of one bit.
one_bit :
    {n j x : ℕ} (i l : ℕ) (a b : World Shares)
    → ((pid s : ℕ) → b pid s j ≡ get_bit (a pid s i) l)
    → x < 2
    → IsShared 1 (λ pid s t. bit (a pid s t) l) i x
    → IsXorShared n b j x
one_bit i l a b e small s =
    IsXorShared-move (λ pid s t. get_bit (a pid s t) l) b e
      (one_bit-IsXorShared (λ pid s t. get_bit (a pid s t) l) (λ pid s. get_bit-lt (a pid s i) l)
        small
        (IsShared_move (λ pid s t. bit (a pid s t) l) (λ pid s t. get_bit (a pid s t) l)
          (λ pid s. get_bit-eq (a pid s i) l) s))

module _ {w k : ℕ} (ring : IsRing w k) (width : IsWidth w) (m size : ℕ) (streams : Streams)
    (positions : Positions) (step : InStep positions) (res carry a b : World Shares) {i x y : ℕ}
    (pos : 0 < m) (below : m ≤ k) (h : i < size) (s : IsXorShared k a i x)
    (t : IsXorShared k b i y) where
  abbrev g : World Shares
  g =
      (rss_circle_op_l w k size streams
        (rss_mult_bitwise w k size streams positions res a b).positions
        (first_pairs ring width size streams positions step res a b h s t)).d.g

  carry-IsShared :
      (j : ℕ) → 0 < j → j ≤ k → IsShared 1 (λ pid s n. bit (g pid s n) (j - 1)) i (carry_of x y j)
  carry-IsShared j pos le =
      IsShared_value
        (record {
          same =
              let last : suc (j - 1) ≡ j = omega (arith, pos) in
              rw last (omega (arith, carry-add x y j, carry_of-lt x y j));
        })
        ((bit_add_carries ring width size streams positions step res a b h s t).0 (j - 1)
          (omega (arith, pos, le)))

  -- The carry into bit `m`.
  pub low-IsXorShared :
      IsXorShared k
        (rss_bit_add_trunc w k m size streams positions res carry a b).carry
        i
        (carry_of x y m)
  unfolding rss_bit_add_trunc carry_bits
  low-IsXorShared =
      one_bit i (m - 1) g _ (λ pid s. rw (lt→ltb i size h) refl) (carry_of-lt x y m)
        (carry-IsShared m pos below)

  -- The carry out of the ring.
  pub high-IsXorShared :
      IsXorShared k
        (rss_bit_add_trunc w k m size streams positions res carry a b).carry
        (size + i)
        (carry_of x y k)
  unfolding rss_bit_add_trunc carry_bits
  high-IsXorShared =
      let back : size + i - size ≡ i = omega arith in
      one_bit i (k - 1) g _
        (λ pid s.
          rw
            (
              ≥→ltb (size + i) size (omega arith),
              lt→ltb (size + i) (2 * size) (omega (arith, h)),
              back,
            )
            refl)
        (carry_of-lt x y k) (carry-IsShared k ring.pos (omega arith))

  -- The top bit of the sum.
  pub top-IsXorShared :
      IsXorShared k
        (rss_bit_add_trunc w k m size streams positions res carry a b).carry
        (2 * size + i)
        (bit (x + y) (k - 1))
  unfolding rss_bit_add_trunc carry_bits
  top-IsXorShared =
      let back : 2 * size + i - 2 * size ≡ i = omega arith in
      let sum = rss_bit_add_lem ring width size streams positions step res a b h s t in
      one_bit i (k - 1) (rss_bit_add w k size streams positions res a b).c _
        (λ pid s.
          rw
            (
              ≥→ltb (2 * size + i) size (omega (arith, h)),
              ≥→ltb (2 * size + i) (2 * size) (omega arith),
              lt→ltb (2 * size + i) (3 * size) (omega (arith, h)),
              back,
            )
            (unfold rss_bit_add in refl))
        (bit-lt (x + y) (k - 1)) (sum.0.at_bit (k - 1) (omega (arith, ring.pos)))
