-- ===== src/BitAdd/Correct.antt =====
-- `Rss_BitAdd` and `Rss_nBitAdd` share the sum, bit by bit.
use rss_ring_ppml.Base.{
  ℕ, zero, suc, ◌+◌, ◌*◌, ◌≤◌, ◌<◌, ◌≡◌, ◌∙◌, ap, sym, arith, bit_and, bit_xor,
}
use rss_ring_ppml.Base.Bits.{bit, bit-xor, bit-and}
use rss_ring_ppml.Base.Cong.{Cong, Cong_trans, Cong_eq, mod-Cong}
use rss_ring_ppml.Word.{IsRing, IsWidth, shl}
use rss_ring_ppml.Word.Digits.{bit-shl_zero, bit-shl-suc}
use rss_ring_ppml.Word.Memory.{Array, zeros, for_each, for_each_at}
use rss_ring_ppml.Net.{World}
use rss_ring_ppml.Prg.{Streams, Positions}
use rss_ring_ppml.Prg.Sync.{InStep}
use rss_ring_ppml.Share.{Shares, IsShared, IsXorShared}
use rss_ring_ppml.Share.Laws.{IsShared_congr}
use rss_ring_ppml.Share.Linear.{IsShared_value, IsShared_sum, IsShared_move}
use rss_ring_ppml.Share.Xor.{IsXorShared-move, IsShared_at_parties}
use rss_ring_ppml.Mult.{rss_mult_bitwise}
use rss_ring_ppml.Mult.Bitwise.{rss_mult_bitwise_lem, rss_mult_bitwise-InStep}
use rss_ring_ppml.BitLt
use rss_ring_ppml.BitLt.{Pairs, propagate}
use rss_ring_ppml.BitLt.Bytes.{HasPairs}
use rss_ring_ppml.BitLt.Carry.{carry}
use rss_ring_ppml.BitLt.Sum
use rss_ring_ppml.BitAdd.{rss_circle_op_l, sum_word, rss_bit_add, rss_bit_add_public, rss_n_bit_add}
use rss_ring_ppml.BitAdd.Sum.{add_p, add_g, carry-add, bit-add}
use rss_ring_ppml.BitAdd.Rounds.{rss_circle_op_l_lem, rss_circle_op_l-InStep}

-- A bit of the sum, by the carry of the positions below it.
sum_bit : (x y j : ℕ) → Cong 2 (add_p x y j + carry (add_p x y) (add_g x y) j) (bit (x + y) j)
sum_bit x y j = record { same = omega (arith, bit-add x y j, carry-add x y j) }

module _ {w k : ℕ} (fits : k ≤ w) (x y : ℕ) (a g : World Shares) {i : ℕ}
    (of_a : (j : ℕ) → j < k → IsShared 1 (λ pid s n. bit (a pid s n) j) i (add_p x y j))
    (of_g : (j : ℕ)
      → j < k
      → IsShared 1 (λ pid s n. bit (g pid s n) j) i (carry (add_p x y) (add_g x y) (suc j))) where
  sum_word-bit :
      (j : ℕ)
      → j < k
      → IsShared 1 (λ pid s n. bit (sum_word w (a pid s n) (g pid s n)) j) i (bit (x + y) j)
  unfolding sum_word carry
  sum_word-bit zero lt = IsShared_value (Cong_trans (Cong_eq (omega arith)) (sum_bit x y 0)) (
      IsShared_congr (λ pid s n. bit (a pid s n) 0)
        (λ pid s n. bit (sum_word w (a pid s n) (g pid s n)) 0)
        (λ pid s. Cong_trans (Cong_eq (bit-xor (a pid s i) (shl w (g pid s i) 1) 0)) (
          Cong_trans (mod-Cong 2 _)
            (Cong_eq (omega (arith, bit-shl_zero w (g pid s i) (omega (arith, fits)))))))
        (of_a 0 lt))
  sum_word-bit (suc j) lt = IsShared_value (sum_bit x y (suc j)) (
      IsShared_congr (λ pid s n. bit (a pid s n) (suc j) + bit (g pid s n) j)
        (λ pid s n. bit (sum_word w (a pid s n) (g pid s n)) (suc j))
        (λ pid s. Cong_trans (Cong_eq (bit-xor (a pid s i) (shl w (g pid s i) 1) (suc j))) (
          Cong_trans (mod-Cong 2 _)
            (Cong_eq (omega (arith, bit-shl-suc w (g pid s i) j (omega (arith, fits)))))))
        (IsShared_sum (λ pid s n. bit (a pid s n) (suc j)) (λ pid s n. bit (g pid s n) j)
          (of_a (suc j) lt) (of_g j (omega arith))))

  sum_word-IsXorShared : IsXorShared k (λ pid s n. sum_word w (a pid s n) (g pid s n)) i (x + y)
  sum_word-IsXorShared = record { at_bit = sum_word-bit }

module _ {w k : ℕ} (ring : IsRing w k) (width : IsWidth w) (size : ℕ) (streams : Streams)
    (positions : Positions) (step : InStep positions) (res a b : World Shares) {i x y : ℕ}
    (h : i < size) (s : IsXorShared k a i x) (t : IsXorShared k b i y) where
  abbrev pub first_pairs : Pairs
  first_pairs = record {
    p = λ pid s. for_each size (λ i. bit_xor (a pid s i) (b pid s i)) zeros;
    g = λ pid s.
        for_each size ((rss_mult_bitwise w k size streams positions res a b).c pid s) zeros;
  }

  first_p : (j : ℕ) → j < k → IsShared 1 (λ pid s n. bit (first_pairs.p pid s n) j) i (add_p x y j)
  first_p j lt =
      IsShared_congr (λ pid s n. bit (a pid s n) j + bit (b pid s n) j)
        (λ pid s n. bit (first_pairs.p pid s n) j)
        (λ pid s.
          Cong_trans
            (Cong_eq (
              ap (λ (t : ℕ). bit t j) (for_each_at size _ zeros h)
              ∙ bit-xor (a pid s i) (b pid s i) j))
            (mod-Cong 2 _))
        (IsShared_sum (λ pid s n. bit (a pid s n) j) (λ pid s n. bit (b pid s n) j) (s.at_bit j lt)
          (t.at_bit j lt))

  first-HasPairs : HasPairs k first_pairs i (add_p x y) (add_g x y)
  first-HasPairs =
      let product = rss_mult_bitwise_lem ring size streams positions step res a b h s t in
      record {
        p_bit = first_p;
        g_bit = λ j lt. IsShared_value (Cong_eq (bit-and x y j)) (
            IsShared_move
              (λ pid s n. bit ((rss_mult_bitwise w k size streams positions res a b).c pid s n) j)
              (λ pid s n. bit (first_pairs.g pid s n) j)
              (λ pid s. ap (λ (t : ℕ). bit t j) (for_each_at size _ zeros h))
              (product.0.at_bit j lt));
      }

  -- The carries that `Rss_BitAdd` finds.
  pub bit_add_carries :
      ((t : ℕ)
        → t < k
        → IsShared 1
            (λ pid s n.
              bit
                ((rss_circle_op_l w k size streams
                    (rss_mult_bitwise w k size streams positions res a b).positions
                    first_pairs).d.g
                  pid s n)
                t)
            i
            (carry (add_p x y) (add_g x y) (suc t)))
      × InStep
          (rss_circle_op_l w k size streams
            (rss_mult_bitwise w k size streams positions res a b).positions
            first_pairs).positions
  bit_add_carries =
      let product = rss_mult_bitwise_lem ring size streams positions step res a b h s t in
      rss_circle_op_l_lem width k size streams _ first_pairs ring.pos ring.fits product.1 h
        first-HasPairs

  -- At a supported ring size and a width of a word that is a power of two, for `x` and `y` shared
  -- by exclusive or at an index `i` below `size`, and streams in step, `Rss_BitAdd` leaves in
  -- `res` exclusive-or shares of the low bits of `x + y`, and the streams in step.
  pub rss_bit_add_lem :
      IsXorShared k (rss_bit_add w k size streams positions res a b).c i (x + y)
      × InStep (rss_bit_add w k size streams positions res a b).positions
  unfolding rss_bit_add
  rss_bit_add_lem =
      let out =
        rss_circle_op_l w k size streams
          (rss_mult_bitwise w k size streams positions res a b).positions first_pairs in
      (
        IsXorShared-move (λ pid s n. sum_word w (first_pairs.p pid s n) (out.d.g pid s n)) _
            (λ pid s.
              for_each_at size _ _ h
              ∙ ap (λ (t : ℕ). sum_word w t (out.d.g pid s i)) (sym (for_each_at size _ zeros h)))
            (sum_word-IsXorShared ring.fits x y first_pairs.p out.d.g first_p bit_add_carries.0),
        bit_add_carries.1,
      )

-- The streams stay in step for any size.
pub rss_bit_add-InStep :
    (w k size : ℕ) (streams : Streams) (positions : Positions) (res a b : World Shares)
    → InStep positions
    → InStep (rss_bit_add w k size streams positions res a b).positions
unfolding rss_bit_add
rss_bit_add-InStep w k size streams positions res a b step =
    rss_circle_op_l-InStep w k size streams _ _
      (rss_mult_bitwise-InStep w k size streams positions step res a b)

-- The pairs that the variant with a public number starts with.
abbrev public_pairs : ℕ → ℕ → World Array → World Shares → Pairs
public_pairs w size a b = record {
  p = λ pid s. for_each size (λ i. propagate w pid s (a pid i) (b pid s i)) zeros;
  g = λ pid s. for_each size (λ i. bit_and (a pid i) (b pid s i)) zeros;
}

public-HasPairs :
    {w k : ℕ} (ring : IsRing w k) (size : ℕ) (a : World Array) (b : World Shares) {i x y : ℕ}
    → i < size
    → (a 1 i ≡ x)
    → (a 2 i ≡ x)
    → (a 3 i ≡ x)
    → IsXorShared k b i y
    → HasPairs k (public_pairs w size a b) i (add_p x y) (add_g x y)
unfolding BitLt.first_pairs
public-HasPairs {w} ring size a b {i} {x} {y} h a_1 a_2 a_3 s = record {
  p_bit = Sum.p_lem ring size a b h a_1 a_2 a_3 s;
  g_bit = λ j lt.
      IsShared_at_parties (λ pid. a pid i ≡ x)
        (λ pid s n. bit ((public_pairs w size a b).g pid s n) j)
        (λ pid s n. bit x j * bit (b pid s n) j) a_1 a_2 a_3
        (λ pid s e. Cong_eq (
          ap (λ (t : ℕ). bit t j) (for_each_at size _ zeros h)
          ∙ bit-and (a pid i) (b pid s i) j
          ∙ ap (λ (t : ℕ). bit t j * bit (b pid s i) j) e))
        (Sum.and_lem ring size a b h a_1 a_2 a_3 s j lt);
}

-- At a supported ring size and a width of a word that is a power of two, for a number `x` that all
-- parties hold in `a[i]`, a `y` shared by exclusive or in `b`, an index `i` below `size`, and
-- streams in step, `Rss_BitAdd` leaves in `res` exclusive-or shares of the low bits of `x + y`, and
-- the streams in step.
pub rss_bit_add_public_lem :
    {w k : ℕ} (ring : IsRing w k) (width : IsWidth w) (size : ℕ) (streams : Streams)
    (positions : Positions) (step : InStep positions) (res : World Shares) (a : World Array)
    (b : World Shares) {i x y : ℕ}
    → i < size
    → (a 1 i ≡ x)
    → (a 2 i ≡ x)
    → (a 3 i ≡ x)
    → IsXorShared k b i y
    → IsXorShared k (rss_bit_add_public w k size streams positions res a b).c i (x + y)
      × InStep (rss_bit_add_public w k size streams positions res a b).positions
unfolding rss_bit_add_public
rss_bit_add_public_lem {w} {k} ring width size streams positions step res a b {i} {x} {y} h a_1 a_2
      a_3 s =
    let d = public_pairs w size a b in
    let out = rss_circle_op_l w k size streams positions d in
    let pairs = public-HasPairs ring size a b h a_1 a_2 a_3 s in
    let lem =
      rss_circle_op_l_lem width k size streams positions d ring.pos ring.fits step h pairs in
    (
      IsXorShared-move (λ pid s n. sum_word w (d.p pid s n) (out.d.g pid s n)) _
          (λ pid s.
            for_each_at size _ _ h
            ∙ ap (λ (t : ℕ). sum_word w t (out.d.g pid s i)) (sym (for_each_at size _ zeros h)))
          (sum_word-IsXorShared ring.fits x y d.p out.d.g pairs.p_bit lem.0),
      lem.1,
    )

-- At a supported ring size and a width of a word that is a power of two, for numbers `x` and `y`
-- shared by exclusive or at the indices `i` and `size + i`, and streams in step, `Rss_nBitAdd`
-- leaves in `res[i]` exclusive-or shares of the low bits of `x + y`, and the streams in step.
pub rss_n_bit_add_lem :
    {w k : ℕ} (ring : IsRing w k) (width : IsWidth w) (size : ℕ) (streams : Streams)
    (positions : Positions) (step : InStep positions) (res r_bitwise : World Shares) {i x y : ℕ}
    → i < size
    → IsXorShared k r_bitwise i x
    → IsXorShared k r_bitwise (size + i) y
    → IsXorShared k (rss_n_bit_add w k size streams positions res r_bitwise).c i (x + y)
      × InStep (rss_n_bit_add w k size streams positions res r_bitwise).positions
unfolding rss_n_bit_add
rss_n_bit_add_lem ring width size streams positions step res r_bitwise h s t =
    rss_bit_add_lem ring width size streams positions step res _ _ h
      (IsXorShared-move r_bitwise (λ pid s'. for_each size (r_bitwise pid s') zeros)
        (λ pid s'. for_each_at size _ zeros h) s)
      (IsXorShared-move r_bitwise (λ pid s'. for_each size (λ i. r_bitwise pid s' (size + i)) zeros)
        (λ pid s'. for_each_at size _ zeros h) t)
