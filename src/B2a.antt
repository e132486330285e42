-- ===== src/B2a.antt =====
-- src/protocols_composite/b2a.cpp: arithmetic shares of a bit that is shared by exclusive or.
pub mod Flip
pub mod Correct
use rss_ring_ppml.Base.{ℕ, ◌+◌, bit_xor}
use rss_ring_ppml.Word.{add, sub, mul, get_bit}
use rss_ring_ppml.Word.Memory.{Array, zeros, for_each}
use rss_ring_ppml.Net.{World}
use rss_ring_ppml.Prg.{Streams, Positions}
use rss_ring_ppml.Share.{Shares, unit_share}
use rss_ring_ppml.Open.{rss_open_bitwise}
use rss_ring_ppml.Mult.{Product}
use rss_ring_ppml.RandBit
use rss_ring_ppml.RandBit.{rss_rand_bit}

-- What the memory of `b` and `c` holds when it is allocated, and that of `Rss_RandBit`.
pub record Memory : Type 0 where
  pub rand : RandBit.Memory
  pub b : World Shares
  pub c : World Array

-- `ai[s] * c[i] + b[s][i] - 2 * c[i] * b[s][i]`.
unfoldable pub flip_share : ℕ → ℕ → ℕ → ℕ → ℕ
flip_share w ai c b = sub w (add w (mul w ai c) b) (mul w (mul w 2 c) b)

-- `sum[s][i] = a[s][i] ^ GET_BIT(b[s][i], 0)`.
unfoldable pub masked_bits : ℕ → World Shares → World Shares → World Shares
masked_bits size a b pid s = for_each size (λ i. bit_xor (a pid s i) (get_bit (b pid s i) 0)) zeros

-- `Rss_b2a(res, a, ring_size, size, nodeNet)`.
unfoldable pub rss_b2a :
    ℕ → ℕ → ℕ → Streams → Positions → Memory → World Shares → World Shares → Product
unfolding flip_share masked_bits unit_share
rss_b2a w ring_size size streams positions memory res a =
    let rand = rss_rand_bit w ring_size size streams positions memory.rand memory.b in
    let c = (rss_open_bitwise w ring_size size memory.c (masked_bits size a rand.b)).res in
    record {
      c = λ pid s.
          for_each size (λ i. flip_share w (unit_share pid s) (c pid i) (rand.b pid s i))
            (res pid s);
      positions = rand.positions;
    }
