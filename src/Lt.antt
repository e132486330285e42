-- ===== src/Lt.antt =====
-- src/protocols_composite/LT.cpp: maximum and minimum of shared values. The most significant bit
-- (src/protocols_composite/MSB.cpp) is an interface, with what it promises as a law.
pub mod Values
pub mod Correct
pub mod Both
use rss_ring_ppml.Base.{ℕ, ◌+◌, ◌-◌, ◌*◌, ◌/◌, ◌%◌, ◌^◌, ◌<◌}
use rss_ring_ppml.Word.Memory.{zeros, for_each}
use rss_ring_ppml.Net.{World}
use rss_ring_ppml.Prg.{Streams, Positions}
use rss_ring_ppml.Prg.Sync.{InStep}
use rss_ring_ppml.Share.{Shares, IsShared, add_shares, sub_shares}
use rss_ring_ppml.Mult.{Product, rss_mult}

-- `Rss_MSB(res, a, size, ring_size, nodeNet)`: size, positions in the streams, `res` and `a`.
abbrev pub MsbProtocol : Type 0
MsbProtocol = ℕ → Positions → World Shares → World Shares → Product

-- The result shares bit `k - 1` of a shared value, and the streams stay in step.
pub record IsMsb (k : ℕ) (msb : MsbProtocol) : Type 0 where
  pub top_bit :
      (size : ℕ) (positions : Positions) (res a : World Shares) {i x : ℕ}
      → InStep positions
      → i < size
      → IsShared k a i x
      → IsShared k (msb size positions res a).c i (x % 2 ^ k / 2 ^ (k - 1))
  pub in_step :
      (size : ℕ) (positions : Positions) (res a : World Shares)
      → InStep positions
      → InStep (msb size positions res a).positions

-- What the memory of `c` and `d` holds when it is allocated.
pub record Memory : Type 0 where
  pub c : World Shares
  pub d : World Shares

-- The memory of `diff`, which is written in full before it is read.
abbrev pub fresh : World Shares
fresh pid s = zeros

-- `b[s][layer]` in place of `b[s][i]`.
abbrev pub at_layer : World Shares → ℕ → World Shares
at_layer b layer pid s i = b pid s layer

module _ (w ring_size size : ℕ) (streams : Streams) (msb : MsbProtocol) (memory : Memory) where
  -- [c] * ([b] - [a]) + [a], where c is the top bit of a - b.
  unfoldable pub select_larger : Positions → World Shares → World Shares → World Shares → Product
  unfolding add_shares sub_shares
  select_larger positions res a b =
      let top = msb size positions memory.c (sub_shares w size a b fresh) in
      let d =
        rss_mult w ring_size size streams top.positions memory.d top.c
          (sub_shares w size b a fresh) in
      record { c = add_shares w size d.c a res; positions = d.positions }

  -- [c] * ([a] - [b]) + [b].
  unfoldable pub select_smaller : Positions → World Shares → World Shares → World Shares → Product
  unfolding add_shares sub_shares
  select_smaller positions res a b =
      let top = msb size positions memory.c (sub_shares w size a b fresh) in
      let d =
        rss_mult w ring_size size streams top.positions memory.d top.c
          (sub_shares w size a b fresh) in
      record { c = add_shares w size d.c b res; positions = d.positions }

  -- `Rss_LT(res, a, b, size, ring_size, nodeNet)`, with `Rss_MSB` for `msb`.
  unfoldable pub rss_lt : Positions → World Shares → World Shares → World Shares → Product
  unfolding select_larger
  rss_lt positions res a b = select_larger positions res a b

  -- `new_Rss_LT`, with `new_Rss_MSB`.
  unfoldable pub new_rss_lt : Positions → World Shares → World Shares → World Shares → Product
  unfolding select_larger
  new_rss_lt positions res a b = select_larger positions res a b

  -- `fixed_Rss_LT(res, a, b, size, ring_size, layer, nodeNet)`.
  unfoldable pub fixed_rss_lt : Positions → World Shares → World Shares → World Shares → ℕ → Product
  unfolding select_larger
  fixed_rss_lt positions res a b layer = select_larger positions res a (at_layer b layer)

  -- `fixed_Rss_GT`.
  unfoldable pub fixed_rss_gt : Positions → World Shares → World Shares → World Shares → ℕ → Product
  unfolding select_smaller
  fixed_rss_gt positions res a b layer = select_smaller positions res a (at_layer b layer)

  -- `fixed_Rss_LT_time` and `fixed_Rss_GT_time`, with `new_Rss_MSB_time`; the timer is left out.
  unfoldable pub fixed_rss_lt_time :
      Positions → World Shares → World Shares → World Shares → ℕ → Product
  unfolding select_larger
  fixed_rss_lt_time positions res a b layer = select_larger positions res a (at_layer b layer)

  unfoldable pub fixed_rss_gt_time :
      Positions → World Shares → World Shares → World Shares → ℕ → Product
  unfolding select_smaller
  fixed_rss_gt_time positions res a b layer = select_smaller positions res a (at_layer b layer)

  -- The argument of the one call of `new_Rss_MSB_time`: `diff[s][i] = a[s][i] - b[s][layer]` and
  -- `diff[s][i + size] = a[s][i]`.
  unfoldable pub diff_and_a : World Shares → World Shares → ℕ → World Shares
  unfolding sub_shares
  diff_and_a a b layer pid s =
      for_each size (sub_shares w size a (at_layer b layer) fresh pid s)
        (for_each (2 * size) (λ i. a pid s (i - size)) zeros)

  -- The upper half of `c` moved to the lower half.
  unfoldable pub upper_half : World Shares → World Shares
  upper_half c pid s = for_each size (λ i. c pid s (size + i)) (c pid s)

  -- `fixed_Rss_GT_LT_time`; its arrays `c` and `diff` have 2 * size elements.
  unfoldable pub fixed_rss_gt_lt_time :
      Positions → World Shares → World Shares → World Shares → ℕ → Product
  unfolding add_shares sub_shares diff_and_a upper_half
  fixed_rss_gt_lt_time positions res a b layer =
      let top = msb (2 * size) positions memory.c (diff_and_a a b layer) in
      let d =
        rss_mult w ring_size size streams top.positions memory.d top.c
          (sub_shares w size a (at_layer b layer) fresh) in
      let smaller = add_shares w size d.c (at_layer b layer) res in
      let e = rss_mult w ring_size size streams d.positions d.c (upper_half top.c) smaller in
      record { c = add_shares w size e.c smaller smaller; positions = e.positions }
