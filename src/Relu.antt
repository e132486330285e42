-- ===== src/Relu.antt =====
-- src/protocols_ml/neural_ops.cpp: the rectifiers, which compare with shares of zero.
pub mod Correct
use rss_ring_ppml.Base.{ℕ, ◌==◌, if◌then◌else◌}
use rss_ring_ppml.Word.Memory.{zeros}
use rss_ring_ppml.Net.{World}
use rss_ring_ppml.Prg.{Streams, Positions}
use rss_ring_ppml.Share.{Shares}
use rss_ring_ppml.Mult.{Product}
use rss_ring_ppml.Lt
use rss_ring_ppml.Lt.{MsbProtocol, Memory}

-- The cleared arrays `zero`.
abbrev pub zero_shares : World Shares
zero_shares pid s = zeros

module _ (w ring_size size : ℕ) (streams : Streams) (msb new_msb : MsbProtocol)
    (memory : Memory) where
  -- `old_ReLU(res, a, size, ring_size, nodeNet)`, by `Rss_LT`.
  unfoldable pub old_relu : Positions → World Shares → World Shares → Product
  old_relu positions res a =
      Lt.rss_lt w ring_size size streams msb memory positions res a zero_shares

  -- `eda_ReLU`, by `new_Rss_LT`.
  unfoldable pub eda_relu : Positions → World Shares → World Shares → Product
  eda_relu positions res a =
      Lt.new_rss_lt w ring_size size streams new_msb memory positions res a zero_shares

  -- `ReLU(res, a, size, ring_size, nodeNet, flag)`.
  unfoldable pub relu : Positions → World Shares → World Shares → ℕ → Product
  unfolding old_relu eda_relu
  relu positions res a flag =
      if flag == 0 then old_relu positions res a else eda_relu positions res a

  -- `ReLU_6_alpha(res, x, upper, size, ring_size, layer, nodeNet)`.
  unfoldable pub relu_6_alpha : Positions → World Shares → World Shares → World Shares → ℕ → Product
  relu_6_alpha positions res x upper layer =
      let above =
        Lt.fixed_rss_lt w ring_size size streams new_msb memory positions res x zero_shares 0 in
      Lt.fixed_rss_gt w ring_size size streams new_msb memory above.positions above.c above.c upper
        layer
