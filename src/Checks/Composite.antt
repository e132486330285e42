-- ===== src/Checks/Composite.antt =====
-- Inputs for comparison, rectifiers and truncation.
use rss_ring_ppml.Base.{ℕ, ◌+◌, ◌*◌, ◌/◌, ◌%◌, ◌^◌, ◌-◌, ◌≤◌, arith}
use rss_ring_ppml.Prg.Sync.{InStep}
use rss_ring_ppml.Share.{IsShared}
use rss_ring_ppml.Lt
use rss_ring_ppml.Lt.Values.{IsClose, smaller}
use rss_ring_ppml.Lt.Both.{fixed_rss_gt_lt_time_lem}
use rss_ring_ppml.Relu.{relu, relu_6_alpha}
use rss_ring_ppml.Relu.Correct.{rectified, relu_lem, relu_6_alpha_lem}
use rss_ring_ppml.Trunc.{rss_trunc_pr_1, rss_trunc_priv}
use rss_ring_ppml.Trunc.Correct.{rss_trunc_pr_1_lem}
use rss_ring_ppml.Trunc.Private.{rss_trunc_priv_lem}
use rss_ring_ppml.Checks.{
  IsRing-8, streams, positions, positions-InStep, held, held-IsShared, cleared, memory, msb,
  msb-IsMsb, eda_bit, eda_bit-IsEdaBit,
}

-- The value -20, of which the source means to return 0.
below_zero : IsClose 8 236 326
below_zero = record { above = omega arith; below = omega arith }

fixed_rss_gt_lt_time_example :
    IsShared 8
      (Lt.fixed_rss_gt_lt_time 32 8 1 streams msb memory positions cleared
        (held 200 20 16)
        (held 20 20 286)
        2).c
      0
      (236 % 2 ^ 8 / 2 ^ (8 - 1) * smaller 236 326 + smaller 236 326)
    × InStep
        (Lt.fixed_rss_gt_lt_time 32 8 1 streams msb memory positions cleared
          (held 200 20 16)
          (held 20 20 286)
          2).positions
fixed_rss_gt_lt_time_example =
    fixed_rss_gt_lt_time_lem IsRing-8 1 streams msb msb-IsMsb memory positions positions-InStep
      cleared (held 200 20 16) (held 20 20 286) (omega arith) below_zero
      (held-IsShared 8 0 200 20 16) (held-IsShared 8 2 20 20 286)

relu_example :
    IsShared 8
      (relu 32 8 1 streams msb msb memory positions cleared (held 200 20 16) 1).c
      0
      (rectified 8 236)
    × InStep (relu 32 8 1 streams msb msb memory positions cleared (held 200 20 16) 1).positions
relu_example =
    relu_lem IsRing-8 1 streams msb msb msb-IsMsb memory positions positions-InStep cleared
      (held 200 20 16) (omega arith) (omega arith) (held-IsShared 8 0 200 20 16) 1 (omega arith)

relu_6_alpha_example :
    IsShared 8
      (relu_6_alpha 32 8 1 streams msb msb memory positions cleared
        (held 10 20 15)
        (held 1 2 3)
        2).c
      0
      (smaller (rectified 8 45) 6)
    × InStep
        (relu_6_alpha 32 8 1 streams msb msb memory positions cleared
          (held 10 20 15)
          (held 1 2 3)
          2).positions
relu_6_alpha_example =
    relu_6_alpha_lem IsRing-8 1 streams msb msb msb-IsMsb memory positions positions-InStep cleared
      (held 10 20 15) (omega arith) (omega arith) (held-IsShared 8 0 10 20 15) (held 1 2 3)
      (omega arith) (held-IsShared 8 2 1 2 3)

rss_trunc_pr_1_example :
    (d : ℕ) × (117 / 2 ^ 3 ≤ d)
    × (d ≤ 117 / 2 ^ 3 + 1)
    × IsShared 8 (rss_trunc_pr_1 32 8 1 eda_bit positions cleared (held 80 20 17) 3).c 0 d
    × InStep (rss_trunc_pr_1 32 8 1 eda_bit positions cleared (held 80 20 17) 3).positions
rss_trunc_pr_1_example =
    rss_trunc_pr_1_lem IsRing-8 1 eda_bit (eda_bit-IsEdaBit 3) positions positions-InStep cleared
      (held 80 20 17) (omega arith) (omega arith) (omega arith) (held-IsShared 8 0 80 20 17)

rss_trunc_priv_example :
    (d : ℕ) × (20 * 6 / 2 ^ 3 ≤ d)
    × (d ≤ 20 * 6 / 2 ^ 3 + 1)
    × IsShared 8
        (rss_trunc_priv 32 8 1 eda_bit streams positions cleared (held 5 5 10) (held 1 2 3) 3 4).c
        0
        d
    × InStep
        (rss_trunc_priv 32 8 1 eda_bit streams positions cleared
          (held 5 5 10)
          (held 1 2 3)
          3
          4).positions
rss_trunc_priv_example =
    rss_trunc_priv_lem IsRing-8 1 eda_bit (eda_bit-IsEdaBit 3) streams positions positions-InStep
      cleared (held 5 5 10) (held 1 2 3) 4 (omega arith) (omega arith) (omega arith)
      (held-IsShared 8 0 5 5 10) (held-IsShared 8 4 1 2 3)
