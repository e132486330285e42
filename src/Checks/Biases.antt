-- ===== src/Checks/Biases.antt =====
-- Inputs for biases and zero points.
use rss_ring_ppml.Base.{arith}
use rss_ring_ppml.Share.{IsShared}
use rss_ring_ppml.Bias.{sub_zp, add_zp}
use rss_ring_ppml.Bias.Correct.{add_zp-sub_zp}
use rss_ring_ppml.Checks.{IsRing-8, held, held-IsShared, cleared}

zero_point_example :
    IsShared 8
      (add_zp 32 cleared (sub_zp 32 cleared (held 250 20 9) (held 1 2 3) 2 2 5) (held 1 2 3) 2 2 5)
      3
      279
zero_point_example =
    add_zp-sub_zp IsRing-8 cleared (held 250 20 9) (held 1 2 3) 2 2 5 (omega arith)
      (held-IsShared 8 3 250 20 9) (held-IsShared 8 5 1 2 3)
