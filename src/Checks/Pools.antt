-- ===== src/Checks/Pools.antt =====
-- Inputs for the pooling, the convolution and the padding of a matrix of four by four.
use rss_ring_ppml.Base.{ℕ, ◌+◌, ◌-◌, ◌*◌, ◌/◌, ◌%◌, arith}
use rss_ring_ppml.Prg.Sync.{InStep}
use rss_ring_ppml.Share.{Shares, IsShared}
use rss_ring_ppml.Net.{World}
use rss_ring_ppml.Base.Cong.{Cong_refl, Cong_eq}
use rss_ring_ppml.Lt.Values.{larger}
use rss_ring_ppml.Pool.{max_pool}
use rss_ring_ppml.Pool.Correct.{max_pool_lem}
use rss_ring_ppml.MatMult.{rss_mat_mult_array_batch}
use rss_ring_ppml.MatMult.Products.{total}
use rss_ring_ppml.Conv.{col_size, im2col}
use rss_ring_ppml.Pad.{pad_original}
use rss_ring_ppml.Pad.Correct.{framed, pad_original_lem}
use rss_ring_ppml.Average.{rss_avg_pool}
use rss_ring_ppml.Average.Correct.{rss_avg_pool_lem}
use rss_ring_ppml.Conv.Correct.{rss_mat_mult_array_batch-im2col}
use rss_ring_ppml.Checks.{
  held-IsShared, IsRing-8, streams, positions, positions-InStep, held, cleared, memory, msb,
  msb-IsMsb,
}

abbrev test_pixel : ℕ → ℕ
test_pixel t = t * 7 % 50

-- Shares of the pixels: the first is 0, the others are the test_pixel and 0.
abbrev image : World Shares
image pid s t = held 0 (test_pixel t) 0 pid s t

image-IsShared : (t : ℕ) → IsShared 8 image t (test_pixel t)
image-IsShared t = record {
  third_share = Cong_refl 0;
  first_share = Cong_refl 0;
  second_share = Cong_refl (test_pixel t);
  total = Cong_eq (omega arith);
}

max_pool_example :
    IsShared 8
      (max_pool 32 8 1 4 4 1 streams msb msb memory memory positions cleared image 1).c
      3
      (larger (larger (test_pixel 10) (test_pixel 11)) (larger (test_pixel 14) (test_pixel 15)))
    × InStep
        (max_pool 32 8 1 4 4 1 streams msb msb memory memory positions cleared image 1).positions
max_pool_example =
    max_pool_lem IsRing-8 1 2 1 streams msb msb msb-IsMsb memory memory positions cleared image
      test_pixel 1 {l = 0} {i = 1} {j = 1} (omega arith) positions-InStep
      (λ s t. record { above = omega arith; below = omega arith }) (omega arith) (omega arith)
      (omega arith) (λ t h. image-IsShared t) 10 (omega arith)

-- The pixel of a channel in a row and a column of four.
abbrev channel_pixel : ℕ → ℕ → ℕ → ℕ
channel_pixel c y x = test_pixel (0 * (1 * 4 * 4) + ((c * 4 + y) * 4 + x))

-- The pixels of channel 2 of the second of two images of two by two with three channels.
abbrev channel_row : ℕ → ℕ → ℕ
channel_row y z = test_pixel (1 * (3 * 2 * 2) + ((y * 2 + z) * 3 + 2))

-- One filter of weights 6, with a window of two by two in steps of two.
convolution_example :
    IsShared 8
      (rss_mat_mult_array_batch 32 8 streams positions cleared
        (held 1 2 3)
        (im2col cleared image 1 4 4 2 2 1)
        1
        4
        4
        1
        0
        1).c
      (0 * (1 * (((4 - 2) / 2 + 1) * ((4 - 2) / 2 + 1)))
        + (0 * (((4 - 2) / 2 + 1) * ((4 - 2) / 2 + 1)) + (1 * ((4 - 2) / 2 + 1) + 1)))
      (total (λ c. total (λ y. total (λ x. 6 * channel_pixel c (1 * 2 + y) (1 * 2 + x)) 2) 2) 1)
    × InStep
        (rss_mat_mult_array_batch 32 8 streams positions cleared
          (held 1 2 3)
          (im2col cleared image 1 4 4 2 2 1)
          1
          4
          4
          1
          0
          1).positions
unfolding col_size
convolution_example =
    rss_mat_mult_array_batch-im2col IsRing-8 streams positions positions-InStep cleared (held 1 2 3)
      cleared image (λ c y x. 6) channel_pixel 1 1 4 4 2 2 1 {i = 0} {o = 0} {h = 1} {v = 1}
      (omega arith) (omega arith) (omega arith) (omega arith) (omega arith) (omega arith)
      (omega arith) (omega arith)
      (λ c y x hc hy hx. held-IsShared 8 (0 * 4 + ((c * 2 + y) * 2 + x)) 1 2 3)
      (λ c y x hc hy hx. image-IsShared (0 * (1 * 4 * 4) + ((c * 4 + y) * 4 + x)))

-- The last pixel of the second of two images of two by two, in its frame.
pad_original_example :
    IsShared 8
      (pad_original cleared image 1 2 2 2)
      (1 * (4 * (4 * 1)) + (2 * (4 * 1) + 2))
      (framed test_pixel 1 2 2 1 2 2)
pad_original_example =
    pad_original_lem cleared image test_pixel 1 2 2 2 {i = 1} {h = 2} {w = 2} (omega arith)
      (omega arith) (omega arith) (omega arith) (omega arith) (λ t h. image-IsShared t)

rss_avg_pool_example :
    IsShared 8
      (rss_avg_pool 32 cleared image 3 2 2 2)
      (1 * 3 + 2)
      (total (λ y. total (channel_row y) 2) 2)
rss_avg_pool_example =
    rss_avg_pool_lem IsRing-8 cleared image channel_row 3 2 2 2 {l = 1} {i = 2} (omega arith)
      (omega arith) (omega arith) (omega arith)
      (λ y z hy hz. image-IsShared (1 * (3 * 2 * 2) + ((y * 2 + z) * 3 + 2)))
