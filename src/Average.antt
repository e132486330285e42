-- ===== src/Average.antt =====
-- src/protocols_ml/neural_ops.cpp: `Rss_avg_pool`, which sums each channel up.
pub mod Correct
use rss_ring_ppml.Base.{ℕ, zero, suc, ◌+◌, ◌*◌, ◌/◌, ◌%◌}
use rss_ring_ppml.Word.{add}
use rss_ring_ppml.Word.Memory.{for_each}
use rss_ring_ppml.Net.{World}
use rss_ring_ppml.Share.{Shares}

-- `old` after `+=` of the terms 0 to n - 1.
unfoldable pub accumulate : ℕ → ℕ → (ℕ → ℕ) → ℕ → ℕ
accumulate w old term zero = old
accumulate w old term (suc n) = add w (accumulate w old term n) (term n)

-- The index in `x` of pass `t` of the loops over `j` and `k`, for channel `i` of image `l`.
unfoldable pub channel_index : ℕ → ℕ → ℕ → ℕ → ℕ → ℕ → ℕ
channel_index in_channels height width l i t =
    t % height * in_channels
    + t / height * height * in_channels
    + i
    + l * (in_channels * width * height)

-- `Rss_avg_pool(res, x, in_channels, height, width, kernel, stride, batch_size, nodeNet)`, which
-- needs neither `kernel` nor `stride`: it clears as many words as `x` has, and element
-- `out_index = l * in_channels + i` gets the sum.
unfoldable pub rss_avg_pool : ℕ → World Shares → World Shares → ℕ → ℕ → ℕ → ℕ → World Shares
unfolding accumulate channel_index
rss_avg_pool w res x in_channels height width batch_size pid s =
    let cleared = for_each (in_channels * width * height * batch_size) (λ t. 0) (res pid s) in
    for_each (batch_size * in_channels)
      (λ t.
        accumulate w (cleared t)
          (λ u.
            x pid s (channel_index in_channels height width (t / in_channels) (t % in_channels) u))
          (width * height))
      cleared
