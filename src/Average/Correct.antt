-- ===== src/Average/Correct.antt =====
-- `Rss_avg_pool` leaves shares of the sum of each channel.
use native.Mathlib.Nat.{mod-lt, mul-pos, div-lt_iff_lt-mul, mul-le-mul_right}
use rss_ring_ppml.Base.{ℕ, zero, suc, ◌+◌, ◌*◌, ◌/◌, ◌%◌, ◌^◌, ◌<◌, ◌≡◌, ◌∙◌, refl, arith}
use rss_ring_ppml.Base.Cong.{Cong, Cong_refl, Cong_trans, Cong_eq}
use rss_ring_ppml.Word.{IsRing}
use rss_ring_ppml.Word.Laws.{add_lem}
use rss_ring_ppml.Word.Memory.{for_each_at}
use rss_ring_ppml.Net.{World}
use rss_ring_ppml.Share.{Shares, IsShared}
use rss_ring_ppml.Share.Linear.{IsShared_move, IsShared_sum, IsShared_difference, zeros-IsShared}
use rss_ring_ppml.MatMult.Products.{total}
use rss_ring_ppml.MatMult.Nested.{total_nested}
use rss_ring_ppml.MatMult.Correct.{row_at, column_at, index-lt}
use rss_ring_ppml.Average.{accumulate, channel_index, rss_avg_pool}

accumulate_lem :
    {w k : ℕ} (ring : IsRing w k) (term : ℕ → ℕ) (n : ℕ)
    → Cong (2 ^ k) (accumulate w 0 term n) (total term n)
unfolding accumulate total
accumulate_lem ring term zero = Cong_refl 0
accumulate_lem ring term (suc n) =
    add_lem ring.fits (accumulate_lem ring term n) (Cong_refl (term n))

total-IsShared :
    {k : ℕ} (x : World Shares) (value at : ℕ → ℕ) (i n : ℕ)
    → ((u : ℕ) → u < n → IsShared k x (at u) (value u))
    → IsShared k (λ pid s t. total (λ u. x pid s (at u)) n) i (total value n)
unfolding total
total-IsShared {k} x value at i zero of_x = zeros-IsShared k i
total-IsShared x value at i (suc n) of_x =
    IsShared_sum (λ pid s t. total (λ u. x pid s (at u)) n) (λ pid s t. x pid s (at n))
      (total-IsShared x value at i n (λ u lt. of_x u (omega arith)))
      (IsShared_move x (λ pid s t. x pid s (at n)) (λ pid s. refl) (of_x n (omega arith)))

-- The source's index is the channel, in the row and the column that the pass has reached.
channel_index_lem :
    (in_channels height width l i t : ℕ)
    → channel_index in_channels height width l i t
      ≡ l * (in_channels * width * height) + ((t / height * height + t % height) * in_channels + i)
unfolding channel_index
channel_index_lem in_channels height width l i t = omega arith

-- The sum starts from a word that was cleared.
sum_at :
    (w : ℕ) (res x : World Shares) (in_channels height width batch_size l i pid s : ℕ)
    → 0 < height
    → 0 < width
    → l < batch_size
    → i < in_channels
    → rss_avg_pool w res x in_channels height width batch_size pid s (l * in_channels + i)
      ≡ accumulate w 0
          (λ u. x pid s (channel_index in_channels height width l i u))
          (width * height)
unfolding rss_avg_pool
sum_at w res x in_channels height width batch_size l i pid s tall wide hl hi =
    for_each_at (batch_size * in_channels) _ _ (index-lt hl hi)
    ∙ rw
        (
          row_at in_channels l i hi,
          column_at in_channels l i hi,
          for_each_at (in_channels * width * height * batch_size) (λ t. 0) (res pid s) in_range,
        )
        refl
  where
    in_range : l * in_channels + i < in_channels * width * height * batch_size
    in_range = omega (
      arith,
      index-lt hl hi,
      mul-le-mul_right {m = 1} {n = width * height} (batch_size * in_channels) (mul-pos wide tall),
    )

-- At a supported ring size, for images that are not empty: where `x` holds the pixels of a batch by
-- image, row, column and channel, and shares `value` (row, column) for channel `i` of image `l`,
-- `Rss_avg_pool` leaves in `res`, at channel `i` of image `l`, shares of the sum of `value` over
-- the `width` rows of `height` pixels.
pub rss_avg_pool_lem :
    {w k : ℕ} (ring : IsRing w k) (res x : World Shares) (value : ℕ → ℕ → ℕ)
    (in_channels height width batch_size : ℕ) {l i : ℕ}
    → 0 < height
    → 0 < width
    → l < batch_size
    → i < in_channels
    → ((y z : ℕ)
        → y < width
        → z < height
        → IsShared k x
            (l * (in_channels * width * height) + ((y * height + z) * in_channels + i))
            (value y z))
    → IsShared k
        (rss_avg_pool w res x in_channels height width batch_size)
        (l * in_channels + i)
        (total (λ y. total (value y) height) width)
rss_avg_pool_lem {w} {k} ring res x value in_channels height width batch_size {l} {i} tall wide hl
      hi of_x =
    IsShared_difference (λ pid. pid ≡ pid)
      (rss_avg_pool w res x in_channels height width batch_size)
      (λ pid s t. total (λ u. x pid s (at u)) (width * height)) (λ pid s t. 0) refl refl refl
      (λ pid s e.
        rw (sum_at w res x in_channels height width batch_size l i pid s tall wide hl hi) (
          Cong_trans (Cong_eq (omega arith))
            (accumulate_lem ring (λ u. x pid s (at u)) (width * height))))
      (Cong_eq (omega (arith, total_nested value width height)))
      (total-IsShared x (λ u. value (u / height) (u % height)) at (l * in_channels + i)
        (width * height)
        (λ u lt. rw (channel_index_lem in_channels height width l i u) (
          of_x (u / height) (u % height)
            ((div-lt_iff_lt-mul {k = height} {x = u} {y = width} tall).1 lt) (mod-lt u tall))))
      (zeros-IsShared k (l * in_channels + i))
  where
    at : ℕ → ℕ
    at u = channel_index in_channels height width l i u
