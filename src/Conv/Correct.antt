-- ===== src/Conv/Correct.antt =====
-- `im2col` and a product of matrices make a convolution.
use native.Mathlib.Nat.{mod-lt, mod-add-div, div-lt_iff_lt-mul}
use rss_ring_ppml.Base.{ℕ, ap, sym, ◌+◌, ◌-◌, ◌*◌, ◌/◌, ◌%◌, ◌<◌, ◌≤◌, ◌≡◌, ◌∙◌, arith}
use rss_ring_ppml.Base.Cong.{Cong_eq}
use rss_ring_ppml.Word.{IsRing}
use rss_ring_ppml.Net.{World}
use rss_ring_ppml.Prg.{Streams, Positions}
use rss_ring_ppml.Prg.Sync.{InStep}
use rss_ring_ppml.Share.{Shares, IsShared}
use rss_ring_ppml.Share.Linear.{IsShared_value}
use rss_ring_ppml.MatMult
use rss_ring_ppml.MatMult.Products.{total}
use rss_ring_ppml.MatMult.Nested.{total_nested}
use rss_ring_ppml.MatMult.Correct.{index-lt}
use rss_ring_ppml.MatMult.Batch.{batch_terms_lem}
use rss_ring_ppml.Conv.Passes.{inside_lem, im2col_lem}
use rss_ring_ppml.Conv.{col_size, im_row, im_col, pixel_index, im2col}

-- A pass over the window, with its index taken apart, is three nested loops.
window_lem :
    (term : ℕ → ℕ → ℕ → ℕ) (channels ksize : ℕ)
    → total
        (λ t. term (t / ksize / ksize) (t / ksize % ksize) (t % ksize))
        (channels * ksize * ksize)
      ≡ total (λ c. total (λ y. total (term c y) ksize) ksize) channels
window_lem term channels ksize =
    total_nested (λ p. term (p / ksize) (p % ksize)) (channels * ksize) ksize
    ∙ total_nested (λ c y. total (term c y) ksize) channels ksize

-- The row of the matrix of weights is the filter, by channel, row and column.
weight_index :
    (channels ksize m o i t : ℕ)
    → 0 * i * (m * (channels * ksize * ksize)) + o * (channels * ksize * ksize) + t
      ≡ o * (channels * ksize * ksize)
        + ((t / ksize / ksize * ksize + t / ksize % ksize) * ksize + t % ksize)
weight_index channels ksize m o i t =
    omega
      (arith, mod-add-div t ksize, ap (λ (row : ℕ). row * ksize) (mod-add-div (t / ksize) ksize))

-- What a pass reads is the pixel of the channel, in the row and the column of the window.
pixel_index_lem :
    (channels height width ksize stride i t h v : ℕ)
    → pixel_index channels height width ksize stride i t h v
      ≡ i * (channels * height * width)
        + ((t / ksize / ksize * height + (h * stride + t / ksize % ksize)) * width
            + (v * stride + t % ksize))
unfolding pixel_index im_row im_col
pixel_index_lem channels height width ksize stride i t h v = omega arith

no_padding : (side : ℕ) → side + 2 * 0 ≡ side
no_padding side = omega arith

col_size_lem : (side ksize stride : ℕ) → col_size side ksize stride ≡ (side - ksize) / stride + 1
unfolding col_size
col_size_lem side ksize stride =
    ap (λ (length : ℕ). (length - ksize) / stride + 1) (no_padding side)

-- At a supported ring size, for images that `ksize`, above 0, fits into, a `stride` above 0, and
-- streams in step: where `a` shares in the order of channels, rows and columns the pixels of image
-- `i` of a batch, `image` (channel, row, column), and `weights` those of filter `o` of `m`,
-- `weight` (channel, row, column), `im2col` and then `Rss_MatMultArray_batch` of the one matrix of
-- filters with its result leave in `out`, at image `i`, filter `o` and place (h, v), shares of the
-- sum over the channels, the rows `y` and the columns `x` of the window of the weight there times
-- the pixel of that channel at row `h * stride + y` and column `v * stride + x`, and the streams
-- in step.
pub rss_mat_mult_array_batch-im2col :
    {w k : ℕ} (ring : IsRing w k) (streams : Streams) (positions : Positions)
    (step : InStep positions) (out weights res a : World Shares) (weight image : ℕ → ℕ → ℕ → ℕ)
    (m channels height width ksize stride batch_size : ℕ) {i o h v : ℕ}
    → ksize ≤ height
    → ksize ≤ width
    → 0 < ksize
    → 0 < stride
    → i < batch_size
    → o < m
    → h < (height - ksize) / stride + 1
    → v < (width - ksize) / stride + 1
    → ((c y x : ℕ)
        → c < channels
        → y < ksize
        → x < ksize
        → IsShared k weights
            (o * (channels * ksize * ksize) + ((c * ksize + y) * ksize + x))
            (weight c y x))
    → ((c y x : ℕ)
        → c < channels
        → y < height
        → x < width
        → IsShared k a
            (i * (channels * height * width) + ((c * height + y) * width + x))
            (image c y x))
    → IsShared k
        (MatMult.rss_mat_mult_array_batch w k streams positions out weights
          (im2col res a channels height width ksize stride batch_size)
          m
          (channels * ksize * ksize)
          (col_size height ksize stride * col_size width ksize stride)
          batch_size
          0
          1).c
        (i * (m * (((height - ksize) / stride + 1) * ((width - ksize) / stride + 1)))
          + (o * (((height - ksize) / stride + 1) * ((width - ksize) / stride + 1))
              + (h * ((width - ksize) / stride + 1) + v)))
        (total
          (λ c.
            total
              (λ y. total (λ x. weight c y x * image c (h * stride + y) (v * stride + x)) ksize)
              ksize)
          channels)
      × InStep
          (MatMult.rss_mat_mult_array_batch w k streams positions out weights
            (im2col res a channels height width ksize stride batch_size)
            m
            (channels * ksize * ksize)
            (col_size height ksize stride * col_size width ksize stride)
            batch_size
            0
            1).positions
rss_mat_mult_array_batch-im2col {w} {k} ring streams positions step out weights res a weight image m
      channels height width ksize stride batch_size {i} {o} {h} {v} high wide pos steps hi ho hh hv
      of_w of_a =
    rw (sym (col_size_lem height ksize stride), sym (col_size_lem width ksize stride))
      (IsShared_value (Cong_eq (window_lem term channels ksize)) found.0, found.1)
  where
    n : ℕ
    n = channels * ksize * ksize

    places : ℕ
    places = col_size height ksize stride * col_size width ksize stride

    term : ℕ → ℕ → ℕ → ℕ
    term c y x = weight c y x * image c (h * stride + y) (v * stride + x)

    found :
        IsShared k
          (MatMult.rss_mat_mult_array_batch w k streams positions out weights
            (im2col res a channels height width ksize stride batch_size)
            m
            n
            places
            batch_size
            0
            1).c
          (i * (m * places) + (o * places + (h * col_size width ksize stride + v)))
          (total (λ t. term (t / ksize / ksize) (t / ksize % ksize) (t % ksize)) n)
        × InStep
            (MatMult.rss_mat_mult_array_batch w k streams positions out weights
              (im2col res a channels height width ksize stride batch_size)
              m
              n
              places
              batch_size
              0
              1).positions
    found =
        batch_terms_lem ring streams positions step out weights
          (im2col res a channels height width ksize stride batch_size) m n places batch_size 0 1
          (λ t. weight (t / ksize / ksize) (t / ksize % ksize) (t % ksize))
          (λ t. image (t / ksize / ksize) (h * stride + t / ksize % ksize) (v * stride + t % ksize))
          (λ t lt. rw (weight_index channels ksize m o i t) (
            of_w (t / ksize / ksize) (t / ksize % ksize) (t % ksize) (channel-lt lt) (mod-lt _ pos)
              (mod-lt _ pos)))
          (λ t lt. rw (column_index t) (
            im2col_lem channels height width ksize stride high wide pos batch_size res a i t h v hi
              lt at_h at_v
              (rw (pixel_index_lem channels height width ksize stride i t h v) (
                of_a (t / ksize / ksize) (h * stride + t / ksize % ksize) (v * stride + t % ksize)
                  (channel-lt lt) (row-lt t) (column-lt t)))))
          hi ho (index-lt at_h at_v)
      where
        at_h : h < col_size height ksize stride
        at_h = rw (col_size_lem height ksize stride) hh

        at_v : v < col_size width ksize stride
        at_v = rw (col_size_lem width ksize stride) hv

        channel-lt : {t : ℕ} → t < n → t / ksize / ksize < channels
        channel-lt lt = (div-lt_iff_lt-mul pos).1 ((div-lt_iff_lt-mul pos).1 lt)

        row-lt : (t : ℕ) → h * stride + t / ksize % ksize < height
        row-lt t =
            omega
              (arith, inside_lem height ksize stride (t / ksize % ksize) h high (mod-lt _ pos) at_h)

        column-lt : (t : ℕ) → v * stride + t % ksize < width
        column-lt t =
            omega (arith, inside_lem width ksize stride (t % ksize) v wide (mod-lt _ pos) at_v)

        column_index :
            (t : ℕ)
            → 1 * i * (n * places) + t * places + (h * col_size width ksize stride + v)
              ≡ i * (n * places) + (t * places + (h * col_size width ksize stride + v))
        column_index t = omega arith
