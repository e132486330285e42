-- ===== src/Conv.antt =====
-- src/protocols_ml/neural_ops.cpp: `im2col`, which lays the patches of images out as the columns of
-- a matrix, so that a product of matrices is a convolution.
pub mod Passes
pub mod Correct
use rss_ring_ppml.Base.{ℕ, zero, suc, ◌+◌, ◌-◌, ◌*◌, ◌/◌, ◌%◌, Bool, ltb, ◌&&◌, if◌then◌else◌}
use rss_ring_ppml.Word.Memory.{Array, put}
use rss_ring_ppml.Net.{World}
use rss_ring_ppml.Share.{Shares}

-- `height_col` and `width_col`, where `pad` is 0. The source divides by `stride`, so it is above 0
-- there.
unfoldable pub col_size : ℕ → ℕ → ℕ → ℕ
col_size height ksize stride = (height + 2 * 0 - ksize) / stride + 1

-- `im_row` and `im_col` of element (c, h, w).
unfoldable pub im_row : ℕ → ℕ → ℕ → ℕ → ℕ
im_row ksize stride c h = c / ksize % ksize + h * stride

unfoldable pub im_col : ℕ → ℕ → ℕ → ℕ → ℕ
im_col ksize stride c w = c % ksize + w * stride

-- Whether (c, h, w) is a place inside of the image; words without sign are never below 0.
unfoldable pub in_image : ℕ → ℕ → ℕ → ℕ → ℕ → ℕ → ℕ → Bool
unfolding im_row im_col
in_image height width ksize stride c h w =
    ltb (im_row ksize stride c h) height && ltb (im_col ksize stride c w) width

-- The index in `a` of (c, h, w) of image `i`.
unfoldable pub pixel_index : ℕ → ℕ → ℕ → ℕ → ℕ → ℕ → ℕ → ℕ → ℕ → ℕ
unfolding im_row im_col
pixel_index channels height width ksize stride i c h w =
    i * (channels * height * width)
    + im_col ksize stride c w
    + width * (im_row ksize stride c h + height * (c / ksize / ksize))

-- One pass of the innermost loop, with the four counters: outside of the image the source clears
-- the element without the offset of the image `i`.
unfoldable pub place_pixel : Array → ℕ → ℕ → ℕ → ℕ → ℕ → ℕ → ℕ → ℕ → ℕ → Array → Array
unfolding col_size in_image pixel_index put
place_pixel a channels height width ksize stride i c h w res =
    let columns = col_size width ksize stride in
    let col_index = (c * col_size height ksize stride + h) * columns + w in
    let out_batch_size = channels * ksize * ksize * col_size height ksize stride * columns in
    if in_image height width ksize stride c h w
    then put (col_index + i * out_batch_size)
        (a (pixel_index channels height width ksize stride i c h w)) res
    else put col_index 0 res

-- The first `n` passes, where pass `t` has the counters that the nested loops reach then.
unfoldable pub passes : Array → ℕ → ℕ → ℕ → ℕ → ℕ → ℕ → Array → Array
unfolding col_size place_pixel
passes a channels height width ksize stride zero res = res
passes a channels height width ksize stride (suc t) res =
    let columns = col_size width ksize stride in
    let places = col_size height ksize stride * columns in
    let out = channels * ksize * ksize * places in
    place_pixel a channels height width ksize stride (t / out) (t % out / places)
      (t % out % places / columns) (t % out % places % columns)
      (passes a channels height width ksize stride t res)

-- `im2col(res, a, channels, height, width, ksize, stride, batch_size, nodeNet)`
unfoldable pub im2col : World Shares → World Shares → ℕ → ℕ → ℕ → ℕ → ℕ → ℕ → World Shares
unfolding col_size passes
im2col res a channels height width ksize stride batch_size pid s =
    passes (a pid s) channels height width ksize stride
      (batch_size
        * (channels * ksize * ksize * (col_size height ksize stride * col_size width ksize stride)))
      (res pid s)
