-- ===== src/Pad.antt =====
-- src/protocols_ml/neural_ops.cpp: `pad_original`, which puts a frame of zeros around images.
pub mod Correct
use rss_ring_ppml.Base.{ℕ, ◌+◌, ◌-◌, ◌*◌, ◌/◌, ◌%◌, ◌^◌, ltb, ◌&&◌, if◌then◌else◌}
use rss_ring_ppml.Word.Memory.{for_each}
use rss_ring_ppml.Net.{World}
use rss_ring_ppml.Share.{Shares}

-- `x -= d;` on a `uint` of 32 bits.
unfoldable pub take_off : ℕ → ℕ → ℕ
take_off x d = (x + (2 ^ 32 - d)) % 2 ^ 32

-- The element that `res` gets for (h, w) of image `i`. The loop over `c` runs for 0 alone, so that
-- `w_offset`, `h_offset` and `c_im` are 0; numbers without sign are never below 0.
unfoldable pub framed_pixel : (ℕ → ℕ) → ℕ → ℕ → ℕ → ℕ → ℕ → ℕ → ℕ
unfolding take_off
framed_pixel data_im channels height width i h w =
    if ltb (take_off h 1) height && ltb (take_off w channels) (width * channels)
    then data_im
        (i * (channels * height * width) + take_off w channels + width * channels * take_off h 1)
    else 0

-- The words of an image with its frame.
abbrev pub framed_size : ℕ → ℕ → ℕ → ℕ
framed_size channels height width = (height + 2) * ((width + 2) * channels)

-- `pad_original(res, data_im, channels, height, width, ksize, stride, batch_size, nodeNet)`, which
-- needs neither `ksize` nor `stride`; the loops run through the elements of `res` in order.
unfoldable pub pad_original : World Shares → World Shares → ℕ → ℕ → ℕ → ℕ → World Shares
unfolding framed_pixel
pad_original res data_im channels height width batch_size pid s =
    let out = framed_size channels height width in
    let row = (width + 2) * channels in
    for_each (batch_size * out)
      (λ t.
        framed_pixel (data_im pid s) channels height width (t / out) (t % out / row)
          (t % out % row))
      (res pid s)
