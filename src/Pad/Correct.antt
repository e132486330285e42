-- ===== src/Pad/Correct.antt =====
-- `pad_original`, whose numbers without sign wrap around at the frame, keeps every pixel.
use mathlib.Core.Bool.{and-false}
use rss_ring_ppml.Base.{
  ℕ, ◌+◌, ◌-◌, ◌*◌, ◌^◌, ◌<◌, ◌≤◌, ◌≡◌, ◌∙◌, ltb, ≥→ltb, ltb→<, ltb→≥, Bool-cases, ◌&&◌,
  if◌then◌else◌, inl, inr, refl, arith,
}
use rss_ring_ppml.Word.Memory.{for_each_at}
use rss_ring_ppml.Net.{World}
use rss_ring_ppml.Share.{Shares, IsShared}
use rss_ring_ppml.Share.Linear.{IsShared_move, zeros-IsShared}
use rss_ring_ppml.MatMult.Correct.{row_at, column_at, index-lt}
use rss_ring_ppml.Pad.{take_off, framed_pixel, framed_size, pad_original}

take_off-above : (x d : ℕ) → d ≤ x → x < 2 ^ 32 → take_off x d ≡ x - d
unfolding take_off
take_off-above x d h lt = omega (arith, h, lt)

take_off-below : (x d n : ℕ) → x < d → n + d ≤ 2 ^ 32 → n ≤ take_off x d
unfolding take_off
take_off-below x d n h lt = omega (arith, h, lt)

-- The frame described without numbers that wrap: 0 in the first row and the first column, then
-- the image, then 0 again.
abbrev pub framed : (ℕ → ℕ) → ℕ → ℕ → ℕ → ℕ → ℕ → ℕ → ℕ
framed image channels height width i h w =
    if ltb h 1
    then 0
    else if ltb w channels
    then 0
    else if ltb (h - 1) height && ltb (w - channels) (width * channels)
    then image (i * (channels * height * width) + (w - channels) + width * channels * (h - 1))
    else 0

framed_pixel_lem :
    (data_im : ℕ → ℕ) (channels height width i h w : ℕ)
    → height < 2 ^ 31
    → h < height + 2
    → (width + 2) * channels < 2 ^ 31
    → w < (width + 2) * channels
    → framed_pixel data_im channels height width i h w ≡ framed data_im channels height width i h w
unfolding framed_pixel
framed_pixel_lem data_im channels height width i h w tall hh broad hw =
    elim (Bool-cases (ltb h 1)) [
      | inl c ↦
          rw
            (c, ≥→ltb (take_off h 1) height (take_off-below h 1 height (ltb→< h 1 c) (omega arith)))
            refl
      | inr c ↦ elim (Bool-cases (ltb w channels)) [
        | inl e ↦
            rw
              (
                c,
                e,
                ≥→ltb (take_off w channels) (width * channels) (
                    take_off-below w channels (width * channels) (ltb→< w channels e)
                      (omega arith)),
                and-false (ltb (take_off h 1) height),
              )
              refl
        | inr e ↦
            rw
              (
                c,
                e,
                take_off-above h 1 (ltb→≥ h 1 c) (omega arith),
                take_off-above w channels (ltb→≥ w channels e) (omega arith),
              )
              refl
      ]
    ]

framed-IsShared :
    {k : ℕ} (data_im : World Shares) (image : ℕ → ℕ) (channels height width batch_size i h w n : ℕ)
    → i < batch_size
    → ((t : ℕ) → t < batch_size * (channels * height * width) → IsShared k data_im t (image t))
    → IsShared k
        (λ pid s t. framed (data_im pid s) channels height width i h w)
        n
        (framed image channels height width i h w)
framed-IsShared {k} data_im image channels height width batch_size i h w n hi of_x =
    elim (Bool-cases (ltb h 1)) [
      | inl c ↦ rw c (zeros-IsShared k n)
      | inr c ↦ elim (Bool-cases (ltb w channels)) [
        | inl e ↦ rw (c, e) (zeros-IsShared k n)
        | inr e ↦ elim (Bool-cases (ltb (h - 1) height)) [
          | inr f ↦ rw (c, e, f) (zeros-IsShared k n)
          | inl f ↦ elim (Bool-cases (ltb (w - channels) (width * channels))) [
            | inr g ↦ rw (c, e, f, g) (zeros-IsShared k n)
            | inl g ↦
                rw (c, e, f, g)
                  (IsShared_move data_im _ (λ pid s. refl)
                    (of_x _ (
                      omega (
                        arith,
                        index-lt hi (
                            index-lt (ltb→< (h - 1) height f)
                              (ltb→< (w - channels) (width * channels) g)),
                      ))))
          ]
        ]
      ]
    ]

-- For `batch_size` images `image` shared by `data_im`, of sizes whose frame a signed `int` of 32
-- bits holds, `pad_original` leaves in `res`, at place (h, w) of image `i`, shares of the framed
-- image: 0 in the first row and in the first `channels` words of a row, the image one row and
-- `channels` words further, and 0 behind it.
pub pad_original_lem :
    {k : ℕ} (res data_im : World Shares) (image : ℕ → ℕ) (channels height width batch_size : ℕ)
    {i h w : ℕ}
    → height < 2 ^ 31
    → (width + 2) * channels < 2 ^ 31
    → i < batch_size
    → h < height + 2
    → w < (width + 2) * channels
    → ((t : ℕ) → t < batch_size * (channels * height * width) → IsShared k data_im t (image t))
    → IsShared k
        (pad_original res data_im channels height width batch_size)
        (i * framed_size channels height width + (h * ((width + 2) * channels) + w))
        (framed image channels height width i h w)
unfolding pad_original
pad_original_lem res data_im image channels height width batch_size {i} {h} {w} tall broad hi hh hw
      of_x =
    IsShared_move (λ pid s t. framed (data_im pid s) channels height width i h w)
      (pad_original res data_im channels height width batch_size)
      (λ pid s.
        for_each_at (batch_size * framed_size channels height width) _ (res pid s)
          (index-lt hi (index-lt hh hw))
        ∙ rw
            (
              row_at (framed_size channels height width) i (h * ((width + 2) * channels) + w)
                  (index-lt hh hw),
              column_at (framed_size channels height width) i (h * ((width + 2) * channels) + w)
                  (index-lt hh hw),
              row_at ((width + 2) * channels) h w hw,
              column_at ((width + 2) * channels) h w hw,
            )
            (framed_pixel_lem (data_im pid s) channels height width i h w tall hh broad hw))
      (framed-IsShared data_im image channels height width batch_size i h w 0 hi of_x)
