-- ===== src/Conv/Passes.antt =====
-- What the passes of `im2col` leave in each element of its matrices.
use mathlib.Core.Path.{subst}
use native.Mathlib.Nat.{
  mod-lt, mul-pos, mod-add-div, div-lt_iff_lt-mul, div-mul-le_self, mul-le-mul_right,
}
use rss_ring_ppml.Base.{
  ℕ, zero, suc, true, Bool-cases, inl, inr, ap, ltb→<, ltb→≥, ◌+◌, ◌-◌, ◌*◌, ◌/◌, ◌%◌, ◌<◌, ◌≤◌,
  ◌≡◌, ◌∙◌, ltb, lt→ltb, refl, arith,
}
use rss_ring_ppml.Word.Memory.{Array, put, put_at, put_other}
use rss_ring_ppml.Net.{World}
use rss_ring_ppml.Share.{Shares, IsShared}
use rss_ring_ppml.Share.Linear.{IsShared_move}
use rss_ring_ppml.MatMult.Correct.{row_at, column_at, index-lt}
use rss_ring_ppml.Conv.{
  col_size, im_row, im_col, in_image, pixel_index, place_pixel, passes, im2col,
}

-- A place of the window, and the steps of the stride, stay inside of the image.
pub inside_lem :
    (height ksize stride offset h : ℕ)
    → ksize ≤ height
    → offset < ksize
    → h < col_size height ksize stride
    → offset + h * stride < height
unfolding col_size
inside_lem height ksize stride offset h fits small lt = omega (
  arith,
  div-mul-le_self (height + 2 * 0 - ksize) stride,
  mul-le-mul_right {m = h} {n = (height + 2 * 0 - ksize) / stride} stride (omega arith),
)

-- The counters of pass `t` name the element `t` of the matrices.
pass_index :
    (rows high wide t : ℕ)
    → (t % (rows * (high * wide)) / (high * wide) * high
            + t % (rows * (high * wide)) % (high * wide) / wide)
          * wide
        + t % (rows * (high * wide)) % (high * wide) % wide
        + t / (rows * (high * wide)) * (rows * high * wide)
      ≡ t
pass_index rows high wide t = omega (
  arith,
  mod-add-div t (rows * (high * wide)),
  mod-add-div (t % (rows * (high * wide))) (high * wide),
  mod-add-div (t % (rows * (high * wide)) % (high * wide)) wide,
)

same : {n t : ℕ} → n ≤ t → t ≤ n → n ≡ t
same below above = omega (arith, below, above)

module _ (channels height width ksize stride : ℕ) (high : ksize ≤ height) (wide : ksize ≤ width)
    (pos : 0 < ksize) where
  abbrev pub columns : ℕ
  columns = col_size width ksize stride

  abbrev pub places : ℕ
  places = col_size height ksize stride * columns

  abbrev pub rows : ℕ
  rows = channels * ksize * ksize

  -- The index in `a` that pass `t` reads.
  abbrev pub source_at : ℕ → ℕ
  source_at t =
      pixel_index channels height width ksize stride (t / (rows * places))
        (t % (rows * places) / places) (t % (rows * places) % places / columns)
        (t % (rows * places) % places % columns)

  columns-pos : 0 < columns
  unfolding col_size
  columns-pos = omega arith

  places-pos : 0 < places
  unfolding col_size
  places-pos = mul-pos {m = col_size height ksize stride} (omega arith) columns-pos

  in_image_lem :
      (c h w : ℕ)
      → h < col_size height ksize stride
      → w < columns
      → in_image height width ksize stride c h w ≡ true
  unfolding in_image im_row im_col
  in_image_lem c h w hh hw =
      rw
        (
          lt→ltb _ _ (inside_lem height ksize stride (c / ksize % ksize) h high (mod-lt _ pos) hh),
          lt→ltb _ _ (inside_lem width ksize stride (c % ksize) w wide (mod-lt _ pos) hw),
        )
        refl

  -- No pass clears an element: pass `t` stores a pixel in element `t`.
  place_pixel_lem :
      (a res : Array) (t : ℕ)
      → place_pixel a channels height width ksize stride
          (t / (rows * places))
          (t % (rows * places) / places)
          (t % (rows * places) % places / columns)
          (t % (rows * places) % places % columns)
          res
        ≡ put t (a (source_at t)) res
  unfolding place_pixel
  place_pixel_lem a res t =
      rw
        (in_image_lem (t % (rows * places) / places) (t % (rows * places) % places / columns)
          (t % (rows * places) % places % columns)
          ((div-lt_iff_lt-mul columns-pos).1 (mod-lt _ places-pos)) (mod-lt _ columns-pos))
        (ap (λ (i : ℕ). put i (a (source_at t)) res)
          (pass_index rows (col_size height ksize stride) columns t))

  put_last :
      (a res : Array) {n t : ℕ} → n ≤ t → t ≤ n → put n (a (source_at n)) res t ≡ a (source_at t)
  put_last a res {n} {t} below above =
      subst (λ (i : ℕ). put n (a (source_at n)) res i ≡ a (source_at i)) (same below above)
        (put_at n (a (source_at n)) res)

  passes_lem :
      (a res : Array) (n : ℕ) {t : ℕ}
      → t < n
      → passes a channels height width ksize stride n res t ≡ a (source_at t)
  unfolding passes
  passes_lem a res zero lt = omega (arith, lt)
  passes_lem a res (suc n) {t} lt = elim (Bool-cases (ltb t n)) [
    | inl h ↦
        ap (λ (f : Array). f t)
          (place_pixel_lem a (passes a channels height width ksize stride n res) n)
        ∙ put_other (a (source_at n)) (passes a channels height width ksize stride n res)
            (ltb→< t n h)
        ∙ passes_lem a res n (ltb→< t n h)
    | inr h ↦
        ap (λ (f : Array). f t)
          (place_pixel_lem a (passes a channels height width ksize stride n res) n)
        ∙ put_last a (passes a channels height width ksize stride n res) (ltb→≥ t n h)
            (omega (arith, lt))
  ]

  module _ (batch_size : ℕ) where
    pub im2col_lem :
        {k x : ℕ} (res a : World Shares) (i c h w : ℕ)
        → i < batch_size
        → c < rows
        → h < col_size height ksize stride
        → w < columns
        → IsShared k a (pixel_index channels height width ksize stride i c h w) x
        → IsShared k
            (im2col res a channels height width ksize stride batch_size)
            (i * (rows * places) + (c * places + (h * columns + w)))
            x
    unfolding im2col
    im2col_lem res a i c h w hi hc hh hw s =
        IsShared_move a (im2col res a channels height width ksize stride batch_size)
          (λ pid s'.
            passes_lem (a pid s') (res pid s') (batch_size * (rows * places))
              (index-lt hi (index-lt hc (index-lt hh hw)))
            ∙ rw
                (
                  row_at (rows * places) i (c * places + (h * columns + w))
                      (index-lt hc (index-lt hh hw)),
                  column_at (rows * places) i (c * places + (h * columns + w))
                      (index-lt hc (index-lt hh hw)),
                  row_at places c (h * columns + w) (index-lt hh hw),
                  column_at places c (h * columns + w) (index-lt hh hw),
                  row_at columns h w hw,
                  column_at columns h w hw,
                )
                refl)
          s
