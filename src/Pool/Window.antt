-- ===== src/Pool/Window.antt =====
-- The indices of a window, and the shares at them.
use native.Mathlib.Nat.{
  add-mul-div_right, add-mul-mod_self_right, div-eq_of_lt, mod-eq_of_lt, mul-le-mul_right,
  div-add-mod,
}
use rss_ring_ppml.Base.{
  ℕ, ◌+◌, ◌*◌, ◌/◌, ◌%◌, ◌<◌, ◌≡◌, ◌∙◌, ap, refl, arith, ltb, lt→ltb, Bool-cases, inl, inr,
}
use rss_ring_ppml.Word.Memory.{zeros, for_each_at}
use rss_ring_ppml.Net.{World}
use rss_ring_ppml.Share.{Shares, IsShared}
use rss_ring_ppml.Share.Linear.{IsShared_move}
use rss_ring_ppml.Lt.Values.{larger, IsClose}
use rss_ring_ppml.Pool.{pool_size, pool_columns, pool_rows}

-- The larger of two numbers is close to what both are close to.
pub larger-IsClose :
    {k x y u v : ℕ}
    → IsClose k x u
    → IsClose k x v
    → IsClose k y u
    → IsClose k y v
    → IsClose k (larger x y) (larger u v)
unfolding larger
larger-IsClose {k} {x} {y} {u} {v} xu xv yu yv = elim (Bool-cases (ltb x y)) [
  | inl e ↦ elim (Bool-cases (ltb u v)) [ inl f ↦ rw (e, f) yv | inr f ↦ rw (e, f) yu ]
  | inr e ↦ elim (Bool-cases (ltb u v)) [ inl f ↦ rw (e, f) xv | inr f ↦ rw (e, f) xu ]
]

pub quotient_lem : (q r n : ℕ) → r < n → (q * n + r) / n ≡ q
quotient_lem q r n h =
    ap (λ (t : ℕ). t / n) {x = q * n + r} {y = r + q * n} (omega arith)
    ∙ add-mul-div_right r q (omega arith)
    ∙ omega (arith, div-eq_of_lt h)

rest_lem : (q r n : ℕ) → r < n → (q * n + r) % n ≡ r
rest_lem q r n h =
    ap (λ (t : ℕ). t % n) {x = q * n + r} {y = r + q * n} (omega arith)
    ∙ add-mul-mod_self_right r q n
    ∙ mod-eq_of_lt h

pub below_lem : (q r n count : ℕ) → q < count → r < n → q * n + r < n * count
below_lem q r n count h lt = omega (arith, mul-le-mul_right {m = q + 1} {n = count} n (omega arith))

pub columns_lem :
    {k x t : ℕ} (size batch_size offset : ℕ) (a : World Shares)
    → 0 < size
    → t < size * batch_size
    → IsShared k a (2 * t + offset) x
    → IsShared k (pool_columns size batch_size offset a) t x
unfolding pool_columns
columns_lem {k} {x} {t} size batch_size offset a pos h s =
    IsShared_move a (pool_columns size batch_size offset a)
      (λ pid s'.
        for_each_at (size * batch_size) _ zeros h
        ∙ ap (a pid s') {x = t / size * size * 2 + 2 * (t % size) + offset} {y = 2 * t + offset}
            (omega (arith, div-add-mod t size)))
      s

-- For a square of side `2 * half`: window `j` of row `i` of windows.
module _ (c half batch_size : ℕ) {l i j : ℕ} (hl : l < batch_size) (hi : i < c * half)
    (hj : j < half) where
  abbrev pub side : ℕ
  side = 2 * half

  -- The number of windows.
  abbrev pub windows : ℕ
  windows = c * half * half

  abbrev pub window : ℕ
  window = l * windows + (i * half + j)

  size-eq : pool_size c side side ≡ 2 * windows
  size-eq = omega arith

  in_channel : i * half + j < windows
  in_channel = omega (arith, below_lem i j half (c * half) hi hj)

  side_lem : side / 2 ≡ half
  side_lem = omega arith

  half_channels : c * side / 2 ≡ c * half
  half_channels = omega arith

  pub rows_lem :
      {k x : ℕ} (offset : ℕ) (temp : World Shares)
      → IsShared k temp (2 * l * windows + j + offset + i * side) x
      → IsShared k (pool_rows windows batch_size c side side offset temp) window x
  unfolding pool_rows
  rows_lem offset temp s =
      IsShared_move temp (pool_rows windows batch_size c side side offset temp)
        (λ pid s'.
          for_each_at (windows * batch_size) _ zeros
            (below_lem l _ windows batch_size hl in_channel)
          ∙ rw
              (
                rest_lem l (i * half + j) windows in_channel,
                quotient_lem l (i * half + j) windows in_channel,
                side_lem,
                half_channels,
                rest_lem i j half hj,
                quotient_lem i j half hj,
                lt→ltb (i * half + j) (c * half * half) in_channel,
              )
              refl)
        s
