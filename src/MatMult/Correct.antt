-- ===== src/MatMult/Correct.antt =====
-- The matrix products share the product of the shared matrices.
use native.Mathlib.Nat.{div-eq_of_lt-le, mod-add-div, mul-le-mul_right}
use rss_ring_ppml.Base.{ℕ, suc, ◌+◌, ◌*◌, ◌/◌, ◌%◌, ◌<◌, ◌≡◌, ap, arith}
use rss_ring_ppml.Word.{IsRing}
use rss_ring_ppml.Net.{World}
use rss_ring_ppml.Prg.{Streams, Positions}
use rss_ring_ppml.Prg.Sync.{InStep}
use rss_ring_ppml.Share.{Shares, IsShared}
use rss_ring_ppml.MatMult
use rss_ring_ppml.MatMult.Exchange.{mask_and_send_copy_lem}
use rss_ring_ppml.MatMult.Products.{total, dot_products_total}

-- Row and column of an index.
pub row_at : (d q r : ℕ) → r < d → (q * d + r) / d ≡ q
row_at d q r h = div-eq_of_lt-le {k = q} d (omega arith) (omega (arith, h))

pub column_at : (d q r : ℕ) → r < d → (q * d + r) % d ≡ r
column_at d q r h = omega (arith, mod-add-div (q * d + r) d, ap (λ (t : ℕ). d * t) (row_at d q r h))

pub index-lt : {m n i t : ℕ} → i < m → t < n → i * n + t < m * n
index-lt {m} {n} {i} {t} h g = omega (arith, mul-le-mul_right {m = suc i} {n = m} n h, g)

module _ {w k : ℕ} (ring : IsRing w k) (streams : Streams) (positions : Positions)
    (step : InStep positions) (c a b : World Shares) (x y : ℕ → ℕ) where
  -- At a supported ring size, for matrices `x` (m by n) and `y` (n by s) shared by `a` and `b`,
  -- and streams in step, `Rss_MatMultArray` leaves in `c` shares of each element of their
  -- product, and the streams in step.
  pub rss_mat_mult_array_lem :
      (m n s : ℕ) {i j : ℕ}
      → ((t : ℕ) → t < m * n → IsShared k a t (x t))
      → ((t : ℕ) → t < n * s → IsShared k b t (y t))
      → i < m
      → j < s
      → IsShared k
          (MatMult.rss_mat_mult_array w k streams positions c a b m n s).c
          (i * s + j)
          (total (λ t. x (i * n + t) * y (t * s + j)) n)
        × InStep (MatMult.rss_mat_mult_array w k streams positions c a b m n s).positions
  unfolding MatMult.rss_mat_mult_array
  rss_mat_mult_array_lem m n s {i} {j} of_a of_b row column =
      mask_and_send_copy_lem ring (m * s) streams positions step c _ (index-lt row column) (
        rw (row_at s i j column, column_at s i j column)
          (dot_products_total ring a b (λ t. i * n + t) (λ t. t * s + j) (λ t. x (i * n + t))
            (λ t. y (t * s + j)) n (λ t h. of_a (i * n + t) (index-lt row h))
            (λ t h. of_b (t * s + j) (index-lt h column))))
