-- ===== src/MatMult/Rows.antt =====
-- The product of matrices whose rows are arrays of their own.
use rss_ring_ppml.Base.{ℕ, ◌+◌, ◌*◌, ◌/◌, ◌%◌, ◌<◌, lt→ltb}
use rss_ring_ppml.Word.{IsRing}
use rss_ring_ppml.Word.Memory.{for_each_at}
use rss_ring_ppml.Net.{World}
use rss_ring_ppml.Prg.{Streams, Positions}
use rss_ring_ppml.Prg.Sync.{InStep}
use rss_ring_ppml.Share.{IsShared}
use rss_ring_ppml.Share.Linear.{IsShared_move}
use rss_ring_ppml.Mult.{local_product}
use rss_ring_ppml.MatMult
use rss_ring_ppml.MatMult.{MatrixShares, dot, row, column, mask_and_send_copy}
use rss_ring_ppml.MatMult.Correct.{row_at, column_at, index-lt}
use rss_ring_ppml.MatMult.Exchange.{mask_and_send_copy_lem}
use rss_ring_ppml.MatMult.Products.{total, dot_products_total}

module _ {w k : ℕ} (ring : IsRing w k) (streams : Streams) (positions : Positions)
    (step : InStep positions) (c a b : World MatrixShares) (x y : ℕ → ℕ → ℕ) where
  -- At a supported ring size, for matrices `x` (m by n) and `y` (n by s) shared by `a` and `b`,
  -- and streams in step, `Rss_MatMult` leaves in the rows of `c` shares of each element of their
  -- product, and the streams in step.
  rss_mat_mult_lem :
      (m n s : ℕ) {i j : ℕ}
      → ((i t : ℕ) → i < m → t < n → IsShared k (row i a) t (x i t))
      → ((t j : ℕ) → t < n → j < s → IsShared k (column j b) t (y t j))
      → i < m
      → j < s
      → IsShared k
          (row i (MatMult.rss_mat_mult w k streams positions c a b m n s).c)
          j
          (total (λ t. x i t * y t j) n)
        × InStep (MatMult.rss_mat_mult w k streams positions c a b m n s).positions
  unfolding MatMult.rss_mat_mult
  rss_mat_mult_lem m n s {i} {j} of_a of_b in_rows in_columns =
      let found =
        mask_and_send_copy_lem ring (m * s) streams positions step
          (λ pid ss t. c pid ss (t / s) (t % s))
          (λ pid t. dot w (λ k. local_product w (row (t / s) a pid) (column (t % s) b pid) k k) n)
          {i = i * s + j} (index-lt in_rows in_columns)
          (rw (row_at s i j in_columns, column_at s i j in_columns)
            (dot_products_total ring (row i a) (column j b) (λ t. t) (λ t. t) (λ t. x i t)
              (λ t. y t j) n (λ t h. of_a i t in_rows h) (λ t h. of_b t j h in_columns))) in
      (
        IsShared_move _ _
            (λ pid ss. rw (lt→ltb i m in_rows) (for_each_at s _ (c pid ss i) in_columns)) found.0,
        found.1,
      )
