-- ===== src/MatMult/Batch.antt =====
-- Products of a batch of matrices, and the product of a convolution with kernel size 1.
use native.Mathlib.Nat.{mul-le-mul_left}
use rss_ring_ppml.Base.{ℕ, false, refl, ◌+◌, ◌-◌, ◌*◌, ◌/◌, ◌%◌, ◌<◌, ◌≡◌, ◌∙◌, ap, arith, ◌==◌}
use rss_ring_ppml.Word.{IsRing}
use rss_ring_ppml.Word.Memory.{for_each_at}
use rss_ring_ppml.Net.{World}
use rss_ring_ppml.Prg.{Streams, Positions}
use rss_ring_ppml.Prg.Sync.{InStep}
use rss_ring_ppml.Share.{Shares, IsShared}
use rss_ring_ppml.Share.Linear.{IsShared_move}
use rss_ring_ppml.MatMult
use rss_ring_ppml.MatMult.{transpose}
use rss_ring_ppml.MatMult.Correct.{row_at, column_at, index-lt}
use rss_ring_ppml.MatMult.Exchange.{mask_and_send_copy_lem}
use rss_ring_ppml.MatMult.Products.{total, dot_products_total}

not_empty : {l n : ℕ} → l < n → (n == 0) ≡ false
not_empty h = ground arith

-- An element of the transposed matrix of the batch.
transpose_at :
    (b : Shares) (batch_size n s flag ss : ℕ) {l j k : ℕ}
    → l < batch_size
    → j < s
    → k < n
    → transpose batch_size n s flag b ss (flag * l * (n * s) + j * n + k)
      ≡ b ss (flag * l * (n * s) + k * s + j)
unfolding transpose
transpose_at b batch_size n s flag ss {l} {j} {k} in_batch column row =
    rw (not_empty in_batch)
      (for_each_at _ _ _ {i = flag * l * (n * s) + j * n + k} within ∙ ap (b ss) place)
  where
    inner : j * n + k < n * s
    inner = omega (arith, index-lt column row)

    split : flag * l * (n * s) + j * n + k ≡ flag * l * (n * s) + (j * n + k)
    split = omega arith

    within : flag * l * (n * s) + j * n + k < (flag * (batch_size - 1) + 1) * (n * s)
    within = rw split (
        index-lt
          (omega
            (arith, mul-le-mul_left {m = l} {n = batch_size - 1} flag (omega (arith, in_batch))))
          inner)

    place :
        (flag * l * (n * s) + j * n + k) / (n * s) * (n * s)
          + (flag * l * (n * s) + j * n + k) % (n * s) % n * s
          + (flag * l * (n * s) + j * n + k) % (n * s) / n
        ≡ flag * l * (n * s) + k * s + j
    place =
        rw
          (
            split,
            row_at (n * s) (flag * l) (j * n + k) inner,
            column_at (n * s) (flag * l) (j * n + k) inner,
            row_at n j k row,
            column_at n j k row,
          )
          refl

module _ {w k : ℕ} (ring : IsRing w k) (streams : Streams) (positions : Positions)
    (step : InStep positions) (c a b : World Shares) {l i j : ℕ} where
  -- `Rss_MatMultArray_batch` for a row and a column given by their elements.
  pub batch_terms_lem :
      (m n s batch_size flag_a flag_b : ℕ) (row_of column_of : ℕ → ℕ)
      → ((t : ℕ) → t < n → IsShared k a (flag_a * l * (m * n) + i * n + t) (row_of t))
      → ((t : ℕ) → t < n → IsShared k b (flag_b * l * (n * s) + t * s + j) (column_of t))
      → l < batch_size
      → i < m
      → j < s
      → IsShared k
          (MatMult.rss_mat_mult_array_batch w k streams positions c a b m n s batch_size flag_a
            flag_b).c
          (l * (m * s) + (i * s + j))
          (total (λ t. row_of t * column_of t) n)
        × InStep
            (MatMult.rss_mat_mult_array_batch w k streams positions c a b m n s batch_size flag_a
              flag_b).positions
  unfolding MatMult.rss_mat_mult_array_batch
  batch_terms_lem m n s batch_size flag_a flag_b row_of column_of of_a of_b in_batch row column =
      mask_and_send_copy_lem ring (batch_size * (m * s)) streams positions step c _
        (index-lt in_batch (index-lt row column))
        (rw
          (
            row_at (m * s) l (i * s + j) (index-lt row column),
            column_at (m * s) l (i * s + j) (index-lt row column),
            row_at s i j column,
            column_at s i j column,
          )
          (dot_products_total ring a transposed (λ t. flag_a * l * (m * n) + i * n + t)
            (λ t. flag_b * l * (n * s) + j * n + t) row_of column_of n (λ t h. of_a t h)
            (λ t h.
              IsShared_move b transposed
                (λ pid ss. transpose_at (b pid) batch_size n s flag_b ss in_batch column h)
                (of_b t h))))
    where
      transposed : World Shares
      transposed pid = transpose batch_size n s flag_b (b pid)

module _ {w k : ℕ} (ring : IsRing w k) (streams : Streams) (positions : Positions)
    (step : InStep positions) (c a b : World Shares) (x y : ℕ → ℕ) {l i j : ℕ} where
  -- At a supported ring size, for batches `x` of m by n and `y` of n by s matrices, where the flags
  -- 0 and 1 stand for one matrix that all of the batch use and for one each, and streams in step:
  -- where `a` shares row `i` of `x` and `b` column `j` of `y` at element `l` of the batch,
  -- `Rss_MatMultArray_batch` leaves in `c` shares of element (i, j) of that product, and the
  -- streams in step.
  pub rss_mat_mult_array_batch_lem :
      (m n s batch_size flag_a flag_b : ℕ)
      → ((t : ℕ)
          → t < n
          → IsShared k a (flag_a * l * (m * n) + i * n + t) (x (flag_a * l * (m * n) + i * n + t)))
      → ((t : ℕ)
          → t < n
          → IsShared k b (flag_b * l * (n * s) + t * s + j) (y (flag_b * l * (n * s) + t * s + j)))
      → l < batch_size
      → i < m
      → j < s
      → IsShared k
          (MatMult.rss_mat_mult_array_batch w k streams positions c a b m n s batch_size flag_a
            flag_b).c
          (l * (m * s) + (i * s + j))
          (total
            (λ t. x (flag_a * l * (m * n) + i * n + t) * y (flag_b * l * (n * s) + t * s + j))
            n)
        × InStep
            (MatMult.rss_mat_mult_array_batch w k streams positions c a b m n s batch_size flag_a
              flag_b).positions
  rss_mat_mult_array_batch_lem m n s batch_size flag_a flag_b =
      batch_terms_lem ring streams positions step c a b m n s batch_size flag_a flag_b
        (λ t. x (flag_a * l * (m * n) + i * n + t)) (λ t. y (flag_b * l * (n * s) + t * s + j))

  -- At a supported ring size, for shared images `x` and weights `y`, and streams in step,
  -- `Rss_pw_matrixmul` leaves in `res`, at image `l`, position `i` and output channel `j`, shares
  -- of the sum over kernel and input channels of the products of pixels and weights, and the
  -- streams in step.
  rss_pw_matrixmul_lem :
      (width height in_channels kernel out_channels batch_size : ℕ)
      → ((t : ℕ) → IsShared k a t (x t))
      → ((t : ℕ) → IsShared k b t (y t))
      → l < batch_size
      → i < height * width
      → j < out_channels
      → IsShared k
          (MatMult.rss_pw_matrixmul w k streams positions c a b width height in_channels kernel
            out_channels batch_size).c
          (l * (height * width * out_channels) + (i * out_channels + j))
          (total
            (λ t.
              x (
                t
                + i * (kernel * kernel * in_channels)
                + batch_size * in_channels * width * height / batch_size * l)
              * y (j + t * out_channels))
            (kernel * kernel * in_channels))
        × InStep
            (MatMult.rss_pw_matrixmul w k streams positions c a b width height in_channels kernel
              out_channels batch_size).positions
  unfolding MatMult.rss_pw_matrixmul
  rss_pw_matrixmul_lem width height in_channels kernel out_channels batch_size of_a of_b in_batch
        row column =
      mask_and_send_copy_lem ring (batch_size * out_channels * width * height) streams positions
        step c _ (omega (arith, index-lt in_batch (index-lt row column)))
        (rw
          (
            row_at (height * width * out_channels) l (i * out_channels + j) (index-lt row column),
            column_at (height * width * out_channels) l (i * out_channels + j)
                (index-lt row column),
            row_at out_channels i j column,
            column_at out_channels i j column,
          )
          (dot_products_total ring a b
            (λ t.
              t
              + i * (kernel * kernel * in_channels)
              + batch_size * in_channels * width * height / batch_size * l)
            (λ t. j + t * out_channels)
            (λ t. x (
              t
              + i * (kernel * kernel * in_channels)
              + batch_size * in_channels * width * height / batch_size * l))
            (λ t. y (j + t * out_channels)) (kernel * kernel * in_channels) (λ t h. of_a _)
            (λ t h. of_b _)))
