-- ===== src/MatMult.antt =====
-- src/protocols_basic/matMult.cpp: products of shared matrices, kept row by row in one array.
-- The nested loops write every output element once, so that each is given here by its index.
pub mod Exchange
pub mod Nested
pub mod Products
pub mod Correct
pub mod Batch
pub mod Rows
use rss_ring_ppml.Base.{ℕ, zero, suc, ◌+◌, ◌-◌, ◌*◌, ◌/◌, ◌%◌, ◌==◌, ltb, if◌then◌else◌}
use rss_ring_ppml.Word.{add, sub}
use rss_ring_ppml.Word.Memory.{Array, zeros, for_each, load_all, unit_size}
use rss_ring_ppml.Net.{World, send_and_get_3pc}
use rss_ring_ppml.Prg.{Streams, Positions, prg_getrandom_3pc}
use rss_ring_ppml.Share.{Shares}
use rss_ring_ppml.Mult.{Product, store_product, local_product}

-- The loop over k, `v += term(k)`, from a cleared `v`.
unfoldable pub dot : ℕ → (ℕ → ℕ) → ℕ → ℕ
dot w term zero = 0
dot w term (suc n) = add w (dot w term n) (term n)

-- The part that the products share, for dot products `f`: `send_buf` is a copy of `v`, so that
-- the masking of what is sent leaves `v` alone, and the data arrive in a cleared `recv_buf`.
unfoldable pub mask_and_send_copy :
    ℕ → ℕ → ℕ → Streams → Positions → World Array → World Shares → Product
unfolding store_product
mask_and_send_copy w ring_size size streams positions f c =
    let bytes = unit_size ring_size in
    let drawn_1 = prg_getrandom_3pc streams positions 1 bytes size in
    let mask_1 : World Array = λ pid. load_all bytes size (drawn_1.buffer pid) (c pid 0) in
    let v : World Array = λ pid. for_each size (λ i. sub w (f pid i) (mask_1 pid i)) zeros in
    let got = send_and_get_3pc w ring_size size v (λ pid. zeros) in
    let drawn_0 = prg_getrandom_3pc streams drawn_1.positions 0 bytes size in
    let mask_0 : World Array = λ pid. load_all bytes size (drawn_0.buffer pid) (mask_1 pid) in
    store_product size c (record {
      own = λ pid i. add w (mask_0 pid i) (v pid i);
      other = λ pid i. add w ((got pid).received i) (mask_1 pid i);
      positions = drawn_0.positions;
    })

-- `Rss_MatMultArray(c, a, b, m, n, s, ring_size, nodeNet)`: element `t = i * s + j`.
unfoldable pub rss_mat_mult_array :
    ℕ → ℕ → Streams → Positions → World Shares → World Shares → World Shares → ℕ → ℕ → ℕ → Product
unfolding dot
rss_mat_mult_array w ring_size streams positions c a b m n s =
    mask_and_send_copy w ring_size (m * s) streams positions
      (λ pid t. dot w (λ k. local_product w (a pid) (b pid) (t / s * n + k) (k * s + t % s)) n) c

-- `b_transpose` of `Rss_MatMultArray_batch`: element `l * n * s + j * n + i` of it is element
-- `l * n * s + i * s + j` of `b`, for the one matrix (flag 0) or for each of the batch (flag 1).
unfoldable pub transpose : ℕ → ℕ → ℕ → ℕ → Shares → Shares
transpose batch_size n s weight_flag_b b ss =
    for_each (if batch_size == 0 then 0 else (weight_flag_b * (batch_size - 1) + 1) * (n * s))
      (λ t. b ss (t / (n * s) * (n * s) + (t % (n * s) % n) * s + t % (n * s) / n)) zeros

-- `Rss_MatMultArray_batch`: element `t = l * m * s + i * s + j`.
unfoldable pub rss_mat_mult_array_batch :
    ℕ
    → ℕ
    → Streams
    → Positions
    → World Shares
    → World Shares
    → World Shares
    → ℕ
    → ℕ
    → ℕ
    → ℕ
    → ℕ
    → ℕ
    → Product
unfolding dot transpose
rss_mat_mult_array_batch w ring_size streams positions c a b m n s batch_size weight_flag_a
      weight_flag_b =
    mask_and_send_copy w ring_size (batch_size * (m * s)) streams positions
      (λ pid t.
        dot w
          (λ k.
            local_product w (a pid) (transpose batch_size n s weight_flag_b (b pid))
              (weight_flag_a * (t / (m * s)) * (m * n) + t % (m * s) / s * n + k)
              (weight_flag_b * (t / (m * s)) * (n * s) + t % (m * s) % s * n + k))
          n)
      c

-- `Rss_pw_matrixmul`: element `dp_index = b * ccol * srow + i * srow + j`.
unfoldable pub rss_pw_matrixmul :
    ℕ
    → ℕ
    → Streams
    → Positions
    → World Shares
    → World Shares
    → World Shares
    → ℕ
    → ℕ
    → ℕ
    → ℕ
    → ℕ
    → ℕ
    → Product
unfolding dot
rss_pw_matrixmul w ring_size streams positions res x W width height in_channels kernel out_channels
      batch_size =
    let output_dim = batch_size * out_channels * width * height in
    let in_dim = batch_size * in_channels * width * height in
    let crow = kernel * kernel * in_channels in
    let ccol = height * width in
    let srow = out_channels in
    mask_and_send_copy w ring_size output_dim streams positions
      (λ pid t.
        dot w
          (λ k.
            local_product w (x pid) (W pid)
              (k + t % (ccol * srow) / srow * crow + in_dim / batch_size * (t / (ccol * srow)))
              (t % (ccol * srow) % srow + k * srow))
          crow)
      res

-- `Lint ***c` at one party: the rows of each of the party's shares.
abbrev pub MatrixShares : Type 0
MatrixShares = ℕ → ℕ → Array

pub record MatrixProduct : Type 0 where
  pub c : World MatrixShares
  pub positions : Positions

-- A row of the first and a column of the second factor, as shared vectors.
abbrev pub row : ℕ → World MatrixShares → World Shares
row i a pid ss k = a pid ss i k

abbrev pub column : ℕ → World MatrixShares → World Shares
column j b pid ss k = b pid ss k j

-- `Rss_MatMult(c, a, b, m, n, s, ring_size, nodeNet)`: rows that are arrays of their own, copied
-- into `send_buf` and out of `recv_buf` one after the other.
unfoldable pub rss_mat_mult :
    ℕ
    → ℕ
    → Streams
    → Positions
    → World MatrixShares
    → World MatrixShares
    → World MatrixShares
    → ℕ
    → ℕ
    → ℕ
    → MatrixProduct
unfolding dot
rss_mat_mult w ring_size streams positions c a b m n s =
    let p =
      mask_and_send_copy w ring_size (m * s) streams positions
        (λ pid t. dot w (λ k. local_product w (row (t / s) a pid) (column (t % s) b pid) k k) n)
        (λ pid ss t. c pid ss (t / s) (t % s)) in
    record {
      c = λ pid ss i.
          if ltb i m then for_each s (λ j. p.c pid ss (i * s + j)) (c pid ss i) else c pid ss i;
      positions = p.positions;
    }
