-- ===== src/Checks/Matrices.antt =====
-- Inputs for the matrix products: all elements of a factor are equal.
use rss_ring_ppml.Base.{◌+◌, ◌*◌, arith}
use rss_ring_ppml.Prg.Sync.{InStep}
use rss_ring_ppml.Share.{IsShared}
use rss_ring_ppml.MatMult.{rss_mat_mult_array, rss_mat_mult_array_batch}
use rss_ring_ppml.MatMult.Products.{total}
use rss_ring_ppml.MatMult.Correct.{rss_mat_mult_array_lem}
use rss_ring_ppml.MatMult.Batch.{rss_mat_mult_array_batch_lem}
use rss_ring_ppml.Checks.{
  IsRing-8, streams, positions, positions-InStep, held, held-IsShared, cleared,
}

rss_mat_mult_array_example :
    IsShared 8
      (rss_mat_mult_array 32 8 streams positions cleared (held 250 20 9) (held 1 2 3) 2 3 2).c
      (1 * 2 + 1)
      (total (λ t. 279 * 6) 3)
    × InStep
        (rss_mat_mult_array 32 8 streams positions cleared
          (held 250 20 9)
          (held 1 2 3)
          2
          3
          2).positions
rss_mat_mult_array_example =
    rss_mat_mult_array_lem IsRing-8 streams positions positions-InStep cleared (held 250 20 9)
      (held 1 2 3) (λ t. 279) (λ t. 6) 2 3 2 {i = 1} {j = 1} (λ t h. held-IsShared 8 t 250 20 9)
      (λ t h. held-IsShared 8 t 1 2 3) (omega arith) (omega arith)

rss_mat_mult_array_batch_example :
    IsShared 8
      (rss_mat_mult_array_batch 32 8 streams positions cleared
        (held 250 20 9)
        (held 1 2 3)
        2
        3
        2
        4
        1
        0).c
      (3 * (2 * 2) + (1 * 2 + 1))
      (total (λ t. 279 * 6) 3)
    × InStep
        (rss_mat_mult_array_batch 32 8 streams positions cleared
          (held 250 20 9)
          (held 1 2 3)
          2
          3
          2
          4
          1
          0).positions
rss_mat_mult_array_batch_example =
    rss_mat_mult_array_batch_lem IsRing-8 streams positions positions-InStep cleared (held 250 20 9)
      (held 1 2 3) (λ t. 279) (λ t. 6) {l = 3} {i = 1} {j = 1} 2 3 2 4 1 0
      (λ t h. held-IsShared 8 _ 250 20 9) (λ t h. held-IsShared 8 _ 1 2 3) (omega arith)
      (omega arith) (omega arith)
