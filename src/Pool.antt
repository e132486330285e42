-- ===== src/Pool.antt =====
-- src/protocols_ml/neural_ops.cpp: the largest value of each window of two by two.
pub mod Window
pub mod Correct
use rss_ring_ppml.Base.{ℕ, ◌+◌, ◌*◌, ◌/◌, ◌%◌, ltb, ◌==◌, if◌then◌else◌}
use rss_ring_ppml.Word.Memory.{zeros, for_each}
use rss_ring_ppml.Net.{World}
use rss_ring_ppml.Prg.{Streams, Positions}
use rss_ring_ppml.Share.{Shares}
use rss_ring_ppml.Mult.{Product}
use rss_ring_ppml.Lt
use rss_ring_ppml.Lt.{MsbProtocol, Memory}

-- `size` of the first half, `(c * m * n) / 2`.
abbrev pub pool_size : ℕ → ℕ → ℕ → ℕ
pool_size c m n = c * m * n / 2

-- `x0[s][j * size + i] = a[s][j * size * 2 + 2 * i]`, and `x1` with `offset` 1.
unfoldable pub pool_columns : ℕ → ℕ → ℕ → World Shares → World Shares
pool_columns size batch_size offset a pid s =
    for_each (size * batch_size) (λ t. a pid s (t / size * size * 2 + 2 * (t % size) + offset))
      zeros

-- `x0[s][l * size + k] = temp[s][2 * l * size + j + i * n]`, and `x1` with `offset` `m / 2`; `k`
-- counts the pairs of `i` below `c * m / 2` and `j` below `n / 2`.
unfoldable pub pool_rows : ℕ → ℕ → ℕ → ℕ → ℕ → ℕ → World Shares → World Shares
pool_rows size batch_size c m n offset temp pid s =
    for_each (size * batch_size)
      (λ t.
        if ltb (t % size) (c * m / 2 * (n / 2))
        then temp pid s
            (2 * (t / size) * size + t % size % (n / 2) + offset + t % size / (n / 2) * n)
        else 0)
      zeros

module _ (w ring_size c m n batch_size : ℕ) (streams : Streams) (msb new_msb : MsbProtocol)
    (memory_1 memory_2 : Memory) where
  -- `old_MaxPool(res, a, c, m, n, batch_size, ring_size, nodeNet)`, by `Rss_LT`.
  unfoldable pub old_max_pool : Positions → World Shares → World Shares → Product
  old_max_pool positions res a =
      let size = pool_size c m n in
      let temp =
        Lt.rss_lt w ring_size (size * batch_size) streams msb memory_1 positions (λ pid s. zeros)
          (pool_columns size batch_size 0 a) (pool_columns size batch_size 1 a) in
      Lt.rss_lt w ring_size (size / 2 * batch_size) streams msb memory_2 temp.positions res
        (pool_rows (size / 2) batch_size c m n 0 temp.c)
        (pool_rows (size / 2) batch_size c m n (m / 2) temp.c)

  -- `eda_MaxPool`, by `new_Rss_LT`.
  unfoldable pub eda_max_pool : Positions → World Shares → World Shares → Product
  eda_max_pool positions res a =
      let size = pool_size c m n in
      let temp =
        Lt.new_rss_lt w ring_size (size * batch_size) streams new_msb memory_1 positions
          (λ pid s. zeros) (pool_columns size batch_size 0 a) (pool_columns size batch_size 1 a) in
      Lt.new_rss_lt w ring_size (size / 2 * batch_size) streams new_msb memory_2 temp.positions res
        (pool_rows (size / 2) batch_size c m n 0 temp.c)
        (pool_rows (size / 2) batch_size c m n (m / 2) temp.c)

  -- `MaxPool(res, a, c, m, n, batch_size, ring_size, nodeNet, flag)`.
  unfoldable pub max_pool : Positions → World Shares → World Shares → ℕ → Product
  max_pool positions res a flag =
      if flag == 0 then old_max_pool positions res a else eda_max_pool positions res a
