-- ===== src/Pool/Correct.antt =====
-- `MaxPool` of squares.
use native.Mathlib.Nat.{mul-le-mul_right}
use rss_ring_ppml.Base.{ℕ, ◌+◌, ◌*◌, ◌/◌, ◌<◌, ◌≤◌, ◌≡◌, refl, sym, arith, >0→==0}
use rss_ring_ppml.Word.{IsRing}
use rss_ring_ppml.Word.Memory.{zeros}
use rss_ring_ppml.Net.{World}
use rss_ring_ppml.Prg.{Streams, Positions}
use rss_ring_ppml.Prg.Sync.{InStep}
use rss_ring_ppml.Share.{Shares, IsShared}
use rss_ring_ppml.Mult.{Product}
use rss_ring_ppml.Lt
use rss_ring_ppml.Lt.{MsbProtocol, IsMsb, Memory}
use rss_ring_ppml.Lt.Values.{larger, IsClose}
use rss_ring_ppml.Lt.Correct.{select_larger_lem}
use rss_ring_ppml.Pool.{pool_size, pool_columns, pool_rows, eda_max_pool, max_pool}
use rss_ring_ppml.Pool.Window.{larger-IsClose, columns_lem, below_lem, rows_lem}

module _ {w k : ℕ} (ring : IsRing w k) (c half batch_size : ℕ) (streams : Streams)
    (msb : MsbProtocol) (is_msb : IsMsb k msb) (memory_1 memory_2 : Memory) (positions : Positions)
    (step : InStep positions) (res a : World Shares) (f : ℕ → ℕ)
    (close : (s t : ℕ) → IsClose k (f s) (f t)) {l i j : ℕ} (hl : l < batch_size)
    (hi : i < c * half) (hj : j < half)
    (shared : (t : ℕ) → t < batch_size * (c * (2 * half) * (2 * half)) → IsShared k a t (f t)) where
  abbrev n : ℕ
  n = 2 * half

  abbrev size : ℕ
  size = 2 * (c * half * half)

  abbrev temp : Product
  temp =
      Lt.select_larger w k (size * batch_size) streams msb memory_1 positions (λ pid s. zeros)
        (pool_columns size batch_size 0 a) (pool_columns size batch_size 1 a)

  -- What a row of the first half is at an index of `temp`.
  temp_lem :
      (t : ℕ)
      → t < size * batch_size
      → IsShared k temp.c t (larger (f (2 * t)) (f (2 * t + 1))) × InStep temp.positions
  temp_lem t h =
      select_larger_lem ring (size * batch_size) streams msb is_msb memory_1 positions step
        (λ pid s. zeros) (pool_columns size batch_size 0 a) (pool_columns size batch_size 1 a) h
        (close (2 * t) (2 * t + 1))
        (columns_lem size batch_size 0 a some_window h
          (at_index (2 * t + 0) (2 * t) (omega arith) (omega arith)))
        (columns_lem size batch_size 1 a some_window h
          (at_index (2 * t + 1) (2 * t + 1) refl (omega arith)))
    where
      at_index :
          (s' t' : ℕ)
          → s' ≡ t'
          → t' < batch_size * (c * (2 * half) * (2 * half))
          → IsShared k a s' (f t')
      at_index s' t' e lt = rw e (shared t' lt)

      some_window : 0 < size
      some_window = omega (arith, below_lem i j half (c * half) hi hj)

  -- The place of a row of the window in `temp`.
  abbrev place : ℕ → ℕ
  place offset = 2 * l * (c * half * half) + j + offset + i * n

  place-lt : (offset : ℕ) → offset ≤ half → place offset < size * batch_size
  place-lt offset le = omega (
    arith,
    mul-le-mul_right {m = i + 1} {n = c * half} half (omega arith),
    mul-le-mul_right {m = l + 1} {n = batch_size} (2 * (c * half * half)) (omega arith),
  )

  -- The upper left corner of the window in `a`.
  abbrev corner : ℕ
  corner = l * (c * n * n) + 2 * i * n + 2 * j

  row_lem :
      (offset first : ℕ)
      → offset ≤ half
      → 2 * place offset ≡ first
      → IsShared k
          (pool_rows (c * half * half) batch_size c n n offset temp.c)
          (l * (c * half * half) + (i * half + j))
          (larger (f first) (f (first + 1)))
  row_lem offset first le e =
      rows_lem c half batch_size hl hi hj offset temp.c
        (rw (sym e) ((temp_lem (place offset) (place-lt offset le)).0))

  abbrev window_max : ℕ
  window_max =
      larger (larger (f corner) (f (corner + 1))) (larger (f (corner + n)) (f (corner + n + 1)))

  abbrev pooled : Product
  pooled =
      Lt.select_larger w k (c * half * half * batch_size) streams msb memory_2 temp.positions res
        (pool_rows (c * half * half) batch_size c n n 0 temp.c)
        (pool_rows (c * half * half) batch_size c n n (n / 2) temp.c)

  pooled_lem :
      IsShared k pooled.c (l * (c * half * half) + (i * half + j)) window_max
      × InStep pooled.positions
  pooled_lem =
      select_larger_lem ring (c * half * half * batch_size) streams msb is_msb memory_2
        temp.positions (temp_lem (place 0) (place-lt 0 (omega arith))).1 res
        (pool_rows (c * half * half) batch_size c n n 0 temp.c)
        (pool_rows (c * half * half) batch_size c n n (n / 2) temp.c)
        (below_lem l (i * half + j) (c * half * half) batch_size hl
          (omega (arith, below_lem i j half (c * half) hi hj)))
        (larger-IsClose (close _ _) (close _ _) (close _ _) (close _ _))
        (row_lem 0 corner (omega arith) (omega arith))
        (row_lem (n / 2) (corner + n) (omega arith) (omega arith))

size_lem : (c half : ℕ) → pool_size c (2 * half) (2 * half) ≡ 2 * (c * half * half)
size_lem c half = omega arith

half_lem : (c half : ℕ) → 2 * (c * half * half) / 2 ≡ c * half * half
half_lem c half = omega arith

-- At a supported ring size, for `c` channels of squares with the even side `2 * half`, a batch of
-- `batch_size`, a flag other than 0, with which `MaxPool` runs `eda_MaxPool`, streams in step,
-- shares in `a` of values `f` of which any two differ by what a signed word of `ring_size` bits
-- holds, and a `new_Rss_MSB` that shares the top bit: at row `i` and column `j` of windows of an
-- element `l` of the batch, `MaxPool` leaves shares of the largest of the four values of the
-- window, and the streams in step again.
pub max_pool_lem :
    {w k : ℕ} (ring : IsRing w k) (c half batch_size : ℕ) (streams : Streams)
    (msb new_msb : MsbProtocol) (is_new_msb : IsMsb k new_msb) (memory_1 memory_2 : Memory)
    (positions : Positions) (res a : World Shares) (f : ℕ → ℕ) (flag : ℕ) {l i j : ℕ}
    → 0 < flag
    → InStep positions
    → ((s t : ℕ) → IsClose k (f s) (f t))
    → l < batch_size
    → i < c * half
    → j < half
    → ((t : ℕ) → t < batch_size * (c * (2 * half) * (2 * half)) → IsShared k a t (f t))
    → (corner : ℕ) → corner ≡ l * (c * (2 * half) * (2 * half)) + 2 * i * (2 * half) + 2 * j
    → IsShared k
        (max_pool w k c
          (2 * half)
          (2 * half)
          batch_size
          streams
          msb
          new_msb
          memory_1
          memory_2
          positions
          res
          a
          flag).c
        (l * (c * half * half) + (i * half + j))
        (larger
          (larger (f corner) (f (corner + 1)))
          (larger (f (corner + 2 * half)) (f (corner + 2 * half + 1))))
      × InStep
          (max_pool w k c
            (2 * half)
            (2 * half)
            batch_size
            streams
            msb
            new_msb
            memory_1
            memory_2
            positions
            res
            a
            flag).positions
unfolding max_pool eda_max_pool Lt.new_rss_lt
max_pool_lem {w} {k} ring c half batch_size streams msb new_msb is_new_msb memory_1 memory_2
      positions res a f flag {l} {i} {j} chosen step close hl hi hj shared corner at =
    rw (at, >0→==0 flag chosen, size_lem c half, half_lem c half)
      (pooled_lem ring c half batch_size streams new_msb is_new_msb memory_1 memory_2 positions step
        res a f close hl hi hj shared)
