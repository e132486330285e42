-- ===== src/EdaBit/Client.antt =====
-- The procedures that call `Rss_edaBit` and `Rss_edaBit_trunc`, with these in place.
use native.Mathlib.Nat.{pow-suc}
use rss_ring_ppml.Base.{ℕ, zero, suc, ◌+◌, ◌-◌, ◌/◌, ◌%◌, ◌^◌, ◌≤◌, ◌<◌, ◌≡◌, arith}
use rss_ring_ppml.Word.{IsRing, IsWidth}
use rss_ring_ppml.Net.{World}
use rss_ring_ppml.Prg.{Streams, Positions}
use rss_ring_ppml.Prg.Sync.{InStep}
use rss_ring_ppml.Share.{Shares, IsShared}
use rss_ring_ppml.Lt
use rss_ring_ppml.Lt.Values.{larger, IsClose}
use rss_ring_ppml.Msb
use rss_ring_ppml.Msb.Client.{top_bit_protocol, new_rss_lt-new_rss_msb}
use rss_ring_ppml.Trunc.{rss_trunc_pr_1}
use rss_ring_ppml.Trunc.Correct.{rss_trunc_pr_1_lem}
use rss_ring_ppml.B2a
use rss_ring_ppml.EdaBit.{rss_eda_bit, rss_eda_bit_trunc}
use rss_ring_ppml.EdaBit.Correct.{rss_eda_bit-IsEdaBit}
use rss_ring_ppml.EdaBit.Truncated.{rss_eda_bit_trunc-IsEdaBit}

even_power : (n : ℕ) → 1 < 2 ^ n → 2 ^ n % 2 ≡ 0
even_power zero h = omega (arith, h)
even_power (suc n) h = omega (arith, pow-suc 2 n)

even-IsWidth : {w : ℕ} → IsWidth w → 1 < w → w % 2 ≡ 0
even-IsWidth width h = rw width.is_power (even_power width.log (rw (← width.is_power) h))

module _ {w k : ℕ} (pos : 0 < k) (wide : IsRing w (k + 2)) (width : IsWidth w) (size : ℕ)
    (streams : Streams) (positions : Positions) (step : InStep positions) where
  ring : IsRing w k
  ring = record { pos = pos; fits = omega (arith, wide.fits); narrow = wide.narrow }

  even : w % 2 ≡ 0
  even = even-IsWidth width (omega (arith, wide.fits))

  -- `new_Rss_LT` on top of `new_Rss_MSB` and `Rss_edaBit`, at a ring size above 0 that is 2 less
  -- than the width of a word at most, where the width is a power of two: for streams in step and
  -- shared `x` and `y` at an index `i` below `size`, whose difference fits a signed word of
  -- `ring_size` bits, it leaves in `res[i]` shares of the larger one, and the streams in step.
  pub new_rss_lt-rss_eda_bit :
      (memory : Msb.Memory) (lt_memory : Lt.Memory) (res a b : World Shares) {i x y : ℕ}
      → i < size
      → IsClose k x y
      → IsShared k a i x
      → IsShared k b i y
      → IsShared k
          (Lt.new_rss_lt w k size streams
            (top_bit_protocol w k streams memory (rss_eda_bit w k streams))
            lt_memory
            positions
            res
            a
            b).c
          i
          (larger x y)
        × InStep
            (Lt.new_rss_lt w k size streams
              (top_bit_protocol w k streams memory (rss_eda_bit w k streams))
              lt_memory
              positions
              res
              a
              b).positions
  new_rss_lt-rss_eda_bit memory lt_memory res a b =
      new_rss_lt-new_rss_msb pos wide even size streams memory (rss_eda_bit w k streams)
        (rss_eda_bit-IsEdaBit ring width streams) lt_memory positions res a b step

  -- `Rss_truncPr_1` with `Rss_edaBit_trunc`, at a ring size that is 2 less than the width of a
  -- word at most, where the width is a power of two, and an `m` above 0 and below `ring_size`: for
  -- streams in step and a shared `v` with top bit 0 at an index `i` below `size` it leaves in `res`
  -- shares of `v / 2 ^ m` or of one more, and the streams in step.
  pub rss_trunc_pr_1-rss_eda_bit_trunc :
      (memory : B2a.Memory) {m : ℕ} (res x : World Shares) {i v : ℕ}
      → 0 < m
      → m + 1 ≤ k
      → i < size
      → v < 2 ^ (k - 1)
      → IsShared k x i v
      → (d : ℕ) × (v / 2 ^ m ≤ d)
        × (d ≤ v / 2 ^ m + 1)
        × IsShared k
            (rss_trunc_pr_1 w k size (rss_eda_bit_trunc w k streams memory) positions res x m).c
            i
            d
        × InStep
            (rss_trunc_pr_1 w k size
              (rss_eda_bit_trunc w k streams memory)
              positions
              res
              x
              m).positions
  rss_trunc_pr_1-rss_eda_bit_trunc memory {m} res x m-pos below h small s =
      rss_trunc_pr_1_lem ring size (rss_eda_bit_trunc w k streams memory)
        (rss_eda_bit_trunc-IsEdaBit pos wide width streams memory m m-pos (omega (arith, below)))
        positions step res x below h small s
