-- ===== src/Msb/Client.antt =====
-- `new_Rss_MSB` fills the interface that the comparisons use, and `new_Rss_LT` with it.
use rss_ring_ppml.Base.{ℕ, ◌+◌, ◌%◌, ◌<◌, ◌≡◌, arith}
use rss_ring_ppml.Word.{IsRing}
use rss_ring_ppml.Net.{World}
use rss_ring_ppml.Prg.{Streams, Positions}
use rss_ring_ppml.Prg.Sync.{InStep}
use rss_ring_ppml.Share.{Shares, IsShared}
use rss_ring_ppml.RandBit.Correct.{rss_rand_bit-InStep}
use rss_ring_ppml.BitLt.Correct.{rss_bit_lt-InStep}
use rss_ring_ppml.Lt
use rss_ring_ppml.Lt.{MsbProtocol, IsMsb}
use rss_ring_ppml.Lt.Values.{larger, IsClose}
use rss_ring_ppml.Lt.Correct.{new_rss_lt_lem}
use rss_ring_ppml.Msb.{EdaBitProtocol, IsEdaBit, Memory, top_bit, new_rss_msb}
use rss_ring_ppml.Msb.Correct.{new_rss_msb_lem}

-- `new_Rss_MSB` as the comparisons call it.
unfoldable pub top_bit_protocol : ℕ → ℕ → Streams → Memory → EdaBitProtocol → MsbProtocol
top_bit_protocol w ring_size streams memory eda_bit size positions res a =
    new_rss_msb w ring_size size streams memory eda_bit positions res a

-- At a ring size above 0 that is 2 less than the width of a word at most, for an even width and
-- `Rss_edaBit` as promised, `new_Rss_MSB` is what the comparisons expect of it: for every size it
-- shares the top bit of each element, and leaves the streams in step.
pub top_bit_protocol-IsMsb :
    {w k : ℕ} (pos : 0 < k) (wide : IsRing w (k + 2)) (even : w % 2 ≡ 0) (streams : Streams)
    (memory : Memory) (eda_bit : EdaBitProtocol) (is_eda : IsEdaBit k eda_bit)
    → IsMsb k (top_bit_protocol w k streams memory eda_bit)
unfolding top_bit_protocol
top_bit_protocol-IsMsb {w} {k} pos wide even streams memory eda_bit is_eda = record {
  top_bit = λ size positions res a step h s.
      (new_rss_msb_lem pos wide even size streams memory eda_bit is_eda positions res a step h s).0;
  in_step = λ size positions res a step.
      unfold new_rss_msb top_bit in
      rss_bit_lt-InStep w k size streams _ memory.bytes memory.u_2 _ _ (
        is_eda.in_step size _
          (rss_rand_bit-InStep w k size streams positions memory.rand memory.b step));
}

-- At a ring size above 0 that is 2 less than the width of a word at most, for an even width,
-- `Rss_edaBit` as promised, streams in step, and shared `x` and `y` at an index `i` below `size`
-- whose difference fits a signed word of `ring_size` bits, `new_Rss_LT` on top of `new_Rss_MSB`
-- leaves in `res[i]` shares of the larger of `x` and `y`, and the streams in step again.
pub new_rss_lt-new_rss_msb :
    {w k : ℕ} (pos : 0 < k) (wide : IsRing w (k + 2)) (even : w % 2 ≡ 0) (size : ℕ)
    (streams : Streams) (memory : Memory) (eda_bit : EdaBitProtocol) (is_eda : IsEdaBit k eda_bit)
    (lt_memory : Lt.Memory) (positions : Positions) (res a b : World Shares) {i x y : ℕ}
    → InStep positions
    → i < size
    → IsClose k x y
    → IsShared k a i x
    → IsShared k b i y
    → IsShared k
        (Lt.new_rss_lt w k size streams
          (top_bit_protocol w k streams memory eda_bit)
          lt_memory
          positions
          res
          a
          b).c
        i
        (larger x y)
      × InStep
          (Lt.new_rss_lt w k size streams
            (top_bit_protocol w k streams memory eda_bit)
            lt_memory
            positions
            res
            a
            b).positions
new_rss_lt-new_rss_msb {w} {k} pos wide even size streams memory eda_bit is_eda lt_memory positions
      res a b step h close s t =
    let ring : IsRing w k = record {
      pos = pos;
      fits = omega (arith, wide.fits);
      narrow = wide.narrow;
    } in
    new_rss_lt_lem ring size streams (top_bit_protocol w k streams memory eda_bit)
      (top_bit_protocol-IsMsb pos wide even streams memory eda_bit is_eda) lt_memory positions step
      res a b h close s t
