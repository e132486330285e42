-- ===== src/BitLt/Recursive.antt =====
-- The recursive `Rss_CarryOutAux` and the loop of `new_Rss_CarryOutAux` share the same carry.
use rss_ring_ppml.Base.{
  ℕ, zero, suc, ◌+◌, ◌*◌, ◌/◌, ◌%◌, ◌^◌, ◌≤◌, ◌<◌, ◌≡◌, ◌∙◌, ap, arith, bit_and, Bool-cases, ltb,
  inl, inr,
}
use rss_ring_ppml.Base.Bits.{bit, bit_and_mask}
use rss_ring_ppml.Word.Memory.{zeros, for_each_at, unit_size}
use rss_ring_ppml.Word.Digits.{get_bit-eq, bit-set_bit_same}
use rss_ring_ppml.Net.{World}
use rss_ring_ppml.Prg.{Streams, Positions}
use rss_ring_ppml.Prg.Sync.{InStep}
use rss_ring_ppml.Share.{Shares, IsShared}
use rss_ring_ppml.Share.Linear.{IsShared_value, IsShared_move}
use rss_ring_ppml.Base.Cong.{Cong_eq}
use rss_ring_ppml.Mult.{Product}
use rss_ring_ppml.Mult.Byte.{rss_mult_byte-InStep}
use rss_ring_ppml.BitLt.{
  Pairs, store_carry, start_state, new_rss_carry_out_aux, carry_loop, rss_carry_out_aux,
}
use rss_ring_ppml.BitLt.Bytes.{HasPairs}
use rss_ring_ppml.BitLt.Store.{get_bit-lt}
use rss_ring_ppml.BitLt.Merge.{next_pairs-HasPairs}
use rss_ring_ppml.BitLt.Carry.{carry, carry-merged, merged_p, merged_g}
use rss_ring_ppml.BitLt.Loop.{carry_loop_lem, half-le, le-two_pow}

-- The lowest bits of `out` share the carry of the pairs, and the streams are in step.
pub record HasCarry (r : ℕ) (i : ℕ) (p g : ℕ → ℕ) (out : Product) : Type 0 where
  pub lowest : IsShared 1 (λ pid s n. bit (out.c pid s n) 0) i (carry p g r)
  pub in_step : InStep out.positions

module _ (w size : ℕ) (streams : Streams) (even : w % 2 ≡ 0) {i : ℕ} (h : i < size)
    (res : World Shares) (wide : 0 < w) where
  stored-IsShared :
      (g : World Shares) {x : ℕ}
      → IsShared 1 (λ pid s n. bit (g pid s n) 0) i x
      → IsShared 1 (λ pid s n. bit (store_carry w size g res pid s n) 0) i x
  unfolding store_carry
  stored-IsShared g s =
      IsShared_move (λ pid s' n. bit (g pid s' n) 0)
        (λ pid s' n. bit (store_carry w size g res pid s' n) 0)
        (λ pid s'.
          ap (λ (t : ℕ). bit t 0) (for_each_at size _ (res pid s') h)
          ∙ bit-set_bit_same w (res pid s' i) 0 _ wide (get_bit-lt _ 0)
          ∙ get_bit-eq (g pid s' i) 0)
        s

  base_lem :
      (r : ℕ) (positions : Positions) (d : Pairs) {p g : ℕ → ℕ}
      → 0 < r
      → r ≤ 1
      → InStep positions
      → HasPairs r d i p g
      → HasCarry r i p g (record { c = store_carry w size d.g res; positions = positions })
  unfolding carry
  base_lem r positions d pos le step pairs =
      let one : r ≡ 1 = omega arith in
      record {
        lowest =
            rw one
              (stored-IsShared d.g (IsShared_value (Cong_eq (omega arith)) (pairs.g_bit 0 pos)));
        in_step = step;
      }

  recursive_lem :
      (n r : ℕ) (positions : Positions) (d : Pairs) {p g : ℕ → ℕ}
      → 0 < r
      → r ≤ 2 ^ n
      → r ≤ w
      → InStep positions
      → HasPairs r d i p g
      → HasCarry r i p g (rss_carry_out_aux w size streams n r positions res d)
  unfolding rss_carry_out_aux
  recursive_lem zero r positions d pos le fits step pairs = base_lem r positions d pos le step pairs
  recursive_lem (suc n) r positions d {p} {g} pos le fits step pairs = elim (Bool-cases (ltb 1 r)) [
    | inl e ↦
        let odd : bit_and r 1 ≡ r % 2 = bit_and_mask 1 r in
        rw (e, odd)
          (continued (
            recursive_lem n (r / 2 + r % 2) _ _ {p = merged_p r p} {g = merged_g r p g}
              (ground arith) (half-le r n le) (ground arith)
              (rss_mult_byte-InStep (unit_size r * size) streams positions step (λ pid s. zeros) _
                _)
              (next_pairs-HasPairs w r size even fits streams positions step d (λ pid s. zeros)
                (λ pid s. zeros) (λ pid s. zeros) h pairs)))
    | inr e ↦ rw e (base_lem r positions d pos (ground arith) step pairs)
  ]
    where
      continued :
          {out : Product}
          → HasCarry (r / 2 + r % 2) i (merged_p r p) (merged_g r p g) out
          → HasCarry r i p g out
      continued c = record {
        lowest = IsShared_value (Cong_eq (carry-merged r p g)) c.lowest;
        in_step = c.in_step;
      }

  -- At an even width of a word, for an `r_size` above 0 and at most the width, streams in step, and
  -- `r_size` pairs shared at an index `i` below `size`, the recursive `Rss_CarryOutAux` with fuel
  -- `n`, where `r_size` is at most `2 ^ n`, and the loop of `new_Rss_CarryOutAux` leave in the
  -- lowest bit of `res[i]` shares of one and the same carry, that of the pairs, and the streams
  -- in step again.
  pub rss_carry_out_aux-new_rss_carry_out_aux :
      (n r : ℕ) (positions : Positions) (memory : World Shares) (d : Pairs) {p g : ℕ → ℕ}
      → 0 < r
      → r ≤ 2 ^ n
      → r ≤ w
      → InStep positions
      → HasPairs r d i p g
      → HasCarry r i p g (rss_carry_out_aux w size streams n r positions res d)
        × HasCarry r i p g (new_rss_carry_out_aux w r size streams positions memory res d)
  unfolding new_rss_carry_out_aux start_state
  rss_carry_out_aux-new_rss_carry_out_aux n r positions memory d pos le fits step pairs =
      let loop =
        carry_loop_lem w size streams even h r (start_state r memory positions d) pos (le-two_pow r)
          fits step pairs in
      (
        recursive_lem n r positions d pos le fits step pairs,
        record {
          lowest =
              stored-IsShared (carry_loop w size streams r (start_state r memory positions d)).d.g
                loop.0;
          in_step = loop.1;
        },
      )
