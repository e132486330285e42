-- ===== src/Lt/Both.antt =====
-- `fixed_Rss_GT_LT_time`: a minimum, and a second product with the sign of `a`.
use rss_ring_ppml.Base.{ℕ, ◌+◌, ◌-◌, ◌*◌, ◌/◌, ◌%◌, ◌^◌, ◌<◌, ◌≤◌, ◌∙◌, ap, arith}
use rss_ring_ppml.Base.Cong.{Cong_eq}
use rss_ring_ppml.Word.{IsRing}
use rss_ring_ppml.Word.Memory.{for_each_at, for_each_above}
use rss_ring_ppml.Net.{World}
use rss_ring_ppml.Prg.{Streams, Positions}
use rss_ring_ppml.Prg.Sync.{InStep}
use rss_ring_ppml.Share.{Shares, IsShared, add_shares, sub_shares}
use rss_ring_ppml.Share.Linear.{IsShared_value, IsShared_move, add_shares_lem, sub_shares_lem}
use rss_ring_ppml.Mult.{Product, rss_mult}
use rss_ring_ppml.Mult.Correct.{rss_mult_lem}
use rss_ring_ppml.Lt
use rss_ring_ppml.Lt.{MsbProtocol, IsMsb, Memory, fresh, at_layer}
use rss_ring_ppml.Lt.Correct.{at_layer_lem}
use rss_ring_ppml.Lt.Values.{
  smaller, IsClose, gap, is_less, gap_lem, top-gap, smaller_lem, two_halves,
}

module _ {w k : ℕ} (ring : IsRing w k) (size : ℕ) (streams : Streams) (msb : MsbProtocol)
    (is_msb : IsMsb k msb) (memory : Memory) (positions : Positions) (step : InStep positions)
    (res a b : World Shares) {i x y layer : ℕ} (h : i < size) (close : IsClose k x y)
    (s : IsShared k a i x) (t : IsShared k b layer y) where
  abbrev layered : World Shares
  layered = at_layer b layer

  abbrev both : World Shares
  both = Lt.diff_and_a w k size streams msb memory a b layer

  abbrev d : World Shares
  d = sub_shares w size a layered fresh

  d_lem : IsShared k d i (gap k x y)
  d_lem =
      sub_shares_lem ring size a layered fresh h (gap k x y) (gap_lem k x y bound) s
        (at_layer_lem b t)
    where
      bound : y ≤ x + 2 ^ k
      bound = omega (arith, close.below, two_halves ring.pos)

  lower_half : IsShared k both i (gap k x y)
  unfolding Lt.diff_and_a
  lower_half = IsShared_move d both (λ pid n. for_each_at size _ _ h) d_lem

  higher_half : IsShared k both (size + i) x
  unfolding Lt.diff_and_a
  higher_half =
      IsShared_move a both
        (λ pid n.
          for_each_above size _ _ (omega arith)
          ∙ for_each_at (2 * size) _ _ (omega (arith, h))
          ∙ ap (λ (j : ℕ). a pid n j) {x = size + i - size} {y = i} (omega arith))
        s

  abbrev top : Product
  top = msb (2 * size) positions memory.c both

  top_step : InStep top.positions
  top_step = is_msb.in_step (2 * size) positions memory.c both step

  abbrev first : Product
  first = rss_mult w k size streams top.positions memory.d top.c d

  first_lem : IsShared k first.c i (is_less x y * gap k x y) × InStep first.positions
  first_lem =
      rss_mult_lem ring size streams top.positions top_step memory.d top.c d h
        (IsShared_value (Cong_eq (top-gap ring.pos close))
          (is_msb.top_bit (2 * size) positions memory.c both step (omega (arith, h)) lower_half))
        d_lem

  abbrev least : World Shares
  least = add_shares w size first.c layered res

  least_lem : IsShared k least i (smaller x y)
  least_lem =
      IsShared_value (smaller_lem ring.pos close)
        (add_shares_lem ring size first.c layered res h first_lem.0 (at_layer_lem b t))

  sign_lem :
      IsShared k (Lt.upper_half w k size streams msb memory top.c) i (x % 2 ^ k / 2 ^ (k - 1))
  unfolding Lt.upper_half
  sign_lem =
      IsShared_move top.c (Lt.upper_half w k size streams msb memory top.c)
        (λ pid n. for_each_at size _ _ h)
        (is_msb.top_bit (2 * size) positions memory.c both step (omega (arith, h)) higher_half)

  -- At a supported ring size, for shared `x` and a `y` shared at index `layer` of `b`, whose
  -- difference fits a signed word, and streams in step, `fixed_Rss_GT_LT_time` leaves in `res`
  -- shares of `m + c * m`, where `m` is the smaller of `x` and `y` and `c` is the top bit of `x`,
  -- and the streams in step, given that the MSB protocol shares the top bit: a negative `x` comes
  -- out doubled.
  pub fixed_rss_gt_lt_time_lem :
      IsShared k
        (Lt.fixed_rss_gt_lt_time w k size streams msb memory positions res a b layer).c
        i
        (x % 2 ^ k / 2 ^ (k - 1) * smaller x y + smaller x y)
      × InStep
          (Lt.fixed_rss_gt_lt_time w k size streams msb memory positions res a b layer).positions
  unfolding Lt.fixed_rss_gt_lt_time
  fixed_rss_gt_lt_time_lem = (add_shares_lem ring size _ least least h second.0 least_lem, second.1)
    where
      sign : World Shares
      sign = Lt.upper_half w k size streams msb memory top.c

      second :
          IsShared k
            (rss_mult w k size streams first.positions first.c sign least).c
            i
            (x % 2 ^ k / 2 ^ (k - 1) * smaller x y)
          × InStep (rss_mult w k size streams first.positions first.c sign least).positions
      second =
          rss_mult_lem ring size streams first.positions first_lem.1 first.c sign least h sign_lem
            least_lem
