-- ===== src/Lt/Correct.antt =====
-- The selections return shares of the larger or the smaller value.
use rss_ring_ppml.Base.{ℕ, ◌+◌, ◌*◌, ◌^◌, ◌<◌, ◌≤◌, arith}
use rss_ring_ppml.Base.Cong.{Cong_eq}
use rss_ring_ppml.Word.{IsRing}
use rss_ring_ppml.Net.{World}
use rss_ring_ppml.Prg.{Streams, Positions}
use rss_ring_ppml.Prg.Sync.{InStep}
use rss_ring_ppml.Share.{Shares, IsShared, sub_shares}
use rss_ring_ppml.Share.Linear.{IsShared_value, add_shares_lem, sub_shares_lem}
use rss_ring_ppml.Mult.{Product, rss_mult}
use rss_ring_ppml.Mult.Correct.{rss_mult_lem}
use rss_ring_ppml.Lt
use rss_ring_ppml.Lt.{MsbProtocol, IsMsb, Memory, fresh, at_layer}
use rss_ring_ppml.Lt.Values.{
  larger, smaller, IsClose, gap, is_less, gap_lem, top-gap, larger_lem, smaller_lem, two_halves,
}

pub at_layer_lem :
    {k i x layer : ℕ} (b : World Shares) → IsShared k b layer x → IsShared k (at_layer b layer) i x
at_layer_lem b s = record {
  third_share = s.third_share;
  first_share = s.first_share;
  second_share = s.second_share;
  total = s.total;
}

module _ {w k : ℕ} (ring : IsRing w k) (size : ℕ) (streams : Streams) (msb : MsbProtocol)
    (is_msb : IsMsb k msb) (memory : Memory) (positions : Positions) (step : InStep positions)
    (res a b : World Shares) where
  module _ {i x y : ℕ} (h : i < size) (close : IsClose k x y) (s : IsShared k a i x)
      (t : IsShared k b i y) where
    abbrev top : Product
    top = msb size positions memory.c (sub_shares w size a b fresh)

    top_step : InStep top.positions
    top_step = is_msb.in_step size positions memory.c _ step

    top_lem : IsShared k top.c i (is_less x y)
    top_lem = IsShared_value (Cong_eq (top-gap ring.pos close)) (
        is_msb.top_bit size positions memory.c _ step h
          (sub_shares_lem ring size a b fresh h (gap k x y) (gap_lem k x y y_bound) s t))
      where
        y_bound : y ≤ x + 2 ^ k
        y_bound = omega (arith, close.below, two_halves ring.pos)

    pub select_larger_lem :
        IsShared k (Lt.select_larger w k size streams msb memory positions res a b).c i (larger x y)
        × InStep (Lt.select_larger w k size streams msb memory positions res a b).positions
    unfolding Lt.select_larger
    select_larger_lem = (
      IsShared_value (larger_lem ring.pos close) (add_shares_lem ring size _ a res h product.0 s),
      product.1,
    )
      where
        d : World Shares
        d = sub_shares w size b a fresh

        product :
            IsShared k
              (rss_mult w k size streams top.positions memory.d top.c d).c
              i
              (is_less x y * gap k y x)
            × InStep (rss_mult w k size streams top.positions memory.d top.c d).positions
        product = rss_mult_lem ring size streams top.positions top_step memory.d top.c d h top_lem (
            sub_shares_lem ring size b a fresh h (gap k y x)
              (gap_lem k y x (omega (arith, close.above, two_halves ring.pos))) t s)

    select_smaller_lem :
        IsShared k
          (Lt.select_smaller w k size streams msb memory positions res a b).c
          i
          (smaller x y)
        × InStep (Lt.select_smaller w k size streams msb memory positions res a b).positions
    unfolding Lt.select_smaller
    select_smaller_lem = (
      IsShared_value (smaller_lem ring.pos close) (add_shares_lem ring size _ b res h product.0 t),
      product.1,
    )
      where
        d : World Shares
        d = sub_shares w size a b fresh

        product :
            IsShared k
              (rss_mult w k size streams top.positions memory.d top.c d).c
              i
              (is_less x y * gap k x y)
            × InStep (rss_mult w k size streams top.positions memory.d top.c d).positions
        product = rss_mult_lem ring size streams top.positions top_step memory.d top.c d h top_lem (
            sub_shares_lem ring size a b fresh h (gap k x y)
              (gap_lem k x y (omega (arith, close.below, two_halves ring.pos))) s t)

    -- `new_Rss_LT` leaves shares of the larger value, and the streams in step.
    pub new_rss_lt_lem :
        IsShared k (Lt.new_rss_lt w k size streams msb memory positions res a b).c i (larger x y)
        × InStep (Lt.new_rss_lt w k size streams msb memory positions res a b).positions
    unfolding Lt.new_rss_lt
    new_rss_lt_lem = select_larger_lem

module _ {w k : ℕ} (ring : IsRing w k) (size : ℕ) (streams : Streams) (msb : MsbProtocol)
    (is_msb : IsMsb k msb) (memory : Memory) (positions : Positions) (step : InStep positions)
    (res a b : World Shares) {i x y layer : ℕ} (h : i < size) (close : IsClose k x y)
    (s : IsShared k a i x) (t : IsShared k b layer y) where
  -- At a supported ring size, for shared `x` and a `y` shared at index `layer` of `b` for all of
  -- `a`, whose difference fits a signed word, and streams in step, `fixed_Rss_LT` and
  -- `fixed_Rss_LT_time` leave in `res` shares of the larger of `x` and `y`, and the former leaves
  -- the streams in step, given that the MSB protocol shares the top bit.
  pub fixed_rss_lt_lem :
      IsShared k
        (Lt.fixed_rss_lt w k size streams msb memory positions res a b layer).c
        i
        (larger x y)
      × InStep (Lt.fixed_rss_lt w k size streams msb memory positions res a b layer).positions
      × IsShared k
          (Lt.fixed_rss_lt_time w k size streams msb memory positions res a b layer).c
          i
          (larger x y)
  unfolding Lt.fixed_rss_lt Lt.fixed_rss_lt_time
  fixed_rss_lt_lem = (found.0, found.1, found.0)
    where
      found :
          IsShared k
            (Lt.select_larger w k size streams msb memory positions res a (at_layer b layer)).c
            i
            (larger x y)
          × InStep
              (Lt.select_larger w k size streams msb memory positions res a
                (at_layer b layer)).positions
      found =
          select_larger_lem ring size streams msb is_msb memory positions step res a
            (at_layer b layer) h close s (at_layer_lem b t)

  -- At a supported ring size, for shared `x` and a `y` shared at index `layer` of `b` for all of
  -- `a`, whose difference fits a signed word, and streams in step, `fixed_Rss_GT` and
  -- `fixed_Rss_GT_time` leave in `res` shares of the smaller of `x` and `y`, and the former
  -- leaves the streams in step, given that the MSB protocol shares the top bit.
  pub fixed_rss_gt_lem :
      IsShared k
        (Lt.fixed_rss_gt w k size streams msb memory positions res a b layer).c
        i
        (smaller x y)
      × InStep (Lt.fixed_rss_gt w k size streams msb memory positions res a b layer).positions
      × IsShared k
          (Lt.fixed_rss_gt_time w k size streams msb memory positions res a b layer).c
          i
          (smaller x y)
  unfolding Lt.fixed_rss_gt Lt.fixed_rss_gt_time
  fixed_rss_gt_lem = (found.0, found.1, found.0)
    where
      found :
          IsShared k
            (Lt.select_smaller w k size streams msb memory positions res a (at_layer b layer)).c
            i
            (smaller x y)
          × InStep
              (Lt.select_smaller w k size streams msb memory positions res a
                (at_layer b layer)).positions
      found =
          select_smaller_lem ring size streams msb is_msb memory positions step res a
            (at_layer b layer) h close s (at_layer_lem b t)
