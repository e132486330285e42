-- ===== src/Relu/Correct.antt =====
-- The rectifiers keep what is not negative, and clip.
use rss_ring_ppml.Base.{
  ℕ, ◌+◌, ◌-◌, ◌^◌, ◌<◌, inl, inr, arith, ltb, ltb→<, ltb→≥, lt→ltb, ≥→ltb, Bool-cases, >0→==0,
  if◌then◌else◌,
}
use rss_ring_ppml.Base.Cong.{Cong, Cong_refl, Cong_of_eq}
use rss_ring_ppml.Word.{IsRing}
use rss_ring_ppml.Word.Laws.{two_pow-pos}
use rss_ring_ppml.Net.{World}
use rss_ring_ppml.Prg.{Streams, Positions}
use rss_ring_ppml.Prg.Sync.{InStep}
use rss_ring_ppml.Share.{Shares, IsShared}
use rss_ring_ppml.Share.Linear.{IsShared_value}
use rss_ring_ppml.Lt.{MsbProtocol, IsMsb, Memory, fixed_rss_lt}
use rss_ring_ppml.Lt.Correct.{new_rss_lt_lem, fixed_rss_lt_lem, fixed_rss_gt_lem}
use rss_ring_ppml.Lt.Values.{larger, smaller, IsClose, two_halves}
use rss_ring_ppml.Relu
use rss_ring_ppml.Relu.{zero_shares}

-- The signed reading of `v` below `2 ^ k`, and 0 for negative values.
unfoldable pub rectified : ℕ → ℕ → ℕ
rectified k v = if ltb v (2 ^ (k - 1)) then v else 0

-- A representative of `v` next to `2 ^ k`, which stands for 0.
abbrev near : ℕ → ℕ → ℕ
near k v = if ltb v (2 ^ (k - 1)) then v + 2 ^ k else v

module _ {k v : ℕ} (pos : 0 < k) (small : v < 2 ^ k) where
  near_lem : Cong (2 ^ k) v (near k v)
  near_lem = elim (Bool-cases (ltb v (2 ^ (k - 1)))) [
    | inl e ↦ rw e (Cong_of_eq 1 0 (omega arith))
    | inr e ↦ rw e (Cong_refl v)
  ]

  near-IsClose : IsClose k (near k v) (2 ^ k)
  near-IsClose = elim (Bool-cases (ltb v (2 ^ (k - 1)))) [
    | inl e ↦ rw e (record { above = omega (arith, ltb→< _ _ e); below = omega arith })
    | inr e ↦ rw e (record {
      above = omega (arith, small);
      below = omega (arith, ltb→≥ _ _ e, two_halves pos);
    })
  ]

  larger-near : Cong (2 ^ k) (larger (near k v) (2 ^ k)) (rectified k v)
  unfolding larger rectified
  larger-near = elim (Bool-cases (ltb v (2 ^ (k - 1)))) [
    | inl e ↦ rw (e, ≥→ltb (v + 2 ^ k) (2 ^ k) (omega arith)) (Cong_of_eq 0 1 (omega arith))
    | inr e ↦ rw (e, lt→ltb v (2 ^ k) small) (Cong_of_eq 0 1 (omega arith))
  ]

zero_lem : (k i : ℕ) → IsShared k zero_shares i (2 ^ k)
zero_lem k i = record {
  third_share = Cong_refl 0;
  first_share = Cong_refl 0;
  second_share = Cong_refl 0;
  total = Cong_of_eq 1 0 (omega arith);
}

rectified-lt : (k v : ℕ) → 0 < 2 ^ (k - 1) → rectified k v < 2 ^ (k - 1)
unfolding rectified
rectified-lt k v pos = elim (Bool-cases (ltb v (2 ^ (k - 1)))) [
  | inl e ↦ rw e (ltb→< _ _ e)
  | inr e ↦ rw e pos
]

module _ {w k : ℕ} (ring : IsRing w k) (size : ℕ) (streams : Streams) (msb new_msb : MsbProtocol)
    (is_new_msb : IsMsb k new_msb) (memory : Memory) (positions : Positions)
    (step : InStep positions) (res a : World Shares) {i v : ℕ} (h : i < size) (small : v < 2 ^ k)
    (s : IsShared k a i v) where
  close : IsClose k (near k v) (2 ^ k)
  close = near-IsClose ring.pos small

  close_share : IsShared k a i (near k v)
  close_share = IsShared_value (near_lem ring.pos small) s

  -- At a supported ring size, for a shared `v` below `2 ^ ring_size`, streams in step, and a flag
  -- other than 0, with which `ReLU` runs `eda_ReLU`, `ReLU` leaves in `res` shares of `v` where its
  -- top bit is 0, and of 0 where it is negative, and the streams in step, given that `new_Rss_MSB`
  -- shares the top bit.
  pub relu_lem :
      (flag : ℕ)
      → 0 < flag
      → IsShared k
          (Relu.relu w k size streams msb new_msb memory positions res a flag).c
          i
          (rectified k v)
        × InStep (Relu.relu w k size streams msb new_msb memory positions res a flag).positions
  unfolding Relu.relu Relu.eda_relu
  relu_lem flag chosen =
      let found =
        new_rss_lt_lem ring size streams new_msb is_new_msb memory positions step res a zero_shares
          h close close_share (zero_lem k i) in
      rw (>0→==0 flag chosen) (IsShared_value (larger-near ring.pos small) found.0, found.1)

  -- At a supported ring size, for a shared `v` below `2 ^ ring_size`, a bound `u`, not negative,
  -- shared at index `layer` of `upper`, and streams in step, `ReLU_6_alpha` leaves in `res`
  -- shares of the smaller of `u` and of `v`, with 0 in place of a negative `v`, and the streams
  -- in step, given that `new_Rss_MSB` shares the top bit.
  pub relu_6_alpha_lem :
      {u layer : ℕ} (upper : World Shares)
      → u < 2 ^ (k - 1)
      → IsShared k upper layer u
      → IsShared k
          (Relu.relu_6_alpha w k size streams msb new_msb memory positions res a upper layer).c
          i
          (smaller (rectified k v) u)
        × InStep
            (Relu.relu_6_alpha w k size streams msb new_msb memory positions res a upper
              layer).positions
  unfolding Relu.relu_6_alpha
  relu_6_alpha_lem {u} {layer} upper bound t =
      let above =
        fixed_rss_lt_lem ring size streams new_msb is_new_msb memory positions step res a
          zero_shares h close close_share (zero_lem k 0) in
      let least =
        fixed_rss_gt_lem ring size streams new_msb is_new_msb memory
          (fixed_rss_lt w k size streams new_msb memory positions res a zero_shares 0).positions
          above.1 (fixed_rss_lt w k size streams new_msb memory positions res a zero_shares 0).c
          (fixed_rss_lt w k size streams new_msb memory positions res a zero_shares 0).c upper h
          (record {
            above = omega (arith, rectified-lt k v (two_pow-pos (k - 1)));
            below = omega (arith, bound);
          })
          (IsShared_value (larger-near ring.pos small) above.0) t in
      (least.0, least.1)
