-- ===== src/Trunc.antt =====
-- src/protocols_composite/Trunc.cpp: division of shared values by powers of two. The random
-- masks (`Rss_edaBit_trunc`) are an interface with a law, which EdaBit fills.
pub mod Number
pub mod Party
pub mod Correct
pub mod Private
use rss_ring_ppml.Base.{ℕ, ◌+◌, ◌-◌, ◌*◌, ◌/◌, ◌%◌, ◌^◌, ◌<◌, ◌≡◌, ◌==◌, if◌then◌else◌}
use rss_ring_ppml.Word.{add, sub, mul, shl, shr, mask}
use rss_ring_ppml.Word.Memory.{Array, zeros, for_each}
use rss_ring_ppml.Net.{World}
use rss_ring_ppml.Prg.{Streams, Positions}
use rss_ring_ppml.Prg.Sync.{InStep}
use rss_ring_ppml.Share.{Shares, IsShared, add_shares, unit_share}
use rss_ring_ppml.Open.{rss_open}
use rss_ring_ppml.Mult.{Product, rss_mult_fixed_b}

-- The results of `Rss_edaBit_trunc(r, r_prime, r_km1, size, ring_size, m, nodeNet)`.
pub record EdaBits : Type 0 where
  pub r : World Shares
  pub r_prime : World Shares
  pub r_km1 : World Shares
  pub positions : Positions

-- Size, `m` and the positions in the streams.
abbrev pub EdaBitProtocol : Type 0
EdaBitProtocol = ℕ → ℕ → Positions → EdaBits

-- For the given `m`: `r` shares a number, `r_prime` what is left of it without its `m` low bits,
-- and `r_km1` its top bit.
pub record IsEdaBit (k m : ℕ) (eda_bit : EdaBitProtocol) : Type 0 where
  pub value : ℕ → Positions → ℕ → ℕ
  pub value-lt : (size : ℕ) (positions : Positions) (i : ℕ) → value size positions i < 2 ^ k
  pub of_r :
      (size : ℕ) (positions : Positions) {i : ℕ}
      → InStep positions
      → i < size
      → IsShared k (eda_bit size m positions).r i (value size positions i)
  pub of_r_prime :
      (size : ℕ) (positions : Positions) {i : ℕ}
      → InStep positions
      → i < size
      → IsShared k (eda_bit size m positions).r_prime i (value size positions i / 2 ^ m)
  pub of_r_km1 :
      (size : ℕ) (positions : Positions) {i : ℕ}
      → InStep positions
      → i < size
      → IsShared k (eda_bit size m positions).r_km1 i (value size positions i / 2 ^ (k - 1))
  pub in_step :
      (size : ℕ) (positions : Positions)
      → InStep positions
      → InStep (eda_bit size m positions).positions

-- (c / 2^m) mod 2^(k-m-1).
unfoldable pub c_prime : ℕ → ℕ → ℕ → ℕ → ℕ
c_prime w ring_size m c = mask w (ring_size - m - 1) (shr c m)

-- `b[s][i]`, for an opened `c`, the share `ai` of 1 and the share `rk` of the top bit of r.
unfoldable pub b_share : ℕ → ℕ → ℕ → ℕ → ℕ → ℕ
b_share w ring_size c ai rk =
    sub w (add w rk (shr (mul w c ai) (ring_size - 1))) (mul w (mul w 2 (shr c (ring_size - 1))) rk)

-- `r_m_prime[s][i]` after its update.
unfoldable pub r_m_share : ℕ → ℕ → ℕ → ℕ → ℕ → ℕ
r_m_share w ring_size m rk r_m = sub w r_m (shl w rk (ring_size - 1 - m))

-- `res[s][i]`.
unfoldable pub res_share : ℕ → ℕ → ℕ → ℕ → ℕ → ℕ → ℕ → ℕ
unfolding c_prime b_share r_m_share
res_share w ring_size m c ai rk r_m =
    add w (sub w (mul w (c_prime w ring_size m c) ai) (r_m_share w ring_size m rk r_m))
      (shl w (b_share w ring_size c ai rk) (ring_size - m - 1))

-- `ai` of `Rss_truncPr_time`, for 3PC, where `numShares` is 2.
unfoldable pub unit_share_time : ℕ → ℕ → ℕ
unit_share_time pid s =
    if pid == 1
    then (if s == 0 then 1 else 0)
    else if pid == 2
    then (if s == 2 - 1 then 1 else 0)
    else 0

module _ (w ring_size size : ℕ) (eda_bit : EdaBitProtocol) where
  -- The code of `Rss_truncPr_1` and of `Rss_truncPr_time` but for the shares `ai` of 1.
  unfoldable pub trunc_with : (ℕ → ℕ → ℕ) → Positions → World Shares → World Shares → ℕ → Product
  unfolding res_share
  trunc_with ai positions res x m =
      let eda = eda_bit size m positions in
      let sum = add_shares w size x eda.r (λ pid s. zeros) in
      let c = (rss_open w ring_size size (λ pid. zeros) sum).res in
      record {
        c = λ pid s.
            for_each size
              (λ i.
                res_share w ring_size m (c pid i) (ai pid s) (eda.r_km1 pid s i)
                  (eda.r_prime pid s i))
              (res pid s);
        positions = eda.positions;
      }

  -- `Rss_truncPr_1(res, x, m, size, ring_size, nodeNet)`.
  unfoldable pub rss_trunc_pr_1 : Positions → World Shares → World Shares → ℕ → Product
  unfolding trunc_with unit_share
  rss_trunc_pr_1 positions res x m = trunc_with unit_share positions res x m

  -- `Rss_truncPr_time`, without the timer.
  unfoldable pub rss_trunc_pr_time : Positions → World Shares → World Shares → ℕ → Product
  unfolding trunc_with unit_share_time
  rss_trunc_pr_time positions res x m = trunc_with unit_share_time positions res x m

  -- `Rss_truncPriv(res, x, priv_m, public_M, priv_m_index, size, ring_size, nodeNet)`.
  unfoldable pub rss_trunc_priv :
      Streams → Positions → World Shares → World Shares → World Shares → ℕ → ℕ → Product
  unfolding rss_trunc_pr_1
  rss_trunc_priv streams positions res x priv_m public_m priv_m_index =
      let p = rss_mult_fixed_b w ring_size size streams positions res x priv_m priv_m_index in
      rss_trunc_pr_1 p.positions p.c p.c public_m

  -- `Rss_truncPriv_time`, without the timer.
  unfoldable pub rss_trunc_priv_time :
      Streams → Positions → World Shares → World Shares → World Shares → ℕ → ℕ → Product
  unfolding rss_trunc_pr_time
  rss_trunc_priv_time streams positions res x priv_m public_m priv_m_index =
      let p = rss_mult_fixed_b w ring_size size streams positions res x priv_m priv_m_index in
      rss_trunc_pr_time p.positions p.c p.c public_m
