-- ===== src/Trunc/Private.antt =====
-- Truncation by a shared factor.
use rss_ring_ppml.Base.{ℕ, ◌+◌, ◌*◌, ◌/◌, ◌^◌, ◌-◌, ◌<◌, ◌≤◌}
use rss_ring_ppml.Word.{IsRing}
use rss_ring_ppml.Net.{World}
use rss_ring_ppml.Prg.{Streams, Positions}
use rss_ring_ppml.Prg.Sync.{InStep}
use rss_ring_ppml.Share.{Shares, IsShared}
use rss_ring_ppml.Mult.{rss_mult_fixed_b}
use rss_ring_ppml.Mult.Correct.{rss_mult_fixed_b_lem}
use rss_ring_ppml.Trunc
use rss_ring_ppml.Trunc.{EdaBitProtocol, IsEdaBit}
use rss_ring_ppml.Trunc.Correct.{rss_trunc_pr_1_lem}

module _ {w k : ℕ} (ring : IsRing w k) (size : ℕ) (eda_bit : EdaBitProtocol) {public_m : ℕ}
    (is_eda_bit : IsEdaBit k public_m eda_bit) (streams : Streams) (positions : Positions)
    (step : InStep positions) (res x priv_m : World Shares) where
  -- At a supported ring size, for a shared `v` and a factor `f` shared at index `priv_m_index`,
  -- where the top bit of `v * f` is 0, a `public_M` below `ring_size`, and streams in step,
  -- `Rss_truncPriv` leaves in `res` shares of `v * f / 2 ^ public_M` or of one more, and the
  -- streams in step, given that `Rss_edaBit_trunc` shares a number, its high bits and its top
  -- bit.
  pub rss_trunc_priv_lem :
      {i v f : ℕ} (priv_m_index : ℕ)
      → public_m + 1 ≤ k
      → i < size
      → v * f < 2 ^ (k - 1)
      → IsShared k x i v
      → IsShared k priv_m priv_m_index f
      → (d : ℕ) × (v * f / 2 ^ public_m ≤ d)
        × (d ≤ v * f / 2 ^ public_m + 1)
        × IsShared k
            (Trunc.rss_trunc_priv w k size eda_bit streams positions res x priv_m public_m
              priv_m_index).c
            i
            d
        × InStep
            (Trunc.rss_trunc_priv w k size eda_bit streams positions res x priv_m public_m
              priv_m_index).positions
  unfolding Trunc.rss_trunc_priv
  rss_trunc_priv_lem priv_m_index below h small s t =
      let product =
        rss_mult_fixed_b_lem ring size streams positions step res x priv_m priv_m_index h s t in
      rss_trunc_pr_1_lem ring size eda_bit is_eda_bit
        (rss_mult_fixed_b w k size streams positions res x priv_m priv_m_index).positions product.1
        (rss_mult_fixed_b w k size streams positions res x priv_m priv_m_index).c
        (rss_mult_fixed_b w k size streams positions res x priv_m priv_m_index).c below h small
        product.0
