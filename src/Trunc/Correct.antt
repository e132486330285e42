-- ===== src/Trunc/Correct.antt =====
-- Truncation divides a shared value by `2 ^ m`, up to one.
use native.Mathlib.Nat.{mod-lt, pow-suc}
use rss_ring_ppml.Base.{
  ℕ, suc, ◌+◌, ◌-◌, ◌*◌, ◌/◌, ◌%◌, ◌^◌, ◌<◌, ◌≤◌, ◌≡◌, ◌⊎◌, ◌∙◌, sym, ap, arith,
}
use rss_ring_ppml.Base.Cong.{Cong, Cong_eq, two_pow-add}
use rss_ring_ppml.Word.{IsRing}
use rss_ring_ppml.Word.Laws.{two_pow-pos}
use rss_ring_ppml.Word.Memory.{zeros, for_each_at}
use rss_ring_ppml.Net.{World}
use rss_ring_ppml.Prg.{Positions}
use rss_ring_ppml.Prg.Sync.{InStep}
use rss_ring_ppml.Share.{Shares, IsShared, add_shares, unit_share}
use rss_ring_ppml.Share.Linear.{
  add_shares_lem, IsShared_difference, IsShared_sum, IsShared_times, unit_share_lem,
}
use rss_ring_ppml.Open.{rss_open}
use rss_ring_ppml.Open.Correct.{rss_open_lem}
use rss_ring_ppml.Trunc
use rss_ring_ppml.Trunc.{EdaBits, EdaBitProtocol, IsEdaBit}
use rss_ring_ppml.Trunc.Number.{Quotient, Quotient-of_sum}
use rss_ring_ppml.Trunc.Party.{res_share_lem}

unit_share-bit : (pid s : ℕ) → (unit_share pid s ≡ 0) ⊎ (unit_share pid s ≡ 1)
unfolding unit_share
unit_share-bit pid s = ground arith

powers : (m k : ℕ) → m + 1 ≤ k → 2 ^ m * 2 ^ (k - m - 1) ≡ 2 ^ (k - 1)
powers m k h =
    sym (two_pow-add m (k - m - 1))
    ∙ ap (λ (t : ℕ). 2 ^ t) {x = m + (k - m - 1)} {y = k - 1} (omega arith)

module _ {w k : ℕ} (ring : IsRing w k) (size : ℕ) (eda_bit : EdaBitProtocol) {m : ℕ}
    (is_eda_bit : IsEdaBit k m eda_bit) (positions : Positions) (step : InStep positions)
    (res x : World Shares) (below : m + 1 ≤ k) where
  abbrev eda : EdaBits
  eda = eda_bit size m positions

  module _ {i v : ℕ} (h : i < size) (small : v < 2 ^ (k - 1)) (s : IsShared k x i v) where
    abbrev r : ℕ
    r = is_eda_bit.value size positions i

    abbrev opened : ℕ
    opened = (v + r) % 2 ^ k

    abbrev sum : World Shares
    sum = add_shares w size x eda.r (λ pid s. zeros)

    sum_lem : IsShared k sum i (v + r)
    sum_lem =
        add_shares_lem ring size x eda.r (λ pid s. zeros) h s
          (is_eda_bit.of_r size positions step h)

    abbrev q : ℕ
    q = 2 ^ (k - m - 1)

    abbrev ct : ℕ
    ct = opened / 2 ^ (k - 1)

    abbrev rt : ℕ
    rt = r / 2 ^ (k - 1)

    quotient :
        Quotient (2 ^ m) v (opened / 2 ^ m % q + q * ct + q * 2 * rt) (r / 2 ^ m + q * ct * 2 * rt)
    quotient = rw (sym (powers m k below)) (
        Quotient-of_sum (2 ^ m) q v r opened (two_pow-pos m) (rw (powers m k below) small)
          (ap (λ (n : ℕ). (v + r) % n) whole)
          (rw (sym whole) (is_eda_bit.value-lt size positions i)))
      where
        whole : 2 ^ k ≡ 2 ^ m * q * 2
        whole = omega (
          arith,
          powers m k below,
          ap (λ (t : ℕ). 2 ^ t) {x = k} {y = suc (k - 1)} (omega arith),
          pow-suc 2 (k - 1),
        )

    abbrev c : World (ℕ → ℕ)
    c = (rss_open w k size (λ pid. zeros) sum).res

    opened_lem :
        (c 1 i ≡ opened)
        × (c 2 i ≡ opened)
        × (c 3 i ≡ opened)
        × IsShared k (rss_open w k size (λ pid. zeros) sum).a i (v + r)
    opened_lem = rss_open_lem ring size (λ pid. zeros) sum h sum_lem

    at_party :
        (pid n : ℕ)
        → (c pid i ≡ opened)
        → Cong
            (2 ^ k)
            ((Trunc.rss_trunc_pr_1 w k size eda_bit positions res x m).c pid n i
              + (eda.r_prime pid n i + q * ct * 2 * eda.r_km1 pid n i))
            ((opened / 2 ^ m % q + q * ct) * unit_share pid n + q * 2 * eda.r_km1 pid n i)
    unfolding Trunc.rss_trunc_pr_1 Trunc.trunc_with
    at_party pid n e =
        rw (for_each_at size _ (res pid n) h, e)
          (res_share_lem ring m opened (unit_share pid n) (eda.r_km1 pid n i) (eda.r_prime pid n i)
            below (mod-lt (v + r) (two_pow-pos k)) (unit_share-bit pid n))

    minuend_lem :
        IsShared k
          (λ pid n j. (opened / 2 ^ m % q + q * ct) * unit_share pid n + q * 2 * eda.r_km1 pid n j)
          i
          ((opened / 2 ^ m % q + q * ct) * 1 + q * 2 * rt)
    minuend_lem =
        IsShared_sum (λ pid n j. (opened / 2 ^ m % q + q * ct) * unit_share pid n)
          (λ pid n j. q * 2 * eda.r_km1 pid n j)
          (IsShared_times (opened / 2 ^ m % q + q * ct) (λ pid n j. unit_share pid n)
            (unit_share_lem k i))
          (IsShared_times (q * 2) eda.r_km1 (is_eda_bit.of_r_km1 size positions step h))

    subtrahend_lem :
        IsShared k
          (λ pid n j. eda.r_prime pid n j + q * ct * 2 * eda.r_km1 pid n j)
          i
          (r / 2 ^ m + q * ct * 2 * rt)
    subtrahend_lem =
        IsShared_sum eda.r_prime (λ pid n j. q * ct * 2 * eda.r_km1 pid n j)
          (is_eda_bit.of_r_prime size positions step h)
          (IsShared_times (q * ct * 2) eda.r_km1 (is_eda_bit.of_r_km1 size positions step h))

    kept : InStep (Trunc.rss_trunc_pr_1 w k size eda_bit positions res x m).positions
    unfolding Trunc.rss_trunc_pr_1 Trunc.trunc_with
    kept = is_eda_bit.in_step size positions step

    -- At a supported ring size, for a shared `v` whose top bit is 0, an `m` below `ring_size`,
    -- and streams in step, `Rss_truncPr_1` leaves in `res` shares of `v / 2 ^ m` or of one more,
    -- and the streams in step, given that `Rss_edaBit_trunc` shares a number, its bits from `m`
    -- on and its top bit.
    pub rss_trunc_pr_1_lem :
        (d : ℕ) × (v / 2 ^ m ≤ d)
        × (d ≤ v / 2 ^ m + 1)
        × IsShared k (Trunc.rss_trunc_pr_1 w k size eda_bit positions res x m).c i d
        × InStep (Trunc.rss_trunc_pr_1 w k size eda_bit positions res x m).positions
    rss_trunc_pr_1_lem = (
      quotient.result,
      quotient.at_least,
      quotient.at_most,
      IsShared_difference (λ pid. c pid i ≡ opened)
          (Trunc.rss_trunc_pr_1 w k size eda_bit positions res x m).c
          (λ pid n j. (opened / 2 ^ m % q + q * ct) * unit_share pid n + q * 2 * eda.r_km1 pid n j)
          (λ pid n j. eda.r_prime pid n j + q * ct * 2 * eda.r_km1 pid n j) opened_lem.0
          opened_lem.1 opened_lem.2 at_party (Cong_eq (omega (arith, quotient.equation)))
          minuend_lem subtrahend_lem,
      kept,
    )
