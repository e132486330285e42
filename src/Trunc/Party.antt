-- ===== src/Trunc/Party.antt =====
-- One party's share of a truncated value, as an equation without subtraction.
use native.Mathlib.Nat.{mod-eq_of_lt, zero-mod, zero-div, pow-le-pow_right}
use rss_ring_ppml.Base.{
  ℕ, ◌+◌, ◌-◌, ◌*◌, ◌/◌, ◌%◌, ◌^◌, ◌<◌, ◌≤◌, ◌≡◌, ◌⊎◌, inl, inr, ◌∙◌, ap, arith,
}
use rss_ring_ppml.Base.Cong.{Cong, Cong_trans, Cong_sym, Cong_refl, Cong_eq, add-Cong, mul-Cong}
use rss_ring_ppml.Word.{IsRing, sub, mul, shl, shr}
use rss_ring_ppml.Word.Laws.{add_lem, mul_lem, sub_lem, shl_lem, mask_mod}
use rss_ring_ppml.Trunc.{c_prime, b_share, r_m_share, res_share}

-- The subtractions of the code, put on the other side.
without_subtraction :
    {n g rm : ℕ} (t b q r rk cp ct u : ℕ)
    → Cong n g (t + b * q)
    → Cong n (t + r) (cp * u)
    → Cong n (r + rk * q) rm
    → Cong n (b + 2 * ct * rk) (rk + ct * u)
    → Cong n (g + (rm + q * ct * 2 * rk)) ((cp + q * ct) * u + q * 2 * rk)
without_subtraction t b q r rk cp ct u of_g of_t of_r of_b =
    Cong_trans (add-Cong of_g (add-Cong (Cong_sym of_r) (Cong_refl (q * ct * 2 * rk)))) (
      Cong_trans (Cong_eq (omega arith)) (
        Cong_trans (add-Cong (add-Cong of_t (mul-Cong (Cong_refl q) of_b)) (Cong_refl (q * rk)))
          (Cong_eq (omega arith))))

module _ {w k : ℕ} (ring : IsRing w k) (m c ai rk rm : ℕ) (below : m + 1 ≤ k) (small : c < 2 ^ k)
    (bit : (ai ≡ 0) ⊎ (ai ≡ 1)) where
  abbrev q : ℕ
  q = 2 ^ (k - m - 1)

  abbrev ct : ℕ
  ct = c / 2 ^ (k - 1)

  fits_word : c < 2 ^ w
  fits_word = omega (arith, small, pow-le-pow_right {n = 2} (omega arith) {i = k} {j = w} ring.fits)

  top_times : shr (mul w c ai) (k - 1) ≡ ct * ai
  unfolding mul
  top_times = elim bit [
    | inl e ↦ rw e (
        ap (λ (n : ℕ). n % 2 ^ w / 2 ^ (k - 1)) {x = c * 0} {y = 0} (omega arith)
        ∙ ap (λ (n : ℕ). n / 2 ^ (k - 1)) (zero-mod (2 ^ w))
        ∙ zero-div (2 ^ (k - 1))
        ∙ omega arith)
    | inr e ↦ rw e (
        ap (λ (n : ℕ). n % 2 ^ w / 2 ^ (k - 1)) {x = c * 1} {y = c} (omega arith)
        ∙ ap (λ (n : ℕ). n / 2 ^ (k - 1)) (mod-eq_of_lt fits_word)
        ∙ omega arith)
  ]

  b_lem : Cong (2 ^ k) (b_share w k c ai rk + 2 * ct * rk) (rk + ct * ai)
  unfolding b_share
  b_lem =
      Cong_trans
        (add-Cong (Cong_refl (b_share w k c ai rk)) (
          Cong_sym
            (mul_lem ring.fits (mul_lem ring.fits (Cong_refl 2) (Cong_refl ct)) (Cong_refl rk))))
        (Cong_trans (sub_lem ring.fits _ _) (add_lem ring.fits (Cong_refl rk) (Cong_eq top_times)))

  r_m_lem : Cong (2 ^ k) (r_m_share w k m rk rm + rk * q) rm
  unfolding r_m_share
  r_m_lem =
      Cong_trans
        (add-Cong (Cong_refl (r_m_share w k m rk rm)) (
          Cong_trans
            (Cong_eq (ap (λ (n : ℕ). rk * 2 ^ n) {x = k - m - 1} {y = k - 1 - m} (omega arith)))
            (Cong_sym (shl_lem ring.fits (k - 1 - m) (Cong_refl rk)))))
        (sub_lem ring.fits rm (shl w rk (k - 1 - m)))

  pub res_share_lem :
      Cong
        (2 ^ k)
        (res_share w k m c ai rk rm + (rm + q * ct * 2 * rk))
        ((c / 2 ^ m % q + q * ct) * ai + q * 2 * rk)
  unfolding res_share c_prime
  res_share_lem =
      without_subtraction (sub w (mul w (c_prime w k m c) ai) (r_m_share w k m rk rm))
        (b_share w k c ai rk) q (r_m_share w k m rk rm) rk (c / 2 ^ m % q) ct ai
        (add_lem ring.fits (Cong_refl _)
          (shl_lem ring.fits (k - m - 1) (Cong_refl (b_share w k c ai rk))))
        (Cong_trans (sub_lem ring.fits (mul w (c_prime w k m c) ai) (r_m_share w k m rk rm)) (
          mul_lem ring.fits
            (Cong_eq (mask_mod {w = w} {k = k - m - 1} (omega (arith, ring.fits)) (c / 2 ^ m)))
            (Cong_refl ai)))
        r_m_lem b_lem
