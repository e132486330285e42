-- ===== src/Msb/Party.antt =====
-- What the parties of `new_Rss_MSB` compute on their own: shares without the top bit, cut words,
-- and the masked top bit.
use rss_ring_ppml.Base.{
  ℕ, ◌+◌, ◌-◌, ◌*◌, ◌%◌, ◌^◌, ◌<◌, ◌≡◌, ◌∙◌, refl, sym, ap, arith, ltb, if◌then◌else◌, Bool-cases,
  inl, inr,
}
use native.Mathlib.Nat.{mod-lt}
use rss_ring_ppml.Base.Bits.{bit}
use rss_ring_ppml.Base.Digits.{bit-mod, bit-high}
use rss_ring_ppml.Base.Cong.{Cong, Cong_trans, Cong_sym, Cong_refl, Cong_eq, add-Cong}
use rss_ring_ppml.Word.{IsRing, shl, sub, add, mul}
use rss_ring_ppml.Word.Laws.{add_lem, mul_lem, sub_lem, shl_lem, mask_mod, two_pow-pos}
use rss_ring_ppml.Word.Memory.{Array, zeros, for_each_at}
use rss_ring_ppml.Word.Digits.{get_bit-eq}
use rss_ring_ppml.Net.{World}
use rss_ring_ppml.Share.{Shares, IsShared, IsXorShared}
use rss_ring_ppml.Share.Linear.{IsShared_value, IsShared_times, IsShared_difference, IsShared_move}
use rss_ring_ppml.Msb.{EdaBits, r_prime_share, masked_top, top_share, cut, r_primes}
use rss_ring_ppml.Msb.Number.{top_and_rest, top_scale}

module _ {w k : ℕ} (ring : IsRing w k) where
  -- A bit shared by exclusive or, moved to the top.
  pub IsShared_top :
      {i x : ℕ} (a : World Shares)
      → IsShared 1 a i x
      → IsShared k (λ pid s n. 2 ^ (k - 1) * a pid s n) i (2 ^ (k - 1) * x)
  IsShared_top a s = record {
    third_share = top_scale k _ _ ring.pos s.third_share;
    first_share = top_scale k _ _ ring.pos s.first_share;
    second_share = top_scale k _ _ ring.pos s.second_share;
    total = Cong_trans (Cong_eq (omega arith)) (top_scale k _ _ ring.pos s.total);
  }

  top_fits : k - 1 < k
  top_fits = omega (arith, ring.pos)

  r_prime_lem :
      (r b_2 : ℕ) → Cong (2 ^ k) (r_prime_share w k r b_2 + 2 ^ (k - 1) * bit b_2 (k - 1)) r
  unfolding r_prime_share
  r_prime_lem r b_2 =
      Cong_trans
        (add-Cong (Cong_refl _) (
          Cong_sym (
            Cong_trans (shl_lem ring.fits (k - 1) (Cong_eq (get_bit-eq b_2 (k - 1))))
              (Cong_eq (omega arith)))))
        (sub_lem ring.fits r _)

  pub r_primes-IsShared :
      (size : ℕ) (eda : EdaBits) {i v : ℕ}
      → i < size
      → v < 2 ^ k
      → IsShared k eda.r i v
      → IsXorShared k eda.b_2 i v
      → IsShared k (r_primes w k size eda) i (v % 2 ^ (k - 1))
  unfolding r_primes
  r_primes-IsShared size eda {i} {v} h small s t =
      IsShared_difference (λ pid. pid ≡ pid) (r_primes w k size eda) eda.r
        (λ pid s' n. 2 ^ (k - 1) * bit (eda.b_2 pid s' n) (k - 1)) refl refl refl
        (λ pid s' e.
          rw (for_each_at size (λ n. r_prime_share w k (eda.r pid s' n) (eda.b_2 pid s' n)) zeros h)
            (r_prime_lem (eda.r pid s' i) (eda.b_2 pid s' i)))
        (Cong_eq (top_and_rest k v ring.pos small)) s
        (IsShared_top (λ pid s' n. bit (eda.b_2 pid s' n) (k - 1)) (t.at_bit (k - 1) top_fits))

  pub cut-at : (size : ℕ) (x : Array) {i : ℕ} → i < size → cut w k size x i ≡ x i % 2 ^ (k - 1)
  unfolding cut
  cut-at size x {i} h = for_each_at size _ x h ∙ mask_mod (omega (arith, ring.fits)) (x i)

  below_top : ℕ → ℕ
  below_top j = if ltb j (k - 1) then 1 else 0

  bit-cut : (x j : ℕ) → bit (x % 2 ^ (k - 1)) j ≡ below_top j * bit x j
  unfolding below_top
  bit-cut x j = elim (Bool-cases (ltb j (k - 1))) [
    | inl e ↦ rw e (bit-mod x (k - 1) j (ground arith) ∙ omega arith)
    | inr e ↦ rw e (
        bit-high (x % 2 ^ (k - 1)) (k - 1) j (mod-lt x (two_pow-pos (k - 1))) (ground arith)
        ∙ omega arith)
  ]

  pub cut-IsXorShared :
      (size : ℕ) (a : World Shares) {i v : ℕ}
      → i < size
      → IsXorShared k a i v
      → IsXorShared k (λ pid s. cut w k size (a pid s)) i (v % 2 ^ (k - 1))
  cut-IsXorShared size a {i} {v} h s = record {
    at_bit = λ j lt. IsShared_value (Cong_eq (sym (bit-cut v j))) (
        IsShared_move (λ pid s' n. below_top j * bit (a pid s' n) j)
          (λ pid s' n. bit (cut w k size (a pid s') n) j)
          (λ pid s'. ap (λ (t : ℕ). bit t j) (cut-at size (a pid s') h) ∙ bit-cut (a pid s' i) j)
          (IsShared_times (below_top j) (λ pid s' n. bit (a pid s' n) j) (s.at_bit j lt)));
  }

  pub masked_lem :
      (ai c a r_prime u b : ℕ)
      → Cong
          (2 ^ k)
          (masked_top w k ai c a r_prime u b + (2 ^ (k - 1) * u + c * ai))
          (a + r_prime + 2 ^ (k - 1) * b)
  unfolding masked_top
  masked_lem ai c a r_prime u b =
      let difference = sub w a (mul w c ai) in
      let total = add w difference r_prime in
      let left = sub w total (shl w u (k - 1)) in
      let used : Cong (2 ^ k) (c * ai) (mul w c ai) =
        Cong_sym (mul_lem ring.fits (Cong_refl c) (Cong_refl ai)) in
      let moved : Cong (2 ^ k) (2 ^ (k - 1) * u) (shl w u (k - 1)) =
        Cong_trans (Cong_eq (omega arith)) (Cong_sym (shl_lem ring.fits (k - 1) (Cong_refl u))) in
      let result : Cong (2 ^ k) (masked_top w k ai c a r_prime u b) (left + b * 2 ^ (k - 1)) =
        add_lem ring.fits (Cong_refl left) (shl_lem ring.fits (k - 1) (Cong_refl b)) in
      Cong_trans (add-Cong result (add-Cong moved used)) (
        Cong_trans
          (Cong_eq {y = left + shl w u (k - 1) + (b * 2 ^ (k - 1) + mul w c ai)} (omega arith))
          (Cong_trans
            (add-Cong
              (Cong_trans (sub_lem ring.fits total (shl w u (k - 1)))
                (add_lem ring.fits (Cong_refl difference) (Cong_refl r_prime)))
              (Cong_refl (b * 2 ^ (k - 1) + mul w c ai)))
            (Cong_trans
              (Cong_eq {y = difference + mul w c ai + (r_prime + b * 2 ^ (k - 1))} (omega arith))
              (Cong_trans
                (add-Cong (sub_lem ring.fits a (mul w c ai))
                  (Cong_refl (r_prime + b * 2 ^ (k - 1))))
                (Cong_eq (omega arith))))))

  pub top_share_lem : (ai c b : ℕ) → Cong (2 ^ k) (top_share w ai c b + 2 * c * b) (c * ai + b)
  unfolding top_share
  top_share_lem ai c b =
      Cong_trans
        (add-Cong (Cong_refl (top_share w ai c b)) (
          Cong_sym (
            Cong_trans (shl_lem ring.fits 1 (mul_lem ring.fits (Cong_refl c) (Cong_refl b)))
              (Cong_eq (omega arith)))))
        (Cong_trans (sub_lem ring.fits _ _)
          (add_lem ring.fits (mul_lem ring.fits (Cong_refl c) (Cong_refl ai)) (Cong_refl b)))
