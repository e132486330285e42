-- ===== src/Word/Laws.antt =====
-- The operators of `Lint` are those of the ring Z/2^k, for every k up to the width.
use native.Mathlib.Nat.{
  mod-lt, one-le-pow, mod-add-div, mod-eq_of_lt, pow-le-pow_right, pow-suc, add-mod_right,
}
use rss_ring_ppml.Base.{
  ℕ, suc, bit_and, ◌+◌, ◌-◌, ◌*◌, ◌/◌, ◌%◌, ◌^◌, ◌≤◌, ◌<◌, ◌==◌, ◌≡◌, ap, ◌∙◌, inl, inr, arith,
  Bool-cases,
}
use rss_ring_ppml.Base.Bits.{bit_and_mask}
use rss_ring_ppml.Base.Cong.{
  Cong, Cong_refl, Cong_trans, Cong_of_eq, Cong_of_le, Cong_eq, add-Cong, mul-Cong, mod-Cong,
}
use rss_ring_ppml.Word.{add, sub, mul, shl, shift_mask, mask, all_ones}

pub two_pow-pos : (k : ℕ) → 0 < 2 ^ k
two_pow-pos k = one-le-pow k 2 (omega arith)

pub two_pow-lt : {j w : ℕ} → j < w → 2 ^ j < 2 ^ w
two_pow-lt {j} {w} h =
    omega (arith, pow-le-pow_right {n = 2} (omega arith) {i = suc j} h, pow-suc 2 j, two_pow-pos j)

-- Where the subtraction does not wrap it is that of ℕ.
sub-eq : (w x y : ℕ) → x < 2 ^ w → y ≤ x → sub w x y ≡ x - y
unfolding sub
sub-eq w x y h le =
    ap (λ (t : ℕ). t % 2 ^ w) {x = x + (2 ^ w - y % 2 ^ w)} {y = (x - y) + 2 ^ w}
      (omega (arith, mod-eq_of_lt {n = y} {m = 2 ^ w} (omega arith)))
    ∙ add-mod_right (x - y) (2 ^ w)
    ∙ mod-eq_of_lt (omega arith)

shift_mask_lem : (w i : ℕ) → i ≤ w → shift_mask w i ≡ 2 ^ i - 1
unfolding shift_mask shl
shift_mask_lem w i h = elim (Bool-cases (i == w)) [
  | inl e ↦ rw e (ap (λ (t : ℕ). 2 ^ t - 1) {x = w} {y = i} (ground arith))
  | inr e ↦ rw e (
      ap (λ (t : ℕ). sub w t 1) {x = 1 * 2 ^ i % 2 ^ w} {y = 2 ^ i}
        (ap (λ (t : ℕ). t % 2 ^ w) {x = 1 * 2 ^ i} {y = 2 ^ i} (omega arith)
          ∙ mod-eq_of_lt (two_pow-lt (ground arith)))
      ∙ sub-eq w (2 ^ i) 1 (two_pow-lt (ground arith)) (two_pow-pos i))
]

module _ {w k : ℕ} (fits : k ≤ w) where
  wrap-Cong : (x : ℕ) → Cong (2 ^ k) (x % 2 ^ w) x
  wrap-Cong x = Cong_of_le fits (mod-Cong (2 ^ w) x)

  pub add_lem :
      {x y x' y' : ℕ} → Cong (2 ^ k) x x' → Cong (2 ^ k) y y' → Cong (2 ^ k) (add w x y) (x' + y')
  unfolding add
  add_lem {x} {y} p q = Cong_trans (wrap-Cong (x + y)) (add-Cong p q)

  pub mul_lem :
      {x y x' y' : ℕ} → Cong (2 ^ k) x x' → Cong (2 ^ k) y y' → Cong (2 ^ k) (mul w x y) (x' * y')
  unfolding mul
  mul_lem {x} {y} p q = Cong_trans (wrap-Cong (x * y)) (mul-Cong p q)

  pub sub_lem : (x y : ℕ) → Cong (2 ^ k) (sub w x y + y) x
  unfolding sub
  sub_lem x y = Cong_trans (add-Cong (wrap-Cong (x + (2 ^ w - y % 2 ^ w))) (Cong_refl y)) (
      Cong_of_le fits (
        Cong_of_eq 0 (1 + y / 2 ^ w)
          (omega (arith, mod-add-div y (2 ^ w), mod-lt y (two_pow-pos w)))))

  pub shl_lem : {x x' : ℕ} (n : ℕ) → Cong (2 ^ k) x x' → Cong (2 ^ k) (shl w x n) (x' * 2 ^ n)
  unfolding shl
  shl_lem {x} n p = Cong_trans (wrap-Cong (x * 2 ^ n)) (mul-Cong p (Cong_refl (2 ^ n)))

  pub mask_mod : (x : ℕ) → mask w k x ≡ x % 2 ^ k
  unfolding mask
  mask_mod x = ap (bit_and x) (shift_mask_lem w k fits) ∙ bit_and_mask k x

  pub mask_lem : {x x' : ℕ} → Cong (2 ^ k) x x' → Cong (2 ^ k) (mask w k x) x'
  mask_lem {x} p = Cong_trans (Cong_eq (mask_mod x)) (Cong_trans (mod-Cong (2 ^ k) x) p)

  pub mask-lt : (x : ℕ) → mask w k x < 2 ^ k
  mask-lt x = rw (mask_mod x) (mod-lt x (two_pow-pos k))

  pub neg_lem : (y : ℕ) → Cong (2 ^ k) (mul w (all_ones w) y + y) 0
  neg_lem y = Cong_trans (add-Cong (mul_lem (Cong_refl (all_ones w)) (Cong_refl y)) (Cong_refl y)) (
      Cong_of_le fits (
        Cong_of_eq {m = 2 ^ w} 0 y (
          omega (
            arith,
            ap (λ (t : ℕ). t * y) {x = all_ones w + 1} {y = 2 ^ w} (omega (arith, two_pow-pos w)),
          ))))
