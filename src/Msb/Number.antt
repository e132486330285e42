-- ===== src/Msb/Number.antt =====
-- The numbers behind `new_Rss_MSB`: a masked value, its low part and its top bit.
use native.Mathlib.Nat.{
  mod-lt, mod-eq_of_lt, pow-suc, add-mod_right, mul-div_cancel, mul-add-div_right, div-eq_of_lt,
}
use rss_ring_ppml.Base.{
  ℕ, zero, suc, ◌+◌, ◌-◌, ◌*◌, ◌/◌, ◌%◌, ◌^◌, ◌≤◌, ◌<◌, ◌≡◌, ◌∙◌, sym, ap, arith, bit_xor, ltb,
  lt→ltb, ≥→ltb, refl, if◌then◌else◌, Bool-cases, inl, inr,
}
use rss_ring_ppml.Base.Bits.{bit, bit-lt, mod-bit}
use rss_ring_ppml.Base.Digits.{bit-mod, bit-div, bit_xor-lt}
use rss_ring_ppml.Base.Cong.{
  Cong, Cong_trans, Cong_sym, Cong_eq, Cong_refl, Cong→eq, Cong_of_eq, add-Cong, Cong_of_le,
  mod-Cong,
}
use rss_ring_ppml.Word.Laws.{two_pow-pos}
use rss_ring_ppml.BitLt.Bytes.{bit_xor-Cong}
use rss_ring_ppml.BitLt.Correct.{is_less}

-- The carry of the low parts is what the comparison of the masked low part with the mask finds.
carry_compare :
    (t x r c : ℕ) → x < t → r < t → c ≡ (x + r) % t → t * (if ltb c r then 1 else 0) + c ≡ x + r
carry_compare t x r c hx hr e = elim (Bool-cases (ltb (x + r) t)) [
  | inl f ↦ small (ground arith)
  | inr f ↦ large (ground arith)
]
  where
    wrapped : t ≤ x + r → (x + r) % t ≡ x + r - t
    wrapped h =
        ap (λ (m : ℕ). m % t) {x = x + r} {y = x + r - t + t} (omega arith)
        ∙ add-mod_right (x + r - t) t
        ∙ mod-eq_of_lt (omega arith)

    small : x + r < t → t * (if ltb c r then 1 else 0) + c ≡ x + r
    small h =
        let value : c ≡ x + r = e ∙ mod-eq_of_lt h in rw (≥→ltb c r (omega arith)) (omega arith)

    large : t ≤ x + r → t * (if ltb c r then 1 else 0) + c ≡ x + r
    large h =
        let value : c ≡ x + r - t = e ∙ wrapped h in rw (lt→ltb c r (omega arith)) (omega arith)

next-le : (n : ℕ) → n ≤ suc n
next-le n = omega arith

bit-multiple : (m n : ℕ) → bit (m * 2 ^ n) n ≡ m % 2
unfolding bit
bit-multiple m n =
    ap (bit (m * 2 ^ n)) {x = n} {y = 0 + n} (omega arith)
    ∙ sym (bit-div (m * 2 ^ n) n 0)
    ∙ ap (λ (t : ℕ). t % 2) (mul-div_cancel m (two_pow-pos n))

module _ (n x r : ℕ) where
  abbrev pub low_open : ℕ
  low_open = (x + r) % 2 ^ suc n % 2 ^ n

  abbrev pub low_mask : ℕ
  low_mask = r % 2 ^ n

  low_open-eq : low_open ≡ (x % 2 ^ n + low_mask) % 2 ^ n
  low_open-eq =
      (Cong_of_le {x = (x + r) % 2 ^ suc n} {y = x + r} (next-le n)
        (mod-Cong (2 ^ suc n) (x + r))).same
      ∙ (Cong_sym (add-Cong (mod-Cong (2 ^ n) x) (mod-Cong (2 ^ n) r))).same

  masked_top_lem :
      (v : ℕ)
      → Cong
          (2 ^ suc n)
          (2 ^ n * (bit x n + v) + (2 ^ n * is_less (suc n) low_open low_mask + low_open))
          (x + low_mask + 2 ^ n * v)
  masked_top_lem v =
      rw (less, carried)
        (Cong_trans
          (Cong_eq {y = bit x n * 2 ^ n + x % 2 ^ n + (low_mask + 2 ^ n * v)} (omega arith))
          (rw (sym (mod-bit n x)) (
            Cong_trans (add-Cong (mod-Cong (2 ^ suc n) x) (Cong_refl (low_mask + 2 ^ n * v)))
              (Cong_eq (omega arith)))))
    where
      short : (y : ℕ) → y % 2 ^ n % 2 ^ suc n ≡ y % 2 ^ n
      short y = mod-eq_of_lt (omega (arith, pow-suc 2 n, mod-lt y (two_pow-pos n)))

      less : is_less (suc n) low_open low_mask ≡ (if ltb low_open low_mask then 1 else 0)
      less = rw (short ((x + r) % 2 ^ suc n), short r) refl

      carried : 2 ^ n * (if ltb low_open low_mask then 1 else 0) + low_open ≡ x % 2 ^ n + low_mask
      carried =
          carry_compare (2 ^ n) (x % 2 ^ n) low_mask low_open (mod-lt x (two_pow-pos n))
            (mod-lt r (two_pow-pos n)) low_open-eq

  opened_top : (v : ℕ) → v < 2 → bit (2 ^ n * (bit x n + v) % 2 ^ suc n) n ≡ bit_xor (bit x n) v
  opened_top v h =
      bit-mod (2 ^ n * (bit x n + v)) (suc n) n (omega arith)
      ∙ ap (λ (t : ℕ). bit t n) {x = 2 ^ n * (bit x n + v)} {y = (bit x n + v) * 2 ^ n}
          (omega arith)
      ∙ bit-multiple (bit x n + v) n
      ∙ sym (bit_xor-Cong (bit x n) v).same
      ∙ mod-eq_of_lt (bit_xor-lt (bit x n) v (bit-lt x n) h)

-- The same at a ring size `k` above 0.
pub masked_top_pos :
    (k x r v : ℕ)
    → 0 < k
    → Cong
        (2 ^ k)
        (2 ^ (k - 1) * (bit x (k - 1) + v)
          + (2 ^ (k - 1) * is_less k ((x + r) % 2 ^ k % 2 ^ (k - 1)) (r % 2 ^ (k - 1))
              + (x + r) % 2 ^ k % 2 ^ (k - 1)))
        (x + r % 2 ^ (k - 1) + 2 ^ (k - 1) * v)
masked_top_pos zero x r v pos = absurd (omega arith)
masked_top_pos (suc n) x r v pos =
    let lower : suc n - 1 ≡ n = omega arith in rw lower (masked_top_lem n x r v)

pub opened_top_pos :
    (k x v : ℕ)
    → 0 < k
    → v < 2
    → bit (2 ^ (k - 1) * (bit x (k - 1) + v) % 2 ^ k) (k - 1) ≡ bit_xor (bit x (k - 1)) v
opened_top_pos zero x v pos h = absurd (omega arith)
opened_top_pos (suc n) x v pos h =
    let lower : suc n - 1 ≡ n = omega arith in rw lower (opened_top n x 0 v h)

-- The top bit of a number that fits, and the number without it.
pub top_and_rest : (k x : ℕ) → 0 < k → x < 2 ^ k → x % 2 ^ (k - 1) + 2 ^ (k - 1) * bit x (k - 1) ≡ x
top_and_rest zero x pos h = absurd (omega arith)
top_and_rest (suc n) x pos h =
    let lower : suc n - 1 ≡ n = omega arith in
    rw lower (omega (arith, mod-bit n x, mod-eq_of_lt {n = x} {m = 2 ^ suc n} h))

pub top_scale : (k x y : ℕ) → 0 < k → Cong 2 x y → Cong (2 ^ k) (2 ^ (k - 1) * x) (2 ^ (k - 1) * y)
top_scale zero x y pos h = absurd (omega arith)
top_scale (suc n) x y pos h =
    let lower : suc n - 1 ≡ n = omega arith in
    rw lower (
      Cong_of_eq (y / 2) (x / 2) (
        omega (
          arith,
          ap (λ (t : ℕ). 2 ^ n * t) (Cong→eq h),
          ap (λ (t : ℕ). t * (y / 2)) (pow-suc 2 n),
          ap (λ (t : ℕ). t * (x / 2)) (pow-suc 2 n),
        )))

pub top_bit-eq : (k x : ℕ) → 0 < k → x % 2 ^ k / 2 ^ (k - 1) ≡ bit x (k - 1)
top_bit-eq zero x pos = absurd (omega arith)
top_bit-eq (suc n) x pos =
    let lower : suc n - 1 ≡ n = omega arith in
    rw (lower, mod-bit n x)
      (mul-add-div_right (two_pow-pos n) (bit x n) (x % 2 ^ n)
        ∙ omega (arith, div-eq_of_lt (mod-lt x (two_pow-pos n))))
