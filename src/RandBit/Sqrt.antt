-- ===== src/RandBit/Sqrt.antt =====
-- The loop of `rss_sqrt_inv` lifts a square root and its inverse by one bit a round.
use native.Mathlib.Nat.{pow-suc, mod-eq_of_lt, mod-add-div, zero-mod, add-zero}
use native.Mathlib.Numerals.{add-one}
use mathlib.Core.Path.{subst}
use rss_ring_ppml.Base.{
  ℕ, zero, suc, ◌+◌, ◌-◌, ◌*◌, ◌/◌, ◌%◌, ◌^◌, ◌≤◌, ◌≡◌, refl, ◌∙◌, ap, sym, arith, ◌==◌, ==→≡,
  Bool-cases, inl, inr, bit_and,
}
use rss_ring_ppml.Base.Bits.{bit, zero-bit, mod-bit, bit_and_two_pow}
use rss_ring_ppml.Base.Cong.{
  Cong, Cong_trans, Cong_sym, Cong_refl, Cong_eq, Cong_of_eq, Cong_of_le, Cong-cancel, add-Cong,
  mul-Cong, Cong_modulus, two_pow_split,
}
use rss_ring_ppml.Word.{sub, mul, shl}
use rss_ring_ppml.Word.Laws.{add_lem, mul_lem, sub_lem, two_pow-lt}
use rss_ring_ppml.RandBit.{sqrt_root, sqrt_inverse, sqrt_loop, rss_sqrt_inv}

-- One round in the integers: `s` stands for the error, `t` for its next bit.
root_round :
    (p q h t s e : ℕ)
    → p ≡ 4 * q
    → Cong (p * 2 * 2) (s + (2 * h + 1) * (2 * h + 1)) e
    → Cong (p * 2 * 2) s (t * (p * 2))
    → Cong (p * 2 * 2) ((2 * h + 1 + t * p) * (2 * h + 1 + t * p)) e
root_round p q h t s e four err bit_of =
    Cong_trans
      (Cong_of_eq 0 (h * t + t * t * q) (omega (arith, ap (λ (x : ℕ). t * t * p * x) four)))
      (Cong_trans (add-Cong (Cong_sym bit_of) (Cong_refl ((2 * h + 1) * (2 * h + 1)))) err)

inverse_round :
    (p h u s c2 : ℕ)
    → Cong (p * 2) (s + (2 * h + 1) * c2) 1
    → Cong (p * 2) s (u * p)
    → Cong (p * 2) ((2 * h + 1) * (c2 + u * p)) 1
inverse_round p h u s c2 err bit_of =
    Cong_trans (Cong_of_eq 0 (h * u) (omega arith))
      (Cong_trans (add-Cong (Cong_sym bit_of) (Cong_refl ((2 * h + 1) * c2))) err)

-- A number that vanishes below bit `n` is that bit, modulo the next power.
only_bit : (x n : ℕ) → Cong (2 ^ n) x 0 → Cong (2 ^ suc n) x (bit x n * 2 ^ n)
only_bit x n h =
    Cong_of_eq 0 (x / 2 ^ suc n)
      (omega (arith, mod-bit n x, h.same, mod-add-div x (2 ^ suc n), zero-mod (2 ^ n)))

-- At position `j`: a root modulo `2 ^ (j + 1)`, and its inverse modulo `2 ^ j`.
record IsRoot (j e c1 c2 : ℕ) : Type 0 where
  odd : c1 % 2 ≡ 1
  root : Cong (2 ^ suc j) (c1 * c1) e
  inverse : Cong (2 ^ j) (c1 * c2) 1

module _ {w j e c1 c2 : ℕ} (fits : suc (suc j) ≤ w) (inv : IsRoot j e c1 c2) where
  abbrev error : ℕ
  error = sub w e (mul w c1 c1)

  abbrev root' : ℕ
  root' = sqrt_root w e (2 ^ j) c1

  error_lem : Cong (2 ^ suc (suc j)) (error + c1 * c1) e
  error_lem =
      Cong_trans
        (add-Cong (Cong_refl error) (Cong_sym (mul_lem fits (Cong_refl c1) (Cong_refl c1))))
        (sub_lem fits e (mul w c1 c1))

  error_bit : Cong (2 ^ suc (suc j)) error (bit error (suc j) * 2 ^ suc j)
  error_bit = only_bit error (suc j) (
      Cong-cancel
        (Cong_trans (Cong_of_le (omega arith) error_lem)
          (Cong_trans (Cong_sym inv.root) (Cong_eq (omega arith))))
        (Cong_refl (c1 * c1)))

  double : shl w (2 ^ j) 1 ≡ 2 ^ suc j
  unfolding shl
  double =
      ap (λ (t : ℕ). t % 2 ^ w) {x = 2 ^ j * 2 ^ 1} {y = 2 ^ suc j} (omega (arith, pow-suc 2 j))
      ∙ mod-eq_of_lt (two_pow-lt fits)

  root'_lem : Cong (2 ^ suc (suc j)) root' (c1 + bit error (suc j) * 2 ^ j)
  unfolding sqrt_root
  root'_lem = elim (Bool-cases (error == 0)) [
    | inl none_left ↦ rw none_left (
        Cong_eq (
          omega (
            arith,
            ap (λ (t : ℕ). bit t (suc j) * 2 ^ j) (==→≡ error 0 none_left),
            ap (λ (t : ℕ). t * 2 ^ j) (zero-bit (suc j)),
          )))
    | inr some_left ↦ rw some_left (
        add_lem fits (Cong_refl c1) (
          Cong_eq (
            ap (λ (t : ℕ). bit_and error t / 2 ^ 1) double
            ∙ ap (λ (t : ℕ). t / 2 ^ 1) (bit_and_two_pow (suc j) error)
            ∙ omega (arith, ap (λ (t : ℕ). bit error (suc j) * t) (pow-suc 2 j)))))
  ]

  odd_form : 2 * (c1 / 2) + 1 ≡ c1
  odd_form = omega (arith, inv.odd)

  two_pow_4 : 2 ^ suc (suc j) ≡ 2 ^ j * 2 * 2
  two_pow_4 = omega (arith, pow-suc 2 (suc j), pow-suc 2 j)

  root'-root : 2 ≤ j → Cong (2 ^ suc (suc j)) (root' * root') e
  root'-root two = Cong_trans (mul-Cong root'_lem root'_lem) (
      Cong_trans
        (Cong_eq (
          ap (λ (t : ℕ). (t + bit error (suc j) * 2 ^ j) * (t + bit error (suc j) * 2 ^ j))
            (sym odd_form)))
        (Cong_modulus (sym two_pow_4) (
          root_round (2 ^ j) (2 ^ (j - 2)) (c1 / 2) (bit error (suc j)) error e (two_pow_split two)
            (Cong_modulus two_pow_4
              (Cong_trans (Cong_eq (ap (λ (t : ℕ). error + t * t) odd_form)) error_lem))
            (Cong_modulus two_pow_4 (
              Cong_trans error_bit
                (Cong_eq (ap (λ (t : ℕ). bit error (suc j) * t) (pow-suc 2 j))))))))

  root'-odd : 2 ≤ j → root' % 2 ≡ 1
  root'-odd two = omega (
    arith,
    (Cong_of_le {k = 1} (omega arith) root'_lem).same,
    inv.odd,
    ap (λ (t : ℕ). bit error (suc j) * t) (two_pow_split two),
  )

  root'-inverse : Cong (2 ^ j) (root' * c2) 1
  root'-inverse =
      Cong_trans (mul-Cong (Cong_of_le (omega arith) root'_lem) (Cong_refl c2))
        (Cong_trans (Cong_of_eq 0 (bit error (suc j) * c2) (omega arith)) inv.inverse)

-- The inverse gains a bit.
module _ {w j : ℕ} (c1 c2 : ℕ) (fits : suc j ≤ w) (odd : c1 % 2 ≡ 1)
    (inverse : Cong (2 ^ j) (c1 * c2) 1) where
  abbrev lack : ℕ
  lack = sub w 1 (mul w c1 c2)

  lack_lem : Cong (2 ^ suc j) (lack + c1 * c2) 1
  lack_lem =
      Cong_trans (add-Cong (Cong_refl lack) (Cong_sym (mul_lem fits (Cong_refl c1) (Cong_refl c2))))
        (sub_lem fits 1 (mul w c1 c2))

  lack_bit : Cong (2 ^ suc j) lack (bit lack j * 2 ^ j)
  lack_bit = only_bit lack j (
      Cong-cancel
        (Cong_trans (Cong_of_le (omega arith) lack_lem)
          (Cong_trans (Cong_sym inverse) (Cong_eq (omega arith))))
        (Cong_refl (c1 * c2)))

  sqrt_inverse_lem : Cong (2 ^ suc j) (c1 * sqrt_inverse w (2 ^ j) c1 c2) 1
  unfolding sqrt_inverse
  sqrt_inverse_lem =
      Cong_trans
        (mul-Cong (Cong_refl c1) (add_lem fits (Cong_refl c2) (Cong_eq (bit_and_two_pow j lack))))
        (Cong_trans (Cong_eq (ap (λ (t : ℕ). t * (c2 + bit lack j * 2 ^ j)) (sym odd_form'))) (
          Cong_modulus (sym (pow-suc 2 j)) (
            inverse_round (2 ^ j) (c1 / 2) (bit lack j) lack c2
              (Cong_modulus (pow-suc 2 j)
                (Cong_trans (Cong_eq (ap (λ (t : ℕ). lack + t * c2) odd_form')) lack_lem))
              (Cong_modulus (pow-suc 2 j) lack_bit))))
    where
      odd_form' : 2 * (c1 / 2) + 1 ≡ c1
      odd_form' = omega (arith, odd)

-- An odd number whose square is the inverse of `e` in Z/2^n.
pub record IsInverseRoot (n e c : ℕ) : Type 0 where
  pub odd : c % 2 ≡ 1
  pub unit : Cong (2 ^ n) (c * c * e) 1

last_round :
    {w j e c1 c2 : ℕ}
    → suc j ≤ w
    → IsRoot j e c1 c2
    → IsInverseRoot (suc j) e (sqrt_inverse w (2 ^ j) c1 c2)
last_round {w} {j} {e} {c1} {c2} fits inv = record {
  odd = omega (
    arith,
    (Cong_of_le {k = 1} (omega arith) inverse').same,
    ap (λ (t : ℕ). t * c) {x = 2 * (c1 / 2) + 1} {y = c1} (omega (arith, inv.odd)),
  );
  unit =
      Cong_trans (mul-Cong (Cong_refl (c * c)) (Cong_sym inv.root))
        (Cong_trans (Cong_eq (omega arith)) (mul-Cong inverse' inverse'));
}
  where
    c : ℕ
    c = sqrt_inverse w (2 ^ j) c1 c2

    inverse' : Cong (2 ^ suc j) (c1 * c) 1
    inverse' = sqrt_inverse_lem c1 c2 fits inv.odd inv.inverse

-- With the invariant at `j`, the rounds that are left return an inverse root.
sqrt_loop_lem :
    {w : ℕ} (left j : ℕ) {e c1 c2 : ℕ}
    → 2 ≤ j
    → j + left + 1 ≤ w
    → IsRoot j e c1 c2
    → IsInverseRoot (j + left + 1) e (sqrt_loop w e left (2 ^ j) c1 c2)
unfolding sqrt_loop
sqrt_loop_lem {w} zero j {e} {c1} {c2} two fits inv =
    rw (add-zero, add-one) (last_round {w = w} (omega arith) inv)
sqrt_loop_lem {w} (suc left) j {e} {c1} {c2} two fits inv =
    let fits' : suc (suc j) ≤ w = omega arith in
    let c1' = sqrt_root w e (2 ^ j) c1 in
    rw (double fits' inv) (
      subst
        (λ (n : ℕ).
          IsInverseRoot n e (sqrt_loop w e left (2 ^ suc j) c1' (sqrt_inverse w (2 ^ j) c1' c2)))
        {x = suc j + left + 1} (omega arith)
        (sqrt_loop_lem left (suc j) (omega arith) (omega arith) (record {
          odd = root'-odd fits' inv two;
          root = root'-root fits' inv two;
          inverse =
              sqrt_inverse_lem c1' c2 (omega arith) (root'-odd fits' inv two)
                (root'-inverse fits' inv);
        })))

-- For a ring size from 3 to the width of a word, and an `e` that is 1 modulo 8, as the square of
-- an odd number is, `rss_sqrt_inv` returns an odd `c` with `c * c * e` congruent to 1 modulo `2 ^
-- ring_size`.
pub rss_sqrt_inv_lem :
    {w : ℕ} (n e : ℕ) → 3 ≤ n → n ≤ w → Cong 8 e 1 → IsInverseRoot n e (rss_sqrt_inv w n e)
unfolding rss_sqrt_inv
rss_sqrt_inv_lem {w} n e three fits square =
    subst (λ (m : ℕ). IsInverseRoot m e (sqrt_loop w e (n - 1 - 2) 4 1 1)) {x = 2 + (n - 1 - 2) + 1}
      (omega arith)
      (sqrt_loop_lem (n - 1 - 2) 2 (omega arith) (omega arith)
        (record { odd = refl; root = Cong_sym square; inverse = record { same = refl } }))
