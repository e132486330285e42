-- ===== src/Trunc/Number.antt =====
-- The number that the shares of a truncation add up to.
use native.Mathlib.Nat.{mod-add-div, mod-lt, mod-eq_of_lt, div-lt_iff_lt-mul}
use rss_ring_ppml.Base.{
  ℕ, ◌+◌, ◌-◌, ◌*◌, ◌/◌, ◌%◌, ◌<◌, ◌≤◌, ◌≡◌, ◌⊎◌, inl, inr, ◌∙◌, refl, ap, arith, ltb, ltb→<, ltb→≥,
  Bool-cases,
}
use rss_ring_ppml.MatMult.Correct.{row_at, column_at}

sum_div_cases :
    (m x y : ℕ) → 0 < m → ((x + y) / m ≡ x / m + y / m) ⊎ ((x + y) / m ≡ x / m + y / m + 1)
sum_div_cases m x y pos = elim (Bool-cases (ltb (x % m + y % m) m)) [
  | inl e ↦ inl (
      ap (λ (t : ℕ). t / m) {x = x + y} {y = (x / m + y / m) * m + (x % m + y % m)}
        (omega (arith, mod-add-div x m, mod-add-div y m))
      ∙ row_at m (x / m + y / m) (x % m + y % m) (ltb→< _ _ e))
  | inr e ↦ inr (
      ap (λ (t : ℕ). t / m) {x = x + y} {y = (x / m + y / m + 1) * m + (x % m + y % m - m)}
        (omega (arith, mod-add-div x m, mod-add-div y m, ltb→≥ _ _ e))
      ∙ row_at m (x / m + y / m + 1) (x % m + y % m - m)
          (omega (arith, ltb→≥ _ _ e, mod-lt x pos, mod-lt y pos)))
]

-- A number of a top digit `t` over `c0`, below `m * q`.
module _ (m q t c0 : ℕ) (pos : 0 < m) (low : c0 < m * q) where
  pub shifted : (t * (m * q) + c0) / m ≡ t * q + c0 / m
  shifted =
      ap (λ (n : ℕ). n / m) {x = t * (m * q) + c0} {y = (t * q + c0 / m) * m + c0 % m}
        (omega (arith, mod-add-div c0 m))
      ∙ row_at m (t * q + c0 / m) (c0 % m) (mod-lt c0 pos)

  low_digits : (t * (m * q) + c0) / m % q ≡ c0 / m
  low_digits =
      ap (λ (n : ℕ). n % q) shifted
      ∙ column_at q t (c0 / m) ((div-lt_iff_lt-mul {x = c0} {y = q} pos).1 (omega (arith, low)))

-- A quotient of `x` by `m`, up to one too large, that `v` is missing to `u`.
pub record Quotient (m x u v : ℕ) : Type 0 where
  pub result : ℕ
  pub at_least : x / m ≤ result
  pub at_most : result ≤ x / m + 1
  pub equation : result + v ≡ u

abbrev pub minuend : ℕ → ℕ → ℕ → ℕ → ℕ
minuend m q r c = c / m % q + q * (c / (m * q)) + q * 2 * (r / (m * q))

abbrev pub subtrahend : ℕ → ℕ → ℕ → ℕ → ℕ
subtrahend m q r c = r / m + q * (c / (m * q)) * 2 * (r / (m * q))

-- The top digits of `r`, of the carry of `x + r0`, and of the sum.
of_digits :
    (m q x rt r0 carry ct c0 : ℕ)
    → 0 < m
    → r0 < m * q
    → c0 < m * q
    → x + r0 ≡ carry * (m * q) + c0
    → carry + rt + 2 * ct * rt ≡ ct + 2 * rt
    → Quotient m x
        (minuend m q (rt * (m * q) + r0) (ct * (m * q) + c0))
        (subtrahend m q (rt * (m * q) + r0) (ct * (m * q) + c0))
of_digits m q x rt r0 carry ct c0 pos small_r small_c sum table = record {
  result = (x + r0) / m - r0 / m;
  at_least = ground (arith, sum_div_cases m x r0 pos);
  at_most = ground (arith, sum_div_cases m x r0 pos);
  equation =
      rw
        (
          row_at (m * q) rt r0 small_r,
          row_at (m * q) ct c0 small_c,
          low_digits m q ct c0 pos small_c,
          shifted m q rt r0 pos small_r,
        )
        (omega (
          arith,
          no_less,
          ap (λ (t : ℕ). t / m) sum ∙ shifted m q carry c0 pos small_c,
          ap (λ (t : ℕ). q * t) table,
        ));
}
  where
    no_less : r0 / m ≤ (x + r0) / m
    no_less = ground (arith, sum_div_cases m x r0 pos)

of_equations :
    (m q x r c rt r0 carry ct c0 : ℕ)
    → 0 < m
    → r ≡ rt * (m * q) + r0
    → c ≡ ct * (m * q) + c0
    → r0 < m * q
    → c0 < m * q
    → x + r0 ≡ carry * (m * q) + c0
    → carry + rt + 2 * ct * rt ≡ ct + 2 * rt
    → Quotient m x (minuend m q r c) (subtrahend m q r c)
of_equations m q x r c rt r0 carry ct c0 pos of_r of_c small_r small_c sum table =
    rw (of_r, of_c) (of_digits m q x rt r0 carry ct c0 pos small_r small_c sum table)

module _ (m q x r c : ℕ) (pos : 0 < m) (small_x : x < m * q)
    (opened : c ≡ (x + r) % (m * q * 2)) where
  no_wrap : x + r < m * q * 2 → c ≡ x + r
  no_wrap h = opened ∙ mod-eq_of_lt h

  low_r : r < m * q → Quotient m x (minuend m q r c) (subtrahend m q r c)
  low_r small = elim (Bool-cases (ltb (x + r) (m * q))) [
    | inl e ↦
        of_equations m q x r c 0 r 0 0 (x + r) pos (omega arith)
          (no_wrap (omega (arith, ltb→< _ _ e)) ∙ omega arith) small (ltb→< _ _ e) (omega arith)
          refl
    | inr e ↦
        of_equations m q x r c 0 r 1 1 (x + r - m * q) pos (omega arith)
          (no_wrap (omega (arith, small)) ∙ omega (arith, ltb→≥ _ _ e)) small
          (omega (arith, small, ltb→≥ _ _ e)) (omega (arith, ltb→≥ _ _ e)) refl
  ]

  high_r : m * q ≤ r → r < m * q * 2 → Quotient m x (minuend m q r c) (subtrahend m q r c)
  high_r large small = elim (Bool-cases (ltb (x + r) (m * q * 2))) [
    | inl e ↦
        of_equations m q x r c 1 (r - m * q) 0 1 (x + r - m * q) pos (omega (arith, large))
          (no_wrap (ltb→< _ _ e) ∙ omega (arith, large)) (omega (arith, small, large))
          (omega (arith, ltb→< _ _ e, large)) (omega (arith, large)) refl
    | inr e ↦
        of_equations m q x r c 1 (r - m * q) 1 0 (x + r - m * q * 2) pos (omega (arith, large))
          (opened
            ∙ ap (λ (t : ℕ). t % (m * q * 2)) {x = x + r}
                {y = 1 * (m * q * 2) + (x + r - m * q * 2)} (omega (arith, ltb→≥ _ _ e))
            ∙ column_at (m * q * 2) 1 (x + r - m * q * 2) (omega (arith, small, small_x))
            ∙ omega arith)
          (omega (arith, small, large)) (omega (arith, small, small_x))
          (omega (arith, large, ltb→≥ _ _ e)) refl
  ]

  -- For an opened sum `c` of `x` and of a random `r`.
  pub Quotient-of_sum : r < m * q * 2 → Quotient m x (minuend m q r c) (subtrahend m q r c)
  Quotient-of_sum small = elim (Bool-cases (ltb r (m * q))) [
    | inl e ↦ low_r (ltb→< _ _ e)
    | inr e ↦ high_r (ltb→≥ _ _ e) small
  ]
