-- ===== src/Lt/Values.antt =====
-- The larger and the smaller of two numbers, from the top bit of their difference.
use native.Mathlib.Nat.{mod-eq_of_lt, pow-suc, div-eq_of_lt-le}
use rss_ring_ppml.Base.{
  ℕ, suc, ◌+◌, ◌-◌, ◌*◌, ◌/◌, ◌%◌, ◌^◌, ◌<◌, ◌≤◌, ◌≡◌, inl, inr, ap, arith, ltb, ltb→<, ltb→≥,
  Bool-cases, ◌∙◌, if◌then◌else◌,
}
use rss_ring_ppml.Base.Cong.{Cong, Cong_trans, Cong_of_eq, Cong_eq}

unfoldable pub larger : ℕ → ℕ → ℕ
larger x y = if ltb x y then y else x

unfoldable pub smaller : ℕ → ℕ → ℕ
smaller x y = if ltb x y then x else y

-- Two values whose difference a signed word of `k` bits can hold.
pub record IsClose (k x y : ℕ) : Type 0 where
  pub above : x < y + 2 ^ (k - 1)
  pub below : y ≤ x + 2 ^ (k - 1)

-- `x - y` in Z/2^k, as a number below 2 ^ k.
abbrev pub gap : ℕ → ℕ → ℕ → ℕ
gap k x y = if ltb x y then x + 2 ^ k - y else x - y

abbrev pub is_less : ℕ → ℕ → ℕ
is_less x y = if ltb x y then 1 else 0

pub gap_lem : (k x y : ℕ) → y ≤ x + 2 ^ k → Cong (2 ^ k) (gap k x y + y) x
gap_lem k x y bound = elim (Bool-cases (ltb x y)) [
  | inl e ↦ rw e (Cong_of_eq 0 1 (omega (arith, bound)))
  | inr e ↦ rw e (Cong_eq (omega (arith, ltb→≥ x y e)))
]

pub two_halves : {k : ℕ} → 0 < k → 2 ^ k ≡ 2 ^ (k - 1) * 2
two_halves {k} pos =
    omega (arith, ap (λ (t : ℕ). 2 ^ t) {x = k} {y = suc (k - 1)} (omega arith), pow-suc 2 (k - 1))

module _ {k x y : ℕ} (pos : 0 < k) (close : IsClose k x y) where
  top_of :
      (g q : ℕ)
      → g < 2 ^ k
      → 2 ^ (k - 1) * q ≤ g
      → g < 2 ^ (k - 1) * q + 2 ^ (k - 1)
      → g % 2 ^ k / 2 ^ (k - 1) ≡ q
  top_of g q small low high =
      ap (λ (t : ℕ). t / 2 ^ (k - 1)) (mod-eq_of_lt small)
      ∙ div-eq_of_lt-le {k = q} (2 ^ (k - 1)) (omega (arith, low)) (omega (arith, high))

  pub top-gap : gap k x y % 2 ^ k / 2 ^ (k - 1) ≡ is_less x y
  top-gap = elim (Bool-cases (ltb x y)) [
    | inl e ↦ rw e (
        top_of (x + 2 ^ k - y) 1 (omega (arith, ltb→< x y e, close.below, two_halves pos))
          (omega (arith, close.below, two_halves pos))
          (omega (arith, ltb→< x y e, close.below, two_halves pos)))
    | inr e ↦ rw e (
        top_of (x - y) 0 (omega (arith, close.above, ltb→≥ x y e, two_halves pos)) (omega arith)
          (omega (arith, ltb→≥ x y e, close.above)))
  ]

  -- `[c] * ([b] - [a]) + [a]` and `[c] * ([a] - [b]) + [b]`.
  pub larger_lem : Cong (2 ^ k) (is_less x y * gap k y x + x) (larger x y)
  unfolding larger
  larger_lem = elim (Bool-cases (ltb x y)) [
    | inl e ↦ rw e (Cong_trans (Cong_eq (omega arith)) (gap_lem k y x (omega (arith, ltb→< x y e))))
    | inr e ↦ rw e (Cong_eq (omega arith))
  ]

  pub smaller_lem : Cong (2 ^ k) (is_less x y * gap k x y + y) (smaller x y)
  unfolding smaller
  smaller_lem = elim (Bool-cases (ltb x y)) [
    | inl e ↦ rw e (Cong_of_eq 0 1 (omega (arith, close.below, two_halves pos)))
    | inr e ↦ rw e (Cong_eq (omega arith))
  ]
