-- ===== src/Convert/Bits.antt =====
-- Words put together from shared bits, and numbers from shares of their bits.
use native.Mathlib.Nat.{pow-suc, mod-eq_of_lt, add-mul-mod_self_right}
use rss_ring_ppml.Base.{
  ℕ, zero, suc, ◌+◌, ◌*◌, ◌/◌, ◌%◌, ◌^◌, ◌≤◌, ◌<◌, ◌≡◌, ◌∙◌, ap, sym, refl, arith, ltb, ltb→<,
  ltb→≥, Bool-cases, inl, inr, bit_xor,
}
use rss_ring_ppml.Base.Bits.{bit, bit-lt, bit-xor, bit-eq_of_mod, mod-bit}
use rss_ring_ppml.Base.Cong.{Cong_trans, Cong_refl, Cong_eq, mod-Cong}
use rss_ring_ppml.Base.Digits.{bit_cases}
use rss_ring_ppml.Word.{add, shl}
use rss_ring_ppml.Word.Laws.{add_lem, shl_lem}
use rss_ring_ppml.Word.Digits.{get_bit-eq, bit-set_bit_same, bit-set_bit_other}
use rss_ring_ppml.Word.Memory.{Array}
use rss_ring_ppml.Net.{World}
use rss_ring_ppml.Share.{Shares, IsShared, IsXorShared}
use rss_ring_ppml.Share.Laws.{IsShared_congr}
use rss_ring_ppml.Share.Linear.{IsShared_value, IsShared_move, IsShared_sum, IsShared_times}
use rss_ring_ppml.Share.Xor.{IsShared_of_le, zeros-IsShared}
use rss_ring_ppml.MatMult.Correct.{row_at}
use rss_ring_ppml.BitLt.Store.{get_bit-lt}
use rss_ring_ppml.BitAdd.Sum.{bit-quotient}
use rss_ring_ppml.Convert.{set_bits, sum_bits}

-- The number with the given bits.
unfoldable pub number : (ℕ → ℕ) → ℕ → ℕ
number b zero = 0
number b (suc k) = number b k + b k * 2 ^ k

pub number-bit : (v k : ℕ) → number (bit v) k ≡ v % 2 ^ k
unfolding number
number-bit v zero = omega arith
number-bit v (suc k) = omega (arith, number-bit v k, mod-bit k v)

module _ (b : ℕ → ℕ) (small : (t : ℕ) → b t < 2) where
  number-lt : (k : ℕ) → number b k < 2 ^ k
  unfolding number
  number-lt zero = omega arith
  number-lt (suc k) = elim (bit_cases (b k) (small k)) [
    | inl e ↦ rw e (omega (arith, number-lt k, pow-suc 2 k))
    | inr e ↦ rw e (omega (arith, number-lt k, pow-suc 2 k))
  ]

  pub bit-number : (k t : ℕ) → t < k → bit (number b k) t ≡ b t
  unfolding number
  bit-number zero t h = absurd (omega arith)
  bit-number (suc k) t h = elim (Bool-cases (ltb t k)) [
    | inl e ↦
        bit-eq_of_mod k (number b k + b k * 2 ^ k) (number b k) t (ltb→< t k e)
          (add-mul-mod_self_right (number b k) (b k) (2 ^ k))
        ∙ bit-number k t (ltb→< t k e)
    | inr e ↦
        let last : t ≡ k = omega (arith, h, ltb→≥ t k e) in
        rw last (
          bit-quotient (number b k + b k * 2 ^ k) k
          ∙ ap (λ (z : ℕ). z % 2) {x = (number b k + b k * 2 ^ k) / 2 ^ k} {y = b k}
              (ap (λ (z : ℕ). z / 2 ^ k) {x = number b k + b k * 2 ^ k}
                  {y = b k * 2 ^ k + number b k} (omega arith)
                ∙ row_at (2 ^ k) (b k) (number b k) (number-lt k))
          ∙ mod-eq_of_lt (small k))
  ]

-- `bit_xor` acts on each bit.
pub bit-bit_xor : (x y t : ℕ) → bit (bit_xor x y) t ≡ bit_xor (bit x t) (bit y t)
bit-bit_xor x y t = bit-xor x y t ∙ elim (bit_cases (bit x t) (bit-lt x t)) [
  | inl x0 ↦ elim (bit_cases (bit y t) (bit-lt y t)) [
    | inl y0 ↦ rw (x0, y0) refl
    | inr y1 ↦ rw (x0, y1) refl
  ]
  | inr x1 ↦ elim (bit_cases (bit y t) (bit-lt y t)) [
    | inl y0 ↦ rw (x1, y0) refl
    | inr y1 ↦ rw (x1, y1) refl
  ]
]

-- Bit `t` of the word is the lowest bit of element `start + t`.
bit-set_bits :
    (w : ℕ) (r : Array) (start k x t : ℕ)
    → k ≤ w
    → t < k
    → bit (set_bits w r start k x) t ≡ bit (r (start + t)) 0
unfolding set_bits
bit-set_bits w r start zero x t le h = absurd (omega arith)
bit-set_bits w r start (suc k) x t le h = elim (Bool-cases (ltb t k)) [
  | inl e ↦
      bit-set_bit_other w _ k _ t (omega (arith, le, h)) (get_bit-lt _ 0)
        (λ eq. absurd (omega (arith, eq, ltb→< t k e)))
      ∙ bit-set_bits w r start k x t (omega (arith, le)) (ltb→< t k e)
  | inr e ↦
      let last : t ≡ k = omega (arith, h, ltb→≥ t k e) in
      rw last (
        bit-set_bit_same w _ k _ (omega (arith, le)) (get_bit-lt _ 0)
        ∙ get_bit-eq (r (start + k)) 0)
]

-- Words put together from shared bits share the number with these bits.
pub set_bits-IsXorShared :
    {w k m i : ℕ} (start : ℕ) (le : k ≤ w) (a words x : World Shares) (b : ℕ → ℕ)
    → 0 < m
    → ((t : ℕ) → b t < 2)
    → ((pid s : ℕ) → words pid s i ≡ set_bits w (a pid s) start k (x pid s i))
    → ((t : ℕ) → t < k → IsShared m a (start + t) (b t))
    → IsXorShared k words i (number b k)
set_bits-IsXorShared {w} {k} {m} {i} start le a words x b pos small e s = record {
  at_bit = λ t lt. IsShared_value (Cong_eq (sym (bit-number b small k t lt))) (
      IsShared_congr (λ pid s' n. a pid s' (start + t)) (λ pid s' n. bit (words pid s' n) t)
        (λ pid s'.
          Cong_trans
            (Cong_eq (
              ap (λ (z : ℕ). bit z t) (e pid s')
              ∙ bit-set_bits w (a pid s') start k (x pid s' i) t le lt))
            (unfold bit in mod-Cong 2 (a pid s' (start + t))))
        (IsShared_move a (λ pid s' n. a pid s' (start + t)) (λ pid s'. refl)
          (IsShared_of_le pos (s t lt))));
}

-- Sums of shared bits share the number with these bits.
pub sum_bits-IsShared :
    {w m : ℕ} (fits : m ≤ w) (a : World Shares) (b : ℕ → ℕ) (start i k : ℕ)
    → ((t : ℕ) → t < k → IsShared m a (start + t) (b t))
    → IsShared m (λ pid s n. sum_bits w (a pid s) start k 0) i (number b k)
unfolding sum_bits number
sum_bits-IsShared {m = m} fits a b start i zero s = zeros-IsShared m i
sum_bits-IsShared {w} {m} fits a b start i (suc k) s = IsShared_value (Cong_eq (omega arith)) (
    IsShared_congr (λ pid s' n. sum_bits w (a pid s') start k 0 + 2 ^ k * a pid s' (start + k))
      (λ pid s' n. add w (sum_bits w (a pid s') start k 0) (shl w (a pid s' (start + k)) k))
      (λ pid s'.
        add_lem fits (Cong_refl _)
          (Cong_trans (shl_lem fits k (Cong_refl (a pid s' (start + k)))) (Cong_eq (omega arith))))
      (IsShared_sum (λ pid s' n. sum_bits w (a pid s') start k 0)
        (λ pid s' n. 2 ^ k * a pid s' (start + k))
        (sum_bits-IsShared fits a b start i k (λ t lt. s t (omega (arith, lt))))
        (IsShared_times (2 ^ k) (λ pid s' n. a pid s' (start + k))
          (IsShared_move a (λ pid s' n. a pid s' (start + k)) (λ pid s'. refl)
            (s k (omega arith))))))
