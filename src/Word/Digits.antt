-- ===== src/Word/Digits.antt =====
-- The bits that the operators on words leave.
use rss_ring_ppml.Base.{
  ℕ, suc, ◌+◌, ◌*◌, ◌/◌, ◌%◌, ◌^◌, ◌<◌, ◌≡◌, ◌≢◌, ltb, Bool-cases, inl, inr, ◌∙◌, refl, sym, ap,
  arith, bit_and, bit_or, bit_xor,
}
use rss_ring_ppml.Base.Bits.{bit, bit-xor, bit-and, bit-or, bit_and_mask}
use rss_ring_ppml.Base.Digits.{
  bit-div, bit-mod, bit-double, bit-power_same, bit-power_below, bit-power_above, bit-ones,
}
use rss_ring_ppml.Word.{shl, get_bit, set_bit, all_ones}

-- What is left of a bit by the other operand.
pub bit-or_left : (x y j : ℕ) → bit y j ≡ 0 → bit (bit_or x y) j ≡ bit x j
bit-or_left x y j e =
    omega (arith, bit-or x y j, ap (λ (t : ℕ). bit x j * t) {x = bit y j} {y = 0} e)

pub bit-or_right : (x y j : ℕ) → bit x j ≡ 0 → bit (bit_or x y) j ≡ bit y j
bit-or_right x y j e =
    omega (arith, bit-or x y j, ap (λ (t : ℕ). t * bit y j) {x = bit x j} {y = 0} e)

pub bit-and_one : (x y j : ℕ) → bit y j ≡ 1 → bit (bit_and x y) j ≡ bit x j
bit-and_one x y j e =
    omega (arith, bit-and x y j, ap (λ (t : ℕ). bit x j * t) {x = bit y j} {y = 1} e)

pub bit-and_zero : (x y j : ℕ) → bit y j ≡ 0 → bit (bit_and x y) j ≡ 0
bit-and_zero x y j e =
    omega (arith, bit-and x y j, ap (λ (t : ℕ). bit x j * t) {x = bit y j} {y = 0} e)

bit-lowest : (x : ℕ) → bit x 0 ≡ x % 2
unfolding bit
bit-lowest x = refl

pub get_bit-eq : (x n : ℕ) → get_bit x n ≡ bit x n
unfolding get_bit
get_bit-eq x n =
    bit_and_mask 1 (x / 2 ^ n)
    ∙ sym (bit-lowest (x / 2 ^ n))
    ∙ bit-div x n 0
    ∙ ap (bit x) {x = 0 + n} {y = n} (omega arith)

pub bit-shl_zero : (w x : ℕ) → 0 < w → bit (shl w x 1) 0 ≡ 0
unfolding shl bit
bit-shl_zero w x h = bit-mod (x * 2 ^ 1) w 0 h ∙ omega arith

pub bit-shl-suc : (w x j : ℕ) → suc j < w → bit (shl w x 1) (suc j) ≡ bit x j
unfolding shl
bit-shl-suc w x j h = bit-mod (x * 2 ^ 1) w (suc j) h ∙ bit-double x j

bit-shl_same : (w n b : ℕ) → n < w → b < 2 → bit (shl w b n) n ≡ b
unfolding shl
bit-shl_same w n b h small = bit-mod (b * 2 ^ n) w n h ∙ bit-power_same n b small

bit-shl_other : (w n b j : ℕ) → j < w → b < 2 → j ≢ n → bit (shl w b n) j ≡ 0
unfolding shl
bit-shl_other w n b j h small ne = bit-mod (b * 2 ^ n) w j h ∙ elim (Bool-cases (ltb j n)) [
  | inl e ↦ bit-power_below n b j (ground arith)
  | inr e ↦ bit-power_above n b j small (ground arith)
]

-- `~` turns every bit round.
pub bit-flip : (w x j : ℕ) → j < w → bit (bit_xor x (all_ones w)) j ≡ (bit x j + 1) % 2
bit-flip w x j h = bit-xor x (all_ones w) j ∙ ap (λ (t : ℕ). (bit x j + t) % 2) (bit-ones w j h)

pub bit-set_bit_same : (w x n b : ℕ) → n < w → b < 2 → bit (set_bit w x n b) n ≡ b
unfolding set_bit
bit-set_bit_same w x n b h small =
    bit-or_right _ (shl w b n) n (
      bit-and_zero x _ n (
        bit-flip w (shl w 1 n) n h
        ∙ ap (λ (t : ℕ). (t + 1) % 2) {y = 1} (bit-shl_same w n 1 h (omega arith))))
    ∙ bit-shl_same w n b h small

pub bit-set_bit_other : (w x n b j : ℕ) → j < w → b < 2 → j ≢ n → bit (set_bit w x n b) j ≡ bit x j
unfolding set_bit
bit-set_bit_other w x n b j h small ne =
    bit-or_left _ (shl w b n) j (bit-shl_other w n b j h small ne)
    ∙ bit-and_one x _ j (
        bit-flip w (shl w 1 n) j h
        ∙ ap (λ (t : ℕ). (t + 1) % 2) {y = 0} (bit-shl_other w n 1 j h (omega arith) ne))
