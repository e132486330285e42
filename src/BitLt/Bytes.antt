-- ===== src/BitLt/Bytes.antt =====
-- Pairs that the parties share, and the bytes that the words of the buffer are cut into.
use native.Mathlib.Nat.{
  mul-le-mul_right, add-mul-div_right, add-mul-mod_self_right, div-eq_of_lt, mod-eq_of_lt,
}
use rss_ring_ppml.Base.{ℕ, ◌+◌, ◌*◌, ◌/◌, ◌%◌, ◌<◌, ◌≡◌, ◌∙◌, ap, arith, bit_xor}
use rss_ring_ppml.Base.Bits.{bit, bit-xor}
use rss_ring_ppml.Base.Cong.{Cong}
use rss_ring_ppml.Word.Memory.{for_each_at}
use rss_ring_ppml.Net.{World}
use rss_ring_ppml.Share.{Shares, IsShared}
use rss_ring_ppml.BitLt.{Pairs, split_bytes}
use rss_ring_ppml.BitLt.Words.{byte-bit}

-- The `r` low positions hold shares of the pairs `p` and `g`, by exclusive or.
pub record HasPairs (r : ℕ) (d : Pairs) (i : ℕ) (p g : ℕ → ℕ) : Type 0 where
  pub p_bit : (j : ℕ) → j < r → IsShared 1 (λ pid s n. bit (d.p pid s n) j) i (p j)
  pub g_bit : (j : ℕ) → j < r → IsShared 1 (λ pid s n. bit (d.g pid s n) j) i (g j)

module _ (n size : ℕ) (x bytes : World Shares) {i c : ℕ} (h : i < size) (lt : c < n) where
  pub split-lt : c + i * n < n * size
  split-lt = omega (arith, mul-le-mul_right {m = i + 1} {n = size} n (omega arith))

  pub split_bytes-bit :
      (l m pid s : ℕ)
      → l < 8
      → l + 8 * c ≡ m
      → bit (split_bytes n size x bytes pid s (c + i * n)) l ≡ bit (x pid s i) m
  unfolding split_bytes
  split_bytes-bit l m pid s small e =
      ap (λ (t : ℕ). bit t l) (for_each_at (n * size) _ (bytes pid s) split-lt)
      ∙ rw (quotient, rest) (byte-bit (x pid s i) c l m n small e)
    where
      quotient : (c + i * n) / n ≡ i
      quotient = add-mul-div_right c i (omega arith) ∙ omega (arith, div-eq_of_lt lt)

      rest : (c + i * n) % n ≡ c
      rest = add-mul-mod_self_right c i n ∙ mod-eq_of_lt lt

pub bit_xor-Cong : (x y : ℕ) → Cong 2 (bit_xor x y) (x + y)
unfolding bit
bit_xor-Cong x y = record { same = omega (arith, bit-xor x y 0) }
