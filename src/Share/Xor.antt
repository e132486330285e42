-- ===== src/Share/Xor.antt =====
-- Values shared by exclusive or: what the parties compute on their own, and single bits.
use rss_ring_ppml.Base.{ℕ, zero, suc, ◌+◌, ◌%◌, ◌^◌, ◌<◌, ◌≡◌, ◌≤◌, sym, ap, arith, bit_xor}
use rss_ring_ppml.Base.Bits.{bit, bit-xor}
use rss_ring_ppml.Base.Digits.{bit-high}
use rss_ring_ppml.Base.Cong.{Cong, Cong_trans, Cong_sym, Cong_refl, Cong_eq, Cong_of_le, mod-Cong}
use rss_ring_ppml.Net.{World}
use rss_ring_ppml.Share.{Shares, IsShared, IsXorShared}
use rss_ring_ppml.Share.Laws.{IsShared_congr}
use rss_ring_ppml.Share.Linear.{IsShared_value, IsShared_sum, IsShared_move, IsShared_difference}

pub IsXorShared-xor :
    {k i x y : ℕ} (a b : World Shares)
    → IsXorShared k a i x
    → IsXorShared k b i y
    → IsXorShared k (λ pid s n. bit_xor (a pid s n) (b pid s n)) i (bit_xor x y)
IsXorShared-xor {k} {i} {x} {y} a b s t = record {
  at_bit = λ j lt.
      IsShared_value
        (Cong_trans (Cong_sym (mod-Cong 2 (bit x j + bit y j))) (Cong_eq (sym (bit-xor x y j))))
        (IsShared_congr (λ pid s n. bit (a pid s n) j + bit (b pid s n) j)
          (λ pid s n. bit (bit_xor (a pid s n) (b pid s n)) j)
          (λ pid s'. Cong_trans (Cong_eq (bit-xor (a pid s' i) (b pid s' i) j)) (mod-Cong 2 _))
          (IsShared_sum (λ pid s n. bit (a pid s n) j) (λ pid s n. bit (b pid s n) j)
            (s.at_bit j lt) (t.at_bit j lt)));
}

-- Shares copied to another index of other arrays.
pub IsXorShared-move :
    {k i j x : ℕ} (a b : World Shares)
    → ((pid s : ℕ) → b pid s j ≡ a pid s i)
    → IsXorShared k a i x
    → IsXorShared k b j x
IsXorShared-move a b e s = record {
  at_bit = λ n lt.
      IsShared_move (λ pid s' m. bit (a pid s' m) n) (λ pid s' m. bit (b pid s' m) n)
        (λ pid s'. ap (λ (t : ℕ). bit t n) (e pid s')) (s.at_bit n lt);
}

-- Sharing modulo a smaller power.
pub IsShared_of_le : {k w i x : ℕ} {a : World Shares} → k ≤ w → IsShared w a i x → IsShared k a i x
IsShared_of_le h s = record {
  third_share = Cong_of_le h s.third_share;
  first_share = Cong_of_le h s.first_share;
  second_share = Cong_of_le h s.second_share;
  total = Cong_of_le h s.total;
}

pub zeros-IsShared : (k i : ℕ) → IsShared k (λ pid s n. 0) i 0
zeros-IsShared k i = record {
  third_share = Cong_refl 0;
  first_share = Cong_refl 0;
  second_share = Cong_refl 0;
  total = Cong_refl 0;
}

-- Words of one bit: only the lowest bit of each is to be looked at.
pub one_bit-IsXorShared :
    {m i x : ℕ} (a : World Shares)
    → ((pid s : ℕ) → a pid s i < 2)
    → x < 2
    → IsShared 1 a i x
    → IsXorShared m a i x
unfolding bit
one_bit-IsXorShared {m} {i} {x} a small x_small s = record { at_bit = λ j lt. at j }
  where
    at : (j : ℕ) → IsShared 1 (λ pid s n. bit (a pid s n) j) i (bit x j)
    at zero =
        IsShared_value (Cong_sym (mod-Cong 2 x))
          (IsShared_congr a (λ pid s n. bit (a pid s n) 0) (λ pid s'. mod-Cong 2 (a pid s' i)) s)
    at (suc j) = IsShared_value (Cong_eq (sym (bit-high x 1 (suc j) x_small (omega arith)))) (
        IsShared_congr (λ pid s n. 0) (λ pid s n. bit (a pid s n) (suc j))
          (λ pid s'. Cong_eq (bit-high (a pid s' i) 1 (suc j) (small pid s') (omega arith)))
          (zeros-IsShared 1 i))

-- The words share the lowest bit by their sum.
pub word-IsShared : {i x : ℕ} (a : World Shares) → IsXorShared 1 a i x → IsShared 1 a i x
unfolding bit
word-IsShared {i} {x} a s = IsShared_value (mod-Cong 2 x) (
    IsShared_congr (λ pid s n. bit (a pid s n) 0) a (λ pid s'. Cong_sym (mod-Cong 2 (a pid s' i)))
      (s.at_bit 0 (omega arith)))

-- The low bits of additive shares share the low bit.
pub low_bit-IsXorShared :
    {k i x m : ℕ} (a : World Shares)
    → 0 < k
    → x < 2
    → IsShared k a i x
    → IsXorShared m (λ pid s n. a pid s n % 2) i x
low_bit-IsXorShared {k} {i} {x} a pos small s =
    one_bit-IsXorShared (λ pid s n. a pid s n % 2) (λ pid s'. omega arith) small
      (IsShared_congr a (λ pid s n. a pid s n % 2) (λ pid s'. mod-Cong 2 (a pid s' i))
        (IsShared_of_le pos s))

-- Shares that agree with `a` at the parties 1, 2 and 3, for a condition `P` that they meet.
pub IsShared_at_parties :
    {k i x : ℕ} (P : ℕ → Type 0) (g a : World Shares)
    → P 1
    → P 2
    → P 3
    → ((pid s : ℕ) → P pid → Cong (2 ^ k) (g pid s i) (a pid s i))
    → IsShared k a i x
    → IsShared k g i x
IsShared_at_parties {k} {i} P g a p1 p2 p3 e s =
    IsShared_difference P g a (λ pid s' n. 0) p1 p2 p3
      (λ pid s' p. Cong_trans (Cong_eq (omega arith)) (e pid s' p)) (Cong_eq (omega arith)) s
      (zeros-IsShared k i)
