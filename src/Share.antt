-- ===== src/Share.antt =====
-- Replicated secret sharing over Z/2^k: who holds which share, and what they add up to.
pub mod Laws
pub mod Linear
pub mod Xor
use rss_ring_ppml.Base.{ℕ, ◌+◌, ◌^◌, ◌<◌, ◌==◌, if◌then◌else◌}
use rss_ring_ppml.Base.Bits.{bit}
use rss_ring_ppml.Base.Cong.{Cong}
use rss_ring_ppml.Word.{add, sub}
use rss_ring_ppml.Word.Memory.{Array, for_each}
use rss_ring_ppml.Net.{World}

-- `Lint **a` at one party: an array for each of the party's shares.
abbrev pub Shares : Type 0
Shares = ℕ → Array

-- 3PC: parties 1, 2 and 3 hold the shares (2, 3), (3, 1) and (1, 2). Every share is known twice
-- with one value, and the three add up to `x`; bits from `k` on are free.
pub record IsShared (k : ℕ) (a : World Shares) (i x : ℕ) : Type 0 where
  pub third_share : Cong (2 ^ k) (a 1 1 i) (a 2 0 i)
  pub first_share : Cong (2 ^ k) (a 2 1 i) (a 3 0 i)
  pub second_share : Cong (2 ^ k) (a 3 1 i) (a 1 0 i)
  pub total : Cong (2 ^ k) (a 1 0 i + a 2 0 i + a 3 0 i) x

-- Shared bit by bit: each of the `k` low bits of `x` is shared in Z/2, by exclusive or.
pub record IsXorShared (k : ℕ) (a : World Shares) (i x : ℕ) : Type 0 where
  pub at_bit : (j : ℕ) → j < k → IsShared 1 (λ pid s n. bit (a pid s n) j) i (bit x j)

-- The loop `res[s][i] = a[s][i] + b[s][i]` that every party runs over its shares.
unfoldable pub add_shares : ℕ → ℕ → World Shares → World Shares → World Shares → World Shares
add_shares w size a b res pid s = for_each size (λ i. add w (a pid s i) (b pid s i)) (res pid s)

-- The loop `res[s][i] = a[s][i] - b[s][i]`.
unfoldable pub sub_shares : ℕ → ℕ → World Shares → World Shares → World Shares → World Shares
sub_shares w size a b res pid s = for_each size (λ i. sub w (a pid s i) (b pid s i)) (res pid s)

-- `ai`: the party's shares of 1, which is share 2 and zeros elsewhere.
unfoldable pub unit_share : ℕ → ℕ → ℕ
unit_share pid s =
    if pid == 1
    then (if s == 0 then 1 else 0)
    else if pid == 3
    then (if s == 1 then 1 else 0)
    else 0
