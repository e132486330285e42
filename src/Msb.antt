-- ===== src/Msb.antt =====
-- src/protocols_composite/MSB.cpp: the most significant bit of a shared value. The random number
-- that masks the value (`Rss_edaBit`) is an interface with a law, which EdaBit fills.
pub mod Party
pub mod Number
pub mod Correct
pub mod Client
use rss_ring_ppml.Base.{ℕ, ◌+◌, ◌-◌, ◌^◌, ◌<◌}
use rss_ring_ppml.Word.{add, sub, mul, shl, mask, get_bit}
use rss_ring_ppml.Word.Memory.{Array, zeros, for_each}
use rss_ring_ppml.Net.{World}
use rss_ring_ppml.Prg.{Streams, Positions}
use rss_ring_ppml.Prg.Sync.{InStep}
use rss_ring_ppml.Share.{Shares, IsShared, IsXorShared, add_shares, unit_share}
use rss_ring_ppml.Open.{rss_open}
use rss_ring_ppml.Mult.{Product}
use rss_ring_ppml.RandBit
use rss_ring_ppml.RandBit.{rss_rand_bit}
use rss_ring_ppml.BitLt.{rss_bit_lt}

-- The results of `Rss_edaBit(r, b_2, size, ring_size, nodeNet)`.
pub record EdaBits : Type 0 where
  pub r : World Shares
  pub b_2 : World Shares
  pub positions : Positions

-- Size and the positions in the streams.
abbrev pub EdaBitProtocol : Type 0
EdaBitProtocol = ℕ → Positions → EdaBits

-- `r` and `b_2` share one number, the first by sum and the second by exclusive or.
pub record IsEdaBit (k : ℕ) (eda_bit : EdaBitProtocol) : Type 0 where
  pub value : ℕ → Positions → ℕ → ℕ
  pub value-lt : (size : ℕ) (positions : Positions) (i : ℕ) → value size positions i < 2 ^ k
  pub of_r :
      (size : ℕ) (positions : Positions) {i : ℕ}
      → InStep positions
      → i < size
      → IsShared k (eda_bit size positions).r i (value size positions i)
  pub of_b_2 :
      (size : ℕ) (positions : Positions) {i : ℕ}
      → InStep positions
      → i < size
      → IsXorShared k (eda_bit size positions).b_2 i (value size positions i)
  pub in_step :
      (size : ℕ) (positions : Positions)
      → InStep positions
      → InStep (eda_bit size positions).positions

-- What the memory holds that the procedures allocate and do not clear.
pub record Memory : Type 0 where
  pub rand : RandBit.Memory
  pub b : World Shares
  pub c : World Array
  pub u_2 : World Shares
  pub bytes : World Shares
  pub e : World Array

-- `edaBit_r[s][i] - (GET_BIT(edaBit_b_2[s][i], ring_size - 1) << (ring_size - 1))`.
unfoldable pub r_prime_share : ℕ → ℕ → ℕ → ℕ → ℕ
r_prime_share w ring_size r b_2 = sub w r (shl w (get_bit b_2 (ring_size - 1)) (ring_size - 1))

-- `a[s][i] - c[i] * ai[s] + rprime[s][i] - (u_2[s][i] << (ring_size - 1))
-- + (b[s][i] << (ring_size - 1))`.
unfoldable pub masked_top : ℕ → ℕ → ℕ → ℕ → ℕ → ℕ → ℕ → ℕ → ℕ
masked_top w ring_size ai c a r_prime u_2 b =
    add w (sub w (add w (sub w a (mul w c ai)) r_prime) (shl w u_2 (ring_size - 1)))
      (shl w b (ring_size - 1))

-- `e_bit * ai[s] + b[s][i] - (e_bit * b[s][i] << 1)`.
unfoldable pub top_share : ℕ → ℕ → ℕ → ℕ → ℕ
top_share w ai e_bit b = sub w (add w (mul w e_bit ai) b) (shl w (mul w e_bit b) 1)

-- The words of an array, cut to `ring_size - 1` bits.
unfoldable pub cut : ℕ → ℕ → ℕ → Array → Array
cut w ring_size size x = for_each size (λ i. mask w (ring_size - 1) (x i)) x

-- `rprime` of `new_Rss_MSB`.
unfoldable pub r_primes : ℕ → ℕ → ℕ → EdaBits → World Shares
unfolding r_prime_share
r_primes w ring_size size eda pid s =
    for_each size (λ i. r_prime_share w ring_size (eda.r pid s i) (eda.b_2 pid s i)) zeros

module _ (w ring_size size : ℕ) (streams : Streams) (memory : Memory) where
  -- What follows in `new_Rss_MSB` when the masks are there: random bits `b`, a random number `r`,
  -- `r_prime` without its top bit, and the same as `r_2` by exclusive or.
  unfoldable pub top_bit :
      Positions
      → World Shares
      → World Shares
      → World Shares
      → World Shares
      → World Shares
      → World Shares
      → Product
  unfolding masked_top top_share cut unit_share
  top_bit positions b r r_prime r_2 res a =
      let opened =
        (rss_open w ring_size size memory.c (add_shares w size a r (λ pid s. zeros))).res in
      let c : World Array = λ pid. cut w ring_size size (opened pid) in
      let u = rss_bit_lt w ring_size size streams positions memory.bytes memory.u_2 c r_2 in
      let sum : World Shares = λ pid s.
        for_each size
          (λ i.
            masked_top w ring_size (unit_share pid s) (c pid i) (a pid s i) (r_prime pid s i)
              (u.c pid s i) (b pid s i))
          zeros in
      let e = (rss_open w ring_size size memory.e sum).res in
      record {
        c = λ pid s.
            for_each size
              (λ i. top_share w (unit_share pid s) (get_bit (e pid i) (ring_size - 1)) (b pid s i))
              (res pid s);
        positions = u.positions;
      }

  -- `new_Rss_MSB(res, a, size, ring_size, nodeNet)`.
  unfoldable pub new_rss_msb : EdaBitProtocol → Positions → World Shares → World Shares → Product
  new_rss_msb eda_bit positions res a =
      let rand = rss_rand_bit w ring_size size streams positions memory.rand memory.b in
      let eda = eda_bit size rand.positions in
      top_bit eda.positions rand.b eda.r (r_primes w ring_size size eda)
        (λ pid s. cut w ring_size size (eda.b_2 pid s)) res a

  -- `new_Rss_MSB_time`, without the timer.
  unfoldable pub new_rss_msb_time :
      EdaBitProtocol → Positions → World Shares → World Shares → Product
  new_rss_msb_time eda_bit positions res a =
      let rand = rss_rand_bit w ring_size size streams positions memory.rand memory.b in
      let eda = eda_bit size rand.positions in
      top_bit eda.positions rand.b eda.r (r_primes w ring_size size eda)
        (λ pid s. cut w ring_size size (eda.b_2 pid s)) res a
