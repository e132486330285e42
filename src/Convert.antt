-- ===== src/Convert.antt =====
-- src/protocols_composite/convert.cpp: shares modulo 2^ring_size become shares modulo
-- 2^ring_size_prime.
pub mod Bits
pub mod Second
pub mod Correct
use rss_ring_ppml.Base.{ℕ, zero, suc, ◌+◌, ◌*◌, ◌/◌, ◌%◌, bit_xor}
use rss_ring_ppml.Word.{add, shl, get_bit, set_bit}
use rss_ring_ppml.Word.Memory.{Array, zeros, for_each}
use rss_ring_ppml.Net.{World}
use rss_ring_ppml.Prg.{Streams, Positions}
use rss_ring_ppml.Share.{Shares, sub_shares, unit_share}
use rss_ring_ppml.Open.{rss_open, rss_open_bitwise}
use rss_ring_ppml.Mult.{Product}
use rss_ring_ppml.RandBit
use rss_ring_ppml.RandBit.{rss_rand_bit}
use rss_ring_ppml.B2a.{flip_share}
use rss_ring_ppml.BitAdd.{rss_bit_add_public}
use rss_ring_ppml.EdaBit.{rss_eda_bit}

-- What the memory holds that the procedures allocate and do not clear.
pub record Memory : Type 0 where
  pub rand : RandBit.Memory
  pub r_shares : World Shares
  pub r_2 : World Shares
  pub a_2 : World Shares
  pub c : World Array

-- `SET_BIT(x, Lint(k), GET_BIT(r[start + k], Lint(0)))` for all `k` below `ring_size`.
unfoldable pub set_bits : ℕ → Array → ℕ → ℕ → ℕ → ℕ
set_bits w r start zero x = x
set_bits w r start (suc k) x = set_bit w (set_bits w r start k x) k (get_bit (r (start + k)) 0)

-- `x += (r[start + k] << Lint(k))` for all `k` below `ring_size`.
unfoldable pub sum_bits : ℕ → Array → ℕ → ℕ → ℕ → ℕ
sum_bits w r start zero x = x
sum_bits w r start (suc k) x = add w (sum_bits w r start k x) (shl w (r (start + k)) k)

-- `r_2`: the low bits of the random shares from `offset` on, `ring_size` to a word.
unfoldable pub bit_words : ℕ → ℕ → ℕ → ℕ → World Shares → World Shares → World Shares
unfolding set_bits
bit_words w ring_size size offset r_shares r_2 pid s =
    for_each size
      (λ j. set_bits w (r_shares pid s) (offset + j * ring_size) ring_size (r_2 pid s j))
      (r_2 pid s)

-- `a_k_prime`, where `index` is `i * ring_size + j`.
unfoldable pub flipped_bits : ℕ → ℕ → ℕ → ℕ → World Array → World Shares → World Shares
unfolding flip_share unit_share
flipped_bits w ring_size size offset c r_shares pid s =
    for_each (size * ring_size)
      (λ index.
        flip_share w (unit_share pid s) (get_bit (c pid (index / ring_size)) (index % ring_size))
          (r_shares pid s (offset + index)))
      zeros

-- The second part of both procedures: shares of the number whose bits `a_2` holds, with the random
-- bits from `offset` on.
unfoldable pub to_prime :
    ℕ → ℕ → ℕ → ℕ → World Array → World Shares → World Shares → World Shares → World Shares
unfolding bit_words flipped_bits sum_bits
to_prime w ring_size size offset c_memory r_shares r_2 a_2 pid s =
    let words = bit_words w ring_size size offset r_shares r_2 in
    let sum : World Shares =
      λ pid' s'. for_each size (λ i. bit_xor (a_2 pid' s' i) (words pid' s' i)) zeros in
    let c = (rss_open_bitwise w ring_size size c_memory sum).res in
    let a_k_prime = flipped_bits w ring_size size offset c r_shares in
    for_each size (λ j. sum_bits w (a_k_prime pid s) (j * ring_size) ring_size 0) zeros

-- `new_Rss_Convert(res, a, size, ring_size, ring_size_prime, nodeNet)`.
unfoldable pub new_rss_convert :
    ℕ → ℕ → ℕ → ℕ → Streams → Memory → Positions → World Shares → Product
unfolding to_prime
new_rss_convert w ring_size ring_size_prime size streams memory positions a =
    let n_rand_bits = size * ring_size in
    let rand =
      rss_rand_bit w ring_size_prime n_rand_bits streams positions memory.rand memory.r_shares in
    let eda = rss_eda_bit w ring_size streams size rand.positions in
    let c = (rss_open w ring_size size memory.c (sub_shares w size a eda.r (λ pid s. zeros))).res in
    let a_2 = rss_bit_add_public w ring_size size streams eda.positions memory.a_2 c eda.b_2 in
    record { c = to_prime w ring_size size 0 c rand.b memory.r_2 a_2.c; positions = a_2.positions }

-- `Rss_Convert(res, a, size, ring_size, ring_size_prime, nodeNet)`, the older form, which makes its
-- mask from random bits modulo 2^ring_size_prime.
unfoldable pub rss_convert : ℕ → ℕ → ℕ → ℕ → Streams → Memory → Positions → World Shares → Product
unfolding sum_bits bit_words to_prime
rss_convert w ring_size ring_size_prime size streams memory positions a =
    let n_rand_bits = 2 * size * ring_size in
    let rand =
      rss_rand_bit w ring_size_prime n_rand_bits streams positions memory.rand memory.r_shares in
    let r : World Shares =
      λ pid s. for_each size (λ j. sum_bits w (rand.b pid s) (j * ring_size) ring_size 0) zeros in
    let r_2 = bit_words w ring_size size 0 rand.b memory.r_2 in
    let c =
      (rss_open w ring_size size (λ pid. zeros) (sub_shares w size a r (λ pid s. zeros))).res in
    let a_2 = rss_bit_add_public w ring_size size streams rand.positions memory.a_2 c r_2 in
    record {
      c = to_prime w ring_size size (size * ring_size) (λ pid. zeros) rand.b (λ pid s. zeros) a_2.c;
      positions = a_2.positions;
    }
