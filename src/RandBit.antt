-- ===== src/RandBit.antt =====
-- src/protocols_rand/randBit.cpp: shares of a random bit, by a square root in Z/2^(k+2).
pub mod Sqrt
pub mod Halves
pub mod Correct
use rss_ring_ppml.Base.{ℕ, zero, suc, ◌+◌, ◌-◌, ◌/◌, ◌==◌, if◌then◌else◌, bit_and}
use rss_ring_ppml.Word.{add, sub, mul, shl, shr}
use rss_ring_ppml.Word.Memory.{Array, zeros, for_each, load_all}
use rss_ring_ppml.Net.{World}
use rss_ring_ppml.Prg.{Streams, Positions, prg_getrandom_3pc}
use rss_ring_ppml.Share.{Shares, unit_share}
use rss_ring_ppml.Mult.{rss_mult_pub, with_shares}

-- `rss_sqrt_inv` at one element. `d` has one bit, at position `j`; `left` rounds are left.
unfoldable pub sqrt_root : ℕ → ℕ → ℕ → ℕ → ℕ
sqrt_root w e d c1 =
    let temp = sub w e (mul w c1 c1) in
    if temp == 0 then c1 else add w c1 (shr (bit_and temp (shl w d 1)) 1)

unfoldable pub sqrt_inverse : ℕ → ℕ → ℕ → ℕ → ℕ
sqrt_inverse w d c1 c2 = add w c2 (bit_and (sub w 1 (mul w c1 c2)) d)

unfoldable pub sqrt_loop : ℕ → ℕ → ℕ → ℕ → ℕ → ℕ → ℕ
sqrt_loop w e zero d c1 c2 = sqrt_inverse w d c1 c2
sqrt_loop w e (suc left) d c1 c2 =
    let c1' = sqrt_root w e d c1 in sqrt_loop w e left (shl w d 1) c1' (sqrt_inverse w d c1' c2)

-- `for (j = 2; j < ring_size - 1; j++)`.
unfoldable pub rss_sqrt_inv : ℕ → ℕ → ℕ → ℕ
rss_sqrt_inv w ring_size e = sqrt_loop w e (ring_size - 1 - 2) 4 1 1

-- What the memory of the arrays holds that `Rss_RandBit` allocates and does not clear.
pub record Memory : Type 0 where
  pub u : World Shares
  pub e : World Array
  pub v_a : World Array

pub record RandBits : Type 0 where
  pub b : World Shares
  pub positions : Positions

-- Shares of a random odd number: `a[s][i] = (u[s][i] << Lint(1)) + ai[s]`.
unfoldable pub odd_shares : ℕ → ℕ → World Shares → World Shares
unfolding unit_share
odd_shares w size u pid s =
    for_each size (λ i. add w (shl w (u pid s i) 1) (unit_share pid s)) zeros

-- The last loop: `b[s][i] = (c[i] * a[s][i] + ai[s]) >> Lint(1)`.
unfoldable pub half_shares : ℕ → ℕ → World Array → World Shares → World Shares → World Shares
unfolding unit_share
half_shares w size c a b pid s =
    for_each size (λ i. shr (add w (mul w (c pid i) (a pid s i)) (unit_share pid s)) 1) (b pid s)

-- `Rss_RandBit(b, size, ring_size, nodeNet)`.
unfoldable pub rss_rand_bit : ℕ → ℕ → ℕ → Streams → Positions → Memory → World Shares → RandBits
unfolding with_shares
rss_rand_bit w ring_size size streams positions memory b =
    let bytes = (ring_size + 9) / 8 in
    let drawn_0 = prg_getrandom_3pc streams positions 0 bytes size in
    let u_0 : World Array = λ pid. load_all bytes size (drawn_0.buffer pid) (memory.u pid 0) in
    let drawn_1 = prg_getrandom_3pc streams drawn_0.positions 1 bytes size in
    let u_1 : World Array = λ pid. load_all bytes size (drawn_1.buffer pid) (memory.u pid 1) in
    let a = odd_shares w size (with_shares u_0 u_1 memory.u) in
    let e = rss_mult_pub w (ring_size + 2) size streams drawn_1.positions memory.v_a memory.e a a in
    let c : World Array =
      λ pid. for_each size (λ i. rss_sqrt_inv w (ring_size + 2) (e.c pid i)) zeros in
    record { b = half_shares w size c a b; positions = e.positions }
