-- ===== src/EdaBit.antt =====
-- src/protocols_rand/edaBit.cpp, and the sums of src/protocols_composite/bitAddTrunc.cpp: random
-- numbers that the parties hold both by sum and by exclusive or. The parties 1 and 2 contribute a
-- number each. `bytes * new_size` has no sign and 32 bits in the source, and the buffers of that many
-- bytes fail for very large sizes; the model stands for sizes where it stays below 2^31.
pub mod Deal
pub mod Generate
pub mod Correct
pub mod Number
pub mod GenerateTrunc
pub mod Carry
pub mod Truncated
pub mod Client
use rss_ring_ppml.Base.{ℕ, zero, suc, ◌+◌, ◌-◌, ◌*◌, ◌/◌, ltb, ◌==◌, if◌then◌else◌, bit_xor}
use rss_ring_ppml.Word.{add, sub, shl, shr, mask, get_bit}
use rss_ring_ppml.Word.Memory.{Array, Buffer, zeros, for_each, unit_size, copy_low, read_le}
use rss_ring_ppml.Net.{World, Transfer, send_and_get_3pc}
use rss_ring_ppml.Prg.{Streams, Positions, prg_getrandom_3pc}
use rss_ring_ppml.Share.{Shares}
use rss_ring_ppml.Mult.{Product, rss_mult_bitwise}
use rss_ring_ppml.BitLt.{Pairs}
use rss_ring_ppml.BitAdd.{rss_circle_op_l, sum_word, rss_n_bit_add}
use rss_ring_ppml.B2a
use rss_ring_ppml.B2a.{rss_b2a}
use rss_ring_ppml.Msb
use rss_ring_ppml.Trunc

-- The bytes of word `i` that a copy of `n` bytes to the start of the array writes.
unfoldable pub bytes_of_word : ℕ → ℕ → ℕ → ℕ
bytes_of_word w n i = if ltb (n - i * (w / 8)) (w / 8) then n - i * (w / 8) else w / 8

-- `memcpy(x + start, buffer, n)`, which takes the bytes of the buffer as they stand, so that a
-- word gets `w / 8` of them.
unfoldable pub copy_at : ℕ → ℕ → ℕ → Buffer → Array → Array
unfolding bytes_of_word copy_low read_le
copy_at w start n buffer x i =
    if ltb i start
    then x i
    else copy_low (bytes_of_word w n (i - start)) (x i)
        (read_le buffer ((i - start) * (w / 8)) (bytes_of_word w n (i - start)))

-- The copies `memcpy(x + c * size, buffer + c * size * bytes, size * bytes)` for `c` below `parts`.
unfoldable pub copy_parts : ℕ → ℕ → ℕ → Buffer → ℕ → Array → Array
unfolding copy_at
copy_parts w bytes size buffer zero x = x
copy_parts w bytes size buffer (suc c) x =
    copy_at w (c * size) (size * bytes) (λ j. buffer (c * size * bytes + j))
      (copy_parts w bytes size buffer c x)

-- `gamma`: the indices of the parties that follow.
unfoldable pub gamma : ℕ → ℕ → ℕ
gamma pid n =
    if pid == 1
    then (if n == 0 then 1 else 2)
    else if pid == 2
    then (if n == 0 then 2 else 0)
    else (if n == 0 then 0 else 1)

-- `r_values[s][j]` at party `pid`, from what it has sent, its own random words, those that it has
-- in common with the party before it, and what it has received.
unfoldable pub dealt : ℕ → Array → Array → Array → Array → ℕ → ℕ → Array
unfolding gamma
dealt pid sent own common received s j =
    if j + 1 == pid
    then (if s == 0 then sent else own)
    else if j == gamma pid 1
    then (if s == 0 then common else zeros)
    else if j == gamma pid 0
    then (if s == 0 then zeros else received)
    else zeros

-- The arrays `r_values`, and the positions in the streams.
pub record Dealt : Type 0 where
  pub values : World (ℕ → ℕ → Array)
  pub positions : Positions

-- What the procedures below share: `parts` arrays of `size` words for each party, where party
-- `pid` deals out `secret pid own`, its numbers masked by its own random words.
unfoldable pub deal : ℕ → ℕ → ℕ → Streams → Positions → ℕ → (World (Array → Array)) → Dealt
unfolding copy_parts dealt
deal w ring_size size streams positions parts secret =
    let bytes = unit_size ring_size in
    let new_size = parts * size in
    let drawn_1 = prg_getrandom_3pc streams positions 1 bytes new_size in
    let own : World Array = λ pid. copy_parts w bytes size (drawn_1.buffer pid) parts zeros in
    let drawn_0 = prg_getrandom_3pc streams drawn_1.positions 0 bytes new_size in
    let common : World Array = λ pid. copy_parts w bytes size (drawn_0.buffer pid) parts zeros in
    let got = send_and_get_3pc w ring_size new_size (λ pid. secret pid (own pid)) (λ pid. zeros) in
    record {
      values = λ pid. dealt pid (got pid).sent (own pid) (common pid) (got pid).received;
      positions = drawn_0.positions;
    }

-- `res[s][i]` after the loop adds the numbers of the parties with the indices 0 and 1.
unfoldable pub sum_of_two : ℕ → ℕ → ℕ → Dealt → World Shares
sum_of_two w start size d pid s =
    for_each size
      (λ i. add w (add w 0 (d.values pid s 0 (start + i))) (d.values pid s 1 (start + i))) zeros

-- `res_bitwise[s]`: the numbers of the parties with the indices 0 and 1, one after the other.
unfoldable pub bitwise_of_two : ℕ → Dealt → World Shares
bitwise_of_two size d pid s i =
    if ltb i size
    then d.values pid s 0 (size + i)
    else if ltb i (2 * size)
    then d.values pid s 1 (size + (i - size))
    else 0

-- `r_bits`: random words of the party itself, under its private key.
unfoldable pub random_words : ℕ → ℕ → ℕ → Streams → Positions → World Array
unfolding copy_at
random_words w ring_size size streams positions pid =
    let bytes = unit_size ring_size in
    copy_at w 0 (size * bytes) ((prg_getrandom_3pc streams positions 2 bytes size).buffer pid) zeros

-- What `Rss_GenerateRandomShares` sends: a difference, and an exclusive or.
unfoldable pub mask_numbers : ℕ → ℕ → Array → Array → Array
mask_numbers w size r_bits own i =
    if ltb i size then sub w (r_bits i) (own i) else bit_xor (r_bits (i - size)) (own i)

-- The results of `Rss_GenerateRandomShares`.
pub record RandomShares : Type 0 where
  pub res : World Shares
  pub res_bitwise : World Shares
  pub positions : Positions

-- `Rss_GenerateRandomShares(res, res_bitwise, ring_size, size, nodeNet)`, where `res` and
-- `res_bitwise` were cleared by the caller.
unfoldable pub rss_generate_random_shares : ℕ → ℕ → ℕ → Streams → Positions → RandomShares
unfolding random_words mask_numbers deal sum_of_two bitwise_of_two
rss_generate_random_shares w ring_size size streams positions =
    let r_bits = random_words w ring_size size streams positions in
    let drawn = prg_getrandom_3pc streams positions 2 (unit_size ring_size) size in
    let d =
      deal w ring_size size streams drawn.positions 2 (λ pid. mask_numbers w size (r_bits pid)) in
    record {
      res = sum_of_two w 0 size d;
      res_bitwise = bitwise_of_two size d;
      positions = d.positions;
    }

-- `Rss_edaBit(r, b_2, size, ring_size, nodeNet)`.
unfoldable pub rss_eda_bit : ℕ → ℕ → Streams → ℕ → Positions → Msb.EdaBits
unfolding rss_generate_random_shares rss_n_bit_add
rss_eda_bit w ring_size streams size positions =
    let shares = rss_generate_random_shares w ring_size size streams positions in
    let sum =
      rss_n_bit_add w ring_size size streams shares.positions (λ pid s. zeros) shares.res_bitwise in
    record { r = shares.res; b_2 = sum.c; positions = sum.positions }

-- What `Rss_GenerateRandomShares_trunc` sends: the number, its bits, and the number without its
-- `m` low bits.
unfoldable pub mask_numbers_trunc : ℕ → ℕ → Array → Array → Array → Array
mask_numbers_trunc w size r_bits r_prime own i =
    if ltb i size
    then sub w (r_bits i) (own i)
    else if ltb i (2 * size)
    then bit_xor (r_bits (i - size)) (own i)
    else sub w (r_prime (i - 2 * size)) (own i)

-- The results of `Rss_GenerateRandomShares_trunc`.
pub record TruncShares : Type 0 where
  pub res : World Shares
  pub res_prime : World Shares
  pub res_bitwise : World Shares
  pub positions : Positions

-- `Rss_GenerateRandomShares_trunc(res, res_prime, res_bitwise, ring_size, m, size, nodeNet)`.
unfoldable pub rss_generate_random_shares_trunc : ℕ → ℕ → ℕ → ℕ → Streams → Positions → TruncShares
unfolding random_words mask_numbers_trunc deal sum_of_two bitwise_of_two
rss_generate_random_shares_trunc w ring_size m size streams positions =
    let words = random_words w ring_size size streams positions in
    let r_bits : World Array =
      λ pid. for_each size (λ i. mask w ring_size (words pid i)) (words pid) in
    let r_prime : World Array = λ pid. for_each size (λ i. shr (r_bits pid i) m) zeros in
    let drawn = prg_getrandom_3pc streams positions 2 (unit_size ring_size) size in
    let d =
      deal w ring_size size streams drawn.positions 3
        (λ pid. mask_numbers_trunc w size (r_bits pid) (r_prime pid)) in
    record {
      res = sum_of_two w 0 size d;
      res_prime = sum_of_two w (2 * size) size d;
      res_bitwise = bitwise_of_two size d;
      positions = d.positions;
    }

-- The shares of a sum and of three of its bits.
pub record Carried : Type 0 where
  pub res : World Shares
  pub carry : World Shares
  pub positions : Positions

-- `carry[s]`: the carry into bit `m`, the carry out of the ring, and the top bit of the sum.
unfoldable pub carry_bits : ℕ → ℕ → ℕ → World Shares → World Shares → World Shares → World Shares
carry_bits ring_size m size g res carry pid s i =
    if ltb i size
    then get_bit (g pid s i) (m - 1)
    else if ltb i (2 * size)
    then get_bit (g pid s (i - size)) (ring_size - 1)
    else if ltb i (3 * size)
    then get_bit (res pid s (i - 2 * size)) (ring_size - 1)
    else carry pid s i

-- `Rss_BitAdd_trunc(res, carry, a, b, ring_size, m, size, nodeNet)`, for `m` above 0.
unfoldable pub rss_bit_add_trunc :
    ℕ
    → ℕ
    → ℕ
    → ℕ
    → Streams
    → Positions
    → World Shares
    → World Shares
    → World Shares
    → World Shares
    → Carried
unfolding rss_circle_op_l sum_word carry_bits
rss_bit_add_trunc w ring_size m size streams positions res carry a b =
    let product = rss_mult_bitwise w ring_size size streams positions res a b in
    let d : Pairs = record {
      p = λ pid s. for_each size (λ i. bit_xor (a pid s i) (b pid s i)) zeros;
      g = λ pid s. for_each size (product.c pid s) zeros;
    } in
    let out = rss_circle_op_l w ring_size size streams product.positions d in
    let sum : World Shares = λ pid s.
      for_each size (λ i. sum_word w (bit_xor (a pid s i) (b pid s i)) (out.d.g pid s i))
        (product.c pid s) in
    record {
      res = sum;
      carry = carry_bits ring_size m size out.d.g sum carry;
      positions = out.positions;
    }

-- `Rss_nBitAdd_trunc(res, carry, r_bitwise, ring_size, m, size, nodeNet)`, with its one round.
unfoldable pub rss_n_bit_add_trunc :
    ℕ → ℕ → ℕ → ℕ → Streams → Positions → World Shares → World Shares → World Shares → Carried
unfolding rss_bit_add_trunc
rss_n_bit_add_trunc w ring_size m size streams positions res carry r_bitwise =
    rss_bit_add_trunc w ring_size m size streams positions res carry
      (λ pid s. for_each size (r_bitwise pid s) zeros)
      (λ pid s. for_each size (λ i. r_bitwise pid s (size + i)) zeros)

-- `r_prime[s][i] + carry[s][i] - (carry[s][size + i] << (ring_size - m))`.
unfoldable pub without_low : ℕ → ℕ → ℕ → ℕ → ℕ → ℕ → ℕ
without_low w ring_size m r_prime low high = sub w (add w r_prime low) (shl w high (ring_size - m))

-- `Rss_edaBit_trunc(r, r_prime, r_km1, size, ring_size, m, nodeNet)`; `memory` is for `Rss_b2a`.
unfoldable pub rss_eda_bit_trunc : ℕ → ℕ → Streams → B2a.Memory → ℕ → ℕ → Positions → Trunc.EdaBits
unfolding rss_generate_random_shares_trunc rss_n_bit_add_trunc without_low
rss_eda_bit_trunc w ring_size streams memory size m positions =
    let shares = rss_generate_random_shares_trunc w ring_size m size streams positions in
    let sum =
      rss_n_bit_add_trunc w ring_size m size streams shares.positions (λ pid s. zeros)
        (λ pid s. zeros) shares.res_bitwise in
    let carry = rss_b2a w ring_size (3 * size) streams sum.positions memory sum.carry sum.carry in
    record {
      r = shares.res;
      r_prime = λ pid s.
          for_each size
            (λ i.
              without_low w ring_size m (shares.res_prime pid s i) (carry.c pid s i)
                (carry.c pid s (size + i)))
            (shares.res_prime pid s);
      r_km1 = λ pid s. for_each size (λ i. carry.c pid s (2 * size + i)) zeros;
      positions = carry.positions;
    }
