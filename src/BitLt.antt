-- ===== src/BitLt.antt =====
-- src/protocols_composite/bitLT.cpp: comparison of a public number with one shared by exclusive
-- or, by the carry of a sum. The carry comes from pairs (p, g), a propagate and a generate bit for
-- every position, which a round merges two by two.
pub mod Masks
pub mod Words
pub mod Store
pub mod Carry
pub mod Bytes
pub mod Merge
pub mod Loop
pub mod Sum
pub mod Recursive
pub mod Correct
use rss_ring_ppml.Base.{
  ℕ, zero, suc, ◌+◌, ◌-◌, ◌*◌, ◌/◌, ◌%◌, ◌^◌, ltb, ◌==◌, if◌then◌else◌, bit_and, bit_or, bit_xor,
}
use rss_ring_ppml.Word.{shl, shr, mask, get_bit, set_bit, all_ones}
use rss_ring_ppml.Word.Memory.{Array, zeros, for_each, unit_size}
use rss_ring_ppml.Net.{World}
use rss_ring_ppml.Prg.{Streams, Positions}
use rss_ring_ppml.Share.{Shares}
use rss_ring_ppml.Mult.{Product, rss_mult_byte}

-- `temp` after `n` rounds of the loop `temp = temp | Lint(i % 2 == 0); temp = temp << 1;`.
unfoldable pub parity_loop : ℕ → ℕ → ℕ
parity_loop w zero = 0
parity_loop w (suc n) = shl w (bit_or (parity_loop w n) (if n % 2 == 0 then 1 else 0)) 1

-- `EVEN[r]`.
unfoldable pub even_mask : ℕ → ℕ → ℕ
even_mask w r = mask w r (shr (parity_loop w (suc w)) 1)

-- `ODD[r]`.
unfoldable pub odd_mask : ℕ → ℕ → ℕ
odd_mask w r = mask w r (parity_loop w (suc w))

-- `Lint **d`: `p` is `d[0]` and `d[1]`, `g` is `d[2]` and `d[3]`.
pub record Pairs : Type 0 where
  pub p : World Shares
  pub g : World Shares

-- `x | (p & even)` and then `| ((g & even) << Lint(1))`.
unfoldable pub even_word : ℕ → ℕ → ℕ → ℕ → ℕ → ℕ
even_word w r x p g =
    bit_or (bit_or x (bit_and p (even_mask w r))) (shl w (bit_and g (even_mask w r)) 1)

-- `x | ((p & odd) >> Lint(1))` and then `| (p & odd)`.
unfoldable pub odd_word : ℕ → ℕ → ℕ → ℕ → ℕ
odd_word w r x p = bit_or (bit_or x (shr (bit_and p (odd_mask w r)) 1)) (bit_and p (odd_mask w r))

-- `OptimalBuffer(buffer, d, size, r_size, nodeNet)`.
unfoldable pub optimal_buffer : ℕ → ℕ → ℕ → Pairs → Pairs → Pairs
optimal_buffer w r size buffer d = record {
  p = λ pid s.
      for_each size (λ i. even_word w r (buffer.p pid s i) (d.p pid s i) (d.g pid s i))
        (buffer.p pid s);
  g = λ pid s. for_each size (λ i. odd_word w r (buffer.g pid s i) (d.p pid s i)) (buffer.g pid s);
}

-- `memcpy(a[s] + i * n, buffer[s] + i, n)` for every `i`: the `n` low bytes of each word.
unfoldable pub split_bytes : ℕ → ℕ → World Shares → World Shares → World Shares
split_bytes n size x bytes pid s =
    for_each (n * size) (λ q. x pid s (q / n) / 2 ^ (8 * (q % n)) % 2 ^ 8) (bytes pid s)

-- The inner loop on `j` for `buffer[0]` and `buffer[1]`, from the bytes `u` at `start`.
unfoldable pub store_p : ℕ → Array → ℕ → ℕ → ℕ → ℕ
store_p w u start zero x = x
store_p w u start (suc j) x =
    set_bit w (store_p w u start j x) j (get_bit (u (shr j 2 + start)) (bit_and (2 * j) 7))

-- The same for `buffer[2]` and `buffer[3]`, where `g` is the word of `d`.
unfoldable pub store_g : ℕ → Array → ℕ → ℕ → ℕ → ℕ → ℕ
store_g w u start g zero x = x
store_g w u start g (suc j) x =
    set_bit w (store_g w u start g j x) j
      (bit_xor (get_bit (u (shr j 2 + start)) (bit_and (2 * j + 1) 7)) (get_bit g (2 * j + 1)))

-- `if ((r_size & 1))`: the pair that is left over moves to `new_r_size`.
unfoldable pub move_unused : ℕ → ℕ → ℕ → ℕ → ℕ
move_unused w r d x = if bit_and r 1 == 1 then set_bit w x (shr r 1) (get_bit d (r - 1)) else x

-- The variables of the loop.
pub record State : Type 0 where
  pub r_size : ℕ
  pub d : Pairs
  pub a : World Shares
  pub b : World Shares
  pub u : World Shares
  pub positions : Positions

-- The pairs that `buffer` starts with in every round.
abbrev pub cleared_pairs : Pairs
cleared_pairs = record { p = λ pid s. zeros; g = λ pid s. zeros }

-- The pairs of the next round, from the bytes `u`.
unfoldable pub next_pairs : ℕ → ℕ → ℕ → World Shares → Pairs → Pairs
next_pairs w r size u d = record {
  p = λ pid s.
      for_each size
        (λ i. move_unused w r (d.p pid s i) (store_p w (u pid s) (i * unit_size r) (shr r 1) 0))
        (d.p pid s);
  g = λ pid s.
      for_each size
        (λ i.
          move_unused w r (d.g pid s i)
            (store_g w (u pid s) (i * unit_size r) (d.g pid s i) (shr r 1) 0))
        (d.g pid s);
}

-- One round of `while (r_size > 1)`.
unfoldable pub carry_round : ℕ → ℕ → Streams → State → State
carry_round w size streams st =
    let n = unit_size st.r_size in
    let buffer = optimal_buffer w st.r_size size cleared_pairs st.d in
    let a = split_bytes n size buffer.p st.a in
    let b = split_bytes n size buffer.g st.b in
    let product = rss_mult_byte (n * size) streams st.positions st.u a b in
    record {
      r_size = shr st.r_size 1 + bit_and st.r_size 1;
      d = next_pairs w st.r_size size product.c st.d;
      a = a;
      b = b;
      u = product.c;
      positions = product.positions;
    }

-- The loop, with at most `fuel` rounds.
unfoldable pub carry_loop : ℕ → ℕ → Streams → ℕ → State → State
carry_loop w size streams zero st = st
carry_loop w size streams (suc fuel) st =
    let rest = carry_loop w size streams fuel (carry_round w size streams st) in
    if ltb 1 st.r_size then rest else st

-- What the memory of the byte arrays holds that the first round starts with.
unfoldable pub start_state : ℕ → World Shares → Positions → Pairs → State
start_state ring_size memory positions d = record {
  r_size = ring_size;
  d = d;
  a = λ pid s. zeros;
  b = λ pid s. zeros;
  u = memory;
  positions = positions;
}

-- `res[s][i] = SET_BIT(res[s][i], 0, GET_BIT(d[2 + s][i], 0))`.
unfoldable pub store_carry : ℕ → ℕ → World Shares → World Shares → World Shares
store_carry w size g res pid s =
    for_each size (λ i. set_bit w (res pid s i) 0 (get_bit (g pid s i) 0)) (res pid s)

-- `new_Rss_CarryOutAux(res, d, ring_size, size, nodeNet)`; `memory` is what `u` holds when it is
-- allocated. Fuel of `ring_size` rounds is more than the loop takes.
unfoldable pub new_rss_carry_out_aux :
    ℕ → ℕ → ℕ → Streams → Positions → World Shares → World Shares → Pairs → Product
new_rss_carry_out_aux w ring_size size streams positions memory res d =
    let last = carry_loop w size streams ring_size (start_state ring_size memory positions d) in
    record { c = store_carry w size last.d.g res; positions = last.positions }

-- `Rss_CarryOutAux(res, d, r_size, size, nodeNet)`, the recursive form, with the base case when
-- the fuel is used up; the byte arrays are new in every call.
unfoldable pub rss_carry_out_aux :
    ℕ → ℕ → Streams → ℕ → ℕ → Positions → World Shares → Pairs → Product
rss_carry_out_aux w size streams zero r positions res d = record {
  c = store_carry w size d.g res;
  positions = positions;
}
rss_carry_out_aux w size streams (suc fuel) r positions res d =
    let n = unit_size r in
    let buffer = optimal_buffer w r size cleared_pairs d in
    let a = split_bytes n size buffer.p (λ pid s. zeros) in
    let b = split_bytes n size buffer.g (λ pid s. zeros) in
    let product = rss_mult_byte (n * size) streams positions (λ pid s. zeros) a b in
    let rest =
      rss_carry_out_aux w size streams fuel (shr r 1 + bit_and r 1) product.positions res
        (next_pairs w r size product.c d) in
    if ltb 1 r then rest else record { c = store_carry w size d.g res; positions = positions }

-- The words `a1` and `a2` of `Rss_CarryOut`, `b1` and `b2` of `Rss_BitLT`: shares of all ones.
unfoldable pub ones_share : ℕ → ℕ → ℕ → ℕ
ones_share w pid s =
    if pid == 1
    then (if s == 0 then all_ones w else 0)
    else if pid == 3
    then (if s == 1 then all_ones w else 0)
    else 0

-- `(a[i] & a1) ^ b[0][i]`.
unfoldable pub propagate : ℕ → ℕ → ℕ → ℕ → ℕ → ℕ
propagate w pid s a b = bit_xor (bit_and a (ones_share w pid s)) b

-- `a[i] & b[0][i]`, where the carry that comes in, 1, is merged with the lowest pair.
unfoldable pub generate : ℕ → ℕ → ℕ → ℕ → ℕ → ℕ
generate w pid s a b =
    set_bit w (bit_and a b) 0
      (bit_xor (get_bit (bit_and a b) 0) (get_bit (propagate w pid s a b) 0))

-- The first loop of `Rss_CarryOut`.
unfoldable pub first_pairs : ℕ → ℕ → World Array → World Shares → Pairs
first_pairs w size a b = record {
  p = λ pid s. for_each size (λ i. propagate w pid s (a pid i) (b pid s i)) zeros;
  g = λ pid s. for_each size (λ i. generate w pid s (a pid i) (b pid s i)) zeros;
}

-- `Rss_CarryOut(res, a, b, ring_size, size, nodeNet)`.
unfoldable pub rss_carry_out :
    ℕ
    → ℕ
    → ℕ
    → Streams
    → Positions
    → World Shares
    → World Shares
    → World Array
    → World Shares
    → Product
rss_carry_out w ring_size size streams positions memory res a b =
    new_rss_carry_out_aux w ring_size size streams positions memory res (first_pairs w size a b)

-- `b_prime[s][j] = b[s][j] ^ b1`; the memory of `b_prime` beyond is not read.
unfoldable pub flip_bits : ℕ → ℕ → World Shares → World Shares
flip_bits w size b pid s = for_each size (λ i. bit_xor (b pid s i) (ones_share w pid s)) zeros

-- `res[s][j] = GET_BIT(res[s][j], 0) ^ GET_BIT(b1, 0)`.
unfoldable pub flip_result : ℕ → ℕ → World Shares → World Shares
flip_result w size res pid s =
    for_each size (λ i. bit_xor (get_bit (res pid s i) 0) (get_bit (ones_share w pid s) 0))
      (res pid s)

-- `Rss_BitLT(res, a, b, ring_size, size, nodeNet)`.
unfoldable pub rss_bit_lt :
    ℕ
    → ℕ
    → ℕ
    → Streams
    → Positions
    → World Shares
    → World Shares
    → World Array
    → World Shares
    → Product
rss_bit_lt w ring_size size streams positions memory res a b =
    let out = rss_carry_out w ring_size size streams positions memory res a (flip_bits w size b) in
    record { c = flip_result w size out.c; positions = out.positions }
