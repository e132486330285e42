-- ===== src/BitAdd.antt =====
-- src/protocols_composite/bitAdd.cpp: sums of numbers shared by exclusive or. `Rss_CircleOpL` makes
-- the carries of all positions from pairs (p, g), in rounds that reach twice as far each time.
pub mod Places
pub mod Collect
pub mod Scan
pub mod Sum
pub mod Fill
pub mod Round
pub mod Rounds
pub mod Space
pub mod Correct
use rss_ring_ppml.Base.{
  ℕ, zero, suc, ◌+◌, ◌-◌, ◌*◌, ◌/◌, ◌%◌, ◌^◌, ltb, ◌&&◌, if◌then◌else◌, bit_and, bit_xor,
}
use rss_ring_ppml.Word.{shl, shr, get_bit, set_bit}
use rss_ring_ppml.Word.Memory.{Array, zeros, put, for_each, unit_size}
use rss_ring_ppml.Net.{World}
use rss_ring_ppml.Prg.{Streams, Positions}
use rss_ring_ppml.Share.{Shares}
use rss_ring_ppml.Mult.{Product, rss_mult_byte, rss_mult_bitwise}
use rss_ring_ppml.BitLt.{Pairs, cleared_pairs, split_bytes, propagate}

-- `ceil(log2(n))`, where `fuel` is at least `n`.
unfoldable pub ceil_log2 : ℕ → ℕ → ℕ
ceil_log2 zero n = 0
ceil_log2 (suc fuel) n = let rest = ceil_log2 fuel ((n + 1) / 2) in if ltb 1 n then suc rest else 0

-- `index_array[0]`, `index_array[1]` and `op_r`.
pub record Indices : Type 0 where
  pub from : Array
  pub to : Array
  pub op_r : ℕ

-- The body of the loop over `z`: a pair of places of `r_size` goes to the arrays. `y` is no multiple
-- of `r_size_2`, so that the places are above 0 when 1 is taken off.
unfoldable pub add_index : ℕ → ℕ → ℕ → ℕ → Indices → Indices
unfolding put
add_index r_size r_size_2 y z ops =
    if ltb (y % r_size_2) (r_size + 1) && ltb ((y + z) % (r_size_2 + 1)) (r_size + 1)
    then record {
      from = put ops.op_r (y % r_size_2 - 1) ops.from;
      to = put ops.op_r ((y + z) % (r_size_2 + 1) - 1) ops.to;
      op_r = ops.op_r + 1;
    }
    else ops

-- `y` of the loop over `j`, in the round with `half = pow(2, i - 1)`.
unfoldable pub start_place : ℕ → ℕ → ℕ → ℕ
start_place r_size_2 half j = (half + j * (2 * half)) % r_size_2

-- The first `n` passes of the two loops; pass `t` has `j = t / half + 1` and `z = t % half + 1`.
unfoldable pub add_indices : ℕ → ℕ → ℕ → ℕ → Indices → Indices
unfolding add_index start_place
add_indices r_size r_size_2 half zero ops = ops
add_indices r_size r_size_2 half (suc t) ops =
    add_index r_size r_size_2 (start_place r_size_2 half (t / half + 1)) (t % half + 1)
      (add_indices r_size r_size_2 half t ops)

-- The index arrays of a round, where `op_r` starts at 0 and the arrays keep what they hold.
unfoldable pub round_indices : ℕ → ℕ → ℕ → Indices → Indices
unfolding add_indices
round_indices r_size r_size_2 half ops =
    add_indices r_size r_size_2 half (r_size_2 / (2 * half) * half) (record ops { op_r = 0 })

-- `buffer[s][i]` of `CarryBuffer2` after `k` passes, from the words `p` and `g` of `d`.
unfoldable pub buffer_p : ℕ → Array → ℕ → ℕ → ℕ → ℕ → ℕ
buffer_p w from p g zero x = x
buffer_p w from p g (suc j) x =
    set_bit w (set_bit w (buffer_p w from p g j x) (2 * j) (get_bit p (from j))) (2 * j + 1)
      (get_bit g (from j))

-- `buffer[numShares + s][i]`.
unfoldable pub buffer_g : ℕ → Array → ℕ → ℕ → ℕ → ℕ
buffer_g w to p zero x = x
buffer_g w to p (suc j) x =
    set_bit w (set_bit w (buffer_g w to p j x) (2 * j) (get_bit p (to j))) (2 * j + 1)
      (get_bit p (to j))

-- `CarryBuffer2(buffer, d, index_array, size, k, numShares)`.
unfoldable pub carry_buffer_2 : ℕ → ℕ → Indices → Pairs → Pairs → Pairs
carry_buffer_2 w size ops buffer d = record {
  p = λ pid s.
      for_each size
        (λ i. buffer_p w ops.from (d.p pid s i) (d.g pid s i) ops.op_r (buffer.p pid s i))
        (buffer.p pid s);
  g = λ pid s.
      for_each size (λ i. buffer_g w ops.to (d.p pid s i) ops.op_r (buffer.g pid s i))
        (buffer.g pid s);
}

-- `d[s][l]` after `n` passes of the loop that puts the products into place, from the bytes `u` at
-- `start`.
unfoldable pub place_p : ℕ → Array → Array → ℕ → ℕ → ℕ → ℕ
place_p w to u start zero x = x
place_p w to u start (suc j) x =
    set_bit w (place_p w to u start j x) (to j) (get_bit (u (shr j 2 + start)) (bit_and (2 * j) 7))

-- `d[numShares + s][l]`.
unfoldable pub place_g : ℕ → Array → Array → ℕ → ℕ → ℕ → ℕ
place_g w to u start zero x = x
place_g w to u start (suc j) x =
    let before = place_g w to u start j x in
    set_bit w before (to j)
      (bit_xor (get_bit (u (shr j 2 + start)) (bit_and (2 * j + 1) 7)) (get_bit before (to j)))

-- The variables of the loop over the rounds.
pub record State : Type 0 where
  pub ops : Indices
  pub buffer : Pairs
  pub a : World Shares
  pub b : World Shares
  pub u : World Shares
  pub d : Pairs
  pub positions : Positions

-- One round.
unfoldable pub circle_round : ℕ → ℕ → ℕ → ℕ → Streams → ℕ → State → State
unfolding carry_buffer_2 place_p place_g
circle_round w r_size r_size_2 size streams half st =
    let ops = round_indices r_size r_size_2 half st.ops in
    let n = unit_size (2 * ops.op_r) in
    let buffer = carry_buffer_2 w size ops st.buffer st.d in
    let a = split_bytes n size buffer.p st.a in
    let b = split_bytes n size buffer.g st.b in
    let product = rss_mult_byte (n * size) streams st.positions st.u a b in
    record {
      ops = ops;
      buffer = buffer;
      a = a;
      b = b;
      u = product.c;
      d = record {
        p = λ pid s.
            for_each size
              (λ i. place_p w ops.to (product.c pid s) (i * n) ops.op_r (st.d.p pid s i))
              (st.d.p pid s);
        g = λ pid s.
            for_each size
              (λ i. place_g w ops.to (product.c pid s) (i * n) ops.op_r (st.d.g pid s i))
              (st.d.g pid s);
      };
      positions = product.positions;
    }

-- The first `n` rounds: `for (i = 1; i <= rounds; i++)`.
unfoldable pub circle_rounds : ℕ → ℕ → ℕ → ℕ → Streams → ℕ → State → State
unfolding circle_round
circle_rounds w r_size r_size_2 size streams zero st = st
circle_rounds w r_size r_size_2 size streams (suc i) st =
    circle_round w r_size r_size_2 size streams (2 ^ i)
      (circle_rounds w r_size r_size_2 size streams i st)

-- The arrays when the rounds start.
unfoldable pub circle_start : Positions → Pairs → State
circle_start positions d = record {
  ops = record { from = zeros; to = zeros; op_r = 0 };
  buffer = cleared_pairs;
  a = λ pid s. zeros;
  b = λ pid s. zeros;
  u = λ pid s. zeros;
  d = d;
  positions = positions;
}

-- What `Rss_CircleOpL` leaves behind.
pub record Carries : Type 0 where
  pub d : Pairs
  pub positions : Positions

-- `Rss_CircleOpL(d, r_size, size, nodeNet)`.
unfoldable pub rss_circle_op_l : ℕ → ℕ → ℕ → Streams → Positions → Pairs → Carries
unfolding ceil_log2 circle_rounds circle_start
rss_circle_op_l w r_size size streams positions d =
    let rounds = ceil_log2 r_size r_size in
    let last = circle_rounds w r_size (2 ^ rounds) size streams rounds (circle_start positions d) in
    if ltb 1 r_size
    then record { d = last.d; positions = last.positions }
    else record { d = d; positions = positions }

-- `x ^ (g << 1)`.
unfoldable pub sum_word : ℕ → ℕ → ℕ → ℕ
sum_word w x g = bit_xor x (shl w g 1)

-- `Rss_BitAdd(res, a, b, ring_size, size, nodeNet)`, where both are shared.
unfoldable pub rss_bit_add :
    ℕ → ℕ → ℕ → Streams → Positions → World Shares → World Shares → World Shares → Product
unfolding rss_circle_op_l sum_word
rss_bit_add w ring_size size streams positions res a b =
    let product = rss_mult_bitwise w ring_size size streams positions res a b in
    let d : Pairs = record {
      p = λ pid s. for_each size (λ i. bit_xor (a pid s i) (b pid s i)) zeros;
      g = λ pid s. for_each size (product.c pid s) zeros;
    } in
    let out = rss_circle_op_l w ring_size size streams product.positions d in
    record {
      c = λ pid s.
          for_each size (λ i. sum_word w (bit_xor (a pid s i) (b pid s i)) (out.d.g pid s i))
            (product.c pid s);
      positions = out.positions;
    }

-- `Rss_BitAdd(res, a, b, ring_size, size, nodeNet)`, where all parties hold `a`.
unfoldable pub rss_bit_add_public :
    ℕ → ℕ → ℕ → Streams → Positions → World Shares → World Array → World Shares → Product
unfolding rss_circle_op_l sum_word propagate
rss_bit_add_public w ring_size size streams positions res a b =
    let d : Pairs = record {
      p = λ pid s. for_each size (λ i. propagate w pid s (a pid i) (b pid s i)) zeros;
      g = λ pid s. for_each size (λ i. bit_and (a pid i) (b pid s i)) zeros;
    } in
    let out = rss_circle_op_l w ring_size size streams positions d in
    record {
      c = λ pid s.
          for_each size
            (λ i. sum_word w (propagate w pid s (a pid i) (b pid s i)) (out.d.g pid s i))
            (res pid s);
      positions = out.positions;
    }

-- `Rss_nBitAdd(res, r_bitwise, ring_size, size, nodeNet)`: with three parties the threshold is 1,
-- and the one round adds the numbers of the parties 1 and 2.
unfoldable pub rss_n_bit_add :
    ℕ → ℕ → ℕ → Streams → Positions → World Shares → World Shares → Product
unfolding rss_bit_add
rss_n_bit_add w ring_size size streams positions res r_bitwise =
    rss_bit_add w ring_size size streams positions res
      (λ pid s. for_each size (r_bitwise pid s) zeros)
      (λ pid s. for_each size (λ i. r_bitwise pid s (size + i)) zeros)
