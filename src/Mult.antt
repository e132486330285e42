-- ===== src/Mult.antt =====
-- src/protocols_basic/Mult.cpp: products of shared values.
pub mod Correct
pub mod Secret
pub mod Bitwise
pub mod Byte
pub mod Public
use rss_ring_ppml.Base.{ℕ, ◌+◌, ◌-◌, ◌==◌, if◌then◌else◌, bit_xor, bit_and}
use rss_ring_ppml.Word.{add, sub, mul, mask, all_ones}
use rss_ring_ppml.Word.Memory.{Array, zeros, for_each, load_all, unit_size}
use rss_ring_ppml.Net.{World, send_and_get_3pc, send_and_get_bit_3pc, multicast_3pc, map_3pc}
use rss_ring_ppml.Prg.{Streams, Positions, prg_getrandom_3pc}
use rss_ring_ppml.Share.{Shares}

-- What a call leaves behind: the shares `c`, and the positions in the streams.
pub record Product : Type 0 where
  pub c : World Shares
  pub positions : Positions

-- The arrays `c[0]` and `c[1]` written anew.
unfoldable pub with_shares : World Array → World Array → World Shares → World Shares
with_shares c0 c1 c pid s = if s == 0 then c0 pid else if s == 1 then c1 pid else c pid s

-- a[0] * b[0] + a[0] * b[1] + a[1] * b[0], where `b` is read at its own index.
unfoldable pub local_product : ℕ → Shares → Shares → ℕ → ℕ → ℕ
local_product w a b i j =
    add w (add w (mul w (a 0 i) (b 0 j)) (mul w (a 0 i) (b 1 j))) (mul w (a 1 i) (b 0 j))

unfoldable pub local_product_bitwise : Shares → Shares → ℕ → ℕ
local_product_bitwise a b i =
    bit_xor (bit_xor (bit_and (a 0 i) (b 0 i)) (bit_and (a 0 i) (b 1 i))) (bit_and (a 1 i) (b 0 i))

-- The form of `Rss_Mult_Byte`, with one conjunction less.
unfoldable pub local_product_byte : Shares → Shares → ℕ → ℕ
local_product_byte a b i =
    bit_xor (bit_and (a 0 i) (bit_xor (b 0 i) (b 1 i))) (bit_and (a 1 i) (b 0 i))

-- The elements of the new shares, and the positions in the streams.
pub record Masked : Type 0 where
  pub own : World Array
  pub other : World Array
  pub positions : Positions

-- The part that `Rss_Mult` and `Rss_Mult_fixed_b` share, for local products `f`. `mine` and
-- `theirs` are the arrays into which random bytes and received data go first.
unfoldable pub mask_and_send :
    ℕ → ℕ → ℕ → Streams → Positions → World Array → World Array → World Array → Masked
mask_and_send w ring_size size streams positions f mine theirs =
    let bytes = unit_size ring_size in
    let drawn_1 = prg_getrandom_3pc streams positions 1 bytes size in
    let mask_1 : World Array = λ pid. load_all bytes size (drawn_1.buffer pid) (mine pid) in
    let v : World Array = λ pid. for_each size (λ i. sub w (f pid i) (mask_1 pid i)) zeros in
    let got = send_and_get_3pc w ring_size size v theirs in
    let drawn_0 = prg_getrandom_3pc streams drawn_1.positions 0 bytes size in
    let mask_0 : World Array = λ pid. load_all bytes size (drawn_0.buffer pid) (mask_1 pid) in
    record {
      own = λ pid i. add w (mask_0 pid i) ((got pid).sent i);
      other = λ pid i. add w ((got pid).received i) (mask_1 pid i);
      positions = drawn_0.positions;
    }

-- The arrays `c[0]` and `c[1]` after the loops have written their first `size` elements.
unfoldable pub store_product : ℕ → World Shares → Masked → Product
unfolding with_shares
store_product size c m = record {
  c =
      with_shares (λ pid. for_each size (m.own pid) (c pid 0))
        (λ pid. for_each size (m.other pid) (c pid 1)) c;
  positions = m.positions;
}

-- `Rss_Mult(c, a, b, size, ring_size, nodeNet)`: the arrays of `c` take the random bytes.
unfoldable pub rss_mult :
    ℕ → ℕ → ℕ → Streams → Positions → World Shares → World Shares → World Shares → Product
rss_mult w ring_size size streams positions c a b = store_product size c (
    mask_and_send w ring_size size streams positions (λ pid i. local_product w (a pid) (b pid) i i)
      (λ pid. c pid 0) (λ pid. c pid 1))

-- `Rss_Mult_fixed_b`: all elements of `a` by the element `b_index` of `b`, with arrays of
-- zeros for the intermediate values.
unfoldable pub rss_mult_fixed_b :
    ℕ → ℕ → ℕ → Streams → Positions → World Shares → World Shares → World Shares → ℕ → Product
rss_mult_fixed_b w ring_size size streams positions c a b b_index = store_product size c (
    mask_and_send w ring_size size streams positions
      (λ pid i. local_product w (a pid) (b pid) i b_index) (λ pid. zeros) (λ pid. zeros))

-- `Rss_Mult_Bitwise`.
unfoldable pub rss_mult_bitwise :
    ℕ → ℕ → ℕ → Streams → Positions → World Shares → World Shares → World Shares → Product
rss_mult_bitwise w ring_size size streams positions c a b =
    let bytes = unit_size ring_size in
    let drawn_1 = prg_getrandom_3pc streams positions 1 bytes size in
    let mask_1 : World Array = λ pid. load_all bytes size (drawn_1.buffer pid) (c pid 0) in
    let v : World Array = λ pid.
      for_each size (λ i. bit_xor (local_product_bitwise (a pid) (b pid) i) (mask_1 pid i)) zeros in
    let got = send_and_get_3pc w ring_size size v (λ pid. c pid 1) in
    let drawn_0 = prg_getrandom_3pc streams drawn_1.positions 0 bytes size in
    let mask_0 : World Array = λ pid. load_all bytes size (drawn_0.buffer pid) (mask_1 pid) in
    store_product size c (record {
      own = λ pid i. bit_xor (mask_0 pid i) ((got pid).sent i);
      other = λ pid i. bit_xor ((got pid).received i) (mask_1 pid i);
      positions = drawn_0.positions;
    })

-- `Rss_Mult_Byte`: the random bytes go straight into `c[0]`, and no bit is masked.
unfoldable pub rss_mult_byte :
    ℕ → Streams → Positions → World Shares → World Shares → World Shares → Product
rss_mult_byte size streams positions c a b =
    let drawn_1 = prg_getrandom_3pc streams positions 1 1 size in
    let mask_1 : World Array = λ pid. for_each size (drawn_1.buffer pid) (c pid 0) in
    let v : World Array = λ pid.
      for_each size (λ i. bit_xor (local_product_byte (a pid) (b pid) i) (mask_1 pid i)) zeros in
    let got = send_and_get_bit_3pc size v (λ pid. c pid 1) in
    let drawn_0 = prg_getrandom_3pc streams drawn_1.positions 0 1 size in
    store_product size c (record {
      own = λ pid i. bit_xor (drawn_0.buffer pid i) ((got pid).sent i);
      other = λ pid i. bit_xor ((got pid).received i) (mask_1 pid i);
      positions = drawn_0.positions;
    })

-- The factors of the two random values in `Rss_MultPub`.
unfoldable pub op_a : ℕ → ℕ → ℕ
op_a w pid =
    if pid == 1 then 1 else if pid == 2 then all_ones w else if pid == 3 then all_ones w else 0

unfoldable pub op_b : ℕ → ℕ → ℕ
op_b w pid = if pid == 1 then 1 else if pid == 2 then 1 else if pid == 3 then all_ones w else 0

pub record PublicProduct : Type 0 where
  pub c : World Array
  pub positions : Positions

-- What a party sends to the others in `Rss_MultPub`.
unfoldable pub pub_part :
    ℕ → ℕ → World Shares → World Shares → World Array → World Array → World Array
unfolding op_a op_b
pub_part w size a b mask_0 mask_1 pid =
    for_each size
      (λ i.
        add w (add w (local_product w (a pid) (b pid) i i) (mul w (op_b w pid) (mask_1 pid i)))
          (mul w (op_a w pid) (mask_0 pid i)))
      (mask_1 pid)

-- `Rss_MultPub(c, a, b, size, ring_size, nodeNet)`; `scratch` is what the memory of `v_a` holds
-- when it is allocated.
unfoldable pub rss_mult_pub :
    ℕ
    → ℕ
    → ℕ
    → Streams
    → Positions
    → World Array
    → World Array
    → World Shares
    → World Shares
    → PublicProduct
rss_mult_pub w ring_size size streams positions scratch c a b =
    let bytes = unit_size ring_size in
    let drawn_0 = prg_getrandom_3pc streams positions 0 bytes size in
    let mask_0 : World Array = λ pid. load_all bytes size (drawn_0.buffer pid) (scratch pid) in
    let drawn_1 = prg_getrandom_3pc streams drawn_0.positions 1 bytes size in
    let mask_1 : World Array = λ pid. load_all bytes size (drawn_1.buffer pid) (c pid) in
    let part = pub_part w size a b mask_0 mask_1 in
    let send_buf : World (ℕ → Array) = λ pid j. if j + 1 == pid then zeros else part pid in
    let recv_buf = multicast_3pc w ring_size size send_buf (λ pid j. zeros) in
    record {
      c = λ pid.
          for_each size
            (λ i. mask w ring_size (
              add w (add w (part pid i) (recv_buf pid (map_3pc pid 0 - 1) i))
                (recv_buf pid (map_3pc pid 1 - 1) i)))
            (part pid);
      positions = drawn_1.positions;
    }
