-- ===== src/Mult/Bitwise.antt =====
-- `Rss_Mult_Bitwise` shares the bitwise conjunction.
use rss_ring_ppml.Base.{ℕ, ◌+◌, ◌*◌, ◌<◌, ◌≡◌, ◌∙◌, sym, ap, arith, bit_xor, bit_and}
use rss_ring_ppml.Base.Bits.{bit, bit-xor, bit-and, bit-eq_of_mod}
use rss_ring_ppml.Base.Cong.{Cong, Cong_trans, Cong_eq, add-Cong}
use rss_ring_ppml.Word.{IsRing}
use rss_ring_ppml.Word.Memory.{
  Array, Buffer, zeros, for_each, for_each_at, load_all, load_all_lem, read_le, unit_size,
  le-unit_size,
}
use rss_ring_ppml.Net.{World, map_3pc}
use rss_ring_ppml.Net.Rounds.{sent-bit, received-bit}
use rss_ring_ppml.Prg.{Streams, Positions, key_3pc, prg_getrandom_3pc}
use rss_ring_ppml.Prg.Sync.{InStep, draw_both-InStep}
use rss_ring_ppml.Share.{Shares, IsShared, IsXorShared}
use rss_ring_ppml.Share.Laws.{reshare, products_total}
use rss_ring_ppml.Mult.{store_product, local_product_bitwise, rss_mult_bitwise}
use rss_ring_ppml.Mult.Correct.{random_at, random_1, random_2, random_3}

-- A bit of `s ^ t`, where one of the two is random and the other a masked value.
pub masked_bit :
    (s t x mask j z0 : ℕ) {z1 : ℕ}
    → bit s j + bit t j ≡ z0 + bit (bit_xor x mask) j
    → bit mask j ≡ z1
    → Cong 2 (bit (bit_xor s t) j + z1) (z0 + bit x j)
masked_bit s t x mask j z0 p q = record { same = omega (arith, bit-xor s t j, bit-xor x mask j) }

pub local_product_bit :
    (a b : Shares) (i j : ℕ)
    → Cong 2 (bit (local_product_bitwise a b i) j) (
        bit (a 0 i) j * bit (b 0 i) j
        + bit (a 0 i) j * bit (b 1 i) j
        + bit (a 1 i) j * bit (b 0 i) j)
unfolding local_product_bitwise
local_product_bit a b i j = record {
  same = omega (
    arith,
    bit-xor (bit_xor (bit_and (a 0 i) (b 0 i)) (bit_and (a 0 i) (b 1 i))) (bit_and (a 1 i) (b 0 i))
        j,
    bit-xor (bit_and (a 0 i) (b 0 i)) (bit_and (a 0 i) (b 1 i)) j,
    bit-and (a 0 i) (b 0 i) j,
    bit-and (a 0 i) (b 1 i) j,
    bit-and (a 1 i) (b 0 i) j,
  );
}

-- The local products of the parties, bit by bit, add up to the conjunction.
pub local_product_bits_total :
    {k i x y : ℕ} (a b : World Shares) (f : ℕ → ℕ)
    → IsXorShared k a i x
    → IsXorShared k b i y
    → (j : ℕ) → j < k
    → ((pid : ℕ)
        → Cong 2 (bit (f pid) j) (
            bit (a pid 0 i) j * bit (b pid 0 i) j
            + bit (a pid 0 i) j * bit (b pid 1 i) j
            + bit (a pid 1 i) j * bit (b pid 0 i) j))
    → Cong 2 (bit (f 1) j + bit (f 2) j + bit (f 3) j) (bit (bit_and x y) j)
local_product_bits_total {x} {y} a b f s t j lt e =
    Cong_trans (add-Cong (add-Cong (e 1) (e 2)) (e 3)) (
      Cong_trans
        (products_total {k = 1} (λ pid s n. bit (a pid s n) j) (λ pid s n. bit (b pid s n) j)
          (s.at_bit j lt) (t.at_bit j lt))
        (Cong_eq (sym (bit-and x y j))))

module _ {w k : ℕ} (ring : IsRing w k) (size : ℕ) (streams : Streams) (positions : Positions)
    (step : InStep positions) (c a b : World Shares) where
  abbrev out : World Shares
  out = (rss_mult_bitwise w k size streams positions c a b).c

  abbrev f : World Array
  f pid = local_product_bitwise (a pid) (b pid)

  abbrev mask_1 : World Array
  mask_1 pid =
      load_all (unit_size k) size
        ((prg_getrandom_3pc streams positions 1 (unit_size k) size).buffer pid) (c pid 0)

  abbrev v : World Array
  v pid = for_each size (λ n. bit_xor (f pid n) (mask_1 pid n)) zeros

  module _ {i : ℕ} (h : i < size) (j : ℕ) (lt : j < k) where
    abbrev z : ℕ → ℕ → ℕ
    z key pid = bit (random_at streams positions (unit_size k) i key pid) j

    load_bit :
        (buffer : Buffer) (x : Array)
        → bit (load_all (unit_size k) size buffer x i) j
          ≡ bit (read_le buffer (i * unit_size k) (unit_size k)) j
    load_bit buffer x =
        bit-eq_of_mod k _ _ j lt
          (load_all_lem {k = k} (unit_size k) size buffer x (le-unit_size k) h).same

    bit-mask_1 : (pid : ℕ) → bit (mask_1 pid i) j ≡ z 1 pid
    unfolding prg_getrandom_3pc
    bit-mask_1 pid = load_bit _ (c pid 0)

    bit-v : (pid : ℕ) → bit (v pid i) j ≡ bit (bit_xor (f pid i) (mask_1 pid i)) j
    bit-v pid = ap (λ (t : ℕ). bit t j) (for_each_at size _ zeros h)

    own_bit :
        (pid : ℕ) {n : ℕ}
        → z 1 pid ≡ n
        → Cong 2 (bit (out pid 0 i) j + n) (z 0 pid + bit (f pid i) j)
    unfolding rss_mult_bitwise store_product prg_getrandom_3pc
    own_bit pid e = rw (for_each_at size _ (c pid 0) h) (
        masked_bit _ _ (f pid i) (mask_1 pid i) j (z 0 pid)
          (omega (
            arith,
            load_bit (λ n. streams (key_3pc pid 0) (positions pid 0 + n)) (mask_1 pid),
            sent-bit w k size v (λ pid. c pid 1) ring pid j h lt,
            bit-v pid,
          ))
          (bit-mask_1 pid ∙ e))

    other_bit :
        (pid : ℕ) {n n' : ℕ}
        → z 1 pid ≡ n
        → z 1 (map_3pc pid 1) ≡ n'
        → Cong 2 (bit (out pid 1 i) j + n') (n + bit (f (map_3pc pid 1) i) j)
    unfolding rss_mult_bitwise store_product
    other_bit pid {n} e e' = rw (for_each_at size _ (c pid 1) h) (
        masked_bit _ _ (f (map_3pc pid 1) i) (mask_1 (map_3pc pid 1) i) j n
          (omega (
            arith,
            bit-mask_1 pid,
            e,
            received-bit w k size v (λ pid. c pid 1) ring pid j h lt,
            bit-v (map_3pc pid 1),
          ))
          (bit-mask_1 (map_3pc pid 1) ∙ e'))

    bit-IsShared :
        {x : ℕ}
        → Cong 2 (bit (f 1 i) j + bit (f 2 i) j + bit (f 3 i) j) x
        → IsShared 1 (λ pid s n. bit (out pid s n) j) i x
    unfolding map_3pc
    bit-IsShared sum =
        reshare {k = 1} (λ pid s n. bit (out pid s n) j) (z 0) (λ pid. bit (f pid i) j)
          (own_bit 1 z_1) (own_bit 2 z_2) (own_bit 3 z_3) (other_bit 1 z_1 z_2)
          (other_bit 2 z_2 z_3) (other_bit 3 z_3 z_1) sum
      where
        z_1 : z 1 1 ≡ z 0 2
        z_1 = ap (λ (t : ℕ). bit t j) (random_1 streams positions step (unit_size k) i)

        z_2 : z 1 2 ≡ z 0 3
        z_2 = ap (λ (t : ℕ). bit t j) (random_2 streams positions step (unit_size k) i)

        z_3 : z 1 3 ≡ z 0 1
        z_3 = ap (λ (t : ℕ). bit t j) (random_3 streams positions step (unit_size k) i)

  -- At a supported ring size, for `x` and `y` shared by exclusive or at an index `i` below
  -- `size`, and streams in step, `Rss_Mult_Bitwise` leaves in `c` exclusive-or shares of the
  -- `ring_size` low bits of `x & y`, and the streams in step again.
  pub rss_mult_bitwise_lem :
      {i x y : ℕ}
      → i < size
      → IsXorShared k a i x
      → IsXorShared k b i y
      → IsXorShared k (rss_mult_bitwise w k size streams positions c a b).c i (bit_and x y)
        × InStep (rss_mult_bitwise w k size streams positions c a b).positions
  unfolding rss_mult_bitwise store_product
  rss_mult_bitwise_lem {i} {x} {y} h s t = (
    record {
      at_bit = λ j lt. bit-IsShared h j lt (
          local_product_bits_total a b (λ pid. f pid i) s t j lt
            (λ pid. local_product_bit (a pid) (b pid) i j));
    },
    draw_both-InStep streams positions (unit_size k) size step,
  )

pub rss_mult_bitwise-InStep :
    (w k size : ℕ) (streams : Streams) (positions : Positions)
    → InStep positions
    → (c a b : World Shares) → InStep (rss_mult_bitwise w k size streams positions c a b).positions
unfolding rss_mult_bitwise store_product
rss_mult_bitwise-InStep w k size streams positions step c a b =
    draw_both-InStep streams positions (unit_size k) size step
