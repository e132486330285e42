-- ===== src/Mult/Byte.antt =====
-- `Rss_Mult_Byte` shares the conjunction of bytes.
use rss_ring_ppml.Base.{ℕ, ◌+◌, ◌*◌, ◌%◌, ◌^◌, ◌<◌, ◌≡◌, ◌∙◌, ap, arith, bit_xor, bit_and}
use rss_ring_ppml.Base.Bits.{bit, bit-lt, bit-xor, bit-and, mod-eq_of_bit}
use rss_ring_ppml.Base.Cong.{
  Cong, Cong_trans, Cong_sym, eq_of_Cong, Cong_refl, Cong_eq, add-Cong, mul-Cong, mod-Cong,
}
use rss_ring_ppml.Word.Memory.{Array, zeros, for_each, for_each_at}
use rss_ring_ppml.Net.{World, map_3pc}
use rss_ring_ppml.Net.Rounds.{send_and_get_bit-sent, send_and_get_bit-received}
use rss_ring_ppml.Prg.{Streams, Positions, key_3pc, prg_getrandom_3pc}
use rss_ring_ppml.Prg.Sync.{InStep, draw_both-InStep}
use rss_ring_ppml.Share.{Shares, IsShared, IsXorShared}
use rss_ring_ppml.Share.Laws.{reshare, products_total}
use rss_ring_ppml.Mult.Bitwise
use rss_ring_ppml.Mult.{store_product, local_product_byte, local_product_bitwise, rss_mult_byte}
use rss_ring_ppml.Mult.Bitwise.{masked_bit, local_product_bits_total}

local_product_bit :
    (a b : Shares) (i j : ℕ)
    → Cong 2 (bit (local_product_byte a b i) j) (
        bit (a 0 i) j * bit (b 0 i) j
        + bit (a 0 i) j * bit (b 1 i) j
        + bit (a 1 i) j * bit (b 0 i) j)
unfolding local_product_byte
local_product_bit a b i j =
    Cong_trans
      (Cong_eq (bit-xor (bit_and (a 0 i) (bit_xor (b 0 i) (b 1 i))) (bit_and (a 1 i) (b 0 i)) j))
      (Cong_trans (mod-Cong 2 _) (
        add-Cong
          (Cong_trans
            (Cong_eq (
              bit-and (a 0 i) (bit_xor (b 0 i) (b 1 i)) j
              ∙ ap (λ (t : ℕ). bit (a 0 i) j * t) (bit-xor (b 0 i) (b 1 i) j)))
            (Cong_trans (mul-Cong (Cong_refl (bit (a 0 i) j)) (mod-Cong 2 _))
              (Cong_eq (omega arith))))
          (Cong_eq (bit-and (a 1 i) (b 0 i) j))))

-- The local products of `Rss_Mult_Byte` and of `Rss_Mult_Bitwise` agree in every number `n` of low
-- bits, for all shares.
pub local_product_byte-local_product_bitwise :
    (a b : Shares) (i n : ℕ)
    → local_product_byte a b i % 2 ^ n ≡ local_product_bitwise a b i % 2 ^ n
local_product_byte-local_product_bitwise a b i n = mod-eq_of_bit n _ _ (λ j lt.
    eq_of_Cong (bit-lt _ j) (bit-lt _ j)
      (Cong_trans (local_product_bit a b i j) (Cong_sym (Bitwise.local_product_bit a b i j))))

module _ (size : ℕ) (streams : Streams) (positions : Positions) (step : InStep positions)
    (c a b : World Shares) where
  abbrev out : World Shares
  out = (rss_mult_byte size streams positions c a b).c

  abbrev f : World Array
  f pid = local_product_byte (a pid) (b pid)

  abbrev mask_1 : World Array
  mask_1 pid = for_each size ((prg_getrandom_3pc streams positions 1 1 size).buffer pid) (c pid 0)

  abbrev v : World Array
  v pid = for_each size (λ n. bit_xor (f pid n) (mask_1 pid n)) zeros

  module _ {i : ℕ} (h : i < size) (j : ℕ) where
    abbrev z : ℕ → ℕ → ℕ
    z key pid = bit (streams (key_3pc pid key) (positions pid key + i)) j

    bit-mask_1 : (pid : ℕ) → bit (mask_1 pid i) j ≡ z 1 pid
    unfolding prg_getrandom_3pc
    bit-mask_1 pid = ap (λ (t : ℕ). bit t j) (for_each_at size _ (c pid 0) h)

    bit-v : (pid : ℕ) → bit (v pid i) j ≡ bit (bit_xor (f pid i) (mask_1 pid i)) j
    bit-v pid = ap (λ (t : ℕ). bit t j) (for_each_at size _ zeros h)

    own_bit :
        (pid : ℕ) {n : ℕ}
        → z 1 pid ≡ n
        → Cong 2 (bit (out pid 0 i) j + n) (z 0 pid + bit (f pid i) j)
    unfolding rss_mult_byte store_product prg_getrandom_3pc
    own_bit pid e = rw (for_each_at size _ (c pid 0) h) (
        masked_bit _ _ (f pid i) (mask_1 pid i) j (z 0 pid)
          (omega (
            arith,
            ap (λ (t : ℕ). bit t j) (send_and_get_bit-sent size v (λ pid. c pid 1) pid h),
            bit-v pid,
          ))
          (bit-mask_1 pid ∙ e))

    other_bit :
        (pid : ℕ) {n n' : ℕ}
        → z 1 pid ≡ n
        → z 1 (map_3pc pid 1) ≡ n'
        → Cong 2 (bit (out pid 1 i) j + n') (n + bit (f (map_3pc pid 1) i) j)
    unfolding rss_mult_byte store_product
    other_bit pid {n} e e' = rw (for_each_at size _ (c pid 1) h) (
        masked_bit _ _ (f (map_3pc pid 1) i) (mask_1 (map_3pc pid 1) i) j n
          (omega (
            arith,
            bit-mask_1 pid,
            e,
            ap (λ (t : ℕ). bit t j) (send_and_get_bit-received size v (λ pid. c pid 1) pid h),
            bit-v (map_3pc pid 1),
          ))
          (bit-mask_1 (map_3pc pid 1) ∙ e'))

    bit-IsShared :
        {x : ℕ}
        → Cong 2 (bit (f 1 i) j + bit (f 2 i) j + bit (f 3 i) j) x
        → IsShared 1 (λ pid s n. bit (out pid s n) j) i x
    unfolding map_3pc
    bit-IsShared sum =
        reshare {k = 1} (λ pid s n. bit (out pid s n) j) (z 0) (λ pid. bit (f pid i) j)
          (own_bit 1 z_1) (own_bit 2 z_2) (own_bit 3 z_3) (other_bit 1 z_1 z_2)
          (other_bit 2 z_2 z_3) (other_bit 3 z_3 z_1) sum
      where
        z_1 : z 1 1 ≡ z 0 2
        z_1 = unfold key_3pc in ap (λ (t : ℕ). bit (streams 2 (t + i)) j) step.first

        z_2 : z 1 2 ≡ z 0 3
        z_2 = unfold key_3pc in ap (λ (t : ℕ). bit (streams 3 (t + i)) j) step.second

        z_3 : z 1 3 ≡ z 0 1
        z_3 = unfold key_3pc in ap (λ (t : ℕ). bit (streams 1 (t + i)) j) step.third

  -- The same for one bit of the bytes.
  pub bit-rss_mult_byte :
      {i x y : ℕ} (j : ℕ)
      → i < size
      → IsShared 1 (λ pid s n. bit (a pid s n) j) i x
      → IsShared 1 (λ pid s n. bit (b pid s n) j) i y
      → IsShared 1 (λ pid s n. bit (out pid s n) j) i (x * y)
  bit-rss_mult_byte {i} j h s t = bit-IsShared h j (
      Cong_trans
        (add-Cong (add-Cong (local_product_bit (a 1) (b 1) i j) (local_product_bit (a 2) (b 2) i j))
          (local_product_bit (a 3) (b 3) i j))
        (products_total {k = 1} (λ pid s' n. bit (a pid s' n) j) (λ pid s' n. bit (b pid s' n) j) s
          t))

  pub rss_mult_byte-InStep : InStep (rss_mult_byte size streams positions c a b).positions
  unfolding rss_mult_byte store_product
  rss_mult_byte-InStep = draw_both-InStep streams positions 1 size step

  -- For bytes `x` and `y` shared by exclusive or at an index `i` below `size`, and streams in
  -- step, `Rss_Mult_Byte` leaves in `c` exclusive-or shares of `x & y`, and the streams in step
  -- again.
  rss_mult_byte_lem :
      {i x y : ℕ}
      → i < size
      → IsXorShared 8 a i x
      → IsXorShared 8 b i y
      → IsXorShared 8 (rss_mult_byte size streams positions c a b).c i (bit_and x y)
        × InStep (rss_mult_byte size streams positions c a b).positions
  unfolding rss_mult_byte store_product
  rss_mult_byte_lem {i} {x} {y} h s t = (
    record {
      at_bit = λ j lt. bit-IsShared h j (
          local_product_bits_total a b (λ pid. f pid i) s t j lt
            (λ pid. local_product_bit (a pid) (b pid) i j));
    },
    rss_mult_byte-InStep,
  )
