-- ===== src/Open/Bitwise.antt =====
-- Opening of values that are shared by exclusive or.
use rss_ring_ppml.Base.{
  ℕ, ◌+◌, ◌%◌, ◌^◌, ◌<◌, ◌≡◌, ◌∙◌, ap, arith, bit_xor, ◌==◌, ==→≡, Bool-cases, inl, inr,
}
use rss_ring_ppml.Base.Bits.{bit, bit-lt, bit-xor, mod-eq_of_bit}
use rss_ring_ppml.Base.Cong.{Cong, Cong_eq}
use rss_ring_ppml.Word.{IsRing}
use rss_ring_ppml.Word.Laws.{mask_mod}
use rss_ring_ppml.Word.Memory.{Array, for_each_at}
use rss_ring_ppml.Net.{World, map_3pc}
use rss_ring_ppml.Net.Rounds.{
  sent-bit, received-bit, send_and_get_bit-sent, send_and_get_bit-received,
}
use rss_ring_ppml.Share.{Shares, IsXorShared}
use rss_ring_ppml.Share.Laws.{party_1, party_2, party_3, IsShared_congr}
use rss_ring_ppml.Open.{rss_open_bitwise, rss_open_byte, keep_sent}

-- A bit of the exclusive or of three words, from the sum of their bits.
bit-xor_three :
    (x y z j t : ℕ)
    → Cong 2 (bit x j + bit y j + bit z j) (bit t j)
    → bit (bit_xor (bit_xor x y) z) j ≡ bit t j
bit-xor_three x y z j t c =
    omega (arith, bit-xor (bit_xor x y) z j, bit-xor x y j, bit-lt t j, c.same)

module _ {w k : ℕ} (ring : IsRing w k) (size : ℕ) (res : World Array) (a : World Shares) where
  opened_bits :
      (pid : ℕ) {i : ℕ} (x : ℕ)
      → i < size
      → ((j : ℕ)
          → j < k
          → Cong 2
              (bit (a pid 0 i) j + bit (a pid 1 i) j + bit (a (map_3pc pid 1) 1 i) j)
              (bit x j))
      → (rss_open_bitwise w k size res a).res pid i ≡ x % 2 ^ k
  unfolding rss_open_bitwise
  opened_bits pid {i} x h sums =
      for_each_at size _ _ h
      ∙ mask_mod ring.fits _
      ∙ mod-eq_of_bit k _ x (λ j lt. bit-xor_three _ _ _ j x (
          rw
            (
              sent-bit w k size (λ pid. a pid 1) res ring pid j h lt,
              received-bit w k size (λ pid. a pid 1) res ring pid j h lt,
            )
            (sums j lt)))

  bits_kept :
      {i : ℕ} (j : ℕ)
      → i < size
      → j < k
      → (pid s : ℕ)
      → Cong 2 (bit ((rss_open_bitwise w k size res a).a pid s i) j) (bit (a pid s i) j)
  unfolding rss_open_bitwise keep_sent
  bits_kept {i} j h lt pid s = elim (Bool-cases (s == 1)) [
    | inl e ↦ rw (e, ==→≡ s 1 e) (Cong_eq (sent-bit w k size (λ pid. a pid 1) res ring pid j h lt))
    | inr e ↦ rw e (Cong_eq (λ _. bit (a pid s i) j))
  ]

  -- At a supported ring size, for a value shared by exclusive or at an index `i` below `size`,
  -- every party's `res[i]` after `Rss_Open_Bitwise` is the value modulo `2 ^ ring_size`, and the
  -- shares still share it.
  pub rss_open_bitwise_lem :
      {i x : ℕ}
      → i < size
      → IsXorShared k a i x
      → ((rss_open_bitwise w k size res a).res 1 i ≡ x % 2 ^ k)
        × ((rss_open_bitwise w k size res a).res 2 i ≡ x % 2 ^ k)
        × ((rss_open_bitwise w k size res a).res 3 i ≡ x % 2 ^ k)
        × IsXorShared k (rss_open_bitwise w k size res a).a i x
  unfolding map_3pc
  rss_open_bitwise_lem {i} {x} h s = (
    opened_bits 1 x h (λ j lt. party_1 (s.at_bit j lt)),
    opened_bits 2 x h (λ j lt. party_2 (s.at_bit j lt)),
    opened_bits 3 x h (λ j lt. party_3 (s.at_bit j lt)),
    record {
      at_bit = λ j lt.
          IsShared_congr (λ pid s n. bit (a pid s n) j)
            (λ pid s n. bit ((rss_open_bitwise w k size res a).a pid s n) j) (bits_kept j h lt)
            (s.at_bit j lt);
    },
  )

module _ (size : ℕ) (res : World Array) (a : World Shares) where
  opened_byte :
      (pid : ℕ) {i : ℕ} (x : ℕ)
      → i < size
      → ((j : ℕ)
          → j < 8
          → Cong 2
              (bit (a pid 0 i) j + bit (a pid 1 i) j + bit (a (map_3pc pid 1) 1 i) j)
              (bit x j))
      → (rss_open_byte size res a).res pid i % 256 ≡ x % 256
  unfolding rss_open_byte
  opened_byte pid {i} x h sums =
      ap (λ (t : ℕ). t % 256) (for_each_at size _ _ h)
      ∙ mod-eq_of_bit 8 _ x (λ j lt. bit-xor_three _ _ _ j x (
          rw
            (
              send_and_get_bit-sent size (λ pid. a pid 1) res pid h,
              send_and_get_bit-received size (λ pid. a pid 1) res pid h,
            )
            (sums j lt)))

  -- For a byte shared by exclusive or at an index `i` below `size`, the low 8 bits of every
  -- party's `res[i]` after `Rss_Open_Byte` are that byte.
  rss_open_byte_lem :
      {i x : ℕ}
      → i < size
      → IsXorShared 8 a i x
      → ((rss_open_byte size res a).res 1 i % 256 ≡ x % 256)
        × ((rss_open_byte size res a).res 2 i % 256 ≡ x % 256)
        × ((rss_open_byte size res a).res 3 i % 256 ≡ x % 256)
  unfolding map_3pc
  rss_open_byte_lem {i} {x} h s = (
    opened_byte 1 x h (λ j lt. party_1 (s.at_bit j lt)),
    opened_byte 2 x h (λ j lt. party_2 (s.at_bit j lt)),
    opened_byte 3 x h (λ j lt. party_3 (s.at_bit j lt)),
  )
