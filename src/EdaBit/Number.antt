-- ===== src/EdaBit/Number.antt =====
-- Which number `Rss_edaBit` shares.
use rss_ring_ppml.Base.{ℕ, ◌+◌, ◌-◌, ◌*◌, ◌/◌, ◌%◌, ◌^◌, ◌<◌, ◌≤◌, ◌≡◌, refl, sym, ≥→ltb, arith}
use rss_ring_ppml.Base.Cong.{Cong, Cong_eq, Cong_trans, add-Cong}
use rss_ring_ppml.Word.{IsRing, IsWidth}
use rss_ring_ppml.Word.Memory.{Array, Buffer, zeros, unit_size, read_le, copy_low, copy_low_lem}
use rss_ring_ppml.Prg.{Streams, Positions, key_3pc, prg_getrandom_3pc}
use rss_ring_ppml.Prg.Sync.{InStep}
use rss_ring_ppml.Share.{IsShared, IsXorShared}
use rss_ring_ppml.EdaBit.{bytes_of_word, copy_at, random_words, rss_eda_bit}
use rss_ring_ppml.EdaBit.Correct.{number, rss_eda_bit_lem}

-- The word `i` of the bytes that the key `key` hands out from `start` on.
unfoldable pub key_word : ℕ → Streams → ℕ → ℕ → ℕ → ℕ
key_word w streams key start i = read_le (λ j. streams key (start + j)) (i * (w / 8)) (w / 8)

sub_nothing : (i : ℕ) → i - 0 ≡ i
sub_nothing i = omega arith

copy_at_start :
    (w n i : ℕ) (buffer : Buffer) (x : Array)
    → copy_at w 0 n buffer x i
      ≡ copy_low (bytes_of_word w n i) (x i) (read_le buffer (i * (w / 8)) (bytes_of_word w n i))
unfolding copy_at
copy_at_start w n i buffer x = rw (≥→ltb i 0 (omega arith), sub_nothing i) refl

module _ {w k : ℕ} (ring : IsRing w k) (width : IsWidth w) (bytes : w % 8 ≡ 0) (streams : Streams)
    (size : ℕ) (positions : Positions) (i : ℕ)
    (whole : (i + 1) * (w / 8) ≤ size * unit_size k) where
  whole_word : bytes_of_word w (size * unit_size k) i ≡ w / 8
  unfolding bytes_of_word
  whole_word = rw (≥→ltb (size * unit_size k - i * (w / 8)) (w / 8) (omega (arith, whole))) refl

  random_words-key_word :
      (pid : ℕ)
      → Cong
          (2 ^ k)
          (random_words w k size streams positions pid i)
          (key_word w streams (key_3pc pid 2) (positions pid 2) i)
  unfolding random_words prg_getrandom_3pc key_word
  random_words-key_word pid =
      Cong_trans
        (Cong_eq (
          copy_at_start w (size * unit_size k) i
            (λ j. streams (key_3pc pid 2) (positions pid 2 + j)) zeros))
        (rw whole_word (
          copy_low_lem (w / 8) 0
            (read_le (λ j. streams (key_3pc pid 2) (positions pid 2 + j)) (i * (w / 8)) (w / 8))
            (omega (arith, ring.fits, bytes))))

  number-key_words :
      number ring width streams size positions i
      ≡ (key_word w streams 4 (positions 1 2) i + key_word w streams 5 (positions 2 2) i) % 2 ^ k
  unfolding key_3pc
  number-key_words = (add-Cong (random_words-key_word 1) (random_words-key_word 2)).same

-- At a supported ring size and a width of a word that is a power of two and whole bytes, for streams
-- in step, fewer than 2^31 - 32 bytes to draw at once, and an index `i` below `size` whose word
-- lies inside of the bytes that a party draws: `Rss_edaBit` leaves in `r` additive and in `b_2`
-- exclusive-or shares of one number, the sum modulo `2 ^ ring_size` of the words `i` of the key
-- streams 4 and 5, which only the parties 1 and 2 read, from where these parties have got to, and
-- the streams in step.
pub rss_eda_bit-key_word :
    {w k : ℕ} (ring : IsRing w k) (width : IsWidth w) (streams : Streams) (size : ℕ)
    (positions : Positions) {i : ℕ}
    → w % 8 ≡ 0
    → InStep positions
    → unit_size k * (2 * size) + 32 < 2 ^ 31
    → i < size
    → (i + 1) * (w / 8) ≤ size * unit_size k
    → IsShared k
        (rss_eda_bit w k streams size positions).r
        i
        ((key_word w streams 4 (positions 1 2) i + key_word w streams 5 (positions 2 2) i) % 2 ^ k)
      × IsXorShared k (rss_eda_bit w k streams size positions).b_2 i (
          (key_word w streams 4 (positions 1 2) i + key_word w streams 5 (positions 2 2) i) % 2 ^ k)
      × InStep (rss_eda_bit w k streams size positions).positions
rss_eda_bit-key_word ring width streams size positions {i} bytes step fits h whole =
    rw (sym (number-key_words ring width bytes streams size positions i whole))
      (rss_eda_bit_lem ring width streams size positions step h)
