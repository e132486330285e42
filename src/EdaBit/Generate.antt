-- ===== src/EdaBit/Generate.antt =====
-- The two procedures that generate random numbers share them by sum and by exclusive or.
use rss_ring_ppml.Base.{ℕ, ◌+◌, ◌-◌, ◌*◌, ◌^◌, ◌<◌, ◌≡◌, refl, arith, bit_xor, lt→ltb, ≥→ltb}
use rss_ring_ppml.Base.Bits.{bit, bit-xor}
use rss_ring_ppml.Base.Cong.{Cong, Cong_trans, Cong_eq, Cong_refl}
use rss_ring_ppml.Word.{IsRing}
use rss_ring_ppml.Word.Laws.{add_lem, sub_lem}
use rss_ring_ppml.Word.Memory.{Array, zeros, for_each_at, unit_size}
use rss_ring_ppml.Net.{World}
use rss_ring_ppml.Prg.{Streams, Positions, prg_getrandom_3pc}
use rss_ring_ppml.Prg.Sync.{InStep, draw_private-InStep}
use rss_ring_ppml.Share.{IsShared, IsXorShared}
use rss_ring_ppml.Share.Laws.{IsShared_congr}
use rss_ring_ppml.Share.Linear.{IsShared_sum, IsShared_move}
use rss_ring_ppml.Share.Xor.{IsXorShared-move}
use rss_ring_ppml.EdaBit.{
  Dealt, sum_of_two, bitwise_of_two, random_words, mask_numbers, deal, rss_generate_random_shares,
}
use rss_ring_ppml.EdaBit.Deal.{
  first-IsShared, second-IsShared, first-bit, second-bit, deal-InStep, own,
}

module _ {w k : ℕ} (ring : IsRing w k) (size : ℕ) (d : Dealt) {i : ℕ} (h : i < size) where
  pub sum_of_two-IsShared :
      {x y : ℕ} (start : ℕ)
      → IsShared k (λ pid s n. d.values pid s 0 n) (start + i) x
      → IsShared k (λ pid s n. d.values pid s 1 n) (start + i) y
      → IsShared k (sum_of_two w start size d) i (x + y)
  unfolding sum_of_two
  sum_of_two-IsShared start s t =
      IsShared_congr (λ pid s n. d.values pid s 0 (start + n) + d.values pid s 1 (start + n))
        (sum_of_two w start size d)
        (λ pid s. Cong_trans (Cong_eq (for_each_at size _ zeros h)) (
          Cong_trans
            (add_lem ring.fits (add_lem ring.fits (Cong_refl 0) (Cong_refl _)) (Cong_refl _))
            (Cong_eq (omega arith))))
        (IsShared_sum (λ pid s n. d.values pid s 0 (start + n))
          (λ pid s n. d.values pid s 1 (start + n))
          (IsShared_move (λ pid s n. d.values pid s 0 n) (λ pid s n. d.values pid s 0 (start + n))
            (λ pid s. refl) s)
          (IsShared_move (λ pid s n. d.values pid s 1 n) (λ pid s n. d.values pid s 1 (start + n))
            (λ pid s. refl) t))

  pub bitwise-first :
      {x : ℕ}
      → IsXorShared k (λ pid s n. d.values pid s 0 n) (size + i) x
      → IsXorShared k (bitwise_of_two size d) i x
  unfolding bitwise_of_two
  bitwise-first =
      IsXorShared-move (λ pid s n. d.values pid s 0 n) (bitwise_of_two size d)
        (λ pid s. rw (lt→ltb i size h) refl)

  pub bitwise-second :
      {x : ℕ}
      → IsXorShared k (λ pid s n. d.values pid s 1 n) (size + i) x
      → IsXorShared k (bitwise_of_two size d) (size + i) x
  unfolding bitwise_of_two
  bitwise-second =
      IsXorShared-move (λ pid s n. d.values pid s 1 n) (bitwise_of_two size d)
        (λ pid s.
          let back : size + i - size ≡ i = omega arith in
          rw
            (
              ≥→ltb (size + i) size (omega arith),
              lt→ltb (size + i) (2 * size) (omega (arith, h)),
              back,
            )
            refl)

-- An exclusive or with a random word, bit by bit.
pub unmask_bit : (x r j : ℕ) → Cong 2 (bit (bit_xor x r) j + bit r j) (bit x j)
unmask_bit x r j = record { same = omega (arith, bit-xor x r j) }

-- The random number of a party.
abbrev pub random_number : ℕ → ℕ → ℕ → Streams → Positions → ℕ → ℕ → ℕ
random_number w k size streams positions pid i = random_words w k size streams positions pid i

module _ {w k : ℕ} (ring : IsRing w k) (size : ℕ) (streams : Streams) (positions : Positions)
    (step : InStep positions) where
  abbrev drawn : Positions
  drawn = (prg_getrandom_3pc streams positions 2 (unit_size k) size).positions

  drawn-InStep : InStep drawn
  drawn-InStep = draw_private-InStep streams positions (unit_size k) size step

  abbrev x : ℕ → ℕ → ℕ
  x pid i = random_number w k size streams positions pid i

  abbrev secret : World (Array → Array)
  secret pid = mask_numbers w size (random_words w k size streams positions pid)

  abbrev words : ℕ → Array
  words pid = own ring size streams drawn drawn-InStep 2 secret pid

  module _ {i : ℕ} (h : i < size) where
    masked_number :
        (pid : ℕ) (own : Array) → Cong (2 ^ k) (secret pid own (0 + i) + own (0 + i)) (x pid i)
    unfolding mask_numbers
    masked_number pid own =
        let first : 0 + i ≡ i = omega arith in
        rw (first, lt→ltb i size h) (sub_lem ring.fits (x pid i) (own i))

    masked_bits :
        (pid : ℕ) (own : Array) (j : ℕ)
        → Cong 2 (bit (secret pid own (size + i)) j + bit (own (size + i)) j) (bit (x pid i) j)
    unfolding mask_numbers
    masked_bits pid own j =
        let back : size + i - size ≡ i = omega arith in
        rw (≥→ltb (size + i) size (omega arith), back) (unmask_bit (x pid i) (own (size + i)) j)

    pub res-IsShared :
        IsShared k (rss_generate_random_shares w k size streams positions).res i (x 1 i + x 2 i)
    unfolding rss_generate_random_shares
    res-IsShared =
        sum_of_two-IsShared ring size (deal w k size streams drawn 2 secret) h 0
          (first-IsShared ring size streams drawn drawn-InStep 2 secret (omega (arith, h))
            (masked_number 1 (words 1)))
          (second-IsShared ring size streams drawn drawn-InStep 2 secret (omega (arith, h))
            (masked_number 2 (words 2)))

    pub bitwise-first-IsXorShared :
        IsXorShared k (rss_generate_random_shares w k size streams positions).res_bitwise i (x 1 i)
    unfolding rss_generate_random_shares
    bitwise-first-IsXorShared =
        bitwise-first ring size (deal w k size streams drawn 2 secret) h (record {
          at_bit = λ j lt.
              first-bit ring size streams drawn drawn-InStep 2 secret (omega (arith, h)) j lt
                (masked_bits 1 (words 1) j);
        })

    pub bitwise-second-IsXorShared :
        IsXorShared k
          (rss_generate_random_shares w k size streams positions).res_bitwise
          (size + i)
          (x 2 i)
    unfolding rss_generate_random_shares
    bitwise-second-IsXorShared =
        bitwise-second ring size (deal w k size streams drawn 2 secret) h (record {
          at_bit = λ j lt.
              second-bit ring size streams drawn drawn-InStep 2 secret (omega (arith, h)) j lt
                (masked_bits 2 (words 2) j);
        })

  pub generate-InStep : InStep (rss_generate_random_shares w k size streams positions).positions
  unfolding rss_generate_random_shares
  generate-InStep = deal-InStep ring size streams drawn drawn-InStep 2 secret
