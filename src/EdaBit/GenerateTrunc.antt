-- ===== src/EdaBit/GenerateTrunc.antt =====
-- `Rss_GenerateRandomShares_trunc` shares numbers, their bits, and what is left of them.
use rss_ring_ppml.Base.{ℕ, ◌+◌, ◌-◌, ◌*◌, ◌/◌, ◌%◌, ◌^◌, ◌<◌, ◌≡◌, ◌∙◌, ap, arith, lt→ltb, ≥→ltb}
use rss_ring_ppml.Base.Bits.{bit}
use rss_ring_ppml.Base.Cong.{Cong, Cong_trans, Cong_eq}
use rss_ring_ppml.Word.{IsRing, mask, shr}
use rss_ring_ppml.Word.Laws.{sub_lem, mask_mod}
use rss_ring_ppml.Word.Memory.{Array, zeros, for_each, for_each_at, unit_size}
use rss_ring_ppml.Net.{World}
use rss_ring_ppml.Prg.{Streams, Positions, prg_getrandom_3pc}
use rss_ring_ppml.Prg.Sync.{InStep, draw_private-InStep}
use rss_ring_ppml.Share.{IsShared, IsXorShared}
use rss_ring_ppml.EdaBit.{
  Dealt, random_words, mask_numbers_trunc, deal, rss_generate_random_shares_trunc,
}
use rss_ring_ppml.EdaBit.Deal.{
  first-IsShared, second-IsShared, first-bit, second-bit, deal-InStep, own,
}
use rss_ring_ppml.EdaBit.Generate.{sum_of_two-IsShared, bitwise-first, bitwise-second, unmask_bit}

module _ {w k : ℕ} (ring : IsRing w k) (m size : ℕ) (streams : Streams) (positions : Positions)
    (step : InStep positions) where
  abbrev drawn : Positions
  drawn = (prg_getrandom_3pc streams positions 2 (unit_size k) size).positions

  drawn-InStep : InStep drawn
  drawn-InStep = draw_private-InStep streams positions (unit_size k) size step

  abbrev words : World Array
  words = random_words w k size streams positions

  -- The random number of a party.
  abbrev pub x : ℕ → ℕ → ℕ
  x pid i = words pid i % 2 ^ k

  abbrev r_bits : World Array
  r_bits pid = for_each size (λ i. mask w k (words pid i)) (words pid)

  abbrev r_prime : World Array
  r_prime pid = for_each size (λ i. shr (r_bits pid i) m) zeros

  abbrev secret : World (Array → Array)
  secret pid = mask_numbers_trunc w size (r_bits pid) (r_prime pid)

  abbrev owned : ℕ → Array
  owned pid = own ring size streams drawn drawn-InStep 3 secret pid

  abbrev d : Dealt
  d = deal w k size streams drawn 3 secret

  module _ {i : ℕ} (h : i < size) where
    r_bits-eq : (pid : ℕ) → r_bits pid i ≡ x pid i
    r_bits-eq pid = for_each_at size _ (words pid) h ∙ mask_mod ring.fits (words pid i)

    r_prime-eq : (pid : ℕ) → r_prime pid i ≡ x pid i / 2 ^ m
    r_prime-eq pid = for_each_at size _ zeros h ∙ ap (λ (t : ℕ). t / 2 ^ m) (r_bits-eq pid)

    masked_number :
        (pid : ℕ) (own : Array) → Cong (2 ^ k) (secret pid own (0 + i) + own (0 + i)) (x pid i)
    unfolding mask_numbers_trunc
    masked_number pid own =
        let first : 0 + i ≡ i = omega arith in
        rw (first, lt→ltb i size h)
          (Cong_trans (sub_lem ring.fits (r_bits pid i) (own i)) (Cong_eq (r_bits-eq pid)))

    masked_bits :
        (pid : ℕ) (own : Array) (j : ℕ)
        → Cong 2 (bit (secret pid own (size + i)) j + bit (own (size + i)) j) (bit (x pid i) j)
    unfolding mask_numbers_trunc
    masked_bits pid own j =
        let back : size + i - size ≡ i = omega arith in
        rw
          (
            ≥→ltb (size + i) size (omega arith),
            lt→ltb (size + i) (2 * size) (omega (arith, h)),
            back,
          )
          (Cong_trans (unmask_bit (r_bits pid i) (own (size + i)) j)
            (Cong_eq (ap (λ (t : ℕ). bit t j) (r_bits-eq pid))))

    masked_rest :
        (pid : ℕ) (own : Array)
        → Cong (2 ^ k) (secret pid own (2 * size + i) + own (2 * size + i)) (x pid i / 2 ^ m)
    unfolding mask_numbers_trunc
    masked_rest pid own =
        let back : 2 * size + i - 2 * size ≡ i = omega arith in
        rw
          (
            ≥→ltb (2 * size + i) size (omega arith),
            ≥→ltb (2 * size + i) (2 * size) (omega arith),
            back,
          )
          (Cong_trans (sub_lem ring.fits (r_prime pid i) (own (2 * size + i)))
            (Cong_eq (r_prime-eq pid)))

    pub res-IsShared :
        IsShared k
          (rss_generate_random_shares_trunc w k m size streams positions).res
          i
          (x 1 i + x 2 i)
    unfolding rss_generate_random_shares_trunc
    res-IsShared =
        sum_of_two-IsShared ring size d h 0
          (first-IsShared ring size streams drawn drawn-InStep 3 secret (omega (arith, h))
            (masked_number 1 (owned 1)))
          (second-IsShared ring size streams drawn drawn-InStep 3 secret (omega (arith, h))
            (masked_number 2 (owned 2)))

    pub res_prime-IsShared :
        IsShared k
          (rss_generate_random_shares_trunc w k m size streams positions).res_prime
          i
          (x 1 i / 2 ^ m + x 2 i / 2 ^ m)
    unfolding rss_generate_random_shares_trunc
    res_prime-IsShared =
        sum_of_two-IsShared ring size d h (2 * size)
          (first-IsShared ring size streams drawn drawn-InStep 3 secret (omega (arith, h))
            (masked_rest 1 (owned 1)))
          (second-IsShared ring size streams drawn drawn-InStep 3 secret (omega (arith, h))
            (masked_rest 2 (owned 2)))

    pub bitwise-first-IsXorShared :
        IsXorShared k
          (rss_generate_random_shares_trunc w k m size streams positions).res_bitwise
          i
          (x 1 i)
    unfolding rss_generate_random_shares_trunc
    bitwise-first-IsXorShared = bitwise-first ring size d h (record {
      at_bit = λ j lt.
          first-bit ring size streams drawn drawn-InStep 3 secret (omega (arith, h)) j lt
            (masked_bits 1 (owned 1) j);
    })

    pub bitwise-second-IsXorShared :
        IsXorShared k
          (rss_generate_random_shares_trunc w k m size streams positions).res_bitwise
          (size + i)
          (x 2 i)
    unfolding rss_generate_random_shares_trunc
    bitwise-second-IsXorShared = bitwise-second ring size d h (record {
      at_bit = λ j lt.
          second-bit ring size streams drawn drawn-InStep 3 secret (omega (arith, h)) j lt
            (masked_bits 2 (owned 2) j);
    })

  pub generate_trunc-InStep :
      InStep (rss_generate_random_shares_trunc w k m size streams positions).positions
  unfolding rss_generate_random_shares_trunc
  generate_trunc-InStep = deal-InStep ring size streams drawn drawn-InStep 3 secret
