-- ===== src/EdaBit/Truncated.antt =====
-- `Rss_edaBit_trunc` shares a number, what is left of it without its low bits, and its top
-- bit.
use native.Mathlib.Nat.{
  mod-lt, mod-add-div, mod-eq_of_lt, div-eq_of_lt, div-lt_iff_lt-mul, add-mul-div_right,
}
use rss_ring_ppml.Base.{ℕ, ◌+◌, ◌-◌, ◌*◌, ◌/◌, ◌%◌, ◌^◌, ◌≤◌, ◌<◌, ◌≡◌, ◌∙◌, ap, sym, refl, arith}
use rss_ring_ppml.Base.Bits.{bit, bit-lt}
use rss_ring_ppml.Base.Digits.{bit-mod}
use rss_ring_ppml.Base.Cong.{
  Cong, Cong_trans, Cong_sym, Cong_refl, Cong_eq, add-Cong, mod-Cong, two_pow-add,
}
use rss_ring_ppml.Word.{IsRing, IsWidth}
use rss_ring_ppml.Word.Laws.{two_pow-pos, add_lem, sub_lem, shl_lem}
use rss_ring_ppml.Word.Memory.{zeros, for_each, for_each_at}
use rss_ring_ppml.Net.{World}
use rss_ring_ppml.Prg.{Streams, Positions}
use rss_ring_ppml.Prg.Sync.{InStep}
use rss_ring_ppml.Share.{Shares, IsShared, IsXorShared}
use rss_ring_ppml.Share.Linear.{
  IsShared_value, IsShared_move, IsShared_sum, IsShared_times, IsShared_difference,
}
use rss_ring_ppml.Share.Xor.{IsXorShared-move}
use rss_ring_ppml.Mult.{Product}
use rss_ring_ppml.B2a
use rss_ring_ppml.B2a.{rss_b2a}
use rss_ring_ppml.B2a.Correct.{rss_b2a_lem, rss_b2a-InStep}
use rss_ring_ppml.BitAdd.{rss_bit_add}
use rss_ring_ppml.BitAdd.Correct.{rss_bit_add-InStep}
use rss_ring_ppml.BitAdd.Sum.{carry_of, carry_of-lt, add-quotient, bit-quotient}
use rss_ring_ppml.EdaBit.{
  TruncShares, Carried, random_words, rss_bit_add_trunc, rss_generate_random_shares_trunc,
  rss_n_bit_add_trunc, without_low, rss_eda_bit_trunc,
}
use rss_ring_ppml.EdaBit.GenerateTrunc.{
  res-IsShared, res_prime-IsShared, bitwise-first-IsXorShared, bitwise-second-IsXorShared,
  generate_trunc-InStep,
}
use rss_ring_ppml.EdaBit.Carry.{low-IsXorShared, high-IsXorShared, top-IsXorShared}
use rss_ring_ppml.Trunc.{IsEdaBit}

-- What is left of a sum modulo 2 ^ k, from what is left of its parts and two carries.
module _ (k m a b : ℕ) (le : m ≤ k) (a-lt : a < 2 ^ k) (b-lt : b < 2 ^ k) where
  carried : a + b ≡ (a + b) % 2 ^ k + carry_of a b k * 2 ^ k
  carried = omega (
    arith,
    mod-add-div (a + b) (2 ^ k),
    ap (λ (t : ℕ). 2 ^ k * t) {x = (a + b) / 2 ^ k} {y = carry_of a b k}
        (omega (arith, add-quotient a b k, div-eq_of_lt a-lt, div-eq_of_lt b-lt)),
  )

  powers : 2 ^ k ≡ 2 ^ (k - m) * 2 ^ m
  powers = ap (λ (t : ℕ). 2 ^ t) {x = k} {y = k - m + m} (omega (arith, le)) ∙ two_pow-add (k - m) m

  quotient_lem :
      (a + b) % 2 ^ k / 2 ^ m + carry_of a b k * 2 ^ (k - m)
      ≡ a / 2 ^ m + b / 2 ^ m + carry_of a b m
  quotient_lem =
      sym (add-mul-div_right ((a + b) % 2 ^ k) (carry_of a b k * 2 ^ (k - m)) (two_pow-pos m))
      ∙ ap (λ (t : ℕ). t / 2 ^ m) {x = (a + b) % 2 ^ k + carry_of a b k * 2 ^ (k - m) * 2 ^ m}
          {y = a + b} (omega (arith, carried, ap (λ (t : ℕ). carry_of a b k * t) powers))
      ∙ add-quotient a b m

  top_lem : 0 < k → (a + b) % 2 ^ k / 2 ^ (k - 1) ≡ bit (a + b) (k - 1)
  top_lem pos =
      sym (mod-eq_of_lt ((div-lt_iff_lt-mul {y = 2} (two_pow-pos (k - 1))).1 double))
      ∙ sym (bit-quotient ((a + b) % 2 ^ k) (k - 1))
      ∙ bit-mod (a + b) k (k - 1) (omega (arith, pos))
    where
      double : (a + b) % 2 ^ k < 2 * 2 ^ (k - 1)
      double = omega (
        arith,
        mod-lt (a + b) (two_pow-pos k),
        ap (λ (t : ℕ). 2 ^ t) {x = k} {y = 1 + (k - 1)} (omega (arith, pos)),
        two_pow-add 1 (k - 1),
      )

module _ {w k : ℕ} (pos : 0 < k) (wide : IsRing w (k + 2)) (width : IsWidth w) (streams : Streams)
    (memory : B2a.Memory) (m : ℕ) (m-pos : 0 < m) (le : m ≤ k) where
  ring : IsRing w k
  ring = record { pos = pos; fits = omega (arith, wide.fits); narrow = wide.narrow }

  -- The number that the masks of index `i` stand for: the sum of the random words that parties 1
  -- and 2 draw under their private keys.
  abbrev pub number : ℕ → Positions → ℕ → ℕ
  number size positions i =
      (random_words w k size streams positions 1 i % 2 ^ k
        + random_words w k size streams positions 2 i % 2 ^ k)
      % 2 ^ k

  module _ (size : ℕ) (positions : Positions) (step : InStep positions) where
    abbrev shares : TruncShares
    shares = rss_generate_random_shares_trunc w k m size streams positions

    shares-InStep : InStep shares.positions
    shares-InStep = generate_trunc-InStep ring m size streams positions step

    abbrev first : World Shares
    first pid s = for_each size (shares.res_bitwise pid s) zeros

    abbrev second : World Shares
    second pid s = for_each size (λ i. shares.res_bitwise pid s (size + i)) zeros

    abbrev sum : Carried
    sum =
        rss_bit_add_trunc w k m size streams shares.positions (λ pid s. zeros) (λ pid s. zeros)
          first second

    sum-InStep : InStep sum.positions
    unfolding rss_bit_add_trunc rss_bit_add
    sum-InStep = rss_bit_add-InStep w k size streams _ _ first second shares-InStep

    abbrev carry : Product
    carry = rss_b2a w k (3 * size) streams sum.positions memory sum.carry sum.carry

    module _ {i : ℕ} (h : i < size) where
      abbrev a : ℕ
      a = random_words w k size streams positions 1 i % 2 ^ k

      abbrev b : ℕ
      b = random_words w k size streams positions 2 i % 2 ^ k

      of_first : IsXorShared k first i a
      of_first =
          IsXorShared-move shares.res_bitwise first (λ pid s. for_each_at size _ zeros h)
            (bitwise-first-IsXorShared ring m size streams positions step h)

      of_second : IsXorShared k second i b
      of_second =
          IsXorShared-move shares.res_bitwise second (λ pid s. for_each_at size _ zeros h)
            (bitwise-second-IsXorShared ring m size streams positions step h)

      -- What `Rss_b2a` makes of the carries and the top bit.
      converted :
          {j v : ℕ} → j < 3 * size → v < 2 → IsXorShared k sum.carry j v → IsShared k carry.c j v
      converted lt small s =
          (rss_b2a_lem pos wide (3 * size) streams sum.positions memory sum.carry sum.carry
            sum-InStep lt small s).0

      low : IsShared k carry.c i (carry_of a b m)
      low = converted (omega (arith, h)) (carry_of-lt a b m) (
          low-IsXorShared ring width m size streams shares.positions shares-InStep (λ pid s. zeros)
            (λ pid s. zeros) first second m-pos le h of_first of_second)

      high : IsShared k carry.c (size + i) (carry_of a b k)
      high = converted (omega (arith, h)) (carry_of-lt a b k) (
          high-IsXorShared ring width m size streams shares.positions shares-InStep (λ pid s. zeros)
            (λ pid s. zeros) first second m-pos le h of_first of_second)

      top : IsShared k carry.c (2 * size + i) (bit (a + b) (k - 1))
      top = converted (omega (arith, h)) (bit-lt (a + b) (k - 1)) (
          top-IsXorShared ring width m size streams shares.positions shares-InStep (λ pid s. zeros)
            (λ pid s. zeros) first second m-pos le h of_first of_second)

      without_low_lem :
          (r low high : ℕ)
          → Cong (2 ^ k) (without_low w k m r low high + 2 ^ (k - m) * high) (r + low)
      unfolding without_low
      without_low_lem r low high =
          Cong_trans
            (add-Cong (Cong_refl _) (
              Cong_trans (Cong_eq (omega arith))
                (Cong_sym (shl_lem ring.fits (k - m) (Cong_refl high)))))
            (Cong_trans (sub_lem ring.fits _ _) (add_lem ring.fits (Cong_refl r) (Cong_refl low)))

      r_prime-IsShared :
          IsShared k
            (rss_eda_bit_trunc w k streams memory size m positions).r_prime
            i
            (number size positions i / 2 ^ m)
      unfolding rss_eda_bit_trunc rss_n_bit_add_trunc
      r_prime-IsShared =
          IsShared_difference (λ pid. pid ≡ pid)
            (rss_eda_bit_trunc w k streams memory size m positions).r_prime
            (λ pid s n. shares.res_prime pid s n + carry.c pid s n)
            (λ pid s n. 2 ^ (k - m) * carry.c pid s (size + n)) refl refl refl
            (λ pid s e. rw (for_each_at size _ _ h) (without_low_lem _ _ _))
            (Cong_eq (
              omega (
                arith,
                quotient_lem k m a b le (mod-lt _ (two_pow-pos k)) (mod-lt _ (two_pow-pos k)),
              )))
            (IsShared_sum shares.res_prime carry.c
              (res_prime-IsShared ring m size streams positions step h) low)
            (IsShared_times (2 ^ (k - m)) (λ pid s n. carry.c pid s (size + n))
              (IsShared_move carry.c (λ pid s n. carry.c pid s (size + n)) (λ pid s. refl) high))

      r_km1-IsShared :
          IsShared k
            (rss_eda_bit_trunc w k streams memory size m positions).r_km1
            i
            (number size positions i / 2 ^ (k - 1))
      unfolding rss_eda_bit_trunc rss_n_bit_add_trunc
      r_km1-IsShared =
          IsShared_value
            (Cong_eq
              (sym (top_lem k m a b le (mod-lt _ (two_pow-pos k)) (mod-lt _ (two_pow-pos k)) pos)))
            (IsShared_move carry.c (rss_eda_bit_trunc w k streams memory size m positions).r_km1
              (λ pid s. for_each_at size _ zeros h) top)

      r-IsShared :
          IsShared k
            (rss_eda_bit_trunc w k streams memory size m positions).r
            i
            (number size positions i)
      unfolding rss_eda_bit_trunc
      r-IsShared =
          IsShared_value (Cong_sym (mod-Cong (2 ^ k) _))
            (res-IsShared ring m size streams positions step h)

    truncated-InStep : InStep (rss_eda_bit_trunc w k streams memory size m positions).positions
    unfolding rss_eda_bit_trunc rss_n_bit_add_trunc
    truncated-InStep =
        rss_b2a-InStep w k (3 * size) streams sum.positions memory sum.carry sum.carry sum-InStep

  -- At a ring size `k` with `k + 2` at most the width of a word, which is a power of two, and an
  -- `m` above 0 and at most `k`, `Rss_edaBit_trunc` keeps what the truncations rely on: for streams
  -- in step it shares one number below `2 ^ k`, the number without its `m` low bits and its top
  -- bit, and leaves the streams in step.
  pub rss_eda_bit_trunc-IsEdaBit : IsEdaBit k m (rss_eda_bit_trunc w k streams memory)
  rss_eda_bit_trunc-IsEdaBit = record {
    value = number;
    value-lt = λ size positions i. mod-lt _ (two_pow-pos k);
    of_r = λ size positions step h. r-IsShared size positions step h;
    of_r_prime = λ size positions step h. r_prime-IsShared size positions step h;
    of_r_km1 = λ size positions step h. r_km1-IsShared size positions step h;
    in_step = truncated-InStep;
  }
