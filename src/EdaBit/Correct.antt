-- ===== src/EdaBit/Correct.antt =====
-- `Rss_edaBit` shares one number by sum and by exclusive or.
use native.Mathlib.Nat.{mod-lt}
use rss_ring_ppml.Base.{ℕ, ◌+◌, ◌%◌, ◌^◌, ◌<◌, sym}
use rss_ring_ppml.Base.Digits.{bit-mod}
use rss_ring_ppml.Base.Cong.{Cong_sym, mod-Cong, Cong_eq}
use rss_ring_ppml.Word.{IsRing, IsWidth}
use rss_ring_ppml.Word.Laws.{two_pow-pos}
use rss_ring_ppml.Word.Memory.{zeros}
use rss_ring_ppml.Net.{World}
use rss_ring_ppml.Prg.{Streams, Positions}
use rss_ring_ppml.Prg.Sync.{InStep}
use rss_ring_ppml.Share.{Shares, IsShared, IsXorShared}
use rss_ring_ppml.Share.Linear.{IsShared_value}
use rss_ring_ppml.BitAdd.{rss_n_bit_add}
use rss_ring_ppml.BitAdd.Correct.{rss_n_bit_add_lem, rss_bit_add-InStep}
use rss_ring_ppml.Msb.{IsEdaBit}
use rss_ring_ppml.EdaBit.{random_words, rss_generate_random_shares, rss_eda_bit}
use rss_ring_ppml.EdaBit.Generate.{
  res-IsShared, bitwise-first-IsXorShared, bitwise-second-IsXorShared, generate-InStep,
}

-- Only the low bits of a number that is shared by exclusive or count.
IsXorShared-mod :
    {k i x : ℕ} {a : World Shares} → IsXorShared k a i x → IsXorShared k a i (x % 2 ^ k)
IsXorShared-mod {k} {x = x} s = record {
  at_bit = λ j lt. IsShared_value (Cong_eq (sym (bit-mod x k j lt))) (s.at_bit j lt);
}

module _ {w k : ℕ} (ring : IsRing w k) (width : IsWidth w) (streams : Streams) where
  -- The number that the masks of index `i` stand for: the sum of the words that parties 1
  -- and 2 draw under their private keys.
  abbrev pub number : ℕ → Positions → ℕ → ℕ
  number size positions i =
      (random_words w k size streams positions 1 i + random_words w k size streams positions 2 i)
      % 2 ^ k

  -- Both kinds of shares stand for `number`, and the streams end in step.
  pub rss_eda_bit_lem :
      (size : ℕ) (positions : Positions) {i : ℕ}
      → InStep positions
      → i < size
      → IsShared k (rss_eda_bit w k streams size positions).r i (number size positions i)
        × IsXorShared k (rss_eda_bit w k streams size positions).b_2 i (number size positions i)
        × InStep (rss_eda_bit w k streams size positions).positions
  unfolding rss_eda_bit
  rss_eda_bit_lem size positions step h =
      let shares = rss_generate_random_shares w k size streams positions in
      let sum =
        rss_n_bit_add_lem ring width size streams shares.positions
          (generate-InStep ring size streams positions step) (λ pid s. zeros) shares.res_bitwise h
          (bitwise-first-IsXorShared ring size streams positions step h)
          (bitwise-second-IsXorShared ring size streams positions step h) in
      (
        IsShared_value (Cong_sym (mod-Cong (2 ^ k) _))
            (res-IsShared ring size streams positions step h),
        IsXorShared-mod sum.0,
        sum.1,
      )

  rss_eda_bit-InStep :
      (size : ℕ) (positions : Positions)
      → InStep positions
      → InStep (rss_eda_bit w k streams size positions).positions
  unfolding rss_eda_bit rss_n_bit_add
  rss_eda_bit-InStep size positions step =
      rss_bit_add-InStep w k size streams _ _ _ _ (generate-InStep ring size streams positions step)

  -- The contract that `new_Rss_MSB` relies on.
  pub rss_eda_bit-IsEdaBit : IsEdaBit k (rss_eda_bit w k streams)
  rss_eda_bit-IsEdaBit = record {
    value = number;
    value-lt = λ size positions i. mod-lt _ (two_pow-pos k);
    of_r = λ size positions step h. (rss_eda_bit_lem size positions step h).0;
    of_b_2 = λ size positions step h. (rss_eda_bit_lem size positions step h).1;
    in_step = rss_eda_bit-InStep;
  }
