-- ===== src/Convert/Correct.antt =====
-- Both conversions keep the shared value.
use rss_ring_ppml.Base.{
  ℕ, ◌+◌, ◌*◌, ◌%◌, ◌^◌, ◌≤◌, ◌<◌, ap, arith, ltb, ltb→<, ltb→≥, Bool-cases, inl, inr,
}
use rss_ring_ppml.Base.Cong.{Cong, Cong_trans, Cong_refl, Cong_eq, add-Cong, mod-Cong}
use rss_ring_ppml.Word.{IsRing, IsWidth, sub}
use rss_ring_ppml.Word.Laws.{sub_lem}
use rss_ring_ppml.Word.Memory.{Array, zeros, for_each, for_each_at}
use rss_ring_ppml.Net.{World}
use rss_ring_ppml.Prg.{Streams, Positions}
use rss_ring_ppml.Prg.Sync.{InStep}
use rss_ring_ppml.Share.{Shares, IsShared, IsXorShared, sub_shares}
use rss_ring_ppml.Share.Linear.{IsShared_value, IsShared_move, sub_shares_lem}
use rss_ring_ppml.Share.Xor.{IsShared_of_le}
use rss_ring_ppml.MatMult.Correct.{index-lt}
use rss_ring_ppml.Open.{rss_open}
use rss_ring_ppml.Open.Correct.{rss_open_lem}
use rss_ring_ppml.RandBit
use rss_ring_ppml.RandBit.{rss_rand_bit}
use rss_ring_ppml.RandBit.Correct.{rss_rand_bit_lem, rss_rand_bit-InStep}
use rss_ring_ppml.BitAdd.{rss_bit_add_public}
use rss_ring_ppml.BitAdd.Correct.{rss_bit_add_public_lem}
use rss_ring_ppml.EdaBit.{rss_eda_bit}
use rss_ring_ppml.EdaBit.Correct.{rss_eda_bit_lem}
use rss_ring_ppml.Convert.{Memory, bit_words, sum_bits, new_rss_convert, rss_convert}
use rss_ring_ppml.Convert.Bits.{number, sum_bits-IsShared}
use rss_ring_ppml.Convert.Second.{bit_words-IsXorShared, to_prime_lem}

-- The random bits of `Rss_RandBit`, as a function of the index.
module _ {w m : ℕ} (pos : 0 < m) (wide : IsRing w (m + 2)) (size : ℕ) (streams : Streams)
    (positions : Positions) (step : InStep positions) (memory : RandBit.Memory)
    (b : World Shares) where
  coin_at :
      (index : ℕ)
      → (c : ℕ) × (c < 2)
        × (index < size → IsShared m (rss_rand_bit w m size streams positions memory b).b index c)
  coin_at index = elim (Bool-cases (ltb index size)) [
    | inl e ↦
        elim (rss_rand_bit_lem pos wide size streams positions step memory b
          (ltb→< index size e)).0 [
            | inl zero_bit ↦ (0, omega arith, λ h. zero_bit)
            | inr one_bit ↦ (1, omega arith, λ h. one_bit)
          ]
    | inr e ↦ (0, omega arith, λ h. absurd (omega (arith, h, ltb→≥ index size e)))
  ]

-- What follows the opening of the masked value in both procedures: `c` is the value without the
-- mask `r`, whose bits `r_2` shares.
module _ {w k : ℕ} (ring : IsRing w k) (width : IsWidth w) (size : ℕ) (streams : Streams)
    (positions : Positions) (step : InStep positions) (c_memory : World Array)
    (a_2 a r r_2 : World Shares) {i x y : ℕ} (h : i < size) (of_a : IsShared k a i x)
    (of_r : IsShared k r i y) (of_r_2 : IsXorShared k r_2 i y) where
  abbrev opened : World Array
  opened = (rss_open w k size c_memory (sub_shares w size a r (λ pid s. zeros))).res

  abbrev sum : World Shares
  sum = (rss_bit_add_public w k size streams positions a_2 opened r_2).c

  unmasked : Cong (2 ^ k) (sub w x y % 2 ^ k + y) x
  unmasked =
      Cong_trans (add-Cong (mod-Cong (2 ^ k) (sub w x y)) (Cong_refl y)) (sub_lem ring.fits x y)

  sum_lem :
      IsXorShared k sum i (sub w x y % 2 ^ k + y)
      × InStep (rss_bit_add_public w k size streams positions a_2 opened r_2).positions
  sum_lem =
      let lem = rss_open_lem ring size c_memory (sub_shares w size a r (λ pid s. zeros)) h (
        sub_shares_lem ring size a r (λ pid s. zeros) h (sub w x y) (sub_lem ring.fits x y) of_a
          of_r) in
      rss_bit_add_public_lem ring width size streams positions step a_2 opened r_2 h lem.0 lem.1
        lem.2 of_r_2

module _ {w k m : ℕ} (ring : IsRing w k) (m_pos : 0 < m) (wide : IsRing w (m + 2))
    (width : IsWidth w) (size : ℕ) (streams : Streams) (memory : Memory) (positions : Positions)
    (step : InStep positions) (a : World Shares) {i x : ℕ} (h : i < size)
    (s : IsShared k a i x) where
  m_ring : IsRing w m
  m_ring = record { pos = m_pos; fits = omega (arith, wide.fits); narrow = wide.narrow }

  -- At a ring size of at most the width of a word, which is a power of two, a new ring size above 0
  -- that is 2 less than the width at most, streams in step and a shared `x` at an index `i` below
  -- `size`, `new_Rss_Convert` leaves in `res[i]` shares of `x % 2 ^ ring_size` modulo
  -- `2 ^ ring_size_prime`, and the streams in step.
  pub new_rss_convert_lem :
      IsShared m (new_rss_convert w k m size streams memory positions a).c i (x % 2 ^ k)
      × InStep (new_rss_convert w k m size streams memory positions a).positions
  unfolding new_rss_convert
  new_rss_convert_lem =
      let rand = rss_rand_bit w m (size * k) streams positions memory.rand memory.r_shares in
      let coin = coin_at m_pos wide (size * k) streams positions step memory.rand memory.r_shares in
      let eda = rss_eda_bit w k streams size rand.positions in
      let eda_lem =
        rss_eda_bit_lem ring width streams size rand.positions
          (rss_rand_bit-InStep w m (size * k) streams positions memory.rand memory.r_shares step)
          h in
      let found =
        sum_lem ring width size streams eda.positions eda_lem.2 memory.c memory.a_2 a eda.r eda.b_2
          h s eda_lem.0 eda_lem.1 in
      (
        IsShared_value
            (Cong_eq
              (unmasked ring width size streams eda.positions eda_lem.2 memory.c memory.a_2 a eda.r
                eda.b_2 h s eda_lem.0 eda_lem.1).same)
            (to_prime_lem ring m_ring size 0 rand.b memory.r_2 h (λ t. (coin (0 + i * k + t)).0)
              (λ t. (coin (0 + i * k + t)).1)
              (λ t lt. (coin (0 + i * k + t)).2 (omega (arith, index-lt h lt))) _ _ found.0),
        found.1,
      )

  -- At a ring size of at most the width of a word, which is a power of two, a new ring size above 0
  -- that is 2 less than the width at most and not below the old one, streams in step and a shared
  -- `x` at an index `i` below `size`, `Rss_Convert` leaves in `res[i]` shares of
  -- `x % 2 ^ ring_size` modulo `2 ^ ring_size_prime`, and the streams in step.
  pub rss_convert_lem :
      k ≤ m
      → IsShared m (rss_convert w k m size streams memory positions a).c i (x % 2 ^ k)
        × InStep (rss_convert w k m size streams memory positions a).positions
  unfolding rss_convert
  rss_convert_lem le =
      let rand = rss_rand_bit w m (2 * size * k) streams positions memory.rand memory.r_shares in
      let rand-InStep =
        rss_rand_bit-InStep w m (2 * size * k) streams positions memory.rand memory.r_shares step in
      let coin =
        coin_at m_pos wide (2 * size * k) streams positions step memory.rand memory.r_shares in
      let r : World Shares =
        λ pid s'. for_each size (λ j. sum_bits w (rand.b pid s') (j * k) k 0) zeros in
      let first = (λ (t : ℕ). (coin (0 + i * k + t)).0) in
      let of_bits =
        (λ (t : ℕ) (lt : t < k). (coin (0 + i * k + t)).2 (omega (arith, index-lt h lt))) in
      let of_r : IsShared k r i (number first k) = IsShared_of_le le (
        IsShared_move (λ pid s' n. sum_bits w (rand.b pid s') (i * k) k 0) r
          (λ pid s'. for_each_at size _ zeros h)
          (sum_bits-IsShared m_ring.fits rand.b first (i * k) i k (λ t lt.
            IsShared_move rand.b rand.b
              (λ pid s'. ap (rand.b pid s') {x = i * k + t} {y = 0 + i * k + t} (omega arith))
              (of_bits t lt)))) in
      let of_r_2 =
        bit_words-IsXorShared ring m_ring size 0 rand.b memory.r_2 h first
          (λ t. (coin (0 + i * k + t)).1) of_bits in
      let found =
        sum_lem ring width size streams rand.positions rand-InStep (λ pid. zeros) memory.a_2 a r
          (bit_words w k size 0 rand.b memory.r_2) h s of_r of_r_2 in
      (
        IsShared_value
            (Cong_eq
              (unmasked ring width size streams rand.positions rand-InStep (λ pid. zeros) memory.a_2
                a r (bit_words w k size 0 rand.b memory.r_2) h s of_r of_r_2).same)
            (to_prime_lem ring m_ring size (size * k) rand.b (λ pid s'. zeros) h
              (λ t. (coin (size * k + i * k + t)).0) (λ t. (coin (size * k + i * k + t)).1)
              (λ t lt. (coin (size * k + i * k + t)).2 (omega (arith, index-lt h lt))) _ _ found.0),
        found.1,
      )
