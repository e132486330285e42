-- ===== src/BitLt/Correct.antt =====
-- `Rss_BitLT` compares.
use native.Mathlib.Nat.{pow-suc}
use rss_ring_ppml.Base.{
  ℕ, zero, suc, ◌+◌, ◌%◌, ◌^◌, ◌≤◌, ◌<◌, ◌≡◌, ◌∙◌, sym, arith, bit_xor, ltb, if◌then◌else◌, Bool,
  true, false, refl, inl, inr,
}
use rss_ring_ppml.Base.Bits.{bit, bit-lt, bit-xor, mod-bit}
use rss_ring_ppml.Base.Digits.{bit_cases, bit_xor-lt}
use rss_ring_ppml.Base.Cong.{Cong, Cong_trans, Cong_sym, Cong_refl, Cong_eq, add-Cong, mod-Cong}
use rss_ring_ppml.Word.{IsRing, get_bit, all_ones}
use rss_ring_ppml.Word.Memory.{Array, zeros, for_each_at}
use rss_ring_ppml.Word.Digits.{get_bit-eq, bit-flip}
use rss_ring_ppml.Net.{World}
use rss_ring_ppml.Prg.{Streams, Positions}
use rss_ring_ppml.Prg.Sync.{InStep}
use rss_ring_ppml.Share.{Shares, IsShared, IsXorShared, unit_share}
use rss_ring_ppml.Share.Laws.{IsShared_congr}
use rss_ring_ppml.Share.Linear.{IsShared_value, IsShared_sum, unit_share_lem}
use rss_ring_ppml.Share.Xor.{one_bit-IsXorShared}
use rss_ring_ppml.BitLt.{ones_share, flip_bits, flip_result, rss_carry_out, rss_bit_lt}
use rss_ring_ppml.BitLt.{new_rss_carry_out_aux, start_state, first_pairs}
use rss_ring_ppml.BitLt.Loop.{carry_loop-InStep}
use rss_ring_ppml.BitLt.Bytes.{bit_xor-Cong}
use rss_ring_ppml.BitLt.Store.{get_bit-lt}
use rss_ring_ppml.BitLt.Carry.{carry_out-complement}
use rss_ring_ppml.BitLt.Sum.{bit-ones_share, rss_carry_out_lem}

-- A number and its complement add up to all ones.
complement_total : (w y n : ℕ) → n ≤ w → bit_xor y (all_ones w) % 2 ^ n + y % 2 ^ n + 1 ≡ 2 ^ n
complement_total w y zero h = omega arith
complement_total w y (suc n) h =
    rw (mod-bit n (bit_xor y (all_ones w)), mod-bit n y, bit-flip w y n (omega arith), pow-suc 2 n)
      (elim (bit_cases (bit y n) (bit-lt y n)) [
        | inl e ↦ rw e (omega (arith, complement_total w y n (omega arith)))
        | inr e ↦ rw e (omega (arith, complement_total w y n (omega arith)))
      ])

module _ {w k : ℕ} (ring : IsRing w k) (size : ℕ) {i : ℕ} (h : i < size) where
  flip_bits-IsXorShared :
      (b : World Shares) {y : ℕ}
      → IsXorShared k b i y
      → IsXorShared k (flip_bits w size b) i (bit_xor y (all_ones w))
  unfolding flip_bits
  flip_bits-IsXorShared b {y} s = record {
    at_bit = λ j lt.
        let lt' : j < w = omega (arith, ring.fits) in
        IsShared_value
          (Cong_trans (Cong_sym (mod-Cong 2 (bit y j + 1))) (Cong_eq (sym (bit-flip w y j lt'))))
          (IsShared_congr (λ pid s' n. bit (b pid s' n) j + unit_share pid s')
            (λ pid s' n. bit (flip_bits w size b pid s' n) j)
            (λ pid s'.
              rw (for_each_at size (λ n. bit_xor (b pid s' n) (ones_share w pid s')) zeros h) (
                Cong_trans (Cong_eq (bit-xor (b pid s' i) (ones_share w pid s') j))
                  (rw (bit-ones_share w pid s' j lt') (mod-Cong 2 _))))
            (IsShared_sum (λ pid s' n. bit (b pid s' n) j) (λ pid s' n. unit_share pid s')
              (s.at_bit j lt) (unit_share_lem 1 i)));
  }

  flip_result-IsXorShared :
      (res : World Shares) {m c v : ℕ}
      → v < 2
      → Cong 2 (c + 1) v
      → IsShared 1 (λ pid s n. bit (res pid s n) 0) i c
      → IsXorShared m (flip_result w size res) i v
  unfolding flip_result
  flip_result-IsXorShared res small e s =
      one_bit-IsXorShared (flip_result w size res)
        (λ pid s'.
          rw
            (for_each_at size
              (λ n. bit_xor (get_bit (res pid s' n) 0) (get_bit (ones_share w pid s') 0))
              (res pid s') h)
            (bit_xor-lt _ _ (get_bit-lt _ 0) (get_bit-lt _ 0)))
        small
        (IsShared_value e (
          IsShared_congr (λ pid s' n. bit (res pid s' n) 0 + unit_share pid s')
            (flip_result w size res)
            (λ pid s'.
              rw
                (for_each_at size
                  (λ n. bit_xor (get_bit (res pid s' n) 0) (get_bit (ones_share w pid s') 0))
                  (res pid s') h)
                (Cong_trans (bit_xor-Cong _ _) (
                  add-Cong (Cong_eq (get_bit-eq (res pid s' i) 0)) (
                    Cong_eq (
                      get_bit-eq (ones_share w pid s') 0
                      ∙ bit-ones_share w pid s' 0 (omega (arith, ring.pos, ring.fits)))))))
            (IsShared_sum (λ pid s' n. bit (res pid s' n) 0) (λ pid s' n. unit_share pid s') s
              (unit_share_lem 1 i))))

turned : (c : Bool) → Cong 2 ((if c then 0 else 1) + 1) (if c then 1 else 0)
turned true = Cong_refl 1
turned false = record { same = refl }

-- `x` is less than `y`, on the `k` low bits.
abbrev pub is_less : ℕ → ℕ → ℕ → ℕ
is_less k x y = if ltb (x % 2 ^ k) (y % 2 ^ k) then 1 else 0

-- At a supported ring size and an even width of a word, for a number `x` that all parties hold in
-- `a[i]`, a number `y` whose `ring_size` low bits are shared by exclusive or in `b`, an index `i`
-- below `size`, and streams in step, `Rss_BitLT` leaves in `res[i]` exclusive-or shares of 1 if
-- `x` modulo `2 ^ ring_size` is less than `y` modulo `2 ^ ring_size`, and else of 0, correct in
-- every bit of the word; the streams are in step again.
pub rss_bit_lt_lem :
    {w k : ℕ} (ring : IsRing w k) (size : ℕ) (streams : Streams) (positions : Positions)
    (memory res : World Shares) (a : World Array) (b : World Shares) {i x y m : ℕ}
    → w % 2 ≡ 0
    → InStep positions
    → i < size
    → (a 1 i ≡ x)
    → (a 2 i ≡ x)
    → (a 3 i ≡ x)
    → IsXorShared k b i y
    → IsXorShared m (rss_bit_lt w k size streams positions memory res a b).c i (is_less k x y)
      × InStep (rss_bit_lt w k size streams positions memory res a b).positions
unfolding rss_bit_lt
rss_bit_lt_lem {w} {k} ring size streams positions memory res a b {i} {x} {y} even step h a_1 a_2
      a_3 s =
    let lem =
      rss_carry_out_lem ring size streams positions memory res a (flip_bits w size b) even step h
        a_1 a_2 a_3 (flip_bits-IsXorShared ring size h b s) in
    (
      flip_result-IsXorShared ring size h
          (rss_carry_out w k size streams positions memory res a (flip_bits w size b)).c
          (ground arith)
          (rw
            (carry_out-complement x y (bit_xor y (all_ones w)) k (complement_total w y k ring.fits))
            (turned (ltb (x % 2 ^ k) (y % 2 ^ k))))
          lem.0,
      lem.1,
    )

-- The streams stay in step for every size.
pub rss_bit_lt-InStep :
    (w k size : ℕ) (streams : Streams) (positions : Positions) (memory res : World Shares)
    (a : World Array) (b : World Shares)
    → InStep positions
    → InStep (rss_bit_lt w k size streams positions memory res a b).positions
unfolding rss_bit_lt rss_carry_out new_rss_carry_out_aux start_state
rss_bit_lt-InStep w k size streams positions memory res a b step =
    carry_loop-InStep w size streams k
      (start_state k memory positions (first_pairs w size a (flip_bits w size b))) step
