-- ===== src/BitLt/Sum.antt =====
-- The pairs that `Rss_CarryOut` starts with, and its result.
use rss_ring_ppml.Base.{
  ℕ, zero, suc, ◌+◌, ◌*◌, ◌%◌, ◌<◌, ◌≡◌, ◌∙◌, sym, ap, refl, arith, bit_and, ◌==◌, if◌then◌else◌,
  Bool, true, false, Bool-cases, inl, inr,
}
use rss_ring_ppml.Base.Bits.{bit, bit-xor, bit-and, zero-bit}
use rss_ring_ppml.Base.Digits.{bit-ones, bit_xor-lt}
use rss_ring_ppml.Base.Cong.{Cong, Cong_trans, Cong_eq, add-Cong}
use rss_ring_ppml.Word.{IsRing, all_ones}
use rss_ring_ppml.Word.Memory.{Array, zeros, for_each_at}
use rss_ring_ppml.Word.Digits.{get_bit-eq, bit-set_bit_same, bit-set_bit_other}
use rss_ring_ppml.Net.{World}
use rss_ring_ppml.Prg.{Streams, Positions}
use rss_ring_ppml.Prg.Sync.{InStep}
use rss_ring_ppml.Share.{Shares, IsShared, IsXorShared, unit_share}
use rss_ring_ppml.Share.Linear.{
  IsShared_value, IsShared_sum, IsShared_times, IsShared_move, unit_share_lem,
}
use rss_ring_ppml.Share.Xor.{IsShared_at_parties}
use rss_ring_ppml.BitLt.{
  Pairs, carry_loop, ones_share, propagate, generate, first_pairs, start_state, store_carry,
  rss_carry_out, new_rss_carry_out_aux,
}
use rss_ring_ppml.BitLt.Bytes.{HasPairs, bit_xor-Cong}
use rss_ring_ppml.BitLt.Store.{get_bit-lt}
use rss_ring_ppml.BitLt.Carry.{carry, carry_out, sum_p, sum_g, carry-sum}
use rss_ring_ppml.BitLt.Loop.{carry_loop_lem, le-two_pow}

pub bit-ones_share : (w pid s j : ℕ) → j < w → bit (ones_share w pid s) j ≡ unit_share pid s
unfolding ones_share unit_share
bit-ones_share w pid s j h = elim (Bool-cases (pid == 1)) [
  | inl e ↦ rw e (choose (s == 0))
  | inr e ↦ elim (Bool-cases (pid == 3)) [
    | inl f ↦ rw (e, f) (choose (s == 1))
    | inr f ↦ rw (e, f) (zero-bit j)
  ]
]
  where
    choose : (c : Bool) → bit (if c then all_ones w else 0) j ≡ (if c then 1 else 0)
    choose true = bit-ones w j h
    choose false = zero-bit j

module _ (w : ℕ) (pid s a b j : ℕ) (h : j < w) where
  propagate-bit : Cong 2 (bit (propagate w pid s a b) j) (bit a j * unit_share pid s + bit b j)
  unfolding propagate
  propagate-bit = record {
    same = omega (
      arith,
      bit-xor (bit_and a (ones_share w pid s)) b j,
      bit-and a (ones_share w pid s) j,
      ap (λ (t : ℕ). bit a j * t) (bit-ones_share w pid s j h),
    );
  }

  generate-bit_zero :
      (j ≡ 0)
      → Cong 2
          (bit (generate w pid s a b) 0)
          (bit a 0 * bit b 0 + (bit a 0 * unit_share pid s + bit b 0))
  unfolding generate
  generate-bit_zero e =
      Cong_trans
        (Cong_eq (
          bit-set_bit_same w (bit_and a b) 0 _ (omega arith)
            (bit_xor-lt _ _ (get_bit-lt _ 0) (get_bit-lt _ 0))))
        (Cong_trans (bit_xor-Cong _ _) (
          add-Cong (Cong_eq (get_bit-eq (bit_and a b) 0 ∙ bit-and a b 0)) (
            Cong_trans (Cong_eq (get_bit-eq (propagate w pid s a b) 0))
              (rw (sym e) propagate-bit))))

  generate-bit_suc : (0 < j) → Cong 2 (bit (generate w pid s a b) j) (bit a j * bit b j)
  unfolding generate
  generate-bit_suc pos = Cong_eq (
      bit-set_bit_other w (bit_and a b) 0 _ j h (bit_xor-lt _ _ (get_bit-lt _ 0) (get_bit-lt _ 0))
        (λ e. omega arith)
      ∙ bit-and a b j)

module _ {w k : ℕ} (ring : IsRing w k) (size : ℕ) (a : World Array) (b : World Shares) {i x y : ℕ}
    (h : i < size) (a_1 : a 1 i ≡ x) (a_2 : a 2 i ≡ x) (a_3 : a 3 i ≡ x)
    (s : IsXorShared k b i y) where
  abbrev d : Pairs
  d = first_pairs w size a b

  times_unit : (v : ℕ) → IsShared 1 (λ pid s n. v * unit_share pid s) i v
  times_unit v =
      IsShared_value (Cong_eq (omega arith))
        (IsShared_times v (λ pid s n. unit_share pid s) (unit_share_lem 1 i))

  sum_p_lem :
      (j : ℕ)
      → j < k
      → IsShared 1 (λ pid s n. bit x j * unit_share pid s + bit (b pid s n) j) i (sum_p x y j)
  sum_p_lem j lt =
      IsShared_sum (λ pid s n. bit x j * unit_share pid s) (λ pid s n. bit (b pid s n) j)
        (times_unit (bit x j)) (s.at_bit j lt)

  pub and_lem :
      (j : ℕ) → j < k → IsShared 1 (λ pid s n. bit x j * bit (b pid s n) j) i (bit x j * bit y j)
  and_lem j lt = IsShared_times (bit x j) (λ pid s n. bit (b pid s n) j) (s.at_bit j lt)

  pub p_lem : (j : ℕ) → j < k → IsShared 1 (λ pid s n. bit (d.p pid s n) j) i (sum_p x y j)
  unfolding first_pairs
  p_lem j lt =
      IsShared_at_parties (λ pid. a pid i ≡ x) (λ pid s n. bit (d.p pid s n) j)
        (λ pid s n. bit x j * unit_share pid s + bit (b pid s n) j) a_1 a_2 a_3
        (λ pid s e.
          rw (for_each_at size (λ n. propagate w pid s (a pid n) (b pid s n)) zeros h, e)
            (propagate-bit w pid s x (b pid s i) j (omega (arith, ring.fits))))
        (sum_p_lem j lt)

  g_lem : (j : ℕ) → j < k → IsShared 1 (λ pid s n. bit (d.g pid s n) j) i (sum_g x y j)
  unfolding first_pairs sum_g
  g_lem zero lt =
      IsShared_at_parties (λ pid. a pid i ≡ x) (λ pid s n. bit (d.g pid s n) 0)
        (λ pid s n. bit x 0 * bit (b pid s n) 0 + (bit x 0 * unit_share pid s + bit (b pid s n) 0))
        a_1 a_2 a_3
        (λ pid s e.
          rw (for_each_at size (λ n. generate w pid s (a pid n) (b pid s n)) zeros h, e)
            (generate-bit_zero w pid s x (b pid s i) 0 (omega (arith, ring.fits)) refl))
        (IsShared_sum (λ pid s n. bit x 0 * bit (b pid s n) 0)
          (λ pid s n. bit x 0 * unit_share pid s + bit (b pid s n) 0) (and_lem 0 lt)
          (sum_p_lem 0 lt))
  g_lem (suc j) lt =
      IsShared_at_parties (λ pid. a pid i ≡ x) (λ pid s n. bit (d.g pid s n) (suc j))
        (λ pid s n. bit x (suc j) * bit (b pid s n) (suc j)) a_1 a_2 a_3
        (λ pid s e.
          rw (for_each_at size (λ n. generate w pid s (a pid n) (b pid s n)) zeros h, e)
            (generate-bit_suc w pid s x (b pid s i) (suc j) (omega (arith, ring.fits))
              (omega arith)))
        (and_lem (suc j) lt)

  pub first_pairs-HasPairs : HasPairs k (first_pairs w size a b) i (sum_p x y) (sum_g x y)
  first_pairs-HasPairs = record { p_bit = p_lem; g_bit = g_lem }

carry-sum_pos : (x y r : ℕ) → 0 < r → carry (sum_p x y) (sum_g x y) r % 2 ≡ carry_out x y r % 2
carry-sum_pos x y zero pos = absurd (omega arith)
carry-sum_pos x y (suc r) pos = carry-sum x y r

-- At a supported ring size and an even width of a word, for a number `x` that all parties hold in
-- `a[i]`, a number `y` whose `ring_size` low bits are shared by exclusive or in `b`, an index `i`
-- below `size`, and streams in step, the lowest bits of the `res` that `Rss_CarryOut` leaves
-- share the carry out of the `ring_size` low bits of `x + y + 1`; the streams are in step again.
pub rss_carry_out_lem :
    {w k : ℕ} (ring : IsRing w k) (size : ℕ) (streams : Streams) (positions : Positions)
    (memory res : World Shares) (a : World Array) (b : World Shares) {i x y : ℕ}
    → w % 2 ≡ 0
    → InStep positions
    → i < size
    → (a 1 i ≡ x)
    → (a 2 i ≡ x)
    → (a 3 i ≡ x)
    → IsXorShared k b i y
    → IsShared 1
        (λ pid s n. bit ((rss_carry_out w k size streams positions memory res a b).c pid s n) 0)
        i
        (carry_out x y k)
      × InStep (rss_carry_out w k size streams positions memory res a b).positions
unfolding rss_carry_out new_rss_carry_out_aux start_state store_carry
rss_carry_out_lem {w} {k} ring size streams positions memory res a b {i} {x} {y} even step h a_1 a_2
      a_3 s =
    let lem =
      carry_loop_lem w size streams even h k
        (start_state k memory positions (first_pairs w size a b)) ring.pos (le-two_pow k) ring.fits
        step (first_pairs-HasPairs ring size a b h a_1 a_2 a_3 s) in
    (
      IsShared_value (record { same = carry-sum_pos x y k ring.pos })
          (IsShared_move
            (λ pid s n.
              bit
                ((carry_loop w size streams k
                    (start_state k memory positions (first_pairs w size a b))).d.g
                  pid s n)
                0)
            _
            (λ pid s.
              ap (λ (t : ℕ). bit t 0) (for_each_at size _ (res pid s) h)
              ∙ bit-set_bit_same w (res pid s i) 0 _ (omega (arith, ring.pos, ring.fits))
                  (get_bit-lt _ 0)
              ∙ get_bit-eq _ 0)
            lem.0),
      lem.1,
    )
