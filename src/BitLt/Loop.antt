-- ===== src/BitLt/Loop.antt =====
-- The loop of `new_Rss_CarryOutAux` ends, and keeps the carry of the pairs.
use native.Mathlib.Nat.{pow-suc, one-le-pow}
use rss_ring_ppml.Base.{
  ℕ, zero, suc, ◌+◌, ◌*◌, ◌/◌, ◌%◌, ◌^◌, ◌≤◌, ◌<◌, ◌≡◌, ◌∙◌, ap, refl, sym, arith, Bool-cases, ltb,
  inl, inr, lt→ltb, ≥→ltb,
}
use rss_ring_ppml.Base.Bits.{bit, bit_and_mask}
use rss_ring_ppml.Word.Memory.{unit_size}
use rss_ring_ppml.Prg.{Streams}
use rss_ring_ppml.Prg.Sync.{InStep}
use rss_ring_ppml.Share.{IsShared}
use rss_ring_ppml.Share.Linear.{IsShared_value}
use rss_ring_ppml.Base.Cong.{Cong_eq}
use rss_ring_ppml.Mult.Byte.{rss_mult_byte-InStep}
use rss_ring_ppml.BitLt.{State, carry_round, carry_loop}
use rss_ring_ppml.BitLt.Bytes.{HasPairs}
use rss_ring_ppml.BitLt.Merge.{next_pairs-HasPairs}
use rss_ring_ppml.BitLt.Carry.{carry, merged_p, merged_g, carry-merged}

pub le-two_pow : (n : ℕ) → n ≤ 2 ^ n
le-two_pow zero = omega arith
le-two_pow (suc n) = omega (arith, le-two_pow n, pow-suc 2 n, one-le-pow n 2 (omega arith))

pub half-le : (r fuel : ℕ) → r ≤ 2 ^ suc fuel → r / 2 + r % 2 ≤ 2 ^ fuel
half-le r fuel h = omega (arith, pow-suc 2 fuel)

module _ (w size : ℕ) (streams : Streams) where
  carry_round-size :
      (st : State) → (carry_round w size streams st).r_size ≡ st.r_size / 2 + st.r_size % 2
  unfolding carry_round
  carry_round-size st = ap (λ (t : ℕ). st.r_size / 2 + t) (bit_and_mask 1 st.r_size)

  -- A loop that has come to its end does not go on.
  carry_loop-stops :
      (fuel : ℕ) (st : State) → st.r_size ≤ 1 → carry_loop w size streams fuel st ≡ st
  unfolding carry_loop
  carry_loop-stops zero st h = refl
  carry_loop-stops (suc fuel) st h = rw (≥→ltb 1 st.r_size h) refl

  carry_loop-goes :
      (fuel : ℕ) (st : State)
      → 1 < st.r_size
      → carry_loop w size streams (suc fuel) st
        ≡ carry_loop w size streams fuel (carry_round w size streams st)
  unfolding carry_loop
  carry_loop-goes fuel st h = rw (lt→ltb 1 st.r_size h) refl

  -- For `r_size` at most `2 ^ n`, the loop of `new_Rss_CarryOutAux` ends after at most `n`
  -- rounds: `r_size` is then at most 1, and more fuel leads to the same state.
  pub carry_loop-ends :
      (n more : ℕ) (st : State)
      → st.r_size ≤ 2 ^ n
      → ((carry_loop w size streams n st).r_size ≤ 1)
        × (carry_loop w size streams (n + more) st ≡ carry_loop w size streams n st)
  carry_loop-ends zero more st h = (
    rw (carry_loop-stops 0 st h) h,
    carry_loop-stops (0 + more) st h ∙ sym (carry_loop-stops 0 st h),
  )
  carry_loop-ends (suc n) more st h = elim (Bool-cases (ltb 1 st.r_size)) [
    | inl e ↦
        let rest =
          carry_loop-ends n more (carry_round w size streams st)
            (rw (carry_round-size st) (half-le st.r_size n h)) in
        (
          rw (carry_loop-goes n st (ground arith)) rest.0,
          ap (λ (t : ℕ). carry_loop w size streams t st) {x = suc n + more} {y = suc (n + more)}
                (omega arith)
              ∙ carry_loop-goes (n + more) st (ground arith)
              ∙ rest.1
              ∙ sym (carry_loop-goes n st (ground arith)),
        )
    | inr e ↦ (
      rw (carry_loop-stops (suc n) st (ground arith)) (ground arith),
      carry_loop-stops (suc n + more) st (ground arith)
          ∙ sym (carry_loop-stops (suc n) st (ground arith)),
    )
  ]

  pub carry_loop-InStep :
      (n : ℕ) (st : State) → InStep st.positions → InStep (carry_loop w size streams n st).positions
  unfolding carry_loop carry_round
  carry_loop-InStep zero st step = step
  carry_loop-InStep (suc n) st step = elim (Bool-cases (ltb 1 st.r_size)) [
    | inl e ↦ rw e (
        carry_loop-InStep n (carry_round w size streams st)
          (rss_mult_byte-InStep (unit_size st.r_size * size) streams st.positions step st.u _ _))
    | inr e ↦ rw e step
  ]

  module _ (even : w % 2 ≡ 0) {i : ℕ} (h : i < size) where
    carry_round_lem :
        (st : State) {p g : ℕ → ℕ}
        → st.r_size ≤ w
        → InStep st.positions
        → HasPairs st.r_size st.d i p g
        → HasPairs
            (st.r_size / 2 + st.r_size % 2)
            (carry_round w size streams st).d
            i
            (merged_p st.r_size p)
            (merged_g st.r_size p g)
          × InStep (carry_round w size streams st).positions
    unfolding carry_round
    carry_round_lem st fits step pairs = (
      next_pairs-HasPairs w st.r_size size even fits streams st.positions step st.d st.a st.b st.u h
          pairs,
      rss_mult_byte-InStep (unit_size st.r_size * size) streams st.positions step st.u _ _,
    )

    ended :
        (n : ℕ) (st : State) {p g : ℕ → ℕ}
        → 0 < st.r_size
        → st.r_size ≤ 1
        → InStep st.positions
        → HasPairs st.r_size st.d i p g
        → IsShared 1
            (λ pid s k. bit ((carry_loop w size streams n st).d.g pid s k) 0)
            i
            (carry p g st.r_size)
          × InStep (carry_loop w size streams n st).positions
    unfolding carry
    ended n st {p} {g} pos le step pairs =
        let one : st.r_size ≡ 1 = omega arith in
        rw (carry_loop-stops n st le, one)
          (IsShared_value (Cong_eq (omega arith)) (pairs.g_bit 0 pos), step)

    -- At an even width of a word, with fuel `n` for an `r_size` that is above 0, at most `2 ^ n` and
    -- at most the width, streams in step, and `r_size` pairs shared at an index `i` below `size`,
    -- the lowest generate bit that the loop leaves shares the carry of the pairs, and the streams
    -- are in step again.
    pub carry_loop_lem :
        (n : ℕ) (st : State) {p g : ℕ → ℕ}
        → 0 < st.r_size
        → st.r_size ≤ 2 ^ n
        → st.r_size ≤ w
        → InStep st.positions
        → HasPairs st.r_size st.d i p g
        → IsShared 1
            (λ pid s k. bit ((carry_loop w size streams n st).d.g pid s k) 0)
            i
            (carry p g st.r_size)
          × InStep (carry_loop w size streams n st).positions
    carry_loop_lem zero st pos le fits step pairs = ended zero st pos le step pairs
    carry_loop_lem (suc n) st {p} {g} pos le fits step pairs = elim (Bool-cases (ltb 1 st.r_size)) [
      | inl e ↦
          let next = carry_round_lem st fits step pairs in
          let size_lem = carry_round-size st in
          rw (carry_loop-goes n st (ground arith), sym (carry-merged st.r_size p g), sym size_lem)
            (carry_loop_lem n (carry_round w size streams st) {p = merged_p st.r_size p}
              {g = merged_g st.r_size p g} (rw size_lem (ground arith))
              (rw size_lem (half-le st.r_size n le)) (rw size_lem (ground arith)) next.1
              (rw size_lem next.0))
      | inr e ↦ ended (suc n) st pos (ground arith) step pairs
    ]
