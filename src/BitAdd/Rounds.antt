-- ===== src/BitAdd/Rounds.antt =====
-- The rounds of `Rss_CircleOpL` leave the carry out of every position.
use native.Mathlib.Nat.{pow-suc, one-le-pow, pow-le-pow_right}
use rss_ring_ppml.Base.{
  ℕ, zero, suc, ◌+◌, ◌-◌, ◌*◌, ◌/◌, ◌^◌, ◌≤◌, ◌<◌, ◌≡◌, ◌∙◌, ap, sym, arith, ltb, ltb→<, ltb→≥,
  Bool-cases, inl, inr,
}
use rss_ring_ppml.Base.Bits.{bit}
use rss_ring_ppml.Base.Cong.{Cong_eq, two_pow-add}
use rss_ring_ppml.Word.{IsWidth}
use rss_ring_ppml.Prg.{Streams, Positions}
use rss_ring_ppml.Prg.Sync.{InStep}
use rss_ring_ppml.Share.{IsShared}
use rss_ring_ppml.Share.Linear.{IsShared_value}
use rss_ring_ppml.Mult.Byte.{rss_mult_byte-InStep}
use rss_ring_ppml.BitLt.{Pairs}
use rss_ring_ppml.BitLt.Bytes.{HasPairs}
use rss_ring_ppml.BitLt.Carry.{carry}
use rss_ring_ppml.BitAdd.{
  Indices, State, ceil_log2, round_indices, circle_rounds, circle_start, rss_circle_op_l,
}
use rss_ring_ppml.BitAdd.Collect.{IsRound, round_indices-IsRound}
use rss_ring_ppml.BitAdd.Scan.{scan_p, scan_g, scan_g-carry}
use rss_ring_ppml.BitAdd.Round.{circle_round_lem}

ceil_log2-le : (fuel n v : ℕ) → n ≤ 2 ^ v → ceil_log2 fuel n ≤ v
unfolding ceil_log2
ceil_log2-le zero n v h = omega arith
ceil_log2-le (suc fuel) n zero h = ground arith
ceil_log2-le (suc fuel) n (suc v) h =
    let rest : (n + 1) / 2 ≤ 2 ^ v = omega (arith, pow-suc 2 v) in
    ground (arith, ceil_log2-le fuel ((n + 1) / 2) v rest)

le-ceil_log2 : (fuel n : ℕ) → n ≤ fuel → n ≤ 2 ^ ceil_log2 fuel n
unfolding ceil_log2
le-ceil_log2 zero n h = omega arith
le-ceil_log2 (suc fuel) n h = elim (Bool-cases (ltb 1 n)) [
  | inl e ↦ rw e (
      omega (
        arith,
        pow-suc 2 (ceil_log2 fuel ((n + 1) / 2)),
        le-ceil_log2 fuel ((n + 1) / 2) (omega (arith, ltb→< 1 n e)),
      ))
  | inr e ↦ rw e (omega (arith, ltb→≥ 1 n e))
]

carry_one : (p g : ℕ → ℕ) → g 0 ≡ carry p g 1
unfolding carry
carry_one p g = omega arith

-- The blocks of round `suc n`.
blocks_lem : (n rounds : ℕ) → n < rounds → 2 ^ (rounds - suc n) * (2 * 2 ^ n) ≡ 2 ^ rounds
blocks_lem n rounds h =
    ap (λ (t : ℕ). 2 ^ (rounds - suc n) * t) {x = 2 * 2 ^ n} {y = 2 ^ suc n}
      (omega (arith, pow-suc 2 n))
    ∙ sym (two_pow-add (rounds - suc n) (suc n))
    ∙ ap (λ (t : ℕ). 2 ^ t) {x = rounds - suc n + suc n} {y = rounds} (omega arith)

-- The index arrays of round `suc n`, and the bound of their entries.
pub round_lem :
    (r n rounds : ℕ) (ops : Indices)
    → n < rounds
    → r ≤ 2 ^ rounds
    → IsRound r (2 ^ n) (round_indices r (2 ^ rounds) (2 ^ n) ops)
      × (2 * (round_indices r (2 ^ rounds) (2 ^ n) ops).op_r ≤ 2 ^ rounds)
round_lem r n rounds ops h fits =
    let lem =
      round_indices-IsRound r (2 ^ n) (2 ^ (rounds - suc n)) (one-le-pow n 2 (omega arith)) ops
        (rw (blocks_lem n rounds h) fits) in
    rw (← blocks_lem n rounds h) (lem.0, omega (arith, lem.1))

circle_rounds-InStep :
    (w r size r_2 : ℕ) (streams : Streams) (n : ℕ) (st : State)
    → InStep st.positions
    → InStep (circle_rounds w r r_2 size streams n st).positions
unfolding circle_rounds
circle_rounds-InStep w r size r_2 streams zero st step = step
circle_rounds-InStep w r size r_2 streams (suc n) st step =
    rss_mult_byte-InStep _ streams _ (circle_rounds-InStep w r size r_2 streams n st step) _ _ _

module _ (w r rounds size : ℕ) (streams : Streams) (fits : r ≤ w) (wide : 2 ^ rounds ≤ w)
    (enough : r ≤ 2 ^ rounds) {i : ℕ} (h : i < size) where
  circle_rounds_lem :
      (n : ℕ) (st : State) {p g : ℕ → ℕ}
      → n ≤ rounds
      → InStep st.positions
      → HasPairs r st.d i p g
      → HasPairs r
          (circle_rounds w r (2 ^ rounds) size streams n st).d
          i
          (scan_p p n)
          (scan_g p g n)
        × InStep (circle_rounds w r (2 ^ rounds) size streams n st).positions
  unfolding circle_rounds scan_p scan_g
  circle_rounds_lem zero st le step pairs = (pairs, step)
  circle_rounds_lem (suc n) st le step pairs =
      let before = circle_rounds w r (2 ^ rounds) size streams n st in
      let lem = circle_rounds_lem n st (omega arith) step pairs in
      let round = round_lem r n rounds before.ops (omega arith) enough in
      (
        circle_round_lem w r (2 ^ rounds) size (2 ^ n) streams before fits round.0
            (omega (arith, round.1)) lem.1 h lem.0,
        rss_mult_byte-InStep _ streams before.positions lem.1 before.u _ _,
      )

pub rss_circle_op_l-InStep :
    (w k size : ℕ) (streams : Streams) (positions : Positions) (d : Pairs)
    → InStep positions
    → InStep (rss_circle_op_l w k size streams positions d).positions
unfolding rss_circle_op_l
rss_circle_op_l-InStep w k size streams positions d step = elim (Bool-cases (ltb 1 k)) [
  | inl e ↦ rw e (
      circle_rounds-InStep w k size (2 ^ ceil_log2 k k) streams (ceil_log2 k k)
        (circle_start positions d) step)
  | inr e ↦ rw e step
]

-- For a width of a word that is a power of two, `k` pairs shared at an index `i` below `size`, with `k` above 0 and at
-- most the width, and streams in step, `Rss_CircleOpL` leaves in each of the `k` generate bits
-- shares of the carry out of all positions up to it, and the streams in step.
pub rss_circle_op_l_lem :
    {w : ℕ} (width : IsWidth w) (k size : ℕ) (streams : Streams) (positions : Positions) (d : Pairs)
    {i : ℕ} {p g : ℕ → ℕ}
    → 0 < k
    → k ≤ w
    → InStep positions
    → i < size
    → HasPairs k d i p g
    → ((t : ℕ)
        → t < k
        → IsShared 1
            (λ pid s n. bit ((rss_circle_op_l w k size streams positions d).d.g pid s n) t)
            i
            (carry p g (suc t)))
      × InStep (rss_circle_op_l w k size streams positions d).positions
unfolding rss_circle_op_l
rss_circle_op_l_lem {w} width k size streams positions d {i} {p} {g} pos fits step h pairs =
    elim (Bool-cases (ltb 1 k)) [
      | inl e ↦ rw e (
        (λ t lt.
            IsShared_value (Cong_eq (scan_g-carry p g rounds t (omega (arith, enough))))
              (lem.0.g_bit t lt)),
        lem.1,
      )
      | inr e ↦ rw e (
        (λ t lt.
            let first : t ≡ 0 = omega (arith, ltb→≥ 1 k e) in
            rw first (IsShared_value (Cong_eq (carry_one p g)) (pairs.g_bit 0 pos))),
        step,
      )
    ]
  where
    rounds : ℕ
    rounds = ceil_log2 k k

    enough : k ≤ 2 ^ rounds
    enough = le-ceil_log2 k k (omega arith)

    wide : 2 ^ rounds ≤ w
    wide = rw width.is_power (
        pow-le-pow_right {n = 2} (omega arith)
          (ceil_log2-le k k width.log (rw (← width.is_power) fits)))

    lem :
        HasPairs k
          (circle_rounds w k (2 ^ rounds) size streams rounds (circle_start positions d)).d
          i
          (scan_p p rounds)
          (scan_g p g rounds)
        × InStep
            (circle_rounds w k
              (2 ^ rounds)
              size
              streams
              rounds
              (circle_start positions d)).positions
    lem =
        circle_rounds_lem w k rounds size streams fits wide enough h rounds
          (circle_start positions d) (omega arith) step pairs
