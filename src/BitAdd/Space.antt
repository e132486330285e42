-- ===== src/BitAdd/Space.antt =====
-- The arrays of `Rss_CircleOpL` are large enough for every round.
use native.Mathlib.Nat.{one-le-pow, add-mul-div_right, div-eq_of_lt, mul-le-mul_right}
use rss_ring_ppml.Base.{
  ℕ, zero, suc, ◌+◌, ◌-◌, ◌*◌, ◌/◌, ◌%◌, ◌^◌, ◌≤◌, ◌<◌, ◌≡◌, ◌≢◌, ◌∙◌, ap, sym, arith, ◌==◌,
  if◌then◌else◌, Bool-cases, inl, inr, ltb, ltb→<, ltb→≥, ==→≡,
}
use rss_ring_ppml.Word.Memory.{unit_size}
use rss_ring_ppml.Prg.{Streams}
use rss_ring_ppml.BitAdd.{Indices, State, circle_round}
use rss_ring_ppml.BitAdd.Collect.{IsRound}
use rss_ring_ppml.BitAdd.Rounds.{round_lem}

-- `n` different numbers below `r`: there are at most `r` of them.
pigeons :
    (r n : ℕ) (f : ℕ → ℕ)
    → ((e : ℕ) → e < n → f e < r)
    → ((e e' : ℕ) → e' < e → e < n → f e' ≢ f e)
    → n ≤ r
pigeons r zero f below distinct = omega arith
pigeons zero (suc n) f below distinct = absurd (omega (arith, below 0 (omega arith)))
pigeons (suc r) (suc n) f below distinct = omega (arith, pigeons r n g g-lt g-distinct)
  where
    g : ℕ → ℕ
    g e = if f e == r then f n else f e

    last_ne : (e : ℕ) → e < n → f e ≢ f n
    last_ne e h = distinct n e h (omega arith)

    g-lt : (e : ℕ) → e < n → g e < r
    g-lt e h = ground (arith, below e (omega (arith, h)), below n (omega arith), last_ne e h)

    g-distinct : (e e' : ℕ) → e' < e → e < n → g e' ≢ g e
    g-distinct e e' lt h =
        ground (
          arith,
          distinct e e' lt (omega (arith, h)),
          last_ne e h,
          last_ne e' (omega (arith, lt, h)),
        )

-- The places of a round and those they read from.
module _ (r half : ℕ) (pos : 0 < half) (ops : Indices) (is : IsRound r half ops) where
  unfoldable place : ℕ → ℕ
  place e = if e % 2 == 0 then ops.to (e / 2) else ops.to (e / 2) - half

  -- A place of an upper half is at least `half`.
  upper : (e : ℕ) → e < ops.op_r → half ≤ ops.to e
  upper e h = elim (Bool-cases (ltb (ops.to e) half)) [
    | inl low ↦ absurd (omega (arith, is.odd e h, div-eq_of_lt (ltb→< _ _ low)))
    | inr high ↦ ltb→≥ _ _ high
  ]

  lower-even : (e : ℕ) → e < ops.op_r → (ops.to e - half) / half % 2 ≡ 0
  lower-even e h = omega (
    arith,
    is.odd e h,
    add-mul-div_right (ops.to e - half) 1 pos,
    ap (λ (t : ℕ). t / half) {x = ops.to e - half + 1 * half} {y = ops.to e}
        (omega (arith, upper e h)),
  )

  place-parity : (e : ℕ) → e < 2 * ops.op_r → place e / half % 2 ≡ (e + 1) % 2
  unfolding place
  place-parity e h = elim (Bool-cases (e % 2 == 0)) [
    | inl even ↦
        let zero_rest : e % 2 ≡ 0 = ==→≡ (e % 2) 0 even in
        rw even (omega (arith, is.odd (e / 2) (omega (arith, h)), zero_rest))
    | inr odd ↦
        let one_rest : e % 2 ≡ 1 = ground (arith, odd) in
        rw odd (omega (arith, lower-even (e / 2) (omega (arith, h)), one_rest))
  ]

  place-lt : (e : ℕ) → e < 2 * ops.op_r → place e < r
  unfolding place
  place-lt e h = ground (arith, is.to-lt (e / 2) (omega (arith, h)))

  place-distinct : (e e' : ℕ) → e' < e → e < 2 * ops.op_r → place e' ≢ place e
  unfolding place
  place-distinct e e' lt h eq =
      let same : (e' + 1) % 2 ≡ (e + 1) % 2 =
        sym (place-parity e' (omega (arith, lt, h)))
        ∙ ap (λ (t : ℕ). t / half % 2) eq
        ∙ place-parity e h in
      ground (
        arith,
        same,
        eq,
        is.distinct (e / 2) (e' / 2) (omega (arith, same, lt)) (omega (arith, h)),
        upper (e / 2) (omega (arith, h)),
        upper (e' / 2) (omega (arith, lt, h)),
      )

  twice-le : 2 * ops.op_r ≤ r
  twice-le = pigeons r (2 * ops.op_r) place place-lt place-distinct

-- In every round of `Rss_CircleOpL`, for an `r_size` whose next power of two is `2 ^ rounds`, the
-- pairs of places fill at most `r_size` bits, so that the bytes of the round fit into the arrays
-- that were made for `r_size` bits of each element, and the places fit into the index arrays.
pub circle_round-fits :
    (w r rounds n size : ℕ) (streams : Streams) (st : State)
    → n < rounds
    → r ≤ 2 ^ rounds
    → (2 * (circle_round w r (2 ^ rounds) size streams (2 ^ n) st).ops.op_r ≤ r)
      × (unit_size (2 * (circle_round w r (2 ^ rounds) size streams (2 ^ n) st).ops.op_r) * size
          ≤ unit_size r * size)
      × ((e : ℕ)
          → e < (circle_round w r (2 ^ rounds) size streams (2 ^ n) st).ops.op_r
          → e < 2 ^ rounds)
unfolding circle_round
circle_round-fits w r rounds n size streams st h enough =
    let lem = round_lem r n rounds st.ops h enough in
    let fits = twice-le r (2 ^ n) (one-le-pow n 2 (omega arith)) _ lem.0 in
    (fits, mul-le-mul_right size (omega (arith, fits)), λ e lt. omega (arith, lt, fits, enough))
