-- ===== src/BitAdd/Places.antt =====
-- The index arrays of a round pair every place that lies in the upper half of its block with the
-- last place of the lower half.
use mathlib.Core.Bool.{and-false}
use native.Mathlib.Nat.{mod-lt, mod-eq_of_lt, mod-add-div, div-lt_iff_lt-mul}
use rss_ring_ppml.Base.{
  ℕ, suc, ◌+◌, ◌-◌, ◌*◌, ◌/◌, ◌%◌, ◌<◌, ◌≡◌, ◌∙◌, ap, sym, arith, refl, ltb, lt→ltb, ≥→ltb, ltb→<,
  ltb→≥, if◌then◌else◌, Bool-cases, inl, inr,
}
use rss_ring_ppml.Word.Memory.{put}
use rss_ring_ppml.MatMult.Correct.{row_at, column_at, index-lt}
use rss_ring_ppml.BitAdd.{Indices, add_index, start_place}

module _ (r half blocks : ℕ) (pos : 0 < half) where
  abbrev pub r_2 : ℕ
  r_2 = blocks * (2 * half)

  -- The block of pass `t`: the last one is block 0.
  abbrev pub block : ℕ → ℕ
  block t = if ltb (t / half + 1) blocks then t / half + 1 else 0

  abbrev pub to_place : ℕ → ℕ
  to_place t = block t * (2 * half) + (half + t % half)

  abbrev pub from_place : ℕ → ℕ
  from_place t = block t * (2 * half) + half - 1

  module _ (t : ℕ) (lt : t < blocks * half) where
    row-lt : t / half < blocks
    row-lt = (div-lt_iff_lt-mul pos).1 lt

    block-lt : block t < blocks
    block-lt = ground (arith, row-lt)

    rest-lt : half + t % half < 2 * half
    rest-lt = omega (arith, mod-lt t pos)

    to_place-lt : to_place t < r_2
    to_place-lt = index-lt block-lt rest-lt

    start_place_lem : start_place r_2 half (t / half + 1) ≡ block t * (2 * half) + half
    unfolding start_place
    start_place_lem = elim (Bool-cases (ltb (t / half + 1) blocks)) [
      | inl e ↦ rw e (
          mod-eq_of_lt (
            omega (
              arith,
              index-lt {m = blocks} {n = 2 * half} {i = t / half + 1} {t = half}
                  (ltb→< (t / half + 1) blocks e) (omega arith),
            ))
          ∙ omega arith)
      | inr e ↦ rw e (
          let last : t / half + 1 ≡ blocks = omega (arith, row-lt, ltb→≥ (t / half + 1) blocks e) in
          ap (λ (q : ℕ). (half + q * (2 * half)) % r_2) last
          ∙ ap (λ (x : ℕ). x % r_2) {x = half + r_2} {y = 1 * r_2 + half} (omega arith)
          ∙ column_at r_2 1 half (
              omega (
                arith,
                index-lt {m = blocks} {n = 2 * half} {i = 0} {t = half} (omega (arith, row-lt))
                    (omega arith),
              ))
          ∙ omega arith)
    ]

    pub to_place-eq : to_place t / half ≡ suc (2 * block t)
    to_place-eq =
        ap (λ (x : ℕ). x / half) {x = to_place t} {y = suc (2 * block t) * half + t % half}
          (omega arith)
        ∙ row_at half (suc (2 * block t)) (t % half) (mod-lt t pos)

    pub from_place-eq : from_place t ≡ to_place t / half * half - 1
    from_place-eq = ap (λ (x : ℕ). x - 1) (rw to_place-eq (omega arith))

    -- What a pass adds.
    pub pass_lem :
        (ops : Indices)
        → add_index r r_2 (start_place r_2 half (t / half + 1)) (t % half + 1) ops ≡ (
            if ltb (to_place t) r
            then record {
              from = put ops.op_r (from_place t) ops.from;
              to = put ops.op_r (to_place t) ops.to;
              op_r = ops.op_r + 1;
            }
            else ops)
    unfolding add_index
    pass_lem ops =
        rw
          (
            start_place_lem,
            mod-eq_of_lt {n = block t * (2 * half) + half} {m = r_2} (omega (arith, to_place-lt)),
            mod-eq_of_lt {n = block t * (2 * half) + half + (t % half + 1)} {m = r_2 + 1}
                (omega (arith, to_place-lt)),
          )
          (elim (Bool-cases (ltb (to_place t) r)) [
            | inl e ↦
                rw
                  (
                    e,
                    lt→ltb (block t * (2 * half) + half) (r + 1)
                        (omega (arith, ltb→< (to_place t) r e)),
                    lt→ltb (block t * (2 * half) + half + (t % half + 1)) (r + 1)
                        (omega (arith, ltb→< (to_place t) r e)),
                    same_place,
                  )
                  refl
            | inr e ↦
                rw
                  (
                    e,
                    ≥→ltb (block t * (2 * half) + half + (t % half + 1)) (r + 1)
                        (omega (arith, ltb→≥ (to_place t) r e)),
                    and-false (ltb (block t * (2 * half) + half) (r + 1)),
                  )
                  refl
          ])
      where
        same_place : block t * (2 * half) + half + (t % half + 1) - 1 ≡ to_place t
        same_place = omega arith

  pub to_place_injective :
      (t u : ℕ) → t < blocks * half → u < blocks * half → to_place t ≡ to_place u → t ≡ u
  to_place_injective t u ht hu e =
      omega (
        arith,
        mod-add-div t half,
        mod-add-div u half,
        same_rest,
        ap (λ (q : ℕ). half * q) same_row,
      )
    where
      same_block : block t ≡ block u
      same_block =
          sym (row_at (2 * half) (block t) (half + t % half) (rest-lt t ht))
          ∙ ap (λ (x : ℕ). x / (2 * half)) e
          ∙ row_at (2 * half) (block u) (half + u % half) (rest-lt u hu)

      same_rest : t % half ≡ u % half
      same_rest = omega (arith, e, ap (λ (q : ℕ). q * (2 * half)) same_block)

      same_row : t / half ≡ u / half
      same_row = ground (arith, same_block, row-lt t ht, row-lt u hu)

  -- Every place in the upper half of a block belongs to a pass.
  pub pass_at :
      (x : ℕ) → x < r_2 → x / half % 2 ≡ 1 → (t : ℕ) × (t < blocks * half) × (to_place t ≡ x)
  pass_at x lt odd = (row * half + x % half, index-lt row-small (mod-lt x pos), at_x)
    where
      q : ℕ
      q = x / half / 2

      row : ℕ
      row = if ltb 0 q then q - 1 else blocks - 1

      split : x ≡ q * (2 * half) + (half + x % half)
      split = omega (
        arith,
        mod-add-div x half,
        ap (λ (n : ℕ). half * n) {x = x / half} {y = 2 * q + 1} (omega arith),
      )

      q-lt : q < blocks
      q-lt = omega (
        arith,
        (div-lt_iff_lt-mul {k = 2 * half} {x = x} {y = blocks} (omega arith)).1 lt,
        ap (λ (n : ℕ). n / (2 * half)) split,
        row_at (2 * half) q (half + x % half) (omega (arith, mod-lt x pos)),
      )

      row-small : row < blocks
      row-small = ground (arith, q-lt)

      at_x : to_place (row * half + x % half) ≡ x
      at_x =
          rw
            (
              row_at half row (x % half) (mod-lt x pos),
              column_at half row (x % half) (mod-lt x pos),
            )
            (ap (λ (n : ℕ). n * (2 * half) + (half + x % half))
                {x = if ltb (row + 1) blocks then row + 1 else 0} {y = q} (ground (arith, q-lt))
              ∙ sym split)
