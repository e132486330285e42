-- ===== src/BitAdd/Collect.antt =====
-- The index arrays of a round hold each place in the upper half of a block once.
use rss_ring_ppml.Base.{
  ℕ, zero, suc, ◌+◌, ◌-◌, ◌*◌, ◌/◌, ◌%◌, ◌≤◌, ◌<◌, ◌≡◌, ◌≢◌, ◌∙◌, ap, sym, arith, refl, ltb, ltb→<,
  ltb→≥, Bool-cases, inl, inr,
}
use rss_ring_ppml.Word.Memory.{put, put_at, put_other}
use rss_ring_ppml.MatMult.Correct.{row_at}
use rss_ring_ppml.BitAdd.{Indices, add_indices, round_indices}
use rss_ring_ppml.BitAdd.Places.{
  r_2, to_place, from_place, pass_lem, to_place-eq, from_place-eq, to_place_injective, pass_at,
}

-- The arrays list the places below `r` in the upper half of a block of `2 * half`.
pub record IsRound (r half : ℕ) (ops : Indices) : Type 0 where
  pub to-lt : (e : ℕ) → e < ops.op_r → ops.to e < r
  pub odd : (e : ℕ) → e < ops.op_r → ops.to e / half % 2 ≡ 1
  pub from-eq : (e : ℕ) → e < ops.op_r → ops.from e ≡ ops.to e / half * half - 1
  pub distinct : (e e' : ℕ) → e' < e → e < ops.op_r → ops.to e' ≢ ops.to e
  pub found : (x : ℕ) → x < r → x / half % 2 ≡ 1 → (e : ℕ) × (e < ops.op_r) × (ops.to e ≡ x)

module _ (r half blocks : ℕ) (pos : 0 < half) where
  -- The arrays after `n` passes.
  record IsCollected (n : ℕ) (ops : Indices) : Type 0 where
    pub to-lt : (e : ℕ) → e < ops.op_r → ops.to e < r
    origin :
        (e : ℕ)
        → e < ops.op_r
        → (t : ℕ) × (t < n)
          × (ops.to e ≡ to_place r half blocks pos t)
          × (ops.from e ≡ from_place r half blocks pos t)
    pub distinct : (e e' : ℕ) → e' < e → e < ops.op_r → ops.to e' ≢ ops.to e
    pub found :
        (t : ℕ)
        → t < n
        → to_place r half blocks pos t < r
        → (e : ℕ) × (e < ops.op_r) × (ops.to e ≡ to_place r half blocks pos t)
    pub few : ops.op_r ≤ n

  abbrev to : ℕ → ℕ
  to t = to_place r half blocks pos t

  abbrev added : ℕ → Indices → Indices
  added t ops = record {
    from = put ops.op_r (from_place r half blocks pos t) ops.from;
    to = put ops.op_r (to t) ops.to;
    op_r = ops.op_r + 1;
  }

  module _ (t : ℕ) (lt : t < blocks * half) (ops : Indices) (c : IsCollected t ops) where
    -- An entry of the longer arrays is one from before or the new one.
    entry :
        (P : ℕ → ℕ → ℕ → Type 0) (e : ℕ)
        → e < ops.op_r + 1
        → ((e : ℕ) → e < ops.op_r → P e (ops.to e) (ops.from e))
        → P ops.op_r (to t) (from_place r half blocks pos t)
        → P e ((added t ops).to e) ((added t ops).from e)
    entry P e h old new = elim (Bool-cases (ltb e ops.op_r)) [
      | inl below ↦
          rw
            (
              put_other (to t) ops.to (ltb→< e ops.op_r below),
              put_other (from_place r half blocks pos t) ops.from (ltb→< e ops.op_r below),
            )
            (old e (ltb→< e ops.op_r below))
      | inr above ↦
          let last : e ≡ ops.op_r = omega (arith, ltb→≥ e ops.op_r above, h) in
          rw
            (
              last,
              put_at ops.op_r (to t) ops.to,
              put_at ops.op_r (from_place r half blocks pos t) ops.from,
            )
            new
    ]

    added-IsCollected : to t < r → IsCollected (suc t) (added t ops)
    added-IsCollected small = record {
      to-lt = λ e h. entry (λ e x y. x < r) e h c.to-lt small;
      origin = λ e h.
          entry (λ e x y. (u : ℕ) × (u < suc t) × (x ≡ to u) × (y ≡ from_place r half blocks pos u))
            e h (λ e h'. let o = c.origin e h' in (o.0, omega (arith, o.1), o.2, o.3))
            (t, omega arith, refl, refl);
      distinct = λ e e' below h.
          rw (put_other {i = ops.op_r} {j = e'} (to t) ops.to (omega arith)) (
            entry (λ e x y. e' < e → ops.to e' ≢ x) e h (λ e h' below. c.distinct e e' below h')
              (λ below same.
                let o = c.origin e' below in
                absurd (
                  omega (
                    arith,
                    o.1,
                    to_place_injective r half blocks pos o.0 t (omega (arith, o.1, lt)) lt
                        (sym o.2 ∙ same),
                  )))
              below);
      found = λ u h small. elim (Bool-cases (ltb u t)) [
        | inl below ↦
            let f = c.found u (ltb→< u t below) small in
            (f.0, omega (arith, f.1), put_other (to t) ops.to f.1 ∙ f.2)
        | inr above ↦
            let last : t ≡ u = omega (arith, ltb→≥ u t above, h) in
            (ops.op_r, omega arith, put_at ops.op_r (to t) ops.to ∙ ap to last)
      ];
      few = omega (arith, c.few);
    }

    skipped-IsCollected : r ≤ to t → IsCollected (suc t) ops
    skipped-IsCollected big = record {
      to-lt = c.to-lt;
      origin = λ e h. let o = c.origin e h in (o.0, omega (arith, o.1), o.2, o.3);
      distinct = c.distinct;
      found = λ u h small. elim (Bool-cases (ltb u t)) [
        | inl below ↦ c.found u (ltb→< u t below) small
        | inr above ↦
            let last : t ≡ u = omega (arith, ltb→≥ u t above, h) in
            absurd (omega (arith, big, small, ap to last))
      ];
      few = omega (arith, c.few);
    }

  add_indices-IsCollected :
      (n : ℕ) (ops : Indices)
      → n ≤ blocks * half
      → ops.op_r ≡ 0
      → IsCollected n (add_indices r (r_2 r half blocks pos) half n ops)
  unfolding add_indices
  add_indices-IsCollected zero ops le none = record {
    to-lt = λ e h. absurd (omega (arith, none));
    origin = λ e h. absurd (omega (arith, none));
    distinct = λ e e' below h. absurd (omega (arith, none));
    found = λ t h. absurd (omega arith);
    few = omega (arith, none);
  }
  add_indices-IsCollected (suc t) ops le none =
      let before = add_indices r (r_2 r half blocks pos) half t ops in
      let c = add_indices-IsCollected t ops (omega arith) none in
      rw (pass_lem r half blocks pos t (omega arith) before) (elim (Bool-cases (ltb (to t) r)) [
        | inl e ↦ rw e (added-IsCollected t (omega arith) before c (ltb→< (to t) r e))
        | inr e ↦ rw e (skipped-IsCollected t (omega arith) before c (ltb→≥ (to t) r e))
      ])

  pub round_indices-IsRound :
      (ops : Indices)
      → r ≤ r_2 r half blocks pos
      → IsRound r half (round_indices r (r_2 r half blocks pos) half ops)
        × ((round_indices r (r_2 r half blocks pos) half ops).op_r ≤ blocks * half)
  unfolding round_indices
  round_indices-IsRound ops fits =
      let c =
        add_indices-IsCollected (r_2 r half blocks pos / (2 * half) * half)
          (record ops { op_r = 0 }) (omega (arith, whole)) refl in
      (
        record {
          to-lt = c.to-lt;
          odd = λ e h.
              let o = c.origin e h in
              rw (o.2, to_place-eq r half blocks pos o.0 (omega (arith, whole, o.1))) (omega arith);
          from-eq = λ e h.
              let o = c.origin e h in
              o.3
              ∙ from_place-eq r half blocks pos o.0 (omega (arith, whole, o.1))
              ∙ ap (λ (x : ℕ). x / half * half - 1) (sym o.2);
          distinct = c.distinct;
          found = λ x h odd.
              let p = pass_at r half blocks pos x (omega (arith, fits)) odd in
              let f = c.found p.0 (omega (arith, whole, p.1)) (rw p.2 h) in (f.0, f.1, f.2 ∙ p.2);
        },
        omega (arith, whole, c.few),
      )
    where
      whole : r_2 r half blocks pos / (2 * half) * half ≡ blocks * half
      whole =
          ap (λ (n : ℕ). n * half)
            (ap (λ (n : ℕ). n / (2 * half)) {x = r_2 r half blocks pos}
                {y = blocks * (2 * half) + 0} (omega arith)
              ∙ row_at (2 * half) blocks 0 (omega arith))
