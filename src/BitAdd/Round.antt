-- ===== src/BitAdd/Round.antt =====
-- One round of `Rss_CircleOpL` on the pairs that the parties share.
use mathlib.Core.Path.{subst}
use native.Mathlib.Nat.{div-mul-le_self}
use rss_ring_ppml.Base.{
  ℕ, ◌+◌, ◌*◌, ◌/◌, ◌%◌, ◌≤◌, ◌<◌, ◌≡◌, ◌≢◌, ◌∙◌, ap, refl, arith, bit_xor, ◌==◌, ==→≡, Bool-cases,
  inl, inr,
}
use rss_ring_ppml.Base.Bits.{bit}
use rss_ring_ppml.Base.Cong.{Cong_trans, Cong_eq}
use rss_ring_ppml.Word.Memory.{for_each_at, unit_size}
use rss_ring_ppml.Word.Digits.{get_bit-eq}
use rss_ring_ppml.Net.{World}
use rss_ring_ppml.Prg.{Streams}
use rss_ring_ppml.Prg.Sync.{InStep}
use rss_ring_ppml.Share.{Shares, IsShared}
use rss_ring_ppml.Share.Laws.{IsShared_congr}
use rss_ring_ppml.Share.Linear.{IsShared_move, IsShared_sum}
use rss_ring_ppml.Mult.{rss_mult_byte}
use rss_ring_ppml.Mult.Byte.{bit-rss_mult_byte}
use rss_ring_ppml.BitLt.{Pairs, split_bytes}
use rss_ring_ppml.BitLt.Bytes.{HasPairs, split-lt, split_bytes-bit, bit_xor-Cong}
use rss_ring_ppml.BitLt.Store.{p_bit-eq}
use rss_ring_ppml.BitAdd.{Indices, State, carry_buffer_2, circle_round, round_indices}
use rss_ring_ppml.BitAdd.Collect.{IsRound}
use rss_ring_ppml.BitAdd.Scan.{below_half, next_p, next_g}
use rss_ring_ppml.BitAdd.Fill.{
  bit-buffer_p, bit-buffer_g, place_p-other, place_g-other, place_p-at, place_g-at, high-eq,
}

module _ (w r r_2 size half : ℕ) (streams : Streams) (st : State) (fits : r ≤ w)
    (round : IsRound r half (round_indices r r_2 half st.ops))
    (few : 2 * (round_indices r r_2 half st.ops).op_r ≤ w) (step : InStep st.positions) {i : ℕ}
    (h : i < size) {p g : ℕ → ℕ} (pairs : HasPairs r st.d i p g) where
  abbrev ops : Indices
  ops = round_indices r r_2 half st.ops

  abbrev n : ℕ
  n = unit_size (2 * ops.op_r)

  abbrev buffer : Pairs
  buffer = carry_buffer_2 w size ops st.buffer st.d

  abbrev a : World Shares
  a = split_bytes n size buffer.p st.a

  abbrev b : World Shares
  b = split_bytes n size buffer.g st.b

  abbrev u : World Shares
  u = (rss_mult_byte (n * size) streams st.positions st.u a b).c

  abbrev after : Pairs
  after = (circle_round w r r_2 size streams half st).d

  module _ (e : ℕ) (lt : e < ops.op_r) where
    abbrev q : ℕ
    q = e / 4 + i * n

    below : e / 4 < n
    below = omega (arith, lt)

    from-lt : ops.from e < r
    from-lt = omega (arith, round.to-lt e lt, round.from-eq e lt, div-mul-le_self (ops.to e) half)

    product_bit :
        (m l : ℕ) {x y : ℕ}
        → l < 8
        → l + 8 * (e / 4) ≡ m
        → IsShared 1 (λ pid s k. bit (buffer.p pid s k) m) i x
        → IsShared 1 (λ pid s k. bit (buffer.g pid s k) m) i y
        → IsShared 1 (λ pid s k. bit (u pid s k) l) q (x * y)
    product_bit m l small eq s t =
        bit-rss_mult_byte (n * size) streams st.positions step st.u a b l
          (split-lt n size buffer.p st.a h below)
          (IsShared_move (λ pid s k. bit (buffer.p pid s k) m) (λ pid s k. bit (a pid s k) l)
            (λ pid s. split_bytes-bit n size buffer.p st.a h below l m pid s small eq) s)
          (IsShared_move (λ pid s k. bit (buffer.g pid s k) m) (λ pid s k. bit (b pid s k) l)
            (λ pid s. split_bytes-bit n size buffer.g st.b h below l m pid s small eq) t)

    left_even : IsShared 1 (λ pid s k. bit (buffer.p pid s k) (2 * e)) i (p (ops.from e))
    unfolding carry_buffer_2
    left_even =
        IsShared_move (λ pid s k. bit (st.d.p pid s k) (ops.from e))
          (λ pid s k. bit (buffer.p pid s k) (2 * e))
          (λ pid s.
            ap (λ (t : ℕ). bit t (2 * e)) (for_each_at size _ _ h)
            ∙ bit-buffer_p w ops.from (st.d.p pid s i) (st.d.g pid s i) (st.buffer.p pid s i)
                ops.op_r few (2 * e) (omega (arith, lt))
            ∙ (let even : 2 * e % 2 ≡ 0 = omega arith in
                let place : 2 * e / 2 ≡ e = omega arith in
                rw (even, place) (get_bit-eq (st.d.p pid s i) (ops.from e))))
          (pairs.p_bit (ops.from e) from-lt)

    left_odd : IsShared 1 (λ pid s k. bit (buffer.p pid s k) (2 * e + 1)) i (g (ops.from e))
    unfolding carry_buffer_2
    left_odd =
        IsShared_move (λ pid s k. bit (st.d.g pid s k) (ops.from e))
          (λ pid s k. bit (buffer.p pid s k) (2 * e + 1))
          (λ pid s.
            ap (λ (t : ℕ). bit t (2 * e + 1)) (for_each_at size _ _ h)
            ∙ bit-buffer_p w ops.from (st.d.p pid s i) (st.d.g pid s i) (st.buffer.p pid s i)
                ops.op_r few (2 * e + 1) (omega (arith, lt))
            ∙ (let odd : (2 * e + 1) % 2 ≡ 1 = omega arith in
                let place : (2 * e + 1) / 2 ≡ e = omega arith in
                rw (odd, place) (get_bit-eq (st.d.g pid s i) (ops.from e))))
          (pairs.g_bit (ops.from e) from-lt)

    right :
        (m : ℕ)
        → m < 2 * ops.op_r
        → m / 2 ≡ e
        → IsShared 1 (λ pid s k. bit (buffer.g pid s k) m) i (p (ops.to e))
    unfolding carry_buffer_2
    right m small place =
        IsShared_move (λ pid s k. bit (st.d.p pid s k) (ops.to e))
          (λ pid s k. bit (buffer.g pid s k) m)
          (λ pid s.
            ap (λ (t : ℕ). bit t m) (for_each_at size _ _ h)
            ∙ bit-buffer_g w ops.to (st.d.p pid s i) 0 (st.buffer.g pid s i) ops.op_r few m small
            ∙ rw place (get_bit-eq (st.d.p pid s i) (ops.to e)))
          (pairs.p_bit (ops.to e) (round.to-lt e lt))

    even_lem : IsShared 1 (λ pid s k. bit (u pid s k) (2 * e % 8)) q (p (ops.from e) * p (ops.to e))
    even_lem =
        product_bit (2 * e) (2 * e % 8) (omega arith) (omega arith) left_even
          (right (2 * e) (omega (arith, lt)) (omega arith))

    odd_lem :
        IsShared 1 (λ pid s k. bit (u pid s k) ((2 * e + 1) % 8)) q (g (ops.from e) * p (ops.to e))
    odd_lem =
        product_bit (2 * e + 1) ((2 * e + 1) % 8) (omega arith) (omega arith) left_odd
          (right (2 * e + 1) (omega (arith, lt)) (omega arith))

    to-inside : (e : ℕ) → e < ops.op_r → ops.to e < w
    to-inside e lt = omega (arith, round.to-lt e lt, fits)

    placed_p :
        IsShared 1 (λ pid s k. bit (after.p pid s k) (ops.to e)) i (p (ops.from e) * p (ops.to e))
    unfolding circle_round
    placed_p =
        IsShared_move (λ pid s k. bit (u pid s k) (2 * e % 8))
          (λ pid s k. bit (after.p pid s k) (ops.to e))
          (λ pid s.
            ap (λ (t : ℕ). bit t (ops.to e)) (for_each_at size _ _ h)
            ∙ place_p-at w ops.to (u pid s) (i * n) (st.d.p pid s i) ops.op_r to-inside
                round.distinct ops.op_r e (omega arith) lt
            ∙ p_bit-eq w (u pid s) (i * n) e)
          even_lem

    placed_g :
        IsShared 1
          (λ pid s k. bit (after.g pid s k) (ops.to e))
          i
          (g (ops.from e) * p (ops.to e) + g (ops.to e))
    unfolding circle_round
    placed_g =
        IsShared_congr
          (λ pid s k. bit (u pid s q) ((2 * e + 1) % 8) + bit (st.d.g pid s k) (ops.to e))
          (λ pid s k. bit (after.g pid s k) (ops.to e))
          (λ pid s.
            Cong_trans
              (Cong_eq (
                ap (λ (t : ℕ). bit t (ops.to e)) (for_each_at size _ _ h)
                ∙ place_g-at w ops.to (u pid s) (i * n) (st.d.g pid s i) ops.op_r to-inside
                    round.distinct ops.op_r e (omega arith) lt
                ∙ ap (λ (t : ℕ). bit_xor t (bit (st.d.g pid s i) (ops.to e)))
                    (high-eq w ops.to (u pid s) (i * n) (st.d.g pid s i) ops.op_r to-inside
                      round.distinct e)))
              (bit_xor-Cong _ _))
          (IsShared_sum (λ pid s k. bit (u pid s q) ((2 * e + 1) % 8))
            (λ pid s k. bit (st.d.g pid s k) (ops.to e))
            (IsShared_move (λ pid s k. bit (u pid s k) ((2 * e + 1) % 8))
              (λ pid s k. bit (u pid s q) ((2 * e + 1) % 8)) (λ pid s. refl) odd_lem)
            (pairs.g_bit (ops.to e) (round.to-lt e lt)))

  module _ (t : ℕ) (lt : t < r) (even : t / half % 2 ≡ 0) where
    not_listed : (e : ℕ) → e < ops.op_r → t ≢ ops.to e
    not_listed e small same =
        absurd (omega (arith, even, round.odd e small, ap (λ (x : ℕ). x / half % 2) same))

    kept_p : IsShared 1 (λ pid s k. bit (after.p pid s k) t) i (p t)
    unfolding circle_round
    kept_p =
        IsShared_move (λ pid s k. bit (st.d.p pid s k) t) (λ pid s k. bit (after.p pid s k) t)
          (λ pid s.
            ap (λ (x : ℕ). bit x t) (for_each_at size _ _ h)
            ∙ place_p-other w ops.to (u pid s) (i * n) (st.d.p pid s i) ops.op_r
                (λ e lt. omega (arith, round.to-lt e lt, fits)) round.distinct ops.op_r t
                (omega arith) (omega (arith, fits)) not_listed)
          (pairs.p_bit t lt)

    kept_g : IsShared 1 (λ pid s k. bit (after.g pid s k) t) i (g t)
    unfolding circle_round
    kept_g =
        IsShared_move (λ pid s k. bit (st.d.g pid s k) t) (λ pid s k. bit (after.g pid s k) t)
          (λ pid s.
            ap (λ (x : ℕ). bit x t) (for_each_at size _ _ h)
            ∙ place_g-other w ops.to (u pid s) (i * n) (st.d.g pid s i) ops.op_r
                (λ e lt. omega (arith, round.to-lt e lt, fits)) round.distinct ops.op_r t
                (omega arith) (omega (arith, fits)) not_listed)
          (pairs.g_bit t lt)

  -- What holds of every listed pair of places holds at a place in an upper half.
  at_place :
      (P : ℕ → ℕ → Type 0) (t : ℕ)
      → t < r
      → t / half % 2 ≡ 1
      → ((e : ℕ) → e < ops.op_r → P (ops.from e) (ops.to e))
      → P (below_half half t) t
  at_place P t lt odd all =
      let f = round.found t lt odd in
      subst (P (below_half half t)) f.2 (
        subst (λ (x : ℕ). P x (ops.to f.0)) (round.from-eq f.0 f.1 ∙ ap (below_half half) f.2)
          (all f.0 f.1))

  next_p_lem : (t : ℕ) → t < r → IsShared 1 (λ pid s k. bit (after.p pid s k) t) i (next_p half p t)
  unfolding next_p
  next_p_lem t lt = elim (Bool-cases (t / half % 2 == 1)) [
    | inl e ↦ rw e (
        at_place (λ x y. IsShared 1 (λ pid s k. bit (after.p pid s k) y) i (p x * p y)) t lt
          (==→≡ _ _ e) placed_p)
    | inr e ↦ rw e (kept_p t lt (ground arith))
  ]

  next_g_lem :
      (t : ℕ) → t < r → IsShared 1 (λ pid s k. bit (after.g pid s k) t) i (next_g half p g t)
  unfolding next_g
  next_g_lem t lt = elim (Bool-cases (t / half % 2 == 1)) [
    | inl e ↦ rw e (
        at_place (λ x y. IsShared 1 (λ pid s k. bit (after.g pid s k) y) i (g x * p y + g y)) t lt
          (==→≡ _ _ e) placed_g)
    | inr e ↦ rw e (kept_g t lt (ground arith))
  ]

  pub circle_round_lem :
      HasPairs r (circle_round w r r_2 size streams half st).d i (next_p half p) (next_g half p g)
  circle_round_lem = record { p_bit = next_p_lem; g_bit = next_g_lem }
