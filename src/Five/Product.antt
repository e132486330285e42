-- ===== src/Five/Product.antt =====
-- The local products of five parties cover every product of two parts once.
use rss_ring_ppml.Base.{
  ℕ, ◌+◌, ◌*◌, ◌^◌, ◌≤◌, ◌<◌, ◌≡◌, ◌∙◌, sym, refl, arith, ltb, if◌then◌else◌, Bool-cases, inl, inr,
}
use rss_ring_ppml.Base.Cong.{Cong, Cong_trans, Cong_eq, add-Cong, mul-Cong}
use rss_ring_ppml.Word.{IsRing, add, mul}
use rss_ring_ppml.Word.Laws.{add_lem, mul_lem}
use rss_ring_ppml.Net.{World}
use rss_ring_ppml.Share.{Shares}
use rss_ring_ppml.Five.{t_map_5pc, local_product_mp}
use rss_ring_ppml.Five.Sharing.{IsSharedByFive}

-- What a party adds up, from its shares `u` and `v`.
abbrev local_sum : (ℕ → ℕ) → (ℕ → ℕ) → ℕ
local_sum u v =
    u 0 * (v 0 + v 1 + v 2 + v 3 + v 4 + v 5)
    + u 1 * (v 0 + v 1 + v 2 + v 3 + v 4 + v 5)
    + u 2 * (v 1 + v 3)
    + u 3 * (v 0 + v 2)
    + u 4 * (v 0 + v 1)
    + u 5 * (v 0 + v 4)

-- The part that two parties do not hold, the lower one first.
abbrev ordered : (ℕ → ℕ → ℕ) → ℕ → ℕ → ℕ
ordered part p q = if ltb p q then part p q else part q p

abbrev share_of : (ℕ → ℕ → ℕ) → ℕ → ℕ → ℕ
share_of part pid n = ordered part (t_map_5pc pid n 0) (t_map_5pc pid n 1)

ordered-eq :
    (part : ℕ → ℕ → ℕ) → ((p q : ℕ) → part p q ≡ part q p) → (p q : ℕ) → part p q ≡ ordered part p q
ordered-eq part comm p q = elim (Bool-cases (ltb p q)) [
  | inl e ↦ rw e refl
  | inr e ↦ rw e (comm p q)
]

-- The five of them, by the parts.
abbrev local_sums : (ℕ → ℕ → ℕ) → (ℕ → ℕ → ℕ) → ℕ
local_sums u v =
    (u 2 3 * (v 2 3 + v 2 4 + v 2 5 + v 3 4 + v 3 5 + v 4 5)
      + u 2 4 * (v 2 3 + v 2 4 + v 2 5 + v 3 4 + v 3 5 + v 4 5)
      + u 2 5 * (v 2 4 + v 3 4)
      + u 3 4 * (v 2 3 + v 2 5)
      + u 3 5 * (v 2 3 + v 2 4)
      + u 4 5 * (v 2 3 + v 3 5))
    + (u 3 4 * (v 3 4 + v 3 5 + v 1 3 + v 4 5 + v 1 4 + v 1 5)
        + u 3 5 * (v 3 4 + v 3 5 + v 1 3 + v 4 5 + v 1 4 + v 1 5)
        + u 1 3 * (v 3 5 + v 4 5)
        + u 4 5 * (v 3 4 + v 1 3)
        + u 1 4 * (v 3 4 + v 3 5)
        + u 1 5 * (v 3 4 + v 1 4))
    + (u 4 5 * (v 4 5 + v 1 4 + v 2 4 + v 1 5 + v 2 5 + v 1 2)
        + u 1 4 * (v 4 5 + v 1 4 + v 2 4 + v 1 5 + v 2 5 + v 1 2)
        + u 2 4 * (v 1 4 + v 1 5)
        + u 1 5 * (v 4 5 + v 2 4)
        + u 2 5 * (v 4 5 + v 1 4)
        + u 1 2 * (v 4 5 + v 2 5))
    + (u 1 5 * (v 1 5 + v 2 5 + v 3 5 + v 1 2 + v 1 3 + v 2 3)
        + u 2 5 * (v 1 5 + v 2 5 + v 3 5 + v 1 2 + v 1 3 + v 2 3)
        + u 3 5 * (v 2 5 + v 1 2)
        + u 1 2 * (v 1 5 + v 3 5)
        + u 1 3 * (v 1 5 + v 2 5)
        + u 2 3 * (v 1 5 + v 1 3))
    + (u 1 2 * (v 1 2 + v 1 3 + v 1 4 + v 2 3 + v 2 4 + v 3 4)
        + u 1 3 * (v 1 2 + v 1 3 + v 1 4 + v 2 3 + v 2 4 + v 3 4)
        + u 1 4 * (v 1 3 + v 2 3)
        + u 2 3 * (v 1 2 + v 1 4)
        + u 2 4 * (v 1 2 + v 1 3)
        + u 3 4 * (v 1 2 + v 2 4))

spread :
    (u : ℕ → ℕ → ℕ) (y : ℕ)
    → (u 1 2 + u 1 3 + u 1 4 + u 1 5 + u 2 3 + u 2 4 + u 2 5 + u 3 4 + u 3 5 + u 4 5) * y
      ≡ u 1 2 * y
        + u 1 3 * y
        + u 1 4 * y
        + u 1 5 * y
        + u 2 3 * y
        + u 2 4 * y
        + u 2 5 * y
        + u 3 4 * y
        + u 3 5 * y
        + u 4 5 * y
spread u y = omega arith

cover_parts :
    (u v : ℕ → ℕ → ℕ)
    → local_sums u v
      ≡ u 1 2 * (v 1 2 + v 1 3 + v 1 4 + v 1 5 + v 2 3 + v 2 4 + v 2 5 + v 3 4 + v 3 5 + v 4 5)
        + u 1 3 * (v 1 2 + v 1 3 + v 1 4 + v 1 5 + v 2 3 + v 2 4 + v 2 5 + v 3 4 + v 3 5 + v 4 5)
        + u 1 4 * (v 1 2 + v 1 3 + v 1 4 + v 1 5 + v 2 3 + v 2 4 + v 2 5 + v 3 4 + v 3 5 + v 4 5)
        + u 1 5 * (v 1 2 + v 1 3 + v 1 4 + v 1 5 + v 2 3 + v 2 4 + v 2 5 + v 3 4 + v 3 5 + v 4 5)
        + u 2 3 * (v 1 2 + v 1 3 + v 1 4 + v 1 5 + v 2 3 + v 2 4 + v 2 5 + v 3 4 + v 3 5 + v 4 5)
        + u 2 4 * (v 1 2 + v 1 3 + v 1 4 + v 1 5 + v 2 3 + v 2 4 + v 2 5 + v 3 4 + v 3 5 + v 4 5)
        + u 2 5 * (v 1 2 + v 1 3 + v 1 4 + v 1 5 + v 2 3 + v 2 4 + v 2 5 + v 3 4 + v 3 5 + v 4 5)
        + u 3 4 * (v 1 2 + v 1 3 + v 1 4 + v 1 5 + v 2 3 + v 2 4 + v 2 5 + v 3 4 + v 3 5 + v 4 5)
        + u 3 5 * (v 1 2 + v 1 3 + v 1 4 + v 1 5 + v 2 3 + v 2 4 + v 2 5 + v 3 4 + v 3 5 + v 4 5)
        + u 4 5 * (v 1 2 + v 1 3 + v 1 4 + v 1 5 + v 2 3 + v 2 4 + v 2 5 + v 3 4 + v 3 5 + v 4 5)
cover_parts u v = omega arith

cover :
    (u v : ℕ → ℕ → ℕ)
    → local_sums u v
      ≡ (u 1 2 + u 1 3 + u 1 4 + u 1 5 + u 2 3 + u 2 4 + u 2 5 + u 3 4 + u 3 5 + u 4 5)
        * (v 1 2 + v 1 3 + v 1 4 + v 1 5 + v 2 3 + v 2 4 + v 2 5 + v 3 4 + v 3 5 + v 4 5)
cover u v =
    cover_parts u v
    ∙ sym (spread u (v 1 2 + v 1 3 + v 1 4 + v 1 5 + v 2 3 + v 2 4 + v 2 5 + v 3 4 + v 3 5 + v 4 5))

module _ {w k : ℕ} (ring : IsRing w k) (a b : World Shares) {i j x y : ℕ}
    (s : IsSharedByFive k a i x) (t : IsSharedByFive k b j y) where
  plus :
      {c d c' d' : ℕ} → Cong (2 ^ k) c c' → Cong (2 ^ k) d d' → Cong (2 ^ k) (add w c d) (c' + d')
  plus = add_lem ring.fits

  times :
      {c d c' d' : ℕ} → Cong (2 ^ k) c c' → Cong (2 ^ k) d d' → Cong (2 ^ k) (mul w c d) (c' * d')
  times = mul_lem ring.fits

  u_at :
      (pid : ℕ)
      → 1 ≤ pid
      → pid ≤ 5
      → (n : ℕ) → n < 6
      → Cong (2 ^ k) (a pid n i) (share_of s.part pid n)
  u_at pid low high n lt =
      Cong_trans (s.held pid n low high lt) (Cong_eq (ordered-eq s.part s.part_comm _ _))

  v_at :
      (pid : ℕ)
      → 1 ≤ pid
      → pid ≤ 5
      → (n : ℕ) → n < 6
      → Cong (2 ^ k) (b pid n j) (share_of t.part pid n)
  v_at pid low high n lt =
      Cong_trans (t.held pid n low high lt) (Cong_eq (ordered-eq t.part t.part_comm _ _))

  local_product_lem :
      (pid : ℕ)
      → 1 ≤ pid
      → pid ≤ 5
      → Cong
          (2 ^ k)
          (local_product_mp w (a pid) (b pid) i j)
          (local_sum (share_of s.part pid) (share_of t.part pid))
  unfolding local_product_mp
  local_product_lem pid low high =
      let u = u_at pid low high in
      let v = v_at pid low high in
      let all =
        plus
          (plus
            (plus (plus (plus (v 0 (omega arith)) (v 1 (omega arith))) (v 2 (omega arith)))
              (v 3 (omega arith)))
            (v 4 (omega arith)))
          (v 5 (omega arith)) in
      plus
        (plus
          (plus
            (plus (plus (times (u 0 (omega arith)) all) (times (u 1 (omega arith)) all))
              (times (u 2 (omega arith)) (plus (v 1 (omega arith)) (v 3 (omega arith)))))
            (times (u 3 (omega arith)) (plus (v 0 (omega arith)) (v 2 (omega arith)))))
          (times (u 4 (omega arith)) (plus (v 0 (omega arith)) (v 1 (omega arith)))))
        (times (u 5 (omega arith)) (plus (v 0 (omega arith)) (v 4 (omega arith))))

  -- At a supported ring size, for `x` and `y` shared by five parties at the indices `i` of `a` and
  -- `j` of `b`, what the parties compute on their own in `Rss_Mult_mp` adds up to `x * y`: every
  -- product of two parts is computed by exactly one party.
  pub local_products_mp_total :
      Cong
        (2 ^ k)
        (local_product_mp w (a 1) (b 1) i j
          + local_product_mp w (a 2) (b 2) i j
          + local_product_mp w (a 3) (b 3) i j
          + local_product_mp w (a 4) (b 4) i j
          + local_product_mp w (a 5) (b 5) i j)
        (x * y)
  unfolding t_map_5pc
  local_products_mp_total =
      Cong_trans
        (add-Cong
          (add-Cong
            (add-Cong
              (add-Cong (local_product_lem 1 (omega arith) (omega arith))
                (local_product_lem 2 (omega arith) (omega arith)))
              (local_product_lem 3 (omega arith) (omega arith)))
            (local_product_lem 4 (omega arith) (omega arith)))
          (local_product_lem 5 (omega arith) (omega arith)))
        (Cong_trans (Cong_eq (cover s.part t.part)) (mul-Cong s.total t.total))
