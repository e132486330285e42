-- ===== src/BitLt/Store.antt =====
-- The loops that store the products of a round at their bits.
use rss_ring_ppml.Base.{
  ℕ, zero, suc, ◌+◌, ◌-◌, ◌*◌, ◌/◌, ◌%◌, ◌≤◌, ◌<◌, ◌≡◌, ◌∙◌, ap, arith, bit_and, bit_xor,
  Bool-cases, ltb, ◌==◌, inl, inr, refl,
}
use rss_ring_ppml.Base.Bits.{bit, bit-lt, bit_and_mask}
use rss_ring_ppml.Base.Digits.{bit_xor-lt}
use rss_ring_ppml.Word.{shr, get_bit, set_bit}
use rss_ring_ppml.Word.Memory.{Array}
use rss_ring_ppml.Word.Digits.{get_bit-eq, bit-set_bit_same, bit-set_bit_other}
use rss_ring_ppml.BitLt.{store_p, store_g, move_unused}

pub get_bit-lt : (x n : ℕ) → get_bit x n < 2
get_bit-lt x n = rw (get_bit-eq x n) (bit-lt x n)

module _ (w : ℕ) where
  -- What a step of such a loop adds to the bits that are stored.
  pub next_bit :
      (f : ℕ → ℕ) (x n : ℕ)
      → ((j : ℕ) → f j < 2)
      → n < w
      → ((j : ℕ) → j < n → bit x j ≡ f j)
      → (j : ℕ) → j < suc n
      → bit (set_bit w x n (f n)) j ≡ f j
  next_bit f x n small h stored j lt = elim (Bool-cases (ltb j n)) [
    | inl e ↦
        bit-set_bit_other w x n (f n) j (omega arith) (small n) (ground arith)
        ∙ stored j (ground arith)
    | inr e ↦ last (ground arith)
  ]
    where
      last : j ≡ n → bit (set_bit w x n (f n)) j ≡ f j
      last e = rw e (bit-set_bit_same w x n (f n) h (small n))

  module _ (u : Array) (start : ℕ) where
    abbrev pub p_bit : ℕ → ℕ
    p_bit j = get_bit (u (shr j 2 + start)) (bit_and (2 * j) 7)

    pub bit-store_p : (n : ℕ) → n ≤ w → (j : ℕ) → j < n → bit (store_p w u start n 0) j ≡ p_bit j
    unfolding store_p
    bit-store_p zero le j h = absurd (omega arith)
    bit-store_p (suc n) le j h =
        next_bit p_bit (store_p w u start n 0) n (λ j. get_bit-lt _ _) (omega arith)
          (bit-store_p n (omega arith)) j h

    abbrev pub g_bit : ℕ → ℕ → ℕ
    g_bit g j =
        bit_xor (get_bit (u (shr j 2 + start)) (bit_and (2 * j + 1) 7)) (get_bit g (2 * j + 1))

    pub bit-store_g :
        (g n : ℕ) → n ≤ w → (j : ℕ) → j < n → bit (store_g w u start g n 0) j ≡ g_bit g j
    unfolding store_g
    bit-store_g g zero le j h = absurd (omega arith)
    bit-store_g g (suc n) le j h =
        next_bit (g_bit g) (store_g w u start g n 0) n
          (λ j. bit_xor-lt _ _ (get_bit-lt _ _) (get_bit-lt _ _)) (omega arith)
          (bit-store_g g n (omega arith)) j h

    pub p_bit-eq : (j : ℕ) → p_bit j ≡ bit (u (j / 4 + start)) (2 * j % 8)
    p_bit-eq j =
        get_bit-eq (u (shr j 2 + start)) (bit_and (2 * j) 7)
        ∙ ap (bit (u (j / 4 + start))) (bit_and_mask 3 (2 * j))

    pub g_bit-eq :
        (g j : ℕ)
        → g_bit g j ≡ bit_xor (bit (u (j / 4 + start)) ((2 * j + 1) % 8)) (bit g (2 * j + 1))
    g_bit-eq g j =
        ap (λ (t : ℕ). bit_xor t (get_bit g (2 * j + 1)))
          (get_bit-eq (u (shr j 2 + start)) (bit_and (2 * j + 1) 7)
            ∙ ap (bit (u (j / 4 + start))) (bit_and_mask 3 (2 * j + 1)))
        ∙ ap (bit_xor (bit (u (j / 4 + start)) ((2 * j + 1) % 8))) (get_bit-eq g (2 * j + 1))

  module _ (r d x : ℕ) (fits : r ≤ w) where
    odd_test : bit_and r 1 ≡ r % 2
    odd_test = bit_and_mask 1 r

    pub move_unused-below : (j : ℕ) → j < r / 2 → bit (move_unused w r d x) j ≡ bit x j
    unfolding move_unused
    move_unused-below j h = elim (Bool-cases (bit_and r 1 == 1)) [
      | inl e ↦ rw e (
          bit-set_bit_other w x (r / 2) (get_bit d (r - 1)) j (omega arith) (get_bit-lt d (r - 1))
            (omega arith))
      | inr e ↦ rw e refl
    ]

    pub move_unused-last : r % 2 ≡ 1 → bit (move_unused w r d x) (r / 2) ≡ bit d (r - 1)
    unfolding move_unused
    move_unused-last odd = elim (Bool-cases (bit_and r 1 == 1)) [
      | inl e ↦
          rw e
            (bit-set_bit_same w x (r / 2) (get_bit d (r - 1)) (omega arith) (get_bit-lt d (r - 1)))
          ∙ get_bit-eq d (r - 1)
      | inr e ↦ absurd (ground (arith, odd_test))
    ]
