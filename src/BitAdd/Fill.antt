-- ===== src/BitAdd/Fill.antt =====
-- The loops that fill the buffer and that put the products into place, bit by bit.
use rss_ring_ppml.Base.{
  ℕ, zero, suc, ◌+◌, ◌*◌, ◌/◌, ◌%◌, ◌≤◌, ◌<◌, ◌≡◌, ◌≢◌, ◌∙◌, ap, sym, refl, arith, bit_and, bit_xor,
  ltb, ltb→<, ltb→≥, ◌==◌, if◌then◌else◌, Bool-cases, inl, inr,
}
use rss_ring_ppml.Base.Bits.{bit, bit_and_mask}
use rss_ring_ppml.Base.Digits.{bit_xor-lt}
use rss_ring_ppml.Word.{shr, get_bit, set_bit}
use rss_ring_ppml.Word.Memory.{Array}
use rss_ring_ppml.Word.Digits.{get_bit-eq, bit-set_bit_same, bit-set_bit_other}
use rss_ring_ppml.BitLt.Store.{get_bit-lt, next_bit, p_bit}
use rss_ring_ppml.BitAdd.{buffer_p, buffer_g, place_p, place_g}

module _ (w : ℕ) where
  -- Two bits are stored at once.
  next_two :
      (f : ℕ → ℕ) (x n : ℕ) {even odd : ℕ}
      → ((m : ℕ) → f m < 2)
      → 2 * suc n ≤ w
      → even ≡ f (2 * n)
      → odd ≡ f (2 * n + 1)
      → ((m : ℕ) → m < 2 * n → bit x m ≡ f m)
      → (m : ℕ) → m < 2 * suc n
      → bit (set_bit w (set_bit w x (2 * n) even) (2 * n + 1) odd) m ≡ f m
  next_two f x n small fits e o stored m lt =
      rw (e, o)
        (next_bit w f (set_bit w x (2 * n) (f (2 * n))) (2 * n + 1) small (omega arith)
          (λ m lt. next_bit w f x (2 * n) small (omega arith) stored m (omega arith)) m
          (omega arith))

  module _ (from : Array) (p g x : ℕ) where
    abbrev pair_bit : ℕ → ℕ
    pair_bit m = if m % 2 == 0 then get_bit p (from (m / 2)) else get_bit g (from (m / 2))

    pub bit-buffer_p :
        (n : ℕ) → 2 * n ≤ w → (m : ℕ) → m < 2 * n → bit (buffer_p w from p g n x) m ≡ pair_bit m
    unfolding buffer_p
    bit-buffer_p zero fits m lt = absurd (omega arith)
    bit-buffer_p (suc n) fits m lt =
        next_two pair_bit (buffer_p w from p g n x) n
          (λ m. elim (Bool-cases (m % 2 == 0)) [
            | inl e ↦ rw e (get_bit-lt p _)
            | inr e ↦ rw e (get_bit-lt g _)
          ])
          fits (even n) (odd n) (bit-buffer_p n (omega arith)) m lt
      where
        even : (n : ℕ) → get_bit p (from n) ≡ pair_bit (2 * n)
        even n =
            let half : 2 * n / 2 ≡ n = omega arith in
            let rest : 2 * n % 2 ≡ 0 = omega arith in rw (half, rest) refl

        odd : (n : ℕ) → get_bit g (from n) ≡ pair_bit (2 * n + 1)
        odd n =
            let half : (2 * n + 1) / 2 ≡ n = omega arith in
            let rest : (2 * n + 1) % 2 ≡ 1 = omega arith in rw (half, rest) refl

    pub bit-buffer_g :
        (n : ℕ)
        → 2 * n ≤ w
        → (m : ℕ) → m < 2 * n
        → bit (buffer_g w from p n x) m ≡ get_bit p (from (m / 2))
    unfolding buffer_g
    bit-buffer_g zero fits m lt = absurd (omega arith)
    bit-buffer_g (suc n) fits m lt =
        next_two (λ m. get_bit p (from (m / 2))) (buffer_g w from p n x) n (λ m. get_bit-lt p _)
          fits (ap (λ (i : ℕ). get_bit p (from i)) (omega arith))
          (ap (λ (i : ℕ). get_bit p (from i)) (omega arith)) (bit-buffer_g n (omega arith)) m lt

  module _ (to u : Array) (start x n : ℕ) (inside : (e : ℕ) → e < n → to e < w)
      (distinct : (e e' : ℕ) → e' < e → e < n → to e' ≢ to e) where
    abbrev high : ℕ → ℕ
    high j = get_bit (u (shr j 2 + start)) (bit_and (2 * j + 1) 7)

    place_g-small : (m j : ℕ) → bit_xor (high j) (get_bit (place_g w to u start m x) (to j)) < 2
    place_g-small m j = bit_xor-lt _ _ (get_bit-lt _ _) (get_bit-lt _ _)

    -- Places that are not listed keep their bits.
    pub place_p-other :
        (m t : ℕ)
        → m ≤ n
        → t < w
        → ((e : ℕ) → e < m → t ≢ to e)
        → bit (place_p w to u start m x) t ≡ bit x t
    unfolding place_p
    place_p-other zero t le h ne = refl
    place_p-other (suc m) t le h ne =
        bit-set_bit_other w _ (to m) _ t h (get_bit-lt _ _) (ne m (omega arith))
        ∙ place_p-other m t (omega arith) h (λ e lt. ne e (omega arith))

    pub place_g-other :
        (m t : ℕ)
        → m ≤ n
        → t < w
        → ((e : ℕ) → e < m → t ≢ to e)
        → bit (place_g w to u start m x) t ≡ bit x t
    unfolding place_g
    place_g-other zero t le h ne = refl
    place_g-other (suc m) t le h ne =
        bit-set_bit_other w _ (to m) _ t h (place_g-small m m) (ne m (omega arith))
        ∙ place_g-other m t (omega arith) h (λ e lt. ne e (omega arith))

    pub place_p-at :
        (m e : ℕ) → m ≤ n → e < m → bit (place_p w to u start m x) (to e) ≡ p_bit w u start e
    unfolding place_p
    place_p-at zero e le lt = absurd (omega arith)
    place_p-at (suc m) e le lt = elim (Bool-cases (ltb e m)) [
      | inl below ↦
          bit-set_bit_other w _ (to m) _ (to e) (inside e (omega arith)) (get_bit-lt _ _)
            (distinct m e (ltb→< e m below) (omega arith))
          ∙ place_p-at m e (omega arith) (ltb→< e m below)
      | inr above ↦
          let last : e ≡ m = omega (arith, ltb→≥ e m above, lt) in
          rw last (bit-set_bit_same w _ (to m) _ (inside m (omega arith)) (get_bit-lt _ _))
    ]

    pub place_g-at :
        (m e : ℕ)
        → m ≤ n
        → e < m
        → bit (place_g w to u start m x) (to e) ≡ bit_xor (high e) (bit x (to e))
    unfolding place_g
    place_g-at zero e le lt = absurd (omega arith)
    place_g-at (suc m) e le lt = elim (Bool-cases (ltb e m)) [
      | inl below ↦
          bit-set_bit_other w _ (to m) _ (to e) (inside e (omega arith)) (place_g-small m m)
            (distinct m e (ltb→< e m below) (omega arith))
          ∙ place_g-at m e (omega arith) (ltb→< e m below)
      | inr above ↦
          let last : e ≡ m = omega (arith, ltb→≥ e m above, lt) in
          rw last (
            bit-set_bit_same w _ (to m) _ (inside m (omega arith)) (place_g-small m m)
            ∙ ap (bit_xor (high m)) (
                get_bit-eq _ (to m)
                ∙ place_g-other m (to m) (omega arith) (inside m (omega arith))
                    (λ e' lt same. distinct m e' lt (omega arith) (sym same))))
    ]

    pub high-eq : (e : ℕ) → high e ≡ bit (u (e / 4 + start)) ((2 * e + 1) % 8)
    high-eq e =
        get_bit-eq (u (shr e 2 + start)) (bit_and (2 * e + 1) 7)
        ∙ ap (bit (u (e / 4 + start))) (bit_and_mask 3 (2 * e + 1))
