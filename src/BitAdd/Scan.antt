-- ===== src/BitAdd/Scan.antt =====
-- Pairs after some rounds: each place holds the pair of its block up to itself, and in the end
-- the carry out of all places up to itself.
use native.Mathlib.Nat.{mod-add-div, mod-lt, one-le-pow, pow-suc, div-eq_of_lt, mod-eq_of_lt}
use rss_ring_ppml.Base.{
  ℕ, zero, suc, ◌+◌, ◌-◌, ◌*◌, ◌/◌, ◌%◌, ◌^◌, ◌<◌, ◌≡◌, ◌∙◌, ap, sym, refl, arith, ◌==◌, ==→≡,
  if◌then◌else◌, Bool-cases, inl, inr,
}
use rss_ring_ppml.MatMult.Correct.{row_at, column_at}
use rss_ring_ppml.Base.Digits.{bit_cases}
use rss_ring_ppml.BitLt.Carry.{carry}

-- The last place of the lower half of the block of `2 * half` around `t`.
abbrev pub below_half : ℕ → ℕ → ℕ
below_half half t = t / half * half - 1

-- What round `suc n` makes of the pairs (p, g).
unfoldable pub next_p : ℕ → (ℕ → ℕ) → ℕ → ℕ
next_p half p t = if t / half % 2 == 1 then p (below_half half t) * p t else p t

unfoldable pub next_g : ℕ → (ℕ → ℕ) → (ℕ → ℕ) → ℕ → ℕ
next_g half p g t = if t / half % 2 == 1 then g (below_half half t) * p t + g t else g t

unfoldable pub scan_p : (ℕ → ℕ) → ℕ → ℕ → ℕ
scan_p p zero t = p t
scan_p p (suc n) t = next_p (2 ^ n) (scan_p p n) t

unfoldable pub scan_g : (ℕ → ℕ) → (ℕ → ℕ) → ℕ → ℕ → ℕ
scan_g p g zero t = g t
scan_g p g (suc n) t = next_g (2 ^ n) (scan_p p n) (scan_g p g n) t

module _ (p g : ℕ → ℕ) where
  -- The carry out of `n` places from `start` on, where `c` comes in.
  carry_from : ℕ → ℕ → ℕ → ℕ
  carry_from c start zero = c
  carry_from c start (suc n) = g (start + n) + p (start + n) * carry_from c start n

  carry_from-add :
      (c start m n : ℕ)
      → carry_from (carry_from c start m) (start + m) n ≡ carry_from c start (m + n)
  unfolding carry_from
  carry_from-add c start m zero = ap (carry_from c start) {x = m} {y = m + 0} (omega arith)
  carry_from-add c start m (suc n) =
      let next : m + suc n ≡ suc (m + n) = omega arith in
      let place : start + m + n ≡ start + (m + n) = omega arith in
      rw (next, carry_from-add c start m n, place) refl

  carry_from-carry : (n : ℕ) → carry_from 0 0 n ≡ carry p g n
  unfolding carry_from carry
  carry_from-carry zero = refl
  carry_from-carry (suc n) =
      let place : 0 + n ≡ n = omega arith in rw (place, carry_from-carry n) refl

  -- The start of the block of `size` around `t`, and the places of it up to `t`.
  abbrev start : ℕ → ℕ → ℕ
  start size t = t / size * size

  abbrev length : ℕ → ℕ → ℕ
  length size t = t % size + 1

  same_places : (c : ℕ) {s s' l l' : ℕ} → s ≡ s' → l ≡ l' → carry_from c s l ≡ carry_from c s' l'
  same_places c e f = rw (e, f) refl

  module _ (n t : ℕ) where
    abbrev half : ℕ
    half = 2 ^ n

    abbrev q : ℕ
    q = t / half / 2

    half-pos : 0 < half
    half-pos = one-le-pow n 2 (omega arith)

    twice : 2 ^ suc n ≡ 2 * half
    twice = omega (arith, pow-suc 2 n)

    split : t ≡ q * (2 * half) + (t / half % 2 * half + t % half)
    split = omega (
      arith,
      mod-add-div t half,
      ap (λ (x : ℕ). half * x) {x = t / half} {y = 2 * q + t / half % 2} (omega arith),
    )

    rest-lt : t / half % 2 * half + t % half < 2 * half
    rest-lt = elim (bit_cases (t / half % 2) (omega arith)) [
      | inl e ↦ rw e (omega (arith, mod-lt t half-pos))
      | inr e ↦ rw e (omega (arith, mod-lt t half-pos))
    ]

    start-double : start (2 ^ suc n) t ≡ q * (2 * half)
    start-double = rw twice (
        ap (λ (x : ℕ). x * (2 * half))
          (ap (λ (x : ℕ). x / (2 * half)) split ∙ row_at (2 * half) q _ rest-lt))

    length-double : length (2 ^ suc n) t ≡ t / half % 2 * half + length half t
    length-double = rw twice (
        ap (λ (x : ℕ). x + 1)
          (ap (λ (x : ℕ). x % (2 * half)) split ∙ column_at (2 * half) q _ rest-lt)
        ∙ omega arith)

    module _ (odd : t / half % 2 ≡ 1) where
      last : below_half half t ≡ 2 * q * half + (half - 1)
      last =
          omega
            (arith, half-pos, ap (λ (x : ℕ). x * half) {x = t / half} {y = 2 * q + 1} (omega arith))

      start-last : start half (below_half half t) ≡ q * (2 * half)
      start-last =
          ap (λ (x : ℕ). x * half)
            (ap (λ (x : ℕ). x / half) last
              ∙ row_at half (2 * q) (half - 1) (omega (arith, half-pos)))
          ∙ omega arith

      length-last : length half (below_half half t) ≡ half
      length-last =
          ap (λ (x : ℕ). x + 1)
            (ap (λ (x : ℕ). x % half) last
              ∙ column_at half (2 * q) (half - 1) (omega (arith, half-pos)))
          ∙ omega (arith, half-pos)

      start-odd : start half t ≡ q * (2 * half) + half
      start-odd =
          ap (λ (x : ℕ). x * half) {x = t / half} {y = 2 * q + 1} (omega arith) ∙ omega arith

  scan_lem :
      (n t c : ℕ)
      → scan_g p g n t + scan_p p n t * c ≡ carry_from c (start (2 ^ n) t) (length (2 ^ n) t)
  unfolding scan_g scan_p carry_from next_p next_g
  scan_lem zero t c =
      ap (λ (x : ℕ). g x + p x * c) {x = t} {y = t + 0} (omega arith)
      ∙ same_places c {s = t} {l = 1} (omega arith) (omega arith)
  scan_lem (suc n) t c = elim (Bool-cases (t / 2 ^ n % 2 == 1)) [
    | inl e ↦
        let odd = ==→≡ (t / 2 ^ n % 2) 1 e in
        let last = below_half (2 ^ n) t in
        rw e (
          omega arith
          ∙ ap (λ (x : ℕ). scan_g p g n t + scan_p p n t * x)
              (scan_lem n last c ∙ same_places c (start-last n t odd) (length-last n t odd))
          ∙ scan_lem n t (carry_from c (q n t * (2 * 2 ^ n)) (2 ^ n))
          ∙ same_places (carry_from c (q n t * (2 * 2 ^ n)) (2 ^ n)) {l = length (2 ^ n) t}
              (start-odd n t odd) refl
          ∙ carry_from-add c (q n t * (2 * 2 ^ n)) (2 ^ n) (length (2 ^ n) t)
          ∙ same_places c (sym (start-double n t)) (sym (length-double n t ∙ rw odd (omega arith))))
    | inr e ↦
        let even : t / 2 ^ n % 2 ≡ 0 = ground arith in
        rw e (
          scan_lem n t c
          ∙ same_places c
              (ap (λ (x : ℕ). x * 2 ^ n) {x = t / 2 ^ n} {y = 2 * q n t} (omega arith)
                ∙ omega arith
                ∙ sym (start-double n t))
              (sym (length-double n t ∙ rw even (omega arith))))
  ]

  pub scan_g-carry : (n t : ℕ) → t < 2 ^ n → scan_g p g n t ≡ carry p g (suc t)
  scan_g-carry n t lt =
      omega arith
      ∙ scan_lem n t 0
      ∙ same_places 0 (ap (λ (x : ℕ). x * 2 ^ n) (div-eq_of_lt lt) ∙ omega arith)
          (ap (λ (x : ℕ). x + 1) (mod-eq_of_lt lt) ∙ omega arith)
      ∙ carry_from-carry (suc t)
