-- ===== src/B2a/Flip.antt =====
-- Exclusive or of an opened bit and a shared one, as an equation on shares.
use rss_ring_ppml.Base.{ℕ, ◌+◌, ◌*◌, ◌^◌, ◌<◌, ◌≡◌, inl, inr, refl, arith, bit_xor}
use rss_ring_ppml.Base.Digits.{bit_cases}
use rss_ring_ppml.Base.Cong.{Cong, Cong_eq}
use rss_ring_ppml.Net.{World}
use rss_ring_ppml.Share.{Shares, IsShared, unit_share}
use rss_ring_ppml.Share.Linear.{IsShared_difference, IsShared_sum, IsShared_times, unit_share_lem}

-- `c + r - 2 c r` for bits.
pub unmask : (v r c : ℕ) → v < 2 → r < 2 → c ≡ bit_xor v r → v + 2 * c * r ≡ c + r
unmask v r c hv hr e = elim (bit_cases v hv) [
  | inl v0 ↦ elim (bit_cases r hr) [
    | inl r0 ↦ literal 0 0 v0 r0 refl
    | inr r1 ↦ literal 0 1 v0 r1 refl
  ]
  | inr v1 ↦ elim (bit_cases r hr) [
    | inl r0 ↦ literal 1 0 v1 r0 refl
    | inr r1 ↦ literal 1 1 v1 r1 refl
  ]
]
  where
    literal :
        (v' r' : ℕ)
        → v ≡ v'
        → r ≡ r'
        → v' + 2 * bit_xor v' r' * r' ≡ bit_xor v' r' + r'
        → v + 2 * c * r ≡ c + r
    literal v' r' ev er h = rw (e, ev, er) h

-- Shares `g` that satisfy `g + 2 c b = c ai + b` at every party that opened `c` share `v`.
pub flip-IsShared :
    {k i v r c : ℕ} (opened : World (ℕ → ℕ)) (g b : World Shares)
    → (opened 1 i ≡ c)
    → (opened 2 i ≡ c)
    → (opened 3 i ≡ c)
    → ((pid s : ℕ)
        → (opened pid i ≡ c)
        → Cong (2 ^ k) (g pid s i + 2 * c * b pid s i) (c * unit_share pid s + b pid s i))
    → v + 2 * c * r ≡ c + r
    → IsShared k b i r
    → IsShared k g i v
flip-IsShared {k} {i} {v} {r} {c} opened g b e1 e2 e3 at value s =
    IsShared_difference (λ pid. opened pid i ≡ c) g (λ pid n j. c * unit_share pid n + b pid n j)
      (λ pid n j. 2 * c * b pid n j) e1 e2 e3 at (Cong_eq (omega (arith, value)))
      (IsShared_sum (λ pid n j. c * unit_share pid n) b
        (IsShared_times c (λ pid n j. unit_share pid n) (unit_share_lem k i)) s)
      (IsShared_times (2 * c) b s)
