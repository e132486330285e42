-- ===== src/Five/Sharing.antt =====
-- When the six shares of each of five parties stand for a value.
use rss_ring_ppml.Base.{ℕ, ◌+◌, ◌^◌, ◌≤◌, ◌<◌, ◌≡◌, ◌⊎◌, ◌∙◌, inl, inr, refl, arith}
use rss_ring_ppml.Base.Cong.{Cong, Cong_trans, Cong_eq}
use rss_ring_ppml.Net.{World}
use rss_ring_ppml.Share.{Shares}
use rss_ring_ppml.Five.{open_map_5pc, t_map_5pc}

-- `part p q` is what the parties `p` and `q` do not hold.
pub record IsSharedByFive (k : ℕ) (a : World Shares) (i x : ℕ) : Type 0 where
  pub part : ℕ → ℕ → ℕ
  pub part_comm : (p q : ℕ) → part p q ≡ part q p
  pub held :
      (pid s : ℕ)
      → 1 ≤ pid
      → pid ≤ 5
      → s < 6
      → Cong (2 ^ k) (a pid s i) (part (t_map_5pc pid s 0) (t_map_5pc pid s 1))
  pub total :
      Cong
        (2 ^ k)
        (part 1 2
          + part 1 3
          + part 1 4
          + part 1 5
          + part 2 3
          + part 2 4
          + part 2 5
          + part 3 4
          + part 3 5
          + part 4 5)
        x

-- The shares of a party, with what it gets from its neighbors.
abbrev pub with_neighbors : (ℕ → ℕ → ℕ) → ℕ → ℕ
with_neighbors part pid =
    let p = (λ (q s : ℕ). part (t_map_5pc q s 0) (t_map_5pc q s 1)) in
    p pid 0
    + p pid 1
    + p pid 2
    + p pid 3
    + p pid 4
    + p pid 5
    + (p (open_map_5pc pid 1 0) 0 + p (open_map_5pc pid 1 0) 1)
    + (p (open_map_5pc pid 1 1) 4 + p (open_map_5pc pid 1 1) 5)

pub five_cases :
    (pid : ℕ) → 1 ≤ pid → pid ≤ 5 → (pid ≡ 1) ⊎ ((pid ≡ 2) ⊎ ((pid ≡ 3) ⊎ ((pid ≡ 4) ⊎ (pid ≡ 5))))
five_cases pid low high = ground (arith, low, high)

-- What the shares of each party and of its neighbors are.
module _ (part : ℕ → ℕ → ℕ) (comm : (p q : ℕ) → part p q ≡ part q p) where
  at_1 :
      with_neighbors part 1
      ≡ part 2 3
        + part 2 4
        + part 2 5
        + part 3 4
        + part 3 5
        + part 4 5
        + (part 1 2 + part 1 3)
        + (part 4 1 + part 5 1)
  unfolding open_map_5pc t_map_5pc
  at_1 = refl

  at_2 :
      with_neighbors part 2
      ≡ part 3 4
        + part 3 5
        + part 3 1
        + part 4 5
        + part 4 1
        + part 5 1
        + (part 2 3 + part 2 4)
        + (part 5 2 + part 1 2)
  unfolding open_map_5pc t_map_5pc
  at_2 = refl

  at_3 :
      with_neighbors part 3
      ≡ part 4 5
        + part 4 1
        + part 4 2
        + part 5 1
        + part 5 2
        + part 1 2
        + (part 3 4 + part 3 5)
        + (part 1 3 + part 2 3)
  unfolding open_map_5pc t_map_5pc
  at_3 = refl

  at_4 :
      with_neighbors part 4
      ≡ part 5 1
        + part 5 2
        + part 5 3
        + part 1 2
        + part 1 3
        + part 2 3
        + (part 4 5 + part 4 1)
        + (part 2 4 + part 3 4)
  unfolding open_map_5pc t_map_5pc
  at_4 = refl

  at_5 :
      with_neighbors part 5
      ≡ part 1 2
        + part 1 3
        + part 1 4
        + part 2 3
        + part 2 4
        + part 3 4
        + (part 5 1 + part 5 2)
        + (part 3 5 + part 4 5)
  unfolding open_map_5pc t_map_5pc
  at_5 = refl

  all_parts :
      (pid : ℕ)
      → 1 ≤ pid
      → pid ≤ 5
      → with_neighbors part pid
        ≡ part 1 2
          + part 1 3
          + part 1 4
          + part 1 5
          + part 2 3
          + part 2 4
          + part 2 5
          + part 3 4
          + part 3 5
          + part 4 5
  all_parts pid low high = elim (five_cases pid low high) [
    | inl e ↦ rw e (at_1 ∙ omega (arith, comm 4 1, comm 5 1))
    | inr rest_0 ↦ elim rest_0 [
      | inl e ↦ rw e (at_2 ∙ omega (arith, comm 3 1, comm 4 1, comm 5 1, comm 5 2))
      | inr rest_1 ↦ elim rest_1 [
        | inl e ↦ rw e (at_3 ∙ omega (arith, comm 4 1, comm 4 2, comm 5 1, comm 5 2))
        | inr rest_2 ↦ elim rest_2 [
          | inl e ↦ rw e (at_4 ∙ omega (arith, comm 4 1, comm 5 1, comm 5 2, comm 5 3))
          | inr e ↦ rw e (at_5 ∙ omega (arith, comm 5 1, comm 5 2))
        ]
      ]
    ]
  ]

-- These are all ten parts.
pub with_neighbors-total :
    {k i x : ℕ} {a : World Shares} (s : IsSharedByFive k a i x) (pid : ℕ)
    → 1 ≤ pid
    → pid ≤ 5
    → Cong (2 ^ k) (with_neighbors s.part pid) x
with_neighbors-total s pid low high =
    Cong_trans (Cong_eq (all_parts s.part s.part_comm pid low high)) s.total

-- Whom a party sends array `i` to takes array `i` from it.
pub open_map_5pc_lem :
    (pid i : ℕ)
    → 1 ≤ pid
    → pid ≤ 5
    → i < 2
    → (open_map_5pc (open_map_5pc pid 1 i) 0 i ≡ pid)
      × (1 ≤ open_map_5pc pid 1 i)
      × (open_map_5pc pid 1 i ≤ 5)
unfolding open_map_5pc
open_map_5pc_lem pid i low high small = (
  ground (arith, low, high, small),
  ground (arith, low, high, small),
  ground (arith, low, high, small),
)
