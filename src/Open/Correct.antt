-- ===== src/Open/Correct.antt =====
-- Opening gives every party the shared value.
use rss_ring_ppml.Base.{ℕ, ◌+◌, ◌%◌, ◌^◌, ◌<◌, ◌≡◌, ◌∙◌, ◌==◌, ==→≡, Bool-cases, inl, inr}
use rss_ring_ppml.Base.Cong.{Cong, Cong_refl}
use rss_ring_ppml.Word.{IsRing}
use rss_ring_ppml.Word.Laws.{add_lem, mask_mod}
use rss_ring_ppml.Word.Memory.{Array, for_each_at}
use rss_ring_ppml.Net.{World, map_3pc}
use rss_ring_ppml.Net.Rounds.{sent-Cong, received-Cong}
use rss_ring_ppml.Share.{Shares, IsShared}
use rss_ring_ppml.Share.Laws.{party_1, party_2, party_3, IsShared_congr}
use rss_ring_ppml.Open.{rss_open, keep_sent}

module _ {w k : ℕ} (ring : IsRing w k) (size : ℕ) (res : World Array) (a : World Shares) where
  -- The value that a party computes is the sum of its shares and of the one that it lacks.
  open_at :
      (pid : ℕ) {i : ℕ}
      → i < size
      → (rss_open w k size res a).res pid i
        ≡ (a pid 0 i + a pid 1 i + a (map_3pc pid 1) 1 i) % 2 ^ k
  unfolding rss_open
  open_at pid {i} h =
      for_each_at size _ _ h
      ∙ mask_mod ring.fits _
      ∙ (add_lem ring.fits
          (add_lem ring.fits (Cong_refl (a pid 0 i))
            (sent-Cong w k size (λ pid. a pid 1) res ring pid h))
          (received-Cong w k size (λ pid. a pid 1) res ring pid h)).same

  kept :
      {i : ℕ}
      → i < size
      → (pid s : ℕ) → Cong (2 ^ k) ((rss_open w k size res a).a pid s i) (a pid s i)
  unfolding rss_open keep_sent
  kept {i} h pid s = elim (Bool-cases (s == 1)) [
    | inl e ↦ rw (e, ==→≡ s 1 e) (sent-Cong w k size (λ pid. a pid 1) res ring pid h)
    | inr e ↦ rw e (Cong_refl _)
  ]

  -- At a supported ring size, for a value shared at an index `i` below `size`, every party's
  -- `res[i]` after `Rss_Open` is the value modulo `2 ^ ring_size`, and the shares, one of which
  -- the send masked, still share it.
  pub rss_open_lem :
      {i x : ℕ}
      → i < size
      → IsShared k a i x
      → ((rss_open w k size res a).res 1 i ≡ x % 2 ^ k)
        × ((rss_open w k size res a).res 2 i ≡ x % 2 ^ k)
        × ((rss_open w k size res a).res 3 i ≡ x % 2 ^ k)
        × IsShared k (rss_open w k size res a).a i x
  unfolding map_3pc
  rss_open_lem {i} {x} h s = (
    open_at 1 h ∙ (party_1 s).same,
    open_at 2 h ∙ (party_2 s).same,
    open_at 3 h ∙ (party_3 s).same,
    IsShared_congr a (rss_open w k size res a).a (kept h) s,
  )
