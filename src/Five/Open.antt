-- ===== src/Five/Open.antt =====
-- Opening gives each of five parties the shared value.
use rss_ring_ppml.Base.{ℕ, ◌+◌, ◌%◌, ◌^◌, ◌≤◌, ◌<◌, ◌≡◌, ◌∙◌, arith, ◌==◌, if◌then◌else◌}
use rss_ring_ppml.Base.Cong.{Cong, Cong_trans, Cong_eq}
use rss_ring_ppml.Word.{IsRing, add}
use rss_ring_ppml.Word.Laws.{add_lem, mask_mod, mask_lem}
use rss_ring_ppml.Word.Memory.{Array, zeros, for_each, for_each_at}
use rss_ring_ppml.Net.{World}
use rss_ring_ppml.Net.Rounds.{transfer-received, message_count-pos}
use rss_ring_ppml.Share.{Shares}
use rss_ring_ppml.Five.{open_map_5pc, t_map_5pc, send_and_get_open_5pc, rss_open_mp}
use rss_ring_ppml.Five.Sharing.{IsSharedByFive, with_neighbors-total, open_map_5pc_lem}

module _ {w k : ℕ} (ring : IsRing w k) (size : ℕ) (res : World Array) (a : World Shares) {i x : ℕ}
    (h : i < size) (s : IsSharedByFive k a i x) where
  abbrev sendbuf : World (ℕ → Array)
  sendbuf pid j =
      if j == 0
      then for_each size (λ i. add w (a pid 0 i) (a pid 1 i)) zeros
      else for_each size (λ i. add w (a pid 4 i) (a pid 5 i)) zeros

  abbrev recvbuf : World (ℕ → Array)
  recvbuf = send_and_get_open_5pc w k size sendbuf (λ pid j. zeros)

  abbrev part_of : ℕ → ℕ → ℕ
  part_of pid n = s.part (t_map_5pc pid n 0) (t_map_5pc pid n 1)

  -- What arrives is the sum of the two shares that the neighbor sends.
  arrived :
      (pid j : ℕ) {u : ℕ}
      → Cong (2 ^ k) (sendbuf (open_map_5pc pid 1 j) j i) u
      → Cong (2 ^ k) (recvbuf pid j i) u
  unfolding send_and_get_open_5pc
  arrived pid j e =
      Cong_trans
        (Cong_eq (
          transfer-received w 4 k size (sendbuf (open_map_5pc pid 1 j) j) zeros
            (message_count-pos 4 k (omega arith) ring.pos (omega (arith, ring.fits, ring.narrow)))
            ring.fits h))
        (mask_lem ring.fits e)

  module _ (pid : ℕ) (low : 1 ≤ pid) (high : pid ≤ 5) where
    own : (n : ℕ) → n < 6 → Cong (2 ^ k) (a pid n i) (part_of pid n)
    own n lt = s.held pid n low high lt

    neighbor :
        (j n : ℕ)
        → j < 2
        → n < 6
        → Cong (2 ^ k) (a (open_map_5pc pid 1 j) n i) (part_of (open_map_5pc pid 1 j) n)
    neighbor j n small lt =
        let map = open_map_5pc_lem pid j low high small in
        s.held (open_map_5pc pid 1 j) n map.1 map.2 lt

    plus :
        {u v u' v' : ℕ} → Cong (2 ^ k) u u' → Cong (2 ^ k) v v' → Cong (2 ^ k) (add w u v) (u' + v')
    plus = add_lem ring.fits

    first :
        Cong
          (2 ^ k)
          (recvbuf pid 0 i)
          (part_of (open_map_5pc pid 1 0) 0 + part_of (open_map_5pc pid 1 0) 1)
    first = arrived pid 0 (
        Cong_trans (Cong_eq (for_each_at size _ zeros h)) (
          plus (neighbor 0 0 (omega arith) (omega arith))
            (neighbor 0 1 (omega arith) (omega arith))))

    second :
        Cong
          (2 ^ k)
          (recvbuf pid 1 i)
          (part_of (open_map_5pc pid 1 1) 4 + part_of (open_map_5pc pid 1 1) 5)
    second = arrived pid 1 (
        Cong_trans (Cong_eq (for_each_at size _ zeros h)) (
          plus (neighbor 1 4 (omega arith) (omega arith))
            (neighbor 1 5 (omega arith) (omega arith))))

    -- At a supported ring size, for a value shared by five parties at an index `i` below `size`,
    -- the `res[i]` of each of the parties 1 to 5 after `Rss_Open_mp` is the value modulo
    -- `2 ^ ring_size`.
    pub rss_open_mp_lem : rss_open_mp w k size res a pid i ≡ x % 2 ^ k
    unfolding rss_open_mp
    rss_open_mp_lem =
        for_each_at size _ (res pid) h
        ∙ mask_mod ring.fits _
        ∙ (Cong_trans
            (plus
              (plus
                (plus
                  (plus
                    (plus
                      (plus (plus (own 0 (omega arith)) (own 1 (omega arith)))
                        (own 2 (omega arith)))
                      (own 3 (omega arith)))
                    (own 4 (omega arith)))
                  (own 5 (omega arith)))
                first)
              second)
            (with_neighbors-total s pid low high)).same
