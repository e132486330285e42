-- ===== src/Five/Bitwise.antt =====
-- Opening values that five parties share by exclusive or.
use rss_ring_ppml.Base.{
  ℕ, ◌+◌, ◌%◌, ◌^◌, ◌≤◌, ◌<◌, ◌≡◌, ◌∙◌, ap, arith, ◌==◌, if◌then◌else◌, bit_xor,
}
use rss_ring_ppml.Base.Bits.{bit, bit-lt, bit-xor, mod-eq_of_bit}
use rss_ring_ppml.Base.Digits.{bit-mod}
use rss_ring_ppml.Base.Cong.{Cong, Cong_trans, Cong_eq, eq_of_Cong, add-Cong, mod-Cong}
use rss_ring_ppml.Word.{IsRing, mask}
use rss_ring_ppml.Word.Laws.{mask_mod}
use rss_ring_ppml.Word.Memory.{Array, zeros, for_each, for_each_at}
use rss_ring_ppml.Net.{World}
use rss_ring_ppml.Net.Rounds.{transfer-received, message_count-pos}
use rss_ring_ppml.Share.{Shares}
use rss_ring_ppml.Five.{open_map_5pc, t_map_5pc, send_and_get_open_5pc, rss_open_bitwise_mp}
use rss_ring_ppml.Five.Sharing.{IsSharedByFive, with_neighbors-total, open_map_5pc_lem}

-- Each of the `k` low bits of `x` is shared in Z/2.
pub record IsXorSharedByFive (k : ℕ) (a : World Shares) (i x : ℕ) : Type 0 where
  pub at_bit : (j : ℕ) → j < k → IsSharedByFive 1 (λ pid s n. bit (a pid s n) j) i (bit x j)

module _ {w k : ℕ} (ring : IsRing w k) (size : ℕ) (res : World Array) (a : World Shares) {i : ℕ}
    (h : i < size) where
  abbrev sendbuf : World (ℕ → Array)
  sendbuf pid j =
      if j == 0
      then for_each size (λ i. bit_xor (a pid 0 i) (a pid 1 i)) zeros
      else for_each size (λ i. bit_xor (a pid 4 i) (a pid 5 i)) zeros

  abbrev recvbuf : World (ℕ → Array)
  recvbuf = send_and_get_open_5pc w k size sendbuf (λ pid j. zeros)

  bit-mask : (x b : ℕ) → b < k → bit (mask w k x) b ≡ bit x b
  bit-mask x b lt = ap (λ (t : ℕ). bit t b) (mask_mod ring.fits x) ∙ bit-mod x k b lt

  plus :
      (u v b : ℕ) {u' v' : ℕ}
      → Cong 2 (bit u b) u'
      → Cong 2 (bit v b) v'
      → Cong 2 (bit (bit_xor u v) b) (u' + v')
  plus u v b e f =
      Cong_trans (Cong_eq (bit-xor u v b))
        (Cong_trans (mod-Cong 2 (bit u b + bit v b)) (add-Cong e f))

  arrived :
      (pid j b : ℕ) {u : ℕ}
      → b < k
      → Cong 2 (bit (sendbuf (open_map_5pc pid 1 j) j i) b) u
      → Cong 2 (bit (recvbuf pid j i) b) u
  unfolding send_and_get_open_5pc
  arrived pid j b lt e =
      Cong_trans
        (Cong_eq (
          ap (λ (t : ℕ). bit t b)
            (transfer-received w 4 k size (sendbuf (open_map_5pc pid 1 j) j) zeros
              (message_count-pos 4 k (omega arith) ring.pos (omega (arith, ring.fits, ring.narrow)))
              ring.fits h)
          ∙ bit-mask _ b lt))
        e

  module _ (pid : ℕ) (low : 1 ≤ pid) (high : pid ≤ 5) (b : ℕ) (lt : b < k) {y : ℕ}
      (s : IsSharedByFive 1 (λ pid s n. bit (a pid s n) b) i y) where
    abbrev part_of : ℕ → ℕ → ℕ
    part_of q n = s.part (t_map_5pc q n 0) (t_map_5pc q n 1)

    own : (n : ℕ) → n < 6 → Cong 2 (bit (a pid n i) b) (part_of pid n)
    own n small = s.held pid n low high small

    neighbor :
        (j n : ℕ)
        → j < 2
        → n < 6
        → Cong 2 (bit (a (open_map_5pc pid 1 j) n i) b) (part_of (open_map_5pc pid 1 j) n)
    neighbor j n small few =
        let map = open_map_5pc_lem pid j low high small in
        s.held (open_map_5pc pid 1 j) n map.1 map.2 few

    from_neighbor :
        (j n : ℕ)
        → j < 2
        → n < 5
        → (sendbuf (open_map_5pc pid 1 j) j i
            ≡ bit_xor (a (open_map_5pc pid 1 j) n i) (a (open_map_5pc pid 1 j) (n + 1) i))
        → Cong 2
            (bit (recvbuf pid j i) b)
            (part_of (open_map_5pc pid 1 j) n + part_of (open_map_5pc pid 1 j) (n + 1))
    from_neighbor j n small few e = arrived pid j b lt (
        Cong_trans (Cong_eq (ap (λ (t : ℕ). bit t b) e)) (
          plus _ _ b (neighbor j n small (omega (arith, few)))
            (neighbor j (n + 1) small (omega (arith, few)))))

    opened_bit :
        Cong 2
          (bit
            (bit_xor
              (bit_xor
                (bit_xor
                  (bit_xor
                    (bit_xor (bit_xor (bit_xor (a pid 0 i) (a pid 1 i)) (a pid 2 i)) (a pid 3 i))
                    (a pid 4 i))
                  (a pid 5 i))
                (recvbuf pid 0 i))
              (recvbuf pid 1 i))
            b)
          y
    opened_bit =
        Cong_trans
          (plus _ _ b
            (plus _ _ b
              (plus _ _ b
                (plus _ _ b
                  (plus _ _ b
                    (plus _ _ b (plus _ _ b (own 0 (omega arith)) (own 1 (omega arith)))
                      (own 2 (omega arith)))
                    (own 3 (omega arith)))
                  (own 4 (omega arith)))
                (own 5 (omega arith)))
              (from_neighbor 0 0 (omega arith) (omega arith) (for_each_at size _ zeros h)))
            (from_neighbor 1 4 (omega arith) (omega arith) (for_each_at size _ zeros h)))
          (with_neighbors-total s pid low high)

  -- At a supported ring size, for a value shared by exclusive or by five parties at an index `i`
  -- below `size`, the `res[i]` of each of the parties 1 to 5 after `Rss_Open_Bitwise_mp` is the
  -- value modulo `2 ^ ring_size`.
  pub rss_open_bitwise_mp_lem :
      (pid : ℕ) {x : ℕ}
      → 1 ≤ pid
      → pid ≤ 5
      → IsXorSharedByFive k a i x
      → rss_open_bitwise_mp w k size res a pid i ≡ x % 2 ^ k
  unfolding rss_open_bitwise_mp
  rss_open_bitwise_mp_lem pid {x} low high s =
      for_each_at size _ (res pid) h
      ∙ mask_mod ring.fits _
      ∙ mod-eq_of_bit k _ x (λ b lt.
        eq_of_Cong (bit-lt _ b) (bit-lt x b) (opened_bit pid low high b lt (s.at_bit b lt)))
