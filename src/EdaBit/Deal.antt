-- ===== src/EdaBit/Deal.antt =====
-- Numbers that a party deals out are shared, by sum and by exclusive or.
use rss_ring_ppml.Base.{ℕ, ◌+◌, ◌*◌, ◌^◌, ◌<◌, ◌≡◌, ap, sym, refl, arith}
use rss_ring_ppml.Base.Bits.{bit, zero-bit}
use rss_ring_ppml.Base.Cong.{Cong, Cong_trans, Cong_sym, Cong_eq, Cong_refl, add-Cong}
use rss_ring_ppml.Word.{IsRing}
use rss_ring_ppml.Word.Memory.{Array, Buffer, zeros, unit_size}
use rss_ring_ppml.Net.{World, Transfer, send_and_get_3pc, map_3pc}
use rss_ring_ppml.Net.Rounds.{sent-Cong, received-Cong, sent-bit, received-bit}
use rss_ring_ppml.Prg.{Streams, Positions, key_3pc, prg_getrandom_3pc}
use rss_ring_ppml.Prg.Sync.{InStep, draw_both-InStep}
use rss_ring_ppml.Share.{IsShared}
use rss_ring_ppml.EdaBit.{Dealt, copy_parts, dealt, gamma, deal}

module _ {w k : ℕ} (ring : IsRing w k) (size : ℕ) (streams : Streams) (positions : Positions)
    (step : InStep positions) (parts : ℕ) (secret : World (Array → Array)) where
  abbrev d : Dealt
  d = deal w k size streams positions parts secret

  abbrev new_size : ℕ
  new_size = parts * size

  abbrev words : Buffer → Array
  words buffer = copy_parts w (unit_size k) size buffer parts zeros

  -- The random words of a party, and those that it has in common with the one before.
  abbrev pub own : World Array
  own pid = words ((prg_getrandom_3pc streams positions 1 (unit_size k) new_size).buffer pid)

  abbrev common : World Array
  common pid = words (
      (prg_getrandom_3pc streams
          (prg_getrandom_3pc streams positions 1 (unit_size k) new_size).positions 0 (unit_size k)
          new_size).buffer
        pid)

  abbrev masked : World Array
  masked pid = secret pid (own pid)

  abbrev got : World Transfer
  got = send_and_get_3pc w k new_size masked (λ pid. zeros)

  common_2 : own 1 ≡ common 2
  unfolding prg_getrandom_3pc key_3pc map_3pc
  common_2 = ap (λ (t : ℕ). words (λ j. streams 2 (t + j))) step.first

  common_3 : own 2 ≡ common 3
  unfolding prg_getrandom_3pc key_3pc map_3pc
  common_3 = ap (λ (t : ℕ). words (λ j. streams 3 (t + j))) step.second

  -- `F` is the word itself or one of its bits, modulo 2 ^ m.
  module _ (m : ℕ) (F : ℕ → ℕ) (F_zero : F 0 ≡ 0) {t : ℕ}
      (sent : (pid : ℕ) → Cong (2 ^ m) (F ((got pid).sent t)) (F (masked pid t)))
      (received : (pid : ℕ)
        → Cong (2 ^ m) (F ((got pid).received t)) (F (masked (map_3pc pid 1) t)))
      {x : ℕ} where
    first_dealt :
        Cong (2 ^ m) (F (masked 1 t) + F (own 1 t)) x
        → IsShared m (λ pid s n. F (d.values pid s 0 n)) t x
    unfolding deal dealt gamma map_3pc
    first_dealt sum = record {
      third_share = Cong_eq (ap (λ (a : Array). F (a t)) common_2);
      first_share = Cong_refl _;
      second_share = Cong_trans (received 3) (Cong_sym (sent 1));
      total =
          Cong_trans
            (add-Cong (add-Cong (sent 1) (Cong_eq (ap (λ (a : Array). F (a t)) (sym common_2))))
              (Cong_eq F_zero))
            (Cong_trans (Cong_eq (omega arith)) sum);
    }

    second_dealt :
        Cong (2 ^ m) (F (masked 2 t) + F (own 2 t)) x
        → IsShared m (λ pid s n. F (d.values pid s 1 n)) t x
    unfolding deal dealt gamma map_3pc
    second_dealt sum = record {
      third_share = Cong_trans (received 1) (Cong_sym (sent 2));
      first_share = Cong_eq (ap (λ (a : Array). F (a t)) common_3);
      second_share = Cong_refl _;
      total =
          Cong_trans
            (add-Cong (add-Cong (Cong_eq F_zero) (sent 2))
              (Cong_eq (ap (λ (a : Array). F (a t)) (sym common_3))))
            (Cong_trans (Cong_eq (omega arith)) sum);
    }

  module _ {t x : ℕ} (h : t < new_size) where
    pub first-IsShared :
        Cong (2 ^ k) (secret 1 (own 1) t + own 1 t) x
        → IsShared k (λ pid s n. d.values pid s 0 n) t x
    first-IsShared =
        first_dealt k (λ v. v) refl (λ pid. sent-Cong w k new_size masked (λ pid. zeros) ring pid h)
          (λ pid. received-Cong w k new_size masked (λ pid. zeros) ring pid h)

    pub second-IsShared :
        Cong (2 ^ k) (secret 2 (own 2) t + own 2 t) x
        → IsShared k (λ pid s n. d.values pid s 1 n) t x
    second-IsShared =
        second_dealt k (λ v. v) refl
          (λ pid. sent-Cong w k new_size masked (λ pid. zeros) ring pid h)
          (λ pid. received-Cong w k new_size masked (λ pid. zeros) ring pid h)

    module _ (j : ℕ) (lt : j < k) where
      pub first-bit :
          Cong 2 (bit (secret 1 (own 1) t) j + bit (own 1 t) j) x
          → IsShared 1 (λ pid s n. bit (d.values pid s 0 n) j) t x
      first-bit =
          first_dealt 1 (λ v. bit v j) (zero-bit j)
            (λ pid. Cong_eq (sent-bit w k new_size masked (λ pid. zeros) ring pid j h lt))
            (λ pid. Cong_eq (received-bit w k new_size masked (λ pid. zeros) ring pid j h lt))

      pub second-bit :
          Cong 2 (bit (secret 2 (own 2) t) j + bit (own 2 t) j) x
          → IsShared 1 (λ pid s n. bit (d.values pid s 1 n) j) t x
      second-bit =
          second_dealt 1 (λ v. bit v j) (zero-bit j)
            (λ pid. Cong_eq (sent-bit w k new_size masked (λ pid. zeros) ring pid j h lt))
            (λ pid. Cong_eq (received-bit w k new_size masked (λ pid. zeros) ring pid j h lt))

  pub deal-InStep : InStep d.positions
  unfolding deal
  deal-InStep = draw_both-InStep streams positions (unit_size k) new_size step
