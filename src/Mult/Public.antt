-- ===== src/Mult/Public.antt =====
-- `Rss_MultPub` opens the product to all parties.
use rss_ring_ppml.Base.{
  ℕ, ◌+◌, ◌-◌, ◌*◌, ◌%◌, ◌^◌, ◌<◌, ◌≡◌, ◌∙◌, refl, false, arith, ◌==◌, if◌then◌else◌,
}
use rss_ring_ppml.Base.Cong.{Cong, Cong_trans, Cong_sym, Cong_refl, Cong_eq, Cong-cancel, add-Cong}
use rss_ring_ppml.Word.{IsRing, add, mul, all_ones}
use rss_ring_ppml.Word.Laws.{add_lem, mul_lem, neg_lem, mask_mod, mask_lem}
use rss_ring_ppml.Word.Memory.{
  Array, zeros, for_each_at, load_all, load_all_lem, unit_size, le-unit_size,
}
use rss_ring_ppml.Net.{World, multicast_3pc, map_3pc}
use rss_ring_ppml.Net.Rounds.{transfer-received, message_count-pos}
use rss_ring_ppml.Prg.{Streams, Positions, prg_getrandom_3pc}
use rss_ring_ppml.Prg.Sync.{InStep, draw_both_down-InStep}
use rss_ring_ppml.Share.{Shares, IsShared}
use rss_ring_ppml.Mult.{local_product, pub_part, rss_mult_pub}
use rss_ring_ppml.Mult.Correct.{random_at, random_1, random_2, random_3, local_products_total}

module _ {w k : ℕ} (ring : IsRing w k) (size : ℕ) (streams : Streams) (positions : Positions)
    (step : InStep positions) (scratch c : World Array) (a b : World Shares) where
  abbrev bytes : ℕ
  bytes = unit_size k

  abbrev mask_0 : World Array
  mask_0 pid =
      load_all bytes size ((prg_getrandom_3pc streams positions 0 bytes size).buffer pid)
        (scratch pid)

  abbrev mask_1 : World Array
  mask_1 pid =
      load_all bytes size
        ((prg_getrandom_3pc streams (prg_getrandom_3pc streams positions 0 bytes size).positions 1
            bytes size).buffer
          pid)
        (c pid)

  abbrev part : World Array
  part = pub_part w size a b mask_0 mask_1

  module _ {i : ℕ} (h : i < size) where
    abbrev z : ℕ → ℕ → ℕ
    z key pid = random_at streams positions bytes i key pid

    abbrev p : ℕ → ℕ
    p pid = local_product w (a pid) (b pid) i i

    mask_0_lem : (pid : ℕ) → Cong (2 ^ k) (mask_0 pid i) (z 0 pid)
    unfolding prg_getrandom_3pc
    mask_0_lem pid = load_all_lem bytes size _ (scratch pid) (le-unit_size k) h

    mask_1_lem : (pid : ℕ) → Cong (2 ^ k) (mask_1 pid i) (z 1 pid)
    unfolding prg_getrandom_3pc
    mask_1_lem pid = load_all_lem bytes size _ (c pid) (le-unit_size k) h

    plus : {x y : ℕ} → Cong (2 ^ k) x y → Cong (2 ^ k) (mul w 1 x) y
    plus {x} e = Cong_trans (mul_lem ring.fits (Cong_refl 1) e) (Cong_eq (omega arith))

    minus : {x y : ℕ} → Cong (2 ^ k) x y → Cong (2 ^ k) (mul w (all_ones w) x + y) 0
    minus {x} e =
        Cong_trans (add-Cong (Cong_refl (mul w (all_ones w) x)) (Cong_sym e)) (neg_lem ring.fits x)

    -- What the parties send, by the factors of their IDs.
    part_1 : Cong (2 ^ k) (part 1 i) (p 1 + z 0 2 + z 0 1)
    unfolding pub_part
    part_1 = Cong_trans (Cong_eq (for_each_at size _ (mask_1 1) h)) (
        add_lem ring.fits
          (add_lem ring.fits (Cong_refl (p 1))
            (plus (Cong_trans (mask_1_lem 1) (Cong_eq (random_1 streams positions step bytes i)))))
          (plus (mask_0_lem 1)))

    part_2 : Cong (2 ^ k) (part 2 i + z 0 2) (p 2 + z 0 3)
    unfolding pub_part
    part_2 =
        Cong_trans
          (add-Cong
            (Cong_trans (Cong_eq (for_each_at size _ (mask_1 2) h)) (
              add_lem ring.fits
                (add_lem ring.fits (Cong_refl (p 2)) (
                  plus (
                    Cong_trans (mask_1_lem 2) (Cong_eq (random_2 streams positions step bytes i)))))
                (Cong_refl (mul w (all_ones w) (mask_0 2 i)))))
            (Cong_refl (z 0 2)))
          (Cong_trans (Cong_eq (omega arith)) (
            Cong_trans (add-Cong (Cong_refl (p 2 + z 0 3)) (minus (mask_0_lem 2)))
              (Cong_eq (omega arith))))

    part_3 : Cong (2 ^ k) (part 3 i + z 0 1 + z 0 3) (p 3)
    unfolding pub_part
    part_3 =
        Cong_trans
          (add-Cong
            (add-Cong
              (Cong_trans (Cong_eq (for_each_at size _ (mask_1 3) h)) (
                add_lem ring.fits
                  (add_lem ring.fits (Cong_refl (p 3))
                    (Cong_refl (mul w (all_ones w) (mask_1 3 i))))
                  (Cong_refl (mul w (all_ones w) (mask_0 3 i)))))
              (Cong_refl (z 0 1)))
            (Cong_refl (z 0 3)))
          (Cong_trans (Cong_eq (omega arith)) (
            Cong_trans
              (add-Cong (Cong_refl (p 3)) (
                add-Cong
                  (minus
                    (Cong_trans (mask_1_lem 3) (Cong_eq (random_3 streams positions step bytes i))))
                  (minus (mask_0_lem 3))))
              (Cong_eq (omega arith))))

    parts_total :
        {x : ℕ} → Cong (2 ^ k) (p 1 + p 2 + p 3) x → Cong (2 ^ k) (part 1 i + part 2 i + part 3 i) x
    parts_total e =
        Cong_trans
          (Cong-cancel {c = z 0 1 + z 0 2 + z 0 3}
            (Cong_trans (Cong_eq (omega arith))
              (Cong_trans (add-Cong (add-Cong part_1 part_2) part_3) (Cong_eq (omega arith))))
            (Cong_refl (z 0 1 + z 0 2 + z 0 3)))
          e

    -- What a party receives from another one.
    heard :
        (pid j : ℕ) (data_out : World (ℕ → Array))
        → (pid == j + 1) ≡ false
        → Cong
            (2 ^ k)
            (multicast_3pc w k size data_out (λ pid j. zeros) pid j i)
            (data_out (j + 1) (pid - 1) i)
    unfolding multicast_3pc
    heard pid j data_out ne = rw ne (
        Cong_trans
          (Cong_eq (
            transfer-received w 2 k size (data_out (j + 1) (pid - 1)) zeros
              (message_count-pos 2 k (omega arith) ring.pos (omega (arith, ring.fits, ring.narrow)))
              ring.fits h))
          (mask_lem ring.fits (Cong_refl _)))

  -- At a supported ring size, for values shared at an index `i` below `size`, and streams in
  -- step, `Rss_MultPub` leaves their product modulo `2 ^ ring_size` at every party, and the
  -- streams in step again.
  pub rss_mult_pub_lem :
      {i x y : ℕ}
      → i < size
      → IsShared k a i x
      → IsShared k b i y
      → ((rss_mult_pub w k size streams positions scratch c a b).c 1 i ≡ x * y % 2 ^ k)
        × ((rss_mult_pub w k size streams positions scratch c a b).c 2 i ≡ x * y % 2 ^ k)
        × ((rss_mult_pub w k size streams positions scratch c a b).c 3 i ≡ x * y % 2 ^ k)
        × InStep (rss_mult_pub w k size streams positions scratch c a b).positions
  unfolding rss_mult_pub map_3pc
  rss_mult_pub_lem {i} {x} {y} h s t = (
    for_each_at size _ (part 1) h ∙ mask_mod ring.fits _ ∙ (sum_1).same,
    for_each_at size _ (part 2) h ∙ mask_mod ring.fits _ ∙ (sum_2).same,
    for_each_at size _ (part 3) h ∙ mask_mod ring.fits _ ∙ (sum_3).same,
    draw_both_down-InStep streams positions bytes size step,
  )
    where
      total : Cong (2 ^ k) (part 1 i + part 2 i + part 3 i) (x * y)
      total = parts_total h (local_products_total ring a b s t)

      data_out : World (ℕ → Array)
      data_out pid j = if j + 1 == pid then zeros else part pid

      got : ℕ → ℕ → ℕ
      got pid j = multicast_3pc w k size data_out (λ pid j. zeros) pid j i

      sum_1 : Cong (2 ^ k) (add w (add w (part 1 i) (got 1 2)) (got 1 1)) (x * y)
      sum_1 =
          Cong_trans
            (add_lem ring.fits
              (add_lem ring.fits (Cong_refl (part 1 i)) (heard h 1 2 data_out refl))
              (heard h 1 1 data_out refl))
            (Cong_trans (Cong_eq (omega arith)) total)

      sum_2 : Cong (2 ^ k) (add w (add w (part 2 i) (got 2 0)) (got 2 2)) (x * y)
      sum_2 =
          Cong_trans
            (add_lem ring.fits
              (add_lem ring.fits (Cong_refl (part 2 i)) (heard h 2 0 data_out refl))
              (heard h 2 2 data_out refl))
            (Cong_trans (Cong_eq (omega arith)) total)

      sum_3 : Cong (2 ^ k) (add w (add w (part 3 i) (got 3 1)) (got 3 0)) (x * y)
      sum_3 =
          Cong_trans
            (add_lem ring.fits
              (add_lem ring.fits (Cong_refl (part 3 i)) (heard h 3 1 data_out refl))
              (heard h 3 0 data_out refl))
            (Cong_trans (Cong_eq (omega arith)) total)
