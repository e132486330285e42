-- ===== src/MatMult/Exchange.antt =====
-- The exchange of the matrix products shares what `Rss_Mult` would share.
use rss_ring_ppml.Base.{ℕ, ◌+◌, ◌^◌, ◌<◌, sym, ◌==◌, inl, inr, Bool-cases}
use rss_ring_ppml.Base.Cong.{Cong, Cong_trans, Cong_sym, Cong_refl, Cong_eq}
use rss_ring_ppml.Word.{IsRing, sub}
use rss_ring_ppml.Word.Laws.{add_lem}
use rss_ring_ppml.Word.Memory.{Array, zeros, for_each, for_each_at, load_all, unit_size}
use rss_ring_ppml.Net.{World, send_and_get_3pc}
use rss_ring_ppml.Net.Rounds.{sent-Cong}
use rss_ring_ppml.Prg.{Streams, Positions, prg_getrandom_3pc}
use rss_ring_ppml.Prg.Sync.{InStep, draw_both-InStep}
use rss_ring_ppml.Share.{Shares, IsShared}
use rss_ring_ppml.Share.Laws.{IsShared_congr}
use rss_ring_ppml.Mult.{Product, with_shares, mask_and_send, store_product}
use rss_ring_ppml.Mult.Correct.{mask_and_send-IsShared}
use rss_ring_ppml.MatMult.{mask_and_send_copy}

module _ {w k : ℕ} (ring : IsRing w k) (size : ℕ) (streams : Streams) (positions : Positions)
    (step : InStep positions) (c : World Shares) (f : World Array) where
  abbrev like_mult : Product
  like_mult =
      store_product size c
        (mask_and_send w k size streams positions f (λ pid. c pid 0) (λ pid. zeros))

  abbrev copied : Product
  copied = mask_and_send_copy w k size streams positions f c

  abbrev mask_1 : World Array
  mask_1 pid =
      load_all (unit_size k) size
        ((prg_getrandom_3pc streams positions 1 (unit_size k) size).buffer pid) (c pid 0)

  abbrev mask_0 : World Array
  mask_0 pid =
      load_all (unit_size k) size
        ((prg_getrandom_3pc streams
            (prg_getrandom_3pc streams positions 1 (unit_size k) size).positions 0 (unit_size k)
            size).buffer
          pid)
        (mask_1 pid)

  abbrev v : World Array
  v pid = for_each size (λ i. sub w (f pid i) (mask_1 pid i)) zeros

  same_share :
      {i : ℕ} → i < size → (pid s : ℕ) → Cong (2 ^ k) (copied.c pid s i) (like_mult.c pid s i)
  unfolding mask_and_send_copy store_product with_shares mask_and_send
  same_share {i} h pid s = elim (Bool-cases (s == 0)) [
    | inl e ↦ rw e (
        Cong_trans (Cong_eq (for_each_at size _ (c pid 0) h)) (
          Cong_trans
            (Cong_trans (add_lem ring.fits (Cong_refl (mask_0 pid i)) (Cong_sym sent)) (
              Cong_sym (
                add_lem ring.fits (Cong_refl (mask_0 pid i))
                  (Cong_refl ((send_and_get_3pc w k size v (λ pid. zeros) pid).sent i)))))
            (Cong_eq (sym (for_each_at size _ (c pid 0) h)))))
    | inr e ↦ rw e (Cong_refl _)
  ]
    where
      sent : Cong (2 ^ k) ((send_and_get_3pc w k size v (λ pid. zeros) pid).sent i) (v pid i)
      sent = sent-Cong w k size v (λ pid. zeros) ring pid h

  pub mask_and_send_copy_lem :
      {i x : ℕ}
      → i < size
      → Cong (2 ^ k) (f 1 i + f 2 i + f 3 i) x
      → IsShared k copied.c i x × InStep copied.positions
  unfolding mask_and_send_copy store_product
  mask_and_send_copy_lem h sum = (
    IsShared_congr like_mult.c copied.c (same_share h) (
        mask_and_send-IsShared ring size streams positions step c f (λ pid. c pid 0) (λ pid. zeros)
          h sum),
    draw_both-InStep streams positions (unit_size k) size step,
  )
