-- ===== src/MatMult/Products.antt =====
-- The dot products of the parties add up to the dot product of the shared vectors.
use rss_ring_ppml.Base.{ℕ, zero, suc, ◌+◌, ◌*◌, ◌^◌, ◌<◌, arith}
use rss_ring_ppml.Base.Cong.{Cong, Cong_trans, Cong_refl, Cong_eq, add-Cong}
use rss_ring_ppml.Word.{IsRing}
use rss_ring_ppml.Word.Laws.{add_lem}
use rss_ring_ppml.Net.{World}
use rss_ring_ppml.Share.{Shares, IsShared}
use rss_ring_ppml.Mult.{local_product}
use rss_ring_ppml.Mult.Correct.{local_products_total}
use rss_ring_ppml.MatMult.{dot}

-- The sum of the first `n` terms in ℕ.
unfoldable pub total : (ℕ → ℕ) → ℕ → ℕ
total term zero = 0
total term (suc n) = total term n + term n

module _ {w k : ℕ} (ring : IsRing w k) (a b : World Shares) (at_a at_b x y : ℕ → ℕ) where
  abbrev part : ℕ → ℕ → ℕ
  part pid n = dot w (λ t. local_product w (a pid) (b pid) (at_a t) (at_b t)) n

  pub dot_products_total :
      (n : ℕ)
      → ((t : ℕ) → t < n → IsShared k a (at_a t) (x t))
      → ((t : ℕ) → t < n → IsShared k b (at_b t) (y t))
      → Cong (2 ^ k) (part 1 n + part 2 n + part 3 n) (total (λ t. x t * y t) n)
  unfolding dot total
  dot_products_total zero s t = Cong_refl 0
  dot_products_total (suc n) s t = Cong_trans (add-Cong (add-Cong (next 1) (next 2)) (next 3)) (
      Cong_trans (Cong_eq (omega arith)) (
        add-Cong (dot_products_total n (λ i h. s i (omega arith)) (λ i h. t i (omega arith)))
          (local_products_total ring a b (s n (omega arith)) (t n (omega arith)))))
    where
      next :
          (pid : ℕ)
          → Cong
              (2 ^ k)
              (part pid (suc n))
              (part pid n + local_product w (a pid) (b pid) (at_a n) (at_b n))
      next pid = add_lem ring.fits (Cong_refl _) (Cong_refl _)
