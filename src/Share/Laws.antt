-- ===== src/Share/Laws.antt =====
-- What follows from a sharing for the parties: their two shares and the one they lack add up.
use rss_ring_ppml.Base.{ℕ, ◌+◌, ◌*◌, ◌^◌, arith}
use rss_ring_ppml.Base.Cong.{
  Cong, Cong_trans, Cong_sym, Cong_refl, Cong_eq, Cong-cancel, add-Cong, mul-Cong,
}
use rss_ring_ppml.Net.{World}
use rss_ring_ppml.Share.{Shares, IsShared}

module _ {k i x : ℕ} {a : World Shares} (s : IsShared k a i x) where
  pub party_1 : Cong (2 ^ k) (a 1 0 i + a 1 1 i + a 2 1 i) x
  party_1 =
      Cong_trans (add-Cong (add-Cong (Cong_refl (a 1 0 i)) s.third_share) s.first_share) s.total

  pub party_2 : Cong (2 ^ k) (a 2 0 i + a 2 1 i + a 3 1 i) x
  party_2 =
      Cong_trans (add-Cong (add-Cong (Cong_refl (a 2 0 i)) s.first_share) s.second_share)
        (Cong_trans (Cong_eq (omega arith)) s.total)

  pub party_3 : Cong (2 ^ k) (a 3 0 i + a 3 1 i + a 1 1 i) x
  party_3 =
      Cong_trans (add-Cong (add-Cong (Cong_refl (a 3 0 i)) s.second_share) s.third_share)
        (Cong_trans (Cong_eq (omega arith)) s.total)

-- Shares may be replaced by congruent ones.
pub IsShared_congr :
    {k i x : ℕ} (a b : World Shares)
    → ((pid s : ℕ) → Cong (2 ^ k) (b pid s i) (a pid s i))
    → IsShared k a i x
    → IsShared k b i x
IsShared_congr {k} {i} {x} a b h s = record {
  third_share = Cong_trans (h 1 1) (Cong_trans s.third_share (Cong_sym (h 2 0)));
  first_share = Cong_trans (h 2 1) (Cong_trans s.first_share (Cong_sym (h 3 0)));
  second_share = Cong_trans (h 3 1) (Cong_trans s.second_share (Cong_sym (h 1 0)));
  total = Cong_trans (add-Cong (add-Cong (h 1 0) (h 2 0)) (h 3 0)) s.total;
}

-- New shares from local values `p`: party `pid` adds its own random `z pid`, takes off the one
-- of the next party, and learns what the next party computed. The random values cancel.
pub reshare :
    {k i x : ℕ} (c : World Shares) (z p : ℕ → ℕ)
    → Cong (2 ^ k) (c 1 0 i + z 2) (z 1 + p 1)
    → Cong (2 ^ k) (c 2 0 i + z 3) (z 2 + p 2)
    → Cong (2 ^ k) (c 3 0 i + z 1) (z 3 + p 3)
    → Cong (2 ^ k) (c 1 1 i + z 3) (z 2 + p 2)
    → Cong (2 ^ k) (c 2 1 i + z 1) (z 3 + p 3)
    → Cong (2 ^ k) (c 3 1 i + z 2) (z 1 + p 1)
    → Cong (2 ^ k) (p 1 + p 2 + p 3) x
    → IsShared k c i x
reshare {k} {i} {x} c z p own_1 own_2 own_3 got_1 got_2 got_3 sum = record {
  third_share = Cong-cancel (Cong_trans got_1 (Cong_sym own_2)) (Cong_refl (z 3));
  first_share = Cong-cancel (Cong_trans got_2 (Cong_sym own_3)) (Cong_refl (z 1));
  second_share = Cong-cancel (Cong_trans got_3 (Cong_sym own_1)) (Cong_refl (z 2));
  total =
      Cong_trans
        (Cong-cancel
          (Cong_trans (Cong_eq (omega arith))
            (Cong_trans (add-Cong (add-Cong own_1 own_2) own_3) (Cong_eq (omega arith))))
          (Cong_refl (z 1 + z 2 + z 3)))
        sum;
}

-- The local products of the parties add up to the product.
pub products_total :
    {k i j x y : ℕ} (a b : World Shares)
    → IsShared k a i x
    → IsShared k b j y
    → Cong
        (2 ^ k)
        (a 1 0 i * b 1 0 j
          + a 1 0 i * b 1 1 j
          + a 1 1 i * b 1 0 j
          + (a 2 0 i * b 2 0 j + a 2 0 i * b 2 1 j + a 2 1 i * b 2 0 j)
          + (a 3 0 i * b 3 0 j + a 3 0 i * b 3 1 j + a 3 1 i * b 3 0 j))
        (x * y)
products_total {i} {j} a b s t =
    Cong_trans
      (add-Cong
        (add-Cong
          (add-Cong (mixed (a 1 0 i) (b 1 0 j) t.third_share)
            (mul-Cong s.third_share (Cong_refl (b 1 0 j))))
          (add-Cong (mixed (a 2 0 i) (b 2 0 j) t.first_share)
            (mul-Cong s.first_share (Cong_refl (b 2 0 j)))))
        (add-Cong (mixed (a 3 0 i) (b 3 0 j) t.second_share)
          (mul-Cong s.second_share (Cong_refl (b 3 0 j)))))
      (Cong_trans (Cong_eq (omega arith)) (mul-Cong s.total t.total))
  where
    mixed : {m : ℕ} (p q : ℕ) {u v : ℕ} → Cong m u v → Cong m (p * q + p * u) (p * q + p * v)
    mixed p q e = add-Cong (Cong_refl (p * q)) (mul-Cong (Cong_refl p) e)
