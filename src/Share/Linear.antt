-- ===== src/Share/Linear.antt =====
-- What the parties compute on their own shares: sums and differences.
use rss_ring_ppml.Base.{ℕ, ◌+◌, ◌*◌, ◌^◌, ◌<◌, ◌≡◌, arith}
use rss_ring_ppml.Base.Cong.{
  Cong, Cong_trans, Cong_sym, Cong_refl, Cong_eq, Cong-cancel, add-Cong, mul-Cong,
}
use rss_ring_ppml.Word.{IsRing}
use rss_ring_ppml.Word.Laws.{add_lem, sub_lem}
use rss_ring_ppml.Word.Memory.{for_each_at}
use rss_ring_ppml.Net.{World}
use rss_ring_ppml.Share.{Shares, IsShared, add_shares, sub_shares, unit_share}

-- The same value of a share leads to the same value of the result.
pub IsShared_value :
    {k i x y : ℕ} {a : World Shares} → Cong (2 ^ k) x y → IsShared k a i x → IsShared k a i y
IsShared_value e s = record {
  third_share = s.third_share;
  first_share = s.first_share;
  second_share = s.second_share;
  total = Cong_trans s.total e;
}

-- Shares copied to another index of other arrays.
pub IsShared_move :
    {k i j x : ℕ} (a b : World Shares)
    → ((pid s : ℕ) → b pid s j ≡ a pid s i)
    → IsShared k a i x
    → IsShared k b j x
IsShared_move a b e s = record {
  third_share = rw (e 1 1, e 2 0) s.third_share;
  first_share = rw (e 2 1, e 3 0) s.first_share;
  second_share = rw (e 3 1, e 1 0) s.second_share;
  total = rw (e 1 0, e 2 0, e 3 0) s.total;
}

module _ {w k : ℕ} (ring : IsRing w k) (size : ℕ) (a b res : World Shares) {i : ℕ}
    (h : i < size) where
  add_at : (pid s : ℕ) → Cong (2 ^ k) (add_shares w size a b res pid s i) (a pid s i + b pid s i)
  unfolding add_shares
  add_at pid s =
      Cong_trans (Cong_eq (for_each_at size _ (res pid s) h))
        (add_lem ring.fits (Cong_refl (a pid s i)) (Cong_refl (b pid s i)))

  pub add_shares_lem :
      {x y : ℕ}
      → IsShared k a i x
      → IsShared k b i y
      → IsShared k (add_shares w size a b res) i (x + y)
  add_shares_lem s t = record {
    third_share = both (add_at 1 1) (add_at 2 0) (add-Cong s.third_share t.third_share);
    first_share = both (add_at 2 1) (add_at 3 0) (add-Cong s.first_share t.first_share);
    second_share = both (add_at 3 1) (add_at 1 0) (add-Cong s.second_share t.second_share);
    total =
        Cong_trans (add-Cong (add-Cong (add_at 1 0) (add_at 2 0)) (add_at 3 0))
          (Cong_trans (Cong_eq (omega arith)) (add-Cong s.total t.total));
  }
    where
      both : {m p q r t : ℕ} → Cong m p r → Cong m q t → Cong m r t → Cong m p q
      both u v e = Cong_trans u (Cong_trans e (Cong_sym v))

  sub_at : (pid s : ℕ) → Cong (2 ^ k) (sub_shares w size a b res pid s i + b pid s i) (a pid s i)
  unfolding sub_shares
  sub_at pid s =
      Cong_trans (add-Cong (Cong_eq (for_each_at size _ (res pid s) h)) (Cong_refl (b pid s i)))
        (sub_lem ring.fits (a pid s i) (b pid s i))

  -- `d` is a difference of the shared values.
  pub sub_shares_lem :
      {x y : ℕ} (d : ℕ)
      → Cong (2 ^ k) (d + y) x
      → IsShared k a i x
      → IsShared k b i y
      → IsShared k (sub_shares w size a b res) i d
  sub_shares_lem d e s t = record {
    third_share = both (sub_at 1 1) (sub_at 2 0) s.third_share t.third_share;
    first_share = both (sub_at 2 1) (sub_at 3 0) s.first_share t.first_share;
    second_share = both (sub_at 3 1) (sub_at 1 0) s.second_share t.second_share;
    total =
        Cong-cancel
          (Cong_trans
            (Cong_trans (Cong_eq (omega arith))
              (add-Cong (add-Cong (sub_at 1 0) (sub_at 2 0)) (sub_at 3 0)))
            (Cong_trans s.total (Cong_sym e)))
          t.total;
  }
    where
      both :
          {m p q r t u v : ℕ}
          → Cong m (p + u) r
          → Cong m (q + v) t
          → Cong m r t
          → Cong m u v
          → Cong m p q
      both f g e c = Cong-cancel (Cong_trans f (Cong_trans e (Cong_sym g))) c

-- Shares `g` from shares `a` and `b` by an equation that the parties 1, 2 and 3 keep, for a
-- condition `P` that they meet.
pub IsShared_difference :
    {k i x y d : ℕ} (P : ℕ → Type 0) (g a b : World Shares)
    → P 1
    → P 2
    → P 3
    → ((pid s : ℕ) → P pid → Cong (2 ^ k) (g pid s i + b pid s i) (a pid s i))
    → Cong (2 ^ k) (d + y) x
    → IsShared k a i x
    → IsShared k b i y
    → IsShared k g i d
IsShared_difference P g a b p1 p2 p3 f e s t = record {
  third_share = both (f 1 1 p1) (f 2 0 p2) s.third_share t.third_share;
  first_share = both (f 2 1 p2) (f 3 0 p3) s.first_share t.first_share;
  second_share = both (f 3 1 p3) (f 1 0 p1) s.second_share t.second_share;
  total =
      Cong-cancel
        (Cong_trans
          (Cong_trans (Cong_eq (omega arith))
            (add-Cong (add-Cong (f 1 0 p1) (f 2 0 p2)) (f 3 0 p3)))
          (Cong_trans s.total (Cong_sym e)))
        t.total;
}
  where
    both :
        {m p q r t u v : ℕ}
        → Cong m (p + u) r
        → Cong m (q + v) t
        → Cong m r t
        → Cong m u v
        → Cong m p q
    both f g e c = Cong-cancel (Cong_trans f (Cong_trans e (Cong_sym g))) c

pub IsShared_sum :
    {k i x y : ℕ} (a b : World Shares)
    → IsShared k a i x
    → IsShared k b i y
    → IsShared k (λ pid s n. a pid s n + b pid s n) i (x + y)
IsShared_sum a b s t = record {
  third_share = add-Cong s.third_share t.third_share;
  first_share = add-Cong s.first_share t.first_share;
  second_share = add-Cong s.second_share t.second_share;
  total = Cong_trans (Cong_eq (omega arith)) (add-Cong s.total t.total);
}

pub IsShared_times :
    {k i x : ℕ} (q : ℕ) (a : World Shares)
    → IsShared k a i x
    → IsShared k (λ pid s n. q * a pid s n) i (q * x)
IsShared_times q a s = record {
  third_share = mul-Cong (Cong_refl q) s.third_share;
  first_share = mul-Cong (Cong_refl q) s.first_share;
  second_share = mul-Cong (Cong_refl q) s.second_share;
  total = Cong_trans (Cong_eq (omega arith)) (mul-Cong (Cong_refl q) s.total);
}

pub unit_share_lem : (k i : ℕ) → IsShared k (λ pid s n. unit_share pid s) i 1
unfolding unit_share
unit_share_lem k i = record {
  third_share = Cong_refl 0;
  first_share = Cong_refl 0;
  second_share = Cong_refl 1;
  total = Cong_refl 1;
}

pub zeros-IsShared : (k i : ℕ) → IsShared k (λ pid s n. 0) i 0
zeros-IsShared k i = record {
  third_share = Cong_refl 0;
  first_share = Cong_refl 0;
  second_share = Cong_refl 0;
  total = Cong_refl 0;
}
