-- ===== src/Mult/Correct.antt =====
-- `Rss_Mult` and `Rss_Mult_fixed_b` share the product.
use rss_ring_ppml.Base.{ℕ, ◌+◌, ◌*◌, ◌^◌, ◌<◌, ◌≡◌, ap, sym, arith}
use rss_ring_ppml.Base.Cong.{Cong, Cong_trans, Cong_sym, Cong_refl, Cong_eq, add-Cong}
use rss_ring_ppml.Word.{IsRing, add, sub, mul}
use rss_ring_ppml.Word.Laws.{add_lem, mul_lem, sub_lem}
use rss_ring_ppml.Word.Memory.{
  Array, zeros, for_each, for_each_at, load_all, load_all_lem, read_le, unit_size, le-unit_size,
}
use rss_ring_ppml.Net.{World, map_3pc}
use rss_ring_ppml.Net.Rounds.{sent-Cong, received-Cong}
use rss_ring_ppml.Prg.{Streams, Positions, key_3pc, prg_getrandom_3pc}
use rss_ring_ppml.Prg.Sync.{InStep, draw_both-InStep}
use rss_ring_ppml.Share.{Shares, IsShared}
use rss_ring_ppml.Share.Laws.{reshare, products_total}
use rss_ring_ppml.Mult.{
  Masked, mask_and_send, store_product, local_product, rss_mult, rss_mult_fixed_b,
}

-- The random element `i` that a party reads under a key number.
abbrev pub random_at : Streams → Positions → ℕ → ℕ → ℕ → ℕ → ℕ
random_at streams positions bytes i key pid =
    read_le (λ j. streams (key_3pc pid key) (positions pid key + j)) (i * bytes) bytes

module _ {w k : ℕ} (ring : IsRing w k) where
  own_sum :
      {s t v x : ℕ} (z0 z1 : ℕ)
      → Cong (2 ^ k) s z0
      → Cong (2 ^ k) t v
      → Cong (2 ^ k) (v + z1) x
      → Cong (2 ^ k) (add w s t + z1) (z0 + x)
  own_sum z0 z1 p q r =
      Cong_trans (add-Cong (add_lem ring.fits p q) (Cong_refl z1))
        (Cong_trans (Cong_eq (omega arith)) (add-Cong (Cong_refl z0) r))

  other_sum :
      {s t v x : ℕ} (z0 z1 : ℕ)
      → Cong (2 ^ k) s v
      → Cong (2 ^ k) t z0
      → Cong (2 ^ k) (v + z1) x
      → Cong (2 ^ k) (add w s t + z1) (z0 + x)
  other_sum z0 z1 p q r =
      Cong_trans (add-Cong (add_lem ring.fits p q) (Cong_refl z1))
        (Cong_trans (Cong_eq (omega arith)) (add-Cong (Cong_refl z0) r))

module _ {w k : ℕ} (ring : IsRing w k) (size : ℕ) (streams : Streams) (positions : Positions)
    (f mine theirs : World Array) {i : ℕ} (h : i < size) where
  abbrev z : ℕ → ℕ → ℕ
  z key pid = random_at streams positions (unit_size k) i key pid

  abbrev m : Masked
  m = mask_and_send w k size streams positions f mine theirs

  abbrev mask_1 : World Array
  mask_1 pid =
      load_all (unit_size k) size
        ((prg_getrandom_3pc streams positions 1 (unit_size k) size).buffer pid) (mine pid)

  abbrev v : World Array
  v pid = for_each size (λ n. sub w (f pid n) (mask_1 pid n)) zeros

  mask_1_lem : (pid : ℕ) → Cong (2 ^ k) (mask_1 pid i) (z 1 pid)
  unfolding prg_getrandom_3pc
  mask_1_lem pid = load_all_lem (unit_size k) size _ (mine pid) (le-unit_size k) h

  v_lem : (pid : ℕ) → Cong (2 ^ k) (v pid i + z 1 pid) (f pid i)
  v_lem pid =
      Cong_trans (add-Cong (Cong_eq (for_each_at size _ zeros h)) (Cong_sym (mask_1_lem pid)))
        (sub_lem ring.fits (f pid i) (mask_1 pid i))

  -- A party's own new share.
  pub own_at : (pid : ℕ) → Cong (2 ^ k) (m.own pid i + z 1 pid) (z 0 pid + f pid i)
  unfolding mask_and_send prg_getrandom_3pc
  own_at pid =
      own_sum ring (z 0 pid) (z 1 pid)
        (load_all_lem (unit_size k) size _ (mask_1 pid) (le-unit_size k) h)
        (sent-Cong w k size v theirs ring pid h) (v_lem pid)

  -- The share that it gets from the next party.
  pub other_at :
      (pid : ℕ) → Cong (2 ^ k) (m.other pid i + z 1 (map_3pc pid 1)) (z 1 pid + f (map_3pc pid 1) i)
  unfolding mask_and_send
  other_at pid =
      other_sum ring (z 1 pid) (z 1 (map_3pc pid 1)) (received-Cong w k size v theirs ring pid h)
        (mask_1_lem pid) (v_lem (map_3pc pid 1))

-- Key 1 of a party and key 0 of the next give one value.
module _ (streams : Streams) (positions : Positions) (step : InStep positions) (bytes i : ℕ) where
  pub random_1 : random_at streams positions bytes i 1 1 ≡ random_at streams positions bytes i 0 2
  unfolding key_3pc map_3pc
  random_1 = ap (λ (t : ℕ). read_le (λ j. streams 2 (t + j)) (i * bytes) bytes) step.first

  pub random_2 : random_at streams positions bytes i 1 2 ≡ random_at streams positions bytes i 0 3
  unfolding key_3pc map_3pc
  random_2 = ap (λ (t : ℕ). read_le (λ j. streams 3 (t + j)) (i * bytes) bytes) step.second

  pub random_3 : random_at streams positions bytes i 1 3 ≡ random_at streams positions bytes i 0 1
  unfolding key_3pc map_3pc
  random_3 = ap (λ (t : ℕ). read_le (λ j. streams 1 (t + j)) (i * bytes) bytes) step.third

-- The masked exchange shares the sum of the local values.
module _ {w k : ℕ} (ring : IsRing w k) (size : ℕ) (streams : Streams) (positions : Positions)
    (step : InStep positions) (c : World Shares) (f mine theirs : World Array) where
  pub mask_and_send-IsShared :
      {i x : ℕ}
      → i < size
      → Cong (2 ^ k) (f 1 i + f 2 i + f 3 i) x
      → IsShared k
          (store_product size c (mask_and_send w k size streams positions f mine theirs)).c
          i
          x
  unfolding store_product map_3pc
  mask_and_send-IsShared {i} {x} h sum =
      reshare (store_product size c (mask_and_send w k size streams positions f mine theirs)).c
        (λ pid. random_at streams positions (unit_size k) i 0 pid) (λ pid. f pid i)
        (own 1 (random_1 streams positions step bytes i))
        (own 2 (random_2 streams positions step bytes i))
        (own 3 (random_3 streams positions step bytes i))
        (other 1 (random_1 streams positions step bytes i)
          (random_2 streams positions step bytes i))
        (other 2 (random_2 streams positions step bytes i)
          (random_3 streams positions step bytes i))
        (other 3 (random_3 streams positions step bytes i)
          (random_1 streams positions step bytes i))
        sum
    where
      bytes : ℕ
      bytes = unit_size k

      own :
          (pid : ℕ) {n : ℕ}
          → random_at streams positions bytes i 1 pid ≡ n
          → Cong
              (2 ^ k)
              (for_each size
                  ((mask_and_send w k size streams positions f mine theirs).own pid)
                  (c pid 0)
                  i
                + n)
              (random_at streams positions bytes i 0 pid + f pid i)
      own pid e =
          Cong_trans (add-Cong (Cong_eq (for_each_at size _ (c pid 0) h)) (Cong_eq (sym e)))
            (own_at ring size streams positions f mine theirs h pid)

      other :
          (pid : ℕ) {n n' : ℕ}
          → random_at streams positions bytes i 1 pid ≡ n
          → random_at streams positions bytes i 1 (map_3pc pid 1) ≡ n'
          → Cong
              (2 ^ k)
              (for_each size
                  ((mask_and_send w k size streams positions f mine theirs).other pid)
                  (c pid 1)
                  i
                + n')
              (n + f (map_3pc pid 1) i)
      other pid e e' =
          Cong_trans (add-Cong (Cong_eq (for_each_at size _ (c pid 1) h)) (Cong_eq (sym e'))) (
            Cong_trans (other_at ring size streams positions f mine theirs h pid)
              (add-Cong (Cong_eq e) (Cong_refl _)))

module _ {w k : ℕ} (ring : IsRing w k) (a b : World Shares) where
  local_product_lem :
      (pid i j : ℕ)
      → Cong
          (2 ^ k)
          (local_product w (a pid) (b pid) i j)
          (a pid 0 i * b pid 0 j + a pid 0 i * b pid 1 j + a pid 1 i * b pid 0 j)
  unfolding local_product
  local_product_lem pid i j =
      add_lem ring.fits
        (add_lem ring.fits (times (a pid 0 i) (b pid 0 j)) (times (a pid 0 i) (b pid 1 j)))
        (times (a pid 1 i) (b pid 0 j))
    where
      times : (x y : ℕ) → Cong (2 ^ k) (mul w x y) (x * y)
      times x y = mul_lem ring.fits (Cong_refl x) (Cong_refl y)

  pub local_products_total :
      {i j x y : ℕ}
      → IsShared k a i x
      → IsShared k b j y
      → Cong
          (2 ^ k)
          (local_product w (a 1) (b 1) i j
            + local_product w (a 2) (b 2) i j
            + local_product w (a 3) (b 3) i j)
          (x * y)
  local_products_total {i} {j} s t =
      Cong_trans
        (add-Cong (add-Cong (local_product_lem 1 i j) (local_product_lem 2 i j))
          (local_product_lem 3 i j))
        (products_total a b s t)

module _ {w k : ℕ} (ring : IsRing w k) (size : ℕ) (streams : Streams) (positions : Positions)
    (step : InStep positions) (c a b : World Shares) where
  -- At a supported ring size, for values shared at an index `i` below `size` by `a` and by `b`,
  -- and streams in step (parties that share a key have taken equally many bytes from it),
  -- `Rss_Mult` leaves in `c` shares of their product, and the streams in step again.
  pub rss_mult_lem :
      {i x y : ℕ}
      → i < size
      → IsShared k a i x
      → IsShared k b i y
      → IsShared k (rss_mult w k size streams positions c a b).c i (x * y)
        × InStep (rss_mult w k size streams positions c a b).positions
  unfolding rss_mult store_product mask_and_send
  rss_mult_lem h s t = (
    mask_and_send-IsShared ring size streams positions step c
        (λ pid n. local_product w (a pid) (b pid) n n) (λ pid. c pid 0) (λ pid. c pid 1) h
        (local_products_total ring a b s t),
    draw_both-InStep streams positions (unit_size k) size step,
  )

  -- At a supported ring size, for a value shared at an index `i` below `size` by `a`, one shared
  -- at index `b_index` by `b`, and streams in step, `Rss_Mult_fixed_b` leaves at index `i` of `c`
  -- shares of their product, and the streams in step again.
  pub rss_mult_fixed_b_lem :
      {i x y : ℕ} (b_index : ℕ)
      → i < size
      → IsShared k a i x
      → IsShared k b b_index y
      → IsShared k (rss_mult_fixed_b w k size streams positions c a b b_index).c i (x * y)
        × InStep (rss_mult_fixed_b w k size streams positions c a b b_index).positions
  unfolding rss_mult_fixed_b store_product mask_and_send
  rss_mult_fixed_b_lem b_index h s t = (
    mask_and_send-IsShared ring size streams positions step c
        (λ pid n. local_product w (a pid) (b pid) n b_index) (λ pid. zeros) (λ pid. zeros) h
        (local_products_total ring a b s t),
    draw_both-InStep streams positions (unit_size k) size step,
  )
