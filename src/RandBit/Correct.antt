-- ===== src/RandBit/Correct.antt =====
-- `Rss_RandBit` shares a bit.
use rss_ring_ppml.Base.{ℕ, ◌+◌, ◌*◌, ◌/◌, ◌%◌, ◌^◌, ◌<◌, ◌≡◌, ◌⊎◌, inl, inr, refl, ◌∙◌, ap, arith}
use rss_ring_ppml.Base.Cong.{
  Cong, Cong_trans, Cong_sym, Cong_refl, Cong_eq, Cong_of_le, add-Cong, mul-Cong, mod-Cong,
}
use rss_ring_ppml.Word.{IsRing}
use rss_ring_ppml.Word.Laws.{add_lem, mul_lem, shl_lem}
use rss_ring_ppml.Word.Memory.{Array, for_each_at, load_all, load_all_lem, unit_size}
use rss_ring_ppml.Net.{World}
use rss_ring_ppml.Prg.{Streams, Positions, prg_getrandom_3pc}
use rss_ring_ppml.Prg.Sync.{InStep, draw_both_down-InStep}
use rss_ring_ppml.Share.{Shares, IsShared, unit_share}
use rss_ring_ppml.Share.Linear.{IsShared_value}
use rss_ring_ppml.Mult.{with_shares, rss_mult_pub, PublicProduct}
use rss_ring_ppml.Mult.Correct.{random_at, random_1, random_2, random_3}
use rss_ring_ppml.Mult.Public.{rss_mult_pub_lem}
use rss_ring_ppml.RandBit.{Memory, odd_shares, half_shares, rss_rand_bit, rss_sqrt_inv}
use rss_ring_ppml.RandBit.Halves.{half_Cong, odd_square, odd_product, root_of_unit, twice_half}
use rss_ring_ppml.RandBit.Sqrt.{IsInverseRoot, rss_sqrt_inv_lem}

module _ {w k : ℕ} (pos : 0 < k) (ring : IsRing w (k + 2)) (size : ℕ) (streams : Streams)
    (positions : Positions) (step : InStep positions) (memory : Memory) (b : World Shares) {i : ℕ}
    (h : i < size) where
  abbrev bytes : ℕ
  bytes = (k + 9) / 8

  abbrev z : ℕ → ℕ → ℕ
  z key pid = random_at streams positions bytes i key pid

  abbrev u_0 : World Array
  u_0 pid =
      load_all bytes size ((prg_getrandom_3pc streams positions 0 bytes size).buffer pid)
        (memory.u pid 0)

  abbrev middle : Positions
  middle = (prg_getrandom_3pc streams positions 0 bytes size).positions

  abbrev u_1 : World Array
  u_1 pid =
      load_all bytes size ((prg_getrandom_3pc streams middle 1 bytes size).buffer pid)
        (memory.u pid 1)

  abbrev later : Positions
  later = (prg_getrandom_3pc streams middle 1 bytes size).positions

  abbrev n : ℕ
  n = k + 2

  u_0_lem : (pid : ℕ) → Cong (2 ^ n) (u_0 pid i) (z 0 pid)
  unfolding prg_getrandom_3pc
  u_0_lem pid = load_all_lem bytes size _ (memory.u pid 0) (omega arith) h

  u_1_lem : (pid : ℕ) → Cong (2 ^ n) (u_1 pid i) (z 1 pid)
  unfolding prg_getrandom_3pc
  u_1_lem pid = load_all_lem bytes size _ (memory.u pid 1) (omega arith) h

  abbrev a : World Shares
  a = odd_shares w size (with_shares u_0 u_1 memory.u)

  odd_at :
      (pid s : ℕ) (r : ℕ)
      → Cong (2 ^ n) (with_shares u_0 u_1 memory.u pid s i) r
      → Cong (2 ^ n) (a pid s i) (r * 2 ^ 1 + unit_share pid s)
  unfolding odd_shares
  odd_at pid s r e =
      Cong_trans (Cong_eq (for_each_at size _ _ h))
        (add_lem ring.fits (shl_lem ring.fits 1 e) (Cong_refl (unit_share pid s)))

  a_0 : (pid : ℕ) → Cong (2 ^ n) (a pid 0 i) (z 0 pid * 2 ^ 1 + unit_share pid 0)
  unfolding with_shares
  a_0 pid = odd_at pid 0 (z 0 pid) (u_0_lem pid)

  a_1 : (pid next : ℕ) → z 1 pid ≡ next → Cong (2 ^ n) (a pid 1 i) (next * 2 ^ 1 + unit_share pid 1)
  unfolding with_shares
  a_1 pid next e = odd_at pid 1 next (Cong_trans (u_1_lem pid) (Cong_eq e))

  abbrev x : ℕ
  x = 2 * (z 0 1 + z 0 2 + z 0 3) + 1

  a_lem : IsShared n a i x
  unfolding unit_share
  a_lem = record {
    third_share =
        Cong_trans (a_1 1 (z 0 2) (random_1 streams positions step bytes i)) (Cong_sym (a_0 2));
    first_share =
        Cong_trans (a_1 2 (z 0 3) (random_2 streams positions step bytes i)) (Cong_sym (a_0 3));
    second_share =
        Cong_trans (a_1 3 (z 0 1) (random_3 streams positions step bytes i)) (Cong_sym (a_0 1));
    total = Cong_trans (add-Cong (add-Cong (a_0 1) (a_0 2)) (a_0 3)) (Cong_eq (omega arith));
  }

  abbrev e : PublicProduct
  e = rss_mult_pub w n size streams later memory.v_a memory.e a a

  e_lem :
      (e.c 1 i ≡ x * x % 2 ^ n)
      × (e.c 2 i ≡ x * x % 2 ^ n)
      × (e.c 3 i ≡ x * x % 2 ^ n)
      × InStep e.positions
  e_lem =
      rss_mult_pub_lem ring size streams later
        (draw_both_down-InStep streams positions bytes size step) memory.v_a memory.e a a h a_lem
        a_lem

  abbrev c : ℕ
  c = rss_sqrt_inv w n (x * x % 2 ^ n)

  c_lem : IsInverseRoot n (x * x % 2 ^ n) c
  c_lem = rss_sqrt_inv_lem n (x * x % 2 ^ n) (omega (arith, pos)) ring.fits (
      Cong_trans (Cong_of_le {k = 3} {w = n} (omega (arith, pos)) (mod-Cong (2 ^ n) (x * x)))
        (odd_square (z 0 1 + z 0 2 + z 0 3)))

  abbrev out : World Shares
  out = (rss_rand_bit w k size streams positions memory b).b

  out_at :
      (pid s r : ℕ)
      → (e.c pid i ≡ x * x % 2 ^ n)
      → Cong (2 ^ n) (a pid s i) (r * 2 ^ 1 + unit_share pid s)
      → Cong (2 ^ n) (2 * out pid s i) (c * a pid s i + unit_share pid s)
  unfolding rss_rand_bit half_shares
  out_at pid s r opened of_a =
      Cong_trans (Cong_eq (ap (λ (t : ℕ). 2 * t) (for_each_at size _ (b pid s) h))) (
        twice_half c (a pid s i) r (unit_share pid s) _ (omega arith) c_lem.odd of_a (
          add_lem ring.fits
            (mul_lem ring.fits
              (Cong_eq (for_each_at size _ _ h ∙ ap (λ (t : ℕ). rss_sqrt_inv w n t) opened))
              (Cong_refl (a pid s i)))
            (Cong_refl (unit_share pid s))))

  out_0 :
      (pid : ℕ)
      → (e.c pid i ≡ x * x % 2 ^ n)
      → Cong (2 ^ n) (2 * out pid 0 i) (c * a pid 0 i + unit_share pid 0)
  out_0 pid opened = out_at pid 0 (z 0 pid) opened (a_0 pid)

  out_1 :
      (pid : ℕ)
      → (e.c pid i ≡ x * x % 2 ^ n)
      → Cong (2 ^ n) (2 * out pid 1 i) (c * a pid 1 i + unit_share pid 1)
  out_1 pid opened = out_at pid 1 (z 1 pid) opened (a_1 pid (z 1 pid) refl)

  same_half :
      (p q a1 a2 t : ℕ)
      → Cong (2 ^ n) (2 * p) (c * a1 + t)
      → Cong (2 ^ n) (2 * q) (c * a2 + t)
      → Cong (2 ^ n) a1 a2
      → Cong (2 ^ k) p q
  same_half p q a1 a2 t of_p of_q eq = half_Cong k p q (
      Cong_trans of_p
        (Cong_trans (add-Cong (mul-Cong (Cong_refl c) eq) (Cong_refl t)) (Cong_sym of_q)))

  out_lem : IsShared k out i (c * x / 2 + 1)
  unfolding unit_share
  out_lem = record {
    third_share =
        same_half (out 1 1 i) (out 2 0 i) (a 1 1 i) (a 2 0 i) 0 (out_1 1 e_lem.0) (out_0 2 e_lem.1)
          a_lem.third_share;
    first_share =
        same_half (out 2 1 i) (out 3 0 i) (a 2 1 i) (a 3 0 i) 0 (out_1 2 e_lem.1) (out_0 3 e_lem.2)
          a_lem.first_share;
    second_share =
        same_half (out 3 1 i) (out 1 0 i) (a 3 1 i) (a 1 0 i) 1 (out_1 3 e_lem.2) (out_0 1 e_lem.0)
          a_lem.second_share;
    total = half_Cong k (out 1 0 i + out 2 0 i + out 3 0 i) (c * x / 2 + 1) (
        Cong_trans (Cong_eq (omega arith)) (
          Cong_trans (add-Cong (add-Cong (out_0 1 e_lem.0) (out_0 2 e_lem.1)) (out_0 3 e_lem.2)) (
            Cong_trans (Cong_eq (omega arith)) (
              Cong_trans (add-Cong (mul-Cong (Cong_refl c) a_lem.total) (Cong_refl 1))
                (Cong_eq (omega (arith, odd_product c (z 0 1 + z 0 2 + z 0 3) c_lem.odd)))))));
  }

  out-InStep : InStep (rss_rand_bit w k size streams positions memory b).positions
  unfolding rss_rand_bit
  out-InStep = e_lem.3

  -- At a ring size `ring_size` above 0 with `ring_size + 2` at most the width of a word, and
  -- streams in step, `Rss_RandBit` leaves at every index `i` below `size` of `b` shares of 0 or of
  -- 1, and the streams in step again, whatever the memory held that it does not clear.
  pub rss_rand_bit_lem :
      ((IsShared k (rss_rand_bit w k size streams positions memory b).b i 0)
        ⊎ (IsShared k (rss_rand_bit w k size streams positions memory b).b i 1))
      × InStep (rss_rand_bit w k size streams positions memory b).positions
  rss_rand_bit_lem = (
    elim (root_of_unit k c (x * x % 2 ^ n) (z 0 1 + z 0 2 + z 0 3) c_lem.odd c_lem.unit
        (mod-Cong (2 ^ n) (x * x))) [
          | inl zero_root ↦ inr (IsShared_value (add-Cong zero_root (Cong_refl 1)) out_lem)
          | inr minus_one ↦ inl (IsShared_value minus_one out_lem)
        ],
    out-InStep,
  )

-- The streams stay in step for every size.
pub rss_rand_bit-InStep :
    (w k size : ℕ) (streams : Streams) (positions : Positions) (memory : Memory) (b : World Shares)
    → InStep positions
    → InStep (rss_rand_bit w k size streams positions memory b).positions
unfolding rss_rand_bit rss_mult_pub
rss_rand_bit-InStep w k size streams positions memory b step =
    draw_both_down-InStep streams _ (unit_size (k + 2)) size
      (draw_both_down-InStep streams positions ((k + 9) / 8) size step)
