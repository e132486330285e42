-- ===== src/Msb/Correct.antt =====
-- `new_Rss_MSB` shares the most significant bit.
use rss_ring_ppml.Base.{
  ℕ, ◌+◌, ◌-◌, ◌*◌, ◌/◌, ◌%◌, ◌^◌, ◌<◌, ◌≡◌, ◌∙◌, refl, ap, arith, ◌⊎◌, inl, inr, bit_xor,
}
use rss_ring_ppml.Base.Bits.{bit, bit-lt}
use rss_ring_ppml.Base.Cong.{Cong_trans, Cong_refl, Cong_eq, add-Cong}
use rss_ring_ppml.Word.{IsRing, get_bit}
use rss_ring_ppml.Word.Memory.{Array, zeros, for_each, for_each_at}
use rss_ring_ppml.Word.Digits.{get_bit-eq}
use rss_ring_ppml.Net.{World}
use rss_ring_ppml.Prg.{Streams, Positions}
use rss_ring_ppml.Prg.Sync.{InStep}
use rss_ring_ppml.Share.{Shares, IsShared, IsXorShared, add_shares, unit_share}
use rss_ring_ppml.Share.Linear.{
  IsShared_value, IsShared_sum, IsShared_times, IsShared_difference, unit_share_lem, add_shares_lem,
}
use rss_ring_ppml.Share.Xor.{word-IsShared}
use rss_ring_ppml.Open.{rss_open}
use rss_ring_ppml.Open.Correct.{rss_open_lem}
use rss_ring_ppml.Mult.{Product}
use rss_ring_ppml.RandBit.{RandBits, rss_rand_bit}
use rss_ring_ppml.RandBit.Correct.{rss_rand_bit_lem}
use rss_ring_ppml.B2a.Flip.{unmask, flip-IsShared}
use rss_ring_ppml.BitLt.{rss_bit_lt}
use rss_ring_ppml.BitLt.Correct.{is_less, rss_bit_lt_lem}
use rss_ring_ppml.Msb.{
  EdaBits, EdaBitProtocol, IsEdaBit, Memory, masked_top, top_share, cut, r_primes, top_bit,
  new_rss_msb, new_rss_msb_time,
}
use rss_ring_ppml.Msb.Number.{masked_top_pos, opened_top_pos, top_bit-eq}
use rss_ring_ppml.Msb.Party.{
  IsShared_top, cut-at, masked_lem, top_share_lem, r_primes-IsShared, cut-IsXorShared,
}

module _ {w k : ℕ} (ring : IsRing w k) (even : w % 2 ≡ 0) (size : ℕ) (streams : Streams)
    (memory : Memory) (positions : Positions) (step : InStep positions)
    (b r r_prime r_2 res a : World Shares) {i x v coin : ℕ} (h : i < size) (small : coin < 2)
    (of_a : IsShared k a i x) (of_b : IsShared k b i coin) (of_r : IsShared k r i v)
    (of_r_prime : IsShared k r_prime i (v % 2 ^ (k - 1)))
    (of_r_2 : IsXorShared k r_2 i (v % 2 ^ (k - 1))) where
  abbrev opened : World Array
  opened = (rss_open w k size memory.c (add_shares w size a r (λ pid s. zeros))).res

  abbrev c : World Array
  c pid = cut w k size (opened pid)

  abbrev low : ℕ
  low = (x + v) % 2 ^ k % 2 ^ (k - 1)

  abbrev mask : ℕ
  mask = v % 2 ^ (k - 1)

  opened_lem :
      (opened 1 i ≡ (x + v) % 2 ^ k)
      × (opened 2 i ≡ (x + v) % 2 ^ k)
      × (opened 3 i ≡ (x + v) % 2 ^ k)
  opened_lem =
      let lem =
        rss_open_lem ring size memory.c (add_shares w size a r (λ pid s. zeros)) h
          (add_shares_lem ring size a r (λ pid s. zeros) h of_a of_r) in
      (lem.0, lem.1, lem.2)

  c_at : (pid : ℕ) → (opened pid i ≡ (x + v) % 2 ^ k) → c pid i ≡ low
  c_at pid e = cut-at ring size (opened pid) h ∙ ap (λ (t : ℕ). t % 2 ^ (k - 1)) e

  abbrev u : Product
  u = rss_bit_lt w k size streams positions memory.bytes memory.u_2 c r_2

  u_lem : IsXorShared 1 u.c i (is_less k low mask) × InStep u.positions
  u_lem =
      rss_bit_lt_lem ring size streams positions memory.bytes memory.u_2 c r_2 even step h
        (c_at 1 opened_lem.0) (c_at 2 opened_lem.1) (c_at 3 opened_lem.2) of_r_2

  abbrev sum : World Shares
  sum pid s =
      for_each size
        (λ n.
          masked_top w k (unit_share pid s) (c pid n) (a pid s n) (r_prime pid s n) (u.c pid s n)
            (b pid s n))
        zeros

  sum_lem : IsShared k sum i (2 ^ (k - 1) * (bit x (k - 1) + coin))
  sum_lem =
      IsShared_difference (λ pid. c pid i ≡ low) sum
        (λ pid s n. a pid s n + r_prime pid s n + 2 ^ (k - 1) * b pid s n)
        (λ pid s n. 2 ^ (k - 1) * u.c pid s n + low * unit_share pid s) (c_at 1 opened_lem.0)
        (c_at 2 opened_lem.1) (c_at 3 opened_lem.2)
        (λ pid s e.
          Cong_trans
            (add-Cong
              (Cong_eq (
                for_each_at size _ zeros h
                ∙ ap
                    (λ (t : ℕ).
                      masked_top w k (unit_share pid s) t (a pid s i) (r_prime pid s i)
                        (u.c pid s i) (b pid s i))
                    e))
              (Cong_refl _))
            (masked_lem ring (unit_share pid s) low (a pid s i) (r_prime pid s i) (u.c pid s i)
              (b pid s i)))
        (masked_top_pos k x v coin ring.pos)
        (IsShared_sum (λ pid s n. a pid s n + r_prime pid s n) (λ pid s n. 2 ^ (k - 1) * b pid s n)
          (IsShared_sum a r_prime of_a of_r_prime) (IsShared_times (2 ^ (k - 1)) b of_b))
        (IsShared_sum (λ pid s n. 2 ^ (k - 1) * u.c pid s n) (λ pid s n. low * unit_share pid s)
          (IsShared_top ring u.c (word-IsShared u.c u_lem.0))
          (IsShared_value (Cong_eq (omega arith))
            (IsShared_times low (λ pid s n. unit_share pid s) (unit_share_lem k i))))

  abbrev e : World Array
  e = (rss_open w k size memory.e sum).res

  e_bit :
      (pid : ℕ)
      → (e pid i ≡ 2 ^ (k - 1) * (bit x (k - 1) + coin) % 2 ^ k)
      → get_bit (e pid i) (k - 1) ≡ bit_xor (bit x (k - 1)) coin
  e_bit pid eq =
      get_bit-eq (e pid i) (k - 1)
      ∙ ap (λ (t : ℕ). bit t (k - 1)) eq
      ∙ opened_top_pos k x coin ring.pos small

  top_bit_lem :
      IsShared k
        (top_bit w k size streams memory positions b r r_prime r_2 res a).c
        i
        (bit x (k - 1))
      × InStep (top_bit w k size streams memory positions b r r_prime r_2 res a).positions
  unfolding top_bit
  top_bit_lem =
      let lem = rss_open_lem ring size memory.e sum h sum_lem in
      (
        flip-IsShared {v = bit x (k - 1)} {r = coin} {c = bit_xor (bit x (k - 1)) coin}
            (λ pid n. get_bit (e pid n) (k - 1)) _ b (e_bit 1 lem.0) (e_bit 2 lem.1) (e_bit 3 lem.2)
            (λ pid s eq.
              Cong_trans
                (add-Cong
                  (Cong_eq (
                    for_each_at size _ (res pid s) h
                    ∙ ap (λ (t : ℕ). top_share w (unit_share pid s) t (b pid s i)) eq))
                  (Cong_refl _))
                (top_share_lem ring (unit_share pid s) (bit_xor (bit x (k - 1)) coin) (b pid s i)))
            (unmask (bit x (k - 1)) coin (bit_xor (bit x (k - 1)) coin) (bit-lt x (k - 1)) small
              refl)
            of_b,
        u_lem.1,
      )

-- At a ring size `ring_size` above 0 with `ring_size + 2` at most the width of a word, which is
-- even, streams in step, and `Rss_edaBit` as promised, `new_Rss_MSB` leaves in `res[i]`, at an
-- index `i` below `size` at which `a` shares `x`, additive shares of bit `ring_size - 1` of `x`,
-- and the streams in step again; and `new_Rss_MSB_time` leaves such shares, too.
pub new_rss_msb_lem :
    {w k : ℕ} (pos : 0 < k) (wide : IsRing w (k + 2)) (even : w % 2 ≡ 0) (size : ℕ)
    (streams : Streams) (memory : Memory) (eda_bit : EdaBitProtocol) (is_eda : IsEdaBit k eda_bit)
    (positions : Positions) (res a : World Shares) {i x : ℕ}
    → InStep positions
    → i < size
    → IsShared k a i x
    → IsShared k
        (new_rss_msb w k size streams memory eda_bit positions res a).c
        i
        (x % 2 ^ k / 2 ^ (k - 1))
      × InStep (new_rss_msb w k size streams memory eda_bit positions res a).positions
      × IsShared k
          (new_rss_msb_time w k size streams memory eda_bit positions res a).c
          i
          (x % 2 ^ k / 2 ^ (k - 1))
unfolding new_rss_msb new_rss_msb_time
new_rss_msb_lem {w} {k} pos wide even size streams memory eda_bit is_eda positions res a {i} {x}
      step h of_a =
    rw (top_bit-eq k x pos) (found.0, found.1, found.0)
  where
    rand : RandBits
    rand = rss_rand_bit w k size streams positions memory.rand memory.b

    lem : ((IsShared k rand.b i 0) ⊎ (IsShared k rand.b i 1)) × InStep rand.positions
    lem = rss_rand_bit_lem pos wide size streams positions step memory.rand memory.b h

    eda : EdaBits
    eda = eda_bit size rand.positions

    ring : IsRing w k
    ring = record { pos = pos; fits = omega (arith, wide.fits); narrow = wide.narrow }

    with_bit :
        (coin : ℕ)
        → coin < 2
        → IsShared k rand.b i coin
        → IsShared k
            (top_bit w k size streams memory eda.positions rand.b eda.r
              (r_primes w k size eda)
              (λ pid s. cut w k size (eda.b_2 pid s))
              res
              a).c
            i
            (bit x (k - 1))
          × InStep
              (top_bit w k size streams memory eda.positions rand.b eda.r
                (r_primes w k size eda)
                (λ pid s. cut w k size (eda.b_2 pid s))
                res
                a).positions
    with_bit coin small of_b =
        top_bit_lem ring even size streams memory eda.positions
          (is_eda.in_step size rand.positions lem.1) rand.b eda.r (r_primes w k size eda)
          (λ pid s. cut w k size (eda.b_2 pid s)) res a h small of_a of_b
          (is_eda.of_r size rand.positions lem.1 h)
          (r_primes-IsShared ring size eda h (is_eda.value-lt size rand.positions i)
            (is_eda.of_r size rand.positions lem.1 h) (is_eda.of_b_2 size rand.positions lem.1 h))
          (cut-IsXorShared ring size eda.b_2 h (is_eda.of_b_2 size rand.positions lem.1 h))

    found :
        IsShared k
          (top_bit w k size streams memory eda.positions rand.b eda.r
            (r_primes w k size eda)
            (λ pid s. cut w k size (eda.b_2 pid s))
            res
            a).c
          i
          (bit x (k - 1))
        × InStep
            (top_bit w k size streams memory eda.positions rand.b eda.r
              (r_primes w k size eda)
              (λ pid s. cut w k size (eda.b_2 pid s))
              res
              a).positions
    found = elim lem.0 [
      | inl zero_bit ↦ with_bit 0 (omega arith) zero_bit
      | inr one_bit ↦ with_bit 1 (omega arith) one_bit
    ]
