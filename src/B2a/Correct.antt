-- ===== src/B2a/Correct.antt =====
-- `Rss_b2a` turns a bit shared by exclusive or into an additive sharing of it.
use rss_ring_ppml.Base.{
  ℕ, ◌+◌, ◌*◌, ◌/◌, ◌%◌, ◌^◌, ◌<◌, ◌≡◌, inl, inr, ap, ◌∙◌, arith, bit_and, bit_xor,
}
use native.Mathlib.Nat.{mod-eq_of_lt, pow-le-pow_right}
use rss_ring_ppml.Base.Bits.{bit_and_mask}
use rss_ring_ppml.Base.Digits.{bit_xor-lt}
use rss_ring_ppml.Base.Cong.{Cong, Cong_trans, Cong_sym, Cong_refl, Cong_eq, add-Cong}
use rss_ring_ppml.Word.{IsRing, get_bit}
use rss_ring_ppml.Word.Laws.{add_lem, mul_lem, sub_lem}
use rss_ring_ppml.Word.Memory.{Array, zeros, for_each, for_each_at}
use rss_ring_ppml.Net.{World}
use rss_ring_ppml.Prg.{Streams, Positions}
use rss_ring_ppml.Prg.Sync.{InStep}
use rss_ring_ppml.Share.{Shares, IsShared, IsXorShared, unit_share}
use rss_ring_ppml.Share.Xor.{IsXorShared-xor, IsXorShared-move, low_bit-IsXorShared}
use rss_ring_ppml.Open.{rss_open_bitwise}
use rss_ring_ppml.Open.Bitwise.{rss_open_bitwise_lem}
use rss_ring_ppml.RandBit.{rss_rand_bit}
use rss_ring_ppml.RandBit.Correct.{rss_rand_bit_lem, rss_rand_bit-InStep}
use rss_ring_ppml.B2a.{Memory, flip_share, masked_bits, rss_b2a}
use rss_ring_ppml.B2a.Flip.{unmask, flip-IsShared}

get_bit_0 : (x : ℕ) → get_bit x 0 ≡ x % 2
unfolding get_bit
get_bit_0 x = ap (λ (t : ℕ). bit_and t 1) {x = x / 2 ^ 0} {y = x} (omega arith) ∙ bit_and_mask 1 x

module _ {w k : ℕ} (pos : 0 < k) (ring : IsRing w k) (size : ℕ) (a b : World Shares) {i : ℕ}
    (h : i < size) where
  masked-IsXorShared :
      {v r : ℕ}
      → r < 2
      → IsXorShared k a i v
      → IsShared k b i r
      → IsXorShared k (masked_bits size a b) i (bit_xor v r)
  unfolding masked_bits
  masked-IsXorShared small s t =
      IsXorShared-move (λ pid s n. bit_xor (a pid s n) (b pid s n % 2)) (masked_bits size a b)
        (λ pid s'. for_each_at size _ zeros h ∙ ap (bit_xor (a pid s' i)) (get_bit_0 (b pid s' i)))
        (IsXorShared-xor a (λ pid s n. b pid s n % 2) s (low_bit-IsXorShared b pos small t))

  bit_xor_small : {v r : ℕ} → v < 2 → r < 2 → bit_xor v r < 2 ^ k
  bit_xor_small {v} {r} p q =
      omega (arith, bit_xor-lt v r p q, pow-le-pow_right {n = 2} (omega arith) {i = 1} {j = k} pos)

  pub flip_share_lem : (ai c x : ℕ) → Cong (2 ^ k) (flip_share w ai c x + 2 * c * x) (c * ai + x)
  unfolding flip_share
  flip_share_lem ai c x =
      Cong_trans
        (add-Cong (Cong_refl (flip_share w ai c x)) (
          Cong_sym
            (mul_lem ring.fits (mul_lem ring.fits (Cong_refl 2) (Cong_refl c)) (Cong_refl x))))
        (Cong_trans (sub_lem ring.fits _ _) (
          Cong_trans
            (add_lem ring.fits (mul_lem ring.fits (Cong_refl ai) (Cong_refl c)) (Cong_refl x))
            (Cong_eq (omega arith))))

  flipped-IsShared :
      (memory : World Array) (res : World Shares) {v r : ℕ}
      → v < 2
      → r < 2
      → IsXorShared k a i v
      → IsShared k b i r
      → IsShared k
          (λ pid s.
            for_each size
              (λ n.
                flip_share w
                  (unit_share pid s)
                  ((rss_open_bitwise w k size memory (masked_bits size a b)).res pid n)
                  (b pid s n))
              (res pid s))
          i
          v
  flipped-IsShared memory res {v} {r} v_small small s t =
      let opened = (rss_open_bitwise w k size memory (masked_bits size a b)).res in
      let lem =
        rss_open_bitwise_lem ring size memory (masked_bits size a b) h
          (masked-IsXorShared small s t) in
      flip-IsShared {v = v} {r = r} {c = bit_xor v r % 2 ^ k} opened _ b lem.0 lem.1 lem.2
        (λ pid s' e.
          Cong_trans (add-Cong (Cong_eq (for_each_at size _ (res pid s') h)) (Cong_refl _))
            (rw e (flip_share_lem (unit_share pid s') (bit_xor v r % 2 ^ k) (b pid s' i))))
        (unmask v r (bit_xor v r % 2 ^ k) v_small small
          (mod-eq_of_lt (bit_xor_small v_small small)))
        t

-- At a ring size `ring_size` above 0 with `ring_size + 2` at most the width of a word, streams in
-- step, and words `a` whose `ring_size` low bits share by exclusive or a bit `v` at an index `i`
-- below `size`, `Rss_b2a` leaves in `res[i]` additive shares of `v` modulo `2 ^ ring_size`, and
-- the streams in step again.
pub rss_b2a_lem :
    {w k : ℕ} (pos : 0 < k) (wide : IsRing w (k + 2)) (size : ℕ) (streams : Streams)
    (positions : Positions) (memory : Memory) (res a : World Shares) {i v : ℕ}
    → InStep positions
    → i < size
    → v < 2
    → IsXorShared k a i v
    → IsShared k (rss_b2a w k size streams positions memory res a).c i v
      × InStep (rss_b2a w k size streams positions memory res a).positions
unfolding rss_b2a
rss_b2a_lem {w} {k} pos wide size streams positions memory res a {i} {v} step h small s =
    let lem = rss_rand_bit_lem pos wide size streams positions step memory.rand memory.b h in
    let rand = rss_rand_bit w k size streams positions memory.rand memory.b in
    let ring : IsRing w k = record {
      pos = pos;
      fits = omega (arith, wide.fits);
      narrow = wide.narrow;
    } in
    (
      elim lem.0 [
        | inl zero_bit ↦
            flipped-IsShared pos ring size a rand.b h memory.c res small (omega arith) s zero_bit
        | inr one_bit ↦
            flipped-IsShared pos ring size a rand.b h memory.c res small (omega arith) s one_bit
      ],
      lem.1,
    )

-- The streams stay in step for every size.
pub rss_b2a-InStep :
    (w k size : ℕ) (streams : Streams) (positions : Positions) (memory : Memory)
    (res a : World Shares)
    → InStep positions
    → InStep (rss_b2a w k size streams positions memory res a).positions
unfolding rss_b2a
rss_b2a-InStep w k size streams positions memory res a step =
    rss_rand_bit-InStep w k size streams positions memory.rand memory.b step
