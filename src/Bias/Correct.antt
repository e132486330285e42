-- ===== src/Bias/Correct.antt =====
-- Biases land on their row or channel, and a zero point that was subtracted can be added again.
use native.Mathlib.Nat.{mul-le-mul_right}
use rss_ring_ppml.Base.{ℕ, refl, ◌≤◌, ◌+◌, ◌-◌, ◌*◌, ◌/◌, ◌%◌, ◌^◌, ◌<◌, arith}
use rss_ring_ppml.Base.Cong.{Cong, Cong_of_eq}
use rss_ring_ppml.Word.{IsRing}
use rss_ring_ppml.Word.Laws.{two_pow-pos}
use rss_ring_ppml.Net.{World}
use rss_ring_ppml.Share.{Shares, IsShared}
use rss_ring_ppml.Share.Linear.{IsShared_value, IsShared_move, add_shares_lem, sub_shares_lem}
use rss_ring_ppml.Lt.{at_layer}
use rss_ring_ppml.Lt.Correct.{at_layer_lem}
use rss_ring_ppml.MatMult.Correct.{row_at, column_at, index-lt}
use rss_ring_ppml.Bias

module _ {w k : ℕ} (ring : IsRing w k) (res a b : World Shares) where
  -- At a supported ring size, with `x` shared at element (i, j) of matrix `l` of the batch and
  -- `y` at index `i` of `b`, `add_biases` leaves shares of `x + y` in that element of `res`.
  add_biases_lem :
      (m n batch_size l i j : ℕ) {x y : ℕ}
      → l < batch_size
      → i < m
      → j < n
      → IsShared k a (l * (m * n) + (i * n + j)) x
      → IsShared k b i y
      → IsShared k (Bias.add_biases w res a b m n batch_size) (l * (m * n) + (i * n + j)) (x + y)
  unfolding Bias.add_biases
  add_biases_lem m n batch_size l i j in_batch row column s t =
      add_shares_lem ring (batch_size * (m * n)) a biases res
        (index-lt in_batch (index-lt row column)) s
        (IsShared_move b biases
          (λ pid n'.
            rw (column_at (m * n) l (i * n + j) (index-lt row column), row_at n i j column) refl)
          t)
    where
      biases : World Shares
      biases pid s t = b pid s (t % (m * n) / n)

  -- At a supported ring size, with `x` shared at channel `i` of position `l` and `y` at index `i`
  -- of `b`, `pw_add_biases` leaves shares of `x + y` in that element of `res`.
  pw_add_biases_lem :
      (height width channels batch_size l i : ℕ) {x y : ℕ}
      → l < height * width * batch_size
      → i < channels
      → IsShared k a (l * channels + i) x
      → IsShared k b i y
      → IsShared k
          (Bias.pw_add_biases w res a b height width channels batch_size)
          (l * channels + i)
          (x + y)
  unfolding Bias.pw_add_biases
  pw_add_biases_lem height width channels batch_size l i position channel s t =
      add_shares_lem ring (height * width * batch_size * channels) a biases res
        (index-lt position channel) s
        (IsShared_move b biases (λ pid n. rw (column_at channels l i channel) refl) t)
    where
      biases : World Shares
      biases pid s t = b pid s (t % channels)

  -- At a supported ring size, with `z` shared at index `layer` of `z_p`, `add_zp` on the result
  -- of `sub_zp` leaves shares of the value `x` that was shared before.
  pub add_zp-sub_zp :
      (size batch_size layer : ℕ) {i x z : ℕ}
      → i < size * batch_size
      → IsShared k a i x
      → IsShared k b layer z
      → IsShared k
          (Bias.add_zp w res (Bias.sub_zp w res a b size batch_size layer) b size batch_size layer)
          i
          x
  unfolding Bias.add_zp Bias.sub_zp
  add_zp-sub_zp size batch_size layer {i} {x} {z} h s t = IsShared_value back (
      add_shares_lem ring (size * batch_size) _ (at_layer b layer) res h
        (sub_shares_lem ring (size * batch_size) a (at_layer b layer) res h (x + (2 ^ k * z - z))
          back s (at_layer_lem b t))
        (at_layer_lem b t))
    where
      enough : z ≤ 2 ^ k * z
      enough = omega (arith, mul-le-mul_right {m = 1} {n = 2 ^ k} z (two_pow-pos k))

      back : Cong (2 ^ k) (x + (2 ^ k * z - z) + z) x
      back = Cong_of_eq 0 z (omega (arith, enough))
