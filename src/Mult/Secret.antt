-- ===== src/Mult/Secret.antt =====
-- What a party sees of `Rss_Mult`: its new shares fit every choice of what the others hold.
use native.Mathlib.Nat.{mod-add-div, div-div-eq-div-mul}
use rss_ring_ppml.Base.{
  ℕ, zero, suc, ◌+◌, ◌-◌, ◌*◌, ◌/◌, ◌%◌, ◌^◌, ◌≤◌, ◌<◌, ◌≡◌, ◌≢◌, ◌∙◌, ap, sym, refl, arith, ◌==◌,
  true, if◌then◌else◌,
}
use rss_ring_ppml.Base.Cong.{
  Cong, Cong_trans, Cong_sym, Cong_refl, Cong_eq, Cong_of_le, Cong-cancel, add-Cong, mod-Cong,
  two_pow-add,
}
use rss_ring_ppml.Word.{IsRing, sub}
use rss_ring_ppml.Word.Laws.{sub_lem}
use rss_ring_ppml.Word.Memory.{Buffer, read_le, unit_size, le-unit_size, for_each_at}
use rss_ring_ppml.Net.{World, map_3pc}
use rss_ring_ppml.Prg.{Streams, Positions, key_3pc}
use rss_ring_ppml.Share.{Shares}
use rss_ring_ppml.MatMult.Correct.{row_at, column_at}
use rss_ring_ppml.Mult.{local_product, rss_mult, store_product}
use rss_ring_ppml.Mult.Correct.{random_at, own_at, other_at}

mod-mul : (x m : ℕ) → x % (256 * m) ≡ x % 256 + 256 * (x / 256 % m)
mod-mul x m = omega (
  arith,
  mod-add-div x (256 * m),
  mod-add-div x 256,
  mod-add-div (x / 256) m,
  ap (λ (t : ℕ). m * t) (div-div-eq-div-mul x 256 m),
)

byte_power : (n : ℕ) → 2 ^ (8 * suc n) ≡ 256 * 2 ^ (8 * n)
byte_power n =
    ap (λ (z : ℕ). 2 ^ z) {x = 8 * suc n} {y = 8 + 8 * n} (omega arith) ∙ two_pow-add 8 (8 * n)

next_byte : (x t : ℕ) → x / 2 ^ (8 * suc t) ≡ x / 256 / 2 ^ (8 * t)
next_byte x t = ap (λ (z : ℕ). x / z) (byte_power t) ∙ sym (div-div-eq-div-mul x 256 (2 ^ (8 * t)))

-- Bytes that spell a number are read as this number.
read_le_lem :
    (buffer : Buffer) (n start x : ℕ)
    → ((t : ℕ) → t < n → buffer (start + t) ≡ x / 2 ^ (8 * t) % 256)
    → read_le buffer start n ≡ x % 2 ^ (8 * n)
unfolding read_le
read_le_lem buffer zero start x e = omega arith
read_le_lem buffer (suc n) start x e =
    let first : buffer start ≡ x % 256 =
      ap buffer {x = start} {y = start + 0} (omega arith)
      ∙ e 0 (omega arith)
      ∙ ap (λ (t : ℕ). t % 256) {x = x / 2 ^ (8 * 0)} {y = x} (omega arith) in
    let rest : read_le buffer (suc start) n ≡ x / 256 % 2 ^ (8 * n) =
      read_le_lem buffer n (suc start) (x / 256) (λ t h.
        ap buffer {x = suc start + t} {y = start + suc t} (omega arith)
        ∙ e (suc t) (omega (arith, h))
        ∙ ap (λ (z : ℕ). z % 256) (next_byte x t)) in
    rw (first, rest) (sym (mod-mul x (2 ^ (8 * n))) ∙ ap (λ (t : ℕ). x % t) (sym (byte_power n)))

-- The streams with another one under `key`, which spells the numbers `x` from `start` on.
abbrev with_numbers : Streams → ℕ → ℕ → ℕ → (ℕ → ℕ) → Streams
with_numbers streams key start bytes x key' j =
    if key' == key
    then x ((j - start) / bytes) / 2 ^ (8 * ((j - start) % bytes)) % 256
    else streams key' j

with_numbers-other :
    (streams : Streams) (key start bytes : ℕ) (x : ℕ → ℕ) (key' j : ℕ)
    → key' ≢ key
    → with_numbers streams key start bytes x key' j ≡ streams key' j
with_numbers-other streams key start bytes x key' j ne = ground (arith, ne)

with_numbers-at :
    (streams : Streams) (key start bytes : ℕ) (x : ℕ → ℕ) (i : ℕ)
    → read_le (λ j. with_numbers streams key start bytes x key (start + j)) (i * bytes) bytes
      ≡ x i % 2 ^ (8 * bytes)
with_numbers-at streams key start bytes x i =
    read_le_lem (λ j. with_numbers streams key start bytes x key (start + j)) bytes (i * bytes)
      (x i)
      (λ t h.
        let same : (key == key) ≡ true = ground arith in
        let back : start + (i * bytes + t) - start ≡ i * bytes + t = omega arith in
        rw (same, back, row_at bytes i t h, column_at bytes i t h) refl)

read_le-congr :
    (x y : Buffer) (start n : ℕ) → ((j : ℕ) → x j ≡ y j) → read_le x start n ≡ read_le y start n
unfolding read_le
read_le-congr x y start zero e = refl
read_le-congr x y start (suc n) e = rw (e start, read_le-congr x y (suc start) n e) refl

module _ {w k : ℕ} (ring : IsRing w k) (size : ℕ) (streams : Streams) (positions : Positions)
    (c a b a' b' : World Shares) (q : ℕ) (low : 1 ≤ q) (high : q ≤ 3)
    (same_a : (s i : ℕ) → a' q s i ≡ a q s i) (same_b : (s i : ℕ) → b' q s i ≡ b q s i) where
  abbrev bytes : ℕ
  bytes = unit_size k

  -- The party that `q` receives from, and the key that `q` does not have.
  abbrev peer : ℕ
  peer = map_3pc q 1

  abbrev f : ℕ → ℕ → ℕ
  f pid i = local_product w (a pid) (b pid) i i

  abbrev f' : ℕ → ℕ → ℕ
  f' pid i = local_product w (a' pid) (b' pid) i i

  abbrev z : ℕ → ℕ → ℕ → ℕ
  z key_id pid i = random_at streams positions bytes i key_id pid

  abbrev number : ℕ → ℕ
  number i = sub w (z 1 peer i + f' peer i) (f peer i)

  abbrev changed : Streams
  changed = with_numbers streams (key_3pc peer 1) (positions peer 1) bytes number

  abbrev z' : ℕ → ℕ → ℕ → ℕ
  z' key_id pid i = random_at changed positions bytes i key_id pid

  kept : (key_id j : ℕ) → key_id < 3 → changed (key_3pc q key_id) j ≡ streams (key_3pc q key_id) j
  unfolding key_3pc map_3pc
  kept key_id j lt =
      with_numbers-other streams (key_3pc peer 1) (positions peer 1) bytes number (key_3pc q key_id)
        j (λ e. ground (arith, low, high, lt, e))

  own_random : (key_id i : ℕ) → key_id < 3 → z' key_id q i ≡ z key_id q i
  own_random key_id i lt =
      read_le-congr _ _ (i * bytes) bytes (λ j. kept key_id (positions q key_id + j) lt)

  peer_random : (i : ℕ) → Cong (2 ^ k) (z' 1 peer i) (number i)
  peer_random i =
      Cong_trans
        (Cong_eq (with_numbers-at streams (key_3pc peer 1) (positions peer 1) bytes number i))
        (Cong_of_le (le-unit_size k) (mod-Cong (2 ^ (8 * bytes)) (number i)))

  same_product : (i : ℕ) → f' q i ≡ f q i
  unfolding local_product
  same_product i = rw (same_a 0 i, same_a 1 i, same_b 0 i, same_b 1 i) refl

  abbrev seen : Streams → World Shares → World Shares → ℕ → ℕ → ℕ
  seen keys x y s i = (rss_mult w k size keys positions c x y).c q s i

  own_seen : {i : ℕ} → i < size → Cong (2 ^ k) (seen changed a' b' 0 i) (seen streams a b 0 i)
  unfolding rss_mult store_product
  own_seen {i} h = Cong_trans (Cong_eq (for_each_at size _ (c q 0) h)) (
      Cong_trans
        (Cong-cancel
          (Cong_trans (own_at ring size changed positions f' (λ pid. c pid 0) (λ pid. c pid 1) h q)
            (Cong_trans (Cong_eq (ap2 (own_random 0 i (omega arith)) (same_product i))) (
              Cong_sym
                (own_at ring size streams positions f (λ pid. c pid 0) (λ pid. c pid 1) h q))))
          (Cong_eq (own_random 1 i (omega arith))))
        (Cong_sym (Cong_eq (for_each_at size _ (c q 0) h))))
    where
      ap2 : {x y u v : ℕ} → x ≡ y → u ≡ v → x + u ≡ y + v
      ap2 e e' = omega (arith, e, e')

  other_seen : {i : ℕ} → i < size → Cong (2 ^ k) (seen changed a' b' 1 i) (seen streams a b 1 i)
  unfolding rss_mult store_product
  other_seen {i} h = Cong_trans (Cong_eq (for_each_at size _ (c q 1) h)) (
      Cong_trans
        (Cong-cancel {c = z' 1 peer i + f peer i} {d = z 1 peer i + f' peer i}
          (Cong_trans (Cong_eq (omega arith)) (
            Cong_trans
              (add-Cong
                (other_at ring size changed positions f' (λ pid. c pid 0) (λ pid. c pid 1) h q)
                (Cong_refl (f peer i)))
              (Cong_trans (Cong_eq (omega (arith, own_random 1 i (omega arith)))) (
                Cong_trans
                  (add-Cong
                    (Cong_sym (
                      other_at ring size streams positions f (λ pid. c pid 0) (λ pid. c pid 1) h q))
                    (Cong_refl (f' peer i)))
                  (Cong_eq (omega arith))))))
          (Cong_trans (add-Cong (peer_random i) (Cong_refl (f peer i)))
            (sub_lem ring.fits (z 1 peer i + f' peer i) (f peer i))))
        (Cong_sym (Cong_eq (for_each_at size _ (c q 1) h))))

  -- At a supported ring size, for one of the parties 1, 2 and 3 and any other factors `a'` and `b'`
  -- of which it holds the same shares as of `a` and `b`, there are bytes for the key that it does
  -- not have, with the bytes of its own keys as they are, for which `Rss_Mult` gives the party the
  -- same `ring_size` low bits of its new shares of every element: what it gets rules out nothing that
  -- the others may hold.
  pub rss_mult-hides :
      (keys : Streams) × ((key_id j : ℕ)
        → key_id < 3
        → keys (key_3pc q key_id) j ≡ streams (key_3pc q key_id) j)
      × ((i : ℕ)
          → i < size
          → Cong
              (2 ^ k)
              ((rss_mult w k size keys positions c a' b').c q 0 i)
              ((rss_mult w k size streams positions c a b).c q 0 i))
      × ((i : ℕ)
          → i < size
          → Cong
              (2 ^ k)
              ((rss_mult w k size keys positions c a' b').c q 1 i)
              ((rss_mult w k size streams positions c a b).c q 1 i))
  rss_mult-hides = (changed, kept, λ i h. own_seen h, λ i h. other_seen h)
