-- ===== src/Word/Memory.antt =====
-- Arrays of `Lint`, the loops that fill them, and `memcpy` of a few low bytes into a word.
use native.Mathlib.Nat.{zero-div, mod-eq_of_lt}
use rss_ring_ppml.Base.{
  ℕ, zero, suc, ◌+◌, ◌*◌, ◌/◌, ◌%◌, ◌^◌, ◌≤◌, ◌<◌, ltb, lt→ltb, ◌==◌, ≥→ltb, if◌then◌else◌, ◌≡◌,
  arith,
}
use rss_ring_ppml.Base.Cong.{Cong, Cong_trans, Cong_of_le, Cong_of_eq, mod-Cong}

-- The words of an array by index.
abbrev pub Array : Type 0
Array = ℕ → ℕ

-- The bytes of a buffer by index.
abbrev pub Buffer : Type 0
Buffer = ℕ → ℕ

abbrev pub zeros : Array
zeros i = 0

-- `x[i] = v;`
unfoldable pub put : ℕ → ℕ → Array → Array
put i v x j = if j == i then v else x j

pub put_at : (i v : ℕ) (x : Array) → put i v x i ≡ v
unfolding put
put_at i v x = ground arith

pub put_other : {i j : ℕ} (v : ℕ) (x : Array) → j < i → put i v x j ≡ x j
unfolding put
put_other {i} {j} v x lt = ground arith

-- `for (i = 0; i < size; i++) x[i] = f(i);`, where `f` reads nothing that the loop writes but
-- the old `x[i]`.
unfoldable pub for_each : ℕ → (ℕ → ℕ) → Array → Array
for_each size f x i = if ltb i size then f i else x i

pub for_each_at : (size : ℕ) (f : ℕ → ℕ) (x : Array) {i : ℕ} → i < size → for_each size f x i ≡ f i
unfolding for_each
for_each_at size f x {i} h = rw (lt→ltb i size h)

pub for_each_above :
    (size : ℕ) (f : ℕ → ℕ) (x : Array) {i : ℕ} → size ≤ i → for_each size f x i ≡ x i
unfolding for_each
for_each_above size f x {i} h = rw (≥→ltb i size h)

-- `(flag + 7) >> 3`, the bytes in which a ring element travels.
abbrev pub unit_size : ℕ → ℕ
unit_size flag = (flag + 7) / 8

pub le-unit_size : (k : ℕ) → k ≤ 8 * unit_size k
le-unit_size k = omega arith

-- The word that `n` bytes of a buffer stand for, lowest first.
unfoldable pub read_le : Buffer → ℕ → ℕ → ℕ
read_le buffer start zero = 0
read_le buffer start (suc n) = buffer start + 256 * read_le buffer (suc start) n

-- `memcpy(&x, &v, n)`: the low `n` bytes of `x` become those of `v`, the others stay.
unfoldable pub copy_low : ℕ → ℕ → ℕ → ℕ
copy_low n x v = x / 2 ^ (8 * n) * 2 ^ (8 * n) + v % 2 ^ (8 * n)

pub copy_low-small : (n v : ℕ) → v < 2 ^ (8 * n) → copy_low n 0 v ≡ v
unfolding copy_low
copy_low-small n v h = omega (arith, zero-div (2 ^ (8 * n)), mod-eq_of_lt h)

pub copy_low_lem : {k : ℕ} (n x v : ℕ) → k ≤ 8 * n → Cong (2 ^ k) (copy_low n x v) v
unfolding copy_low
copy_low_lem n x v h =
    Cong_trans
      (Cong_of_le h
        (Cong_of_eq {x = copy_low n x v} {y = v % 2 ^ (8 * n)} 0 (x / 2 ^ (8 * n)) (omega arith)))
      (Cong_of_le h (mod-Cong (2 ^ (8 * n)) v))

-- `for (i = 0; i < size; i++) memcpy(x + i, buffer + i * bytes, bytes);`
unfoldable pub load_all : ℕ → ℕ → Buffer → Array → Array
load_all bytes size buffer x =
    for_each size (λ i. copy_low bytes (x i) (read_le buffer (i * bytes) bytes)) x

pub load_all_lem :
    {k : ℕ} (bytes size : ℕ) (buffer : Buffer) (x : Array) {i : ℕ}
    → k ≤ 8 * bytes
    → i < size
    → Cong (2 ^ k) (load_all bytes size buffer x i) (read_le buffer (i * bytes) bytes)
unfolding load_all
load_all_lem bytes size buffer x {i} h lt =
    rw (for_each_at size (λ i. copy_low bytes (x i) (read_le buffer (i * bytes) bytes)) x lt)
      (copy_low_lem bytes (x i) (read_le buffer (i * bytes) bytes) h)
