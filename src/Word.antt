-- ===== src/Word.antt =====
-- `Lint`, the unsigned word of the target (include_30/setringsize.h, include_60/setringsize.h):
-- a number below 2 ^ w, with w = 32 or w = 64, and the C operators on it. Arrays of words, and
-- the copies of a few low bytes into a word (a little-endian machine).
pub mod Laws
pub mod Digits
pub mod Memory
use rss_ring_ppml.Base.{
  ℕ, ◌+◌, ◌-◌, ◌*◌, ◌/◌, ◌%◌, ◌^◌, ◌≤◌, ◌<◌, ◌≡◌, bit_and, bit_or, bit_xor, ◌==◌, if◌then◌else◌,
}

-- The width of `Lint` in bits, with USE_30 and without.
abbrev pub lint_30 : ℕ
lint_30 = 32

abbrev pub lint_60 : ℕ
lint_60 = 64

unfoldable pub add : ℕ → ℕ → ℕ → ℕ
add w x y = (x + y) % 2 ^ w

-- The modulus is added first, since `-` stops at 0.
unfoldable pub sub : ℕ → ℕ → ℕ → ℕ
sub w x y = (x + (2 ^ w - y % 2 ^ w)) % 2 ^ w

unfoldable pub mul : ℕ → ℕ → ℕ → ℕ
mul w x y = x * y % 2 ^ w

unfoldable pub shl : ℕ → ℕ → ℕ → ℕ
shl w x n = x * 2 ^ n % 2 ^ w

abbrev pub shr : ℕ → ℕ → ℕ
shr x n = x / 2 ^ n

-- `Lint(-1)`.
abbrev pub all_ones : ℕ → ℕ
all_ones w = 2 ^ w - 1

unfoldable pub get_bit : ℕ → ℕ → ℕ
get_bit x n = bit_and (shr x n) 1

-- `(X & ~(Lint(1) << N)) | (B << N)`, where `~` is the exclusive or with all ones.
unfoldable pub set_bit : ℕ → ℕ → ℕ → ℕ → ℕ
unfolding shl
set_bit w x n b = bit_or (bit_and x (bit_xor (shl w 1 n) (all_ones w))) (shl w b n)

-- An entry of the table `SHIFT`; the shift by the whole width is undefined in C, and the
-- constructor of `NodeNetwork` writes that entry by hand.
unfoldable pub shift_mask : ℕ → ℕ → ℕ
unfolding shl sub
shift_mask w i = if i == w then all_ones w else sub w (shl w 1 i) 1

-- `x & SHIFT[i]`.
unfoldable pub mask : ℕ → ℕ → ℕ → ℕ
unfolding shift_mask
mask w i x = bit_and x (shift_mask w i)

-- A ring size that the program supports: `Lint` of `w` bits holds the elements of Z/2^k.
pub record IsRing (w k : ℕ) : Type 0 where
  pub pos : 0 < k
  pub fits : k ≤ w
  pub narrow : w ≤ 64

-- A width of a word that is a power of two.
pub record IsWidth (w : ℕ) : Type 0 where
  pub log : ℕ
  pub is_power : w ≡ 2 ^ log
