-- ===== src/Checks.antt =====
-- Concrete inputs for the theorems: 30-bit configuration (`Lint` of 32 bits), ring Z/2^8.
pub mod Basic
pub mod Matrices
pub mod Composite
pub mod Biases
pub mod Compare
pub mod Pools
pub mod Sums
pub mod Parties
use rss_ring_ppml.Base.{ℕ, ◌+◌, ◌-◌, ◌*◌, ◌/◌, ◌%◌, ◌^◌, ◌<◌, ◌==◌, if◌then◌else◌, refl, ap, arith}
use rss_ring_ppml.Base.Bits.{bit, zero-bit}
use rss_ring_ppml.Base.Cong.{Cong, Cong_refl, Cong_eq}
use rss_ring_ppml.Word.{IsRing}
use rss_ring_ppml.Net.{World}
use rss_ring_ppml.Prg.{Streams, Positions}
use rss_ring_ppml.Prg.Sync.{InStep}
use rss_ring_ppml.Share.{Shares, IsShared, IsXorShared}
use rss_ring_ppml.Lt.{MsbProtocol, IsMsb, Memory}
use rss_ring_ppml.Trunc.{EdaBitProtocol, IsEdaBit}

pub IsRing-8 : IsRing 32 8
IsRing-8 = record { pos = omega arith; fits = omega arith; narrow = omega arith }

abbrev pub streams : Streams
streams key j = (key * 7 + j * 13 + 5) % 256

abbrev pub positions : Positions
positions pid key = 0

pub positions-InStep : InStep positions
positions-InStep = record { first = refl; second = refl; third = refl }

-- The shares 1, 2 and 3 of every element, as the parties hold them.
abbrev pub held : ℕ → ℕ → ℕ → World Shares
held first second third pid s i =
    if pid == 1
    then (if s == 0 then second else third)
    else if pid == 2
    then (if s == 0 then third else first)
    else if s == 0
    then first
    else second

pub held-IsShared :
    (k i first second third : ℕ) → IsShared k (held first second third) i (second + third + first)
held-IsShared k i first second third = record {
  third_share = Cong_refl third;
  first_share = Cong_refl first;
  second_share = Cong_refl second;
  total = Cong_refl (second + third + first);
}

pub held-IsXorShared : (k i x : ℕ) → IsXorShared k (held 0 x 0) i x
held-IsXorShared k i x = record {
  at_bit = λ j lt. record {
    third_share = Cong_refl (bit 0 j);
    first_share = Cong_refl (bit 0 j);
    second_share = Cong_refl (bit x j);
    total = Cong_eq (omega (arith, zero-bit j));
  };
}

abbrev pub cleared : World Shares
cleared pid s i = 0

abbrev pub memory : Memory
memory = record { c = cleared; d = cleared }

-- The top bit in Z/2^8, shared anew.
abbrev pub top_bit : World Shares → ℕ → ℕ
top_bit a i = (a 1 0 i + a 2 0 i + a 3 0 i) % 256 / 128

abbrev pub msb : MsbProtocol
msb size positions res a = record {
  c = λ pid s i. held 0 (top_bit a i) 0 pid s i;
  positions = positions;
}

pub msb-IsMsb : IsMsb 8 msb
msb-IsMsb = record {
  top_bit = λ size positions res a {i} {x} step h s. record {
    third_share = Cong_refl 0;
    first_share = Cong_refl 0;
    second_share = Cong_refl (top_bit a i);
    total = Cong_eq (omega (arith, ap (λ (t : ℕ). t / 128) s.total.same));
  };
  in_step = λ size positions res a step. step;
}

-- The random number 200 in Z/2^8.
abbrev pub eda_bit : EdaBitProtocol
eda_bit size m positions = record {
  r = held 0 200 0;
  r_prime = held 0 (200 / 2 ^ m) 0;
  r_km1 = held 0 1 0;
  positions = positions;
}

pub eda_bit-IsEdaBit : (m : ℕ) → IsEdaBit 8 m eda_bit
eda_bit-IsEdaBit m = record {
  value = λ size positions i. 200;
  value-lt = λ size positions i. omega arith;
  of_r = λ size positions {i} step h. held-IsShared 8 i 0 200 0;
  of_r_prime = λ size positions {i} step h. record {
    third_share = Cong_refl 0;
    first_share = Cong_refl 0;
    second_share = Cong_refl (200 / 2 ^ m);
    total = Cong_eq (omega arith);
  };
  of_r_km1 = λ size positions {i} step h. held-IsShared 8 i 0 1 0;
  in_step = λ size positions step. step;
}
