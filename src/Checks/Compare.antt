-- ===== src/Checks/Compare.antt =====
-- Inputs for the comparisons of bits, the most significant bit and the conversion of bits.
use rss_ring_ppml.Base.{ℕ, ◌+◌, ◌/◌, ◌%◌, ◌^◌, ◌≤◌, ◌≡◌, ap, refl, arith}
use rss_ring_ppml.Base.Bits.{bit}
use rss_ring_ppml.Prg.Sync.{InStep}
use rss_ring_ppml.Share.{IsShared, IsXorShared}
use rss_ring_ppml.Mult.{local_product_byte, local_product_bitwise}
use rss_ring_ppml.Mult.Byte.{local_product_byte-local_product_bitwise}
use rss_ring_ppml.B2a
use rss_ring_ppml.B2a.{rss_b2a}
use rss_ring_ppml.B2a.Correct.{rss_b2a_lem}
use rss_ring_ppml.BitLt.{State, carry_loop, first_pairs, start_state, rss_bit_lt, rss_carry_out}
use rss_ring_ppml.BitLt.Carry.{carry, carry_out, sum_p, sum_g}
use rss_ring_ppml.BitLt.Loop.{carry_loop-ends, carry_loop_lem}
use rss_ring_ppml.BitLt.Sum.{first_pairs-HasPairs, rss_carry_out_lem}
use rss_ring_ppml.BitLt.Correct.{is_less, rss_bit_lt_lem}
use rss_ring_ppml.BitLt.{rss_carry_out_aux, new_rss_carry_out_aux}
use rss_ring_ppml.BitLt.Recursive.{HasCarry, rss_carry_out_aux-new_rss_carry_out_aux}
use rss_ring_ppml.Prg.Container.{Cipher, Container, prg_aes, prg_getrandom}
use rss_ring_ppml.Prg.Container.Blocks.{IsBlockCipher, block}
use rss_ring_ppml.Prg.Container.Refines.{Handed}
use rss_ring_ppml.Prg.Container.Correct.{prg_getrandom_lem}
use rss_ring_ppml.Msb
use rss_ring_ppml.Msb.{new_rss_msb, new_rss_msb_time}
use rss_ring_ppml.Msb.Correct.{new_rss_msb_lem}
use rss_ring_ppml.Checks.{
  IsRing-8, streams, positions, positions-InStep, held, held-IsShared, held-IsXorShared, cleared,
}
use rss_ring_ppml.Checks.Basic.{IsRing-10, rand_memory}

abbrev pub b2a_memory : B2a.Memory
b2a_memory = record { rand = rand_memory; b = cleared; c = λ pid i. 0 }

rss_b2a_example :
    IsShared 8 (rss_b2a 32 8 1 streams positions b2a_memory cleared (held 0 1 0)).c 0 1
    × InStep (rss_b2a 32 8 1 streams positions b2a_memory cleared (held 0 1 0)).positions
rss_b2a_example =
    rss_b2a_lem (omega arith) IsRing-10 1 streams positions b2a_memory cleared (held 0 1 0)
      positions-InStep (omega arith) (omega arith) (held-IsXorShared 8 0 1)

-- A state with seven pairs, those of 200 + 100 + 1.
abbrev seven_pairs : State
seven_pairs = start_state 8 cleared positions (first_pairs 32 1 (λ pid i. 200) (held 0 100 0))

carry_loop-ends_example :
    ((carry_loop 32 1 streams 3 seven_pairs).r_size ≤ 1)
    × (carry_loop 32 1 streams (3 + 5) seven_pairs ≡ carry_loop 32 1 streams 3 seven_pairs)
unfolding start_state
carry_loop-ends_example = carry_loop-ends 32 1 streams 3 5 seven_pairs (omega arith)

carry_loop_example :
    IsShared 1
      (λ pid s n. bit ((carry_loop 32 1 streams 3 seven_pairs).d.g pid s n) 0)
      0
      (carry (sum_p 200 100) (sum_g 200 100) 8)
    × InStep (carry_loop 32 1 streams 3 seven_pairs).positions
unfolding start_state
carry_loop_example =
    carry_loop_lem 32 1 streams (omega arith) (omega arith) 3 seven_pairs (omega arith)
      (omega arith) (omega arith) positions-InStep
      (first_pairs-HasPairs IsRing-8 1 (λ pid i. 200) (held 0 100 0) (omega arith) refl refl refl
        (held-IsXorShared 8 0 100))

rss_carry_out_example :
    IsShared 1
      (λ pid s n.
        bit
          ((rss_carry_out 32 8 1 streams positions cleared cleared (λ pid i. 200) (held 0 100 0)).c
            pid s n)
          0)
      0
      (carry_out 200 100 8)
    × InStep
        (rss_carry_out 32 8 1 streams positions cleared cleared
          (λ pid i. 200)
          (held 0 100 0)).positions
rss_carry_out_example =
    rss_carry_out_lem IsRing-8 1 streams positions cleared cleared (λ pid i. 200) (held 0 100 0)
      (omega arith) positions-InStep (omega arith) refl refl refl (held-IsXorShared 8 0 100)

rss_bit_lt_example :
    IsXorShared 32
      (rss_bit_lt 32 8 1 streams positions cleared cleared (λ pid i. 99) (held 0 100 0)).c
      0
      (is_less 8 99 100)
    × InStep
        (rss_bit_lt 32 8 1 streams positions cleared cleared (λ pid i. 99) (held 0 100 0)).positions
rss_bit_lt_example =
    rss_bit_lt_lem IsRing-8 1 streams positions cleared cleared (λ pid i. 99) (held 0 100 0)
      (omega arith) positions-InStep (omega arith) refl refl refl (held-IsXorShared 8 0 100)

local_product_byte_example :
    local_product_byte (λ s i. 170 + s) (λ s i. 51) 0 % 2 ^ 8
    ≡ local_product_bitwise (λ s i. 170 + s) (λ s i. 51) 0 % 2 ^ 8
local_product_byte_example =
    local_product_byte-local_product_bitwise (λ s i. 170 + s) (λ s i. 51) 0 8

abbrev pub msb_memory : Msb.Memory
msb_memory = record {
  rand = rand_memory;
  b = cleared;
  c = λ pid i. 0;
  u_2 = cleared;
  bytes = cleared;
  e = λ pid i. 0;
}

-- The random number 200.
abbrev full_eda_bit : Msb.EdaBitProtocol
full_eda_bit size positions = record { r = held 0 200 0; b_2 = held 0 200 0; positions = positions }

full_eda_bit-IsEdaBit : Msb.IsEdaBit 8 full_eda_bit
full_eda_bit-IsEdaBit = record {
  value = λ size positions i. 200;
  value-lt = λ size positions i. omega arith;
  of_r = λ size positions {i} step h. held-IsShared 8 i 0 200 0;
  of_b_2 = λ size positions {i} step h. held-IsXorShared 8 i 200;
  in_step = λ size positions step. step;
}

new_rss_msb_example :
    IsShared 8
      (new_rss_msb 32 8 1 streams msb_memory full_eda_bit positions cleared (held 50 80 20)).c
      0
      (150 % 2 ^ 8 / 2 ^ 7)
    × InStep
        (new_rss_msb 32 8 1 streams msb_memory full_eda_bit positions cleared
          (held 50 80 20)).positions
    × IsShared 8
        (new_rss_msb_time 32 8 1 streams msb_memory full_eda_bit positions cleared
          (held 50 80 20)).c
        0
        (150 % 2 ^ 8 / 2 ^ 7)
new_rss_msb_example =
    new_rss_msb_lem (omega arith) IsRing-10 (omega arith) 1 streams msb_memory full_eda_bit
      full_eda_bit-IsEdaBit positions cleared (held 50 80 20) positions-InStep (omega arith)
      (held-IsShared 8 0 50 80 20)

-- A chain of blocks with `16 * 3 + 5` bytes of it used up, and 40 more bytes to take.
abbrev rounds : Cipher
rounds src j = (src j + 1) % 256

rounds-IsBlockCipher : IsBlockCipher rounds
rounds-IsBlockCipher = record { reads_block = λ x y e j h. ap (λ (t : ℕ). (t + 1) % 256) (e j h) }

abbrev third_block : Container
third_block = record {
  random_container = block (prg_aes rounds) (λ j. j) 3;
  p_container = 5;
  dest = λ j. 0;
}

prg_getrandom_example :
    Handed
      (prg_aes rounds)
      (λ j. j)
      3
      40
      third_block
      (prg_getrandom (prg_aes rounds) 40 third_block)
prg_getrandom_example =
    prg_getrandom_lem rounds (λ j. j) 3 40 third_block rounds-IsBlockCipher
      (record { holds = λ j h. refl; used = omega arith }) (omega arith) (omega arith)

rss_carry_out_aux_example :
    HasCarry 8 0 (sum_p 200 100) (sum_g 200 100) (
      rss_carry_out_aux 32 1 streams 3 8 positions cleared
        (first_pairs 32 1 (λ pid i. 200) (held 0 100 0)))
    × HasCarry 8 0 (sum_p 200 100) (sum_g 200 100) (
        new_rss_carry_out_aux 32 8 1 streams positions cleared cleared
          (first_pairs 32 1 (λ pid i. 200) (held 0 100 0)))
rss_carry_out_aux_example =
    rss_carry_out_aux-new_rss_carry_out_aux 32 1 streams (omega arith) (omega arith) cleared
      (omega arith) 3 8 positions cleared (first_pairs 32 1 (λ pid i. 200) (held 0 100 0))
      (omega arith) (omega arith) (omega arith) positions-InStep
      (first_pairs-HasPairs IsRing-8 1 (λ pid i. 200) (held 0 100 0) (omega arith) refl refl refl
        (held-IsXorShared 8 0 100))
