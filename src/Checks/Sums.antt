-- ===== src/Checks/Sums.antt =====
-- Inputs for the sums of bits, the random numbers and the conversions.
use rss_ring_ppml.Base.{ℕ, suc, ◌+◌, ◌*◌, ◌/◌, ◌%◌, ◌^◌, ◌≤◌, ◌<◌, ◌≡◌, arith, refl}
use rss_ring_ppml.Base.Bits.{bit}
use rss_ring_ppml.Word.{IsRing, IsWidth}
use rss_ring_ppml.Base.Cong.{Cong}
use rss_ring_ppml.Prg.{Streams, key_3pc}
use rss_ring_ppml.Prg.Sync.{InStep}
use rss_ring_ppml.Mult.{rss_mult}
use rss_ring_ppml.Mult.Secret.{rss_mult-hides}
use rss_ring_ppml.Share.{IsShared, IsXorShared}
use rss_ring_ppml.BitLt.{Pairs}
use rss_ring_ppml.BitLt.Carry.{carry}
use rss_ring_ppml.Word.Memory.{unit_size}
use rss_ring_ppml.BitAdd.Space.{circle_round-fits}
use rss_ring_ppml.BitAdd.{Indices, State, circle_round, circle_start, rss_circle_op_l, rss_bit_add}
use rss_ring_ppml.BitAdd.Rounds.{rss_circle_op_l_lem}
use rss_ring_ppml.BitAdd.Correct.{rss_bit_add_lem}
use rss_ring_ppml.EdaBit.{rss_eda_bit, rss_eda_bit_trunc}
use rss_ring_ppml.EdaBit.Number.{key_word, rss_eda_bit-key_word}
use rss_ring_ppml.EdaBit.Truncated.{rss_eda_bit_trunc-IsEdaBit}
use rss_ring_ppml.EdaBit.Client.{new_rss_lt-rss_eda_bit, rss_trunc_pr_1-rss_eda_bit_trunc}
use rss_ring_ppml.Convert.{Memory, new_rss_convert, rss_convert}
use rss_ring_ppml.Convert.Correct.{new_rss_convert_lem, rss_convert_lem}
use rss_ring_ppml.Lt
use rss_ring_ppml.Lt.Values.{larger}
use rss_ring_ppml.Msb.Client.{top_bit_protocol}
use rss_ring_ppml.Trunc
use rss_ring_ppml.Trunc.{rss_trunc_pr_1}
use rss_ring_ppml.Checks.{
  IsRing-8, streams, positions, positions-InStep, held, held-IsShared, held-IsXorShared, cleared,
  memory,
}
use rss_ring_ppml.Checks.Basic.{IsRing-10, rand_memory}
use rss_ring_ppml.Checks.Compare.{b2a_memory, msb_memory}

IsWidth-32 : IsWidth 32
IsWidth-32 = record { log = 5; is_power = refl }

IsRing-18 : IsRing 32 18
IsRing-18 = record { pos = omega arith; fits = omega arith; narrow = omega arith }

abbrev unused_indices : Indices
unused_indices = record { from = λ i. 0; to = λ i. 0; op_r = 0 }

abbrev third_round : State
third_round = circle_start positions (record { p = held 0 200 0; g = held 0 100 0 })

circle_round-fits_example :
    (2 * (circle_round 32 6 (2 ^ 3) 1 streams (2 ^ 2) third_round).ops.op_r ≤ 6)
    × (unit_size (2 * (circle_round 32 6 (2 ^ 3) 1 streams (2 ^ 2) third_round).ops.op_r) * 1
        ≤ unit_size 6 * 1)
    × ((e : ℕ) → e < (circle_round 32 6 (2 ^ 3) 1 streams (2 ^ 2) third_round).ops.op_r → e < 2 ^ 3)
circle_round-fits_example =
    circle_round-fits 32 6 3 2 1 streams third_round (omega arith) (omega arith)

abbrev some_pairs : Pairs
some_pairs = record { p = held 0 200 0; g = held 0 100 0 }

rss_circle_op_l_example :
    ((t : ℕ)
      → t < 8
      → IsShared 1
          (λ pid s n. bit ((rss_circle_op_l 32 8 1 streams positions some_pairs).d.g pid s n) t)
          0
          (carry (bit 200) (bit 100) (suc t)))
    × InStep (rss_circle_op_l 32 8 1 streams positions some_pairs).positions
rss_circle_op_l_example =
    rss_circle_op_l_lem IsWidth-32 8 1 streams positions some_pairs (omega arith) (omega arith)
      positions-InStep (omega arith)
      (record {
        p_bit = (held-IsXorShared 8 0 200).at_bit;
        g_bit = (held-IsXorShared 8 0 100).at_bit;
      })

rss_bit_add_example :
    IsXorShared 8
      (rss_bit_add 32 8 1 streams positions cleared (held 0 200 0) (held 0 100 0)).c
      0
      (200 + 100)
    × InStep (rss_bit_add 32 8 1 streams positions cleared (held 0 200 0) (held 0 100 0)).positions
rss_bit_add_example =
    rss_bit_add_lem IsRing-8 IsWidth-32 1 streams positions positions-InStep cleared (held 0 200 0)
      (held 0 100 0) (omega arith) (held-IsXorShared 8 0 200) (held-IsXorShared 8 0 100)

rss_eda_bit_example :
    IsShared 8
      (rss_eda_bit 32 8 streams 4 positions).r
      0
      ((key_word 32 streams 4 0 0 + key_word 32 streams 5 0 0) % 2 ^ 8)
    × IsXorShared 8
        (rss_eda_bit 32 8 streams 4 positions).b_2
        0
        ((key_word 32 streams 4 0 0 + key_word 32 streams 5 0 0) % 2 ^ 8)
    × InStep (rss_eda_bit 32 8 streams 4 positions).positions
rss_eda_bit_example =
    rss_eda_bit-key_word IsRing-8 IsWidth-32 streams 4 positions {i = 0} (omega arith)
      positions-InStep (omega arith) (omega arith) (omega arith)

rss_eda_bit_trunc_example : Trunc.IsEdaBit 8 3 (rss_eda_bit_trunc 32 8 streams b2a_memory)
rss_eda_bit_trunc_example =
    rss_eda_bit_trunc-IsEdaBit (omega arith) IsRing-10 IsWidth-32 streams b2a_memory 3 (omega arith)
      (omega arith)

new_rss_lt_closed_example :
    IsShared 8
      (Lt.new_rss_lt 32 8 1 streams
        (top_bit_protocol 32 8 streams msb_memory (rss_eda_bit 32 8 streams))
        memory
        positions
        cleared
        (held 10 20 15)
        (held 1 2 3)).c
      0
      (larger 45 6)
    × InStep
        (Lt.new_rss_lt 32 8 1 streams
          (top_bit_protocol 32 8 streams msb_memory (rss_eda_bit 32 8 streams))
          memory
          positions
          cleared
          (held 10 20 15)
          (held 1 2 3)).positions
new_rss_lt_closed_example =
    new_rss_lt-rss_eda_bit (omega arith) IsRing-10 IsWidth-32 1 streams positions positions-InStep
      msb_memory memory cleared (held 10 20 15) (held 1 2 3) (omega arith)
      (record { below = omega arith; above = omega arith }) (held-IsShared 8 0 10 20 15)
      (held-IsShared 8 0 1 2 3)

rss_trunc_pr_1_closed_example :
    (d : ℕ) × (117 / 2 ^ 3 ≤ d)
    × (d ≤ 117 / 2 ^ 3 + 1)
    × IsShared 8
        (rss_trunc_pr_1 32 8 1
          (rss_eda_bit_trunc 32 8 streams b2a_memory)
          positions
          cleared
          (held 80 20 17)
          3).c
        0
        d
    × InStep
        (rss_trunc_pr_1 32 8 1
          (rss_eda_bit_trunc 32 8 streams b2a_memory)
          positions
          cleared
          (held 80 20 17)
          3).positions
rss_trunc_pr_1_closed_example =
    rss_trunc_pr_1-rss_eda_bit_trunc (omega arith) IsRing-10 IsWidth-32 1 streams positions
      positions-InStep b2a_memory cleared (held 80 20 17) (omega arith) (omega arith) (omega arith)
      (omega arith) (held-IsShared 8 0 80 20 17)

abbrev convert_memory : Memory
convert_memory = record {
  rand = rand_memory;
  r_shares = cleared;
  r_2 = cleared;
  a_2 = cleared;
  c = λ pid i. 0;
}

new_rss_convert_example :
    IsShared 16
      (new_rss_convert 32 8 16 1 streams convert_memory positions (held 250 20 9)).c
      0
      (279 % 2 ^ 8)
    × InStep (new_rss_convert 32 8 16 1 streams convert_memory positions (held 250 20 9)).positions
new_rss_convert_example =
    new_rss_convert_lem IsRing-8 (omega arith) IsRing-18 IsWidth-32 1 streams convert_memory
      positions positions-InStep (held 250 20 9) (omega arith) (held-IsShared 8 0 250 20 9)

rss_convert_example :
    IsShared 16
      (rss_convert 32 8 16 1 streams convert_memory positions (held 250 20 9)).c
      0
      (279 % 2 ^ 8)
    × InStep (rss_convert 32 8 16 1 streams convert_memory positions (held 250 20 9)).positions
rss_convert_example =
    rss_convert_lem IsRing-8 (omega arith) IsRing-18 IsWidth-32 1 streams convert_memory positions
      positions-InStep (held 250 20 9) (omega arith) (held-IsShared 8 0 250 20 9) (omega arith)

-- What party 2 gets of 279 * 6, where it could be 1000 * 77.
rss_mult-hides_example :
    (keys : Streams) × ((key_id j : ℕ)
      → key_id < 3
      → keys (key_3pc 2 key_id) j ≡ streams (key_3pc 2 key_id) j)
    × ((i : ℕ)
        → i < 4
        → Cong
            (2 ^ 8)
            ((rss_mult 32 8 4 keys positions cleared (held 250 741 9) (held 1 73 3)).c 2 0 i)
            ((rss_mult 32 8 4 streams positions cleared (held 250 20 9) (held 1 2 3)).c 2 0 i))
    × ((i : ℕ)
        → i < 4
        → Cong
            (2 ^ 8)
            ((rss_mult 32 8 4 keys positions cleared (held 250 741 9) (held 1 73 3)).c 2 1 i)
            ((rss_mult 32 8 4 streams positions cleared (held 250 20 9) (held 1 2 3)).c 2 1 i))
rss_mult-hides_example =
    rss_mult-hides IsRing-8 4 streams positions cleared (held 250 20 9) (held 1 2 3)
      (held 250 741 9) (held 1 73 3) 2 (omega arith) (omega arith) (λ s i. refl) (λ s i. refl)
