-- ===== src/Checks/Basic.antt =====
-- Inputs for the protocols that open and multiply.
use rss_ring_ppml.Base.{◌+◌, ◌⊎◌, ◌*◌, ◌%◌, ◌^◌, ◌≡◌, refl, arith, bit_and}
use rss_ring_ppml.Word.{IsRing, mask}
use rss_ring_ppml.Net.{transfer, message_count}
use rss_ring_ppml.Net.Rounds.{transfer-received}
use rss_ring_ppml.Prg.Sync.{InStep}
use rss_ring_ppml.Share.{IsShared, IsXorShared}
use rss_ring_ppml.Open.{rss_open}
use rss_ring_ppml.Open.Correct.{rss_open_lem}
use rss_ring_ppml.Mult.{rss_mult, rss_mult_bitwise, rss_mult_pub}
use rss_ring_ppml.Mult.Correct.{rss_mult_lem}
use rss_ring_ppml.Mult.Bitwise.{rss_mult_bitwise_lem}
use rss_ring_ppml.Mult.Public.{rss_mult_pub_lem}
use rss_ring_ppml.RandBit.{Memory, rss_sqrt_inv, rss_rand_bit}
use rss_ring_ppml.RandBit.Correct.{rss_rand_bit_lem}
use rss_ring_ppml.RandBit.Sqrt.{IsInverseRoot, rss_sqrt_inv_lem}
use rss_ring_ppml.Checks.{
  IsRing-8, streams, positions, positions-InStep, held, held-IsShared, held-IsXorShared, cleared,
}

-- Twelve bits of an element of 16, in an array that takes several messages.
transfer_example : (transfer 32 2 12 100000 (λ i. 65535) (λ i. 0)).received 99999 ≡ mask 32 12 65535
unfolding message_count
transfer_example =
    transfer-received 32 2 12 100000 (λ i. 65535) (λ i. 0) (omega arith) (omega arith) (omega arith)

rss_open_example :
    ((rss_open 32 8 1 (λ pid i. 0) (held 250 20 9)).res 1 0 ≡ 279 % 2 ^ 8)
    × ((rss_open 32 8 1 (λ pid i. 0) (held 250 20 9)).res 2 0 ≡ 279 % 2 ^ 8)
    × ((rss_open 32 8 1 (λ pid i. 0) (held 250 20 9)).res 3 0 ≡ 279 % 2 ^ 8)
    × IsShared 8 (rss_open 32 8 1 (λ pid i. 0) (held 250 20 9)).a 0 279
rss_open_example =
    rss_open_lem IsRing-8 1 (λ pid i. 0) (held 250 20 9) (omega arith) (held-IsShared 8 0 250 20 9)

rss_mult_example :
    IsShared 8
      (rss_mult 32 8 1 streams positions cleared (held 250 20 9) (held 1 2 3)).c
      0
      (279 * 6)
    × InStep (rss_mult 32 8 1 streams positions cleared (held 250 20 9) (held 1 2 3)).positions
rss_mult_example =
    rss_mult_lem IsRing-8 1 streams positions positions-InStep cleared (held 250 20 9) (held 1 2 3)
      (omega arith) (held-IsShared 8 0 250 20 9) (held-IsShared 8 0 1 2 3)

rss_mult_bitwise_example :
    IsXorShared 8
      (rss_mult_bitwise 32 8 1 streams positions cleared (held 0 77 0) (held 0 15 0)).c
      0
      (bit_and 77 15)
    × InStep
        (rss_mult_bitwise 32 8 1 streams positions cleared (held 0 77 0) (held 0 15 0)).positions
rss_mult_bitwise_example =
    rss_mult_bitwise_lem IsRing-8 1 streams positions positions-InStep cleared (held 0 77 0)
      (held 0 15 0) (omega arith) (held-IsXorShared 8 0 77) (held-IsXorShared 8 0 15)

rss_mult_pub_example :
    ((rss_mult_pub 32 8 1 streams positions
          (λ pid i. 0)
          (λ pid i. 0)
          (held 250 20 9)
          (held 1 2 3)).c
        1 0
      ≡ 279 * 6 % 2 ^ 8)
    × ((rss_mult_pub 32 8 1 streams positions
            (λ pid i. 0)
            (λ pid i. 0)
            (held 250 20 9)
            (held 1 2 3)).c
          2 0
        ≡ 279 * 6 % 2 ^ 8)
    × ((rss_mult_pub 32 8 1 streams positions
            (λ pid i. 0)
            (λ pid i. 0)
            (held 250 20 9)
            (held 1 2 3)).c
          3 0
        ≡ 279 * 6 % 2 ^ 8)
    × InStep
        (rss_mult_pub 32 8 1 streams positions
          (λ pid i. 0)
          (λ pid i. 0)
          (held 250 20 9)
          (held 1 2 3)).positions
rss_mult_pub_example =
    rss_mult_pub_lem IsRing-8 1 streams positions positions-InStep (λ pid i. 0) (λ pid i. 0)
      (held 250 20 9) (held 1 2 3) (omega arith) (held-IsShared 8 0 250 20 9)
      (held-IsShared 8 0 1 2 3)

rss_sqrt_inv_example : IsInverseRoot 10 25 (rss_sqrt_inv 32 10 25)
rss_sqrt_inv_example =
    rss_sqrt_inv_lem {w = 32} 10 25 (omega arith) (omega arith) (record { same = refl })

pub IsRing-10 : IsRing 32 (8 + 2)
IsRing-10 = record { pos = omega arith; fits = omega arith; narrow = omega arith }

abbrev pub rand_memory : Memory
rand_memory = record { u = cleared; e = λ pid i. 77; v_a = λ pid i. 88 }

rss_rand_bit_example :
    ((IsShared 8 (rss_rand_bit 32 8 1 streams positions rand_memory cleared).b 0 0)
      ⊎ (IsShared 8 (rss_rand_bit 32 8 1 streams positions rand_memory cleared).b 0 1))
    × InStep (rss_rand_bit 32 8 1 streams positions rand_memory cleared).positions
rss_rand_bit_example =
    rss_rand_bit_lem (omega arith) IsRing-10 1 streams positions positions-InStep rand_memory
      cleared (omega arith)
