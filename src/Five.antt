-- ===== src/Five.antt =====
-- src/connection/NodeNetwork.cpp, src/protocols_basic/Open_5pc.cpp and the local products of
-- src/protocols_basic/Mult_5pc.cpp: five parties. A value is the sum of ten parts, one for each
-- pair of parties that do not hold it, and a party holds six.
pub mod Sharing
pub mod Open
pub mod Bitwise
pub mod Product
use rss_ring_ppml.Base.{ℕ, ◌+◌, ◌-◌, ◌%◌, ◌==◌, if◌then◌else◌, bit_xor}
use rss_ring_ppml.Word.{add, mul, mask}
use rss_ring_ppml.Word.Memory.{Array, zeros, for_each}
use rss_ring_ppml.Net.{World, transfer}
use rss_ring_ppml.Share.{Shares}

-- The party `n` places after `pid`.
abbrev pub after : ℕ → ℕ → ℕ
after n pid = (pid + n - 1) % 5 + 1

-- `open_map_5pc[0]`: whom to send to; `open_map_5pc[1]`: whom to receive from.
unfoldable pub open_map_5pc : ℕ → ℕ → ℕ → ℕ
open_map_5pc pid direction i =
    if direction == 0
    then (if i == 0 then after 1 pid else after 4 pid)
    else if i == 0
    then after 4 pid
    else after 1 pid

-- `T_map_5pc[s]`: the two parties that do not hold share `s` of party `pid`.
unfoldable pub t_map_5pc : ℕ → ℕ → ℕ → ℕ
t_map_5pc pid s j =
    if s == 0
    then (if j == 0 then after 1 pid else after 2 pid)
    else if s == 1
    then (if j == 0 then after 1 pid else after 3 pid)
    else if s == 2
    then (if j == 0 then after 1 pid else after 4 pid)
    else if s == 3
    then (if j == 0 then after 2 pid else after 3 pid)
    else if s == 4
    then (if j == 0 then after 2 pid else after 4 pid)
    else if j == 0
    then after 3 pid
    else after 4 pid

-- `SendAndGetDataFromPeer_Open(SendData, RecvData, size, flag)` of five parties, with threshold 2:
-- array `i` goes to one neighbor, and array `i` of the other one comes in.
unfoldable pub send_and_get_open_5pc :
    ℕ → ℕ → ℕ → World (ℕ → Array) → World (ℕ → Array) → World (ℕ → Array)
unfolding open_map_5pc
send_and_get_open_5pc w flag size data_out data_in pid i =
    (transfer w 4 flag size (data_out (open_map_5pc pid 1 i) i) (data_in pid i)).received

-- `Rss_Open_mp(res, a, size, ring_size, nodeNet)`.
unfoldable pub rss_open_mp : ℕ → ℕ → ℕ → World Array → World Shares → World Array
unfolding send_and_get_open_5pc
rss_open_mp w ring_size size res a =
    let sendbuf : World (ℕ → Array) = λ pid j.
      if j == 0
      then for_each size (λ i. add w (a pid 0 i) (a pid 1 i)) zeros
      else for_each size (λ i. add w (a pid 4 i) (a pid 5 i)) zeros in
    let recvbuf = send_and_get_open_5pc w ring_size size sendbuf (λ pid j. zeros) in
    λ pid.
      for_each size
        (λ i. mask w ring_size (
          add w
            (add w
              (add w
                (add w (add w (add w (add w (a pid 0 i) (a pid 1 i)) (a pid 2 i)) (a pid 3 i))
                  (a pid 4 i))
                (a pid 5 i))
              (recvbuf pid 0 i))
            (recvbuf pid 1 i)))
        (res pid)

-- `Rss_Open_Bitwise_mp(res, a, size, ring_size, nodeNet)`.
unfoldable pub rss_open_bitwise_mp : ℕ → ℕ → ℕ → World Array → World Shares → World Array
unfolding send_and_get_open_5pc
rss_open_bitwise_mp w ring_size size res a =
    let sendbuf : World (ℕ → Array) = λ pid j.
      if j == 0
      then for_each size (λ i. bit_xor (a pid 0 i) (a pid 1 i)) zeros
      else for_each size (λ i. bit_xor (a pid 4 i) (a pid 5 i)) zeros in
    let recvbuf = send_and_get_open_5pc w ring_size size sendbuf (λ pid j. zeros) in
    λ pid.
      for_each size
        (λ i. mask w ring_size (
          bit_xor
            (bit_xor
              (bit_xor
                (bit_xor
                  (bit_xor (bit_xor (bit_xor (a pid 0 i) (a pid 1 i)) (a pid 2 i)) (a pid 3 i))
                  (a pid 4 i))
                (a pid 5 i))
              (recvbuf pid 0 i))
            (recvbuf pid 1 i)))
        (res pid)

-- `v[i]` of `Rss_Mult_mp` before the masks, with the element `j` of `b`.
unfoldable pub local_product_mp : ℕ → (ℕ → Array) → (ℕ → Array) → ℕ → ℕ → ℕ
local_product_mp w a b i j =
    let all =
      add w (add w (add w (add w (add w (b 0 j) (b 1 j)) (b 2 j)) (b 3 j)) (b 4 j)) (b 5 j) in
    add w
      (add w
        (add w
          (add w (add w (mul w (a 0 i) all) (mul w (a 1 i) all))
            (mul w (a 2 i) (add w (b 1 j) (b 3 j))))
          (mul w (a 3 i) (add w (b 0 j) (b 2 j))))
        (mul w (a 4 i) (add w (b 0 j) (b 1 j))))
      (mul w (a 5 i) (add w (b 0 j) (b 4 j)))
