-- ===== src/Open.antt =====
-- src/protocols_basic/Open.cpp: the parties learn a shared value.
pub mod Correct
pub mod Bitwise
use rss_ring_ppml.Base.{ℕ, ◌==◌, if◌then◌else◌, bit_xor}
use rss_ring_ppml.Word.{add, mask}
use rss_ring_ppml.Word.Memory.{Array, for_each}
use rss_ring_ppml.Net.{World, Transfer, send_and_get_3pc, send_and_get_bit_3pc}
use rss_ring_ppml.Share.{Shares}

-- What a call leaves behind: the opened values, and the shares `a`, of which the one that is
-- sent gets masked.
pub record Opened : Type 0 where
  pub res : World Array
  pub a : World Shares

-- `a[1]` is the array that the send masks in place.
keep_sent : World Transfer → World Shares → World Shares
keep_sent got a pid s = if s == 1 then (got pid).sent else a pid s

-- `Rss_Open(res, a, size, ring_size, nodeNet)` with `w` bits in a `Lint`.
unfoldable pub rss_open : ℕ → ℕ → ℕ → World Array → World Shares → Opened
unfolding keep_sent
rss_open w ring_size size res a =
    let got = send_and_get_3pc w ring_size size (λ pid. a pid 1) res in
    record {
      res = λ pid.
          for_each size
            (λ i.
              mask w ring_size
                (add w (add w (a pid 0 i) ((got pid).sent i)) ((got pid).received i)))
            (got pid).received;
      a = keep_sent got a;
    }

-- `Rss_Open_Bitwise`.
unfoldable pub rss_open_bitwise : ℕ → ℕ → ℕ → World Array → World Shares → Opened
unfolding keep_sent
rss_open_bitwise w ring_size size res a =
    let got = send_and_get_3pc w ring_size size (λ pid. a pid 1) res in
    record {
      res = λ pid.
          for_each size
            (λ i.
              mask w ring_size
                (bit_xor (bit_xor (a pid 0 i) ((got pid).sent i)) ((got pid).received i)))
            (got pid).received;
      a = keep_sent got a;
    }

-- `Rss_Open_Byte`: the arrays hold bytes, and no bit of them is masked.
unfoldable pub rss_open_byte : ℕ → World Array → World Shares → Opened
unfolding keep_sent
rss_open_byte size res a =
    let got = send_and_get_bit_3pc size (λ pid. a pid 1) res in
    record {
      res = λ pid.
          for_each size
            (λ i. bit_xor (bit_xor (a pid 0 i) ((got pid).sent i)) ((got pid).received i))
            (got pid).received;
      a = keep_sent got a;
    }
