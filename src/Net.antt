-- ===== src/Net.antt =====
-- src/connection/NodeNetwork.cpp: who talks to whom, and the rounds in which an array of
-- `Lint` travels. The sockets, the AES of the channels and the counters of bytes are left out:
-- a message arrives as it was sent. The parties run one protocol in step, so that a call that
-- sends and receives is a function of what all parties hold before it.
pub mod Maps
pub mod Rounds
use rss_ring_ppml.Base.{ℕ, zero, suc, ◌+◌, ◌-◌, ◌*◌, ◌/◌, ◌%◌, ltb, ◌==◌, if◌then◌else◌}
use rss_ring_ppml.Word.{mask}
use rss_ring_ppml.Word.Memory.{Array, unit_size, copy_low}

-- A value for each party, by its ID (from 1).
abbrev pub World {ℓ} : Type ℓ → Type ℓ
World A = ℕ → A

-- The constructor's tables. 3PC: send to `map_3pc pid 0`, receive from `map_3pc pid 1`.
unfoldable pub map_3pc : ℕ → ℕ → ℕ
map_3pc pid i = if i == 0 then (pid + 2 - 1) % 3 + 1 else (pid + 1 - 1) % 3 + 1

abbrev pub max_buffer_size : ℕ
max_buffer_size = 229376

-- The elements of one message, for `peers + 1` parties.
unfoldable pub message_count : ℕ → ℕ → ℕ
message_count peers flag = max_buffer_size / (peers + 1) / unit_size flag

-- The last value of the loop variable `k`, from 0.
unfoldable pub get_rounds : ℕ → ℕ → ℕ
get_rounds size count = if size % count == 0 then size / count - 1 else size / count

-- What one direction of a channel leaves behind: the sender's array, masked in place, and the
-- receiver's array.
pub record Transfer : Type 0 where
  pub sent : Array
  pub received : Array

on_range : ℕ → ℕ → (ℕ → ℕ) → Array → Array
on_range start amount f x i =
    if ltb i start then x i else if ltb i (start + amount) then f i else x i

-- The amount of a round, the same expression in `sendDataToPeer` and in `getDataFromPeer`.
chunk_amount : ℕ → ℕ → ℕ → ℕ
chunk_amount size start amount = if ltb size (start + amount) then size - start else amount

module _ (keep wire : ℕ → ℕ) where
  -- One `sendDataToPeer` at the sender and the `getDataFromPeer` for it at the receiver, from
  -- the element `start` on. `keep` is what the send leaves in the array, and `wire` turns that
  -- into the element that arrives.
  pub transfer_chunk : ℕ → ℕ → ℕ → Transfer → Transfer
  unfolding on_range chunk_amount
  transfer_chunk size start amount t =
      let n = chunk_amount size start amount in
      record {
        sent = on_range start n (λ i. keep (t.sent i)) t.sent;
        received = on_range start n (λ i. wire (keep (t.sent i))) t.received;
      }

  -- The loop over the rounds, from the element `start` on.
  transfer_rounds : ℕ → ℕ → ℕ → ℕ → Transfer → Transfer
  transfer_rounds size count zero start t = t
  transfer_rounds size count (suc left) start t =
      transfer_rounds size count left (start + count) (transfer_chunk size start count t)

-- The sender writes the low bytes of a word into a cleared message, the receiver reads them
-- into a cleared word.
abbrev pub wire : ℕ → ℕ → ℕ
wire flag x = copy_low (unit_size flag) 0 (copy_low (unit_size flag) 0 x)

-- One direction of `SendAndGetDataFromPeer`: the send masks the array in place.
unfoldable pub transfer : ℕ → ℕ → ℕ → ℕ → Array → Array → Transfer
unfolding transfer_rounds
transfer w peers flag size data_out data_in =
    let count = message_count peers flag in
    transfer_rounds (mask w flag) (wire flag) size count (suc (get_rounds size count)) 0
      (record { sent = data_out; received = data_in })

-- One direction of `SendAndGetDataFromPeer_bit`: bytes, as they are.
unfoldable pub transfer_bit : ℕ → ℕ → Array → Array → Transfer
unfolding transfer_rounds
transfer_bit peers size data_out data_in =
    let count = max_buffer_size / (peers + 1) in
    transfer_rounds (λ x. x) (λ x. x) size count (suc (get_rounds size count)) 0
      (record { sent = data_out; received = data_in })

-- `SendAndGetDataFromPeer(SendData, RecvData, size, flag)` of 3PC at every party.
unfoldable pub send_and_get_3pc : ℕ → ℕ → ℕ → World Array → World Array → World Transfer
send_and_get_3pc w flag size data_out data_in pid = record {
  sent = (transfer w 2 flag size (data_out pid) (data_in (map_3pc pid 0))).sent;
  received = (transfer w 2 flag size (data_out (map_3pc pid 1)) (data_in pid)).received;
}

-- `SendAndGetDataFromPeer_bit(SendData, RecvData, size)`.
unfoldable pub send_and_get_bit_3pc : ℕ → World Array → World Array → World Transfer
send_and_get_bit_3pc size data_out data_in pid = record {
  sent = (transfer_bit 2 size (data_out pid) (data_in (map_3pc pid 0))).sent;
  received = (transfer_bit 2 size (data_out (map_3pc pid 1)) (data_in pid)).received;
}

-- `multicastToPeers(data, buffers, size, flag)`: `data[j - 1]` goes to every other party `j`, and
-- `buffers[j - 1]` takes what `j` sent. The masking of `data` is not kept: the callers pass
-- copies that they drop.
unfoldable pub multicast_3pc : ℕ → ℕ → ℕ → World (ℕ → Array) → World (ℕ → Array) → World (ℕ → Array)
multicast_3pc w flag size data_out buffers pid j =
    if pid == j + 1
    then buffers pid j
    else (transfer w 2 flag size (data_out (j + 1) (pid - 1)) (buffers pid j)).received
