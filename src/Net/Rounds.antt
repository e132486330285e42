-- ===== src/Net/Rounds.antt =====
-- The rounds of a transfer cover the array once.
use native.Mathlib.Nat.{div-add-mod, mod-lt, pow-le-pow_right}
use rss_ring_ppml.Base.{
  ℕ, zero, suc, ◌+◌, ◌-◌, ◌*◌, ◌/◌, ◌%◌, ◌^◌, ◌≤◌, ◌<◌, ltb, ◌&&◌, ◌==◌, if◌then◌else◌, ◌≡◌, ◌∙◌,
  inl, inr, Bool-cases, arith,
}
use rss_ring_ppml.Word.{mask, IsRing}
use rss_ring_ppml.Word.Memory.{Array, unit_size, copy_low, copy_low-small, le-unit_size}
use rss_ring_ppml.Word.Laws.{mask-lt, mask_lem}
use rss_ring_ppml.Base.Bits.{bit, bit-eq_of_mod}
use rss_ring_ppml.Base.Cong.{Cong, Cong_trans, Cong_eq, Cong_refl}
use rss_ring_ppml.Net.{
  Transfer, on_range, chunk_amount, transfer_chunk, transfer_rounds, transfer, message_count,
  get_rounds, World, map_3pc, send_and_get_3pc, wire, transfer_bit, send_and_get_bit_3pc,
}

module _ (keep carry : ℕ → ℕ) (size count : ℕ) where
  rounds_sent :
      (left start : ℕ) (t : Transfer) (i : ℕ)
      → (transfer_rounds keep carry size count left start t).sent i ≡ (
          if ltb i start
          then t.sent i
          else if ltb i size && ltb i (start + left * count)
          then keep (t.sent i)
          else t.sent i)
  unfolding transfer_rounds
  rounds_sent zero start t i = ground arith
  rounds_sent (suc left) start t i =
      rounds_sent left (start + count) (transfer_chunk keep carry size start count t) i
      ∙ unfold transfer_chunk on_range chunk_amount in ground arith

  rounds_received :
      (left start : ℕ) (t : Transfer) (i : ℕ)
      → (transfer_rounds keep carry size count left start t).received i ≡ (
          if ltb i start
          then t.received i
          else if ltb i size && ltb i (start + left * count)
          then carry (keep (t.sent i))
          else t.received i)
  unfolding transfer_rounds
  rounds_received zero start t i = ground arith
  rounds_received (suc left) start t i =
      rounds_received left (start + count) (transfer_chunk keep carry size start count t) i
      ∙ unfold transfer_chunk on_range chunk_amount in ground arith

wire_lem : (w flag : ℕ) → flag ≤ w → (x : ℕ) → wire flag (mask w flag x) ≡ mask w flag x
wire_lem w flag fits x = rw (small, small)
  where
    small : copy_low (unit_size flag) 0 (mask w flag x) ≡ mask w flag x
    small =
        copy_low-small (unit_size flag) (mask w flag x) (
          omega (arith, mask-lt fits x, pow-le-pow_right {n = 2} (omega arith) (le-unit_size flag)))

-- The rounds reach the last element.
rounds_cover : (size count : ℕ) → 0 < size → 0 < count → size ≤ suc (get_rounds size count) * count
unfolding get_rounds
rounds_cover size count h p = elim (Bool-cases (size % count == 0)) [
  | inl e ↦ rw e (ground (arith, one_less (size / count) count, div-add-mod size count))
  | inr e ↦ rw e (omega (arith, div-add-mod size count, mod-lt size p))
]
  where
    one_less : (q c : ℕ) → q * c ≤ suc (q - 1) * c
    one_less zero c = omega arith
    one_less (suc q) c = grind arith

module _ (w peers flag size : ℕ) (data_out data_in : Array)
    (room : 0 < message_count peers flag) where
  -- Every element is sent, masked, in exactly one round; the sender keeps the masked array.
  transfer-sent :
      {i : ℕ}
      → i < size
      → (transfer w peers flag size data_out data_in).sent i ≡ mask w flag (data_out i)
  unfolding transfer
  transfer-sent {i} h =
      let count = message_count peers flag in
      ground (
        arith,
        rounds_cover size count,
        rounds_sent (mask w flag) (wire flag) size count (suc (get_rounds size count)) 0
            (record { sent = data_out; received = data_in }) i,
      )

  -- Where a message holds at least one element and `flag` is at most the width of a word, every
  -- element below `size` arrives in the rounds as the sender masks it, with its `flag` low bits.
  pub transfer-received :
      {i : ℕ}
      → flag ≤ w
      → i < size
      → (transfer w peers flag size data_out data_in).received i ≡ mask w flag (data_out i)
  unfolding transfer
  transfer-received {i} fits h =
      let count = message_count peers flag in
      ground (
        arith,
        rounds_cover size count,
        rounds_received (mask w flag) (wire flag) size count (suc (get_rounds size count)) 0
            (record { sent = data_out; received = data_in }) i,
        wire_lem w flag fits (data_out i),
      )

-- A message holds at least one element of a ring of at most 64 bits, in every setting.
pub message_count-pos :
    (peers flag : ℕ) → peers ≤ 6 → 0 < flag → flag ≤ 64 → 0 < message_count peers flag
unfolding message_count
message_count-pos peers flag h pos k = grind (arith, fits_message)
  where
    fits_message : 8 ≤ 229376 / (peers + 1)
    fits_message = grind arith

-- A call of `SendAndGetDataFromPeer` in 3PC: the data stay, masked, with the sender, and the
-- same values arrive from the next party.
module _ (w flag size : ℕ) (data_out data_in : World Array) (ring : IsRing w flag) where
  send_and_get-sent :
      (pid : ℕ) {i : ℕ}
      → i < size
      → (send_and_get_3pc w flag size data_out data_in pid).sent i ≡ mask w flag (data_out pid i)
  unfolding send_and_get_3pc
  send_and_get-sent pid h =
      transfer-sent w 2 flag size (data_out pid) (data_in (map_3pc pid 0))
        (message_count-pos 2 flag (omega arith) ring.pos (omega arith)) h

  send_and_get-received :
      (pid : ℕ) {i : ℕ}
      → i < size
      → (send_and_get_3pc w flag size data_out data_in pid).received i
        ≡ mask w flag (data_out (map_3pc pid 1) i)
  unfolding send_and_get_3pc
  send_and_get-received pid h =
      transfer-received w 2 flag size (data_out (map_3pc pid 1)) (data_in pid)
        (message_count-pos 2 flag (omega arith) ring.pos (omega arith)) ring.fits h

  pub sent-Cong :
      (pid : ℕ) {i : ℕ}
      → i < size
      → Cong
          (2 ^ flag)
          ((send_and_get_3pc w flag size data_out data_in pid).sent i)
          (data_out pid i)
  sent-Cong pid h =
      Cong_trans (Cong_eq (send_and_get-sent pid h)) (mask_lem ring.fits (Cong_refl _))

  pub received-Cong :
      (pid : ℕ) {i : ℕ}
      → i < size
      → Cong
          (2 ^ flag)
          ((send_and_get_3pc w flag size data_out data_in pid).received i)
          (data_out (map_3pc pid 1) i)
  received-Cong pid h =
      Cong_trans (Cong_eq (send_and_get-received pid h)) (mask_lem ring.fits (Cong_refl _))

  -- The same for the bits of the ring.
  pub sent-bit :
      (pid : ℕ) {i : ℕ} (j : ℕ)
      → i < size
      → j < flag
      → bit ((send_and_get_3pc w flag size data_out data_in pid).sent i) j ≡ bit (data_out pid i) j
  sent-bit pid j h lt = bit-eq_of_mod flag _ _ j lt (sent-Cong pid h).same

  pub received-bit :
      (pid : ℕ) {i : ℕ} (j : ℕ)
      → i < size
      → j < flag
      → bit ((send_and_get_3pc w flag size data_out data_in pid).received i) j
        ≡ bit (data_out (map_3pc pid 1) i) j
  received-bit pid j h lt = bit-eq_of_mod flag _ _ j lt (received-Cong pid h).same

-- Bytes arrive as they are.
module _ (size : ℕ) (data_out data_in : World Array) where
  pub send_and_get_bit-sent :
      (pid : ℕ) {i : ℕ}
      → i < size
      → (send_and_get_bit_3pc size data_out data_in pid).sent i ≡ data_out pid i
  unfolding send_and_get_bit_3pc transfer_bit
  send_and_get_bit-sent pid {i} h = ground (
    arith,
    rounds_sent (λ x. x) (λ x. x) size 76458 (suc (get_rounds size 76458)) 0
        (record { sent = data_out pid; received = data_in (map_3pc pid 0) }) i,
  )

  pub send_and_get_bit-received :
      (pid : ℕ) {i : ℕ}
      → i < size
      → (send_and_get_bit_3pc size data_out data_in pid).received i ≡ data_out (map_3pc pid 1) i
  unfolding send_and_get_bit_3pc transfer_bit
  send_and_get_bit-received pid {i} h = ground (
    arith,
    rounds_cover size 76458,
    rounds_received (λ x. x) (λ x. x) size 76458 (suc (get_rounds size 76458)) 0
        (record { sent = data_out (map_3pc pid 1); received = data_in pid }) i,
  )
