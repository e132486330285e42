-- ===== src/Prg/Container/Refines.antt =====
-- `prg_getrandom` hands out the next bytes of the stream of its key.
use native.Mathlib.Nat.{mod-eq_of_lt, add-mod_right}
use rss_ring_ppml.Base.{
  ℕ, suc, ◌+◌, ◌-◌, ◌*◌, ◌/◌, ◌%◌, ◌^◌, ◌<◌, ◌≤◌, ◌≡◌, ◌∙◌, sym, ap, arith, ltb, Bool-cases, inl,
  inr,
}
use rss_ring_ppml.Word.Memory.{Buffer}
use rss_ring_ppml.Prg.Container.{
  Cipher, Container, copy_bytes, container_rounds, fill_blocks, one_block, many_blocks,
}
use rss_ring_ppml.Prg.Container.Blocks.{
  IsBlockCipher, block, key_stream, key_stream-at, copy_bytes-below, copy_bytes-inside,
  copy_bytes-above, next-block, fill_blocks-below, fill_blocks-above, fill_blocks-inside,
}

-- The container holds block `q`, of which `p_container` bytes are used up.
pub record HoldsBlock (aes : Cipher) (first : Buffer) (q : ℕ) (st : Container) : Type 0 where
  pub holds : (j : ℕ) → j < 16 → st.random_container j ≡ block aes first q j
  pub used : st.p_container ≤ 16

pub rounds-eq :
    (n p : ℕ) → 0 < n + p → p ≤ 16 → n + 32 < 2 ^ 32 → container_rounds n p ≡ (n + p - 1) / 16
unfolding container_rounds
rounds-eq n p pos small fits =
    ap (λ (t : ℕ). t / 16)
      (ap (λ (t : ℕ). t % 2 ^ 32) {x = n + (2 ^ 32 - 16) + p + 15} {y = n + p - 1 + 2 ^ 32}
          (omega arith)
        ∙ add-mod_right (n + p - 1) (2 ^ 32)
        ∙ mod-eq_of_lt (omega arith))

-- What a call that takes `n` bytes leaves: the place in the stream has moved on by `n`, the
-- bytes are in `dest`, and what is behind them has not changed.
pub record Handed (aes : Cipher) (first : Buffer) (q n : ℕ) (st out : Container) : Type 0 where
  pub at_block : ℕ
  pub next_block : HoldsBlock aes first at_block out
  pub moved : 16 * at_block + out.p_container ≡ 16 * q + st.p_container + n
  pub bytes : (j : ℕ) → j < n → out.dest j ≡ key_stream aes first (16 * q + st.p_container + j)
  pub rest : (j : ℕ) → n ≤ j → out.dest j ≡ st.dest j

module _ (aes : Cipher) (is_cipher : IsBlockCipher aes) (first : Buffer) (q n : ℕ) (st : Container)
    (now : HoldsBlock aes first q st) where
  abbrev start : ℕ
  start = 16 - st.p_container

  abbrev copied : Buffer
  copied = copy_bytes st.dest 0 st.random_container st.p_container start

  copied_lem : (j : ℕ) → j < start → copied j ≡ key_stream aes first (16 * q + st.p_container + j)
  copied_lem j h =
      copy_bytes-inside st.dest st.random_container 0 st.p_container start j (omega arith)
        (omega arith)
      ∙ now.holds (st.p_container + (j - 0)) (omega arith)
      ∙ sym (key_stream-at aes first _ q (st.p_container + (j - 0)) (omega arith) (omega arith))

  next_lem :
      (x : Buffer) (m : ℕ)
      → ((j : ℕ) → j < 16 → x j ≡ block aes first m j)
      → (j : ℕ) → j < 16
      → aes x j ≡ block aes first (suc m) j
  next_lem = next-block aes is_cipher first st.random_container copied start q now.holds

  pub one_block_lem :
      16 < n + st.p_container
      → n + st.p_container ≤ 32
      → Handed aes first q n st (one_block aes n st)
  unfolding one_block
  one_block_lem more le = record {
    at_block = suc q;
    next_block = record { holds = next_lem st.random_container q now.holds; used = omega arith };
    moved = omega (arith, now.used);
    bytes = λ j h. elim (Bool-cases (ltb j start)) [
      | inl e ↦ copy_bytes-below copied _ start 0 _ j (ground arith) ∙ copied_lem j (ground arith)
      | inr e ↦
          copy_bytes-inside copied (aes st.random_container) start 0 _ j (ground arith)
            (ground (arith, now.used))
          ∙ next_lem st.random_container q now.holds (0 + (j - start)) (ground arith)
          ∙ sym (
              key_stream-at aes first _ (suc q) (0 + (j - start)) (ground arith)
                (ground (arith, now.used)))
    ];
    rest = λ j h.
        copy_bytes-above copied _ start 0 _ j (omega (arith, now.used))
        ∙ copy_bytes-above st.dest _ 0 _ start j (omega arith);
  }

  -- Two rounds or more: `k + 1` blocks go straight into `dest`, and one into the container.
  module _ (r : ℕ) (two : 2 ≤ r) (more : 16 * r < n + st.p_container)
      (le : n + st.p_container ≤ 16 * r + 16) where
    abbrev k : ℕ
    k = r - 2

    abbrev filled : Buffer
    filled = fill_blocks aes start st.random_container copied k

    filled-block :
        (m j : ℕ) → m ≤ k → j < 16 → filled (start + 16 * m + j) ≡ block aes first (suc (q + m)) j
    filled-block m j =
        fill_blocks-inside aes is_cipher first st.random_container copied start q now.holds k m j

    last_block :
        (j : ℕ)
        → j < 16
        → aes (λ t. filled (start + 16 * k + t)) j ≡ block aes first (suc (suc (q + k))) j
    last_block = next_lem _ (suc (q + k)) (λ j lt. filled-block k j (omega arith) lt)

    filled_bytes :
        (j : ℕ)
        → start ≤ j
        → j < start + 16 * (r - 1)
        → filled j ≡ key_stream aes first (16 * q + st.p_container + j)
    filled_bytes j from lt =
        ap filled {x = j} {y = start + 16 * ((j - start) / 16) + (j - start) % 16} (omega arith)
        ∙ filled-block ((j - start) / 16) ((j - start) % 16) (omega arith) (omega arith)
        ∙ sym (
            key_stream-at aes first _ (suc (q + (j - start) / 16)) ((j - start) % 16) (omega arith)
              (omega (arith, now.used)))

    pub many_blocks_lem : Handed aes first q n st (many_blocks aes n r st)
    unfolding many_blocks
    many_blocks_lem = record {
      at_block = suc (suc (q + k));
      next_block = record { holds = last_block; used = omega arith };
      moved = omega (arith, now.used);
      bytes = λ j h. elim (Bool-cases (ltb j (start + 16 * (r - 1)))) [
        | inl e ↦
            copy_bytes-below filled _ (start + 16 * (r - 1)) 0 _ j (ground arith)
            ∙ written j (ground arith)
        | inr e ↦
            copy_bytes-inside filled _ (start + 16 * (r - 1)) 0 _ j (ground arith)
              (ground (arith, now.used))
            ∙ last_block (0 + (j - (start + 16 * (r - 1)))) (ground arith)
            ∙ sym (
                key_stream-at aes first _ (suc (suc (q + k))) (0 + (j - (start + 16 * (r - 1))))
                  (ground arith) (ground (arith, now.used)))
      ];
      rest = λ j h.
          copy_bytes-above filled _ (start + 16 * (r - 1)) 0 _ j (omega (arith, now.used))
          ∙ fill_blocks-above aes is_cipher first st.random_container copied start q now.holds k j
              (omega (arith, now.used))
          ∙ copy_bytes-above st.dest _ 0 _ start j (omega arith);
    }
      where
        written :
            (j : ℕ)
            → j < start + 16 * (r - 1)
            → filled j ≡ key_stream aes first (16 * q + st.p_container + j)
        written j lt = elim (Bool-cases (ltb j start)) [
          | inl e ↦
              fill_blocks-below aes is_cipher first st.random_container copied start q now.holds k j
                (ground arith)
              ∙ copied_lem j (ground arith)
          | inr e ↦ filled_bytes j (ground arith) lt
        ]
