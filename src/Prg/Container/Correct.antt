-- ===== src/Prg/Container/Correct.antt =====
-- All branches of `prg_getrandom`.
use rss_ring_ppml.Base.{
  ℕ, ◌+◌, ◌-◌, ◌^◌, ◌<◌, ◌≤◌, ◌∙◌, sym, arith, ltb, ◌==◌, Bool-cases, inl, inr,
}
use rss_ring_ppml.Word.Memory.{Buffer}
use rss_ring_ppml.Prg.Container.{
  Cipher, Container, copy_bytes, prg_aes, container_rounds, prg_getrandom,
}
use rss_ring_ppml.Prg.Container.Blocks.{
  IsBlockCipher, key_stream-at, copy_bytes-inside, copy_bytes-above, prg_aes-IsBlockCipher,
}
use rss_ring_ppml.Prg.Container.Refines.{
  HoldsBlock, Handed, rounds-eq, one_block_lem, many_blocks_lem,
}

module _ (aes : Cipher) (is_cipher : IsBlockCipher aes) (first : Buffer) (q n : ℕ) (st : Container)
    (now : HoldsBlock aes first q st) where
  no_block_lem :
      n + st.p_container ≤ 16
      → Handed aes first q n st (record {
        random_container = st.random_container;
        p_container = st.p_container + n;
        dest = copy_bytes st.dest 0 st.random_container st.p_container n;
      })
  no_block_lem le = record {
    at_block = q;
    next_block = record { holds = now.holds; used = omega arith };
    moved = omega arith;
    bytes = λ j h.
        copy_bytes-inside st.dest _ 0 _ n j (omega arith) (omega arith)
        ∙ now.holds (st.p_container + (j - 0)) (omega arith)
        ∙ sym (key_stream-at aes first _ q (st.p_container + (j - 0)) (omega arith) (omega arith));
    rest = λ j h. copy_bytes-above st.dest _ 0 _ n j (omega arith);
  }

  handed_lem :
      0 < n + st.p_container → n + 32 < 2 ^ 32 → Handed aes first q n st (prg_getrandom aes n st)
  unfolding prg_getrandom
  handed_lem pos fits =
      let rounds = rounds-eq n st.p_container pos now.used fits in
      elim (Bool-cases (container_rounds n st.p_container == 0)) [
        | inl e ↦ rw e (no_block_lem (ground (arith, rounds)))
        | inr e ↦ elim (Bool-cases (ltb (container_rounds n st.p_container) 2)) [
          | inl f ↦
              rw (e, f)
                (one_block_lem aes is_cipher first q n st now (ground (arith, rounds))
                  (ground (arith, rounds)))
          | inr f ↦
              rw (e, f)
                (many_blocks_lem aes is_cipher first q n st now (container_rounds n st.p_container)
                  (ground (arith, rounds)) (ground (arith, rounds)) (ground (arith, rounds)))
        ]
      ]

-- For a processor whose rounds of AES depend on the 16 bytes of a block only, a container that
-- holds block `q` of the chain that starts with `first`, at most 16 bytes of it used up, and a
-- number `n` of bytes below 2^31 - 32 that is above 0 unless bytes are used up: `prg_getrandom`
-- writes to `dest` the next `n` bytes of the chain and nothing behind them, and leaves a container
-- that holds a block of the chain, with `n` more bytes used up.
pub prg_getrandom_lem :
    (rounds : Cipher) (first : Buffer) (q n : ℕ) (st : Container)
    → IsBlockCipher rounds
    → HoldsBlock (prg_aes rounds) first q st
    → 0 < n + st.p_container
    → n + 32 < 2 ^ 31
    → Handed (prg_aes rounds) first q n st (prg_getrandom (prg_aes rounds) n st)
prg_getrandom_lem rounds first q n st is_cipher now pos fits =
    handed_lem (prg_aes rounds) (prg_aes-IsBlockCipher rounds is_cipher) first q n st now pos
      (omega (arith, fits))
