-- ===== src/Prg/Container/Blocks.antt =====
-- The chain of blocks that a key stands for, and copies of bytes.
use rss_ring_ppml.Base.{
  ℕ, zero, suc, ◌+◌, ◌-◌, ◌*◌, ◌/◌, ◌%◌, ◌<◌, ◌≤◌, ◌≡◌, ◌∙◌, refl, ap, arith, ltb, lt→ltb, ≥→ltb,
  Bool-cases, inl, inr,
}
use rss_ring_ppml.Word.Memory.{Buffer}
use rss_ring_ppml.Prg.Container.{Cipher, prg_aes, copy_bytes, fill_blocks}

-- A block depends on the 16 bytes of its input only.
pub record IsBlockCipher (aes : Cipher) : Type 0 where
  pub reads_block :
      (x y : Buffer) → ((j : ℕ) → j < 16 → x j ≡ y j) → (j : ℕ) → j < 16 → aes x j ≡ aes y j

-- The blocks that follow on the first.
unfoldable pub block : Cipher → Buffer → ℕ → Buffer
block aes first zero = first
block aes first (suc n) = aes (block aes first n)

-- The bytes of all blocks in order.
unfoldable pub key_stream : Cipher → Buffer → ℕ → ℕ
key_stream aes first t = block aes first (t / 16) (t % 16)

pub key_stream-at :
    (aes : Cipher) (first : Buffer) (t q j : ℕ)
    → j < 16
    → t ≡ 16 * q + j
    → key_stream aes first t ≡ block aes first q j
unfolding key_stream
key_stream-at aes first t q j h e =
    let quotient : t / 16 ≡ q = omega arith in
    let rest : t % 16 ≡ j = omega arith in rw (quotient, rest) refl

pub copy_bytes-below :
    (dest src : Buffer) (at from count j : ℕ)
    → j < at
    → copy_bytes dest at src from count j ≡ dest j
unfolding copy_bytes
copy_bytes-below dest src at from count j h = rw (lt→ltb j at h) refl

pub copy_bytes-inside :
    (dest src : Buffer) (at from count j : ℕ)
    → at ≤ j
    → j < at + count
    → copy_bytes dest at src from count j ≡ src (from + (j - at))
unfolding copy_bytes
copy_bytes-inside dest src at from count j le h = rw (≥→ltb j at le, lt→ltb j (at + count) h) refl

pub copy_bytes-above :
    (dest src : Buffer) (at from count j : ℕ)
    → at + count ≤ j
    → copy_bytes dest at src from count j ≡ dest j
unfolding copy_bytes
copy_bytes-above dest src at from count j h =
    rw (≥→ltb j at (omega arith), ≥→ltb j (at + count) h) refl

copy_bytes-block :
    (dest src : Buffer) (at j x : ℕ) → j < 16 → x ≡ at + j → copy_bytes dest at src 0 16 x ≡ src j
copy_bytes-block dest src at j x h e =
    copy_bytes-inside dest src at 0 16 x (omega arith) (omega arith)
    ∙ ap src {x = 0 + (x - at)} {y = j} (omega arith)

pub prg_aes-IsBlockCipher :
    (rounds : Cipher) → IsBlockCipher rounds → IsBlockCipher (prg_aes rounds)
unfolding prg_aes
prg_aes-IsBlockCipher rounds is_cipher = record {
  reads_block = λ x y e j h. rw (is_cipher.reads_block x y e j h, e j h) refl;
}

module _ (aes : Cipher) (is_cipher : IsBlockCipher aes) (first container dest : Buffer)
    (start q : ℕ) (now : (j : ℕ) → j < 16 → container j ≡ block aes first q j) where
  -- The next block, from any copy of this one.
  pub next-block :
      (x : Buffer) (n : ℕ)
      → ((j : ℕ) → j < 16 → x j ≡ block aes first n j)
      → (j : ℕ) → j < 16
      → aes x j ≡ block aes first (suc n) j
  unfolding block
  next-block x n e = is_cipher.reads_block x (block aes first n) e

  pub fill_blocks-below : (i j : ℕ) → j < start → fill_blocks aes start container dest i j ≡ dest j
  unfolding fill_blocks
  fill_blocks-below zero j h = copy_bytes-below dest _ start 0 16 j h
  fill_blocks-below (suc i) j h =
      copy_bytes-below _ _ (start + 16 * suc i) 0 16 j (omega arith) ∙ fill_blocks-below i j h

  pub fill_blocks-above :
      (i j : ℕ) → start + 16 * suc i ≤ j → fill_blocks aes start container dest i j ≡ dest j
  unfolding fill_blocks
  fill_blocks-above zero j h = copy_bytes-above dest _ start 0 16 j (omega arith)
  fill_blocks-above (suc i) j h =
      copy_bytes-above _ _ (start + 16 * suc i) 0 16 j (omega arith)
      ∙ fill_blocks-above i j (omega arith)

  -- Block `m` of those that are written.
  pub fill_blocks-inside :
      (i m j : ℕ)
      → m ≤ i
      → j < 16
      → fill_blocks aes start container dest i (start + 16 * m + j)
        ≡ block aes first (suc (q + m)) j
  unfolding fill_blocks
  fill_blocks-inside zero m j le h =
      copy_bytes-block dest (aes container) start j (start + 16 * m + j) h (omega arith)
      ∙ next-block container q now j h
      ∙ ap (λ (t : ℕ). block aes first t j) {x = suc q} {y = suc (q + m)} (omega arith)
  fill_blocks-inside (suc i) m j le h = elim (Bool-cases (ltb m (suc i))) [
    | inl e ↦
        copy_bytes-below _ _ (start + 16 * suc i) 0 16 (start + 16 * m + j) (ground arith)
        ∙ fill_blocks-inside i m j (ground arith) h
    | inr e ↦
        let last : m ≡ suc i = ground arith in
        copy_bytes-block _ _ (start + 16 * suc i) j (start + 16 * m + j) h (omega arith)
        ∙ next-block _ (suc (q + i)) (λ j' lt. fill_blocks-inside i i j' (omega arith) lt) j h
        ∙ ap (λ (t : ℕ). block aes first t j) {x = suc (suc (q + i))} {y = suc (q + m)}
            (omega arith)
  ]
