-- ===== src/Prg/Container.antt =====
-- src/connection/NodeNetwork.cpp: `prg_getrandom` for one key, with its container of 16 bytes. The
-- rounds of AES are a parameter.
pub mod Blocks
pub mod Refines
pub mod Correct
use rss_ring_ppml.Base.{
  ℕ, zero, suc, bit_xor, ◌+◌, ◌-◌, ◌*◌, ◌/◌, ◌%◌, ◌^◌, ltb, ◌==◌, if◌then◌else◌,
}
use rss_ring_ppml.Word.Memory.{Buffer}

-- From the 16 bytes of a block to those of another.
abbrev pub Cipher : Type 0
Cipher = Buffer → Buffer

-- `prg_aes(dest, src, prg_key[keyID])`, where `rounds` is what the instructions of the processor
-- make of a block with the key.
unfoldable pub prg_aes : Cipher → Cipher
prg_aes rounds src j = bit_xor (rounds src j) (src j)

-- `random_container[keyID]`, `P_container[keyID]` and the bytes that `dest` points to.
pub record Container : Type 0 where
  pub random_container : Buffer
  pub p_container : ℕ
  pub dest : Buffer

-- `memcpy(dest + at, src + from, count)`.
unfoldable pub copy_bytes : Buffer → ℕ → Buffer → ℕ → ℕ → Buffer
copy_bytes dest at src from count j =
    if ltb j at then dest j else if ltb j (at + count) then src (from + (j - at)) else dest j

-- `(n - container_size + P) + 15) >> 4` in 32 bits without sign.
unfoldable pub container_rounds : ℕ → ℕ → ℕ
container_rounds n p = (n + (2 ^ 32 - 16) + p + 15) % 2 ^ 32 / 16

-- The calls of `prg_aes` that fill `dest` from `start` on: the first, and `i` of the loop. The
-- source's offset `i << 4` is an `int`: below 2^31, as here where `dest` has fewer bytes than that.
unfoldable pub fill_blocks : Cipher → ℕ → Buffer → Buffer → ℕ → Buffer
fill_blocks aes start container dest zero = copy_bytes dest start (aes container) 0 16
fill_blocks aes start container dest (suc i) =
    let filled = fill_blocks aes start container dest i in
    copy_bytes filled (start + 16 * suc i) (aes (λ j. filled (start + 16 * i + j))) 0 16

-- The branch `rounds >= 2`.
unfoldable pub many_blocks : Cipher → ℕ → ℕ → Container → Container
many_blocks aes n rounds st =
    let start = 16 - st.p_container in
    let copied = copy_bytes st.dest 0 st.random_container st.p_container start in
    let filled = fill_blocks aes start st.random_container copied (rounds - 2) in
    let last = aes (λ j. filled (start + 16 * (rounds - 2) + j)) in
    let left = n + st.p_container - 16 - 16 * (rounds - 1) in
    record {
      random_container = last;
      p_container = left;
      dest = copy_bytes filled (start + 16 * (rounds - 1)) last 0 left;
    }

-- The branch for one round.
unfoldable pub one_block : Cipher → ℕ → Container → Container
one_block aes n st =
    let start = 16 - st.p_container in
    let copied = copy_bytes st.dest 0 st.random_container st.p_container start in
    let last = aes st.random_container in
    let left = n + st.p_container - 16 in
    record {
      random_container = last;
      p_container = left;
      dest = copy_bytes copied start last 0 left;
    }

-- `prg_getrandom(keyID, size, length, dest)` with `n` for `size * length`.
unfoldable pub prg_getrandom : Cipher → ℕ → Container → Container
prg_getrandom aes n st =
    let rounds = container_rounds n st.p_container in
    if rounds == 0
    then record {
      random_container = st.random_container;
      p_container = st.p_container + n;
      dest = copy_bytes st.dest 0 st.random_container st.p_container n;
    }
    else if ltb rounds 2
    then one_block aes n st
    else many_blocks aes n rounds st
