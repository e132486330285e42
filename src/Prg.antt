-- ===== src/Prg.antt =====
-- src/connection/NodeNetwork.cpp: the keys of `prg_setup` and the bytes that `prg_getrandom`
-- hands out. A key is a stream of bytes, a parameter (AES in the source); a party keeps, for
-- each of its keys, how many bytes it has taken. `Container` is `prg_getrandom` with
-- the 16 bytes that it keeps for a key.
pub mod Sync
pub mod Container
use rss_ring_ppml.Base.{ℕ, ◌+◌, ◌*◌, ◌==◌, if◌then◌else◌}
use rss_ring_ppml.Word.Memory.{Buffer}
use rss_ring_ppml.Net.{World, map_3pc}

-- The bytes of each key.
abbrev pub Streams : Type 0
Streams = ℕ → ℕ → ℕ

-- The bytes that each party has taken under each of its key numbers.
abbrev pub Positions : Type 0
Positions = ℕ → ℕ → ℕ

-- The key behind a key number in `prg_setup`: 0 is the party's own, which it sends to
-- `map[0]`; 1 came from `map[1]`; 2 is for offline use and stays private.
unfoldable pub key_3pc : ℕ → ℕ → ℕ
key_3pc pid key_id = if key_id == 0 then pid else if key_id == 1 then map_3pc pid 1 else pid + 3

pub record Drawn : Type 0 where
  pub buffer : World Buffer
  pub positions : Positions

-- `prg_getrandom(keyID, size, length, dest)` at every party: the next `size * length` bytes.
unfoldable pub prg_getrandom_3pc : Streams → Positions → ℕ → ℕ → ℕ → Drawn
prg_getrandom_3pc streams positions key_id size length = record {
  buffer = λ pid j. streams (key_3pc pid key_id) (positions pid key_id + j);
  positions =
      λ pid key. if key == key_id then positions pid key + size * length else positions pid key;
}
