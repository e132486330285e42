-- ===== src/Prg/Sync.antt =====
-- Two parties that share a key read the same bytes as long as they have taken equally many.
use rss_ring_ppml.Base.{ℕ, ◌+◌, ◌*◌, ◌≡◌, ap}
use rss_ring_ppml.Prg.{Streams, Positions, prg_getrandom_3pc}

-- Key 1 of a party is key 0 of the party that it receives from.
pub record InStep (positions : Positions) : Type 0 where
  pub first : positions 1 1 ≡ positions 2 0
  pub second : positions 2 1 ≡ positions 3 0
  pub third : positions 3 1 ≡ positions 1 0

-- Both keys of the protocols are drawn from equally often.
pub draw_both-InStep :
    (streams : Streams) (positions : Positions) (size length : ℕ)
    → InStep positions
    → InStep
        (prg_getrandom_3pc streams
          (prg_getrandom_3pc streams positions 1 size length).positions
          0
          size
          length).positions
unfolding prg_getrandom_3pc
draw_both-InStep streams positions size length h = record {
  first = ap (λ (t : ℕ). t + size * length) h.first;
  second = ap (λ (t : ℕ). t + size * length) h.second;
  third = ap (λ (t : ℕ). t + size * length) h.third;
}

pub draw_both_down-InStep :
    (streams : Streams) (positions : Positions) (size length : ℕ)
    → InStep positions
    → InStep
        (prg_getrandom_3pc streams
          (prg_getrandom_3pc streams positions 0 size length).positions
          1
          size
          length).positions
unfolding prg_getrandom_3pc
draw_both_down-InStep streams positions size length h = record {
  first = ap (λ (t : ℕ). t + size * length) h.first;
  second = ap (λ (t : ℕ). t + size * length) h.second;
  third = ap (λ (t : ℕ). t + size * length) h.third;
}

-- The private key of a party is in common with nobody.
pub draw_private-InStep :
    (streams : Streams) (positions : Positions) (size length : ℕ)
    → InStep positions
    → InStep (prg_getrandom_3pc streams positions 2 size length).positions
unfolding prg_getrandom_3pc
draw_private-InStep streams positions size length h = record {
  first = h.first;
  second = h.second;
  third = h.third;
}
