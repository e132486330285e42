-- ===== src/Net/Maps.antt =====
-- The two tables of 3PC belong together: who sends to a party is whom it receives from.
use rss_ring_ppml.Base.{ℕ, ◌≤◌, ◌≡◌, ◌≢◌, arith}
use rss_ring_ppml.Net.{map_3pc}

-- For each of the parties 1, 2 and 3, the party that it receives from sends to it, the party that
-- it sends to receives from it, and the two are different from each other and from it.
map_3pc_lem :
    (pid : ℕ)
    → 1 ≤ pid
    → pid ≤ 3
    → (map_3pc (map_3pc pid 1) 0 ≡ pid)
      × (map_3pc (map_3pc pid 0) 1 ≡ pid)
      × (map_3pc pid 0 ≢ map_3pc pid 1)
      × (map_3pc pid 0 ≢ pid)
      × (map_3pc pid 1 ≢ pid)
unfolding map_3pc
map_3pc_lem pid low high = (omega arith, omega arith, omega arith, omega arith, omega arith)
