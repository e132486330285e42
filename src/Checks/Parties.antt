-- ===== src/Checks/Parties.antt =====
-- Inputs for five parties.
use rss_ring_ppml.Base.{ℕ, ◌+◌, ◌*◌, ◌%◌, ◌^◌, ◌≡◌, arith}
use rss_ring_ppml.Base.Cong.{Cong, Cong_refl}
use rss_ring_ppml.Net.{World}
use rss_ring_ppml.Share.{Shares}
use rss_ring_ppml.Five.{t_map_5pc, rss_open_mp, local_product_mp}
use rss_ring_ppml.Five.Sharing.{IsSharedByFive}
use rss_ring_ppml.Five.Open.{rss_open_mp_lem}
use rss_ring_ppml.Five.Product.{local_products_mp_total}
use rss_ring_ppml.Checks.{IsRing-8}

-- The ten parts of 655.
abbrev parts : ℕ → ℕ → ℕ
parts p q = p * q * 7 + (p + q)

held_by_five : World Shares
unfolding t_map_5pc
held_by_five pid s i = parts (t_map_5pc pid s 0) (t_map_5pc pid s 1)

held_by_five-IsSharedByFive : (i : ℕ) → IsSharedByFive 8 held_by_five i 655
unfolding held_by_five
held_by_five-IsSharedByFive i = record {
  part = parts;
  part_comm = λ p q. omega arith;
  held = λ pid s low high lt. Cong_refl _;
  total = Cong_refl 655;
}

rss_open_mp_example : rss_open_mp 32 8 1 (λ pid i. 0) held_by_five 4 0 ≡ 655 % 2 ^ 8
rss_open_mp_example =
    rss_open_mp_lem IsRing-8 1 (λ pid i. 0) held_by_five (omega arith)
      (held_by_five-IsSharedByFive 0) 4 (omega arith) (omega arith)

local_products_mp_example :
    Cong
      (2 ^ 8)
      (local_product_mp 32 (held_by_five 1) (held_by_five 1) 0 3
        + local_product_mp 32 (held_by_five 2) (held_by_five 2) 0 3
        + local_product_mp 32 (held_by_five 3) (held_by_five 3) 0 3
        + local_product_mp 32 (held_by_five 4) (held_by_five 4) 0 3
        + local_product_mp 32 (held_by_five 5) (held_by_five 5) 0 3)
      (655 * 655)
local_products_mp_example =
    local_products_mp_total IsRing-8 held_by_five held_by_five (held_by_five-IsSharedByFive 0)
      (held_by_five-IsSharedByFive 3)
