-- ===== src/MatMult/Nested.antt =====
-- Sums over the places of nested loops.
use rss_ring_ppml.Base.{ℕ, zero, suc, ◌+◌, ◌*◌, ◌/◌, ◌%◌, ◌<◌, ◌≡◌, ◌∙◌, refl, ap, arith}
use rss_ring_ppml.MatMult.Products.{total}
use rss_ring_ppml.MatMult.Correct.{row_at, column_at}

pub total_ext : (f g : ℕ → ℕ) (n : ℕ) → ((t : ℕ) → t < n → f t ≡ g t) → total f n ≡ total g n
unfolding total
total_ext f g zero same = refl
total_ext f g (suc n) same =
    rw (total_ext f g n (λ t lt. same t (omega arith)), same n (omega arith)) refl

add_nothing : (m : ℕ) → m + 0 ≡ m
add_nothing m = omega arith

sum_suc : (m n : ℕ) → m + suc n ≡ suc (m + n)
sum_suc m n = omega arith

total_add : (f : ℕ → ℕ) (m n : ℕ) → total f (m + n) ≡ total f m + total (λ q. f (m + q)) n
unfolding total
total_add f m zero = ap (total f) (add_nothing m) ∙ omega arith
total_add f m (suc n) = ap (total f) (sum_suc m n) ∙ rw (total_add f m n) (omega arith)

no_rows : (n : ℕ) → 0 * n ≡ 0
no_rows n = omega arith

next_row : (m n : ℕ) → suc m * n ≡ m * n + n
next_row m n = omega arith

-- A loop over `m * n` places that takes its index apart is two nested loops.
pub total_nested :
    (f : ℕ → ℕ → ℕ) (m n : ℕ)
    → total (λ t. f (t / n) (t % n)) (m * n) ≡ total (λ p. total (f p) n) m
unfolding total
total_nested f zero n = ap (total (λ t. f (t / n) (t % n))) (no_rows n)
total_nested f (suc m) n =
    ap (total (λ t. f (t / n) (t % n))) (next_row m n)
    ∙ total_add (λ t. f (t / n) (t % n)) (m * n) n
    ∙ rw
        (
          total_nested f m n,
          total_ext (λ q. f ((m * n + q) / n) ((m * n + q) % n)) (f m) n
              (λ q lt. rw (row_at n m q lt, column_at n m q lt) refl),
        )
        refl
