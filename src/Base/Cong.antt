-- ===== src/Base/Cong.antt =====
-- Congruence of natural numbers: the ring Z/m, in which every share is read.
use Prim.Native.Nat.{ℕ, zero, suc, ◌+◌, ◌-◌, ◌*◌, ◌/◌, ◌%◌, ◌^◌, ◌≤◌, ◌<◌}
use mathlib.Core.Path.{◌≡◌, refl, sym, ap, ◌∙◌}
use native.Mathlib.Nat.{add-mul-mod_self_left, mod-add-div, pow-suc, add-suc, mod-eq_of_lt}
use native.Mathlib.Omega.{arith}

-- Both numbers leave one remainder.
pub record Cong (m x y : ℕ) : Type 0 where
  pub same : x % m ≡ y % m

pub Cong_refl : {m : ℕ} (x : ℕ) → Cong m x x
Cong_refl x = record { same = refl }

pub Cong_sym : {m x y : ℕ} → Cong m x y → Cong m y x
Cong_sym h = record { same = sym h.same }

pub Cong_trans : {m x y z : ℕ} → Cong m x y → Cong m y z → Cong m x z
Cong_trans h k = record { same = h.same ∙ k.same }

pub Cong_eq : {m x y : ℕ} → x ≡ y → Cong m x y
Cong_eq {m} h = record { same = ap (λ (t : ℕ). t % m) h }

-- Equal up to multiples of the modulus.
pub Cong_of_eq : {m x y : ℕ} (p q : ℕ) → x + m * p ≡ y + m * q → Cong m x y
Cong_of_eq {m} {x} {y} p q h = record {
  same = sym (add-mul-mod_self_left x m p) ∙ ap (λ (t : ℕ). t % m) h ∙ add-mul-mod_self_left y m q;
}

-- The equation that a congruence stands for, which `omega` reads.
pub Cong→eq : {m x y : ℕ} → Cong m x y → x + m * (y / m) ≡ y + m * (x / m)
Cong→eq {m} {x} {y} h = omega (arith, h.same, mod-add-div x m, mod-add-div y m)

pub add-Cong : {m a b c d : ℕ} → Cong m a b → Cong m c d → Cong m (a + c) (b + d)
add-Cong {m} {a} {b} {c} {d} h k =
    Cong_of_eq (b / m + d / m) (a / m + c / m) (omega (arith, Cong→eq h, Cong→eq k))

mul-Cong_right : {m a b : ℕ} (c : ℕ) → Cong m a b → Cong m (a * c) (b * c)
mul-Cong_right {m} {a} {b} c h =
    Cong_of_eq (b / m * c) (a / m * c) (omega (arith, ap (λ (t : ℕ). t * c) (Cong→eq h)))

pub mul-Cong : {m a b c d : ℕ} → Cong m a b → Cong m c d → Cong m (a * c) (b * d)
mul-Cong {m} {a} {b} {c} {d} h k =
    Cong_trans (mul-Cong_right c h)
      (Cong_trans (Cong_eq (omega arith)) (Cong_trans (mul-Cong_right b k) (Cong_eq (omega arith))))

-- What is added on both sides can be taken away.
pub Cong-cancel : {m a b c d : ℕ} → Cong m (a + c) (b + d) → Cong m c d → Cong m a b
Cong-cancel {m} {a} {b} {c} {d} h k =
    Cong_of_eq ((b + d) / m + c / m) ((a + c) / m + d / m) (omega (arith, Cong→eq h, Cong→eq k))

pub mod-Cong : (m x : ℕ) → Cong m (x % m) x
mod-Cong m x = Cong_of_eq (x / m) 0 (omega (arith, mod-add-div x m))

-- Below the modulus congruent numbers are equal.
pub eq_of_Cong : {m x y : ℕ} → x < m → y < m → Cong m x y → x ≡ y
eq_of_Cong p q h = sym (mod-eq_of_lt p) ∙ h.same ∙ mod-eq_of_lt q

-- Powers of two.
pub two_pow-add : (a b : ℕ) → 2 ^ (a + b) ≡ 2 ^ a * 2 ^ b
two_pow-add a zero = ap (λ (t : ℕ). 2 ^ t) {x = a + 0} {y = a} (omega arith) ∙ omega arith
two_pow-add a (suc b) =
    ap (λ (t : ℕ). 2 ^ t) (add-suc a b)
    ∙ omega (arith, pow-suc 2 (a + b), two_pow-add a b, ap (λ (t : ℕ). 2 ^ a * t) (pow-suc 2 b))

pub two_pow_split : {k w : ℕ} → k ≤ w → 2 ^ w ≡ 2 ^ k * 2 ^ (w - k)
two_pow_split {k} {w} h =
    ap (λ (t : ℕ). 2 ^ t) {x = w} {y = k + (w - k)} (omega arith) ∙ two_pow-add k (w - k)

Cong_mul_modulus : {m x y : ℕ} (n : ℕ) → Cong (m * n) x y → Cong m x y
Cong_mul_modulus {m} {x} {y} n h =
    Cong_of_eq (n * (y / (m * n))) (n * (x / (m * n))) (omega (arith, Cong→eq h))

-- Numbers that agree on their `w` low bits agree on fewer.
pub Cong_of_le : {k w x y : ℕ} → k ≤ w → Cong (2 ^ w) x y → Cong (2 ^ k) x y
Cong_of_le {k} {w} {x} {y} h c = Cong_mul_modulus (2 ^ (w - k)) (rw (two_pow_split h) at c)

-- The modulus may be written another way.
pub Cong_modulus : {m n x y : ℕ} → m ≡ n → Cong m x y → Cong n x y
Cong_modulus {x} {y} e h = record {
  same = ap (λ (t : ℕ). x % t) (sym e) ∙ h.same ∙ ap (λ (t : ℕ). y % t) e;
}
