-- ===== src/Prelude/Numbers.antt =====
-- Remainders under sums and products.
use Prim.Native.Nat.{ℕ, ◌+◌, ◌-◌, ◌*◌, ◌/◌, ◌%◌, ◌<◌}
use mathlib.Core.Path.{◌≡◌, sym, ap, ◌∙◌}
use native.Mathlib.Omega.{arith}
use native.Mathlib.Nat.{add-mul-mod_self_left, mod-add-div, mod-add-mod, mod-lt, zero-mod}

mul-add_regroup : (x y m q p r : ℕ) → y + m * q ≡ x → x * p + r ≡ (y * p + r) + m * (q * p)
mul-add_regroup x y m q p r e = omega (arith, ap (λ (t : ℕ). t * p) e)

-- A factor may be reduced first.
pub mod-mul-add : (x p r m : ℕ) → ((x % m) * p + r) % m ≡ (x * p + r) % m
mod-mul-add x p r m = sym (
    ap (λ (t : ℕ). t % m) (mul-add_regroup x (x % m) m (x / m) p r (mod-add-div x m))
    ∙ add-mul-mod_self_left ((x % m) * p + r) m (x / m * p))

rotate_regroup : (a c n s q : ℕ) → 0 < n → s < n → s + n * q ≡ c → a + c + (n - s) ≡ a + n * (q + 1)
rotate_regroup a c n s q pos small e = omega arith

-- Adding `c` and then the complement of `c % n` changes nothing modulo `n`.
pub mod-rotate : (a c n : ℕ) → 0 < n → ((a + c) % n + (n - c % n)) % n ≡ a % n
mod-rotate a c n pos =
    mod-add-mod (a + c) n (n - c % n)
    ∙ ap (λ (t : ℕ). t % n)
        (rotate_regroup a c n (c % n) (c / n) pos (mod-lt c pos) (mod-add-div c n))
    ∙ add-mul-mod_self_left a n (c / n + 1)

-- A sum that is congruent to one of its parts.
pub mod-cancel : (a x n : ℕ) → 0 < n → (a + x) % n ≡ x % n → a % n ≡ 0
mod-cancel a x n pos e =
    sym (mod-rotate a x n pos)
    ∙ ap (λ (t : ℕ). (t + (n - x % n)) % n) (e ∙ sym (add-zero-mod x n))
    ∙ mod-rotate 0 x n pos
    ∙ zero-mod n
  where
    add-zero-mod : (y m : ℕ) → (0 + y) % m ≡ y % m
    add-zero-mod y m = ap (λ (t : ℕ). t % m) (omega arith)
