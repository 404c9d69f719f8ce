-- ===== src/Hash/Java.antt =====
-- `hash_code` is the polynomial of java.lang.String#hashCode.
use native.Mathlib.Nat.{pow-suc, mul_comm}
use sequins.Prelude.{
  ℕ, ◌+◌, ◌*◌, ◌%◌, ◌^◌, ◌<◌, ◌≡◌, ◌∙◌, ap, [], ◌∷◌, arith, Text, length, mod-mul-add,
}
use sequins.Hash.{hash_loop, hash_code}

-- s[0] * 31 ^ (n - 1) + s[1] * 31 ^ (n - 2) + … + s[n - 1]
unfoldable pub java_polynomial : Text → ℕ
java_polynomial [] = 0
java_polynomial (b ∷ bs) = b * 31 ^ length bs + java_polynomial bs

horner : (v b p r : ℕ) → (v * 31 + b) * p + r ≡ v * (31 * p) + (b * p + r)
horner v b p r = omega arith

hash_loop-eq :
    (v : ℕ) (b : Text)
    → v < 2 ^ 32
    → hash_loop v b ≡ (v * 31 ^ length b + java_polynomial b) % 2 ^ 32
unfolding hash_loop java_polynomial
hash_loop-eq v [] h = omega arith
hash_loop-eq v (b ∷ bs) h =
    hash_loop-eq ((v * 31 + b) % 2 ^ 32) bs (omega arith)
    ∙ mod-mul-add (v * 31 + b) (31 ^ length bs) (java_polynomial bs) (2 ^ 32)
    ∙ ap (λ (t : ℕ). t % 2 ^ 32)
        (rw (pow-suc 31 (length bs))
          (rw (mul_comm (31 ^ length bs) 31) (horner v b (31 ^ length bs) (java_polynomial bs))))

-- The hash of a key is Java's: the polynomial in 31 over its bytes, in 32-bit arithmetic.
pub hash_code-eq-java : (key : Text) → hash_code key ≡ java_polynomial key % 2 ^ 32
unfolding hash_code
hash_code-eq-java key = hash_loop-eq 0 key (omega arith) ∙ ap (λ (t : ℕ). t % 2 ^ 32) (omega arith)

pub hash_code-lt : (key : Text) → hash_code key < 2 ^ 32
hash_code-lt key = omega (arith, hash_code-eq-java key)
