-- ===== src/Prelude/Texts.antt =====
-- Go's strings and byte slices: sequences of bytes, compared bytewise.
use Prim.Native.Nat.{ℕ}
use Prim.Native.Char.{code}
use Prim.Native.String.{String}
use mathlib.Core.Path.{◌≡◌, refl, subst}
use mathlib.Core.Logic.{◌↔◌, inl, inr}
use mathlib.Core.Bool.{Bool, true, false, ◌&&◌}
use mathlib.Core.List.{List, [], ◌∷◌}
use mathlib.Core.Option.{Option, none, some}
use native.Mathlib.Omega.{arith}
use sequins.Prelude.Tests.{Bool-cases, ltb, nat_eq, if◌then◌else◌, Comparable}

abbrev pub Text : Type 0
Text = List ℕ

-- The bytes of an ASCII literal.
abbrev pub codes : String → Text
codes String.[] = []
codes (String.◌∷◌ c s) = code c ∷ codes s

unfoldable pub text_eq : Text → Text → Bool
text_eq [] [] = true
text_eq [] (y ∷ ys) = false
text_eq (x ∷ xs) [] = false
text_eq (x ∷ xs) (y ∷ ys) = nat_eq x y && text_eq xs ys

pub text_eq_iff : (a b : Text) → (text_eq a b ≡ true) ↔ (a ≡ b)
unfolding text_eq
text_eq_iff [] [] = ground arith
text_eq_iff [] (y ∷ ys) = ground arith
text_eq_iff (x ∷ xs) [] = ground arith
text_eq_iff (x ∷ xs) (y ∷ ys) = ground (arith, text_eq_iff xs ys)

instance abbrev pub Text_eq : Comparable Text
Text_eq = record { equal = text_eq; sound = text_eq_iff }

-- Go's `a < b` on strings, and `bytes.Compare(a, b) < 0`.
unfoldable pub text_lt : Text → Text → Bool
text_lt [] [] = false
text_lt [] (y ∷ ys) = true
text_lt (x ∷ xs) [] = false
text_lt (x ∷ xs) (y ∷ ys) = if ltb x y then true else if ltb y x then false else text_lt xs ys

pub text_lt_irrefl : (a : Text) → text_lt a a ≡ false
unfolding text_lt
text_lt_irrefl [] = refl
text_lt_irrefl (x ∷ xs) = ground (arith, text_lt_irrefl xs)

pub text_lt_trans : (a b c : Text) → text_lt a b ≡ true → text_lt b c ≡ true → text_lt a c ≡ true
unfolding text_lt
text_lt_trans [] [] c h k = ground arith
text_lt_trans [] (y ∷ b) [] h k = ground arith
text_lt_trans [] (y ∷ b) (z ∷ c) h k = refl
text_lt_trans (x ∷ a) [] c h k = ground arith
text_lt_trans (x ∷ a) (y ∷ b) [] h k = ground arith
text_lt_trans (x ∷ a) (y ∷ b) (z ∷ c) h k = ground (arith, text_lt_trans a b c)

pub text_lt_total : (a b : Text) → text_lt a b ≡ false → text_lt b a ≡ false → a ≡ b
unfolding text_lt
text_lt_total [] [] h k = refl
text_lt_total [] (y ∷ b) h k = ground arith
text_lt_total (x ∷ a) [] h k = ground arith
text_lt_total (x ∷ a) (y ∷ b) h k = ground (arith, text_lt_total a b)

-- z is not below y, nor y below x, so z is not below x.
pub not_below : (x y z : Text) → text_lt z y ≡ false → text_lt y x ≡ false → text_lt z x ≡ false
not_below x y z h k = elim (Bool-cases (text_lt z x)) [
  | inr not_lt ↦ not_lt
  | inl lt ↦ elim (Bool-cases (text_lt y z)) [
    | inl yz ↦ absurd (clash (text_lt_trans y z x yz lt))
    | inr ge ↦ absurd (clash (subst (λ t. text_lt t x ≡ true) (text_lt_total z y h ge) lt))
  ]
]
  where
    clash : text_lt y x ≡ true → ⊥
    clash e = cc (e, k)

-- What is below y is below all that is not below y.
pub text_lt-not_below :
    (x y z : Text) → text_lt x y ≡ true → text_lt z y ≡ false → text_lt x z ≡ true
text_lt-not_below x y z h k = elim (Bool-cases (text_lt x z)) [
  | inl lt ↦ lt
  | inr ge ↦ absurd (clash (not_below y z x ge k))
]
  where
    clash : text_lt x y ≡ false → ⊥
    clash e = cc (e, h)

-- strings.HasPrefix(s, prefix).
unfoldable pub has_prefix : Text → Text → Bool
has_prefix s [] = true
has_prefix [] (p ∷ ps) = false
has_prefix (c ∷ s) (p ∷ ps) = nat_eq c p && has_prefix s ps

-- strings.SplitN(s, sep, 2) for a separator of one byte: what stands before the first
-- separator, and what stands behind it, if there is one.
unfoldable pub split_at : ℕ → Text → Text × Option Text
split_at sep [] = ([], none)
split_at sep (c ∷ s) =
    let rest = split_at sep s in if nat_eq c sep then ([], some s) else (c ∷ rest.0, rest.1)

-- strings.TrimPrefix(s, "/").
unfoldable pub drop_slash : Text → Text
drop_slash [] = []
drop_slash (c ∷ s) = if nat_eq c b'/' then s else c ∷ s
