-- ===== src/Prelude/Decimal.antt =====
-- fmt's `%05d` and strconv.Atoi on natural numbers, and path.Join on clean elements.
use Prim.Native.Nat.{ℕ, zero, suc, ◌+◌, ◌-◌, ◌*◌, ◌/◌, ◌%◌, ◌<◌}
use mathlib.Core.Path.{◌≡◌, refl, ◌∙◌, ap}
use mathlib.Core.Bool.{Bool, true, ◌&&◌}
use mathlib.Core.Logic.{inl, inr}
use mathlib.Core.List.{[], ◌∷◌, ◌++◌}
use native.Mathlib.Omega.{arith}
use sequins.Prelude.Tests.{ltb, leb, if◌then◌else◌, Bool-cases}
use sequins.Prelude.Lists.{length}
use sequins.Prelude.Texts.{Text}

-- The decimal digits of `n` before `rest`; fuel above `n` is enough.
digits_before : ℕ → ℕ → Text → Text
digits_before zero n rest = rest
digits_before (suc fuel) n rest =
    let more = digits_before fuel (n / 10) ((48 + n % 10) ∷ rest) in
    if ltb n 10 then (48 + n) ∷ rest else more

zeros : ℕ → Text
zeros zero = []
zeros (suc n) = 48 ∷ zeros n

unfoldable pub pad5 : Text → Text
unfolding zeros
pad5 s = zeros (5 - length s) ++ s

unfoldable pub decimal5 : ℕ → Text
unfolding pad5 digits_before
decimal5 n = pad5 (digits_before (suc n) n [])

atoi_loop : ℕ → Text → ℕ
atoi_loop acc [] = acc
atoi_loop acc (c ∷ s) = atoi_loop (acc * 10 + (c - 48)) s

-- strconv.Atoi on a text of digits. On any other text Atoi returns 0 with an error.
abbrev pub is_digit : ℕ → Bool
is_digit c = leb 48 c && leb c 57

unfoldable pub all_digits : Text → Bool
all_digits [] = true
all_digits (c ∷ s) = is_digit c && all_digits s

unfoldable pub atoi : Text → ℕ
unfolding atoi_loop all_digits
atoi s = if all_digits s then atoi_loop 0 s else 0

atoi_loop-digits_before :
    (fuel n : ℕ) (rest : Text)
    → n < fuel
    → atoi_loop 0 (digits_before fuel n rest) ≡ atoi_loop n rest
unfolding atoi_loop digits_before
atoi_loop-digits_before zero n rest h = absurd (omega arith)
atoi_loop-digits_before (suc fuel) n rest h = elim (Bool-cases (ltb n 10)) [
  | inl small ↦ rw small (ap (λ (t : ℕ). atoi_loop t rest) (omega arith))
  | inr large ↦ rw large (
      atoi_loop-digits_before fuel (n / 10) ((48 + n % 10) ∷ rest) (ground arith)
      ∙ ap (λ (t : ℕ). atoi_loop t rest) (omega arith))
]

atoi_loop-zeros : (k : ℕ) (s : Text) → atoi_loop 0 (zeros k ++ s) ≡ atoi_loop 0 s
unfolding atoi_loop zeros
atoi_loop-zeros zero s = refl
atoi_loop-zeros (suc k) s = atoi_loop-zeros k s

all_digits-before :
    (fuel n : ℕ) (rest : Text)
    → all_digits rest ≡ true
    → all_digits (digits_before fuel n rest) ≡ true
unfolding all_digits digits_before
all_digits-before zero n rest h = h
all_digits-before (suc fuel) n rest h =
    ground (arith, all_digits-before fuel (n / 10) ((48 + n % 10) ∷ rest))

all_digits-zeros : (k : ℕ) (s : Text) → all_digits (zeros k ++ s) ≡ all_digits s
unfolding all_digits zeros
all_digits-zeros zero s = refl
all_digits-zeros (suc k) s = all_digits-zeros k s

module _ (n : ℕ) where
  pub decimal5-digits : all_digits (decimal5 n) ≡ true
  unfolding decimal5 all_digits
  decimal5-digits =
      all_digits-zeros (5 - length (digits_before (suc n) n [])) (digits_before (suc n) n [])
      ∙ all_digits-before (suc n) n [] refl

  -- What `%05d` prints, Atoi reads.
  pub atoi-decimal5 : atoi (decimal5 n) ≡ n
  unfolding atoi
  atoi-decimal5 = rw decimal5-digits (
      unfold decimal5 in
      (atoi_loop-zeros (5 - length (digits_before (suc n) n [])) (digits_before (suc n) n [])
        ∙ atoi_loop-digits_before (suc n) n [] (omega arith)))

-- path.Join of two clean elements.
unfoldable pub join : Text → Text → Text
join [] b = b
join (c ∷ a) [] = c ∷ a
join (c ∷ a) (d ∷ b) = (c ∷ a) ++ b'/' ∷ d ∷ b
