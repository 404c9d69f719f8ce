-- ===== src/Prelude/Signed.antt =====
-- Go's signed ints. `negsuc n` is -(n + 1).
use Prim.Native.Nat.{ℕ, zero, suc, ◌+◌, ◌-◌, ◌%◌, ◌^◌}
use sequins.Prelude.Tests.{leb, if◌then◌else◌}

pub data ℤ : Type 0 where
  pos negsuc : ℕ → ℤ

abbrev pub negated : ℕ → ℤ
negated zero = pos 0
negated (suc n) = negsuc n

-- A remainder has the sign of what is divided.
abbrev pub rem : ℤ → ℕ → ℤ
rem (pos a) n = pos (a % n)
rem (negsuc a) n = negated (suc a % n)

abbrev pub plus : ℤ → ℕ → ℤ
plus (pos a) n = pos (a + n)
plus (negsuc a) n = if leb (suc a) n then pos (n - suc a) else negsuc (a - n)

-- The 64 bits of an int.
abbrev pub bits : ℤ → ℕ
bits (pos a) = a
bits (negsuc a) = 2 ^ 64 - suc a
