-- ===== src/Hash.antt =====
-- blocks/hashcode.go: Java's string hash and the partition of a key. A Go `int32` is its bit
-- pattern, a number below 2 ^ 32; the pattern is that of a negative number from 2 ^ 31 on.
-- A partition is the bits of an int: it is the number itself unless that is negative.
-- A Go `%` by zero panics; here every use is for at least one partition.
pub mod Java
pub mod Partition
pub mod Tests
use sequins.Prelude.{
  ℤ, pos, negsuc, rem, plus, bits, ℕ, ◌+◌, ◌-◌, ◌*◌, ◌%◌, ◌^◌, List, [], ◌∷◌, Option, none, some,
  Bool, ◌&&◌, ltb, if◌then◌else◌, Text,
}

-- math.MaxInt32
abbrev pub max_int32 : ℕ
max_int32 = 2 ^ 31 - 1

hash_loop : ℕ → Text → ℕ
hash_loop v [] = v
hash_loop v (b ∷ bs) = hash_loop ((v * 31 + b) % 2 ^ 32) bs

pub hash_code : Text → ℕ
unfolding hash_loop
hash_code b = hash_loop 0 b

-- x & math.MaxInt32
abbrev pub mask : ℕ → ℕ
mask x = x % 2 ^ 31

-- int(x)
abbrev pub signed : ℕ → ℤ
signed x = if ltb x (2 ^ 31) then pos x else negsuc (2 ^ 32 - 1 - x)

-- hc > math.MaxInt32 - 32, on signed numbers
abbrev pub is_pathological : ℕ → Bool
is_pathological hc = ltb (max_int32 - 32) hc && ltb hc (2 ^ 31)

-- The partition of a single-value Tuple whose only part has the hash code `hc`.
abbrev pub tuple_partition : ℕ → ℕ → ℤ
tuple_partition hc total = rem (signed (mask ((hc + 31) % 2 ^ 32))) total

-- `none` is the source's -1.
pub alternate_partition : ℕ → ℕ → Option ℤ
alternate_partition hc total =
    if is_pathological hc
    then some (rem (plus (tuple_partition hc total) (total - 31 % total)) total)
    else none

abbrev pub or_normal : ℤ → Option ℤ → ℕ × ℕ
or_normal normal none = (bits normal, bits normal)
or_normal normal (some alternate) = (bits normal, bits alternate)

unfoldable pub key_partition : Text → ℕ → ℕ × ℕ
unfolding hash_code alternate_partition
key_partition key total =
    let hc = hash_code key in
    or_normal (rem (signed (mask hc)) total) (alternate_partition hc total)
