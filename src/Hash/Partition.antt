-- ===== src/Hash/Partition.antt =====
-- Where `key_partition` looks for a key, and why the alternate partition is the right one.
use native.Mathlib.Nat.{mod-lt, mod-add-mod}
use sequins.Prelude.{
  ℤ, pos, negsuc, rem, plus, bits, if_true, ltb, refl, subst, Option, none, some, inl, inr,
  Bool-cases, ℕ, ◌+◌, ◌-◌, ◌%◌, ◌^◌, ◌≤◌, ◌<◌, ◌≡◌, ◌∙◌, sym, ap, ◌≢◌, true, false, arith, Text,
  mod-rotate, mod-cancel,
}
use sequins.Hash.Java.{hash_code-lt}
use sequins.Hash.{
  hash_code, mask, is_pathological, tuple_partition, key_partition, signed, or_normal,
  alternate_partition,
}

-- A mask leaves no sign.
rem-mask : (x n : ℕ) → rem (signed (mask x)) n ≡ pos (mask x % n)
rem-mask x n =
    ap (λ (z : ℤ). rem z n)
      (if_true (ltb (mask x) (2 ^ 31)) (negsuc (2 ^ 32 - 1 - mask x)) (ground arith))

abbrev tuple_number : ℕ → ℕ → ℕ
tuple_number hc total = mask ((hc + 31) % 2 ^ 32) % total

tuple_partition-eq : (hc total : ℕ) → tuple_partition hc total ≡ pos (tuple_number hc total)
tuple_partition-eq hc total = rem-mask ((hc + 31) % 2 ^ 32) total

first-or_normal : (normal : ℤ) (o : Option ℤ) → (or_normal normal o).0 ≡ bits normal
first-or_normal normal none = refl
first-or_normal normal (some alternate) = refl

-- The first partition is the masked hash modulo the number of partitions, as in Hadoop.
pub key_partition-normal :
    (key : Text) (total : ℕ) → (key_partition key total).0 ≡ mask (hash_code key) % total
unfolding key_partition
key_partition-normal key total =
    first-or_normal (rem (signed (mask (hash_code key))) total)
      (alternate_partition (hash_code key) total)
    ∙ ap bits (rem-mask (hash_code key) total)

-- Unless the hash lies within 32 of the largest int32, there is one partition only.
pub key_partition_ordinary :
    (key : Text) (total : ℕ)
    → is_pathological (hash_code key) ≡ false
    → (key_partition key total).1 ≡ (key_partition key total).0
unfolding key_partition alternate_partition
key_partition_ordinary key total h = rw h refl

-- A pathological key's second partition.
key_partition-alternate :
    (key : Text) (total : ℕ)
    → is_pathological (hash_code key) ≡ true
    → (key_partition key total).1
      ≡ (tuple_number (hash_code key) total + (total - 31 % total)) % total
unfolding key_partition alternate_partition
key_partition-alternate key total h = rw h (
    ap (λ (t : ℤ). bits (rem (plus t (total - 31 % total)) total))
      (tuple_partition-eq (hash_code key) total))

-- Both partitions of a key exist: the bits of either are those of an int that is not negative (for any
-- number of partitions that an int can be) and is below the number of partitions.
pub key_partition_bounds :
    (key : Text) (total : ℕ)
    → 0 < total
    → ((key_partition key total).0 < total) × ((key_partition key total).1 < total)
key_partition_bounds key total positive =
    let first : (key_partition key total).0 < total =
      subst (λ (p : ℕ). p < total) (sym (key_partition-normal key total))
        (mod-lt (mask (hash_code key)) positive) in
    (
      first,
      elim (Bool-cases (is_pathological (hash_code key))) [
        | inl path ↦
            subst (λ (p : ℕ). p < total) (sym (key_partition-alternate key total path))
              (mod-lt (tuple_number (hash_code key) total + (total - 31 % total)) positive)
        | inr plain ↦
            subst (λ (p : ℕ). p < total) (sym (key_partition_ordinary key total plain)) first
      ],
    )

-- A hash code to which 31 can be added without wrapping round.
abbrev pub Steady : ℕ → Type 0
Steady hc = mask hc + 31 < 2 ^ 31

-- The Tuple of a steady hash is 31 higher.
tuple_number-Steady :
    (hc total : ℕ) → hc < 2 ^ 32 → Steady hc → tuple_number hc total ≡ (mask hc + 31) % total
tuple_number-Steady hc total small steady = ap (λ (t : ℕ). t % total) (omega arith)

tuple_partition-injective :
    (hc other total : ℕ)
    → tuple_partition hc total ≡ tuple_partition other total
    → tuple_number hc total ≡ tuple_number other total
tuple_partition-injective hc other total same =
    ap bits (sym (tuple_partition-eq hc total) ∙ same ∙ tuple_partition-eq other total)

-- Cascading puts a pathological key beside the ordinary keys whose Tuples hash alike; their own
-- partition is the alternate partition of the pathological key.
pub alternate_partition-agrees :
    (key other : Text) (total : ℕ)
    → 0 < total
    → Steady (hash_code other)
    → is_pathological (hash_code key) ≡ true
    → tuple_partition (hash_code other) total ≡ tuple_partition (hash_code key) total
    → (key_partition key total).1 ≡ (key_partition other total).0
alternate_partition-agrees key other total positive steady path same =
    key_partition-alternate key total path
    ∙ ap (λ (t : ℕ). (t + (total - 31 % total)) % total)
        (sym (tuple_partition-injective (hash_code other) (hash_code key) total same)
          ∙ tuple_number-Steady (hash_code other) total (hash_code-lt other) steady)
    ∙ mod-rotate (mask (hash_code other)) 31 total positive
    ∙ sym (key_partition-normal other total)

-- A hash code in [-31, -1]: adding 31 wraps round as well, from the other side of 0.
abbrev pub JustBelowZero : ℕ → Type 0
JustBelowZero hc = (2 ^ 32 - 31 ≤ hc) × (hc < 2 ^ 32)

tuple_number-below_zero :
    (hc total : ℕ) → JustBelowZero hc → tuple_number hc total ≡ (hc + 31 - 2 ^ 32) % total
tuple_number-below_zero hc total h = ap (λ (t : ℕ). t % total) (omega arith)

mask-below_zero : (hc : ℕ) → JustBelowZero hc → mask hc + 31 ≡ 2 ^ 31 + (hc + 31 - 2 ^ 32)
mask-below_zero hc h = omega arith

same_residue : (a b c n : ℕ) → a % n ≡ b % n → (a + c) % n ≡ (b + c) % n
same_residue a b c n e = sym (mod-add-mod a n c) ∙ ap (λ (t : ℕ). (t + c) % n) e ∙ mod-add-mod b n c

residues_differ :
    (key other total : ℕ)
    → 0 < total
    → 2 ^ 31 % total ≢ 0
    → JustBelowZero key
    → other < 2 ^ 32
    → Steady other
    → tuple_partition other total ≡ tuple_partition key total
    → mask key % total ≢ mask other % total
residues_differ key other total positive odd below small steady same e = odd (
    mod-cancel (2 ^ 31) (key + 31 - 2 ^ 32) total positive (
      ap (λ (t : ℕ). t % total) (sym (mask-below_zero key below))
      ∙ same_residue (mask key) (mask other) 31 total e
      ∙ sym (tuple_number-Steady other total small steady)
      ∙ tuple_partition-injective other key total same
      ∙ tuple_number-below_zero key total below))

-- Keys just below zero are pathological too, and get no alternate partition: the ordinary keys
-- that Cascading puts beside such a key are looked for elsewhere, unless the number of
-- partitions divides 2 ^ 31.
negative_pathological_missed :
    (key other : Text) (total : ℕ)
    → 0 < total
    → 2 ^ 31 % total ≢ 0
    → JustBelowZero (hash_code key)
    → Steady (hash_code other)
    → tuple_partition (hash_code other) total ≡ tuple_partition (hash_code key) total
    → ((key_partition key total).1 ≢ (key_partition other total).0)
      × ((key_partition key total).0 ≢ (key_partition other total).0)
negative_pathological_missed key other total positive odd below steady same =
    let apart : (key_partition key total).0 ≢ (key_partition other total).0 = λ e.
      residues_differ (hash_code key) (hash_code other) total positive odd below
        (hash_code-lt other) steady same
        (sym (key_partition-normal key total) ∙ e ∙ key_partition-normal other total) in
    (λ e. apart (sym (key_partition_ordinary key total (ground arith)) ∙ e), apart)
