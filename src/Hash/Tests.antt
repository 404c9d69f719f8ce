-- ===== src/Hash/Tests.antt =====
-- The values of blocks/hashcode_test.go, and the theorems at concrete keys.
use sequins.Prelude.{◌<◌, ◌≡◌, ◌^◌, ◌-◌, refl, [], ◌∷◌, Text, codes, arith}
use sequins.Hash.{hash_code, key_partition}
use sequins.Hash.Java.{java_polynomial, hash_code-eq-java}
use sequins.Hash.Partition.{
  key_partition_bounds, key_partition_ordinary, alternate_partition-agrees,
}

abbrev pub pathological : Text
pathological =
    0x70 ∷ 0x17 ∷ 0xad ∷ 0x78 ∷ 0x8c ∷ 0x5e ∷ 0x85 ∷ 0xf1 ∷ 0x43 ∷ 0x27 ∷ 0xf8 ∷ 0x67 ∷ []

java_hash_code : hash_code (codes "foo bar baz") ≡ 1892173108
unfolding hash_code
java_hash_code = refl

java_hash_code_negative : hash_code (codes "foobarbaz") ≡ 2 ^ 32 - 1165917330
unfolding hash_code
java_hash_code_negative = refl

key_partition_bar : key_partition (codes "bar") 20 ≡ (19, 19)
unfolding key_partition
key_partition_bar = refl

key_partition_fol : key_partition (codes "fol") 20 ≡ (11, 11)
unfolding key_partition
key_partition_fol = refl

key_partition-pathological : key_partition pathological 20 ≡ (19, 11)
unfolding key_partition
key_partition-pathological = refl

hash_code-eq-java_example : hash_code (codes "bar") ≡ 97299
unfolding java_polynomial
hash_code-eq-java_example = hash_code-eq-java (codes "bar")

key_partition_bounds_example :
    ((key_partition (codes "bar") 20).0 < 20) × ((key_partition (codes "bar") 20).1 < 20)
key_partition_bounds_example = key_partition_bounds (codes "bar") 20 (omega arith)

key_partition_ordinary_example :
    (key_partition (codes "bar") 20).1 ≡ (key_partition (codes "bar") 20).0
unfolding hash_code
key_partition_ordinary_example = key_partition_ordinary (codes "bar") 20 refl

alternate_partition-agrees_example :
    (key_partition pathological 20).1 ≡ (key_partition (codes "fol") 20).0
unfolding hash_code
alternate_partition-agrees_example =
    alternate_partition-agrees pathological (codes "fol") 20 (omega arith) (omega arith) refl refl
