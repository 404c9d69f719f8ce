-- ===== src/Build/Tests.antt =====
-- Files for a store of twenty partitions. The key "bar" has partition 11, the pathological key of the
-- last test two partitions.
use sequins.Prelude.{
  length, ℕ, zero, suc, ◌≡◌, ◌<◌, refl, true, false, Text, codes, List, [], ◌∷◌, none, some, ok,
  err, contains, native_keys, insert, lookup,
}
use sequins.Hash.{key_partition}
use sequins.Hash.Tests.{pathological}
use sequins.Blocks.Sparkey.{last_value}
use sequins.Blocks.Block.{new_block, writer_add}
use sequins.Blocks.Store.{St, add, new}
use sequins.Blocks.Store.Adding.{add_pairs}
use sequins.Blocks.Tests.{memory, disk_files, empty_store, three_pairs, Pairs}
use sequins.Build.{wrong_partition, Unwrap, SequenceFile, other_class, add_keys, add_file_keys}
use sequins.Build.Skipping.{add_file_keys-gives_up}
use sequins.Build.Kept.{unwrap_all, both_wanted, none_wanted, Chosen, add_file_keys-Through}

abbrev pub raw : Unwrap
raw = record { of_bytes_writable = λ b. some b; of_text = λ b. some b }

abbrev pub file_of : List (Text × Text) → SequenceFile
file_of records = record {
  key_class = other_class;
  value_class = other_class;
  records = records;
  fails = false;
}

abbrev bars : ℕ → List (Text × Text)
bars zero = []
bars (suc n) = (codes "bar", codes "1") ∷ bars n

bars_given_up :
    add_file_keys memory disk_files raw (file_of (bars 5002)) [] empty_store
    ≡ (err wrong_partition, empty_store)
unfolding add_file_keys contains key_partition new
bars_given_up = refl

abbrev three_added : St memory disk_files
three_added = (add_file_keys memory disk_files raw (file_of three_pairs) (11 ∷ []) empty_store).1

three_ok :
    add_file_keys memory disk_files raw (file_of three_pairs) (11 ∷ []) empty_store
    ≡ (ok tt, three_added)
unfolding add_file_keys contains key_partition new add lookup insert new_block writer_add
three_ok = refl

add_file_keys-Through_example :
    (pairs : Pairs) × (kept : Pairs) × (unwrap_all raw (file_of three_pairs) three_pairs
      ≡ some pairs)
    × (add_pairs memory disk_files kept empty_store ≡ (ok tt, three_added))
    × Chosen 20 (11 ∷ []) pairs kept
    × ((key : Text)
        → (both_wanted 20 (11 ∷ []) key ≡ true → last_value key kept ≡ last_value key pairs)
          × (none_wanted 20 (11 ∷ []) key ≡ true → last_value key kept ≡ none))
unfolding new
add_file_keys-Through_example =
    add_file_keys-Through memory disk_files raw (file_of three_pairs) (11 ∷ []) empty_store
      three_added three_ok

add_file_keys-gives_up_example :
    (empty_store ≡ empty_store) × (5001 < length (file_of (bars 5002)).records)
add_file_keys-gives_up_example =
    add_file_keys-gives_up memory disk_files raw (file_of (bars 5002)) [] empty_store empty_store
      bars_given_up

-- The key is of partition 19, which is built, and the file is taken to be of partition 11.
odd_dropped :
    add_keys memory disk_files raw
      (file_of [])
      (19 ∷ [])
      ((pathological, codes "1") ∷ [])
      (record { can_assume = true; assumed = some 11; assumed_for = 40 })
      empty_store
    ≡ (ok tt, empty_store)
unfolding add_keys contains key_partition new
odd_dropped = refl
