-- ===== src/Build.antt =====
-- build.go: a version is built from its files. A sequence file is its class names, its records and
-- the error that ends it, if one does; `unwrap` is the two functions of the package sequencefile
-- that take the bytes out of a BytesWritable and of a Text, `none` if they panic.
pub mod Kept
pub mod Skipping
pub mod Everything
pub mod Whole
pub mod Tests
use sequins.Prelude.{
  ℕ, zero, suc, ◌+◌, Bool, true, false, not, ◌&&◌, ◌||◌, Text, Text_eq, native_keys, codes, List,
  [], ◌∷◌, Option, none, some, ◌>>=◌, Result, ok, err, Exec, continue, if◌then◌else◌, ltb, nat_eq,
  contains, KeySet, length,
}
use sequins.Hash.{key_partition}
use sequins.Blocks.Sparkey.{Sparkey, Error}
use sequins.Blocks.Manifest.{Files}
use sequins.Blocks.Store.{St, add, save, revert}

pub data BuildError : Type 0 where
  wrong_partition : BuildError
  canceled : BuildError
  corrupted : BuildError
  stream_error : BuildError
  store_error : Error → BuildError

pub data ClassName : Type 0 where
  bytes_writable text other_class : ClassName

pub record Unwrap : Type 0 where
  pub of_bytes_writable : Text → Option Text
  pub of_text : Text → Option Text

pub record SequenceFile : Type 0 where
  pub key_class : ClassName
  pub value_class : ClassName
  pub records : List (Text × Text)
  pub fails : Bool

pub unwrap_one : Unwrap → ClassName → Text → Option Text
unwrap_one u bytes_writable bytes = u.of_bytes_writable bytes
unwrap_one u text bytes = u.of_text bytes
unwrap_one u other_class bytes = some bytes

pub unwrap_key_value : Unwrap → SequenceFile → Text × Text → Option (Text × Text)
unfolding unwrap_one
unwrap_key_value u file (key, value) =
    (unwrap_one u file.key_class key >>= λ k.
    (unwrap_one u file.value_class value >>= λ v. some (k, v)))

-- canAssumePartition, assumedPartition (`none` for -1) and assumedFor.
pub record Assumption : Type 0 where
  pub can_assume : Bool
  pub assumed : Option ℕ
  pub assumed_for : ℕ

abbrev pub at_start : Assumption
at_start = record { can_assume = true; assumed = none; assumed_for = 0 }

-- The partition that the key is taken to be in, and what is assumed then.
pub note : ℕ → ℕ → Assumption → ℕ × Assumption
note partition alternate a = if not a.can_assume then (partition, a) else elim a.assumed [
  | none ↦ (partition, record a { assumed = some partition })
  | some p ↦
      if nat_eq partition p
      then (partition, record a { assumed_for = a.assumed_for + 1 })
      else if nat_eq alternate p
      then (alternate, a)
      else (partition, record a { can_assume = false })
]

-- What becomes of a record: the file is given up, the record is passed over, or it is stored.
pub data Verdict : Type 0 where
  give_up pass store : Verdict

pub judge : KeySet ℕ → ℕ × Assumption → Verdict
judge wanted (taken, a) =
    if contains wanted taken
    then store
    else if a.can_assume && ltb 5000 a.assumed_for
    then give_up
    else pass

module _ (sp : Sparkey) (fs : Files (Sparkey.World sp)) where
  open sp use {World}

  abbrev pub as_build : Result Error Unit × St sp fs → Result BuildError Unit × St sp fs
  as_build (ok u, s) = (ok u, s)
  as_build (err e, s) = (err (store_error e), s)

  -- The loop over the records that are left. `wanted` is the set of partitions that are built.
  pub add_keys :
      Unwrap
      → SequenceFile
      → KeySet ℕ
      → List (Text × Text)
      → Assumption
      → Exec (St sp fs) BuildError Unit
  unfolding note judge unwrap_key_value
  add_keys u file wanted [] a s = (if file.fails then err stream_error else ok tt, s)
  add_keys u file wanted (r ∷ rs) a s = elim (unwrap_key_value u file r) [
    | none ↦ (err corrupted, s)
    | some (key, value) ↦
        let (partition, alternate) = key_partition key s.store.num_partitions in
        let noted = note partition alternate a in
        elim (judge wanted noted) [
          | give_up ↦ (err wrong_partition, s)
          | pass ↦ add_keys u file wanted rs noted.1 s
          | store ↦
              continue (as_build (add sp fs key value s)) λ _ t. add_keys u file wanted rs noted.1 t
        ]
  ]

  pub add_file_keys : Unwrap → SequenceFile → KeySet ℕ → Exec (St sp fs) BuildError Unit
  unfolding add_keys
  add_file_keys u file wanted s = add_keys u file wanted file.records at_start s

  -- What Open and ReadHeader give, or nothing if one of them fails.
  unfoldable pub skip_wrong : Result BuildError Unit × St sp fs → Result BuildError Unit × St sp fs
  skip_wrong (err wrong_partition, s) = (ok tt, s)
  skip_wrong (err canceled, s) = (err canceled, s)
  skip_wrong (err corrupted, s) = (err corrupted, s)
  skip_wrong (err stream_error, s) = (err stream_error, s)
  skip_wrong (err (store_error e), s) = (err (store_error e), s)
  skip_wrong (ok u, s) = (ok u, s)

  unfoldable pub add_file :
      Unwrap → Option SequenceFile → KeySet ℕ → Exec (St sp fs) BuildError Unit
  unfolding add_file_keys skip_wrong
  add_file u none wanted s = (err stream_error, s)
  add_file u (some file) wanted s = skip_wrong (add_file_keys u file wanted s)

  -- `stopped` tells whether the build is found canceled before the file, with how many files left.
  unfoldable pub add_each :
      Unwrap → (ℕ → Bool) → List (Option SequenceFile) → KeySet ℕ → Exec (St sp fs) BuildError Unit
  unfolding add_file
  add_each u stopped [] wanted s = (ok tt, s)
  add_each u stopped (file ∷ files) wanted s =
      if stopped (length files)
      then (err canceled, s)
      else continue (add_file u file wanted s) λ _ t. add_each u stopped files wanted t

  unfoldable pub add_files :
      Unwrap
      → (ℕ → Bool)
      → List (Option SequenceFile)
      → KeySet ℕ
      → KeySet ℕ
      → Exec (St sp fs) BuildError Unit
  unfolding add_each
  add_files u stopped [] selected wanted s = (ok tt, s)
  add_files u stopped (file ∷ files) selected wanted s =
      continue (add_each u stopped (file ∷ files) wanted s) λ _ t. as_build (save sp fs selected t)
