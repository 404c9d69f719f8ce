-- ===== src/Build/Everything.antt =====
-- A build of all partitions keeps every pair of every file.
use sequins.Prelude.{
  if◌then◌else◌, ℕ, ◌<◌, ◌≡◌, refl, sym, ap, subst, ◌∙◌, inl, inr, Bool, true, false, Text, Text_eq,
  native_keys, List, [], ◌∷◌, some, Result, ok, err, continue, arith, Option-cases, contains,
  KeySet,
}
use sequins.Hash.{key_partition}
use sequins.Hash.Partition.{key_partition_bounds}
use sequins.Blocks.Sparkey.{Sparkey, Error, last_value}
use sequins.Blocks.Manifest.{Files}
use sequins.Blocks.Store.{St, add}
use sequins.Blocks.Store.Adding.{add_pairs, add-num_partitions}
use sequins.Build.{
  BuildError, stream_error, wrong_partition, Unwrap, SequenceFile, unwrap_key_value, Assumption,
  at_start, store, judge, add_keys, add_file_keys, as_build,
}
use sequins.Build.Kept.{
  note_taken, unwrap_all, both_wanted, noted, after_verdict, add_keys-record, add_keys_corrupted,
  add_file_keys-Through,
}

-- The set has all partitions.
unfoldable pub Everything : ℕ → KeySet ℕ → Type 0
Everything n wanted = (i : ℕ) → i < n → contains wanted i ≡ true

both_wanted-Everything :
    (n : ℕ) (wanted : KeySet ℕ) (key : Text)
    → 0 < n
    → Everything n wanted
    → both_wanted n wanted key ≡ true
unfolding both_wanted Everything
both_wanted-Everything n wanted key pos all =
    let (first, second) = key_partition_bounds key n pos in
    rw (all (key_partition key n).0 first, all (key_partition key n).1 second) refl

module _ (sp : Sparkey) (fs : Files (Sparkey.World sp)) where
  pub same_partitions :
      (key value : Text) (s v : St sp fs)
      → add sp fs key value s ≡ (ok tt, v)
      → s.store.num_partitions ≡ v.store.num_partitions
  same_partitions key value s v h =
      sym (add-num_partitions sp fs key value s)
      ∙ ap (λ (x : Result Error Unit × St sp fs). x.1.store.num_partitions) h

module _ (sp : Sparkey) (fs : Files (Sparkey.World sp)) (u : Unwrap) (wanted : KeySet ℕ) where
  judge-Everything :
      (key : Text) (a : Assumption) (s : St sp fs) (file : SequenceFile)
      → 0 < s.store.num_partitions
      → Everything s.store.num_partitions wanted
      → judge wanted (noted sp fs u file wanted key a s) ≡ store
  unfolding judge noted Everything
  judge-Everything key a s file pos all =
      let (first, second) = key_partition_bounds key s.store.num_partitions pos in
      elim (note_taken (key_partition key s.store.num_partitions).0
        (key_partition key s.store.num_partitions).1 a) [
          | inl e ↦ rw (e, all (key_partition key s.store.num_partitions).0 first) refl
          | inr e ↦ rw (e, all (key_partition key s.store.num_partitions).1 second) refl
        ]

  add_keys_stores :
      (file : SequenceFile) (r : Text × Text) (rs : List (Text × Text)) (a : Assumption)
      (s : St sp fs) (key value : Text)
      → 0 < s.store.num_partitions
      → Everything s.store.num_partitions wanted
      → unwrap_key_value u file r ≡ some (key, value)
      → add_keys sp fs u file wanted (r ∷ rs) a s
        ≡ continue
            (as_build sp fs (add sp fs key value s))
            λ _ v. add_keys sp fs u file wanted rs (noted sp fs u file wanted key a s).1 v
  unfolding after_verdict
  add_keys_stores file r rs a s key value pos all good =
      add_keys-record sp fs u file wanted r rs a s key value good
      ∙ ap (after_verdict sp fs u file wanted r rs a s key value good)
          (judge-Everything key a s file pos all)

  stored_then :
      (m : Result Error Unit × St sp fs) (f : St sp fs → Result BuildError Unit × St sp fs)
      (t : St sp fs)
      → ((v : St sp fs) → m ≡ (ok tt, v) → f v ≡ (err wrong_partition, t) → ⊥)
      → continue (as_build sp fs m) (λ _ v. f v) ≡ (err wrong_partition, t)
      → ⊥
  stored_then (ok tt, v) f t next h = next v refl h
  stored_then (err e, v) f t next h =
      ground (arith, ap (λ (x : Result BuildError Unit × St sp fs). x.0) h)

  add_keys-not_given_up :
      (file : SequenceFile) (rs : List (Text × Text)) (a : Assumption) (s t : St sp fs)
      → 0 < s.store.num_partitions
      → Everything s.store.num_partitions wanted
      → add_keys sp fs u file wanted rs a s ≡ (err wrong_partition, t)
      → ⊥
  unfolding add_keys
  add_keys-not_given_up file [] a s t pos all h =
      ended file.fails (ap (λ (x : Result BuildError Unit × St sp fs). x.0) h)
    where
      ended :
          (b : Bool)
          → ◌≡◌ {A = Result BuildError Unit}
              (if b then err stream_error else ok tt)
              (err wrong_partition)
          → ⊥
      ended true e = ground (arith, e)
      ended false e = ground (arith, e)
  add_keys-not_given_up file (r ∷ rs) a s t pos all h =
      elim (Option-cases (unwrap_key_value u file r)) [
        | inl bad ↦ ground (
          arith,
          ap (λ (x : Result BuildError Unit × St sp fs). x.0)
              (sym (add_keys_corrupted sp fs u file wanted r rs a s bad) ∙ h),
        )
        | inr ((key, value), good) ↦
            stored_then (add sp fs key value s)
              (λ v. add_keys sp fs u file wanted rs (noted sp fs u file wanted key a s).1 v) t
              (λ v added.
                add_keys-not_given_up file rs (noted sp fs u file wanted key a s).1 v t
                  (subst (λ n. 0 < n) (same_partitions sp fs key value s v added) pos)
                  (subst (λ n. Everything n wanted) (same_partitions sp fs key value s v added)
                    all))
              (sym (add_keys_stores file r rs a s key value pos all good) ∙ h)
      ]

  -- A pair of the file, in its order, was added, or the same last values were.
  unfoldable pub KeepsAll : List (Text × Text) → St sp fs → St sp fs → Type 0
  KeepsAll pairs s t =
      (kept : List (Text × Text)) × (add_pairs sp fs kept s ≡ (ok tt, t))
      × ((key : Text) → last_value key kept ≡ last_value key pairs)

  pub add_file_keys-KeepsAll :
      (file : SequenceFile) (s t : St sp fs)
      → 0 < s.store.num_partitions
      → Everything s.store.num_partitions wanted
      → add_file_keys sp fs u file wanted s ≡ (ok tt, t)
      → (pairs : List (Text × Text)) × (unwrap_all u file file.records ≡ some pairs)
        × KeepsAll pairs s t
  unfolding KeepsAll
  add_file_keys-KeepsAll file s t pos all h =
      let (pairs, kept, unwrapped, added, _, keeps) =
        add_file_keys-Through sp fs u file wanted s t h in
      (
        pairs,
        unwrapped,
        (
          kept,
          added,
          λ key. (keeps key).0 (both_wanted-Everything s.store.num_partitions wanted key pos all),
        ),
      )

  pub add_file_keys-not_given_up :
      (file : SequenceFile) (s t : St sp fs)
      → 0 < s.store.num_partitions
      → Everything s.store.num_partitions wanted
      → add_file_keys sp fs u file wanted s ≡ (err wrong_partition, t)
      → ⊥
  unfolding add_file_keys
  add_file_keys-not_given_up file s t = add_keys-not_given_up file file.records at_start s t
