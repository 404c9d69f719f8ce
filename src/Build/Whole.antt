-- ===== src/Build/Whole.antt =====
-- A build of all partitions from all files, and what the store answers then.
use sequins.Prelude.{
  ℕ, ◌<◌, ◌≡◌, refl, sym, ap, subst, ◌∙◌, ◌⊎◌, Bool, Text, Text_eq, List, [], ◌∷◌, ◌++◌, Option,
  none, some, Result, ok, err, continue-eq-ok, arith, Bool-cases, inl, inr, KeySet, ◌>>=◌, length,
}
use sequins.Blocks.Sparkey.{Sparkey, Error, last_value, partition_not_found}
use sequins.Blocks.Manifest.{Files}
use sequins.Blocks.Store.{St, add, save, get, new}
use sequins.Blocks.Store.Adding.{add_pairs}
use sequins.Blocks.Store.Contents.{get-add_pairs-save}
use sequins.Build.{
  BuildError, wrong_partition, canceled, corrupted, stream_error, store_error, Unwrap, SequenceFile,
  add_file_keys, as_build, skip_wrong, add_file, add_each, add_files,
}
use sequins.Build.Kept.{unwrap_all, as_build_ok}
use sequins.Build.Everything.{
  Everything, KeepsAll, add_file_keys-KeepsAll, add_file_keys-not_given_up, same_partitions,
}

-- All pairs of the files, in their order.
pub pairs_of : Unwrap → List (Option SequenceFile) → Option (List (Text × Text))
pairs_of u [] = some []
pairs_of u (none ∷ files) = none
pairs_of u (some file ∷ files) =
    (unwrap_all u file file.records >>= λ first.
    (pairs_of u files >>= λ rest. some (first ++ rest)))

abbrev or_else : Option Text → Option Text → Option Text
or_else (some v) before = some v
or_else none before = before

last_value-append :
    (key : Text) (front back : List (Text × Text))
    → last_value key (front ++ back) ≡ or_else (last_value key back) (last_value key front)
unfolding last_value
last_value-append key [] back = ground arith
last_value-append key ((j, v) ∷ front) back = ground (arith, last_value-append key front back)

module _ (sp : Sparkey) (fs : Files (Sparkey.World sp)) where
  add_pairs-num_partitions :
      (kvs : List (Text × Text)) (s t : St sp fs)
      → add_pairs sp fs kvs s ≡ (ok tt, t)
      → s.store.num_partitions ≡ t.store.num_partitions
  unfolding add_pairs
  add_pairs-num_partitions [] s t h =
      ap (λ (x : Result Error Unit × St sp fs). x.1.store.num_partitions) h
  add_pairs-num_partitions ((key, value) ∷ kvs) s t h =
      let (_, v, added, later) =
        continue-eq-ok (add sp fs key value s) (λ _ x. add_pairs sp fs kvs x) h in
      same_partitions sp fs key value s v added ∙ add_pairs-num_partitions kvs v t later

  add_pairs-append :
      (front back : List (Text × Text)) (s m : St sp fs)
      → add_pairs sp fs front s ≡ (ok tt, m)
      → add_pairs sp fs (front ++ back) s ≡ add_pairs sp fs back m
  unfolding add_pairs
  add_pairs-append [] back s m h =
      ap (λ (x : Result Error Unit × St sp fs). add_pairs sp fs back x.1) h
  add_pairs-append ((key, value) ∷ front) back s m h =
      let (_, v, added, later) =
        continue-eq-ok (add sp fs key value s) (λ _ x. add_pairs sp fs front x) h in
      rw added (add_pairs-append front back v m later)

  module _ (u : Unwrap) (wanted : KeySet ℕ) where
    KeepsAll-append :
        (front back : List (Text × Text)) (s m t : St sp fs)
        → KeepsAll sp fs u wanted front s m
        → KeepsAll sp fs u wanted back m t
        → KeepsAll sp fs u wanted (front ++ back) s t
    unfolding KeepsAll
    KeepsAll-append front back s m t (kept, added, same) (kept', added', same') = (
      kept ++ kept',
      add_pairs-append kept kept' s m added ∙ added',
      λ key.
          last_value-append key kept kept'
          ∙ ap (λ o. or_else o (last_value key kept)) (same' key)
          ∙ ap (or_else (last_value key back)) (same key)
          ∙ sym (last_value-append key front back),
    )

    KeepsAll-num_partitions :
        (pairs : List (Text × Text)) (s t : St sp fs)
        → KeepsAll sp fs u wanted pairs s t
        → s.store.num_partitions ≡ t.store.num_partitions
    unfolding KeepsAll
    KeepsAll-num_partitions pairs s t (kept, added, same) = add_pairs-num_partitions kept s t added

    add_file-KeepsAll :
        (file : SequenceFile) (s t : St sp fs)
        → 0 < s.store.num_partitions
        → Everything s.store.num_partitions wanted
        → add_file sp fs u (some file) wanted s ≡ (ok tt, t)
        → (pairs : List (Text × Text)) × (unwrap_all u file file.records ≡ some pairs)
          × KeepsAll sp fs u wanted pairs s t
    unfolding add_file skip_wrong
    add_file-KeepsAll file s t pos all = go (add_file_keys sp fs u file wanted s) refl
      where
        go :
            (r : Result BuildError Unit × St sp fs)
            → add_file_keys sp fs u file wanted s ≡ r
            → skip_wrong sp fs r ≡ (ok tt, t)
            → (pairs : List (Text × Text)) × (unwrap_all u file file.records ≡ some pairs)
              × KeepsAll sp fs u wanted pairs s t
        go (ok tt, v) e h = add_file_keys-KeepsAll sp fs u wanted file s t pos all (e ∙ h)
        go (err wrong_partition, v) e h =
            absurd (add_file_keys-not_given_up sp fs u wanted file s v pos all e)
        go (err canceled, v) e h =
            absurd (ground (arith, ap (λ (x : Result BuildError Unit × St sp fs). x.0) h))
        go (err corrupted, v) e h =
            absurd (ground (arith, ap (λ (x : Result BuildError Unit × St sp fs). x.0) h))
        go (err stream_error, v) e h =
            absurd (ground (arith, ap (λ (x : Result BuildError Unit × St sp fs). x.0) h))
        go (err (store_error x), v) e h =
            absurd (ground (arith, ap (λ (x : Result BuildError Unit × St sp fs). x.0) h))

    add_each-KeepsAll :
        (stopped : ℕ → Bool) (files : List (Option SequenceFile)) (s t : St sp fs)
        → 0 < s.store.num_partitions
        → Everything s.store.num_partitions wanted
        → add_each sp fs u stopped files wanted s ≡ (ok tt, t)
        → (pairs : List (Text × Text)) × (pairs_of u files ≡ some pairs)
          × KeepsAll sp fs u wanted pairs s t
    unfolding add_each pairs_of KeepsAll add_pairs last_value
    add_each-KeepsAll stopped [] s t pos all h = (
      [],
      refl,
      ([], ap (λ (x : Result BuildError Unit × St sp fs). (ok tt, x.1)) h, λ key. refl),
    )
    add_each-KeepsAll stopped (none ∷ files) s t pos all h =
        elim (Bool-cases (stopped (length files))) [
          | inl stops ↦
              absurd (
                ground (arith, ap (λ (x : Result BuildError Unit × St sp fs). x.0) (rw stops at h)))
          | inr goes ↦
              absurd
                (ground (arith, ap (λ (x : Result BuildError Unit × St sp fs). x.0) (rw goes at h)))
        ]
    add_each-KeepsAll stopped (some file ∷ files) s t pos all h =
        elim (Bool-cases (stopped (length files))) [
          | inl stops ↦
              absurd (
                ground (arith, ap (λ (x : Result BuildError Unit × St sp fs). x.0) (rw stops at h)))
          | inr goes ↦
              let (_, m, first, later) =
                continue-eq-ok (add_file sp fs u (some file) wanted s)
                  (λ _ v. add_each sp fs u stopped files wanted v) (rw goes at h) in
              let (pairs, unwrapped, keeps) = add_file-KeepsAll file s m pos all first in
              let same : s.store.num_partitions ≡ m.store.num_partitions =
                KeepsAll-num_partitions pairs s m keeps in
              let (rest, unwrapped', keeps') =
                add_each-KeepsAll stopped files m t (subst (λ n. 0 < n) same pos)
                  (subst (λ n. Everything n wanted) same all) later in
              (
                pairs ++ rest,
                rw (unwrapped, unwrapped', pairs_of) refl,
                KeepsAll-append pairs rest s m t keeps keeps',
              )
        ]

    -- A build of all partitions of a version that has files, from an empty store: once it went
    -- through, what Get answers under a key is the last value that one of the files has under it, or none if
    -- there is none; or it refuses a key of a partition in which nothing is.
    pub get-add_files :
        (stopped : ℕ → Bool) (file : Option SequenceFile) (files : List (Option SequenceFile))
        (selected : KeySet ℕ) (path c : Text) (n size : ℕ) (w : sp.World) (t : St sp fs)
        → 0 < n
        → Everything n wanted
        → add_files sp fs u stopped
            (file ∷ files)
            selected
            wanted
            (record { store = new path n c size; world = w })
          ≡ (ok tt, t)
        → (pairs : List (Text × Text)) × (pairs_of u (file ∷ files) ≡ some pairs)
          × ((key : Text)
              → (get sp fs key t.store ≡ ok (last_value key pairs))
                ⊎ ((get sp fs key t.store ≡ err partition_not_found)
                    × (last_value key pairs ≡ none)))
    unfolding add_files KeepsAll new
    get-add_files stopped file files selected path c n size w t pos all h =
        let s : St sp fs = record { store = new path n c size; world = w } in
        let (_, m, added, saved) =
          continue-eq-ok (add_each sp fs u stopped (file ∷ files) wanted s)
            (λ _ v. as_build sp fs (save sp fs selected v)) h in
        let (pairs, unwrapped, (kept, adds, same)) =
          add_each-KeepsAll stopped (file ∷ files) s m pos all added in
        (
          pairs,
          unwrapped,
          λ key.
              subst
                (λ o.
                  (get sp fs key t.store ≡ ok o)
                  ⊎ ((get sp fs key t.store ≡ err partition_not_found) × (o ≡ none)))
                (same key)
                (get-add_pairs-save sp fs kept selected path c n size w m t adds
                  (as_build_ok sp fs (save sp fs selected m) t saved) key),
        )
