-- ===== src/Version/Whole.antt =====
-- A node without peers: from the files of a version to the answers to requests.
use sequins.Prelude.{
  if_false, if◌then◌else◌, ℕ, ◌<◌, ◌≡◌, refl, sym, ap, subst, ◌∙◌, Bool, true, false, Text, List,
  [], ◌∷◌, Option, none, some, ◌>>=◌, >>=_some, Result, ok, err, KeySet, native_keys, length,
  nat_eq, arith, contains,
}
use mathlib.Core.Option.{some-injective}
use sequins.Hash.{key_partition}
use sequins.Hash.Partition.{key_partition_bounds}
use sequins.Blocks.Sparkey.{Sparkey, Error, last_value}
use sequins.Blocks.Block.{Compression}
use sequins.Blocks.Manifest.{Files}
use sequins.Blocks.Store.{St, new, new_from_manifest}
use sequins.Build.{
  BuildError, canceled, wrong_partition, corrupted, stream_error, store_error, Unwrap, SequenceFile,
  add_files,
}
use sequins.Build.Everything.{Everything}
use sequins.Build.Whole.{pairs_of, get-add_files}
use sequins.Partitions.{Partitions, Watcher, needed, watch_partitions, update_local_partitions}
use sequins.Partitions.Alone.{needed-alone, have-update_local_partitions}
use sequins.Proxy.{ProxyResult}
use sequins.Serve.{serve_key}
use sequins.Serve.Here.{Served, serve_key-Served}
use sequins.Status.{VersionInfo, version_error, set_state}
use sequins.Version.{
  Version, init_block_store, starting, new_version, finish_build, build_needed, build, serving,
}

module _ (sp : Sparkey) (fs : Files (Sparkey.World sp)) where
  open sp use {World}

  ok-injective : {A : Type 0} {a b : A} → ◌≡◌ {A = Result Error A} (ok a) (ok b) → a ≡ b
  ok-injective h = ground (arith, h)

  -- A version before its first build, on a node without peers and without data of the version.
  record Fresh (db path : Text) (n r size : ℕ) (c : Compression) (nodes : List Text) (w : World)
      (v : Version sp fs) : Type 0 where
    parts : v.info.num_partitions ≡ n
    watched : (version : Text) × (watch_partitions none db version n r nodes ≡ some v.partitions)
    empty : v.stored ≡ record { store = new path n c size; world = w }
    unbuilt : v.built ≡ false

  module _ (db path : Text) (info : VersionInfo) (r size : ℕ) (c : Compression)
      (nodes names : List Text) (watcher : Watcher) (w : World) where
    Fresh-starting :
        (p : Partitions) (v : Version sp fs)
        → watch_partitions none db info.name (length names) r nodes ≡ some p
        → ◌≡◌ {A = Option (Result Error (Version sp fs))}
            (some (
              ok (
                starting sp fs info
                  (length names)
                  p
                  w
                  (new path (length names) c size, p, watcher))))
            (some (ok v))
        → Fresh db path (length names) r size c nodes w v
    Fresh-starting p v watched makes =
        subst (Fresh db path (length names) r size c nodes w)
          (ok-injective (some-injective _ _ makes))
          (record { parts = refl; watched = (info.name, watched); empty = refl; unbuilt = refl })

    init_block_store-new :
        (p : Partitions) (e : Error)
        → new_from_manifest sp fs path w ≡ err e
        → init_block_store sp fs c size path (length names) p watcher w
          ≡ some (new path (length names) c size, p, watcher)
    unfolding init_block_store
    init_block_store-new p e no_manifest = rw (no_manifest, init_block_store) refl

    new_version-Fresh :
        (v : Version sp fs) (e : Error)
        → new_from_manifest sp fs path w ≡ err e
        → new_version sp fs none db info r c size path nodes watcher w (some names) ≡ some (ok v)
        → Fresh db path (length names) r size c nodes w v
    unfolding new_version
    new_version-Fresh v e no_manifest h =
        let (p, watched, opens) =
          >>=_some (watch_partitions none db info.name (length names) r nodes) _ h in
        Fresh-starting p v watched (
          sym (
            ap (λ o. o >>= λ opened. some (ok (starting sp fs info (length names) p w opened)))
              (init_block_store-new p e no_manifest))
          ∙ opens)

  still_unbuilt :
      (v x y : Version sp fs)
      → v.built ≡ false
      → y.built ≡ false
      → some y ≡ some x
      → x.built ≡ true
      → ⊥
  still_unbuilt v x y unbuilt same h built =
      let gone : y.built ≡ x.built = ap (λ (z : Version sp fs). z.built) (some-injective _ _ h) in
      ground (arith, sym same ∙ gone ∙ built)

  finish_build-built :
      (wanted : KeySet ℕ) (now : ℕ) (v x : Version sp fs) (m : Result BuildError Unit × St sp fs)
      → v.built ≡ false
      → finish_build sp fs wanted now v m ≡ some x
      → x.built ≡ true
      → (m ≡ (ok tt, x.stored))
        × (update_local_partitions wanted v.partitions v.watcher ≡ some (x.partitions, x.watcher))
        × (v.info ≡ x.info)
  unfolding finish_build
  finish_build-built wanted now v x (ok tt, t) unbuilt h built =
      let (next, updated, makes) =
        >>=_some (update_local_partitions wanted v.partitions v.watcher) _ h in
      (
        ap (λ (z : Version sp fs). (ok tt, z.stored)) (some-injective _ _ makes),
        updated
            ∙ ap (λ (z : Version sp fs). some (z.partitions, z.watcher)) (some-injective _ _ makes),
        ap (λ (z : Version sp fs). z.info) (some-injective _ _ makes),
      )
  finish_build-built wanted now v x (err canceled, t) unbuilt h built =
      absurd (still_unbuilt v x _ unbuilt unbuilt h built)
  finish_build-built wanted now v x (err wrong_partition, t) unbuilt h built =
      absurd (still_unbuilt v x _ unbuilt unbuilt h built)
  finish_build-built wanted now v x (err corrupted, t) unbuilt h built =
      absurd (still_unbuilt v x _ unbuilt unbuilt h built)
  finish_build-built wanted now v x (err stream_error, t) unbuilt h built =
      absurd (still_unbuilt v x _ unbuilt unbuilt h built)
  finish_build-built wanted now v x (err (store_error e), t) unbuilt h built =
      absurd (still_unbuilt v x _ unbuilt unbuilt h built)

  some_needed :
      (wanted : KeySet ℕ) (i : ℕ) → contains wanted i ≡ true → nat_eq (length wanted) 0 ≡ false
  unfolding contains
  some_needed [] i h = absurd (ground (arith, h))
  some_needed (j ∷ wanted) i h = ground arith

  module _ (u : Unwrap) (stopped : ℕ → Bool) (files : List (Option SequenceFile)) (now : ℕ)
      (v x : Version sp fs) where
    build-built :
        (made : Bool) (i : ℕ)
        → v.built ≡ false
        → contains (needed v.partitions) i ≡ true
        → build sp fs u stopped files made now v ≡ some x
        → x.built ≡ true
        → finish_build sp fs
            (needed v.partitions)
            now
            v
            (add_files sp fs u stopped files v.partitions.selected (needed v.partitions) v.stored)
          ≡ some x
    unfolding build build_needed
    build-built made i unbuilt wants h built = created made (
        sym (
          if_false (nat_eq (length (needed v.partitions)) 0) _
            (some_needed (needed v.partitions) i wants))
        ∙ sym (if_false v.built (some v) unbuilt)
        ∙ h)
      where
        created :
            (made : Bool)
            → (if made
                then finish_build sp fs (needed v.partitions) now v (
                    add_files sp fs u stopped files v.partitions.selected
                      (needed v.partitions)
                      v.stored)
                else some (record v { info = set_state version_error now v.info }))
              ≡ some x
            → finish_build sp fs (needed v.partitions) now v (
                add_files sp fs u stopped files v.partitions.selected
                  (needed v.partitions)
                  v.stored)
              ≡ some x
        created true e = e
        created false e = absurd (still_unbuilt v x _ unbuilt unbuilt e built)

  no_zero : (n : ℕ) → 0 < n → n ≡ 0 → ⊥
  no_zero n pos h = ground arith

  module _ (u : Unwrap) (stopped : ℕ → Bool) (file : Option SequenceFile)
      (files : List (Option SequenceFile)) (now : ℕ) (db path : Text) (info : VersionInfo)
      (r size : ℕ) (c : Compression) (nodes : List Text) (name : Text) (names : List Text)
      (watcher : Watcher) (w : World) (perm : ℕ → List ℕ)
      (first second : List Text → ProxyResult) where
    Fresh-serves :
        (n : ℕ) (made : Bool) (v x : Version sp fs)
        → 0 < n
        → Fresh db path n r size c nodes w v
        → build sp fs u stopped (file ∷ files) made now v ≡ some x
        → x.built ≡ true
        → (pairs : List (Text × Text)) × (pairs_of u (file ∷ files) ≡ some pairs)
          × ((proxied key : Text)
              → Served
                  (serving sp fs perm first second x)
                  (last_value key pairs)
                  (serve_key (serving sp fs perm first second x) proxied key))
    unfolding Everything serving
    Fresh-serves n made v x pos fresh builds built =
        let all : (i : ℕ) → i < n → contains (needed v.partitions) i ≡ true =
          needed-alone db fresh.watched.0 n r nodes v.partitions fresh.watched.1 in
        let (added, updated, same_info) =
          finish_build-built (needed v.partitions) now v x _ fresh.unbuilt
            (build-built u stopped (file ∷ files) now v x made 0 fresh.unbuilt (all 0 pos) builds
              built)
            built in
        let parts : x.info.num_partitions ≡ n =
          ap (λ (i : VersionInfo). i.num_partitions) (sym same_info) ∙ fresh.parts in
        let (pairs, unwrapped, answers) =
          get-add_files sp fs u (needed v.partitions) stopped file files v.partitions.selected path
            c n size w x.stored pos all
            (subst
              (λ s.
                add_files sp fs u stopped (file ∷ files) v.partitions.selected (needed v.partitions)
                  s
                ≡ (ok tt, x.stored))
              fresh.empty added) in
        (
          pairs,
          unwrapped,
          λ proxied key.
              serve_key-Served (serving sp fs perm first second x) proxied key
                (last_value key pairs) (λ zero_parts. no_zero n pos (sym parts ∙ zero_parts))
                (have-update_local_partitions v.partitions x.partitions v.watcher x.watcher
                  (needed v.partitions) (key_partition key x.info.num_partitions).0 updated
                  (all (key_partition key x.info.num_partitions).0 (
                    subst (λ m. (key_partition key m).0 < n) (sym parts)
                      (key_partition_bounds key n pos).0)))
                (answers key),
        )

    -- A node without peers that has no manifest of a version: `newVersion` makes a version of at
    -- least one file, and `build` of the files ends with `built` set. Then every file could be opened and
    -- has pairs only that can be unwrapped, and the answer to a GET of any key, proxied or not, is the last value
    -- that the files in their order have under it, with status 200; if they have none, the status is 404 or 500.
    pub build-Served :
        (made : Bool) (v x : Version sp fs) (e : Error)
        → new_from_manifest sp fs path w ≡ err e
        → new_version sp fs none db info r c size path nodes watcher w (some (name ∷ names))
          ≡ some (ok v)
        → build sp fs u stopped (file ∷ files) made now v ≡ some x
        → x.built ≡ true
        → (pairs : List (Text × Text)) × (pairs_of u (file ∷ files) ≡ some pairs)
          × ((proxied key : Text)
              → Served
                  (serving sp fs perm first second x)
                  (last_value key pairs)
                  (serve_key (serving sp fs perm first second x) proxied key))
    build-Served made v x e no_manifest makes =
        Fresh-serves (length (name ∷ names)) made v x (ground arith) (
          new_version-Fresh db path info r size c nodes (name ∷ names) watcher w v e no_manifest
            makes)
