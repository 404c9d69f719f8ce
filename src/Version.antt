-- ===== src/Version.antt =====
-- version.go, and build of build.go: a version of a db, as the node makes it, builds it, serves it
-- and closes it. The three locks of a build make it one step; what it does between taking them and
-- giving them back is `build`. `none` is a panic.
pub mod Outcomes
pub mod Whole
pub mod Tests
use sequins.Prelude.{
  ℕ, Bool, true, false, not, Text, codes, List, [], ◌∷◌, Option, none, some, ◌>>=◌, Result, ok, err,
  if◌then◌else◌, KeySet, length, nat_eq,
}
use sequins.Blocks.Sparkey.{Sparkey, Error}
use sequins.Blocks.Block.{Compression}
use sequins.Blocks.Manifest.{Manifest, Files}
use sequins.Blocks.Store.{
  BlockStore, St, new, new_from_manifest, revert, get, close_store, delete_store,
}
use sequins.Build.{BuildError, canceled, Unwrap, SequenceFile, add_files}
use sequins.Partitions.{
  Partitions, Peers, Watcher, watch_partitions, update_local_partitions, needed, have, get_peers,
  close_partitions,
}
use sequins.Proxy.{ProxyResult}
use sequins.Serve.{Serving}
use sequins.Status.{VersionInfo, VersionState, version_building, version_error, set_state}

abbrev or_no_partitions : Option (KeySet ℕ) → KeySet ℕ
or_no_partitions none = []
or_no_partitions (some selected) = selected

module _ (sp : Sparkey) (fs : Files (Sparkey.World sp)) where
  open sp use {World}

  pub record Version : Type 0 where
    pub info : VersionInfo
    pub partitions : Partitions
    pub watcher : Watcher
    pub stored : St sp fs
    pub built : Bool
    -- whether the channel `cancel` is closed, and the channel `ready`
    pub cancel_closed : Bool
    pub ready_closed : Bool

  -- The store that was saved, with its partitions, or an empty one.
  unfoldable pub init_block_store :
      Compression
      → ℕ
      → Text
      → ℕ
      → Partitions
      → Watcher
      → World
      → Option (BlockStore sp.Log sp.Reader × Partitions × Watcher)
  init_block_store compression block_size path num_partitions p watcher w =
      elim (new_from_manifest sp fs path w) [
        | err e ↦ some (new path num_partitions compression block_size, p, watcher)
        | ok (store, manifest) ↦
            (update_local_partitions (or_no_partitions manifest.selected_partitions) p watcher
              >>= λ next. some (store, next.0, next.1))
      ]

  abbrev pub starting :
      VersionInfo
      → ℕ
      → Partitions
      → World
      → BlockStore sp.Log sp.Reader × Partitions × Watcher
      → Version
  starting info num_partitions p w (store, partitions, watcher) = record {
    info = record info {
      num_partitions = num_partitions;
      selected = p.selected;
      state = version_building;
    };
    partitions = partitions;
    watcher = watcher;
    stored = record { store = store; world = w };
    built = false;
    cancel_closed = false;
    ready_closed = partitions.ready_closed;
  }

  -- `files` is the backend's ListFiles, and `nodes` the first listing of the watched path.
  pub new_version :
      Option Peers
      → Text
      → VersionInfo
      → ℕ
      → Compression
      → ℕ
      → Text
      → List Text
      → Watcher
      → World
      → Option (List Text)
      → Option (Result Error Version)
  new_version peers db info replication compression block_size path nodes watcher w none =
      some (err sequins.Blocks.Sparkey.io_error)
  new_version peers db info replication compression block_size path nodes watcher w (some files) =
      (watch_partitions peers db info.name (length files) replication nodes >>= λ p.
      (init_block_store compression block_size path (length files) p watcher w >>= λ opened.
      some (ok (starting info (length files) p w opened))))

  -- The goroutine that waits for the partitions, or for the end.
  notice_ready : Version → Version
  notice_ready v =
      if v.partitions.ready_closed
      then record v { ready_closed = true }
      else if v.cancel_closed
      then record v { ready_closed = true }
      else v

  -- What is left of a build once the files are added, or not.
  pub finish_build : KeySet ℕ → ℕ → Version → Result BuildError Unit × St sp fs → Option Version
  finish_build wanted now v (ok u, t) =
      (update_local_partitions wanted v.partitions v.watcher >>= λ next.
      some (record v { partitions = next.0; watcher = next.1; stored = t; built = true }))
  finish_build wanted now v (err canceled, t) = some (record v { stored = revert sp fs t })
  finish_build wanted now v (err e, t) =
      some (record v { info = set_state version_error now v.info; stored = revert sp fs t })

  -- The rest of build, for a version that is not built. `made` tells whether the directory is there.
  pub build_needed :
      Unwrap → (ℕ → Bool) → List (Option SequenceFile) → Bool → ℕ → Version → Option Version
  unfolding finish_build
  build_needed u stopped files made now v =
      let wanted = needed v.partitions in
      if nat_eq (length wanted) 0
      then some (record v { built = true })
      else if made
      then finish_build wanted now v
          (add_files sp fs u stopped files v.partitions.selected wanted v.stored)
      else some (record v { info = set_state version_error now v.info })

  pub build : Unwrap → (ℕ → Bool) → List (Option SequenceFile) → Bool → ℕ → Version → Option Version
  unfolding build_needed
  build u stopped files made now v =
      if v.built then some v else build_needed u stopped files made now v

  -- What the handlers of a request ask of a version.
  pub serving :
      (ℕ → List ℕ) → (List Text → ProxyResult) → (List Text → ProxyResult) → Version → Serving
  serving perm first second v = record {
    name = v.info.name;
    num_partitions = v.info.num_partitions;
    have = have v.partitions;
    get_peers = λ i. get_peers i v.partitions;
    get = λ key. get sp fs key v.stored.store;
    perm = perm;
    proxy = first;
    proxy_again = second;
  }

  -- close, with what its goroutine does once no build holds the version: a channel that is closed twice panics.
  close : Version → Option Version
  close v =
      if v.cancel_closed
      then none
      else (close_partitions v.partitions v.watcher >>= λ next. some (record v {
        cancel_closed = true;
        partitions = next.0;
        watcher = next.1;
        stored = record v.stored { world = close_store sp fs v.stored };
      }))

  delete : Version → Result Error Unit × World
  delete v = delete_store sp fs v.stored
