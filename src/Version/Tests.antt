-- ===== src/Version/Tests.antt =====
-- A version of two files on a node without peers, from its directory to its first answers.
use sequins.Prelude.{
  ℕ, ◌≡◌, refl, ◌⊎◌, true, false, Text, Text_eq, codes, List, [], ◌∷◌, Option, none, some, Result,
  ok, err, arith, contains, native_keys, insert, lookup, lookup-delete, Map, delete, text_eq_iff,
  text_eq, join, decimal5, length,
}
use sequins.Hash.{key_partition}
use sequins.Blocks.Sparkey.{Error, no_manifest, last_value}
use sequins.Blocks.Block.{new_block, writer_add, writer_save, no_compression}
use sequins.Blocks.Manifest.{write_manifest, read_manifest}
use sequins.Blocks.Store.{revert, add, new, new_from_manifest, save, flush}
use sequins.Blocks.Tests.{memory, disk_files, empty_disk, three_pairs, Pairs}
use sequins.Blocks.Store.Reverting.{Disposal}
use sequins.Build.{SequenceFile, add_files}
use sequins.Build.Tests.{raw, file_of}
use sequins.Build.Whole.{pairs_of}
use sequins.Partitions.{
  Partitions, pick_local_partitions, update_missing, needed, watch_partitions,
  update_local_partitions,
}
use sequins.Proxy.{ProxyResult, no_available_peers}
use sequins.Serve.{serve_key}
use sequins.Serve.Here.{Served}
use sequins.Status.{VersionInfo, version_building, version_error, set_state}
use sequins.Version.{Version, new_version, build, serving, init_block_store}
use sequins.Version.Outcomes.{IsSettled, Undone, build-IsSettled}
use sequins.Version.Whole.{build-Served}

abbrev two_files : List (Option SequenceFile)
two_files = some (file_of three_pairs) ∷ some (file_of ((codes "fol", codes "4") ∷ [])) ∷ []

abbrev one : VersionInfo
one = record {
  name = codes "1";
  display_path = codes "/data/db/1";
  num_partitions = 0;
  selected = [];
  state = version_building;
  created = 7;
  available = none;
}

abbrev names : List Text
names = codes "a" ∷ codes "b" ∷ []

abbrev first_version : Option (Result Error (Version memory disk_files))
first_version =
    new_version memory disk_files none (codes "db") one 1 no_compression 4096 (codes "/v") [] []
      empty_disk (some names)

abbrev alone : Partitions
alone = record {
  peers = none;
  zk_path = join (join (codes "partitions") (codes "db")) (codes "1");
  num_partitions = 2;
  replication = 1;
  selected = 0 ∷ 1 ∷ [];
  local = [];
  remote = [];
  num_missing = 2;
  ready_closed = false;
  should_advertise = false;
}

abbrev unbuilt : Version memory disk_files
unbuilt = record {
  info = record one { num_partitions = 2; selected = alone.selected };
  partitions = alone;
  watcher = [];
  stored = record { store = new (codes "/v") 2 no_compression 4096; world = empty_disk };
  built = false;
  cancel_closed = false;
  ready_closed = false;
}

no_manifest_there : new_from_manifest memory disk_files (codes "/v") empty_disk ≡ err no_manifest
unfolding new_from_manifest read_manifest lookup
no_manifest_there = refl

makes : first_version ≡ some (ok unbuilt)
unfolding new_version watch_partitions init_block_store new_from_manifest read_manifest new lookup
    sequins.Prelude.add contains pick_local_partitions update_missing
makes = refl

abbrev complete : Version memory disk_files
complete = record unbuilt {
  partitions = record alone { local = 0 ∷ 1 ∷ []; num_missing = 0; ready_closed = true };
  stored =
      (add_files memory disk_files raw (λ _. false) two_files (0 ∷ 1 ∷ []) (0 ∷ 1 ∷ [])
        unbuilt.stored).1;
  built = true;
}

builds : build memory disk_files raw (λ _. false) two_files true 8 unbuilt ≡ some complete
unfolding build add_files needed update_local_partitions add new_block writer_add new key_partition
    lookup insert contains save writer_save flush write_manifest text_eq join decimal5
    sequins.Prelude.add_all sequins.Prelude.add update_missing
builds = refl

abbrev no_peer : List Text → ProxyResult
no_peer _ = no_available_peers

unbuilt-IsSettled : IsSettled memory disk_files unbuilt
unfolding new
unbuilt-IsSettled = record { complete = λ h. absurd (ground (arith, h)); closed = refl }

removed_gone :
    (path : Text) (t : Pairs) (m : Map Text Pairs) → lookup path (delete path m) ≡ some t → ⊥
removed_gone path t m there =
    ground (arith, there, lookup-delete path path m, (text_eq_iff path path).1 refl)

there_before :
    (other path : Text) (t : Pairs) (m : Map Text Pairs)
    → lookup path (delete other m) ≡ some t
    → lookup path m ≡ some t
there_before other path t m there = ground (arith, there, lookup-delete other path m)

abbrev disposal : Disposal memory
disposal = record {
  There = λ path w. (t : Pairs) × (lookup path w.tables ≡ some t);
  removed = λ path w there. removed_gone path there.0 w.tables there.1;
  removes_only = λ other path w there. (there.0, there_before other path there.0 w.tables there.1);
  closes_only = λ log path w there. there;
}

-- The second file cannot be opened, when the first one's blocks are being written.
abbrev failing_files : List (Option SequenceFile)
failing_files = some (file_of three_pairs) ∷ none ∷ []

abbrev failed : Version memory disk_files
failed = record unbuilt {
  info = set_state version_error 8 unbuilt.info;
  stored =
      revert memory disk_files
        (add_files memory disk_files raw (λ _. false) failing_files (0 ∷ 1 ∷ []) (0 ∷ 1 ∷ [])
          unbuilt.stored).1;
}

fails : build memory disk_files raw (λ _. false) failing_files true 8 unbuilt ≡ some failed
unfolding build add_files needed add new_block writer_add new key_partition lookup insert contains
    text_eq join decimal5
fails = refl

build-IsSettled_example :
    IsSettled memory disk_files failed
    × ((false ≡ true)
        ⊎ Undone memory disk_files disposal raw (λ _. false) failing_files true unbuilt failed)
build-IsSettled_example =
    build-IsSettled memory disk_files disposal raw (λ _. false) failing_files true unbuilt 8 failed
      unbuilt-IsSettled fails

build-Served_example :
    (pairs : List (Text × Text)) × (pairs_of raw two_files ≡ some pairs)
    × ((proxied key : Text)
        → Served
            (serving memory disk_files (λ n. []) no_peer no_peer complete)
            (last_value key pairs)
            (serve_key (serving memory disk_files (λ n. []) no_peer no_peer complete) proxied key))
build-Served_example =
    build-Served memory disk_files raw (λ _. false) (some (file_of three_pairs))
      (some (file_of ((codes "fol", codes "4") ∷ [])) ∷ []) 8 (codes "db") (codes "/v") one 1 4096
      no_compression [] (codes "a") (codes "b" ∷ []) [] empty_disk (λ n. []) no_peer no_peer true
      unbuilt complete no_manifest no_manifest_there makes builds refl
