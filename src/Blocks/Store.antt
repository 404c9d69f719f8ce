-- ===== src/Blocks/Store.antt =====
-- blocks/block_store.go. The lock of the store makes each method atomic. A nil entry of `BlockMap`
-- is an absent one. The methods work on the store and the disk together.
pub mod Adding
pub mod Contents
pub mod Reload
pub mod Reverting
pub mod Saving
use sequins.Prelude.{
  ℕ, ◌≡◌, Bool, true, false, ◌&&◌, Text, codes, Result, ok, err, Exec, continue, List, [], ◌∷◌,
  ◌++◌, Option, none, some, if◌then◌else◌, ◌==◌, native_keys, Map, lookup, insert, KeySet, map,
  join,
}
use sequins.Hash.{key_partition}
use sequins.Blocks.Sparkey.{Sparkey, Error, no_manifest, partition_not_found}
use sequins.Blocks.Block.{
  Block, BlockWriter, Compression, block_get, new_block, writer_add, writer_save, writer_close,
  writer_delete,
}
use sequins.Blocks.Manifest.{
  Manifest, BlockManifest, Files, manifest_version, read_manifest, write_manifest,
}

pub record BlockStore (L R : Type 0) : Type 0 where
  pub path : Text
  pub compression : Compression
  pub block_size : ℕ
  pub num_partitions : ℕ
  pub new_blocks : Map ℕ (BlockWriter L)
  pub blocks : List (Block R)
  pub block_map : Map ℕ (List (Block R))

pub record Stored (L R W : Type 0) : Type 0 where
  pub store : BlockStore L R
  pub world : W

unfoldable pub new : {L R : Type 0} → Text → ℕ → Compression → ℕ → BlockStore L R
new path num_partitions compression block_size = record {
  path = path;
  compression = compression;
  block_size = block_size;
  num_partitions = num_partitions;
  new_blocks = [];
  blocks = [];
  block_map = [];
}

module _ {R : Type 0} where
  abbrev pub or_empty : Option (List (Block R)) → List (Block R)
  or_empty none = []
  or_empty (some bs) = bs

  -- BlockMap[partition]
  unfoldable pub blocks_at : ℕ → Map ℕ (List (Block R)) → List (Block R)
  blocks_at partition m = or_empty (lookup partition m)

  unfoldable pub append_block : ℕ → Block R → Map ℕ (List (Block R)) → Map ℕ (List (Block R))
  unfolding blocks_at
  append_block partition b m = insert partition (blocks_at partition m ++ b ∷ []) m

  unfoldable pub block_manifest : Block R → BlockManifest
  block_manifest b = record {
    id = b.id;
    name = b.name;
    partition = b.partition;
    count = b.count;
    min_key = b.min_key;
    max_key = b.max_key;
  }

abbrev absent : {A : Type 0} → Option A → Bool
absent none = true
absent (some a) = false

module _ {L R : Type 0} where
  unfoldable pub with_block : ℕ → Block R → BlockStore L R → BlockStore L R
  unfolding append_block
  with_block partition b s = record s {
    blocks = s.blocks ++ b ∷ [];
    block_map = append_block partition b s.block_map;
  }

  -- The manifest that Save writes; the fields that it leaves out have their zero values.
  pub saved_manifest : BlockStore L R → KeySet ℕ → Manifest
  unfolding block_manifest
  saved_manifest s selected = record {
    version = manifest_version;
    blocks = map block_manifest s.blocks;
    num_partitions = s.num_partitions;
    selected_partitions = some selected;
    compression = [];
    block_size = 0;
  }

module _ (sp : Sparkey) (fs : Files (Sparkey.World sp)) where
  open sp use {World, Log, Reader, open_hash}

  abbrev pub St : Type 0
  St = Stored Log Reader World

  -- newBlocks[partition] is a pointer: the writer is changed in its place.
  unfoldable pub put_block : Text → Text → ℕ → BlockWriter Log → Exec St Error Unit
  put_block key value partition bw s =
      let (res, bw') = writer_add sp key value bw in
      (
        res,
        record s {
          store = record s.store { new_blocks = insert partition bw' s.store.new_blocks };
        },
      )

  pub created_block :
      Text → Text → ℕ → St → Result Error (BlockWriter Log) × World → Result Error Unit × St
  unfolding put_block
  created_block key value partition s (err e, w) = (err e, record s { world = w })
  created_block key value partition s (ok bw, w) =
      put_block key value partition bw (record s { world = w })

  pub add_to : Text → Text → ℕ → Option (BlockWriter Log) → Exec St Error Unit
  unfolding put_block created_block
  add_to key value partition (some bw) s = put_block key value partition bw s
  add_to key value partition none s =
      created_block key value partition s
        (new_block sp s.store.path partition s.store.compression s.store.block_size s.world)

  unfoldable pub add : Text → Text → Exec St Error Unit
  unfolding add_to
  add key value s =
      let partition = (key_partition key s.store.num_partitions).0 in
      add_to key value partition (lookup partition s.store.new_blocks) s

  abbrev pub after_save :
      St
      → Result Error (Block Reader) × World
      → (Block Reader → World → Result Error Unit × St)
      → Result Error Unit × St
  after_save s (ok b, w) next = next b w
  after_save s (err e, w) next = (err e, record s { world = w })

  -- The first loop of Save: what was appended before an error stays.
  unfoldable pub flush : Map ℕ (BlockWriter Log) → Exec St Error Unit
  flush [] s = (ok tt, s)
  flush ((partition, bw) ∷ rest) s =
      after_save s (writer_save sp bw s.world)
        λ b w. flush rest (record { store = with_block partition b s.store; world = w })

  pub save_manifest : KeySet ℕ → Exec St Error Unit
  unfolding saved_manifest
  save_manifest selected s =
      let (res, w) =
        write_manifest fs (join s.store.path (codes ".manifest")) (saved_manifest s.store selected)
          s.world in
      (res, record s { world = w })

  -- Save
  unfoldable pub save : KeySet ℕ → Exec St Error Unit
  unfolding flush save_manifest
  save selected s =
      continue (flush s.store.new_blocks s)
        λ _ t. save_manifest selected (record t { store = record t.store { new_blocks = [] } })

  abbrev pub next_block :
      Result Error (Option Text) → Result Error (Option Text) → Result Error (Option Text)
  next_block (err e) rest = err e
  next_block (ok none) rest = rest
  next_block (ok (some v)) rest = ok (some v)

  -- One loop of Get. Reading a block changes nothing, so the rest may be computed first.
  unfoldable pub scan : List (Block Reader) → Text → Result Error (Option Text)
  scan [] key = ok none
  scan (b ∷ bs) key = next_block (block_get sp b key) (scan bs key)

  unfoldable pub get : Text → BlockStore Log Reader → Result Error (Option Text)
  unfolding scan
  get key s =
      let (partition, alternate) = key_partition key s.num_partitions in
      if absent (lookup partition s.block_map) && absent (lookup alternate s.block_map)
      then err partition_not_found
      else next_block (scan (blocks_at partition s.block_map) key)
          (if alternate == partition then ok none else scan (blocks_at alternate s.block_map) key)

  pub revert_blocks : Map ℕ (BlockWriter Log) → World → World
  revert_blocks [] w = w
  revert_blocks ((partition, bw) ∷ rest) w =
      revert_blocks rest (writer_delete sp bw (writer_close sp bw w))

  pub revert : St → St
  unfolding revert_blocks
  revert s = record {
    store = record s.store { new_blocks = [] };
    world = revert_blocks s.store.new_blocks s.world;
  }

  -- Delete
  pub delete_store : St → Result Error Unit × World
  delete_store s = fs.remove_all s.store.path s.world

  pub with_reader : BlockManifest → Result Error Reader → Result Error (Block Reader)
  with_reader n (err e) = err e
  with_reader n (ok r) = ok (record {
    id = n.id;
    name = n.name;
    partition = n.partition;
    count = n.count;
    min_key = n.min_key;
    max_key = n.max_key;
    reader = r;
  })

  pub load_block : Text → BlockManifest → World → Result Error (Block Reader)
  unfolding with_reader
  load_block path m w = with_reader m (open_hash (join path m.name) w)

  abbrev pub and_then : {A B : Type 0} → Result Error A → (A → Result Error B) → Result Error B
  and_then (ok a) f = f a
  and_then (err e) f = err e

  pub load_blocks :
      Text
      → List BlockManifest
      → World
      → BlockStore Log Reader
      → Result Error (BlockStore Log Reader)
  unfolding load_block
  load_blocks path [] w s = ok s
  load_blocks path (m ∷ ms) w s =
      and_then (load_block path m w) λ b. load_blocks path ms w (with_block m.partition b s)

  unfoldable pub new_from_manifest : Text → World → Result Error (BlockStore Log Reader × Manifest)
  unfolding load_blocks
  new_from_manifest path w = and_then (read_manifest fs (join path (codes ".manifest")) w) λ m.
      and_then (load_blocks path m.blocks w (new path m.num_partitions m.compression m.block_size))
        λ s. ok (s, m)

  close_writers : Map ℕ (BlockWriter Log) → World → World
  close_writers [] w = w
  close_writers ((partition, bw) ∷ rest) w = close_writers rest (writer_close sp bw w)

  -- Close. Closing a hash reader frees memory only.
  pub close_store : St → World
  unfolding close_writers
  close_store s = close_writers s.store.new_blocks s.world
