-- ===== src/Blocks/Manifest.antt =====
-- blocks/manifest.go: the manifest of a block store and the file that holds it. A `JsonManifest`
-- is the object in that file, by the tags of the struct: a key that is absent or null is `none`.
use sequins.Prelude.{
  ℕ, suc, zero, ◌+◌, ◌≡◌, refl, Text, Result, ok, err, List, [], ◌∷◌, Option, none, some,
  if◌then◌else◌, ◌==◌, Text_eq, native_keys,
}
use sequins.Blocks.Sparkey.{Error, no_manifest, wrong_version, io_error}
use sequins.Blocks.Block.{Compression, snappy_compression}

abbrev pub manifest_version : ℕ
manifest_version = 3

pub record BlockManifest : Type 0 where
  pub id : Text
  pub name : Text
  pub partition : ℕ
  pub count : ℕ
  pub min_key : Option Text
  pub max_key : Option Text

pub record Manifest : Type 0 where
  pub version : ℕ
  pub blocks : List BlockManifest
  pub num_partitions : ℕ
  pub selected_partitions : Option (List ℕ)
  pub compression : Compression
  pub block_size : ℕ

pub record JsonManifest : Type 0 where
  pub version : Option ℕ
  pub blocks : Option (List BlockManifest)
  pub num_partitions : Option ℕ
  pub selected_partitions : Option (List ℕ)
  pub compression : Option Compression
  pub block_size : Option ℕ

-- What opening, reading and parsing a file may come to.
pub data FileContent : Type 0 where
  missing : FileContent
  unreadable : FileContent
  parsed : JsonManifest → FileContent

-- The file system, for the manifest's file.
pub record Files (W : Type 0) : Type 0 where
  pub read_file : Text → W → FileContent
  pub write_file : Text → JsonManifest → W → Result Error (Unit {0}) × W
  pub remove_all : Text → W → Result Error (Unit {0}) × W
  pub read-written :
      (path : Text) (j : JsonManifest) (w w' : W)
      → write_file path j w ≡ (ok tt, w')
      → read_file path w' ≡ parsed j

abbrev or_default : {A : Type 0} → Option A → A → A
or_default none d = d
or_default (some a) d = a

-- json.Marshal writes every field.
pub marshal : Manifest → JsonManifest
marshal m = record {
  version = some m.version;
  blocks = some m.blocks;
  num_partitions = some m.num_partitions;
  selected_partitions = m.selected_partitions;
  compression = some m.compression;
  block_size = some m.block_size;
}

-- json.Unmarshal into the zero manifest.
pub unmarshal : JsonManifest → Manifest
unmarshal j = record {
  version = or_default j.version 0;
  blocks = or_default j.blocks [];
  num_partitions = or_default j.num_partitions 0;
  selected_partitions = j.selected_partitions;
  compression = or_default j.compression [];
  block_size = or_default j.block_size 0;
}

count_up : ℕ → ℕ → List ℕ
count_up i zero = []
count_up i (suc n) = i ∷ count_up (i + 1) n

-- The loop over `range m.SelectedPartitions`: 0, 1, …, n - 1.
pub all_partitions : ℕ → List ℕ
unfolding count_up
all_partitions n = count_up 0 n

abbrev selected_or_all : ℕ → Option (List ℕ) → Option (List ℕ)
selected_or_all n none = some (all_partitions n)
selected_or_all n (some l) = some l

-- What readManifest fills in.
unfoldable pub with_defaults : Manifest → Manifest
with_defaults m = record m {
  compression = if m.compression == [] then snappy_compression else m.compression;
  selected_partitions = selected_or_all m.num_partitions m.selected_partitions;
}

pub checked : Manifest → Result Error Manifest
unfolding with_defaults
checked m = if m.version == manifest_version then ok (with_defaults m) else err wrong_version

unfoldable pub read_content : FileContent → Result Error Manifest
unfolding checked unmarshal
read_content missing = err no_manifest
read_content unreadable = err io_error
read_content (parsed j) = checked (unmarshal j)

module _ {W : Type 0} (fs : Files W) where
  -- os.IsNotExist on the error is `no_manifest` here already.
  unfoldable pub read_manifest : Text → W → Result Error Manifest
  unfolding read_content
  read_manifest path w = read_content (fs.read_file path w)

  unfoldable pub write_manifest : Text → Manifest → W → Result Error Unit × W
  unfolding marshal
  write_manifest path m w = fs.write_file path (marshal m) w

  -- A manifest that was written is read back as it was, up to the two defaults; one of another
  -- version is refused.
  pub read-write_manifest :
      (path : Text) (m : Manifest) (w w' : W)
      → write_manifest path m w ≡ (ok tt, w')
      → read_manifest path w'
        ≡ (if m.version == manifest_version then ok (with_defaults m) else err wrong_version)
  unfolding read_manifest write_manifest
  read-write_manifest path m w w' h =
      rw (fs.read-written path (unfold marshal in marshal m) w w' h) refl
