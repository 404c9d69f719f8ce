-- ===== src/Blocks/Block.antt =====
-- blocks/block.go, blocks/record.go and blocks/block_writer.go: one block, and the writer that
-- makes one. A nil slice is `none`. A `Record` is the value that its iterator stands on; the pool
-- of iterators (blocks/iterpool.go) only saves allocations and is part of `seek`.
pub mod Writing
use sequins.Prelude.{
  ℕ, ◌+◌, ◌≡◌, Bool, true, false, not, ◌&&◌, ◌||◌, Text, codes, text_lt, Result, ok, err, Exec,
  continue, List, [], ◌∷◌, ◌++◌, Option, none, some, if◌then◌else◌, ◌==◌, Text_eq, native_keys,
  decimal5, join,
}
use sequins.Blocks.Sparkey.{Sparkey, Error}

pub record Block (R : Type 0) : Type 0 where
  pub id : Text
  pub name : Text
  pub partition : ℕ
  pub count : ℕ
  pub min_key : Option Text
  pub max_key : Option Text
  pub reader : R

pub record BlockWriter (L : Type 0) : Type 0 where
  pub min_key : Option Text
  pub max_key : Option Text
  pub count : ℕ
  pub partition : ℕ
  pub path : Text
  pub id : Text
  pub log : L

abbrev pub Compression : Type 0
Compression = Text

abbrev pub snappy_compression : Compression
snappy_compression = codes "snappy"

abbrev pub no_compression : Compression
no_compression = codes "none"

-- m != nil && bytes.Compare(key, m) < 0
abbrev pub below_min : Option Text → Text → Bool
below_min none key = false
below_min (some m) key = text_lt key m

-- m != nil && bytes.Compare(key, m) > 0
abbrev pub above_max : Option Text → Text → Bool
above_max none key = false
above_max (some m) key = text_lt m key

-- fmt.Sprintf("block-%05d-%s.spl", partition, id)
pub block_name : ℕ → Text → Text
block_name partition id = codes "block-" ++ decimal5 partition ++ codes "-" ++ id ++ codes ".spl"

-- m == nil || bytes.Compare(key, m) > 0, and the other way round
pub raise_max : Option Text → Text → Option Text
raise_max none key = some key
raise_max (some m) key = if text_lt m key then some key else some m

pub lower_min : Option Text → Text → Option Text
lower_min none key = some key
lower_min (some m) key = if text_lt key m then some key else some m

-- What stands behind the last slash.
pub base_from : Text → Text → Text
base_from seen [] = seen
base_from seen (c ∷ s) = base_from (if c == b'/' then [] else seen ++ c ∷ []) s

pub without_slashes : Text → Text
without_slashes [] = []
without_slashes (c ∷ s) =
    let rest = without_slashes s in if c == b'/' && rest == [] then [] else c ∷ rest

-- path.Base and filepath.Base: the slashes at the end do not count, the empty path is ".", and one
-- of slashes only is "/".
unfoldable pub base : Text → Text
unfolding base_from without_slashes
base [] = codes "."
base (c ∷ s) =
    let kept = without_slashes (c ∷ s) in if kept == [] then codes "/" else base_from [] kept

abbrev pub fresh_writer : {L : Type 0} → ℕ → Text → Text → L → BlockWriter L
fresh_writer partition path id log = record {
  min_key = none;
  max_key = none;
  count = 0;
  partition = partition;
  path = path;
  id = id;
  log = log;
}

module _ (sp : Sparkey) where
  open sp use {
    World, Log, Reader, new_uuid, create_log, put, write_hash_file, close_log, open_hash, seek,
    remove_file,
  }

  -- Block.Get
  unfoldable pub block_get : Block Reader → Text → Result Error (Option Text)
  block_get b key =
      if below_min b.min_key key
      then ok none
      else if above_max b.max_key key
      then ok none
      else seek b.reader key

  unfoldable pub new_block : Text → ℕ → Compression → ℕ → Exec World Error (BlockWriter Log)
  unfolding block_name
  new_block store_path partition compression block_size w =
      let (id, w') = new_uuid w in
      let path : Text = join store_path (block_name partition id) in
      continue (create_log path (compression == snappy_compression) block_size w')
        λ log w''. (ok (fresh_writer partition path id log), w'')

  unfoldable pub writer_add : Text → Text → Exec (BlockWriter Log) Error Unit
  unfolding raise_max lower_min
  writer_add key value bw =
      let (res, log) = put key value bw.log in
      (
        res,
        record bw {
          count = bw.count + 1;
          max_key = raise_max bw.max_key key;
          min_key = lower_min bw.min_key key;
          log = log;
        },
      )

  pub opened : BlockWriter Log → Result Error Reader → Result Error (Block Reader)
  unfolding base
  opened bw (err e) = err e
  opened bw (ok r) = ok (record {
    id = bw.id;
    name = base bw.path;
    partition = bw.partition;
    count = bw.count;
    min_key = bw.min_key;
    max_key = bw.max_key;
    reader = r;
  })

  unfoldable pub writer_save : BlockWriter Log → Exec World Error (Block Reader)
  unfolding opened
  writer_save bw w =
      continue (write_hash_file bw.log w)
        λ _ w'. continue (close_log bw.log w') λ _ w''. (opened bw (open_hash bw.path w''), w'')

  unfoldable pub writer_close : BlockWriter Log → World → World
  writer_close bw w = (close_log bw.log w).1

  unfoldable pub writer_delete : BlockWriter Log → World → World
  writer_delete bw w = remove_file bw.path w
