-- ===== src/Blocks/Tests.antt =====
-- A sparkey in memory, for which the interface's laws hold, and the store's theorems at a build of
-- three pairs over two partitions.
use sequins.Prelude.{
  ◌≡◌, refl, ap, sym, ◌∙◌, subst, Text, text_eq, codes, Result, ok, err, List, [], ◌∷◌, ◌++◌,
  Option, none, some, Text_eq, native_keys, arith, Map, lookup, insert, delete, lookup-insert_self,
  ◌⊎◌, decimal5, join,
}
use sequins.Hash.{key_partition}
use sequins.Blocks.Sparkey.{Sparkey, Error, io_error, partition_not_found, last_value}
use sequins.Blocks.Block.{new_block, writer_add, writer_save, no_compression}
use sequins.Blocks.Manifest.{
  Files, JsonManifest, FileContent, missing, parsed, write_manifest, with_defaults,
}
use sequins.Blocks.Store.{
  St, new, add, save, get, flush, new_from_manifest, saved_manifest, with_block,
}
use sequins.Blocks.Store.Adding.{add_pairs}
use sequins.Blocks.Store.Contents.{get-add_pairs-save}
use sequins.Blocks.Store.Reload.{grouped, Agrees, Filed, Readable, reloaded, reload-save}

abbrev pub Pairs : Type 0
Pairs = List (Text × Text)

pub record Disk : Type 0 where
  pub tables : Map Text Pairs
  pub manifests : Map Text JsonManifest

pub record MemoryLog : Type 0 where
  pub path : Text
  pub pairs : Pairs

abbrev pub opened_table : Option Pairs → Result Error Pairs
opened_table none = err io_error
opened_table (some t) = ok t

abbrev pub file_content : Option JsonManifest → FileContent
file_content none = missing
file_content (some j) = parsed j

pub opened-written :
    (path : Text) (t r : Pairs) (m : Map Text Pairs)
    → opened_table (lookup path (insert path t m)) ≡ ok r
    → t ≡ r
opened-written path t r m h = cc (h, lookup-insert_self path t m)

pub written-law :
    (l : MemoryLog) (w₁ w₂ w₃ : Disk) (r : Pairs) (k : Text)
    → ◌≡◌ {A = Result Error (Unit {0}) × Disk}
        (ok tt, record w₁ { tables = insert l.path l.pairs w₁.tables })
        (ok tt, w₂)
    → ◌≡◌ {A = Result Error (Unit {0}) × Disk} (ok tt, w₂) (ok tt, w₃)
    → opened_table (lookup l.path w₃.tables) ≡ ok r
    → ◌≡◌ {A = Result Error (Option Text)} (ok (last_value k r)) (ok (last_value k l.pairs))
written-law l w₁ w₂ w₃ r k hashed closed found =
    let disk = ap (λ x. x.1.tables) hashed ∙ ap (λ x. x.1.tables) closed in
    ap (λ t. ok (last_value k t))
      (sym (
        opened-written l.path l.pairs r w₁.tables
          (subst (λ m. opened_table (lookup l.path m) ≡ ok r) (sym disk) found)))

pub created-law :
    (path : Text) (w w' : Disk) (l : MemoryLog)
    → ◌≡◌ {A = Result Error MemoryLog × Disk}
        (ok (record { path = path; pairs = [] }), record w { tables = insert path [] w.tables })
        (ok l, w')
    → (l.pairs ≡ []) × (l.path ≡ path)
created-law path w w' l h = ground arith

abbrev pub memory : Sparkey
memory = record {
  World = Disk;
  Log = MemoryLog;
  Reader = Pairs;
  new_uuid = λ w. (codes "u", w);
  create_log = λ path _ _ w.
      (ok (record { path = path; pairs = [] }), record w { tables = insert path [] w.tables });
  put = λ k v l. (ok tt, record l { pairs = l.pairs ++ (k, v) ∷ [] });
  write_hash_file = λ l w. (ok tt, record w { tables = insert l.path l.pairs w.tables });
  close_log = λ l w. (ok tt, w);
  open_hash = λ path w. opened_table (lookup path w.tables);
  seek = λ r k. ok (last_value k r);
  remove_file = λ path w. record w { tables = delete path w.tables };
  logged = λ l. l.pairs;
  log_path = λ l. l.path;
  logged-create = λ path c n w w' l h. created-law path w w' l h;
  logged-put = λ k v l l' h. (sym (ap (λ x. x.1.pairs) h), sym (ap (λ x. x.1.path) h));
  seek-written = written-law;
}

abbrev pub disk_files : Files Disk
disk_files = record {
  read_file = λ path w. file_content (lookup path w.manifests);
  write_file = λ path j w. (ok tt, record w { manifests = insert path j w.manifests });
  remove_all = λ path w. (ok tt, w);
  read-written = λ path j w w' h.
      subst (λ m. file_content (lookup path m) ≡ parsed j) (ap (λ x. x.1.manifests) h)
        (ap file_content (lookup-insert_self path j w.manifests));
}

abbrev pub empty_disk : Disk
empty_disk = record { tables = []; manifests = [] }

abbrev pub three_pairs : Pairs
three_pairs = (codes "bar", codes "1") ∷ (codes "fol", codes "2") ∷ (codes "bar", codes "3") ∷ []

abbrev pub empty_store : St memory disk_files
empty_store = record { store = new (codes "/v") 20 no_compression 4096; world = empty_disk }

abbrev loaded : St memory disk_files
loaded = (add_pairs memory disk_files three_pairs empty_store).1

abbrev built : St memory disk_files
built = (save memory disk_files (11 ∷ 19 ∷ []) loaded).1

loaded_ok : add_pairs memory disk_files three_pairs empty_store ≡ (ok tt, loaded)
unfolding add_pairs add new_block writer_add new key_partition lookup insert
loaded_ok = refl

built_ok : save memory disk_files (11 ∷ 19 ∷ []) loaded ≡ (ok tt, built)
unfolding add_pairs add new_block writer_add new key_partition lookup insert save writer_save flush
    write_manifest text_eq join decimal5
built_ok = refl

get-add_pairs-save_example :
    (get memory disk_files (codes "bar") built.store ≡ ok (last_value (codes "bar") three_pairs))
    ⊎ ((get memory disk_files (codes "bar") built.store ≡ err partition_not_found)
        × (last_value (codes "bar") three_pairs ≡ none))
get-add_pairs-save_example =
    get-add_pairs-save memory disk_files three_pairs (11 ∷ 19 ∷ []) (codes "/v") no_compression 20
      4096 empty_disk loaded built loaded_ok built_ok (codes "bar")

loaded-Agrees : Agrees memory disk_files loaded.store
unfolding add_pairs add new_block writer_add new key_partition lookup insert grouped
loaded-Agrees = refl

loaded-Filed : Filed memory disk_files loaded.store.new_blocks
unfolding add_pairs add new_block writer_add new key_partition lookup insert
loaded-Filed = (refl, (refl, tt))

built-Readable : Readable memory disk_files built.store.path built.world built.store.blocks
unfolding add_pairs add new_block writer_add new key_partition lookup insert save writer_save flush
    write_manifest text_eq join decimal5 with_block
built-Readable = (refl, (refl, tt))

reload-save_example :
    new_from_manifest memory disk_files built.store.path built.world
    ≡ ok (
      reloaded memory disk_files built.store,
      with_defaults (saved_manifest built.store (11 ∷ 19 ∷ [])),
    )
reload-save_example =
    reload-save memory disk_files (11 ∷ 19 ∷ []) loaded built loaded-Agrees loaded-Filed built_ok
      built-Readable
