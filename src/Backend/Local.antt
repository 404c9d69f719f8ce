-- ===== src/Backend/Local.antt =====
-- backend/backend.go: a directory tree on the local disk. `read_dir` is ioutil.ReadDir, and
-- `exists` is os.Stat without an error.
use sequins.Prelude.{
  Bool, Text, codes, List, [], ◌∷◌, Result, ok, err, not, ◌&&◌, ◌||◌, text_lt, if◌then◌else◌, join,
}
use sequins.Backend.{is_data_name, Info, join_all}
use sequins.Blocks.Block.{base}

module _ {E : Type 0} (read_dir : Text → Result E (List Info)) (exists : Text → Bool)
    (root : Text) where
  unfoldable pub list_dirs : List Info → List Text
  list_dirs [] = []
  list_dirs (f ∷ files) = let rest = list_dirs files in if not f.is_dir then rest else f.name ∷ rest

  unfoldable pub list_dbs : Result E (List Text)
  unfolding list_dirs
  list_dbs = elim (read_dir root) [ err e ↦ err e | ok files ↦ ok (list_dirs files) ]

  unfoldable pub check_for_success_file : Text → Bool
  check_for_success_file path = exists (join path (codes "_SUCCESS"))

  unfoldable pub select_versions : Text → Text → Bool → List Info → List Text
  unfolding check_for_success_file
  select_versions db after check [] = []
  select_versions db after check (f ∷ files) =
      let rest = select_versions db after check files in
      let full_path = join (join root db) f.name in
      if not f.is_dir
      then rest
      else if text_lt after f.name && (not check || check_for_success_file full_path)
      then f.name ∷ rest
      else rest

  unfoldable pub list_versions : Text → Text → Bool → Result E (List Text)
  unfolding select_versions
  list_versions db after check = elim (read_dir (join root db)) [
    | err e ↦ err e
    | ok files ↦ ok (select_versions db after check files)
  ]

  unfoldable pub select_files : List Info → List Text
  unfolding is_data_name base
  select_files [] = []
  select_files (f ∷ infos) =
      let rest = select_files infos in
      if not f.is_dir && is_data_name f.name then base f.name ∷ rest else rest

  unfoldable pub list_files : Text → Text → Result E (List Text)
  unfolding select_files
  list_files db version = elim (read_dir (join (join root db) version)) [
    | err e ↦ err e
    | ok infos ↦ ok (select_files infos)
  ]

pub display_path : Text → List Text → Text
unfolding join_all
display_path root parts = join_all root parts
