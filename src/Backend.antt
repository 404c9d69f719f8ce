-- ===== src/Backend.antt =====
-- backend/: where the versions come from. Each backend answers with the names of dbs, the versions
-- of a db and the files of a version.
pub mod Local
pub mod Hdfs
pub mod S3
pub mod Sorting
pub mod Listings
pub mod Objects
pub mod Tests
use sequins.Prelude.{
  Bool, true, false, Text, List, [], ◌∷◌, has_prefix, not, ◌&&◌, text_lt, if◌then◌else◌, codes,
  ◌++◌, drop_slash, join,
}

-- !strings.HasPrefix(name, "_") && !strings.HasPrefix(name, ".")
unfoldable pub is_data_name : Text → Bool
is_data_name name = not (has_prefix name (b'_' ∷ [])) && not (has_prefix name (b'.' ∷ []))

-- sort.Strings
pub insert_string : Text → List Text → List Text
insert_string x [] = x ∷ []
insert_string x (y ∷ ys) =
    let rest = insert_string x ys in if text_lt y x then y ∷ rest else x ∷ y ∷ ys

unfoldable pub sort_strings : List Text → List Text
unfolding insert_string
sort_strings [] = []
sort_strings (x ∷ xs) = insert_string x (sort_strings xs)

-- What a directory's listing says of an entry.
pub record Info : Type 0 where
  pub name : Text
  pub is_dir : Bool

-- path.Join of several elements.
pub join_all : Text → List Text → Text
join_all path [] = path
join_all path (part ∷ parts) = join_all (join path part) parts
