-- ===== src/Backend/Tests.antt =====
-- A directory of versions, and a bucket with two versions of one db.
use sequins.Prelude.{
  ◌≡◌, ◌≢◌, refl, Bool, true, false, Text, Text_eq, text_eq, codes, List, [], ◌∷◌, Result, ok, err,
  join, has_prefix, contains, add, filter, arith, ℕ, text_lt,
}
use sequins.Backend.{Info}
use sequins.Backend.Sorting.{Ascending}
use sequins.Backend.Local as Local
use sequins.Backend.Hdfs as Hdfs
use sequins.Backend.Listings.{names, has_version, list_versions-found}
use sequins.Backend.S3.{Listing, list_files}

abbrev entries : List Info
entries =
    record { name = codes "1"; is_dir = true }
    ∷ record { name = codes "2"; is_dir = false }
    ∷ record { name = codes "3"; is_dir = true }
    ∷ []

abbrev read_dir : Text → Result Text (List Info)
read_dir path = ok entries

abbrev nothing : Text → Bool
nothing path = false

entries-Ascending : Ascending (names entries)
unfolding Ascending text_lt
entries-Ascending = ((refl, (refl, tt)), ((refl, tt), (tt, tt)))

list_versions-found_example :
    (vs : List Text) × (Local.list_versions read_dir nothing
        (codes "r")
        (codes "d")
        (codes "1")
        false
      ≡ ok vs)
    × (Hdfs.list_versions read_dir nothing (codes "r") (codes "d") (codes "1") false ≡ ok vs)
    × ((v : Text)
        → contains vs v
          ≡ has_version read_dir nothing (codes "r") (codes "d") (codes "1") false v entries)
    × Ascending vs
list_versions-found_example =
    list_versions-found read_dir nothing (codes "r") (codes "d") (codes "1") false entries refl
      entries-Ascending

versions_above_1 :
    Local.list_versions read_dir nothing (codes "r") (codes "d") (codes "1") false
    ≡ ok (codes "3" ∷ [])
unfolding Local.list_versions text_lt
versions_above_1 = refl

abbrev bucket : List Text
bucket = codes "r/d/1/a" ∷ codes "r/d/10/b" ∷ []

abbrev pages : Text → Result Text (List (List Text))
pages prefix = ok (filter (λ key. has_prefix key prefix) bucket ∷ [])

abbrev no_objects : Text → Text → ℕ → Text → Result Text Listing
no_objects delimiter marker max prefix = err []

abbrev same : Text → Text
same s = s

files_of_1 :
    list_files pages no_objects same nothing (codes "r") (codes "d") (codes "1")
    ≡ ok (codes "a" ∷ codes "b" ∷ [])
unfolding list_files has_prefix join add text_eq text_lt
files_of_1 = refl

files_of_10 :
    list_files pages no_objects same nothing (codes "r") (codes "d") (codes "10")
    ≡ ok (codes "b" ∷ [])
unfolding list_files has_prefix join add text_eq
files_of_10 = refl

version_named : ◌≢◌ {A = Text} (codes "1") []
version_named = ground arith

in_10 : contains (codes "b" ∷ []) (codes "b") ≡ true
unfolding contains text_eq
in_10 = refl
