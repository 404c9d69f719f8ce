-- ===== src/Backend/S3.antt =====
-- backend/s3_backend.go. The S3 client is a parameter: ListObjects and ListObjectsPages are functions of
-- what the source sets in their input, and `exists` is a GetObject without an error.
use sequins.Prelude.{
  ℕ, zero, suc, Bool, true, false, Text, Text_eq, codes, List, [], ◌∷◌, ◌++◌, Result, ok, err,
  Option, none, some, not, ◌&&◌, ◌||◌, if◌then◌else◌, join, KeySet, add, drop_slash, get_last?,
  nat_eq,
}
use sequins.Backend.{is_data_name, sort_strings, join_all}
use sequins.Blocks.Block.{base}

-- strings.TrimSpace(name) != "", on names whose only white space is blanks and line ends
unfoldable pub not_blank : Text → Bool
not_blank [] = false
not_blank (c ∷ s) = not (nat_eq c b' ' || nat_eq c 10 || nat_eq c 13 || nat_eq c 9) || not_blank s

-- strings.TrimSuffix(s, "/")
unfoldable pub trim_slash : Text → Text
trim_slash [] = []
trim_slash (c ∷ []) = if nat_eq c b'/' then [] else c ∷ []
trim_slash (c ∷ d ∷ s) = c ∷ trim_slash (d ∷ s)

pub record Listing : Type 0 where
  pub contents : List Text
  pub common_prefixes : Option (List Text)
  pub is_truncated : Bool

-- The names of a page's keys that are put into the set.
unfoldable pub add_names : List Text → KeySet Text → KeySet Text
unfolding is_data_name not_blank base
add_names [] res = res
add_names (key ∷ keys) res =
    let name = base key in
    add_names keys (if not_blank name && is_data_name name then add name res else res)

unfoldable pub add_pages : List (List Text) → KeySet Text → KeySet Text
unfolding add_names
add_pages [] res = res
add_pages (page ∷ pages) res = add_pages pages (add_names page res)

module _ {E : Type 0} (list_objects_pages : Text → Result E (List (List Text)))
    (list_objects : Text → Text → ℕ → Text → Result E Listing) (prefix_string : Text → Text)
    (exists : Text → Bool) (root : Text) where
  unfoldable pub list_files : Text → Text → Result E (List Text)
  unfolding add_pages sort_strings
  list_files db version = elim (list_objects_pages (join (join root db) version)) [
    | err e ↦ err e
    | ok pages ↦ ok (sort_strings (add_pages pages []))
  ]

  any_not_blank : List Text → Bool
  unfolding not_blank base
  any_not_blank [] = false
  any_not_blank (key ∷ keys) = not_blank (base key) || any_not_blank keys

  -- The loop over a page's common prefixes.
  pub list_prefixes : Text → List Text → List Text → Result E (List Text)
  unfolding any_not_blank trim_slash
  list_prefixes after [] res = ok res
  list_prefixes after (p ∷ ps) res = elim (list_objects [] after 3 (trim_slash p)) [
    | err e ↦ err e
    | ok resp ↦
        list_prefixes after ps
          (if any_not_blank resp.contents then res ++ base (trim_slash p) ∷ [] else res)
  ]

  -- The pages, on fuel; `none` if there is no fuel for another.
  pub list_dirs_loop : ℕ → Text → Text → List Text → Option (Result E (List Text))
  unfolding list_prefixes sort_strings
  list_dirs_loop zero dir after res = none
  list_dirs_loop (suc fuel) dir after res =
      elim (list_objects (b'/' ∷ []) after 1000 (dir ++ b'/' ∷ [])) [
        | err e ↦ some (err e)
        | ok resp ↦ elim resp.common_prefixes [
          | none ↦ some (ok (sort_strings res))
          | some prefixes ↦ elim (list_prefixes after prefixes res) [
            | err e ↦ some (err e)
            | ok found ↦ elim (get_last? prefixes) [
              | none ↦ some (ok (sort_strings found))
              | some last ↦ elim resp.is_truncated [
                | false ↦ some (ok (sort_strings found))
                | true ↦ list_dirs_loop fuel dir (prefix_string last) found
              ]
            ]
          ]
        ]
      ]

  pub list_dbs : ℕ → Option (Result E (List Text))
  unfolding list_dirs_loop
  list_dbs fuel = list_dirs_loop fuel root [] []

  pub with_success : Text → List Text → List Text
  with_success db [] = []
  with_success db (version ∷ versions) =
      let rest = with_success db versions in
      if exists (join (join (join root db) version) (codes "_SUCCESS"))
      then version ∷ rest
      else rest

  pub list_versions : ℕ → Text → Text → Bool → Option (Result E (List Text))
  unfolding list_dirs_loop with_success
  list_versions fuel db after check = elim (list_dirs_loop fuel (join root db) after []) [
    | none ↦ none
    | some (err e) ↦ some (err e)
    | some (ok versions) ↦ some (ok (if check then with_success db versions else versions))
  ]

pub display_url : Text → Text → List Text → Text
unfolding join_all
display_url bucket root parts = codes "s3://" ++ bucket ++ b'/' ∷ drop_slash (join_all root parts)
