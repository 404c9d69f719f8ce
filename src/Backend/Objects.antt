-- ===== src/Backend/Objects.antt =====
-- What ListFiles of S3 answers, over a bucket of keys.
use sequins.Prelude.{
  ◌↔◌, ◌≡◌, ◌≢◌, refl, subst, sym, ap, ◌∙◌, Bool, true, false, ◌||◌, ◌&&◌, Text, Text_eq,
  text_eq_iff, List, [], ◌∷◌, ◌++◌, arith, Bool-cases, inl, inr, ℕ, contains, contains-add, ◌==◌,
  Result, ok, join, has_prefix, KeySet, add, append_assoc,
}
use sequins.Backend.{is_data_name, sort_strings}
use sequins.Backend.Sorting.{Sorted, sort_strings-Sorted, contains-sort_strings}
use sequins.Backend.S3.{Listing, list_files, add_pages, add_names, not_blank}
use sequins.Blocks.Block.{base}

unfoldable pub concat : List (List Text) → List Text
concat [] = []
concat (page ∷ pages) = page ++ concat pages

-- The pages of a listing hold the keys with the prefix, as S3 documents.
abbrev pub Pages : {E : Type 0} → List Text → (Text → Result E (List (List Text))) → Type 0
Pages {E} bucket list_objects_pages =
    (prefix : Text)
    → (pages : List (List Text)) × (list_objects_pages prefix ≡ ok pages)
      × ((key : Text)
          → contains (concat pages) key ≡ (contains bucket key && has_prefix key prefix))

-- Whether one of the keys, without its directories, is a data file of that name.
pub has_file : Text → List Text → Bool
has_file name [] = false
has_file name (key ∷ keys) =
    (base key == name && not_blank name && is_data_name name) || has_file name keys

contains-add_names :
    (name : Text) (keys : List Text) (res : KeySet Text)
    → contains (add_names keys res) name ≡ (has_file name keys || contains res name)
unfolding add_names has_file
contains-add_names name [] res = refl
contains-add_names name (key ∷ keys) res = elim (Bool-cases (base key == name)) [
  | inl same ↦ ground (
    arith,
    same,
    contains-add_names name keys (add (base key) res),
    contains-add_names name keys res,
    contains-add (base key) name res,
    ap (λ n. not_blank n && is_data_name n) ((text_eq_iff (base key) name).0 same),
  )
  | inr other ↦ ground (
    arith,
    other,
    contains-add_names name keys (add (base key) res),
    contains-add_names name keys res,
    contains-add (base key) name res,
  )
]

has_file-append :
    (name : Text) (xs ys : List Text)
    → has_file name (xs ++ ys) ≡ (has_file name xs || has_file name ys)
unfolding has_file
has_file-append name [] ys = refl
has_file-append name (x ∷ xs) ys = ground (arith, has_file-append name xs ys)

contains-add_pages :
    (name : Text) (pages : List (List Text)) (res : KeySet Text)
    → contains (add_pages pages res) name ≡ (has_file name (concat pages) || contains res name)
unfolding add_pages concat has_file
contains-add_pages name [] res = refl
contains-add_pages name (page ∷ pages) res = ground (
  arith,
  contains-add_pages name pages (add_names page res),
  contains-add_names name page res,
  has_file-append name page (concat pages),
)

has_prefix-append : (s p q : Text) → has_prefix s (p ++ q) ≡ true → has_prefix s p ≡ true
unfolding has_prefix
has_prefix-append s [] q h = ground arith
has_prefix-append [] (c ∷ p) q h = h
has_prefix-append (d ∷ s) (c ∷ p) q h = ground (arith, has_prefix-append s p q)

has_file-from :
    (name key : Text) (keys : List Text)
    → contains keys key ≡ true
    → base key ≡ name
    → (not_blank name && is_data_name name) ≡ true
    → has_file name keys ≡ true
unfolding has_file contains
has_file-from name key [] c b d = absurd (ground (arith, c))
has_file-from name key (k ∷ keys) c b d = elim (Bool-cases (k == key)) [
  | inl same ↦
      let e : (base k == name) ≡ true =
        (text_eq_iff (base k) name).1 (ap base ((text_eq_iff k key).0 same) ∙ b) in
      ground (arith, e, d)
  | inr other ↦ ground (arith, has_file-from name key keys (ground (arith, c, other)) b d)
]

-- A key that gives a file its name.
pub Source : Text → List Text → Type 0
Source name keys =
    (key : Text) × (contains keys key ≡ true)
    × (base key ≡ name)
    × ((not_blank name && is_data_name name) ≡ true)

has_file-Source : (name : Text) (keys : List Text) → has_file name keys ≡ true → Source name keys
unfolding has_file Source contains
has_file-Source name [] h = absurd (ground (arith, h))
has_file-Source name (k ∷ keys) h =
    elim (Bool-cases (base k == name && not_blank name && is_data_name name)) [
      | inl here ↦ (
        k,
        ground (arith, text_eq_iff k k),
        (text_eq_iff (base k) name).0 (ground (arith, here)),
        ground (arith, here),
      )
      | inr away ↦
          let (key, c, b, d) = has_file-Source name keys (ground (arith, h, away)) in
          (key, ground (arith, c), b, d)
    ]

module _ {E : Type 0} (list_objects_pages : Text → Result E (List (List Text)))
    (list_objects : Text → Text → ℕ → Text → Result E Listing) (prefix_string : Text → Text)
    (exists : Text → Bool) (root db : Text) (bucket : List Text)
    (documented : Pages bucket list_objects_pages) where
  pub list_files-keys :
      (version : Text)
      → (files : List Text) × (list_files list_objects_pages list_objects prefix_string exists root
            db version
          ≡ ok files)
        × Sorted files
        × ((name : Text)
            → (contains files name ≡ true) ↔ (
                (key : Text) × (contains bucket key ≡ true)
                × (has_prefix key (join (join root db) version) ≡ true)
                × (base key ≡ name)
                × ((not_blank name && is_data_name name) ≡ true)))
  unfolding list_files Source contains
  list_files-keys version =
      let (pages, listed, keys) = documented (join (join root db) version) in
      (
        sort_strings (add_pages pages []),
        rw (listed, list_files) refl,
        sort_strings-Sorted (add_pages pages []),
        λ name. (
          λ h.
              let (key, c, b, d) = has_file-Source name (concat pages) (
                ground (
                  arith,
                  h,
                  contains-sort_strings name (add_pages pages []),
                  contains-add_pages name pages [],
                )) in
              (key, ground (arith, c, keys key), ground (arith, c, keys key), b, d),
          λ s. ground (
            arith,
            contains-sort_strings name (add_pages pages []),
            contains-add_pages name pages [],
            has_file-from name s.0 (concat pages) (ground (arith, keys s.0, s.1, s.2)) s.3 s.4,
          ),
        ),
      )

  join-append : (p v w : Text) → v ≢ [] → join p (v ++ w) ≡ join p v ++ w
  unfolding join
  join-append p [] w h = absurd (h refl)
  join-append [] (c ∷ v) w h = refl
  join-append (d ∷ p) (c ∷ v) w h = ap (λ (t : Text). d ∷ t) (sym (append_assoc p (b'/' ∷ c ∷ v) w))

  -- The files of a version whose name is longer than another's, and begins with it, are listed as files
  -- of the other too, since the prefix that is asked for does not end in a slash.
  list_files-longer_name :
      (version more : Text) (files others : List Text)
      → version ≢ []
      → list_files list_objects_pages list_objects prefix_string exists root db version ≡ ok files
      → list_files list_objects_pages list_objects prefix_string exists root db (version ++ more)
        ≡ ok others
      → (name : Text) → contains others name ≡ true
      → contains files name ≡ true
  list_files-longer_name version more files others named h k name c =
      let (fs, hf, sorted, found) = list_files-keys version in
      let (gs, hg, sorted', found') = list_files-keys (version ++ more) in
      let same : fs ≡ files = ground (arith, h, hf) in
      let same' : gs ≡ others = ground (arith, k, hg) in
      let (key, inside, pre, named', data') =
        (found' name).0 (subst (λ x. contains x name ≡ true) (sym same') c) in
      let shorter : has_prefix key (join (join root db) version) ≡ true =
        has_prefix-append key (join (join root db) version) more (
          subst (λ x. has_prefix key x ≡ true) (join-append (join root db) version more named)
            pre) in
      subst (λ x. contains x name ≡ true) same
        ((found name).1 (key, inside, shorter, named', data'))
