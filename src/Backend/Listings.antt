-- ===== src/Backend/Listings.antt =====
-- What ListVersions of the local disk and of HDFS answers.
use sequins.Prelude.{
  ◌≡◌, refl, ap, Bool, true, false, not, ◌||◌, ◌&&◌, Text, Text_eq, text_eq_iff, codes, List, [],
  ◌∷◌, arith, Bool-cases, inl, inr, text_lt, contains, All, ◌==◌, if◌then◌else◌, Result, ok, join,
  map,
}
use sequins.Backend.{Info}
use sequins.Backend.Sorting.{Ascending}
use sequins.Backend.Local as Local
use sequins.Backend.Hdfs as Hdfs

abbrev pub names : List Info → List Text
names = map λ (f : Info). f.name

either_way :
    (P : List Text → Type 0) (b c : Bool) (xs : List Text) {ys : List Text}
    → P ys
    → P xs
    → P (if b then ys else if c then xs else ys)
either_way P true c xs p q = p
either_way P false true xs p q = q
either_way P false false xs p q = p

module _ {E : Type 0} (read_dir : Text → Result E (List Info)) (exists : Text → Bool)
    (root db after : Text) (check : Bool) where
  -- Whether the listing has a directory with a name above `after`, and a success file if that is asked.
  pub has_version : Text → List Info → Bool
  has_version v [] = false
  has_version v (f ∷ files) =
      (f.name == v
        && f.is_dir
        && text_lt after v
        && (not check || exists (join (join (join root db) v) (codes "_SUCCESS"))))
      || has_version v files

  contains-select_versions :
      (v : Text) (files : List Info)
      → contains (Local.select_versions read_dir exists root db after check files) v
        ≡ has_version v files
  unfolding Local.select_versions Local.check_for_success_file has_version contains
  contains-select_versions v [] = refl
  contains-select_versions v (f ∷ files) = elim (Bool-cases (f.name == v)) [
    | inl same ↦
        let e : f.name ≡ v = (text_eq_iff f.name v).0 same in
        ground (
          arith,
          same,
          contains-select_versions v files,
          ap (λ x. text_lt after x) e,
          ap (λ x. exists (join (join (join root db) x) (codes "_SUCCESS"))) e,
        )
    | inr other ↦ ground (arith, other, contains-select_versions v files)
  ]

  All-select_versions :
      (x : Text) (files : List Info)
      → All (λ y. text_lt x y ≡ true) (names files)
      → All
          (λ y. text_lt x y ≡ true)
          (Local.select_versions read_dir exists root db after check files)
  unfolding Local.select_versions
  All-select_versions x [] h = tt
  All-select_versions x (f ∷ files) h =
      let rest = All-select_versions x files h.1 in
      either_way (All (λ y. text_lt x y ≡ true)) (not f.is_dir)
        (text_lt after f.name
          && (not check
              || Local.check_for_success_file read_dir exists root (join (join root db) f.name)))
        (f.name ∷ Local.select_versions read_dir exists root db after check files) rest (h.0, rest)

  select_versions-Ascending :
      (files : List Info)
      → Ascending (names files)
      → Ascending (Local.select_versions read_dir exists root db after check files)
  unfolding Local.select_versions Ascending
  select_versions-Ascending [] h = tt
  select_versions-Ascending (f ∷ files) h =
      let rest = select_versions-Ascending files h.1 in
      either_way Ascending (not f.is_dir)
        (text_lt after f.name
          && (not check
              || Local.check_for_success_file read_dir exists root (join (join root db) f.name)))
        (f.name ∷ Local.select_versions read_dir exists root db after check files) rest
        (All-select_versions f.name files h.0, rest)

  hdfs-select_versions :
      (files : List Info)
      → Hdfs.select_versions read_dir exists root db after check files
        ≡ Local.select_versions read_dir exists root db after check files
  unfolding Hdfs.select_versions Local.select_versions Hdfs.check_for_success_file
      Local.check_for_success_file
  hdfs-select_versions [] = refl
  hdfs-select_versions (f ∷ files) = rw (hdfs-select_versions files) refl

  -- ListVersions of a directory that can be read, on the local disk and in HDFS alike: it lists exactly
  -- the names above `after` of directories, with a success file if that is asked; and in strictly
  -- ascending order if the directory was read in that order.
  pub list_versions-found :
      (files : List Info)
      → read_dir (join root db) ≡ ok files
      → Ascending (names files)
      → (vs : List Text) × (Local.list_versions read_dir exists root db after check ≡ ok vs)
        × (Hdfs.list_versions read_dir exists root db after check ≡ ok vs)
        × ((v : Text) → contains vs v ≡ has_version v files)
        × Ascending vs
  unfolding Local.list_versions Hdfs.list_versions
  list_versions-found files h sorted = (
    Local.select_versions read_dir exists root db after check files,
    rw (h, Local.list_versions) refl,
    rw (h, Hdfs.list_versions) (ap ok (hdfs-select_versions files)),
    λ v. contains-select_versions v files,
    select_versions-Ascending files sorted,
  )
