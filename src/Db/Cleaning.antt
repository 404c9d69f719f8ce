-- ===== src/Db/Cleaning.antt =====
-- cleanupStore of db.go: the directories in the local store that belong to no version of the mux.
use sequins.Prelude.{
  ◌≡◌, refl, sym, ap, subst, ◌∙◌, Bool, true, false, Text, Text_eq, List, [], ◌∷◌, Option, none,
  some,
}
use sequins.Mux.{Mux, Version, Outcome, done}
use sequins.Db.{look_version, ◌>>>◌}
use sequins.Db.Looking.{View, view, IsKeyed, Looked, look_version-Looked}

abbrev listed : Text → Option Version → List Text × Mux → Outcome (List Text × Mux)
listed name (some v) rest = done rest
listed name none (names, mux) = done (name ∷ names, mux)

-- The loop, over the names of what is in the store and whether it is a directory: the
-- directories that are removed.
pub cleanup_dirs : List (Text × Bool) → Mux → Outcome (List Text × Mux)
cleanup_dirs [] mux = done ([], mux)
cleanup_dirs ((name, false) ∷ dirs) mux = cleanup_dirs dirs mux
cleanup_dirs ((name, true) ∷ dirs) mux = look_version name mux >>> λ looked.
    cleanup_dirs dirs looked.1 >>> λ rest. listed name looked.0 rest

-- The directories that have no version's name.
pub defunct : View → List (Text × Bool) → List Text
defunct s [] = []
defunct s ((name, false) ∷ dirs) = defunct s dirs
defunct s ((name, true) ∷ dirs) = elim (s.held_at name) [
  | some v ↦ defunct s dirs
  | none ↦ name ∷ defunct s dirs
]

-- Where the entries of a mux stand under the names of their versions, and the current version is among them:
-- the removal of what is left over from before ends without a panic, it removes exactly the directories
-- that do not have the name of a version in the mux, and the mux shows the versions that it showed.
pub cleanup_dirs-defunct :
    (dirs : List (Text × Bool)) (mux : Mux)
    → IsKeyed (view mux)
    → (m : Mux) × (cleanup_dirs dirs mux ≡ done (defunct (view mux) dirs, m)) × (view m ≡ view mux)
unfolding cleanup_dirs defunct
cleanup_dirs-defunct [] mux keyed = (mux, refl, refl)
cleanup_dirs-defunct ((name, false) ∷ dirs) mux keyed = cleanup_dirs-defunct dirs mux keyed
cleanup_dirs-defunct ((name, true) ∷ dirs) mux keyed =
    let l : Looked (look_version name mux) ((view mux).held_at name) mux =
      look_version-Looked name mux keyed in
    let (m, ends, same) = cleanup_dirs-defunct dirs l.after (subst IsKeyed (sym l.same) keyed) in
    (
      m,
      ap (λ o. o >>> λ looked. cleanup_dirs dirs looked.1 >>> λ rest. listed name looked.0 rest)
            l.returns
          ∙ ap (λ o. o >>> λ rest. listed name ((view mux).held_at name) rest)
              (ends ∙ ap (λ s. done (defunct s dirs, m)) l.same)
          ∙ said ((view mux).held_at name) (defunct (view mux) dirs) m,
      same ∙ l.same,
    )
  where
    said :
        (o : Option Version) (names : List Text) (m : Mux)
        → listed name o (names, m) ≡ done (elim o [ some v ↦ names | none ↦ name ∷ names ], m)
    said none names m = refl
    said (some v) names m = refl
