-- ===== src/Db.antt =====
-- db.go: the versions of a db. What runs in the background is kept in the state: the versions that
-- wait to be ready, those that are to be removed, and those that the mux is about to delete. A
-- method is one step, as is what a goroutine does between two waits. A version's own state and its
-- partitions are left out: `make` is newVersion, which fails or gives the new version an identity,
-- and `ready` tells whether the version is ready at once.
pub mod Looking
pub mod Invariant
pub mod Views
pub mod Upgrade
pub mod Switching
pub mod Forward
pub mod Steps
pub mod Reached
pub mod Closing
pub mod Shutdown
pub mod Cleaning
pub mod Tests
use sequins.Prelude.{
  ℕ, zero, suc, ◌-◌, Bool, true, false, not, ◌&&◌, Text, Text_eq, text_eq, text_lt, List, [], ◌∷◌,
  ◌++◌, Option, none, some, if◌then◌else◌, ◌==◌, get_last?, length, filter, Result, ok, err, ltb,
  nat_eq, codes,
}
use sequins.Mux.{
  Mux, Version, Version_eq, same_version, Entry, Outcome, done, panic, get_current, get_version,
  get_all, release, prepare, upgrade as mux_upgrade, remove_claim, remove_arm, remove_delete,
  new_mux,
}

pub record Db : Type 0 where
  pub mux : Mux
  pub waiting : List Version
  pub removing : List (Version × Bool)
  pub deleting : List Version

unfoldable pub new_db : Db
new_db = record { mux = new_mux; waiting = []; removing = []; deleting = [] }

infixl 1 ◌>>>◌
abbrev pub ◌>>>◌ : {A B : Type 0} → Outcome A → (A → Outcome B) → Outcome B
done a >>> next = next a
panic >>> next = panic

abbrev pub give_back : Option Version × Mux → Outcome (Option Version × Mux)
give_back (found, mux) = release found mux >>> λ m. done (found, m)

-- current := db.mux.getCurrent(); db.mux.release(current)
pub look_current : Mux → Outcome (Option Version × Mux)
look_current mux = give_back (get_current mux)

pub look_version : Text → Mux → Outcome (Option Version × Mux)
look_version name mux = give_back (get_version name mux)

abbrev pub is_older : Version → Option Version → Bool
is_older v none = false
is_older v (some current) = text_lt v.name current.name

abbrev pub is_current : Version → Option Version → Bool
is_current v none = false
is_current v (some current) = same_version v current

-- The versions that an upgrade to `v` gets rid of, and whether their requests are waited for.
pub closed_by : Version → Option Version → List Version → List (Version × Bool)
closed_by v current [] = []
closed_by v current (old ∷ versions) =
    let rest = closed_by v current versions in
    if is_current old current
    then (old, true) ∷ rest
    else if text_lt old.name v.name
    then (old, false) ∷ rest
    else rest

pub upgrade : Version → Db → Outcome Db
unfolding look_current closed_by
upgrade v db = look_current db.mux >>> λ looked.
    if is_older v looked.0
    then done (record db { mux = looked.1; removing = (v, false) ∷ db.removing })
    else if is_current v looked.0
    then done (record db { mux = looked.1 })
    else (mux_upgrade v looked.1 >>> λ m.
        done (record db { mux = m; removing = closed_by v looked.0 (get_all m) ++ db.removing }))

-- True if the version was ready.
pub switch_version : Version → Bool → Db → Outcome (Bool × Db)
unfolding upgrade
switch_version v ready db = prepare v db.mux >>> λ m. elim ready [
  | true ↦ upgrade v (record db { mux = m }) >>> λ next. done (true, next)
  | false ↦ done (false, record db { mux = m; waiting = v ∷ db.waiting })
]

abbrev pub name_of : Option Version → Text
name_of none = []
name_of (some v) = v.name

pub data Refreshed : Type 0 where
  refreshed no_versions failed : Refreshed

pub refresh_latest : (Text → Option ℕ) → (Version → Bool) → Text → Db → Outcome (Refreshed × Db)
unfolding look_version switch_version
refresh_latest make ready latest db = look_version latest db.mux >>> λ looked. elim looked.0 [
  | some existing ↦ done (refreshed, record db { mux = looked.1 })
  | none ↦ elim (make latest) [
    | none ↦ done (failed, record db { mux = looked.1 })
    | some ident ↦
        let v : Version = record { name = latest; ident = ident } in
        switch_version v (ready v) (record db { mux = looked.1 }) >>> λ next.
        done (refreshed, next.1)
  ]
]

-- `list` is the backend's ListVersions, of the versions behind a name; `none` is its error.
pub refresh :
    (Text → Option (List Text))
    → (Text → Option ℕ)
    → (Version → Bool)
    → Db
    → Outcome (Refreshed × Db)
unfolding look_current refresh_latest
refresh list make ready db = look_current db.mux >>> λ looked.
    let after : Text = name_of looked.0 in
    let seen : Db = record db { mux = looked.1 } in
    elim (list after) [
      | none ↦ done (failed, seen)
      | some versions ↦ elim (get_last? versions) [
        | none ↦ done (if after == [] then no_versions else refreshed, seen)
        | some latest ↦ refresh_latest make ready latest seen
      ]
    ]

-- versions[len(versions)-3:]
pub last_three : List Text → List Text
last_three [] = []
last_three (v ∷ vs) = let rest = last_three vs in if ltb (length vs) 3 then v ∷ vs else rest

-- The loop of backfillVersions; the last of the versions is the first.
pub backfill_loop : (Text → Option ℕ) → (Version → Bool) → List Text → Db → Outcome Db
unfolding switch_version
backfill_loop make ready [] db = done db
backfill_loop make ready (name ∷ names) db = elim (make name) [
  | none ↦ backfill_loop make ready names db
  | some ident ↦
      let v : Version = record { name = name; ident = ident } in
      elim (switch_version v (ready v) db) [
        | panic ↦ panic
        | done (true, next) ↦ done next
        | done (false, next) ↦ backfill_loop make ready names next
      ]
]

pub reversed : List Text → List Text → List Text
reversed [] acc = acc
reversed (v ∷ vs) acc = reversed vs (v ∷ acc)

pub backfill_versions :
    (Text → Option (List Text)) → (Text → Option ℕ) → (Version → Bool) → Db → Outcome Db
unfolding backfill_loop last_three reversed
backfill_versions list make ready db = elim (list []) [
  | none ↦ done db
  | some versions ↦ backfill_loop make ready (reversed (last_three versions) []) db
]

-- removeVersion, up to the wait of the mux: nothing more if the version is gone.
pub remove_version : Bool → Version → Bool → Db → Db
remove_version has_peers old should_wait db = elim (remove_claim old db.mux) [
  | none ↦ db
  | some entry ↦
      let armed : Mux = if should_wait && has_peers then remove_arm old entry db.mux else db.mux in
      record db { mux = armed; deleting = old ∷ db.deleting }
]

pub delete_version : Version → Db → Db
delete_version old db = record db { mux = remove_delete old db.mux }
