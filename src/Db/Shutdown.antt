-- ===== src/Db/Shutdown.antt =====
-- close of db.go, for a db that is no more: it closes every version that the mux has, and each
-- of them is closed again by whatever removes it afterwards. `closed` are the versions whose channel `cancel` is
-- closed; to close a channel twice is a panic.
use mathlib.Core.Option.{some-injective}
use sequins.Prelude.{
  ◌≡◌, refl, sym, ap, subst, ◌∙◌, inl, inr, true, false, ◌||◌, Text, Text_eq, List, [], ◌∷◌, some,
  if◌then◌else◌, ◌==◌, Map, lookup, contains, map, arith, Bool-cases, text_lt, text_lt_irrefl,
  text_lt_trans,
}
use sequins.Mux.{
  Version, Version_eq, Entry, Mux, Outcome, done, panic, same_version, same_version_iff, get_all,
}
use sequins.Mux.Counts.{done-injective}
use sequins.Db.{Db, upgrade, is_older, is_current, delete_version, ◌>>>◌}
use sequins.Db.Looking.{view, version_of}
use sequins.Db.Upgrade.{IsSound}
use sequins.Db.Closing.{upgrade-closes, versions_of}

-- close(vs.cancel)
unfoldable pub close_version : Version → List Version → Outcome (List Version)
close_version v closed = if contains closed v then panic else done (v ∷ closed)

unfoldable pub close_all : List Version → List Version → Outcome (List Version)
unfolding close_version
close_all [] closed = done closed
close_all (v ∷ versions) closed = close_version v closed >>> λ next. close_all versions next

unfoldable pub close_db : Db → List Version → Outcome (List Version)
unfolding close_all
close_db db closed = close_all (get_all db.mux) closed

-- delete: the versions whose stores are deleted.
delete_db : Db → List Version
delete_db db = get_all db.mux

-- The end of removeVersion, once the mux has given the version back.
pub finish_removal : Version → Db × List Version → Outcome (Db × List Version)
unfolding close_version
finish_removal v (db, closed) = close_version v closed >>> λ next. done (delete_version v db, next)

contains-close_all :
    (versions closed after : List Version) (v : Version)
    → close_all versions closed ≡ done after
    → contains after v ≡ (contains versions v || contains closed v)
unfolding close_all close_version contains
contains-close_all [] closed after v h = ap (λ x. contains x v) (sym (done-injective h))
contains-close_all (u ∷ versions) closed after v h = elim (Bool-cases (contains closed u)) [
  | inl twice ↦ absurd (ground (arith, rw twice at h))
  | inr once ↦ ground (arith, contains-close_all versions (u ∷ closed) after v (rw once at h))
]

contains-get_all :
    (v : Version) (mux : Mux) → (view mux).held_at v.name ≡ some v → contains (get_all mux) v ≡ true
unfolding view get_all contains lookup
contains-get_all v mux h = found mux.versions h
  where
    found :
        (m : Map Text Entry)
        → version_of (lookup v.name m) ≡ some v
        → contains (map (λ (x : Text × Entry). x.1.version) m) v ≡ true
    found [] e = absurd (ground (arith, e))
    found ((n, x) ∷ m) e = elim (Bool-cases (n == v.name)) [
      | inl here ↦
          let same : same_version x.version v ≡ true =
            (same_version_iff x.version v).1 (some-injective x.version v (rw here at e)) in
          rw same refl
      | inr elsewhere ↦ ground (arith, found m (rw elsewhere at e))
    ]

text_lt_asym : (a b : Text) → text_lt a b ≡ true → text_lt b a ≡ false
text_lt_asym a b h = elim (Bool-cases (text_lt b a)) [
  | inl back ↦ absurd (ground (arith, text_lt_irrefl a, text_lt_trans a b a h back))
  | inr e ↦ e
]

different : (c v : Version) → text_lt c.name v.name ≡ true → same_version v c ≡ false
different c v h = elim (Bool-cases (same_version v c)) [
  | inl same ↦ absurd (
      ground (
        arith,
        text_lt_irrefl c.name,
        subst (λ (x : Version). text_lt c.name x.name ≡ true) ((same_version_iff v c).0 same) h,
      ))
  | inr e ↦ e
]

-- A db in a sound state, with a current version and a newer one in the mux, is closed. An upgrade
-- to the newer version goes on all the same, and starts the removal of the current one; at the end of
-- this removal that version is closed for the second time, which is a panic.
pub close_db-closes_twice :
    (c v : Version) (db : Db) (closed after : List Version)
    → IsSound db
    → (view db.mux).current ≡ some c
    → (view db.mux).held_at v.name ≡ some v
    → text_lt c.name v.name ≡ true
    → close_db db closed ≡ done after
    → (next : Db) × (upgrade v db ≡ done next)
      × (contains (versions_of next.removing) c ≡ true)
      × (finish_removal c (next, after) ≡ panic)
unfolding close_db finish_removal close_version
close_db-closes_twice c v db closed after sound current held newer closes =
    let not_older : is_older v (view db.mux).current ≡ false =
      ap (is_older v) current ∙ text_lt_asym c.name v.name newer in
    let not_same : is_current v (view db.mux).current ≡ false =
      ap (is_current v) current ∙ different c v newer in
    let (next, returns, now, kept, removes) = upgrade-closes v db sound held not_older not_same in
    let there : (view db.mux).held_at c.name ≡ some c = sound.keyed.current_held c current in
    let still : contains (get_all next.mux) c ≡ true =
      contains-get_all c next.mux (kept c.name ∙ there) in
    let closed_once : contains after c ≡ true =
      contains-close_all (get_all db.mux) closed after c closes
      ∙ ap (λ b. b || contains closed c) (contains-get_all c db.mux there) in
    (next, returns, removes c ∙ rw (still, newer) refl, rw closed_once refl)
