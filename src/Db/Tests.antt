-- ===== src/Db/Tests.antt =====
-- The theorems about a db at one that comes up with a version, and then finds a newer one.
use sequins.Prelude.{
  ◌≡◌, refl, subst, Bool, true, false, ◌&&◌, ◌||◌, Text, codes, List, [], ◌∷◌, Option, some,
  Text_eq, text_eq, text_lt, contains, ℕ, lookup, insert,
}
use sequins.Mux.{
  Mux, Version, Version_eq, Entry, done, new_mux, get_all, panic, prepare, upgrade as mux_upgrade,
  must_get, get_current, get_version, release, acquire, count_done,
}
use sequins.Db.{
  Db, is_older, is_current, look_version, refresh_latest, new_db, upgrade, refresh,
  backfill_versions, switch_version, look_current, closed_by, backfill_loop, last_three, reversed,
}
use sequins.Db.Looking.{view}
use sequins.Db.Invariant.{IsForward}
use sequins.Db.Upgrade.{IsSound}
use sequins.Db.Forward.{end_of, AllApart, Apart}
use sequins.Db.Steps.{Step, refreshes}
use sequins.Db.Reached.{Reached, starts, steps, Reached-IsSound, Reached-Step}
use sequins.Db.Closing.{upgrade-closes, versions_of}
use sequins.Db.Shutdown.{close_version, close_all, close_db, finish_removal, close_db-closes_twice}
use sequins.Db.Cleaning.{cleanup_dirs, defunct, cleanup_dirs-defunct}
use mathlib.Core.Option.{some-injective}

abbrev v1 : Version
v1 = record { name = codes "v1"; ident = 1 }

abbrev v2 : Version
v2 = record { name = codes "v2"; ident = 1 }

abbrev e1 : Entry
e1 = record { version = v1; close_timer = false; removing = false }

abbrev e2 : Entry
e2 = record { version = v2; close_timer = false; removing = false }

abbrev lists_first : Text → Option (List Text)
lists_first after = some (codes "v1" ∷ [])

abbrev lists_second : Text → Option (List Text)
lists_second after = some (codes "v2" ∷ [])

abbrev make_one : Text → Option ℕ
make_one name = some 1

abbrev at_once : Version → Bool
at_once v = true

-- The db once it serves "v1".
abbrev first_served : Db
first_served = record {
  mux = record {
    versions = (codes "v1", e1) ∷ [];
    current_version = some e1;
    counts = (v1, 0) ∷ [];
    resets = [];
  };
  waiting = [];
  removing = [];
  deleting = [];
}

first_served_starts : backfill_versions lists_first make_one at_once new_db ≡ done first_served
unfolding backfill_versions backfill_loop switch_version upgrade look_current closed_by last_three
    reversed new_db new_mux get_current release acquire count_done prepare mux_upgrade must_get
    get_all lookup insert text_eq text_lt
first_served_starts = refl

first_served_apart : (versions : List Text) → lists_first [] ≡ some versions → AllApart versions
first_served_apart versions h =
    subst AllApart (some-injective (codes "v1" ∷ []) versions h)
      (unfold AllApart in unfold Apart in (tt, tt))

first_served_reached : Reached first_served
first_served_reached =
    starts lists_first make_one at_once first_served_apart first_served first_served_starts

Reached-Step_example :
    (next : Db) × (end_of (refresh lists_second make_one at_once first_served) ≡ done next)
    × IsForward (view first_served.mux) (view next.mux)
Reached-Step_example =
    Reached-Step first_served (end_of (refresh lists_second make_one at_once first_served))
      first_served_reached (refreshes lists_second make_one at_once)

abbrev later : Version → Bool
later v = false

-- The db once "v2" is prepared too, and waits.
abbrev second_waits : Db
second_waits = record {
  mux = record {
    versions = (codes "v1", e1) ∷ (codes "v2", e2) ∷ [];
    current_version = some e1;
    counts = (v1, 0) ∷ (v2, 0) ∷ [];
    resets = [];
  };
  waiting = v2 ∷ [];
  removing = [];
  deleting = [];
}

second_waits_next : end_of (refresh lists_second make_one later first_served) ≡ done second_waits
unfolding refresh refresh_latest look_version switch_version look_current get_current get_version
    release acquire count_done prepare lookup insert text_eq
second_waits_next = refl

second_waits_reached : Reached second_waits
second_waits_reached =
    steps first_served second_waits first_served_reached
      (subst (Step first_served) second_waits_next (refreshes lists_second make_one later))

second_waits-IsSound : IsSound second_waits
second_waits-IsSound = Reached-IsSound second_waits second_waits_reached

upgrade-closes_example :
    (next : Db) × (upgrade v2 second_waits ≡ done next)
    × ((view next.mux).current ≡ some v2)
    × ((n : Text) → (view next.mux).held_at n ≡ (view second_waits.mux).held_at n)
    × ((old : Version)
        → contains (versions_of next.removing) old ≡ (
            contains (get_all next.mux) old && text_lt old.name v2.name
            || contains (versions_of second_waits.removing) old))
upgrade-closes_example = upgrade-closes v2 second_waits second_waits-IsSound held newer new
  where
    held : (view second_waits.mux).held_at v2.name ≡ some v2
    held = unfold view lookup text_eq in refl

    newer : is_older v2 (view second_waits.mux).current ≡ false
    newer = unfold view text_lt in refl

    new : is_current v2 (view second_waits.mux).current ≡ false
    new = unfold view text_eq in refl

second_closed : close_db second_waits [] ≡ done (v2 ∷ v1 ∷ [])
unfolding close_db close_all close_version get_all contains text_eq
second_closed = refl

close_db-closes_twice_example :
    (next : Db) × (upgrade v2 second_waits ≡ done next)
    × (contains (versions_of next.removing) v1 ≡ true)
    × (finish_removal v1 (next, v2 ∷ v1 ∷ []) ≡ panic)
close_db-closes_twice_example =
    close_db-closes_twice v1 v2 second_waits [] (v2 ∷ v1 ∷ []) second_waits-IsSound current held
      newer second_closed
  where
    current : (view second_waits.mux).current ≡ some v1
    current = unfold view in refl

    held : (view second_waits.mux).held_at v2.name ≡ some v2
    held = unfold view lookup text_eq in refl

    newer : text_lt v1.name v2.name ≡ true
    newer = unfold text_lt in refl

abbrev dirs : List (Text × Bool)
dirs = (codes "v0", true) ∷ (codes "v1", true) ∷ (codes "lock", false) ∷ []

cleanup_dirs-defunct_example :
    (m : Mux) × (cleanup_dirs dirs second_waits.mux
      ≡ done (defunct (view second_waits.mux) dirs, m))
    × (view m ≡ view second_waits.mux)
cleanup_dirs-defunct_example = cleanup_dirs-defunct dirs second_waits.mux second_waits-IsSound.keyed
