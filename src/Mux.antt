-- ===== src/Mux.antt =====
-- version_mux.go: the versions of a db that requests are routed to. A version is a pointer: its
-- name, and an identity that tells two versions of one name apart. The `WaitGroup` and the timer
-- that an entry points to live on a heap, under the version they were made for (`prepare` makes one
-- group, and a version is prepared once); the entries are copied, as the source copies the struct.
-- A call between taking the lock and giving it back is one step; `remove`, which lets go of the
-- lock, is several.
pub mod Counts
pub mod Balance
pub mod Handling
pub mod Tests
use sequins.Prelude.{
  ℕ, zero, suc, ◌+◌, ◌-◌, Bool, true, false, ◌||◌, ◌&&◌, Text, List, [], ◌∷◌, Option, none, some,
  if◌then◌else◌, ◌==◌, Comparable, Text_eq, native_keys, text_eq_iff, nat_eq_iff, ◌≡◌, ◌↔◌, arith,
  Map, lookup, insert, delete, map,
}

pub record Version : Type 0 where
  pub name : Text
  pub ident : ℕ

abbrev pub same_version : Version → Version → Bool
same_version a b = a.name == b.name && a.ident == b.ident

pub same_version_iff : (a b : Version) → (same_version a b ≡ true) ↔ (a ≡ b)
same_version_iff a b = ground (arith, text_eq_iff a.name b.name, nat_eq_iff a.ident b.ident)

instance abbrev pub Version_eq : Comparable Version
Version_eq = record { sound = same_version_iff; equal = same_version }

-- versionReferenceCount: `count` is the pointer to the group, and `close_timer` tells whether there
-- is a timer.
pub record Entry : Type 0 where
  pub version : Version
  pub close_timer : Bool
  pub removing : Bool

pub record Mux : Type 0 where
  pub versions : Map Text Entry
  pub current_version : Option Entry
  -- the counters of the groups, and how often the timers were reset
  pub counts : Map Version ℕ
  pub resets : Map Version ℕ

abbrev pub or_zero : Option ℕ → ℕ
or_zero none = 0
or_zero (some n) = n

-- The number of requests that hold the version.
abbrev pub count_of : Version → Mux → ℕ
count_of v mux = or_zero (lookup v mux.counts)

unfoldable pub new_mux : Mux
new_mux = record { versions = []; current_version = none; counts = []; resets = [] }

-- count.Add(1), and the timer's Reset
unfoldable pub acquire : Entry → Mux → Mux
acquire e mux = record mux {
  counts = insert e.version (count_of e.version mux + 1) mux.counts;
  resets =
      if e.close_timer
      then insert e.version (or_zero (lookup e.version mux.resets) + 1) mux.resets
      else mux.resets;
}

abbrev pub acquire_found : Option Entry → Mux → Option Version × Mux
acquire_found none mux = (none, mux)
acquire_found (some e) mux = (some e.version, acquire e mux)

unfoldable pub get_current : Mux → Option Version × Mux
unfolding acquire
get_current mux = acquire_found mux.current_version mux

unfoldable pub get_version : Text → Mux → Option Version × Mux
unfolding acquire
get_version name mux = acquire_found (lookup name mux.versions) mux

unfoldable pub get_all : Mux → List Version
get_all mux = map (λ e. e.1.version) mux.versions

-- A panic stops the program.
pub data Outcome (A : Type 0) : Type 0 where
  done : A → Outcome A
  panic : Outcome A

-- count.Done(), which panics if the counter goes below zero
unfoldable pub count_done : Entry → Mux → Outcome Mux
count_done e mux =
    if count_of e.version mux == 0
    then panic
    else done (record mux { counts = insert e.version (count_of e.version mux - 1) mux.counts })

abbrev pub release_found : Option Entry → Mux → Outcome Mux
release_found none mux = done mux
release_found (some e) mux = count_done e mux

unfoldable pub release : Option Version → Mux → Outcome Mux
unfolding count_done
release none mux = done mux
release (some v) mux = release_found (lookup v.name mux.versions) mux

abbrev pub prepare_free : Option Entry → Version → Mux → Outcome Mux
prepare_free (some e) v mux = panic
prepare_free none v mux = done (record mux {
  versions =
      insert v.name (record { version = v; close_timer = false; removing = false }) mux.versions;
  counts = insert v 0 mux.counts;
})

unfoldable pub prepare : Version → Mux → Outcome Mux
prepare v mux = prepare_free (lookup v.name mux.versions) v mux

abbrev pub checked_entry : Option Entry → Version → Outcome Entry
checked_entry none v = panic
checked_entry (some e) v = if same_version e.version v then done e else panic

-- mustGet
unfoldable pub must_get : Version → Mux → Outcome Entry
must_get v mux = checked_entry (lookup v.name mux.versions) v

abbrev pub make_current : Outcome Entry → Mux → Outcome Mux
make_current panic mux = panic
make_current (done e) mux = done (record mux { current_version = some e })

unfoldable pub upgrade : Version → Mux → Outcome Mux
unfolding must_get
upgrade v mux = make_current (must_get v mux) mux

-- `remove` up to its first return: the copy of the entry that the rest works with, marked as
-- removing, or nothing if the version is gone or is being removed already.
abbrev pub claim_found : Option Entry → Option Entry
claim_found none = none
claim_found (some e) = if e.removing then none else some (record e { removing = true })

unfoldable pub remove_claim : Version → Mux → Option Entry
remove_claim v mux = claim_found (lookup v.name mux.versions)

-- With `shouldWait`: the timer is set and the copy is written back.
unfoldable pub remove_arm : Version → Entry → Mux → Mux
remove_arm v e mux = record mux {
  versions = insert v.name (record e { close_timer = true }) mux.versions;
}

unfoldable pub remove_delete : Version → Mux → Mux
remove_delete v mux = record mux { versions = delete v.name mux.versions }

-- The last wait is over when the group's counter is zero; then `remove` returns the version.
unfoldable pub remove_may_return : Entry → Mux → Bool
remove_may_return e mux = count_of e.version mux == 0
