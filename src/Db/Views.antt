-- ===== src/Db/Views.antt =====
-- What a call of the mux changes of its view.
use sequins.Prelude.{
  ◌≡◌, refl, sym, ap, ◌∙◌, inl, inr, Bool, true, false, Text, Option, none, some, if◌then◌else◌,
  ◌==◌, Text_eq, text_eq_iff, arith, lookup, insert, lookup-insert, lookup-insert_other,
  lookup-delete, Bool-cases,
}
use mathlib.Core.Option.{some-injective}
use sequins.Mux.{
  Mux, Version, Entry, Outcome, done, prepare, must_get, checked_entry, make_current, upgrade,
  remove_arm, remove_delete, remove_claim, claim_found, same_version_iff,
}
use sequins.Db.Looking.{View, view, version_of}
use sequins.Db.Invariant.{prepared, served, emptied}

view-eq : (s t : View) → ((n : Text) → s.held_at n ≡ t.held_at n) → s.current ≡ t.current → s ≡ t
view-eq s t h c = λ i. record { held_at = λ n. h n i; current = c i }

abbrev entry_of : Version → Entry
entry_of v = record { version = v; close_timer = false; removing = false }

version_of-if :
    (b : Bool) (e : Entry) (o : Option Entry)
    → version_of (if b then some e else o) ≡ (if b then some e.version else version_of o)
version_of-if true e o = refl
version_of-if false e o = refl

version_of-none : (o : Option Entry) → version_of o ≡ none → o ≡ none
version_of-none none h = refl
version_of-none (some e) h = ground (arith, h)

-- The mux after the call, as `seen` shows it.
pub record Shows (o : Outcome Mux) (seen : View) : Type 0 where
  pub after : Mux
  pub returns : o ≡ done after
  pub shown : view after ≡ seen

pub prepare-Shows :
    (v : Version) (mux : Mux)
    → (view mux).held_at v.name ≡ none
    → Shows (prepare v mux) (prepared (view mux) v)
unfolding prepare view prepared
prepare-Shows v mux free = rw (version_of-none (lookup v.name mux.versions) free) (record {
  after = _;
  returns = refl;
  shown =
      view-eq _ _
        (λ n.
          ap version_of (lookup-insert v.name n (entry_of v) mux.versions)
          ∙ version_of-if (v.name == n) (entry_of v) (lookup n mux.versions))
        refl;
})

upgraded :
    (v : Version) (mux : Mux) (o : Option Entry)
    → version_of o ≡ some v
    → Shows (make_current (checked_entry o v) mux) (served (view mux) v)
unfolding view served
upgraded v mux none h = ground (arith, h)
upgraded v mux (some e) h =
    let same : e.version ≡ v = some-injective e.version v h in
    rw ((same_version_iff e.version v).1 same) (record {
      after = record mux { current_version = some e };
      returns = refl;
      shown = view-eq _ _ (λ n. refl) h;
    })

pub upgrade-Shows :
    (v : Version) (mux : Mux)
    → (view mux).held_at v.name ≡ some v
    → Shows (upgrade v mux) (served (view mux) v)
unfolding upgrade must_get view
upgrade-Shows v mux held = upgraded v mux (lookup v.name mux.versions) held

version_of-unless :
    (b : Bool) (o : Option Entry)
    → version_of (if b then none else o) ≡ (if b then none else version_of o)
version_of-unless true o = refl
version_of-unless false o = refl

pub view-remove_delete :
    (v : Version) (mux : Mux) → view (remove_delete v mux) ≡ emptied (view mux) v.name
unfolding remove_delete view emptied
view-remove_delete v mux =
    view-eq _ _
      (λ n.
        ap version_of (lookup-delete v.name n mux.versions)
        ∙ version_of-unless (v.name == n) (lookup n mux.versions))
      refl

-- The entry that a removal works with is the one that stands in the mux.
claimed_version :
    (o : Option Entry) (e : Entry) → claim_found o ≡ some e → version_of o ≡ some e.version
claimed_version none e h = ground (arith, h)
claimed_version (some x) e h = elim (Bool-cases x.removing) [
  | inl marked ↦ absurd (none-some (rw marked at h))
  | inr free ↦
      ap (λ (y : Entry). some y.version)
        (some-injective (record x { removing = true }) e (rw free at h))
]
  where
    none-some : none ≡ some e → ⊥
    none-some c = ground (arith, c)

pub view-remove_arm :
    (v : Version) (e : Entry) (mux : Mux)
    → remove_claim v mux ≡ some e
    → view (remove_arm v e mux) ≡ view mux
unfolding remove_arm view remove_claim
view-remove_arm v e mux claimed = view-eq _ _ shown refl
  where
    armed : Entry
    armed = record e { close_timer = true }

    shown :
        (n : Text)
        → version_of (lookup n (insert v.name armed mux.versions))
          ≡ version_of (lookup n mux.versions)
    shown n = elim (Bool-cases (v.name == n)) [
      | inr other ↦ ap version_of (lookup-insert_other v.name n armed mux.versions other)
      | inl same ↦
          ap version_of (
            lookup-insert v.name n armed mux.versions
            ∙ ap (λ b. if b then some armed else lookup n mux.versions) same)
          ∙ sym (claimed_version (lookup v.name mux.versions) e claimed)
          ∙ ap (λ m. version_of (lookup m mux.versions)) ((text_eq_iff v.name n).0 same)
    ]
