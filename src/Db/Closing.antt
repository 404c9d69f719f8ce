-- ===== src/Db/Closing.antt =====
-- What an upgrade gets rid of.
use sequins.Prelude.{
  ◌≡◌, refl, ap, ◌∙◌, inl, inr, Bool, true, false, Text, ◌&&◌, ◌||◌, List, [], ◌∷◌, ◌++◌, Option,
  some, arith, Bool-cases, text_lt, contains, contains-append, map,
}
use sequins.Mux.{
  Version, Version_eq, done, same_version, same_version_iff, get_all, upgrade as mux_upgrade,
}
use sequins.Db.{Db, upgrade, closed_by, is_current, is_older, look_current}
use sequins.Db.Looking.{view, Looked, look_current-Looked}
use sequins.Db.Views.{Shows, upgrade-Shows}
use sequins.Db.Invariant.{served}
use sequins.Db.Upgrade.{IsSound, current_below}

abbrev pub versions_of : List (Version × Bool) → List Version
versions_of list = map (λ r. r.0) list

versions_of-append :
    (a b : List (Version × Bool)) → versions_of (a ++ b) ≡ versions_of a ++ versions_of b
versions_of-append [] b = refl
versions_of-append (x ∷ a) b = ap (λ l. x.0 ∷ l) (versions_of-append a b)

same_older :
    (x old v : Version)
    → same_version x old ≡ true
    → text_lt x.name v.name ≡ text_lt old.name v.name
same_older x old v h = ap (λ (y : Version). text_lt y.name v.name) ((same_version_iff x old).0 h)

contains-closed_by :
    (v : Version) (o : Option Version) (old : Version) (versions : List Version)
    → ((c : Version) → is_current c o ≡ true → text_lt c.name v.name ≡ true)
    → contains (versions_of (closed_by v o versions)) old
      ≡ (contains versions old && text_lt old.name v.name)
unfolding closed_by contains
contains-closed_by v o old [] below = refl
contains-closed_by v o old (x ∷ versions) below = elim (Bool-cases (is_current x o)) [
  | inl current ↦ rw current (
      ground
        (arith, below x current, same_older x old v, contains-closed_by v o old versions below))
  | inr other ↦ elim (Bool-cases (text_lt x.name v.name)) [
    | inl older ↦
        rw (other, older)
          (ground (arith, older, same_older x old v, contains-closed_by v o old versions below))
    | inr newer ↦
        rw (other, newer)
          (ground (arith, newer, same_older x old v, contains-closed_by v o old versions below))
  ]
]

-- An upgrade to a version that the mux has, and that is neither the current one nor older, makes
-- it the current one, leaves the mux the versions that it has, and starts the removal of exactly
-- those of lower names, besides those that were being removed.
pub upgrade-closes :
    (v : Version) (db : Db)
    → IsSound db
    → (view db.mux).held_at v.name ≡ some v
    → is_older v (view db.mux).current ≡ false
    → is_current v (view db.mux).current ≡ false
    → (next : Db) × (upgrade v db ≡ done next)
      × ((view next.mux).current ≡ some v)
      × ((n : Text) → (view next.mux).held_at n ≡ (view db.mux).held_at n)
      × ((old : Version)
          → contains (versions_of next.removing) old ≡ (
              contains (get_all next.mux) old && text_lt old.name v.name
              || contains (versions_of db.removing) old))
unfolding upgrade
upgrade-closes v db h held newer new =
    let l : Looked (look_current db.mux) (view db.mux).current db.mux =
      look_current-Looked db.mux h.keyed in
    let shows : Shows (mux_upgrade v l.after) (served (view l.after) v) =
      upgrade-Shows v l.after (ap (λ s. s.held_at v.name) l.same ∙ held) in
    rw (l.returns, newer, new, shows.returns)
      (
        _,
        refl,
        ap (λ s. s.current) shows.shown ∙ unfold served in refl,
        λ n. ap (λ s. s.held_at n) shows.shown ∙ unfold served in ap (λ s. s.held_at n) l.same,
        λ old.
            ap (λ m. contains m old)
              (versions_of-append (closed_by v (view db.mux).current (get_all shows.after))
                db.removing)
            ∙ contains-append
                (versions_of (closed_by v (view db.mux).current (get_all shows.after)))
                (versions_of db.removing) old
            ∙ ap (λ b. b || contains (versions_of db.removing) old)
                (contains-closed_by v (view db.mux).current old (get_all shows.after)
                  (current_below (view db.mux) h.keyed v held newer new)),
      )
