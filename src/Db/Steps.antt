-- ===== src/Db/Steps.antt =====
-- What changes a db while it runs, one step after another: the refreshes, the upgrades of waiting
-- versions, removeVersion up to the mux's wait, the deletion behind that wait, and the requests. The
-- closing of a version at the end of removeVersion, and the close of the db, are in Db.Shutdown.
use sequins.Prelude.{
  if_false, ◌≡◌, refl, sym, ap, subst, inl, inr, Bool, ◌&&◌, Text, Text_eq, List, [], ◌∷◌, ◌++◌,
  Option, none, some, ◌==◌, lookup, Bool-cases, Option-cases, All, ℕ, ◌<◌, arith, native_keys,
}
use sequins.Mux.{
  Mux, Version, Entry, Outcome, done, panic, get_current, get_version, release, release_found,
  count_done, acquire, acquire_found, remove_claim, remove_arm, remove_delete, count_of,
}
use sequins.Mux.Counts.{done-injective}
use sequins.Db.{Db, upgrade, refresh, remove_version, delete_version}
use sequins.Db.Looking.{view}
use sequins.Db.Views.{view-remove_delete, view-remove_arm}
use sequins.Db.Invariant.{Below, Waits, Moves, Moves-emptied}
use sequins.Db.Upgrade.{IsSound, IsSound-moved, Advances, Advances-from, upgrade-Advances}
use sequins.Db.Forward.{end_of, refresh-Advances, Advances-stay, Moves-stay, IsSound-stay}

-- The end of a request, as the mux's release ends.
abbrev pub given_back : Outcome Mux → Db → Outcome Db
given_back panic db = panic
given_back (done m) db = done (record db { mux = m })

-- One step of the program on the db: what runs, and how it ends.
pub data Step (db : Db) : Outcome Db → Type 0 where
  refreshes :
      (list : Text → Option (List Text)) (make : Text → Option ℕ) (ready : Version → Bool)
      → Step db (end_of (refresh list make ready db))
  -- A version that waits is ready.
  wakes :
      (v : Version) (front back : List Version)
      → db.waiting ≡ front ++ v ∷ back
      → Step db (upgrade v (record db { waiting = front ++ back }))
  removes :
      (has_peers : Bool) (v : Version) (wait : Bool) (front back : List (Version × Bool))
      → db.removing ≡ front ++ (v, wait) ∷ back
      → Step db (done (remove_version has_peers v wait (record db { removing = front ++ back })))
  -- The waits of the mux's remove are over.
  deletes :
      (v : Version) (front back : List Version)
      → db.deleting ≡ front ++ v ∷ back
      → Step db (done (delete_version v (record db { deleting = front ++ back })))
  -- A request takes a version, or gives one back, which is counted if an entry stands under its name.
  takes_current : Step db (done (record db { mux = (get_current db.mux).1 }))
  takes : (name : Text) → Step db (done (record db { mux = (get_version name db.mux).1 }))
  gives_back :
      (v : Version)
      → ((e : Entry) → lookup v.name db.mux.versions ≡ some e → 0 < count_of e.version db.mux)
      → Step db (given_back (release (some v) db.mux) db)

module _ {A : Type 0} (P : A → Type 0) where
  All-without :
      (front : List A) (x : A) (back : List A)
      → All P (front ++ x ∷ back)
      → P x × All P (front ++ back)
  All-without [] x back h = h
  All-without (y ∷ front) x back h =
      let (here, others) = All-without front x back h.1 in (here, (h.0, others))

view-acquire_found : (o : Option Entry) (mux : Mux) → view (acquire_found o mux).1 ≡ view mux
unfolding view acquire
view-acquire_found none mux = refl
view-acquire_found (some e) mux = refl

view-get_current : (mux : Mux) → view (get_current mux).1 ≡ view mux
unfolding get_current acquire
view-get_current mux = view-acquire_found mux.current_version mux

view-get_version : (name : Text) (mux : Mux) → view (get_version name mux).1 ≡ view mux
unfolding get_version acquire
view-get_version name mux = view-acquire_found (lookup name mux.versions) mux

view-release : (v : Version) (mux m : Mux) → release (some v) mux ≡ done m → view m ≡ view mux
unfolding view release count_done
view-release v mux m = go (lookup v.name mux.versions)
  where
    go : (o : Option Entry) → release_found o mux ≡ done m → view m ≡ view mux
    go none h = ap view (sym (done-injective h))
    go (some e) h = elim (Bool-cases (count_of e.version mux == 0)) [
      | inl empty ↦ absurd (refused (rw empty at h))
      | inr held ↦ ap view (sym (done-injective (rw held at h)))
    ]
      where
        refused : panic ≡ done m → ⊥
        refused p = cc p

release_counted :
    (o : Option Entry) (mux : Mux)
    → ((e : Entry) → o ≡ some e → 0 < count_of e.version mux)
    → (m : Mux) × (release_found o mux ≡ done m)
unfolding count_done
release_counted none mux counted = (mux, refl)
release_counted (some e) mux counted = elim (Bool-cases (count_of e.version mux == 0)) [
  | inl empty ↦ absurd (ground (arith, counted e refl, empty))
  | inr held ↦ (_, if_false (count_of e.version mux == 0) panic held)
]

gives_back-Advances :
    (v : Version) (db : Db)
    → IsSound db
    → ((e : Entry) → lookup v.name db.mux.versions ≡ some e → 0 < count_of e.version db.mux)
    → Advances (given_back (release (some v) db.mux) db) db
gives_back-Advances v db h counted =
    let (m, released) = release_counted (lookup v.name db.mux.versions) db.mux counted in
    let ends : release (some v) db.mux ≡ done m = unfold release in released in
    subst (λ o. Advances (given_back o db) db) (sym ends)
      (Advances-stay db m h (view-release v db.mux m ends))

remove_version-Advances :
    (has_peers : Bool) (v : Version) (wait : Bool) (db : Db)
    → IsSound db
    → Below (view db.mux) v
    → Advances (done (remove_version has_peers v wait db)) db
unfolding remove_version
remove_version-Advances has_peers v wait db h older = elim (Option-cases (remove_claim v db.mux)) [
  | inl gone ↦ rw (gone, remove_version) (Advances-stay db db.mux h refl)
  | inr (e, claimed) ↦
      rw (claimed, remove_version)
        (elim (Bool-cases (wait && has_peers)) [
          | inl arms ↦
              rw (arms) (claims (remove_arm v e db.mux) (view-remove_arm v e db.mux claimed))
          | inr not_wanted ↦ rw not_wanted (claims db.mux refl)
        ])
]
  where
    claims :
        (m : Mux)
        → view m ≡ view db.mux
        → Advances (done (record db { mux = m; deleting = v ∷ db.deleting })) db
    claims m same =
        let moved : IsSound (record db { mux = m }) = IsSound-stay db m h same in
        record {
          next = _;
          returns = refl;
          sound = record {
            keyed = moved.keyed;
            waiting = moved.waiting;
            removing = moved.removing;
            deleting = ((Moves-stay db m h same).still_below v older, moved.deleting);
          };
          forward = (Moves-stay db m h same).forward;
        }

delete_version-Advances :
    (v : Version) (db : Db)
    → IsSound db
    → Below (view db.mux) v
    → Advances (done (delete_version v db)) db
unfolding delete_version
delete_version-Advances v db h older =
    let moves : Moves (view db.mux) (view (remove_delete v db.mux)) =
      subst (Moves (view db.mux)) (sym (view-remove_delete v db.mux))
        (Moves-emptied (view db.mux) v h.keyed older) in
    record {
      next = _;
      returns = refl;
      sound = IsSound-moved db (remove_delete v db.mux) h moves;
      forward = moves.forward;
    }

module _ (db : Db) (h : IsSound db) where
  -- A step that first takes a version off a list.
  taken : (o : Outcome Db) (mid : Db) → view mid.mux ≡ view db.mux → Advances o mid → Advances o db
  taken o mid same a = Advances-from o mid db (Moves-stay db mid.mux h same).forward a

  -- A step of the program goes on.
  pub Step-Advances : (o : Outcome Db) → Step db o → Advances o db
  Step-Advances _ (refreshes list make ready) = refresh-Advances make ready list db h
  Step-Advances _ (wakes v front back e) =
      let waits : All (Waits (view db.mux)) (front ++ v ∷ back) =
        subst (All (Waits (view db.mux))) e h.waiting in
      let split : Waits (view db.mux) v × All (Waits (view db.mux)) (front ++ back) =
        All-without _ front v back waits in
      let mid : Db = record db { waiting = front ++ back } in
      let sound : IsSound mid = record {
        keyed = h.keyed;
        waiting = split.1;
        removing = h.removing;
        deleting = h.deleting;
      } in
      taken _ mid refl (upgrade-Advances v mid sound split.0)
  Step-Advances _ (removes has_peers v wait front back e) =
      let below : All (λ r. Below (view db.mux) r.0) (front ++ (v, wait) ∷ back) =
        subst (All (λ r. Below (view db.mux) r.0)) e h.removing in
      let split : Below (view db.mux) v × All (λ r. Below (view db.mux) r.0) (front ++ back) =
        All-without _ front (v, wait) back below in
      let mid : Db = record db { removing = front ++ back } in
      let sound : IsSound mid = record {
        keyed = h.keyed;
        waiting = h.waiting;
        removing = split.1;
        deleting = h.deleting;
      } in
      taken _ mid refl (remove_version-Advances has_peers v wait mid sound split.0)
  Step-Advances _ (deletes v front back e) =
      let below : All (Below (view db.mux)) (front ++ v ∷ back) =
        subst (All (Below (view db.mux))) e h.deleting in
      let split : Below (view db.mux) v × All (Below (view db.mux)) (front ++ back) =
        All-without _ front v back below in
      let mid : Db = record db { deleting = front ++ back } in
      let sound : IsSound mid = record {
        keyed = h.keyed;
        waiting = h.waiting;
        removing = h.removing;
        deleting = split.1;
      } in
      taken _ mid refl (delete_version-Advances v mid sound split.0)
  Step-Advances _ takes_current = Advances-stay db _ h (view-get_current db.mux)
  Step-Advances _ (takes name) = Advances-stay db _ h (view-get_version name db.mux)
  Step-Advances _ (gives_back v counted) = gives_back-Advances v db h counted
