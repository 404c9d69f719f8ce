-- ===== src/Db/Forward.antt =====
-- Steps of a db: none stops the program, and the version that is served only ever moves forward.
use sequins.Prelude.{
  ◌≡◌, refl, ap, ◌∙◌, inl, inr, Bool, true, false, Text, List, [], ◌∷◌, Option, none, some, ◌==◌,
  Text_eq, Bool-cases, Option-cases, All, get_last?, ℕ,
}
use sequins.Mux.{Mux, Version, Outcome, done, panic}
use sequins.Db.{
  Db, ◌>>>◌, look_current, look_version, switch_version, refresh, refresh_latest, refreshed, failed,
  backfill_loop, name_of,
}
use sequins.Db.Looking.{view, Looked, look_current-Looked, look_version-Looked}
use sequins.Db.Invariant.{Moves, Moves-same, IsForward-then}
use sequins.Db.Upgrade.{IsSound, IsSound-moved, Advances, Advances-from}
use sequins.Db.Switching.{Switched, switch_version-Switched}

-- The answer aside.
abbrev pub end_of : {A : Type 0} → Outcome (A × Db) → Outcome Db
end_of panic = panic
end_of (done (answer, db)) = done db

pub Moves-stay :
    (db : Db) (m : Mux) → IsSound db → view m ≡ view db.mux → Moves (view db.mux) (view m)
Moves-stay db m h same = Moves-same (view db.mux) (view m) same h.keyed

pub IsSound-stay :
    (db : Db) (m : Mux) → IsSound db → view m ≡ view db.mux → IsSound (record db { mux = m })
IsSound-stay db m h same = IsSound-moved db m h (Moves-stay db m h same)

pub Advances-stay :
    (db : Db) (m : Mux)
    → IsSound db
    → view m ≡ view db.mux
    → Advances (done (record db { mux = m })) db
Advances-stay db m h same = record {
  next = _;
  returns = refl;
  sound = IsSound-stay db m h same;
  forward = (Moves-stay db m h same).forward;
}

unfoldable pub Apart : Text → List Text → Type 0
Apart n names = All (λ x. (n == x) ≡ false) names

unfoldable pub AllApart : List Text → Type 0
AllApart [] = Unit
AllApart (n ∷ names) = Apart n names × AllApart names

unfoldable pub Free : Db → List Text → Type 0
Free db names = All (λ n. (view db.mux).held_at n ≡ none) names

module _ (make : Text → Option ℕ) (ready : Version → Bool) where
  refresh_latest-Advances :
      (latest : Text) (db : Db)
      → IsSound db
      → Advances (end_of (refresh_latest make ready latest db)) db
  unfolding refresh_latest
  refresh_latest-Advances latest db h =
      let l : Looked (look_version latest db.mux) ((view db.mux).held_at latest) db.mux =
        look_version-Looked latest db.mux h.keyed in
      rw l.returns (go l.after l.same ((view db.mux).held_at latest) refl (make latest))
    where
      go :
          (m : Mux)
          → view m ≡ view db.mux
          → (found : Option Version) → (view db.mux).held_at latest ≡ found
          → (made : Option ℕ)
          → Advances
              (end_of (elim found [
                | some existing ↦ done (refreshed, record db { mux = m })
                | none ↦ elim made [
                  | none ↦ done (failed, record db { mux = m })
                  | some ident ↦
                      switch_version
                        (record { name = latest; ident = ident })
                        (ready (record { name = latest; ident = ident }))
                        (record db { mux = m })
                      >>> λ next. done (refreshed, next.1)
                ]
              ]))
              db
      go m same (some existing) free made = Advances-stay db m h same
      go m same none free none = Advances-stay db m h same
      go m same none free (some ident) =
          let v : Version = record { name = latest; ident = ident } in
          let s : Switched v (ready v) (record db { mux = m }) =
            switch_version-Switched v (ready v) (record db { mux = m }) (IsSound-stay db m h same)
              (ap (λ s. s.held_at latest) same ∙ free) in
          rw s.returns (record {
            next = s.next;
            returns = refl;
            sound = s.sound;
            forward = λ u at_u.
                IsForward-then (view db.mux) (view m) (view s.next.mux)
                  (Moves-stay db m h same).forward s.forward u at_u;
          })

  -- Whatever the backend lists.
  pub refresh-Advances :
      (list : Text → Option (List Text)) (db : Db)
      → IsSound db
      → Advances (end_of (refresh list make ready db)) db
  unfolding refresh
  refresh-Advances list db h =
      let l : Looked (look_current db.mux) (view db.mux).current db.mux =
        look_current-Looked db.mux h.keyed in
      let seen : Db = record db { mux = l.after } in
      let stays : Advances (done seen) db = Advances-stay db l.after h l.same in
      rw l.returns (elim (Option-cases (list (name_of (view db.mux).current))) [
        | inl failing ↦ rw failing stays
        | inr (versions, listed) ↦ rw listed (elim (Option-cases (get_last? versions)) [
          | inl empty ↦ rw empty stays
          | inr (latest, last) ↦ rw last (
              Advances-from (end_of (refresh_latest make ready latest seen)) seen db
                (Moves-stay db l.after h l.same).forward
                (refresh_latest-Advances latest seen (IsSound-stay db l.after h l.same)))
        ])
      ])

  Free-next :
      (db next : Db) (name : Text) (names : List Text)
      → ((n : Text) → (name == n) ≡ false → (view next.mux).held_at n ≡ (view db.mux).held_at n)
      → Apart name names
      → Free db names
      → Free next names
  unfolding Apart Free
  Free-next db next name [] same apart free = tt
  Free-next db next name (n ∷ names) same apart free =
      (same n apart.0 ∙ free.0, Free-next db next name names same apart.1 free.1)

  pub backfill_loop-Advances :
      (names : List Text) (db : Db)
      → AllApart names
      → IsSound db
      → Free db names
      → Advances (backfill_loop make ready names db) db
  unfolding backfill_loop AllApart Free
  backfill_loop-Advances [] db apart h free = Advances-stay db db.mux h refl
  backfill_loop-Advances (name ∷ names) db apart h free = elim (Option-cases (make name)) [
    | inl failing ↦ rw (failing, backfill_loop) (backfill_loop-Advances names db apart.1 h free.1)
    | inr (ident, made) ↦
        let v : Version = record { name = name; ident = ident } in
        elim (Bool-cases (ready v)) [
          | inl at_once ↦
              let s : Switched v true db = switch_version-Switched v true db h free.0 in
              rw (made, backfill_loop, at_once, s.returns)
                (record { next = s.next; returns = refl; sound = s.sound; forward = s.forward })
          | inr later ↦
              let s : Switched v false db = switch_version-Switched v false db h free.0 in
              rw (made, backfill_loop, later, s.returns)
                (Advances-from (backfill_loop make ready names s.next) s.next db s.forward (
                  backfill_loop-Advances names s.next apart.1 s.sound
                    (Free-next db s.next name names (s.others refl) apart.0 free.1)))
        ]
  ]
