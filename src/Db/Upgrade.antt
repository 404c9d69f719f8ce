-- ===== src/Db/Upgrade.antt =====
-- An upgrade of a db: it does not stop the program, and the version that is served moves forward.
use sequins.Prelude.{
  ◌≡◌, refl, sym, ap, subst, ◌∙◌, inl, inr, true, false, List, [], ◌∷◌, ◌++◌, Option, none, some,
  Text_eq, arith, Bool-cases, text_lt, text_lt_total, All, All-append,
}
use mathlib.Core.Option.{some-injective}
use sequins.Mux.{Mux, Version, Outcome, done, upgrade as mux_upgrade, same_version_iff, get_all}
use sequins.Db.{Db, is_older, is_current, closed_by, upgrade, ◌>>>◌, look_current}
use sequins.Db.Looking.{View, view, IsKeyed, Looked, look_current-Looked}
use sequins.Db.Views.{Shows, upgrade-Shows}
use sequins.Db.Invariant.{
  Below, Waits, IsForward, Moves, Moves-same, served, Moves-served, IsForward-then,
}

pub record IsSound (db : Db) : Type 0 where
  pub keyed : IsKeyed (view db.mux)
  pub waiting : All (Waits (view db.mux)) db.waiting
  pub removing : All (λ r. Below (view db.mux) r.0) db.removing
  pub deleting : All (Below (view db.mux)) db.deleting

module _ {A : Type 0} {P Q : A → Type 0} (f : (a : A) → P a → Q a) where
  All-map : (xs : List A) → All P xs → All Q xs
  All-map [] h = tt
  All-map (x ∷ xs) h = (f x h.0, All-map xs h.1)

pub IsSound-moved :
    (db : Db) (m : Mux)
    → IsSound db
    → Moves (view db.mux) (view m)
    → IsSound (record db { mux = m })
IsSound-moved db m h moves = record {
  keyed = moves.still_keyed;
  waiting = All-map moves.still_waits db.waiting h.waiting;
  removing = All-map (λ r. moves.still_below r.0) db.removing h.removing;
  deleting = All-map moves.still_below db.deleting h.deleting;
}

-- The program goes on, and the served version's name is not below what it was.
pub record Advances (o : Outcome Db) (db : Db) : Type 0 where
  pub next : Db
  pub returns : o ≡ done next
  pub sound : IsSound next
  pub forward : IsForward (view db.mux) (view next.mux)

Moves-Looked :
    {o : Outcome (Option Version × Mux)} {found : Option Version} (mux : Mux)
    → IsKeyed (view mux)
    → (l : Looked o found mux) → Moves (view mux) (view l.after)
Moves-Looked mux k l = Moves-same (view mux) (view l.after) l.same k

-- Whatever an upgrade closes is older than the version that it upgrades to.
All-closed_by :
    (v : Version) (o : Option Version) (versions : List Version)
    → ((old : Version) → is_current old o ≡ true → text_lt old.name v.name ≡ true)
    → All (λ r. text_lt r.0.name v.name ≡ true) (closed_by v o versions)
unfolding closed_by
All-closed_by v o [] below = tt
All-closed_by v o (old ∷ versions) below = elim (Bool-cases (is_current old o)) [
  | inl current ↦ rw current (below old current, All-closed_by v o versions below)
  | inr other ↦ elim (Bool-cases (text_lt old.name v.name)) [
    | inl older ↦ rw (other, older) (older, All-closed_by v o versions below)
    | inr newer ↦ rw (other, newer) (All-closed_by v o versions below)
  ]
]

current_itself : (old : Version) (o : Option Version) → is_current old o ≡ true → o ≡ some old
current_itself old none h = ground (arith, h)
current_itself old (some c) h = ap some (sym ((same_version_iff old c).0 h))

module _ (s : View) (k : IsKeyed s) (v : Version) (held : s.held_at v.name ≡ some v)
    (not_older : is_older v s.current ≡ false) (new : is_current v s.current ≡ false) where
  pub current_below : (c : Version) → is_current c s.current ≡ true → text_lt c.name v.name ≡ true
  current_below c is_c = elim (Bool-cases (text_lt c.name v.name)) [
    | inl lt ↦ lt
    | inr ge ↦ absurd (
        not_new (
          some-injective c v (
            sym (k.current_held c at_c)
            ∙ ap s.held_at (text_lt_total c.name v.name ge (rw at_c at not_older))
            ∙ held)))
  ]
    where
      at_c : s.current ≡ some c
      at_c = current_itself c s.current is_c

      not_new : c ≡ v → ⊥
      not_new e = ground (arith, subst (λ (x : Version). is_current x s.current ≡ true) e is_c, new)

module _ (v : Version) (db : Db) (h : IsSound db) where
  -- `m` is the mux after the look at the current version.
  module _ (m : Mux) (same : view m ≡ view db.mux) where
    ignored :
        is_older v (view db.mux).current ≡ true
        → Advances (done (record db { mux = m; removing = (v, false) ∷ db.removing })) db
    ignored older =
        let moves : Moves (view db.mux) (view m) = Moves-same (view db.mux) (view m) same h.keyed in
        let moved : IsSound (record db { mux = m }) = IsSound-moved db m h moves in
        record {
          next = _;
          returns = refl;
          sound = record {
            keyed = moved.keyed;
            waiting = moved.waiting;
            removing = (moves.still_below v older, moved.removing);
            deleting = moved.deleting;
          };
          forward = moves.forward;
        }

    unchanged : Advances (done (record db { mux = m })) db
    unchanged =
        let moves : Moves (view db.mux) (view m) = Moves-same (view db.mux) (view m) same h.keyed in
        record {
          next = _;
          returns = refl;
          sound = IsSound-moved db m h moves;
          forward = moves.forward;
        }

    replaced :
        Waits (view db.mux) v
        → is_older v (view db.mux).current ≡ false
        → is_current v (view db.mux).current ≡ false
        → Advances
            (mux_upgrade v m >>> λ n. done (record db {
              mux = n;
              removing = closed_by v (view db.mux).current (get_all n) ++ db.removing;
            }))
            db
    replaced (inr older) not_older new = absurd (ground (arith, older, not_older))
    replaced (inl held) not_older new =
        let shows : Shows (mux_upgrade v m) (served (view m) v) =
          upgrade-Shows v m (rw same held) in
        let shown : view shows.after ≡ served (view db.mux) v =
          shows.shown ∙ ap (λ s. served s v) same in
        let moves : Moves (view db.mux) (view shows.after) =
          subst (Moves (view db.mux)) (sym shown)
            (Moves-served (view db.mux) v h.keyed held not_older) in
        let moved : IsSound (record db { mux = shows.after }) =
          IsSound-moved db shows.after h moves in
        let closed : All (λ r. Below (view shows.after) r.0)
            (closed_by v (view db.mux).current (get_all shows.after)) =
          subst
            (λ s. All (λ r. Below s r.0) (closed_by v (view db.mux).current (get_all shows.after)))
            (sym shown)
            (unfold served in
              All-closed_by v (view db.mux).current (get_all shows.after)
                (current_below (view db.mux) h.keyed v held not_older new)) in
        rw shows.returns (record {
          next = _;
          returns = refl;
          sound = record {
            keyed = moved.keyed;
            waiting = moved.waiting;
            removing = All-append _ _ _ closed moved.removing;
            deleting = moved.deleting;
          };
          forward = moves.forward;
        })

  pub upgrade-Advances : Waits (view db.mux) v → Advances (upgrade v db) db
  unfolding upgrade
  upgrade-Advances waits =
      let l : Looked (look_current db.mux) (view db.mux).current db.mux =
        look_current-Looked db.mux h.keyed in
      rw l.returns (elim (Bool-cases (is_older v (view db.mux).current)) [
        | inl older ↦ rw older (ignored l.after l.same older)
        | inr not_older ↦ rw not_older (elim (Bool-cases (is_current v (view db.mux).current)) [
          | inl current ↦ rw current (unchanged l.after l.same)
          | inr new ↦ rw new (replaced l.after l.same waits not_older new)
        ])
      ])

pub Advances-from :
    (o : Outcome Db) (mid db : Db)
    → IsForward (view db.mux) (view mid.mux)
    → Advances o mid
    → Advances o db
Advances-from o mid db f a = record {
  next = a.next;
  returns = a.returns;
  sound = a.sound;
  forward = IsForward-then (view db.mux) (view mid.mux) (view a.next.mux) f a.forward;
}
