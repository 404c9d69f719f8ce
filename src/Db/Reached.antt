-- ===== src/Db/Reached.antt =====
-- A db from its start on: backfillVersions, and then steps in any order.
use sequins.Prelude.{
  ◌≡◌, refl, sym, subst, ◌∙◌, inl, inr, Bool, false, Text, Text_eq, text_eq_iff, List, [], ◌∷◌,
  Option, none, some, ◌==◌, arith, lookup, Bool-cases, Option-cases, All, ℕ, ltb, length,
}
use sequins.Mux.{Version, Outcome, done, new_mux}
use sequins.Mux.Counts.{done-injective}
use sequins.Db.{Db, new_db, backfill_versions, reversed, last_three}
use sequins.Db.Looking.{view}
use sequins.Db.Invariant.{IsForward}
use sequins.Db.Upgrade.{IsSound, Advances}
use sequins.Db.Forward.{backfill_loop-Advances, Advances-stay, Apart, AllApart, Free}
use sequins.Db.Steps.{Step, Step-Advances}

none-some : (v : Version) → none ≡ some v → ⊥
none-some v h = ground (arith, h)

new_db-IsSound : IsSound new_db
unfolding new_db new_mux view lookup
new_db-IsSound = record {
  keyed = record {
    keyed = λ n v h. absurd (none-some v h);
    current_held = λ v h. absurd (none-some v h);
  };
  waiting = tt;
  removing = tt;
  deleting = tt;
}

All-last_three : (P : Text → Type 0) (vs : List Text) → All P vs → All P (last_three vs)
unfolding last_three
All-last_three P [] h = tt
All-last_three P (v ∷ vs) h = elim (Bool-cases (ltb (length vs) 3)) [
  | inl short ↦ rw short h
  | inr long ↦ rw long (All-last_three P vs h.1)
]

AllApart-last_three : (vs : List Text) → AllApart vs → AllApart (last_three vs)
unfolding last_three AllApart
AllApart-last_three [] h = tt
AllApart-last_three (v ∷ vs) h = elim (Bool-cases (ltb (length vs) 3)) [
  | inl short ↦ rw short h
  | inr long ↦ rw long (AllApart-last_three vs h.1)
]

Apart-sym : (v w : Text) → (v == w) ≡ false → (w == v) ≡ false
Apart-sym v w h = elim (Bool-cases (w == v)) [
  | inr other ↦ other
  | inl same ↦ absurd (ground (arith, h, (text_eq_iff v w).1 (sym ((text_eq_iff w v).0 same))))
]

-- Each of `vs` is apart from all of `acc`.
Crossed : List Text → List Text → Type 0
Crossed vs acc = All (λ x. Apart x acc) vs

Crossed-cons : (v : Text) (vs acc : List Text) → Apart v vs → Crossed vs acc → Crossed vs (v ∷ acc)
unfolding Crossed Apart
Crossed-cons v [] acc a c = tt
Crossed-cons v (x ∷ vs) acc a c = ((Apart-sym v x a.0, c.0), Crossed-cons v vs acc a.1 c.1)

AllApart-reversed :
    (vs acc : List Text) → AllApart vs → AllApart acc → Crossed vs acc → AllApart (reversed vs acc)
unfolding reversed AllApart Crossed
AllApart-reversed [] acc h k c = k
AllApart-reversed (v ∷ vs) acc h k c =
    AllApart-reversed vs (v ∷ acc) h.1 (c.0, k) (Crossed-cons v vs acc h.0 c.1)

Crossed-nil : (vs : List Text) → Crossed vs []
unfolding Crossed Apart
Crossed-nil [] = tt
Crossed-nil (v ∷ vs) = (tt, Crossed-nil vs)

Free-new : (names : List Text) → Free new_db names
unfolding Free new_db new_mux view lookup
Free-new [] = tt
Free-new (n ∷ names) = (refl, Free-new names)

-- What the backend lists at the start has every name once.
pub backfill_versions-Advances :
    (list : Text → Option (List Text)) (make : Text → Option ℕ) (ready : Version → Bool)
    → ((versions : List Text) → list [] ≡ some versions → AllApart versions)
    → Advances (backfill_versions list make ready new_db) new_db
unfolding backfill_versions
backfill_versions-Advances list make ready apart = elim (Option-cases (list [])) [
  | inl failing ↦
      rw (failing, backfill_versions) (Advances-stay new_db new_db.mux new_db-IsSound refl)
  | inr (versions, listed) ↦
      let names : List Text = reversed (last_three versions) [] in
      rw (listed, backfill_versions)
        (backfill_loop-Advances make ready names new_db
          (AllApart-reversed (last_three versions) []
            (AllApart-last_three versions (apart versions listed)) (unfold AllApart in tt)
            (Crossed-nil (last_three versions)))
          new_db-IsSound (Free-new names))
]

-- The states of a db.
pub data Reached : Db → Type 0 where
  starts :
      (list : Text → Option (List Text)) (make : Text → Option ℕ) (ready : Version → Bool)
      → ((versions : List Text) → list [] ≡ some versions → AllApart versions)
      → (db : Db) → backfill_versions list make ready new_db ≡ done db
      → Reached db
  steps : (db next : Db) → Reached db → Step db (done next) → Reached next

Advances-at : (db next : Db) (o : Outcome Db) → Advances o db → o ≡ done next → IsSound next
Advances-at db next o a e = subst IsSound (done-injective (sym a.returns ∙ e)) a.sound

pub Reached-IsSound : (db : Db) → Reached db → IsSound db
Reached-IsSound _ (starts list make ready apart db e) =
    Advances-at new_db db _ (backfill_versions-Advances list make ready apart) e
Reached-IsSound _ (steps db next r s) =
    Advances-at db next (done next) (Step-Advances db (Reached-IsSound db r) (done next) s) refl

-- After backfillVersions and any steps in any order, none of these stops the program, whatever the
-- backend lists: a refresh, the upgrade to a version that waits, removeVersion up to the mux's wait, the
-- deletion behind that wait, and a request that takes a version or that gives one back, if the
-- entry under that version's name, should there be one, counts a request. So the mux has each version
-- that an upgrade asks for, and no name is prepared twice. The served version's name does not go
-- down in any of them. The listing that the db starts with has no name twice. The closing of
-- versions, at the end of removeVersion and by close, is not among the steps.
pub Reached-Step :
    (db : Db) (o : Outcome Db)
    → Reached db
    → Step db o
    → (next : Db) × (o ≡ done next) × IsForward (view db.mux) (view next.mux)
Reached-Step db o r s =
    let a : Advances o db = Step-Advances db (Reached-IsSound db r) o s in
    (a.next, a.returns, a.forward)
