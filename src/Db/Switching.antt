-- ===== src/Db/Switching.antt =====
-- A version that the db gets, and switches to at once or lets wait.
use sequins.Prelude.{
  ◌≡◌, refl, sym, ap, subst, ◌∙◌, inl, Bool, true, false, Text, ◌∷◌, none, some, ◌==◌, Text_eq,
  arith,
}
use sequins.Mux.{Version, done, prepare}
use sequins.Db.{Db, upgrade, switch_version}
use sequins.Db.Looking.{view}
use sequins.Db.Views.{Shows, prepare-Shows}
use sequins.Db.Invariant.{
  IsForward, Moves, prepared, Moves-prepared, prepared-itself, prepared-other,
}
use sequins.Db.Upgrade.{IsSound, IsSound-moved, Advances, Advances-from, upgrade-Advances}

-- The program goes on with the answer; no other name is taken by a version that is not ready.
pub record Switched (v : Version) (ready : Bool) (db : Db) : Type 0 where
  pub next : Db
  pub returns : switch_version v ready db ≡ done (ready, next)
  pub sound : IsSound next
  pub forward : IsForward (view db.mux) (view next.mux)
  pub others :
      ready ≡ false
      → (n : Text) → (v.name == n) ≡ false
      → (view next.mux).held_at n ≡ (view db.mux).held_at n

-- For a version of a name that the mux does not have.
pub switch_version-Switched :
    (v : Version) (ready : Bool) (db : Db)
    → IsSound db
    → (view db.mux).held_at v.name ≡ none
    → Switched v ready db
unfolding switch_version
switch_version-Switched v ready db h free = elim ready as (λ b. Switched v b db) [
  | true ↦
      let a : Advances (upgrade v mid) mid = upgrade-Advances v mid moved (inl held) in
      let from : Advances (upgrade v mid) db =
        Advances-from (upgrade v mid) mid db moves.forward a in
      record {
        next = from.next;
        returns = rw (shows.returns, from.returns) refl;
        sound = from.sound;
        forward = from.forward;
        others = λ e. absurd (ground (arith, e));
      }
  | false ↦ record {
    next = record db { mux = shows.after; waiting = v ∷ db.waiting };
    returns = rw shows.returns refl;
    sound = record {
      keyed = moved.keyed;
      waiting = (inl held, moved.waiting);
      removing = moved.removing;
      deleting = moved.deleting;
    };
    forward = moves.forward;
    others =
        λ e n other. ap (λ s. s.held_at n) shows.shown ∙ prepared-other (view db.mux) v n other;
  }
]
  where
    shows : Shows (prepare v db.mux) (prepared (view db.mux) v)
    shows = prepare-Shows v db.mux free

    moves : Moves (view db.mux) (view shows.after)
    moves =
        subst (Moves (view db.mux)) (sym shows.shown) (Moves-prepared (view db.mux) v h.keyed free)

    mid : Db
    mid = record db { mux = shows.after }

    moved : IsSound mid
    moved = IsSound-moved db shows.after h moves

    held : (view shows.after).held_at v.name ≡ some v
    held = ap (λ s. s.held_at v.name) shows.shown ∙ prepared-itself (view db.mux) v
