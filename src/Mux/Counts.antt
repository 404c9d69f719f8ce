-- ===== src/Mux/Counts.antt =====
-- Requests in flight and the reference counts: what the counts mean while a version is in the mux,
-- and what becomes of a version that is deleted from it while a request still holds it.
use sequins.Prelude.{
  ℕ, ◌+◌, ◌≤◌, ◌<◌, ◌≡◌, ◌≢◌, refl, sym, ap, subst, ◌∙◌, false, Text, List, [], ◌∷◌, Option, none,
  some, if◌then◌else◌, ◌==◌, Text_eq, arith, Map, lookup, insert, lookup-insert,
  lookup-insert_other, lookup-delete, All, Bool-cases, inl, inr, native_keys,
}
use mathlib.Core.Option.{some-injective}
use sequins.Mux.{
  Version, same_version, same_version_iff, Version_eq, Entry, Mux, count_of, or_zero, Outcome, done,
  panic, acquire, get_current, get_version, release, count_done, prepare, upgrade, remove_arm,
  remove_delete, remove_may_return, acquire_found, release_found, prepare_free, make_current,
  checked_entry,
}

-- The mux, and the requests that hold a version.
pub record Sys : Type 0 where
  pub mux : Mux
  pub held : List Version

-- One critical section of one goroutine. `finish v` is the release at the end of a request.
pub data Action : Type 0 where
  current : Action
  named : Text → Action
  finish : Version → Action
  prepares : Version → Action
  upgrades : Version → Action
  arms : Version → Entry → Action
  deletes : Version → Action

pub done-injective : {A : Type 0} {a b : A} → ◌≡◌ {A = Outcome A} (done a) (done b) → a ≡ b
done-injective e = cc

abbrev pub hold : Option Version → List Version → List Version
hold none held = held
hold (some v) held = v ∷ held

unfoldable pub drop_one : Version → List Version → List Version
drop_one v [] = []
drop_one v (u ∷ held) = if same_version v u then held else u ∷ drop_one v held

abbrev pub with_mux : List Version → Outcome Mux → Outcome Sys
with_mux held panic = panic
with_mux held (done mux) = done (record { mux = mux; held = held })

unfoldable pub step : Action → Sys → Outcome Sys
unfolding drop_one
step current s =
    let (v, mux) = get_current s.mux in done (record { mux = mux; held = hold v s.held })
step (named name) s =
    let (v, mux) = get_version name s.mux in done (record { mux = mux; held = hold v s.held })
step (finish v) s = with_mux (drop_one v s.held) (release (some v) s.mux)
step (prepares v) s = with_mux s.held (prepare v s.mux)
step (upgrades v) s = with_mux s.held (upgrade v s.mux)
step (arms v e) s = done (record s { mux = remove_arm v e s.mux })
step (deletes v) s = done (record s { mux = remove_delete v s.mux })

abbrev pub and_then : Outcome Sys → (Sys → Outcome Sys) → Outcome Sys
and_then panic f = panic
and_then (done s) f = f s

unfoldable pub run : List Action → Sys → Outcome Sys
run [] s = done s
run (a ∷ rest) s = and_then (step a s) (run rest)

-- No entry of the mux stands for the version.
pub record Gone (v : Version) (mux : Mux) : Type 0 where
  pub nowhere : (n : Text) (e : Entry) → lookup n mux.versions ≡ some e → e.version ≢ v

-- The action does not put the version back.
abbrev pub Leaves : Version → Action → Type 0
Leaves v (prepares u) = u ≢ v
Leaves v (arms u e) = e.version ≢ v
Leaves v _ = Unit

-- Every operation but the release adds to the counts or leaves them.
acquire-count : (v : Version) (e : Entry) (m : Mux) → count_of v m ≤ count_of v (acquire e m)
unfolding acquire
acquire-count v e m = ground (
  arith,
  lookup-insert e.version v (count_of e.version m + 1) m.counts,
  same_version_iff e.version v,
)

-- Gone, and the count no lower than it was.
record Stuck (v : Version) (m m' : Mux) : Type 0 where
  gone : Gone v m'
  kept : count_of v m ≤ count_of v m'

acquire_found-Stuck :
    (v : Version) (o : Option Entry) (m : Mux) → Gone v m → Stuck v m (acquire_found o m).1
acquire_found-Stuck v none m g = record { gone = g; kept = omega arith }
acquire_found-Stuck v (some e) m g = record {
  gone = record { nowhere = unfold acquire in g.nowhere };
  kept = acquire-count v e m;
}

pub count-other :
    (v u : Version) (n : ℕ) (counts : Map Version ℕ)
    → u ≢ v
    → or_zero (lookup v (insert u n counts)) ≡ or_zero (lookup v counts)
count-other v u n counts ne =
    ap or_zero (lookup-insert_other u v n counts (ground (arith, same_version_iff u v)))

release_found-Stuck :
    (v u : Version) (o : Option Entry) (m m' : Mux)
    → Gone v m
    → lookup u.name m.versions ≡ o
    → release_found o m ≡ done m'
    → Stuck v m m'
unfolding count_done
release_found-Stuck v u none m m' g e h =
    subst (Stuck v m) (done-injective h) (record { gone = g; kept = omega arith })
release_found-Stuck v u (some x) m m' g e h = elim (Bool-cases (count_of x.version m == 0)) [
  | inl empty ↦ absurd (refused (rw empty at h))
  | inr some_held ↦ subst (Stuck v m) (done-injective (rw some_held at h)) (record {
    gone = record { nowhere = g.nowhere };
    kept = omega (arith, count-other v x.version _ m.counts (g.nowhere u.name x e));
  })
]
  where
    refused : panic ≡ done m' → ⊥
    refused p = cc p

insert-nowhere :
    (v : Version) (name : Text) (x : Entry) (m : Mux)
    → Gone v m
    → x.version ≢ v
    → (n : Text) (e : Entry) → lookup n (insert name x m.versions) ≡ some e
    → e.version ≢ v
insert-nowhere v name x m g ne n e h = elim (Bool-cases (name == n)) [
  | inl same ↦
      subst (λ y. y.version ≢ v)
        (some-injective x e (
          sym (
            lookup-insert name n x m.versions
            ∙ ap (λ b. if b then some x else lookup n m.versions) same)
          ∙ h))
        ne
  | inr other ↦ g.nowhere n e (sym (lookup-insert_other name n x m.versions other) ∙ h)
]

prepare_free-Stuck :
    (v u : Version) (o : Option Entry) (m m' : Mux)
    → Gone v m
    → u ≢ v
    → prepare_free o u m ≡ done m'
    → Stuck v m m'
prepare_free-Stuck v u (some e) m m' g ne h = ground arith
prepare_free-Stuck v u none m m' g ne h = subst (Stuck v m) (done-injective h) (record {
  gone = record { nowhere = insert-nowhere v u.name _ m g ne };
  kept = omega (arith, count-other v u 0 m.counts ne);
})

upgrade-Stuck :
    (v u : Version) (o : Option Entry) (m m' : Mux)
    → Gone v m
    → make_current (checked_entry o u) m ≡ done m'
    → Stuck v m m'
upgrade-Stuck v u none m m' g h = ground arith
upgrade-Stuck v u (some e) m m' g h = elim (Bool-cases (same_version e.version u)) [
  | inl same ↦
      subst (Stuck v m) (done-injective (rw same at h))
        (record { gone = record { nowhere = g.nowhere }; kept = omega arith })
  | inr other ↦ absurd (refused (rw other at h))
]
  where
    refused : panic ≡ done m' → ⊥
    refused p = cc p

delete-Stuck : (v u : Version) (m : Mux) → Gone v m → Stuck v m (remove_delete u m)
unfolding remove_delete
delete-Stuck v u m g = record {
  gone = record {
    nowhere = λ n e h. elim (Bool-cases (u.name == n)) [
      | inl same ↦ absurd (
          missing (
            sym (
              lookup-delete u.name n m.versions
              ∙ ap (λ b. if b then none else lookup n m.versions) same)
            ∙ h))
      | inr other ↦ g.nowhere n e (
          sym (
            lookup-delete u.name n m.versions
            ∙ ap (λ b. if b then none else lookup n m.versions) other)
          ∙ h)
    ];
  };
  kept = omega arith;
}
  where
    missing : {e : Entry} → none ≡ some e → ⊥
    missing p = cc p

with_mux-Stuck :
    (v : Version) (held : List Version) (o : Outcome Mux) (s t : Sys)
    → ((m' : Mux) → o ≡ done m' → Stuck v s.mux m')
    → with_mux held o ≡ done t
    → Stuck v s.mux t.mux
with_mux-Stuck v held panic s t k h = ground arith
with_mux-Stuck v held (done m) s t k h =
    subst (λ x. Stuck v s.mux x.mux) (done-injective h) (k m refl)

-- A version that is gone stays gone, and its count does not fall.
step-Stuck :
    (v : Version) (a : Action) (s t : Sys)
    → Gone v s.mux
    → Leaves v a
    → step a s ≡ done t
    → Stuck v s.mux t.mux
unfolding step
step-Stuck v current s t g l h =
    subst (λ x. Stuck v s.mux x.mux) (done-injective h)
      (unfold get_current in acquire_found-Stuck v s.mux.current_version s.mux g)
step-Stuck v (named name) s t g l h =
    subst (λ x. Stuck v s.mux x.mux) (done-injective h)
      (unfold get_version in acquire_found-Stuck v (lookup name s.mux.versions) s.mux g)
step-Stuck v (finish u) s t g l h =
    with_mux-Stuck v (drop_one u s.held) (release (some u) s.mux) s t
      (λ m' e.
        release_found-Stuck v u (lookup u.name s.mux.versions) s.mux m' g refl
          (unfold release in e))
      h
step-Stuck v (prepares u) s t g l h =
    with_mux-Stuck v s.held (prepare u s.mux) s t
      (λ m' e.
        prepare_free-Stuck v u (lookup u.name s.mux.versions) s.mux m' g l (unfold prepare in e))
      h
step-Stuck v (upgrades u) s t g l h =
    with_mux-Stuck v s.held (upgrade u s.mux) s t
      (λ m' e. upgrade-Stuck v u (lookup u.name s.mux.versions) s.mux m' g (unfold upgrade in e)) h
step-Stuck v (arms u x) s t g l h =
    subst (λ y. Stuck v s.mux y.mux) (done-injective h)
      (unfold remove_arm in
        record {
          gone = record { nowhere = insert-nowhere v u.name _ s.mux g l };
          kept = omega arith;
        })
step-Stuck v (deletes u) s t g l h =
    subst (λ y. Stuck v s.mux y.mux) (done-injective h) (delete-Stuck v u s.mux g)

run-Stuck :
    (v : Version) (actions : List Action) (s t : Sys)
    → Gone v s.mux
    → All (Leaves v) actions
    → run actions s ≡ done t
    → Stuck v s.mux t.mux
unfolding run
run-Stuck v [] s t g l h =
    subst (λ x. Stuck v s.mux x.mux) (done-injective h) (record { gone = g; kept = omega arith })
run-Stuck v (a ∷ rest) s t g l h = next (step a s) refl h (λ u. run-Stuck v rest u t)
  where
    next :
        (o : Outcome Sys)
        → step a s ≡ o
        → and_then o (run rest) ≡ done t
        → ((u : Sys)
            → Gone v u.mux
            → All (Leaves v) rest
            → run rest u ≡ done t
            → Stuck v u.mux t.mux)
        → Stuck v s.mux t.mux
    next panic e q k = ground arith
    next (done u) e q k =
        let first = step-Stuck v a s u g l.0 e in
        let later = k u first.gone l.1 q in
        record { gone = later.gone; kept = omega (arith, first.kept, later.kept) }

-- Once a version is deleted from the mux while a request still holds it, no schedule of requests
-- and upgrades lets the `remove` that deleted it return: the request's release no longer finds the
-- entry, so the count never comes down.
pub remove-stuck :
    (v : Version) (e : Entry) (actions : List Action) (s t : Sys)
    → e.version ≡ v
    → 0 < count_of v s.mux
    → Gone v (remove_delete v s.mux)
    → All (Leaves v) actions
    → run actions (record s { mux = remove_delete v s.mux }) ≡ done t
    → remove_may_return e t.mux ≡ false
unfolding remove_may_return remove_delete
remove-stuck v e actions s t same held gone l h =
    let stuck = run-Stuck v actions (record s { mux = remove_delete v s.mux }) t gone l h in
    rw same (ground (arith, stuck.kept))
