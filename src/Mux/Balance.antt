-- ===== src/Mux/Balance.antt =====
-- While a version is in the mux, its reference count is the number of requests that hold it.
use mathlib.Core.Option.{some-injective}
use sequins.Prelude.{
  ℕ, ◌+◌, ◌-◌, ◌≡◌, ◌≢◌, refl, sym, ap, subst, ◌∙◌, true, false, Text, List, [], ◌∷◌, Option, none,
  some, if◌then◌else◌, ◌==◌, Text_eq, text_eq_iff, arith, Map, lookup, insert, lookup-insert,
  lookup-insert_other, lookup-insert_self, lookup-delete, Bool-cases, inl, inr, native_keys, ◌⊎◌,
}
use sequins.Mux.{
  Version, same_version, same_version_iff, Version_eq, Entry, Mux, count_of, or_zero, Outcome, done,
  panic, acquire, acquire_found, get_current, get_version, release, release_found, count_done,
  prepare, prepare_free, upgrade, make_current, checked_entry, remove_arm, remove_delete,
}
use sequins.Mux.Counts.{
  Sys, Action, current, named, finish, prepares, upgrades, arms, deletes, drop_one, hold, with_mux,
  step, done-injective, count-other,
}

-- How many of the requests hold the version.
unfoldable pub holders : Version → List Version → ℕ
holders v [] = 0
holders v (u ∷ held) = (if same_version u v then 1 else 0) + holders v held

-- The entries stand under their versions' names, and count the holders.
pub record Balanced (s : Sys) : Type 0 where
  pub at_name :
      (n : Text) (e : Entry)
      → lookup n s.mux.versions ≡ some e
      → (e.version.name ≡ n) × (count_of e.version s.mux ≡ holders e.version s.held)

holders-drop_one :
    (v u : Version) (held : List Version) → u ≢ v → holders v (drop_one u held) ≡ holders v held
unfolding holders drop_one
holders-drop_one v u [] ne = refl
holders-drop_one v u (w ∷ held) ne = ground (
  arith,
  holders-drop_one v u held ne,
  same_version_iff u w,
  same_version_iff w v,
  same_version_iff u v,
)

holders-drop_one_self :
    (v : Version) (held : List Version) → holders v (drop_one v held) ≡ holders v held - 1
unfolding holders drop_one
holders-drop_one_self v [] = refl
holders-drop_one_self v (w ∷ held) =
    ground (arith, holders-drop_one_self v held, same_version_iff v w, same_version_iff w v)

count_self :
    (v : Version) (n : ℕ) (counts : Map Version ℕ) → or_zero (lookup v (insert v n counts)) ≡ n
count_self v n counts = ap or_zero (lookup-insert_self v n counts)

acquire-Balanced :
    (e : Entry) (s : Sys)
    → Balanced s
    → Balanced (record { mux = acquire e s.mux; held = e.version ∷ s.held })
unfolding acquire
acquire-Balanced e s b = record {
  at_name = λ n x h. (
    (b.at_name n x h).0,
    unfold holders in
        ground (
          arith,
          b.at_name n x h,
          same_version_iff e.version x.version,
          lookup-insert e.version x.version (count_of e.version s.mux + 1) s.mux.counts,
        ),
  );
}

acquire_found-Balanced :
    (o : Option Entry) (s : Sys)
    → Balanced s
    → Balanced
        (record { mux = (acquire_found o s.mux).1; held = hold (acquire_found o s.mux).0 s.held })
acquire_found-Balanced none s b = b
acquire_found-Balanced (some e) s b = acquire-Balanced e s b

finish-Balanced :
    (u : Version) (o : Option Entry) (s : Sys) (m : Mux)
    → Balanced s
    → lookup u.name s.mux.versions ≡ o
    → ((e : Entry) → o ≡ some e → e.version ≡ u)
    → release_found o s.mux ≡ done m
    → Balanced (record { mux = m; held = drop_one u s.held })
unfolding count_done
finish-Balanced u none s m b e own h =
    subst (λ y. Balanced (record { mux = y; held = drop_one u s.held })) (done-injective h)
      (record {
        at_name = λ n x l. (
          (b.at_name n x l).0,
          (b.at_name n x l).1
              ∙ sym (holders-drop_one x.version u s.held (λ q. absurd (clash n x l q))),
        );
      })
  where
    clash : (n : Text) (x : Entry) → lookup n s.mux.versions ≡ some x → u ≡ x.version → ⊥
    clash n x l q =
        let name : u.name ≡ n = ap (λ v. v.name) q ∙ (b.at_name n x l).0 in
        cc (sym e ∙ subst (λ k. lookup k s.mux.versions ≡ some x) (sym name) l)
finish-Balanced u (some x) s m b e own h = elim (Bool-cases (count_of x.version s.mux == 0)) [
  | inl empty ↦ absurd (refused (rw empty at h))
  | inr some_held ↦
      subst (λ y. Balanced (record { mux = y; held = drop_one u s.held }))
        (done-injective (rw some_held at h))
        (record { at_name = λ n y l. ((b.at_name n y l).0, counted n y l) })
]
  where
    refused : panic ≡ done m → ⊥
    refused p = cc p

    counts' : Map Version ℕ
    counts' = insert x.version (count_of x.version s.mux - 1) s.mux.counts

    counted :
        (n : Text) (y : Entry)
        → lookup n s.mux.versions ≡ some y
        → or_zero (lookup y.version counts') ≡ holders y.version (drop_one u s.held)
    counted n y l = elim (Bool-cases (same_version u y.version)) [
      | inl same ↦
          let q : u ≡ y.version = (same_version_iff u y.version).0 same in
          subst (λ v. or_zero (lookup v counts') ≡ holders v (drop_one u s.held)) q
            (subst
              (λ v.
                or_zero (lookup u (insert v (count_of v s.mux - 1) s.mux.counts))
                ≡ holders u (drop_one u s.held))
              (sym (own x refl))
              (count_self u (count_of u s.mux - 1) s.mux.counts
                ∙ ap (λ (k : ℕ). k - 1)
                    (subst (λ v. count_of v s.mux ≡ holders v s.held) (sym q) (b.at_name n y l).1)
                ∙ sym (holders-drop_one_self u s.held)))
      | inr other ↦
          count-other y.version x.version _ s.mux.counts
            (λ q. cc (other, (same_version_iff u y.version).1 (sym (own x refl) ∙ q)))
          ∙ (b.at_name n y l).1
          ∙ sym (
              holders-drop_one y.version u s.held
                (λ q. cc (other, (same_version_iff u y.version).1 q)))
    ]

prepare-Balanced :
    (u : Version) (o : Option Entry) (s : Sys) (m : Mux)
    → Balanced s
    → lookup u.name s.mux.versions ≡ o
    → holders u s.held ≡ 0
    → prepare_free o u s.mux ≡ done m
    → Balanced (record { mux = m; held = s.held })
prepare-Balanced u (some x) s m b e fresh h = ground arith
prepare-Balanced u none s m b e fresh h =
    subst (λ y. Balanced (record { mux = y; held = s.held })) (done-injective h)
      (record { at_name = λ n x l. placed n x l (Bool-cases (u.name == n)) })
  where
    entry : Entry
    entry = record { version = u; close_timer = false; removing = false }

    placed :
        (n : Text) (x : Entry)
        → lookup n (insert u.name entry s.mux.versions) ≡ some x
        → ((u.name == n) ≡ true) ⊎ ((u.name == n) ≡ false)
        → (x.version.name ≡ n)
          × (or_zero (lookup x.version (insert u 0 s.mux.counts)) ≡ holders x.version s.held)
    placed n x l (inl same) =
        let name = (text_eq_iff u.name n).0 same in
        let q : entry ≡ x = some-injective entry x (
          sym (lookup-insert_self u.name entry s.mux.versions)
          ∙ subst (λ k. lookup k (insert u.name entry s.mux.versions) ≡ some x) (sym name) l) in
        subst
          (λ y.
            (y.version.name ≡ n)
            × (or_zero (lookup y.version (insert u 0 s.mux.counts)) ≡ holders y.version s.held))
          q (name, count_self u 0 s.mux.counts ∙ sym fresh)
    placed n x l (inr other) =
        let old = sym (lookup-insert_other u.name n entry s.mux.versions other) ∙ l in
        (
          (b.at_name n x old).0,
          count-other x.version u 0 s.mux.counts (λ q.
                cc (other, (text_eq_iff u.name n).1 (ap (λ v. v.name) q ∙ (b.at_name n x old).0)))
              ∙ (b.at_name n x old).1,
        )

upgrade-Balanced :
    (u : Version) (o : Option Entry) (s : Sys) (m : Mux)
    → Balanced s
    → make_current (checked_entry o u) s.mux ≡ done m
    → Balanced (record { mux = m; held = s.held })
upgrade-Balanced u none s m b h = ground arith
upgrade-Balanced u (some x) s m b h = elim (Bool-cases (same_version x.version u)) [
  | inl same ↦
      subst (λ y. Balanced (record { mux = y; held = s.held })) (done-injective (rw same at h))
        (record { at_name = b.at_name })
  | inr other ↦ absurd (refused (rw other at h))
]
  where
    refused : panic ≡ done m → ⊥
    refused p = cc p

delete-Balanced :
    (u : Version) (s : Sys) → Balanced s → Balanced (record s { mux = remove_delete u s.mux })
unfolding remove_delete
delete-Balanced u s b = record {
  at_name = λ n x l. b.at_name n x (ground (arith, lookup-delete u.name n s.mux.versions));
}

arm-Balanced :
    (u : Version) (e x : Entry) (s : Sys)
    → Balanced s
    → lookup u.name s.mux.versions ≡ some x
    → x.version ≡ e.version
    → Balanced (record s { mux = remove_arm u e s.mux })
unfolding remove_arm
arm-Balanced u e x s b l q = record {
  at_name = λ n y k. elim (Bool-cases (u.name == n)) [
    | inl same ↦
        let armed : record e { close_timer = true } ≡ y = some-injective _ y (
          sym (lookup-insert_self u.name _ s.mux.versions)
          ∙ subst
              (λ w.
                lookup w (insert u.name (record e { close_timer = true }) s.mux.versions) ≡ some y)
              (sym ((text_eq_iff u.name n).0 same)) k) in
        subst (λ v. (v.name ≡ n) × (count_of v s.mux ≡ holders v s.held))
          (q ∙ ap (λ w. w.version) armed)
          ((b.at_name u.name x l).0 ∙ (text_eq_iff u.name n).0 same, (b.at_name u.name x l).1)
    | inr other ↦ b.at_name n y (sym (lookup-insert_other u.name n _ s.mux.versions other) ∙ k)
  ];
}

-- What an action must respect: a request releases the version that stands under its name, if one
-- does; a version that is prepared is new; and a removal writes back a copy of the entry it claimed.
abbrev pub Respects : Sys → Action → Type 0
Respects s (finish u) = (e : Entry) → lookup u.name s.mux.versions ≡ some e → e.version ≡ u
Respects s (prepares u) = holders u s.held ≡ 0
Respects s (arms u e) =
    (x : Entry) × (lookup u.name s.mux.versions ≡ some x) × (x.version ≡ e.version)
Respects s _ = Unit

with_mux-Balanced :
    (held : List Version) (o : Outcome Mux) (t : Sys)
    → ((m : Mux) → o ≡ done m → Balanced (record { mux = m; held = held }))
    → with_mux held o ≡ done t
    → Balanced t
with_mux-Balanced held panic t k h = ground arith
with_mux-Balanced held (done m) t k h = subst Balanced (done-injective h) (k m refl)

-- Every action that does not panic keeps this: each entry stands under its version's name, and its
-- count is the number of requests that hold its version. It does so if a request that finishes holds
-- the version that stands under its version's name, should there be one, if a version that is
-- prepared is held by no request yet, and if a removal that arms writes back an entry of the version that
-- stands there. Of a version that was deleted nothing is said.
pub step-Balanced :
    (a : Action) (s t : Sys) → Balanced s → Respects s a → step a s ≡ done t → Balanced t
unfolding step
step-Balanced current s t b r h =
    subst Balanced (done-injective h)
      (unfold get_current in acquire_found-Balanced s.mux.current_version s b)
step-Balanced (named name) s t b r h =
    subst Balanced (done-injective h)
      (unfold get_version in acquire_found-Balanced (lookup name s.mux.versions) s b)
step-Balanced (finish u) s t b r h =
    with_mux-Balanced (drop_one u s.held) (release (some u) s.mux) t
      (λ m e. finish-Balanced u (lookup u.name s.mux.versions) s m b refl r (unfold release in e)) h
step-Balanced (prepares u) s t b r h =
    with_mux-Balanced s.held (prepare u s.mux) t
      (λ m e. prepare-Balanced u (lookup u.name s.mux.versions) s m b refl r (unfold prepare in e))
      h
step-Balanced (upgrades u) s t b r h =
    with_mux-Balanced s.held (upgrade u s.mux) t
      (λ m e. upgrade-Balanced u (lookup u.name s.mux.versions) s m b (unfold upgrade in e)) h
step-Balanced (arms u e) s t b r h =
    subst Balanced (done-injective h) (arm-Balanced u e r.0 s b r.1 r.2)
step-Balanced (deletes u) s t b r h = subst Balanced (done-injective h) (delete-Balanced u s b)
