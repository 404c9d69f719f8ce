-- ===== src/Db/Invariant.antt =====
-- What the operations of the mux do to the versions that wait and to those that are got rid of.
use sequins.Prelude.{
  ◌≡◌, refl, sym, ap, subst, ◌∙◌, ◌⊎◌, inl, inr, true, false, Text, Option, none, some,
  if◌then◌else◌, ◌==◌, Text_eq, text_eq_iff, arith, Bool-cases, text_lt, text_lt_irrefl,
  text_lt-not_below, not_below,
}
use mathlib.Core.Option.{some-injective}
use sequins.Mux.{Version}
use sequins.Db.{is_older}
use sequins.Db.Looking.{View, IsKeyed}

-- The version is older than the current one.
abbrev pub Below : View → Version → Type 0
Below s v = is_older v s.current ≡ true

-- The version is in the mux, or it is older than the current one.
abbrev pub Waits : View → Version → Type 0
Waits s v = (s.held_at v.name ≡ some v) ⊎ Below s v

-- There is a current version from then on, and its name is never below what it was.
abbrev pub IsForward : View → View → Type 0
IsForward s t =
    (v : Version)
    → s.current ≡ some v
    → (w : Version) × (t.current ≡ some w) × (text_lt w.name v.name ≡ false)

pub record Moves (s t : View) : Type 0 where
  pub still_keyed : IsKeyed t
  pub still_waits : (v : Version) → Waits s v → Waits t v
  pub still_below : (v : Version) → Below s v → Below t v
  pub forward : IsForward s t

pub Moves-same : (s t : View) → t ≡ s → IsKeyed s → Moves s t
Moves-same s t e k = subst (Moves s) (sym e) (record {
  still_keyed = k;
  still_waits = λ v h. h;
  still_below = λ v h. h;
  forward = λ v h. (v, h, text_lt_irrefl v.name);
})

pub IsForward-then : (s t u : View) → IsForward s t → IsForward t u → IsForward s u
IsForward-then s t u f g v h =
    let (w, at_w, not_lt) = f v h in
    let (x, at_x, not_lt') = g w at_w in (x, at_x, not_below v.name w.name x.name not_lt' not_lt)

-- The version was not in the mux, and is.
unfoldable pub prepared : View → Version → View
prepared s v = record s { held_at = λ n. if v.name == n then some v else s.held_at n }

prepared-held :
    (s : View) (v u : Version) (n : Text)
    → s.held_at v.name ≡ none
    → s.held_at n ≡ some u
    → (prepared s v).held_at n ≡ some u
unfolding prepared
prepared-held s v u n free h = elim (Bool-cases (v.name == n)) [
  | inr other ↦ rw other h
  | inl same ↦ absurd (ground (arith, h, free, ap s.held_at ((text_eq_iff v.name n).0 same)))
]

pub prepared-itself : (s : View) (v : Version) → (prepared s v).held_at v.name ≡ some v
unfolding prepared
prepared-itself s v = rw ((text_eq_iff v.name v.name).1 refl) refl

pub prepared-other :
    (s : View) (v : Version) (n : Text)
    → (v.name == n) ≡ false
    → (prepared s v).held_at n ≡ s.held_at n
unfolding prepared
prepared-other s v n other = rw other refl

prepared-name :
    (s : View) (v u : Version) (n : Text)
    → IsKeyed s
    → (prepared s v).held_at n ≡ some u
    → u.name ≡ n
unfolding prepared
prepared-name s v u n k h = elim (Bool-cases (v.name == n)) [
  | inr other ↦ k.keyed n u (rw other at h)
  | inl same ↦
      ap (λ (x : Version). x.name) (sym (some-injective v u (rw same at h)))
      ∙ (text_eq_iff v.name n).0 same
]

pub Moves-prepared :
    (s : View) (v : Version) → IsKeyed s → s.held_at v.name ≡ none → Moves s (prepared s v)
unfolding prepared
Moves-prepared s v k free = record {
  still_keyed = record {
    keyed = λ n u h. prepared-name s v u n k h;
    current_held = λ u h. prepared-held s v u u.name free (k.current_held u h);
  };
  still_waits = λ u h. elim h [
    | inl held ↦ inl (prepared-held s v u u.name free held)
    | inr below ↦ inr below
  ];
  still_below = λ u h. h;
  forward = λ u h. (u, h, text_lt_irrefl u.name);
}

-- The version is the current one.
unfoldable pub served : View → Version → View
served s v = record s { current = some v }

below_served :
    (u v : Version) (o : Option Version)
    → is_older u o ≡ true
    → is_older v o ≡ false
    → text_lt u.name v.name ≡ true
below_served u v none h k = ground (arith, h)
below_served u v (some c) h k = text_lt-not_below u.name c.name v.name h k

forward_served :
    (v c : Version) (o : Option Version)
    → o ≡ some c
    → is_older v o ≡ false
    → text_lt v.name c.name ≡ false
forward_served v c o e k = rw e at k

pub Moves-served :
    (s : View) (v : Version)
    → IsKeyed s
    → s.held_at v.name ≡ some v
    → is_older v s.current ≡ false
    → Moves s (served s v)
unfolding served
Moves-served s v k held newer = record {
  still_keyed = record {
    keyed = k.keyed;
    current_held =
        λ u h. subst (λ (x : Version). s.held_at x.name ≡ some x) (some-injective v u h) held;
  };
  still_waits = λ u h. elim h [
    | inl held ↦ inl held
    | inr below ↦ inr (below_served u v s.current below newer)
  ];
  still_below = λ u h. below_served u v s.current h newer;
  forward = λ c h. (v, refl, forward_served v c s.current h newer);
}

-- No version is under the name.
unfoldable pub emptied : View → Text → View
emptied s name = record s { held_at = λ n. if name == n then none else s.held_at n }

older_named :
    (u v : Version) (o : Option Version)
    → v.name ≡ u.name
    → is_older v o ≡ true
    → is_older u o ≡ true
older_named u v none e h = h
older_named u v (some c) e h = subst (λ n. text_lt n c.name ≡ true) e h

older_self : (v u : Version) → v.name ≡ u.name → text_lt v.name u.name ≡ true → true ≡ false
older_self v u e h = sym (subst (λ n. text_lt n u.name ≡ true) e h) ∙ text_lt_irrefl u.name

not_itself :
    (v u : Version) (o : Option Version)
    → is_older v o ≡ true
    → o ≡ some u
    → (v.name == u.name) ≡ false
not_itself v u o h e = elim (Bool-cases (v.name == u.name)) [
  | inr other ↦ other
  | inl same ↦
      absurd (ground (arith, older_self v u ((text_eq_iff v.name u.name).0 same) (rw e at h)))
]

pub Moves-emptied : (s : View) (v : Version) → IsKeyed s → Below s v → Moves s (emptied s v.name)
unfolding emptied
Moves-emptied s v k below = record {
  still_keyed = record {
    keyed = λ n u h. elim (Bool-cases (v.name == n)) [
      | inl same ↦ absurd (ground (arith, h, same))
      | inr other ↦ k.keyed n u (rw other at h)
    ];
    current_held = λ u h. rw (not_itself v u s.current below h) (k.current_held u h);
  };
  still_waits = λ u h. elim h [
    | inl held ↦ elim (Bool-cases (v.name == u.name)) [
      | inl same ↦ inr (older_named u v s.current ((text_eq_iff v.name u.name).0 same) below)
      | inr other ↦ inl (rw other held)
    ]
    | inr below ↦ inr below
  ];
  still_below = λ u h. h;
  forward = λ u h. (u, h, text_lt_irrefl u.name);
}
