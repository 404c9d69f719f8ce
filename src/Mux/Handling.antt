-- ===== src/Mux/Handling.antt =====
-- serveKey of version_mux.go: a request holds a version while that version serves it.
use sequins.Prelude.{
  ℕ, ◌+◌, ◌-◌, ◌≡◌, refl, sym, ap, subst, ◌∙◌, true, false, Text, Text_eq, [], Option, none, some,
  if◌then◌else◌, ◌==◌, lookup, insert, lookup-insert_self, lookup-insert_other, arith, Bool-cases,
  inl, inr, native_keys,
}
use sequins.Mux.{
  Version, same_version, same_version_iff, Version_eq, Entry, Mux, count_of, or_zero, Outcome, done,
  panic, acquire, acquire_found, get_current, get_version, release, release_found, count_done,
}
use sequins.Serve.{Written, only_status}

abbrev released : Written → Outcome Mux → Outcome (Written × Mux)
released w panic = panic
released w (done m) = done (w, m)

-- The version serves the request, and is released; or there is none, and the status says so.
abbrev serve_found : (Version → Written) → ℕ → Option Version × Mux → Outcome (Written × Mux)
serve_found serve status (none, mux) = done (only_status status, mux)
serve_found serve status (some vs, mux) = released (serve vs) (release (some vs) mux)

abbrev or_current : (Version → Written) → Option Version × Mux → Outcome (Written × Mux)
or_current serve (some vs, mux) = serve_found serve 501 (some vs, mux)
or_current serve (none, mux) = serve_found serve 501 (get_current mux)

-- `serve` is serveKey of a version, and `proxied` the parameter `proxy` of the query.
pub serve_mux_key : (Version → Written) → Text → Mux → Outcome (Written × Mux)
serve_mux_key serve proxied mux =
    if proxied == []
    then serve_found serve 404 (get_current mux)
    else or_current serve (get_version proxied mux)

-- The entry whose version is asked.
abbrev or_entry : Option Entry → Option Entry → Option Entry
or_entry (some e) other = some e
or_entry none other = other

pub chosen : Text → Mux → Option Entry
chosen proxied mux =
    if proxied == []
    then mux.current_version
    else or_entry (lookup proxied mux.versions) mux.current_version

abbrev pub answer : (Version → Written) → Text → Option Entry → Written
answer serve proxied none = only_status (if proxied == [] then 404 else 501)
answer serve proxied (some e) = serve e.version

-- The entries stand under the names of their versions, and the current version is among them.
pub record IsKeyed (mux : Mux) : Type 0 where
  pub at_name : (n : Text) (e : Entry) → lookup n mux.versions ≡ some e → e.version.name ≡ n
  pub at_current :
      (e : Entry)
      → mux.current_version ≡ some e
      → (x : Entry) × (lookup e.version.name mux.versions ≡ some x) × (x.version ≡ e.version)

-- The versions are the same, and as many requests hold each of them.
pub record Unchanged (m mux : Mux) : Type 0 where
  pub same_versions : m.versions ≡ mux.versions
  pub same_current : m.current_version ≡ mux.current_version
  pub same_counts : (v : Version) → count_of v m ≡ count_of v mux

never_zero : (n : ℕ) → (n + 1 == 0) ≡ false
never_zero n = ground arith

up_down : (n : ℕ) → n + 1 - 1 ≡ n
up_down n = omega arith

count_up_down :
    (u v : Version) (mux : Mux)
    → or_zero (
        lookup u (
          insert v
            (or_zero (lookup v (insert v (count_of v mux + 1) mux.counts)) - 1)
            (insert v (count_of v mux + 1) mux.counts)))
      ≡ count_of u mux
count_up_down u v mux = elim (Bool-cases (same_version v u)) [
  | inl same ↦
      subst
        (λ (y : Version).
          or_zero (
            lookup y (
              insert v (or_zero (lookup v (insert v (count_of v mux + 1) mux.counts)) - 1)
                (insert v (count_of v mux + 1) mux.counts)))
          ≡ count_of y mux)
        ((same_version_iff v u).0 same)
        (ap or_zero (lookup-insert_self v _ _)
          ∙ ap (λ o. or_zero o - 1) (lookup-insert_self v (count_of v mux + 1) mux.counts)
          ∙ up_down (count_of v mux))
  | inr other ↦ ap or_zero (lookup-insert_other v u _ _ other ∙ lookup-insert_other v u _ _ other)
]

release-acquire :
    (e x : Entry) (mux : Mux)
    → lookup e.version.name mux.versions ≡ some x
    → x.version ≡ e.version
    → (m : Mux) × (release (some e.version) (acquire e mux) ≡ done m) × Unchanged m mux
unfolding acquire release count_done
release-acquire e x mux found same =
    let at_zero : (count_of x.version (acquire e mux) == 0) ≡ false =
      subst (λ (y : Version). (count_of y (acquire e mux) == 0) ≡ false) (sym same)
        (ap (λ o. or_zero o == 0)
            (lookup-insert_self e.version (count_of e.version mux + 1) mux.counts)
          ∙ never_zero (count_of e.version mux)) in
    (
      record (acquire e mux) {
        counts = insert x.version (count_of x.version (acquire e mux) - 1) (acquire e mux).counts;
      },
      ap (λ o. release_found o (acquire e mux)) found ∙ rw at_zero refl,
      record {
        same_versions = refl;
        same_current = refl;
        same_counts = λ v.
            subst
              (λ (y : Version).
                or_zero
                  (lookup v (insert y (count_of y (acquire e mux) - 1) (acquire e mux).counts))
                ≡ count_of v mux)
              (sym same) (count_up_down v e.version mux);
      },
    )

served_here :
    (serve : Version → Written) (status : ℕ) (e x : Entry) (mux : Mux)
    → lookup e.version.name mux.versions ≡ some x
    → x.version ≡ e.version
    → (m : Mux) × (serve_found serve status (some e.version, acquire e mux)
        ≡ done (serve e.version, m))
      × Unchanged m mux
served_here serve status e x mux found same =
    let (m, returns, unchanged) = release-acquire e x mux found same in
    (m, ap (released (serve e.version)) returns, unchanged)

Unchanged-refl : (mux : Mux) → Unchanged mux mux
Unchanged-refl mux = record { same_versions = refl; same_current = refl; same_counts = λ v. refl }

served_current :
    (serve : Version → Written) (status : ℕ) (mux : Mux) (o : Option Entry)
    → IsKeyed mux
    → mux.current_version ≡ o
    → (m : Mux) × (serve_found serve status (acquire_found o mux)
        ≡ done (elim o [ none ↦ only_status status | some e ↦ serve e.version ], m))
      × Unchanged m mux
served_current serve status mux none keyed h = (mux, refl, Unchanged-refl mux)
served_current serve status mux (some e) keyed h =
    let (x, found, same) = keyed.at_current e h in served_here serve status e x mux found same

served_named :
    (serve : Version → Written) (proxied : Text) (mux : Mux) (o : Option Entry)
    → IsKeyed mux
    → (proxied == []) ≡ false
    → lookup proxied mux.versions ≡ o
    → (m : Mux) × (or_current serve (acquire_found o mux)
        ≡ done (answer serve proxied (or_entry o mux.current_version), m))
      × Unchanged m mux
unfolding get_current
served_named serve proxied mux (some e) keyed other h =
    served_here serve 501 e e mux (ap (λ n. lookup n mux.versions) (keyed.at_name proxied e h) ∙ h)
      refl
served_named serve proxied mux none keyed other h =
    let (m, returns, unchanged) = served_current serve 501 mux mux.current_version keyed refl in
    (m, returns ∙ ap (λ w. done (w, m)) (said mux.current_version), unchanged)
  where
    said :
        (o : Option Entry)
        → elim o [ none ↦ only_status 501 | some e ↦ serve e.version ] ≡ answer serve proxied o
    said (some e) = refl
    said none = ap only_status (rw other refl)

-- A request, between which and its end nothing else happens to a mux whose entries stand under the
-- names of their versions and include the current one: it ends without a panic. A request for a version
-- is answered by it if the mux has it, and any other by the current version; if there is none, the
-- status is 404, or 501 for a request for a version. Then every version has the
-- reference count that it had, and the mux its versions and its current one.
pub serve_mux_key-Unchanged :
    (serve : Version → Written) (proxied : Text) (mux : Mux)
    → IsKeyed mux
    → (m : Mux) × (serve_mux_key serve proxied mux
        ≡ done (answer serve proxied (chosen proxied mux), m))
      × Unchanged m mux
unfolding serve_mux_key chosen get_current get_version
serve_mux_key-Unchanged serve proxied mux keyed = elim (Bool-cases (proxied == [])) [
  | inl client ↦
      let (m, returns, unchanged) = served_current serve 404 mux mux.current_version keyed refl in
      (m, rw client (returns ∙ ap (λ w. done (w, m)) (said client mux.current_version)), unchanged)
  | inr other ↦
      let (m, returns, unchanged) =
        served_named serve proxied mux (lookup proxied mux.versions) keyed other refl in
      (m, rw other returns, unchanged)
]
  where
    said :
        (proxied == []) ≡ true
        → (o : Option Entry)
        → elim o [ none ↦ only_status 404 | some e ↦ serve e.version ] ≡ answer serve proxied o
    said client (some e) = refl
    said client none = ap only_status (rw client refl)
