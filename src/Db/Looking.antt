-- ===== src/Db/Looking.antt =====
-- The version that is served, looked at and given back.
use sequins.Prelude.{
  ◌+◌, ◌≡◌, refl, sym, ap, subst, ◌∙◌, false, Text, Option, none, some, ◌==◌, Text_eq, arith,
  lookup, lookup-insert_self, native_keys,
}
use sequins.Mux.{
  Mux, Version, Version_eq, Entry, Outcome, done, acquire, release, count_done, count_of, or_zero,
  get_current, get_version, acquire_found,
}
use sequins.Db.{look_current, look_version, ◌>>>◌, give_back}

abbrev pub version_of : Option Entry → Option Version
version_of none = none
version_of (some e) = some e.version

-- What an upgrade sees of the mux.
pub record View : Type 0 where
  pub held_at : Text → Option Version
  pub current : Option Version

unfoldable pub view : Mux → View
view mux = record {
  held_at = λ n. version_of (lookup n mux.versions);
  current = version_of mux.current_version;
}

-- Entries stand under the names of their versions, and the current one is among them.
pub record IsKeyed (s : View) : Type 0 where
  pub keyed : (n : Text) (v : Version) → s.held_at n ≡ some v → v.name ≡ n
  pub current_held : (v : Version) → s.current ≡ some v → s.held_at v.name ≡ some v

-- A look that does not stop the program, does not change what the mux holds, and finds `found`.
pub record Looked (o : Outcome (Option Version × Mux)) (found : Option Version) (mux : Mux)
    : Type 0 where
  pub after : Mux
  pub returns : o ≡ done (found, after)
  pub same : view after ≡ view mux

count_done-acquired :
    (x e : Entry) (mux : Mux)
    → x.version ≡ e.version
    → Looked (count_done x (acquire e mux) >>> λ m. done (some e.version, m)) (some e.version) mux
unfolding view acquire count_done
count_done-acquired x e mux same =
    let counted : (count_of x.version (acquire e mux)) ≡ count_of e.version mux + 1 =
      ap (λ u. count_of u (acquire e mux)) same
      ∙ ap or_zero (lookup-insert_self e.version (count_of e.version mux + 1) mux.counts) in
    let positive : (count_of x.version (acquire e mux) == 0) ≡ false = ground (arith, counted) in
    rw positive (record { after = _; returns = refl; same = refl })

release-acquired :
    (e : Entry) (mux : Mux) (o : Option Entry)
    → lookup e.version.name mux.versions ≡ o
    → version_of o ≡ some e.version
    → Looked
        (release (some e.version) (acquire e mux) >>> λ m. done (some e.version, m))
        (some e.version)
        mux
unfolding release acquire
release-acquired e mux none at h = ground (arith, h)
release-acquired e mux (some x) at h = rw at (count_done-acquired x e mux (ground (arith, h)))

found-Looked :
    (o : Option Entry) (mux : Mux)
    → ((e : Entry) → o ≡ some e → (view mux).held_at e.version.name ≡ some e.version)
    → Looked (give_back (acquire_found o mux)) (version_of o) mux
unfolding view release
found-Looked none mux held = record { after = mux; returns = refl; same = refl }
found-Looked (some e) mux held =
    release-acquired e mux (lookup e.version.name mux.versions) refl (held e refl)

pub look_current-Looked :
    (mux : Mux) → IsKeyed (view mux) → Looked (look_current mux) (view mux).current mux
unfolding look_current get_current view acquire
look_current-Looked mux k =
    found-Looked mux.current_version mux (λ e h. k.current_held e.version (ap version_of h))

pub look_version-Looked :
    (name : Text) (mux : Mux)
    → IsKeyed (view mux)
    → Looked (look_version name mux) ((view mux).held_at name) mux
unfolding look_version get_version view acquire
look_version-Looked name mux k = found-Looked (lookup name mux.versions) mux (λ e h.
    subst (λ n. version_of (lookup n mux.versions) ≡ some e.version)
      (sym (k.keyed name e.version (ap version_of h))) (ap version_of h))
