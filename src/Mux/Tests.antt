-- ===== src/Mux/Tests.antt =====
-- The theorems about the mux at one version that a request still holds.
use sequins.Prelude.{
  ◌≡◌, refl, false, Text, codes, List, [], ◌∷◌, Option, none, some, lookup, insert, delete, text_eq,
  text_eq_iff, Text_eq, Bool-cases, inl, inr, subst, ap, sym, native_keys, arith,
}
use mathlib.Core.Option.{some-injective}
use sequins.Mux.{
  Version, Version_eq, Entry, Mux, done, new_mux, count_of, prepare, upgrade, get_current, release,
  remove_delete, remove_may_return,
}
use sequins.Mux.Counts.{
  Sys, Action, current, finish, prepares, upgrades, step, run, Gone, remove-stuck,
}
use sequins.Mux.Balance.{Balanced, holders, step-Balanced}
use sequins.Mux.Handling.{
  serve_mux_key, chosen, answer, IsKeyed, Unchanged, serve_mux_key-Unchanged,
}
use sequins.Serve.{Written}

abbrev v1 : Version
v1 = record { name = codes "v1"; ident = 1 }

abbrev e1 : Entry
e1 = record { version = v1; close_timer = false; removing = false }

-- `v1` is prepared and current, and one request holds it.
abbrev busy : Sys
busy = record {
  mux = record {
    versions = (codes "v1", e1) ∷ [];
    current_version = some e1;
    counts = (v1, 1) ∷ [];
    resets = [];
  };
  held = v1 ∷ [];
}

busy_reached :
    run (prepares v1 ∷ upgrades v1 ∷ current ∷ []) (record { mux = new_mux; held = [] }) ≡ done busy
unfolding run step prepare upgrade get_current new_mux lookup insert text_eq
busy_reached = refl

-- The entry is deleted, then the request ends and another one comes and goes.
abbrev later : List Action
later = finish v1 ∷ current ∷ finish v1 ∷ []

abbrev after_later : Mux
after_later = record {
  versions = [];
  current_version = some e1;
  counts = (v1, 2) ∷ [];
  resets = [];
}

deleted-Gone : Gone v1 (remove_delete v1 busy.mux)
unfolding remove_delete lookup delete text_eq
deleted-Gone = record { nowhere = λ n e h. absurd (nothing n e h) }
  where
    nothing : (n : Text) (e : Entry) → ◌≡◌ {A = Option Entry} none (some e) → ⊥
    nothing n e h = cc h

remove-stuck_example : remove_may_return e1 after_later ≡ false
unfolding run step remove_delete lookup delete text_eq get_current release insert
remove-stuck_example =
    remove-stuck v1 e1 later busy (record { mux = after_later; held = [] }) refl (omega arith)
      deleted-Gone (tt, (tt, (tt, tt))) refl

busy-Balanced : Balanced busy
unfolding lookup holders
busy-Balanced = record {
  at_name = λ n e h. elim (Bool-cases (text_eq (codes "v1") n)) [
    | inl same ↦
        counted n e ((text_eq_iff (codes "v1") n).0 same) (some-injective e1 e (rw same at h))
    | inr other ↦ absurd (nothing e (rw other at h))
  ];
}
  where
    nothing : (e : Entry) → ◌≡◌ {A = Option Entry} none (some e) → ⊥
    nothing e h = cc h

    counted :
        (n : Text) (e : Entry)
        → codes "v1" ≡ n
        → e1 ≡ e
        → (e.version.name ≡ n) × (count_of e.version busy.mux ≡ holders e.version busy.held)
    counted n e name same =
        subst
          (λ x. (x.version.name ≡ n) × (count_of x.version busy.mux ≡ holders x.version busy.held))
          same (name, unfold text_eq in refl)

step-Balanced_example :
    Balanced (record { mux = record busy.mux { counts = (v1, 0) ∷ [] }; held = [] })
unfolding step release lookup insert text_eq
step-Balanced_example =
    step-Balanced (finish v1) busy _ busy-Balanced
      (λ e h. ap (λ x. x.version) (sym (some-injective e1 e h))) refl

busy-IsKeyed : IsKeyed busy.mux
unfolding lookup text_eq
busy-IsKeyed = record {
  at_name = λ n e h. found n e h;
  at_current = λ e h. (
    e1,
    subst (λ (x : Entry). lookup x.version.name busy.mux.versions ≡ some e1) (some-injective e1 e h)
        refl,
    ap (λ (x : Entry). x.version) (some-injective e1 e h),
  );
}
  where
    found : (n : Text) (e : Entry) → lookup n busy.mux.versions ≡ some e → e.version.name ≡ n
    found n e h = (busy-Balanced.at_name n e h).0

abbrev hello : Version → Written
hello v = record {
  status = 200;
  version_header = some v.name;
  proxy_header = none;
  body = codes "hello";
}

serve_mux_key-Unchanged_example :
    (m : Mux) × (serve_mux_key hello (codes "v2") busy.mux
      ≡ done (answer hello (codes "v2") (chosen (codes "v2") busy.mux), m))
    × Unchanged m busy.mux
serve_mux_key-Unchanged_example = serve_mux_key-Unchanged hello (codes "v2") busy.mux busy-IsKeyed
