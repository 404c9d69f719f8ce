-- ===== src/Build/Skipping.antt =====
-- When a file is given up.
use sequins.Prelude.{
  ℕ, ◌+◌, ◌<◌, ◌≡◌, ◌≢◌, refl, sym, ap, ◌∙◌, inl, inr, Bool, true, false, not, ◌||◌, Text,
  native_keys, List, [], ◌∷◌, Option, none, some, Result, ok, err, continue, arith, Bool-cases,
  Option-cases, contains, KeySet, nat_eq, nat_eq_iff, length,
}
use sequins.Hash.{key_partition}
use sequins.Blocks.Sparkey.{Sparkey, Error}
use sequins.Blocks.Manifest.{Files}
use sequins.Blocks.Store.{St, add}
use sequins.Build.{
  BuildError, wrong_partition, canceled, corrupted, stream_error, store_error, Unwrap, SequenceFile,
  unwrap_key_value, Assumption, at_start, note, Verdict, give_up, pass, store, judge, add_keys,
  add_file_keys, as_build,
}
use sequins.Build.Kept.{noted, after_verdict, add_keys-record, add_keys_corrupted}

-- 1 before a partition is assumed.
unassumed : Assumption → ℕ
unassumed a = elim a.assumed [ none ↦ 1 | some p ↦ 0 ]

module _ (wanted : KeySet ℕ) where
  -- Nothing more can be given up: never partition is assumed any more, or one that is built.
  assumed_wanted : Option ℕ → Bool
  assumed_wanted none = false
  assumed_wanted (some p) = contains wanted p

  settled : Assumption → Bool
  unfolding assumed_wanted
  settled a = not a.can_assume || assumed_wanted a.assumed

  same_wanted : (p x : ℕ) → nat_eq p x ≡ true → contains wanted p ≡ contains wanted x
  same_wanted p x h = ap (contains wanted) ((nat_eq_iff p x).0 h)

  note-settled :
      (p q : ℕ) (a : Assumption)
      → settled a ≡ true
      → (settled (note p q a).1 ≡ true) × (judge wanted (note p q a) ≢ give_up)
  unfolding settled note judge
  note-settled p q a h = cases a.can_assume a.assumed refl refl
    where
      cases :
          (b : Bool) (o : Option ℕ)
          → a.can_assume ≡ b
          → a.assumed ≡ o
          → (settled (note p q a).1 ≡ true) × (judge wanted (note p q a) ≢ give_up)
      cases false o e f = ground (arith, e)
      cases true none e f = ground (arith, e, f, h)
      cases true (some x) e f = ground (arith, e, f, h, same_wanted p x, same_wanted q x)

  stored_settled :
      (p q : ℕ) (a : Assumption) → judge wanted (note p q a) ≡ store → settled (note p q a).1 ≡ true
  unfolding settled note judge
  stored_settled p q a h = cases a.can_assume a.assumed refl refl
    where
      cases :
          (b : Bool) (o : Option ℕ)
          → a.can_assume ≡ b
          → a.assumed ≡ o
          → settled (note p q a).1 ≡ true
      cases false o e f = ground (arith, e)
      cases true none e f = ground (arith, e, f, h)
      cases true (some x) e f = ground (arith, e, f, h, same_wanted p x, same_wanted q x)

  give_up-counted :
      (p q : ℕ) (a : Assumption)
      → judge wanted (note p q a) ≡ give_up
      → 5000 + unassumed a < a.assumed_for + 1
  unfolding judge note unassumed
  give_up-counted p q a h = ground (arith, h)

note-assumed_for :
    (p q : ℕ) (a : Assumption)
    → (note p q a).1.assumed_for + unassumed a < a.assumed_for + 2 + unassumed (note p q a).1
unfolding note unassumed
note-assumed_for p q a = ground arith

module _ (sp : Sparkey) (fs : Files (Sparkey.World sp)) (u : Unwrap) (file : SequenceFile)
    (wanted : KeySet ℕ) where
  wrong : Result BuildError Unit × St sp fs → Bool
  wrong (err wrong_partition, s) = true
  wrong (err canceled, s) = false
  wrong (err corrupted, s) = false
  wrong (err stream_error, s) = false
  wrong (err (store_error e), s) = false
  wrong (ok x, s) = false

  wrong-continue :
      (m : Result Error Unit × St sp fs) (f : St sp fs → Result BuildError Unit × St sp fs)
      → ((t : St sp fs) → wrong (f t) ≡ false)
      → wrong (continue (as_build sp fs m) λ _ t. f t) ≡ false
  unfolding wrong
  wrong-continue (ok x, s) f h = h s
  wrong-continue (err e, s) f h = refl

  module _ (r : Text × Text) (rs : List (Text × Text)) (a : Assumption) (s : St sp fs)
      (key value : Text) (good : unwrap_key_value u file r ≡ some (key, value)) where
    n_a : ℕ × Assumption
    n_a = noted sp fs u file wanted key a s

    settled_after :
        ((b : Assumption) (t : St sp fs)
          → settled wanted b ≡ true
          → wrong (add_keys sp fs u file wanted rs b t) ≡ false)
        → settled wanted n_a.1 ≡ true
        → (v : Verdict) → v ≢ give_up
        → wrong (after_verdict sp fs u file wanted r rs a s key value good v) ≡ false
    unfolding after_verdict n_a
    settled_after again h give_up never = absurd (never refl)
    settled_after again h pass never = again n_a.1 s h
    settled_after again h store never =
        wrong-continue (add sp fs key value s) (λ t. add_keys sp fs u file wanted rs n_a.1 t)
          λ t. again n_a.1 t h

  settled_goes_on :
      (rs : List (Text × Text)) (a : Assumption) (s : St sp fs)
      → settled wanted a ≡ true
      → wrong (add_keys sp fs u file wanted rs a s) ≡ false
  unfolding add_keys wrong n_a noted
  settled_goes_on [] a s h = elim (Bool-cases file.fails) [
    | inl fails ↦ rw fails refl
    | inr good ↦ rw good refl
  ]
  settled_goes_on (r ∷ rs) a s h = elim (Option-cases (unwrap_key_value u file r)) [
    | inl bad ↦ ap wrong (add_keys_corrupted sp fs u file wanted r rs a s bad)
    | inr ((key, value), good) ↦
        let (still, never) =
          note-settled wanted (key_partition key s.store.num_partitions).0
            (key_partition key s.store.num_partitions).1 a h in
        ap wrong (add_keys-record sp fs u file wanted r rs a s key value good)
        ∙ settled_after r rs a s key value good (λ b t k. settled_goes_on rs b t k) still
            (judge wanted (noted sp fs u file wanted key a s)) never
  ]

  -- A file that is given up, from some assumption on.
  GivenUp : List (Text × Text) → Assumption → St sp fs → St sp fs → Type 0
  GivenUp rs a s t = (t ≡ s) × (5000 + unassumed a < a.assumed_for + length rs)

  module _ (r : Text × Text) (rs : List (Text × Text)) (a : Assumption) (s t : St sp fs)
      (key value : Text) (good : unwrap_key_value u file r ≡ some (key, value))
      (again : (b : Assumption)
        → add_keys sp fs u file wanted rs b s ≡ (err wrong_partition, t)
        → GivenUp rs b s t) where
    after_verdict-GivenUp :
        (v : Verdict)
        → judge wanted (noted sp fs u file wanted key a s) ≡ v
        → after_verdict sp fs u file wanted r rs a s key value good v ≡ (err wrong_partition, t)
        → GivenUp (r ∷ rs) a s t
    unfolding after_verdict GivenUp noted wrong
    after_verdict-GivenUp give_up e h = (
      sym (ap (λ (x : Result BuildError Unit × St sp fs). x.1) h),
      omega (
        arith,
        give_up-counted wanted (key_partition key s.store.num_partitions).0
            (key_partition key s.store.num_partitions).1 a e,
      ),
    )
    after_verdict-GivenUp pass e h =
        let (same, long) = again (noted sp fs u file wanted key a s).1 h in
        (
          same,
          omega (
            arith,
            long,
            note-assumed_for (key_partition key s.store.num_partitions).0
                (key_partition key s.store.num_partitions).1 a,
          ),
        )
    after_verdict-GivenUp store e h = absurd (
        ground (
          arith,
          ap wrong h,
          wrong-continue (add sp fs key value s)
              (λ v. add_keys sp fs u file wanted rs (noted sp fs u file wanted key a s).1 v)
              λ v. settled_goes_on rs (noted sp fs u file wanted key a s).1 v (
                stored_settled wanted (key_partition key s.store.num_partitions).0
                  (key_partition key s.store.num_partitions).1 a e),
        ))

  add_keys-GivenUp :
      (rs : List (Text × Text)) (a : Assumption) (s t : St sp fs)
      → add_keys sp fs u file wanted rs a s ≡ (err wrong_partition, t)
      → GivenUp rs a s t
  unfolding add_keys wrong
  add_keys-GivenUp [] a s t h = absurd (elim (Bool-cases file.fails) [
    | inl fails ↦ ground (arith, fails, ap (λ (x : Result BuildError Unit × St sp fs). x.0) h)
    | inr good ↦ ground (arith, good, ap (λ (x : Result BuildError Unit × St sp fs). x.0) h)
  ])
  add_keys-GivenUp (r ∷ rs) a s t h = elim (Option-cases (unwrap_key_value u file r)) [
    | inl bad ↦
        absurd (
          ground
            (arith, ap wrong h, ap wrong (add_keys_corrupted sp fs u file wanted r rs a s bad)))
    | inr ((key, value), good) ↦
        after_verdict-GivenUp r rs a s t key value good (λ b k. add_keys-GivenUp rs b s t k)
          (judge wanted (noted sp fs u file wanted key a s)) refl
          (sym (add_keys-record sp fs u file wanted r rs a s key value good) ∙ h)
  ]

  -- If a file is given up because it is taken to be of a partition that is not built, then nothing of it
  -- was added, and it has at least 5002 records: the count of the assumption starts at the second
  -- record, and has to be above 5000.
  pub add_file_keys-gives_up :
      (s t : St sp fs)
      → add_file_keys sp fs u file wanted s ≡ (err wrong_partition, t)
      → (t ≡ s) × (5001 < length file.records)
  unfolding add_file_keys GivenUp unassumed
  add_file_keys-gives_up s t h =
      let (same, long) = add_keys-GivenUp file.records at_start s t h in (same, omega (arith, long))
