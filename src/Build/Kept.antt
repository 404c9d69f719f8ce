-- ===== src/Build/Kept.antt =====
-- Which records of a file end up in the block store.
use sequins.Prelude.{
  ℕ, ◌≡◌, refl, sym, ap, subst, ◌∙◌, ◌⊎◌, inl, inr, Bool, true, false, not, ◌&&◌, Text, Text_eq,
  text_eq_iff, native_keys, List, [], ◌∷◌, Option, none, some, Result, ok, err, continue,
  continue-eq-ok, arith, Bool-cases, Option-cases, contains, KeySet, ◌==◌,
}
use sequins.Hash.{key_partition}
use sequins.Blocks.Sparkey.{Sparkey, Error, last_value}
use sequins.Blocks.Manifest.{Files}
use sequins.Blocks.Store.{St, add}
use sequins.Blocks.Store.Adding.{add_pairs, add-num_partitions}
use sequins.Build.{
  BuildError, wrong_partition, corrupted, Unwrap, SequenceFile, unwrap_key_value, Assumption,
  at_start, note, Verdict, give_up, pass, store, judge, add_keys, add_file_keys, as_build,
}

pub note_taken : (p q : ℕ) (a : Assumption) → ((note p q a).0 ≡ p) ⊎ ((note p q a).0 ≡ q)
unfolding note
note_taken p q a = ground arith

pub unwrap_all : Unwrap → SequenceFile → List (Text × Text) → Option (List (Text × Text))
unwrap_all u file [] = some []
unwrap_all u file (r ∷ rs) = elim (unwrap_key_value u file r) [
  | none ↦ none
  | some pair ↦ elim (unwrap_all u file rs) [ none ↦ none | some pairs ↦ some (pair ∷ pairs) ]
]

module _ (n : ℕ) (wanted : KeySet ℕ) where
  -- Both of the key's partitions are built, or neither.
  unfoldable pub both_wanted : Text → Bool
  both_wanted key =
      contains wanted (key_partition key n).0 && contains wanted (key_partition key n).1

  pub none_wanted : Text → Bool
  none_wanted key =
      not (contains wanted (key_partition key n).0) && not (contains wanted (key_partition key n).1)

  module _ (key : Text) (a : Assumption) where
    taken : ℕ
    taken = (note (key_partition key n).0 (key_partition key n).1 a).0

    taken_wanted :
        (contains wanted taken ≡ contains wanted (key_partition key n).0)
        ⊎ (contains wanted taken ≡ contains wanted (key_partition key n).1)
    unfolding taken
    taken_wanted = elim (note_taken (key_partition key n).0 (key_partition key n).1 a) [
      | inl e ↦ inl (ap (contains wanted) e)
      | inr e ↦ inr (ap (contains wanted) e)
    ]

    not_both : contains wanted taken ≡ false → both_wanted key ≡ false
    unfolding both_wanted
    not_both h = ground (arith, h, taken_wanted)

    not_none : contains wanted taken ≡ true → none_wanted key ≡ false
    unfolding none_wanted
    not_none h = ground (arith, h, taken_wanted)

  apart : (f : Text → Bool) (j k : Text) → f j ≡ false → f k ≡ true → (j == k) ≡ false
  apart f j k h g = elim (Bool-cases (j == k)) [
    | inr other ↦ other
    | inl same ↦
        absurd (ground (arith, subst (λ x. f x ≡ true) (sym ((text_eq_iff j k).0 same)) g, h))
  ]

  -- The pairs without some of those that are not to be built: in their order, each pair is kept, which
  -- it may be if one of its key's partitions is built, or passed over, if one of them is not.
  pub data Chosen : List (Text × Text) → List (Text × Text) → Type 0 where
    ended : Chosen [] []
    kept_pair :
        (key value : Text) (pairs kept : List (Text × Text))
        → none_wanted key ≡ false
        → Chosen pairs kept
        → Chosen ((key, value) ∷ pairs) ((key, value) ∷ kept)
    passed_over :
        (key value : Text) (pairs kept : List (Text × Text))
        → both_wanted key ≡ false
        → Chosen pairs kept
        → Chosen ((key, value) ∷ pairs) kept

  -- What a run over the records of `pairs` put into the store.
  pub record Keeps (pairs kept : List (Text × Text)) : Type 0 where
    pub chosen : Chosen pairs kept
    pub all_wanted :
        (key : Text) → both_wanted key ≡ true → last_value key kept ≡ last_value key pairs
    pub no_other : (key : Text) → none_wanted key ≡ true → last_value key kept ≡ none

  Keeps-nil : Keeps [] []
  Keeps-nil = record {
    chosen = ended;
    all_wanted = λ key h. refl;
    no_other = λ key h. unfold last_value in refl;
  }

  -- A record whose partition is taken to be a wanted one.
  Keeps-add :
      (key value : Text) (a : Assumption) (pairs kept : List (Text × Text))
      → contains wanted (taken key a) ≡ true
      → Keeps pairs kept
      → Keeps ((key, value) ∷ pairs) ((key, value) ∷ kept)
  unfolding last_value
  Keeps-add key value a pairs kept w h = record {
    chosen = kept_pair key value pairs kept (not_none key a w) h.chosen;
    all_wanted = λ k b. ground (arith, h.all_wanted k b);
    no_other = λ k b. ground (arith, h.no_other k b, apart none_wanted key k (not_none key a w) b);
  }

  -- A record whose partition is not.
  Keeps-skip :
      (key value : Text) (a : Assumption) (pairs kept : List (Text × Text))
      → contains wanted (taken key a) ≡ false
      → Keeps pairs kept
      → Keeps ((key, value) ∷ pairs) kept
  unfolding last_value
  Keeps-skip key value a pairs kept w h = record {
    chosen = passed_over key value pairs kept (not_both key a w) h.chosen;
    all_wanted =
        λ k b. ground (arith, h.all_wanted k b, apart both_wanted key k (not_both key a w) b);
    no_other = λ k b. h.no_other k b;
  }

module _ (sp : Sparkey) (fs : Files (Sparkey.World sp)) where
  pub as_build_ok :
      (m : Result Error Unit × St sp fs) (v : St sp fs)
      → as_build sp fs m ≡ (ok tt, v)
      → m ≡ (ok tt, v)
  as_build_ok (ok tt, s) v h = ap (λ (x : Result BuildError Unit × St sp fs). (ok tt, x.1)) h
  as_build_ok (err e, s) v h =
      absurd (ground (arith, ap (λ (x : Result BuildError Unit × St sp fs). x.0) h))

module _ (sp : Sparkey) (fs : Files (Sparkey.World sp)) (u : Unwrap) (file : SequenceFile)
    (wanted : KeySet ℕ) where
  -- A run that went through: it added some of the file's pairs, in their order.
  pub Through : List (Text × Text) → St sp fs → St sp fs → Type 0
  Through rs s t =
      (pairs : List (Text × Text)) × (kept : List (Text × Text)) × (unwrap_all u file rs
        ≡ some pairs)
      × (add_pairs sp fs kept s ≡ (ok tt, t))
      × Keeps s.store.num_partitions wanted pairs kept

  unfoldable pub noted : Text → Assumption → St sp fs → ℕ × Assumption
  noted key a s =
      note (key_partition key s.store.num_partitions).0 (key_partition key s.store.num_partitions).1
        a

  module _ (r : Text × Text) (rs : List (Text × Text)) (a : Assumption) (s : St sp fs)
      (key value : Text) (good : unwrap_key_value u file r ≡ some (key, value)) where
    more_pairs :
        (pairs : List (Text × Text))
        → unwrap_all u file rs ≡ some pairs
        → unwrap_all u file (r ∷ rs) ≡ some ((key, value) ∷ pairs)
    unfolding unwrap_all
    more_pairs pairs h = rw (good, unwrap_all) (rw h refl)

    unfoldable pub after_verdict : Verdict → Result BuildError Unit × St sp fs
    after_verdict give_up = (err wrong_partition, s)
    after_verdict pass = add_keys sp fs u file wanted rs (noted key a s).1 s
    after_verdict store =
        continue (as_build sp fs (add sp fs key value s))
          λ _ t. add_keys sp fs u file wanted rs (noted key a s).1 t

    pub add_keys-record :
        add_keys sp fs u file wanted (r ∷ rs) a s ≡ after_verdict (judge wanted (noted key a s))
    unfolding add_keys noted after_verdict
    add_keys-record = rw (good, add_keys) (same (judge wanted (noted key a s)))
      where
        same :
            (v : Verdict)
            → ◌≡◌ {A = Result BuildError Unit × St sp fs}
                (elim v [
                  | give_up ↦ (err wrong_partition, s)
                  | pass ↦ add_keys sp fs u file wanted rs (noted key a s).1 s
                  | store ↦
                      continue
                        (as_build sp fs (add sp fs key value s))
                        λ _ t. add_keys sp fs u file wanted rs (noted key a s).1 t
                ])
                (after_verdict v)
        same give_up = refl
        same pass = refl
        same store = refl

  pub add_keys_corrupted :
      (r : Text × Text) (rs : List (Text × Text)) (a : Assumption) (s : St sp fs)
      → unwrap_key_value u file r ≡ none
      → add_keys sp fs u file wanted (r ∷ rs) a s ≡ (err corrupted, s)
  unfolding add_keys
  add_keys_corrupted r rs a s bad = rw (bad, add_keys) refl

  judge-pass :
      (key : Text) (a : Assumption) (s : St sp fs)
      → judge wanted (noted key a s) ≡ pass
      → contains wanted (taken s.store.num_partitions wanted key a) ≡ false
  unfolding judge noted taken
  judge-pass key a s h = ground (arith, h)

  judge-store :
      (key : Text) (a : Assumption) (s : St sp fs)
      → judge wanted (noted key a s) ≡ store
      → contains wanted (taken s.store.num_partitions wanted key a) ≡ true
  unfolding judge noted taken
  judge-store key a s h = ground (arith, h)

  module _ (r : Text × Text) (rs : List (Text × Text)) (a : Assumption) (s t : St sp fs)
      (key value : Text) (good : unwrap_key_value u file r ≡ some (key, value))
      (again : (b : Assumption) (v : St sp fs)
        → add_keys sp fs u file wanted rs b v ≡ (ok tt, t)
        → Through rs v t) where
    after_verdict-Through :
        (v : Verdict)
        → judge wanted (noted key a s) ≡ v
        → after_verdict r rs a s key value good v ≡ (ok tt, t)
        → Through (r ∷ rs) s t
    unfolding after_verdict Through add_pairs
    after_verdict-Through give_up e h =
        absurd (ground (arith, ap (λ (x : Result BuildError Unit × St sp fs). x.0) h))
    after_verdict-Through pass e h =
        let (pairs, kept, all, added, keeps) = again (noted key a s).1 s h in
        (
          (key, value) ∷ pairs,
          kept,
          more_pairs r rs a s key value good pairs all,
          added,
          Keeps-skip s.store.num_partitions wanted key value a pairs kept (judge-pass key a s e)
              keeps,
        )
    after_verdict-Through store e h =
        let (_, v, stored, later) =
          continue-eq-ok (as_build sp fs (add sp fs key value s))
            (λ _ x. add_keys sp fs u file wanted rs (noted key a s).1 x) h in
        let first : add sp fs key value s ≡ (ok tt, v) =
          as_build_ok sp fs (add sp fs key value s) v stored in
        let (pairs, kept, all, added, keeps) = again (noted key a s).1 v later in
        let same : v.store.num_partitions ≡ s.store.num_partitions =
          ap (λ (x : Result Error Unit × St sp fs). x.1.store.num_partitions) (sym first)
          ∙ add-num_partitions sp fs key value s in
        (
          (key, value) ∷ pairs,
          (key, value) ∷ kept,
          more_pairs r rs a s key value good pairs all,
          rw first added,
          Keeps-add s.store.num_partitions wanted key value a pairs kept (judge-store key a s e)
              (subst (λ n. Keeps n wanted pairs kept) same keeps),
        )

  -- Whatever is assumed, if the records were read to their end.
  add_keys-Through :
      (rs : List (Text × Text)) (a : Assumption) (s t : St sp fs)
      → add_keys sp fs u file wanted rs a s ≡ (ok tt, t)
      → Through rs s t
  unfolding add_keys Through unwrap_all add_pairs
  add_keys-Through [] a s t h = (
    [],
    [],
    refl,
    ap (λ (x : Result BuildError Unit × St sp fs). (ok tt, x.1)) h,
    Keeps-nil s.store.num_partitions wanted,
  )
  add_keys-Through (r ∷ rs) a s t h = elim (Option-cases (unwrap_key_value u file r)) [
    | inl bad ↦ absurd (
        ground (
          arith,
          ap (λ (x : Result BuildError Unit × St sp fs). x.0)
              (sym (add_keys_corrupted r rs a s bad) ∙ h),
        ))
    | inr ((key, value), good) ↦
        after_verdict-Through r rs a s t key value good (λ b v. add_keys-Through rs b v t)
          (judge wanted (noted key a s)) refl (sym (add_keys-record r rs a s key value good) ∙ h)
  ]

  -- If a file's keys are added without an error, and the file is not given up, then all its records could
  -- be unwrapped, and what was added, by Add in this order, is the file's pairs in their order without
  -- some of those of which a partition is not built: each pair of which both partitions are built was
  -- added, and none of which neither is. So for a key whose partitions are both built the last value of the
  -- file was added last, and no value for a key of which neither partition is built.
  pub add_file_keys-Through :
      (s t : St sp fs)
      → add_file_keys sp fs u file wanted s ≡ (ok tt, t)
      → (pairs : List (Text × Text)) × (kept : List (Text × Text)) × (unwrap_all u file file.records
          ≡ some pairs)
        × (add_pairs sp fs kept s ≡ (ok tt, t))
        × Chosen s.store.num_partitions wanted pairs kept
        × ((key : Text)
            → (both_wanted s.store.num_partitions wanted key ≡ true
                → last_value key kept ≡ last_value key pairs)
              × (none_wanted s.store.num_partitions wanted key ≡ true → last_value key kept ≡ none))
  unfolding add_file_keys Through
  add_file_keys-Through s t h =
      let (pairs, kept, all, added, keeps) = add_keys-Through file.records at_start s t h in
      (pairs, kept, all, added, keeps.chosen, λ key. (keeps.all_wanted key, keeps.no_other key))
