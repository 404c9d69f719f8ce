-- ===== src/Main/Starting.antt =====
-- What holds once main has chosen a configuration and a backend.
use mathlib.Core.Option.{some-injective}
use sequins.Prelude.{
  if_false, ◌≡◌, refl, sym, ap, subst, ◌∙◌, ◌⊎◌, inl, inr, ◌||◌, true, Text, Text_eq, text_eq,
  text_eq_iff, codes, [], Option, none, some, >>=_some, Result, ok, err, if◌then◌else◌, ◌==◌, arith,
  Bool, ◌≢◌, Option-cases, Bool-cases,
}
use sequins.Config.{Url, SequinsConfig, ConfigError, validate_config, is_abs}
use sequins.Config.Loading.{Loaded}
use sequins.Config.Timeouts.{validate_config-Accepted}
use sequins.Config.Absolute.{store-is_abs, source-is_abs}
use sequins.Main.{
  Flags, Setup, local_setup, s3_setup, hdfs_setup, source_of, chosen_config, accepted,
  choose_backend, with_source, with_local_store, with_bind, with_debug_bind, main_config,
  main_setup,
}

-- A source that is a path, and what the backend of a source is made of.
unfoldable pub is_path : Url → Bool
is_path parsed = text_eq parsed.scheme [] || text_eq parsed.scheme (codes "file")

unfoldable pub Backed : Url → Setup → Type 0
Backed parsed (local_setup path) =
    (is_path parsed ≡ true) × (path ≡ parsed.path) × (is_abs path ≡ true)
Backed parsed (s3_setup bucket path) =
    (parsed.scheme ≡ codes "s3") × (bucket ≡ parsed.host) × (path ≡ parsed.path)
Backed parsed (hdfs_setup namenode path) =
    (parsed.scheme ≡ codes "hdfs") × (namenode ≡ parsed.host) × (path ≡ parsed.path)

choose_backend-Backed :
    (parsed : Url) (s : Setup)
    → (is_path parsed ≡ true → is_abs parsed.path ≡ true)
    → choose_backend parsed ≡ some s
    → Backed parsed s
unfolding choose_backend Backed is_path
choose_backend-Backed parsed (local_setup path) absolute h = ground (arith, h, absolute)
choose_backend-Backed parsed (s3_setup bucket path) absolute h =
    ground (arith, h, text_eq_iff parsed.scheme (codes "s3"))
choose_backend-Backed parsed (hdfs_setup namenode path) absolute h =
    ground (arith, h, text_eq_iff parsed.scheme (codes "hdfs"))

accepted-validated :
    (parse : Text → Option Url) (c d : SequinsConfig)
    → accepted (validate_config parse c) ≡ some d
    → validate_config parse c ≡ ok d
accepted-validated parse c d = go (validate_config parse c)
  where
    go : (r : Result ConfigError SequinsConfig) → accepted r ≡ some d → r ≡ ok d
    go (ok x) h = ap ok (some-injective x d h)
    go (err e) h = absurd (ground (arith, h))

module _ (parse : Text → Option Url) (abs : Text → Option Text) where
  stored_at :
      (store : Text) (b c : SequinsConfig)
      → with_local_store parse abs store b ≡ some c
      → (store ≡ []) ⊎ (abs store ≡ some c.local_store)
  unfolding with_local_store
  stored_at store b c h = elim (Bool-cases (store == [])) [
    | inl unset ↦ inl ((text_eq_iff store []).0 unset)
    | inr set ↦
        let (path, found, makes) = >>=_some (abs store) _ (rw set at h) in
        inr (found ∙ ap (λ (x : SequinsConfig). some x.local_store) (some-injective _ c makes))
  ]

  -- The source of a flag: the absolute path if it has no scheme, and otherwise the flag itself.
  unfoldable pub SourcedFrom : Text → Text → Type 0
  SourcedFrom flag source =
      (parsed : Url) × (parse flag ≡ some parsed)
      × (((parsed.scheme ≡ []) × (abs parsed.path ≡ some source))
          ⊎ ((parsed.scheme ≢ []) × (source ≡ flag)))

  source_of-SourcedFrom :
      (flag source : Text)
      → source_of parse abs flag (parse flag) ≡ some source
      → SourcedFrom flag source
  unfolding SourcedFrom
  source_of-SourcedFrom flag source h = elim (Option-cases (parse flag)) [
    | inl bad ↦ absurd (ground (arith, rw bad at h))
    | inr (parsed, at_flag) ↦ (
      parsed,
      at_flag,
      elim (Bool-cases (parsed.scheme == [])) [
        | inl bare ↦ inl ((text_eq_iff parsed.scheme []).0 bare, rw (at_flag, bare) at h)
        | inr schemed ↦ inr (
          λ e. absurd (ground (arith, (text_eq_iff parsed.scheme []).1 e, schemed)),
          sym (some-injective flag source (rw (at_flag, schemed) at h)),
        )
      ],
    )
  ]

  sourced_at :
      (flag : Text) (b c : SequinsConfig)
      → with_source parse abs flag b ≡ some c
      → (flag ≡ []) ⊎ SourcedFrom flag c.source
  unfolding with_source
  sourced_at flag b c h = elim (Bool-cases (flag == [])) [
    | inl unset ↦ inl ((text_eq_iff flag []).0 unset)
    | inr set ↦
        let (root, found, makes) =
          >>=_some (source_of parse abs flag (parse flag)) _ (rw set at h) in
        inr (
          source_of-SourcedFrom flag c.source
            (found ∙ ap (λ (x : SequinsConfig). some x.source) (some-injective _ c makes)))
  ]

  named_source :
      (bind : Text) (b c : SequinsConfig)
      → (if b.source == [] then none else some (with_bind parse abs bind b)) ≡ some c
      → c.source ≡ b.source
  named_source bind b c h = elim (Bool-cases (b.source == [])) [
    | inl no_source ↦ absurd (ground (arith, rw no_source at h))
    | inr sourced ↦
        ap (λ (x : SequinsConfig). x.source)
          (sym (
            some-injective (with_bind parse abs bind b) c
              (sym (if_false (b.source == []) none sourced) ∙ h)))
  ]

  -- The configuration that main goes on with.
  pub record Started (flags : Flags) (c : SequinsConfig) : Type 0 where
    pub stored : (flags.local_store ≡ []) ⊎ (abs flags.local_store ≡ some c.local_store)
    pub sourced : (flags.source ≡ []) ⊎ SourcedFrom flags.source c.source
    pub bound : (flags.bind ≡ []) ⊎ (c.bind ≡ flags.bind)
    pub debug_bound : (flags.debug_bind ≡ []) ⊎ (c.debug_bind ≡ flags.debug_bind)
    pub validated : validate_config parse c ≡ ok c

  -- The flag of the store changes nothing else.
  kept :
      {A : Type 0} (field : SequinsConfig → A) (store : Text) (b c : SequinsConfig)
      → ((path : Text) → field (record b { local_store = path }) ≡ field b)
      → with_local_store parse abs store b ≡ some c
      → field c ≡ field b
  unfolding with_local_store
  kept field store b c same h = elim (Bool-cases (store == [])) [
    | inl unset ↦ ap field (sym (some-injective b c (rw unset at h)))
    | inr set ↦
        let (path, found, makes) = >>=_some (abs store) _ (rw set at h) in
        ap field (sym (some-injective _ c makes)) ∙ same path
  ]

  set_or_not : (flag old : Text) → (flag ≡ []) ⊎ ((if flag == [] then old else flag) ≡ flag)
  set_or_not flag old = elim (Bool-cases (flag == [])) [
    | inl unset ↦ inl ((text_eq_iff flag []).0 unset)
    | inr set ↦ inr (rw set refl)
  ]

  bound_at :
      (bind : Text) (b c : SequinsConfig)
      → (if b.source == [] then none else some (with_bind parse abs bind b)) ≡ some c
      → (bind ≡ []) ⊎ (c.bind ≡ bind)
  bound_at bind b c h = elim (Bool-cases (b.source == [])) [
    | inl no_source ↦ absurd (ground (arith, rw no_source at h))
    | inr sourced ↦
        subst (λ (x : SequinsConfig). (bind ≡ []) ⊎ (x.bind ≡ bind))
          (some-injective (with_bind parse abs bind b) c
            (sym (if_false (b.source == []) none sourced) ∙ h))
          (set_or_not bind b.bind)
  ]

  main_config-Started :
      (flags : Flags) (found : Loaded) (c : SequinsConfig)
      → main_config parse abs flags found ≡ some c
      → Started flags c
  unfolding main_config
  main_config-Started flags found c h =
      let (first, chosen, h₁) = >>=_some (chosen_config flags found) _ h in
      let (sourced, at_source, h₂) = >>=_some (with_source parse abs flags.source first) _ h₁ in
      let (named, has_source, h₃) =
        >>=_some
          (if sourced.source == [] then none else some (with_bind parse abs flags.bind sourced)) _
          h₂ in
      let (stored, at_store, h₄) =
        >>=_some (with_local_store parse abs flags.local_store named) _ h₃ in
      let valid : validate_config parse (with_debug_bind parse abs flags.debug_bind stored) ≡ ok c =
        accepted-validated parse (with_debug_bind parse abs flags.debug_bind stored) c h₄ in
      let same : with_debug_bind parse abs flags.debug_bind stored ≡ c =
        (validate_config-Accepted (with_debug_bind parse abs flags.debug_bind stored) c parse
          valid).same in
      subst (Started flags) same (record {
        stored = stored_at flags.local_store named stored at_store;
        bound = elim (bound_at flags.bind sourced named has_source) [
          | inl unset ↦ inl unset
          | inr set ↦
              inr (kept (λ c. c.bind) flags.local_store named stored (λ path. refl) at_store ∙ set)
        ];
        sourced = elim (sourced_at flags.source first sourced at_source) [
          | inl unset ↦ inl unset
          | inr from ↦ inr (
              subst (SourcedFrom flags.source)
                (sym (
                  kept (λ c. c.source) flags.local_store named stored (λ path. refl) at_store
                  ∙ named_source flags.bind sourced named has_source))
                from)
        ];
        debug_bound = set_or_not flags.debug_bind stored.debug_bind;
        validated = valid ∙ ap ok (sym same);
      })

  -- If main goes on to a backend: the configuration is one that validateConfig accepts; its local store is
  -- absolute, and is the absolute path of the flag's if the flag is set; the two addresses are those of
  -- the flags that are set; its source is, if that flag is set, the absolute path of the flag's if
  -- the flag has no scheme, and otherwise the flag's text. The backend is made of what the source is
  -- parsed to: the local one, of its path, which is absolute, if its scheme is empty or "file", and
  -- the one of S3 or of HDFS, of its host and its path, if its scheme says so.
  pub main_setup-Started :
      (flags : Flags) (found : Loaded) (c : SequinsConfig) (s : Setup)
      → main_setup parse abs flags found ≡ some (c, s)
      → Started flags c
        × (is_abs c.local_store ≡ true)
        × ((parsed : Url) × (parse c.source ≡ some parsed) × Backed parsed s)
  unfolding main_setup
  main_setup-Started flags found c s h =
      let (d, at_d, h₁) = >>=_some (main_config parse abs flags found) _ h in
      let (parsed, at_parsed, h₂) = >>=_some (parse d.source) _ h₁ in
      let (setup, at_setup, h₃) = >>=_some (choose_backend parsed) _ h₂ in
      let same : (d, setup) ≡ (c, s) = some-injective (d, setup) (c, s) h₃ in
      let started : Started flags d = main_config-Started flags found d at_d in
      let absolute : is_path parsed ≡ true → is_abs parsed.path ≡ true = λ local.
        source-is_abs d d parse started.validated parsed at_parsed (unfold is_path in local) in
      subst
        (λ (x : SequinsConfig × Setup).
          Started flags x.0
          × (is_abs x.0.local_store ≡ true)
          × ((url : Url) × (parse x.0.source ≡ some url) × Backed url x.1))
        same
        (
          started,
          store-is_abs d d parse started.validated,
          (parsed, at_parsed, choose_backend-Backed parsed setup absolute at_setup),
        )
