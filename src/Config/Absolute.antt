-- ===== src/Config/Absolute.antt =====
-- The paths of a configuration that is accepted.
use sequins.Prelude.{
  ◌≡◌, inl, inr, ◌||◌, true, Text, Text_eq, text_eq, codes, [], Option, some, ok, arith, Bool-cases,
}
use sequins.Config.{Url, SequinsConfig, validate_config, check_source, check_local, is_abs}

module _ (c d : SequinsConfig) where
  check_local-is_abs : (parsed : Url) → check_local c parsed ≡ ok d → is_abs parsed.path ≡ true
  unfolding check_local
  check_local-is_abs parsed h = elim (Bool-cases (is_abs parsed.path)) [
    | inl absolute ↦ absolute
    | inr relative ↦ absurd (ground (arith, relative, h))
  ]

  check_source-is_abs :
      (parsed : Url)
      → (text_eq parsed.scheme [] || text_eq parsed.scheme (codes "file")) ≡ true
      → check_source c (some parsed) ≡ ok d
      → is_abs parsed.path ≡ true
  unfolding check_source
  check_source-is_abs parsed local h = check_local-is_abs parsed (ground (arith, local, h))

  module _ (parse : Text → Option Url) (h : validate_config parse c ≡ ok d) where
    pub store-is_abs : is_abs c.local_store ≡ true
    unfolding validate_config
    store-is_abs = elim (Bool-cases (is_abs c.local_store)) [
      | inl absolute ↦ absolute
      | inr relative ↦ absurd (ground (arith, relative, h))
    ]

    validated : check_source c (parse c.source) ≡ ok d
    unfolding validate_config
    validated = ground (arith, h)

    pub source-is_abs :
        (parsed : Url)
        → parse c.source ≡ some parsed
        → (text_eq parsed.scheme [] || text_eq parsed.scheme (codes "file")) ≡ true
        → is_abs parsed.path ≡ true
    source-is_abs parsed at_source local =
        check_source-is_abs parsed local (rw at_source at validated)
