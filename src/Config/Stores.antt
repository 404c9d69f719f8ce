-- ===== src/Config/Stores.antt =====
-- A local store at the source itself.
use sequins.Prelude.{
  pos, ◌≡◌, refl, ◌∙◌, Bool, true, false, ◌||◌, Text, Text_eq, text_eq, codes, [], ◌∷◌, ◌++◌,
  Option, some, ok, err, ◌==◌, arith, ℕ, suc, has_prefix,
}
use sequins.Server.Routing.{no_slash}
use sequins.Config.{
  Url, SequinsConfig, validate_config, check_source, check_local, check_compression,
  check_replication, store_within_source, segments, cleaned, clean, dir, all_but_last, rooted,
  join_segments, is_abs,
}
use sequins.Blocks.Block.{snappy_compression}

segments-no_slash : (name : Text) → no_slash name ≡ true → segments name ≡ name ∷ []
unfolding segments no_slash
segments-no_slash [] h = refl
segments-no_slash (c ∷ name) h = rw (segments-no_slash name (ground (arith, h))) (ground (arith, h))

segments-slash :
    (name : Text) → no_slash name ≡ true → segments (name ++ b'/' ∷ []) ≡ name ∷ [] ∷ []
unfolding segments no_slash
segments-slash [] h = refl
segments-slash (c ∷ name) h = rw (segments-slash name (ground (arith, h))) (ground (arith, h))

has_prefix_refl : (s : Text) → has_prefix s s ≡ true
unfolding has_prefix
has_prefix_refl [] = refl
has_prefix_refl (c ∷ s) = ground (arith, has_prefix_refl s)

-- Not "." or "..".
is_dots : Text → Bool
is_dots name = text_eq name (codes ".") || text_eq name (codes "..")

abbrev with_store : Text → SequinsConfig → SequinsConfig
with_store path conf = record conf { local_store = path }

check_compression-accepts :
    (conf : SequinsConfig) (r : ℕ)
    → conf.compression ≡ snappy_compression
    → conf.replication ≡ pos (suc r)
    → check_compression conf ≡ ok conf
unfolding check_compression check_replication text_eq
check_compression-accepts conf r snappy replicates =
    let known : check_compression conf ≡ check_replication conf =
      rw (snappy, check_compression) refl in
    let kept : check_replication conf ≡ ok conf = ground (arith, replicates) in known ∙ kept

validate_config-parsed :
    (parse : Text → Option Url) (s : Text) (conf : SequinsConfig) (path : Text)
    → (conf.source == []) ≡ false
    → parse conf.source ≡ some (record { scheme = []; host = []; path = path })
    → validate_config parse (with_store (b'/' ∷ s) conf)
      ≡ check_local (with_store (b'/' ∷ s) conf) (record { scheme = []; host = []; path = path })
unfolding validate_config check_source is_abs has_prefix text_eq
validate_config-parsed parse s conf path sourced parsed = rw (sourced, parsed) refl

module _ (conf : SequinsConfig) (rest : Text) where
  abbrev at_root : Url
  at_root = record { scheme = []; host = []; path = b'/' ∷ rest }

  check_local-outside :
      has_prefix (dir conf.local_store) (clean (b'/' ∷ rest)) ≡ false
      → conf.sharding_enabled ≡ false
      → check_local conf at_root ≡ check_compression conf
  unfolding check_local is_abs has_prefix text_eq
  check_local-outside away alone = ground (arith, away, alone)

  check_local-inside :
      has_prefix (dir conf.local_store) (clean (b'/' ∷ rest)) ≡ true
      → check_local conf at_root ≡ err store_within_source
  unfolding check_local is_abs has_prefix text_eq
  check_local-inside within = ground (arith, within)

module _ (c : ℕ) (name : Text) (plain : no_slash (c ∷ name) ≡ true)
    (named : is_dots (c ∷ name) ≡ false) where
  cleaned-name : cleaned [] ([] ∷ (c ∷ name) ∷ []) ≡ (c ∷ name) ∷ []
  unfolding cleaned is_dots text_eq
  cleaned-name = ground (arith, named)

  clean-name : clean (b'/' ∷ c ∷ name) ≡ b'/' ∷ (c ∷ name) ++ []
  unfolding clean rooted join_segments segments
  clean-name = rw (segments-no_slash (c ∷ name) plain) (rw cleaned-name refl)

  dir-name : dir (b'/' ∷ c ∷ name) ≡ codes "/"
  unfolding dir rooted segments all_but_last cleaned text_eq
  dir-name = rw (segments-no_slash (c ∷ name) plain) refl

  dir-slash : dir (b'/' ∷ (c ∷ name) ++ b'/' ∷ []) ≡ b'/' ∷ (c ∷ name) ++ []
  unfolding dir rooted join_segments segments all_but_last
  dir-slash = rw (segments-slash (c ∷ name) plain) (rw cleaned-name refl)

  outside : has_prefix (dir (b'/' ∷ c ∷ name)) (clean (b'/' ∷ c ∷ name)) ≡ false
  unfolding has_prefix
  outside = rw (dir-name, clean-name) refl

  inside : has_prefix (dir (b'/' ∷ (c ∷ name) ++ b'/' ∷ [])) (clean (b'/' ∷ c ∷ name)) ≡ true
  inside = rw (dir-slash, clean-name) (has_prefix_refl (b'/' ∷ (c ∷ name) ++ []))

  -- A local store that is the source itself, a directory of the root, is accepted; it is refused
  -- if its path is written with a slash at the end. The rest of the configuration is acceptable.
  validate_config-store_at_source :
      (parse : Text → Option Url) (conf : SequinsConfig) (r : ℕ)
      → (conf.source == []) ≡ false
      → parse conf.source ≡ some (record { scheme = []; host = []; path = b'/' ∷ c ∷ name })
      → conf.sharding_enabled ≡ false
      → conf.compression ≡ snappy_compression
      → conf.replication ≡ pos (suc r)
      → (validate_config parse (with_store (b'/' ∷ c ∷ name) conf)
          ≡ ok (with_store (b'/' ∷ c ∷ name) conf))
        × (validate_config parse (with_store (b'/' ∷ (c ∷ name) ++ b'/' ∷ []) conf)
            ≡ err store_within_source)
  validate_config-store_at_source parse conf r sourced parsed alone snappy replicates = (
    validate_config-parsed parse (c ∷ name) conf _ sourced parsed
        ∙ check_local-outside (with_store (b'/' ∷ c ∷ name) conf) (c ∷ name) outside alone
        ∙ check_compression-accepts (with_store (b'/' ∷ c ∷ name) conf) r snappy replicates,
    validate_config-parsed parse ((c ∷ name) ++ b'/' ∷ []) conf _ sourced parsed
        ∙ check_local-inside (with_store (b'/' ∷ (c ∷ name) ++ b'/' ∷ []) conf) (c ∷ name) inside,
  )
