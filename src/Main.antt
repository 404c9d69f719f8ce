-- ===== src/Main.antt =====
-- main.go: from the flags and the configuration to the backend. `parse` is url.Parse, `abs` is
-- filepath.Abs, and `none` is log.Fatal. The clients of AWS and of HDFS are left out.
pub mod Starting
pub mod Tests
use sequins.Prelude.{
  Bool, true, false, Text, Text_eq, text_eq, codes, [], Option, none, some, ◌>>=◌, Result, ok, err,
  if◌then◌else◌, ◌==◌,
}
use sequins.Config.{Url, SequinsConfig, ConfigError, validate_config}
use sequins.Config.Loading.{Loaded, loaded, no_config, bad_config, default_config}

pub record Flags : Type 0 where
  pub bind : Text
  pub source : Text
  pub local_store : Text
  pub debug_bind : Text

pub data Setup : Type 0 where
  local_setup : Text → Setup
  s3_setup hdfs_setup : Text → Text → Setup

pub chosen_config : Flags → Loaded → Option SequinsConfig
chosen_config flags (loaded config) = some config
chosen_config flags bad_config = none
chosen_config flags no_config = if flags.source == [] then none else some default_config

abbrev accepted : Result ConfigError SequinsConfig → Option SequinsConfig
accepted (ok config) = some config
accepted (err e) = none

pub choose_backend : Url → Option Setup
choose_backend parsed =
    if text_eq parsed.scheme []
    then some (local_setup parsed.path)
    else if text_eq parsed.scheme (codes "file")
    then some (local_setup parsed.path)
    else if text_eq parsed.scheme (codes "s3")
    then some (s3_setup parsed.host parsed.path)
    else if text_eq parsed.scheme (codes "hdfs")
    then some (hdfs_setup parsed.host parsed.path)
    else none

module _ (parse : Text → Option Url) (abs : Text → Option Text) where
  abbrev pub source_of : Text → Option Url → Option Text
  source_of source none = none
  source_of source (some parsed) = if parsed.scheme == [] then abs parsed.path else some source

  pub with_source : Text → SequinsConfig → Option SequinsConfig
  with_source source config =
      if source == []
      then some config
      else (source_of source (parse source) >>= λ root. some (record config { source = root }))

  pub with_local_store : Text → SequinsConfig → Option SequinsConfig
  with_local_store local_store config =
      if local_store == []
      then some config
      else (abs local_store >>= λ path. some (record config { local_store = path }))

  abbrev with_bind : Text → SequinsConfig → SequinsConfig
  with_bind bind config = record config { bind = if bind == [] then config.bind else bind }

  abbrev with_debug_bind : Text → SequinsConfig → SequinsConfig
  with_debug_bind bind config = record config {
    debug_bind = if bind == [] then config.debug_bind else bind;
  }

  -- What main does with a configuration up to validateConfig.
  pub main_config : Flags → Loaded → Option SequinsConfig
  unfolding chosen_config with_source with_local_store
  main_config flags found = do
    config ← chosen_config flags found
    sourced ← with_source flags.source config
    named ← (if sourced.source == [] then none else some (with_bind flags.bind sourced))
    stored ← with_local_store flags.local_store named
    accepted (validate_config parse (with_debug_bind flags.debug_bind stored))

  pub main_setup : Flags → Loaded → Option (SequinsConfig × Setup)
  unfolding main_config choose_backend
  main_setup flags found = do
    config ← main_config flags found
    parsed ← parse config.source
    setup ← choose_backend parsed
    some (config, setup)
