-- ===== src/Config/Tests.antt =====
-- The theorem about configurations, at the defaults.
use sequins.Prelude.{
  ℤ, pos, negsuc, ◌≡◌, refl, true, none, Text, text_eq, codes, Option, some, ok, ℕ, suc, has_prefix,
}
use sequins.Config.{
  div, Url, SequinsConfig, validate_config, check_source, check_compression, check_replication,
  stage_timeout, is_abs,
}
use sequins.Config.Loading.{default_config}
use sequins.Config.Timeouts.{SharesOut, validate_config-stage_timeout}

-- The defaults of a node of a cluster, with a source on HDFS.
abbrev defaults : SequinsConfig
defaults = record default_config { source = codes "hdfs://n/d"; sharding_enabled = true }

abbrev parse_hdfs : Text → Option Url
parse_hdfs source = some (record { scheme = codes "hdfs"; host = codes "n"; path = codes "/d" })

defaults_accepted : validate_config parse_hdfs defaults ≡ ok defaults
unfolding validate_config check_source check_compression check_replication is_abs has_prefix text_eq
defaults_accepted = refl

validate_config-stage_timeout_example :
    (r : ℕ) × (stage : ℤ) × (defaults.replication ≡ pos (suc r))
    × (stage_timeout defaults ≡ some stage)
    × SharesOut (suc r) defaults.proxy_timeout stage
validate_config-stage_timeout_example =
    validate_config-stage_timeout parse_hdfs defaults defaults defaults_accepted refl

-- -1ns divided among two replicas is no time at all, and among no replicas a panic.
negative_timeout : div (negsuc 0) (pos 2) ≡ some (pos 0)
unfolding div
negative_timeout = refl

no_replicas : div (pos 100) (pos 0) ≡ none
unfolding div
no_replicas = refl
