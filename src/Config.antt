-- ===== src/Config.antt =====
-- config.go: what a configuration must satisfy. `parse` is url.Parse. The structs of a
-- configuration are flattened; a
-- time.Duration is a signed number of nanoseconds.
pub mod Timeouts
pub mod Stores
pub mod Loading
pub mod Absolute
pub mod Tests
use sequins.Prelude.{
  ℤ, pos, negsuc, negated, ℕ, zero, suc, ◌/◌, Bool, true, false, not, ◌&&◌, ◌||◌, Text, Text_eq,
  text_eq, codes, List, [], ◌∷◌, ◌++◌, Option, none, some, Result, ok, err, if◌then◌else◌, ◌==◌,
  has_prefix, nat_eq, native_keys,
}
use sequins.Blocks.Block.{snappy_compression, no_compression}

pub record Url : Type 0 where
  pub scheme : Text
  pub host : Text
  pub path : Text

pub record S3Config : Type 0 where
  pub region : Text
  pub access_key_id : Text
  pub secret_access_key : Text

pub record SequinsConfig : Type 0 where
  pub source : Text
  pub bind : Text
  pub max_parallel_loads : ℤ
  pub throttle_loads : ℤ
  pub local_store : Text
  pub refresh_period : ℤ
  pub require_success_file : Bool
  pub content_type : Text
  pub compression : Text
  pub block_size : ℤ
  pub s3 : S3Config
  pub sharding_enabled : Bool
  pub replication : ℤ
  pub time_to_converge : ℤ
  pub proxy_timeout : ℤ
  pub proxy_stage_timeout : ℤ
  pub cluster_name : Text
  pub advertised_hostname : Text
  pub shard_id : Text
  pub zk_servers : List Text
  pub connect_timeout : ℤ
  pub session_timeout : ℤ
  pub debug_bind : Text
  pub expvars : Bool
  pub pprof : Bool
  pub upgrade_delay : ℤ
  pub allow_local_cluster : Bool
  pub version_remove_timeout : ℤ
  pub test_s3 : S3Config

pub data ConfigError : Type 0 where
  store_not_absolute no_source bad_source source_has_host source_not_absolute store_within_source
        local_cluster bad_compression bad_replication :
      ConfigError

-- filepath.IsAbs
unfoldable pub is_abs : Text → Bool
is_abs path = has_prefix path (codes "/")

-- What stands between the slashes.
pub segments : Text → List Text
segments [] = [] ∷ []
segments (c ∷ s) = elim (segments s) [
  | [] ↦ (c ∷ []) ∷ []
  | first ∷ others ↦ if nat_eq c b'/' then [] ∷ first ∷ others else (c ∷ first) ∷ others
]

-- The segments of an absolute path that filepath.Clean keeps, the last one first.
pub cleaned : List Text → List Text → List Text
cleaned kept [] = kept
cleaned kept (s ∷ rest) =
    if text_eq s [] || text_eq s (codes ".")
    then cleaned kept rest
    else if text_eq s (codes "..")
    then cleaned (without_last kept) rest
    else cleaned (s ∷ kept) rest
  where
    without_last : List Text → List Text
    without_last [] = []
    without_last (x ∷ xs) = xs

pub join_segments : List Text → Text → Text
join_segments [] path = path
join_segments (s ∷ kept) path = join_segments kept (b'/' ∷ s ++ path)

pub rooted : List Text → Text
unfolding join_segments
rooted [] = codes "/"
rooted (s ∷ kept) = join_segments (s ∷ kept) []

-- filepath.Clean and filepath.Dir, of absolute paths.
unfoldable pub clean : Text → Text
unfolding segments cleaned rooted
clean path = rooted (cleaned [] (segments path))

pub all_but_last : List Text → List Text
all_but_last [] = []
all_but_last (s ∷ []) = []
all_but_last (s ∷ t ∷ rest) = s ∷ all_but_last (t ∷ rest)

unfoldable pub dir : Text → Text
unfolding segments cleaned rooted all_but_last
dir path = rooted (cleaned [] (all_but_last (segments path)))

unfoldable pub check_replication : SequinsConfig → Result ConfigError SequinsConfig
check_replication c = elim c.replication [
  | pos zero ↦ err bad_replication
  | pos (suc n) ↦ ok c
  | negsuc n ↦ err bad_replication
]

unfoldable pub check_compression : SequinsConfig → Result ConfigError SequinsConfig
unfolding check_replication
check_compression c =
    if c.compression == snappy_compression || c.compression == no_compression
    then check_replication c
    else err bad_compression

-- A source that is a path.
unfoldable pub check_local : SequinsConfig → Url → Result ConfigError SequinsConfig
unfolding is_abs clean dir check_compression
check_local c parsed =
    if not (parsed.host == [])
    then err source_has_host
    else if not (is_abs parsed.path)
    then err source_not_absolute
    else if has_prefix (dir c.local_store) (clean parsed.path)
    then err store_within_source
    else if c.sharding_enabled && not c.allow_local_cluster
    then err local_cluster
    else check_compression c

unfoldable pub check_source : SequinsConfig → Option Url → Result ConfigError SequinsConfig
unfolding check_local check_compression
check_source c none = err bad_source
check_source c (some parsed) =
    if text_eq parsed.scheme [] || text_eq parsed.scheme (codes "file")
    then check_local c parsed
    else check_compression c

unfoldable pub validate_config :
    (Text → Option Url) → SequinsConfig → Result ConfigError SequinsConfig
unfolding is_abs check_source
validate_config parse c =
    if not (is_abs c.local_store)
    then err store_not_absolute
    else if c.source == []
    then err no_source
    else check_source c (parse c.source)

-- A quotient of Go's ints, truncated towards zero: a division by zero panics.
pub div : ℤ → ℤ → Option ℤ
div a (pos zero) = none
div (pos n) (pos (suc m)) = some (pos (n / suc m))
div (pos n) (negsuc m) = some (negated (n / suc m))
div (negsuc n) (pos (suc m)) = some (negated (suc n / suc m))
div (negsuc n) (negsuc m) = some (pos (suc n / suc m))

-- initCluster's timeout of a stage; it is calculated if it is not set.
pub stage_timeout : SequinsConfig → Option ℤ
unfolding div
stage_timeout c = elim c.proxy_stage_timeout [
  | pos zero ↦ div c.proxy_timeout c.replication
  | pos (suc n) ↦ some (pos (suc n))
  | negsuc n ↦ some (negsuc n)
]
