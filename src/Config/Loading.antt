-- ===== src/Config/Loading.antt =====
-- loadConfig and defaultConfig of config.go. `decode` is toml.DecodeFile.
use sequins.Prelude.{
  pos, true, Bool, false, Text, Text_eq, codes, List, [], ◌∷◌, if◌then◌else◌, ◌==◌, native_keys,
  nat_eq,
}
use sequins.Blocks.Block.{snappy_compression}
use sequins.Config.{S3Config, SequinsConfig}

abbrev default_search_path : Text
default_search_path = codes "sequins.conf:/etc/sequins.conf"

abbrev no_s3 : S3Config
no_s3 = record { region = []; access_key_id = []; secret_access_key = [] }

abbrev pub default_config : SequinsConfig
default_config = record {
  source = [];
  bind = codes "0.0.0.0:9599";
  max_parallel_loads = pos 0;
  throttle_loads = pos 0;
  local_store = codes "/var/sequins/";
  refresh_period = pos 0;
  require_success_file = false;
  content_type = [];
  compression = snappy_compression;
  block_size = pos 4096;
  s3 = no_s3;
  sharding_enabled = false;
  replication = pos 2;
  time_to_converge = pos 10000000000;
  proxy_timeout = pos 100000000;
  proxy_stage_timeout = pos 0;
  cluster_name = codes "sequins";
  advertised_hostname = [];
  shard_id = [];
  zk_servers = codes "localhost:2181" ∷ [];
  connect_timeout = pos 1000000000;
  session_timeout = pos 10000000000;
  debug_bind = [];
  expvars = true;
  pprof = false;
  upgrade_delay = pos 0;
  allow_local_cluster = false;
  version_remove_timeout = pos 0;
  test_s3 = no_s3;
}

-- How the decoding of a file ends; `unknown` tells whether it has properties that are none.
data Decoded : Type 0 where
  no_file not_decoded : Decoded
  decoded : (unknown : Bool) → SequinsConfig → Decoded

pub data Loaded : Type 0 where
  loaded : SequinsConfig → Loaded
  no_config bad_config : Loaded

-- filepath.SplitList
split_list : Text → List Text
split_list [] = [] ∷ []
split_list (c ∷ s) = elim (split_list s) [
  | [] ↦ (c ∷ []) ∷ []
  | first ∷ others ↦ if nat_eq c b':' then [] ∷ first ∷ others else (c ∷ first) ∷ others
]

load_first : (Text → SequinsConfig → Decoded) → List Text → Loaded
load_first decode [] = no_config
load_first decode (path ∷ paths) = elim (decode path default_config) [
  | no_file ↦ load_first decode paths
  | not_decoded ↦ bad_config
  | decoded unknown config ↦ if unknown then bad_config else loaded config
]

load_config : (Text → SequinsConfig → Decoded) → Text → Loaded
unfolding load_first split_list
load_config decode search_path =
    load_first decode (split_list (if search_path == [] then default_search_path else search_path))
