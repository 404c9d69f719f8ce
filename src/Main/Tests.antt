-- ===== src/Main/Tests.antt =====
-- A node without a configuration file, with a source, a store and an address in its flags.
use sequins.Prelude.{◌≡◌, refl, true, Text, Text_eq, codes, [], Option, some, text_eq, has_prefix}
use sequins.Config.{
  Url, SequinsConfig, validate_config, check_source, check_local, check_compression,
  check_replication, is_abs, clean, dir,
}
use sequins.Config.Loading.{no_config, default_config}
use sequins.Main.{Flags, local_setup, main_config, main_setup}
use sequins.Main.Starting.{Started, Backed, main_setup-Started}

abbrev flags : Flags
flags = record {
  bind = codes ":80";
  source = codes "/data";
  local_store = codes "/tmp/s/";
  debug_bind = [];
}

abbrev parse_path : Text → Option Url
parse_path source = some (record { scheme = []; host = []; path = source })

abbrev abs_same : Text → Option Text
abs_same path = some path

abbrev chosen : SequinsConfig
chosen = record default_config {
  bind = codes ":80";
  source = codes "/data";
  local_store = codes "/tmp/s/";
}

sets_up :
    main_setup parse_path abs_same flags no_config ≡ some (chosen, local_setup (codes "/data"))
unfolding main_setup main_config validate_config check_source check_local check_compression
    check_replication is_abs clean dir has_prefix text_eq
sets_up = refl

main_setup-Started_example :
    Started parse_path abs_same flags chosen
    × (is_abs chosen.local_store ≡ true)
    × ((parsed : Url) × (parse_path chosen.source ≡ some parsed)
        × Backed parsed (local_setup (codes "/data")))
main_setup-Started_example =
    main_setup-Started parse_path abs_same flags no_config chosen (local_setup (codes "/data"))
      sets_up
