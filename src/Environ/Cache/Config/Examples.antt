-- ===== src/Environ/Cache/Config/Examples.antt =====
-- wasmtime-environ/src/cache/config.rs: a configuration with small limits.
use wasmtime.Base.{arith, ◌≡◌, some, true}
use wasmtime.Environ.Cache.Config.{
  CacheConfig, Environment, parsed, from_file, pos, minute, deserialize_duration,
  new_cache_enabled_template,
}
use wasmtime.Environ.Cache.Config.Units.{deserialize_duration_wraps}
use wasmtime.Environ.Cache.Config.Valid.{IsSound, from_file-IsSound}

abbrev env : Environment
env = record {
  cache_dir = some "/cache";
  is_absolute = λ d. true;
  create_dir_all = λ d. true;
  canonicalize = λ d. some d;
  zstd_default_compression_level = pos 3;
}

abbrev small : CacheConfig
small = record new_cache_enabled_template {
  file_count_soft_limit = some 3;
  files_total_size_soft_limit = some 100;
}

from_file-IsSound_example :
    (c : CacheConfig) × (from_file env true (parsed small) ≡ some c) × IsSound c
from_file-IsSound_example = from_file-IsSound env true (parsed small)

-- A number of minutes that wraps to 44 seconds.
deserialize_duration_wraps_example : deserialize_duration 307445734561825861 minute ≡ some 44
deserialize_duration_wraps_example =
    deserialize_duration_wraps 307445734561825861 minute (omega arith)
