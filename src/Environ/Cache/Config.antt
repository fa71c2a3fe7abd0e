-- ===== src/Environ/Cache/Config.antt =====
-- wasmtime-environ/src/cache/config.rs: `CacheConfig`, the units of its settings, and their
-- validation. Durations are in seconds. What the file system says about directories, the parsed
-- file and the default level of zstd are parameters.
pub mod Valid
pub mod Units
mod Examples
use Prim.Native.String.{String}
use wasmtime.Base.{
  ℕ, ◌*◌, ◌%◌, ◌^◌, Bool, true, false, ◌||◌, Option, none, some, List, [], ◌∷◌, ◌++◌, ltb,
  if◌then◌else◌, usize_mod, checked_mul_usize,
}

-- An `i32`: a number, or minus one less than a number.
pub data ℤ : Type 0 where
  pos negsuc : ℕ → ℤ

abbrev pub less : ℤ → ℤ → Bool
less (pos a) (pos b) = ltb a b
less (pos a) (negsuc b) = false
less (negsuc a) (pos b) = true
less (negsuc a) (negsuc b) = ltb b a

pub data ConfigError : Type 0 where
  no_default_path not_read not_parsed no_default_directory relative_directory : ConfigError
  directory_not_created directory_not_canonical : ConfigError
  baseline_level_out_of_range optimized_level_out_of_range : ConfigError
  optimized_level_below_baseline : ConfigError
  file_count_percent_out_of_range files_total_size_percent_out_of_range : ConfigError

pub record CacheConfig : Type 0 where
  pub errors : List ConfigError
  pub enabled : Bool
  pub directory : Option String
  pub worker_event_queue_size : Option ℕ
  pub baseline_compression_level : Option ℤ
  pub optimized_compression_level : Option ℤ
  pub optimized_compression_usage_counter_threshold : Option ℕ
  pub cleanup_interval : Option ℕ
  pub optimizing_compression_task_timeout : Option ℕ
  pub allowed_clock_drift_for_files_from_future : Option ℕ
  pub file_count_soft_limit : Option ℕ
  pub files_total_size_soft_limit : Option ℕ
  pub file_count_limit_percent_if_deleting : Option ℕ
  pub files_total_size_limit_percent_if_deleting : Option ℕ

abbrev pub new_cache_disabled : CacheConfig
new_cache_disabled = record {
  errors = [];
  enabled = false;
  directory = none;
  worker_event_queue_size = none;
  baseline_compression_level = none;
  optimized_compression_level = none;
  optimized_compression_usage_counter_threshold = none;
  cleanup_interval = none;
  optimizing_compression_task_timeout = none;
  allowed_clock_drift_for_files_from_future = none;
  file_count_soft_limit = none;
  files_total_size_soft_limit = none;
  file_count_limit_percent_if_deleting = none;
  files_total_size_limit_percent_if_deleting = none;
}

abbrev pub new_cache_enabled_template : CacheConfig
new_cache_enabled_template = record new_cache_disabled { enabled = true }

abbrev pub new_cache_with_errors : List ConfigError → CacheConfig
new_cache_with_errors errors = record new_cache_disabled { errors = errors }

-- What stands behind the digits of a setting, trimmed; the split of the text is not modelled.
pub data SettingUnit : Type 0 where
  plain second minute hour day kilo kibi mega mebi giga gibi tera tebi peta pebi : SettingUnit
  percent other : SettingUnit

-- `deserialize_duration`: the products are not checked.
unfoldable pub deserialize_duration : ℕ → SettingUnit → Option ℕ
deserialize_duration num second = some num
deserialize_duration num minute = some ((num * 60) % usize_mod)
deserialize_duration num hour = some ((((num * 60) % usize_mod) * 60) % usize_mod)
deserialize_duration num day =
    some ((((((num * 60) % usize_mod) * 60) % usize_mod) * 24) % usize_mod)
deserialize_duration num _ = none

unfoldable pub deserialize_si_prefix : ℕ → SettingUnit → Option ℕ
deserialize_si_prefix num plain = some num
deserialize_si_prefix num kilo = checked_mul_usize num 1_000
deserialize_si_prefix num mega = checked_mul_usize num 1_000_000
deserialize_si_prefix num giga = checked_mul_usize num 1_000_000_000
deserialize_si_prefix num tera = checked_mul_usize num 1_000_000_000_000
deserialize_si_prefix num peta = checked_mul_usize num 1_000_000_000_000_000
deserialize_si_prefix num _ = none

unfoldable pub deserialize_disk_space : ℕ → SettingUnit → Option ℕ
deserialize_disk_space num plain = some num
deserialize_disk_space num kilo = checked_mul_usize num 1_000
deserialize_disk_space num kibi = checked_mul_usize num (2 ^ 10)
deserialize_disk_space num mega = checked_mul_usize num 1_000_000
deserialize_disk_space num mebi = checked_mul_usize num (2 ^ 20)
deserialize_disk_space num giga = checked_mul_usize num 1_000_000_000
deserialize_disk_space num gibi = checked_mul_usize num (2 ^ 30)
deserialize_disk_space num tera = checked_mul_usize num 1_000_000_000_000
deserialize_disk_space num tebi = checked_mul_usize num (2 ^ 40)
deserialize_disk_space num peta = checked_mul_usize num 1_000_000_000_000_000
deserialize_disk_space num pebi = checked_mul_usize num (2 ^ 50)
deserialize_disk_space num _ = none

unfoldable pub deserialize_percent : ℕ → SettingUnit → Option ℕ
deserialize_percent num percent = some num
deserialize_percent num _ = none

-- What the file system and the libraries say.
pub record Environment : Type 0 where
  pub cache_dir : Option String
  pub is_absolute : String → Bool
  pub create_dir_all : String → Bool
  pub canonicalize : String → Option String
  pub zstd_default_compression_level : ℤ

abbrev pub push_error : ConfigError → CacheConfig → CacheConfig
push_error e c = record c { errors = c.errors ++ (e ∷ []) }

-- The setting, or its default.
abbrev pub or_default {ℓ} : {A : Type ℓ} → Option A → A → A
or_default none a = a
or_default (some x) a = x

abbrev pub canonical : Option String → CacheConfig → CacheConfig
canonical none c = push_error directory_not_canonical c
canonical (some p) c = record c { directory = some p }

abbrev pub check_directory : Environment → String → CacheConfig → CacheConfig
check_directory env cache_dir c =
    if env.is_absolute cache_dir
    then if env.create_dir_all cache_dir
      then canonical (env.canonicalize cache_dir) c
      else push_error directory_not_created c
    else push_error relative_directory c

abbrev pub directory_of : Environment → Option String → Option String
directory_of env none = env.cache_dir
directory_of env (some d) = some d

unfoldable pub validate_directory_or_default : Environment → CacheConfig → CacheConfig
validate_directory_or_default env c = elim (directory_of env c.directory) [
  | none ↦ push_error no_default_directory c
  | some d ↦ check_directory env d (record c { directory = some d })
]

-- The warning about a small size is only logged.
unfoldable pub validate_worker_event_queue_size_or_default : CacheConfig → CacheConfig
validate_worker_event_queue_size_or_default c = record c {
  worker_event_queue_size = some (or_default c.worker_event_queue_size 0x10);
}

-- `ZSTD_COMPRESSION_LEVELS` is 0..=21.
abbrev pub is_level : ℤ → Bool
is_level (pos n) = ltb n 22
is_level (negsuc n) = false

abbrev pub error_if : Bool → ConfigError → CacheConfig → CacheConfig
error_if bad e c = if bad then push_error e c else c

abbrev pub not : Bool → Bool
not true = false
not false = true

unfoldable pub validate_baseline_compression_level_or_default :
    Environment → CacheConfig → CacheConfig
validate_baseline_compression_level_or_default env c =
    let level = or_default c.baseline_compression_level env.zstd_default_compression_level in
    error_if (not (is_level level)) baseline_level_out_of_range
      (record c { baseline_compression_level = some level })

abbrev pub optimized_level : CacheConfig → ℤ
optimized_level c = or_default c.optimized_compression_level (pos 20)

-- The checks of the optimized level, with the baseline level; `none` is the panic where it is not
-- there.
abbrev pub check_levels : Option ℤ → CacheConfig → Option CacheConfig
check_levels none c = none
check_levels (some base_lvl) c = some (
    error_if (less (optimized_level c) base_lvl) optimized_level_below_baseline (
      error_if (not (is_level (optimized_level c))) optimized_level_out_of_range
        (record c { optimized_compression_level = some (optimized_level c) })))

unfoldable pub validate_optimized_compression_level_or_default : CacheConfig → Option CacheConfig
validate_optimized_compression_level_or_default c = check_levels c.baseline_compression_level c

unfoldable pub validate_optimized_compression_usage_counter_threshold_or_default :
    CacheConfig → CacheConfig
validate_optimized_compression_usage_counter_threshold_or_default c = record c {
  optimized_compression_usage_counter_threshold =
      some (or_default c.optimized_compression_usage_counter_threshold 0x100);
}

unfoldable pub validate_cleanup_interval_or_default : CacheConfig → CacheConfig
validate_cleanup_interval_or_default c = record c {
  cleanup_interval = some (or_default c.cleanup_interval 3600);
}

unfoldable pub validate_optimizing_compression_task_timeout_or_default : CacheConfig → CacheConfig
validate_optimizing_compression_task_timeout_or_default c = record c {
  optimizing_compression_task_timeout =
      some (or_default c.optimizing_compression_task_timeout 1800);
}

unfoldable pub validate_allowed_clock_drift_for_files_from_future_or_default :
    CacheConfig → CacheConfig
validate_allowed_clock_drift_for_files_from_future_or_default c = record c {
  allowed_clock_drift_for_files_from_future =
      some (or_default c.allowed_clock_drift_for_files_from_future 86400);
}

unfoldable pub validate_file_count_soft_limit_or_default : CacheConfig → CacheConfig
validate_file_count_soft_limit_or_default c = record c {
  file_count_soft_limit = some (or_default c.file_count_soft_limit 0x1_0000);
}

unfoldable pub validate_files_total_size_soft_limit_or_default : CacheConfig → CacheConfig
validate_files_total_size_soft_limit_or_default c = record c {
  files_total_size_soft_limit = some (or_default c.files_total_size_soft_limit 536870912);
}

unfoldable pub validate_file_count_limit_percent_if_deleting_or_default : CacheConfig → CacheConfig
validate_file_count_limit_percent_if_deleting_or_default c =
    let percent = or_default c.file_count_limit_percent_if_deleting 70 in
    error_if (ltb 100 percent) file_count_percent_out_of_range
      (record c { file_count_limit_percent_if_deleting = some percent })

unfoldable pub validate_files_total_size_limit_percent_if_deleting_or_default :
    CacheConfig → CacheConfig
validate_files_total_size_limit_percent_if_deleting_or_default c =
    let percent = or_default c.files_total_size_limit_percent_if_deleting 70 in
    error_if (ltb 100 percent) files_total_size_percent_out_of_range
      (record c { files_total_size_limit_percent_if_deleting = some percent })

abbrev pub disable_for : List ConfigError → CacheConfig → CacheConfig
disable_for [] c = c
disable_for (e ∷ es) c = new_cache_with_errors (e ∷ es)

unfoldable pub disable_if_any_error : CacheConfig → CacheConfig
disable_if_any_error c = disable_for c.errors c

-- The validations up to the optimized compression level, and those behind it.
abbrev pub validate_before : Environment → CacheConfig → CacheConfig
validate_before env c =
    validate_baseline_compression_level_or_default env
      (validate_worker_event_queue_size_or_default (validate_directory_or_default env c))

abbrev pub validate_after : CacheConfig → CacheConfig
validate_after c = validate_files_total_size_limit_percent_if_deleting_or_default (
    validate_file_count_limit_percent_if_deleting_or_default (
      validate_files_total_size_soft_limit_or_default (
        validate_file_count_soft_limit_or_default (
          validate_allowed_clock_drift_for_files_from_future_or_default (
            validate_optimizing_compression_task_timeout_or_default (
              validate_cleanup_interval_or_default
                (validate_optimized_compression_usage_counter_threshold_or_default c)))))))

unfoldable pub validate : Environment → CacheConfig → Option CacheConfig
validate env c = elim (validate_optimized_compression_level_or_default (validate_before env c)) [
  | none ↦ none
  | some c' ↦ some (disable_if_any_error (validate_after c'))
]

-- What `load_and_parse_file` finds: no file at the default path, a parsed file, or an error.
pub data Loaded : Type 0 where
  no_file : Loaded
  parsed : CacheConfig → Loaded
  failed : ConfigError → Loaded

unfoldable pub from_file : Environment → Bool → Loaded → Option CacheConfig
from_file env false loaded = some new_cache_disabled
from_file env true no_file = validate env new_cache_enabled_template
from_file env true (parsed c) = validate env c
from_file env true (failed e) = some (new_cache_with_errors (e ∷ []))
