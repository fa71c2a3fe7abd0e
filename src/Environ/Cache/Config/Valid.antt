-- ===== src/Environ/Cache/Config/Valid.antt =====
-- wasmtime-environ/src/cache/config.rs: an enabled configuration has all its settings, in range.
use Prim.Native.String.{String}
use wasmtime.Base.{
  Option-cases, ℕ, ◌≡◌, ◌≤◌, ◌⊎◌, inl, inr, refl, sym, ap, ◌∙◌, subst, Bool, true, false, Option,
  none, some, List, [], ◌∷◌, ◌++◌, ltb, arith, if◌then◌else◌,
}
use wasmtime.Environ.Cache.Config.{
  optimized_level, check_levels, disable_for, directory_not_created, optimized_level_out_of_range,
  optimized_level_below_baseline, directory_not_canonical, no_default_directory, relative_directory,
  ℤ, less, ConfigError, CacheConfig, new_cache_enabled_template, new_cache_with_errors, Environment,
  push_error, or_default, canonical, check_directory, not, directory_of,
  validate_directory_or_default, validate_worker_event_queue_size_or_default, is_level, error_if,
  validate_baseline_compression_level_or_default, validate_optimized_compression_level_or_default,
  validate_optimized_compression_usage_counter_threshold_or_default,
  validate_cleanup_interval_or_default, validate_optimizing_compression_task_timeout_or_default,
  validate_allowed_clock_drift_for_files_from_future_or_default,
  validate_file_count_soft_limit_or_default, validate_files_total_size_soft_limit_or_default,
  validate_file_count_limit_percent_if_deleting_or_default,
  validate_files_total_size_limit_percent_if_deleting_or_default, disable_if_any_error,
  validate_before, validate_after, validate, Loaded, no_file, parsed, failed, from_file,
}

abbrev pub IsGiven {ℓ} : {A : Type ℓ} → Option A → Type ℓ
IsGiven {A = A} o = (a : A) × (o ≡ some a)

abbrev HasLevels : CacheConfig → Type 0
HasLevels c =
    (base_lvl : ℤ) × (opt_lvl : ℤ) × (c.baseline_compression_level ≡ some base_lvl)
    × (c.optimized_compression_level ≡ some opt_lvl)
    × (is_level base_lvl ≡ true)
    × (is_level opt_lvl ≡ true)
    × (less opt_lvl base_lvl ≡ false)

-- Every setting is there, both levels are levels of zstd and in order, and both percentages are at
-- most 100.
pub record IsValid (c : CacheConfig) : Type 0 where
  pub directory_set : IsGiven c.directory
  pub queue_size_set : IsGiven c.worker_event_queue_size
  pub levels : HasLevels c
  pub threshold_set : IsGiven c.optimized_compression_usage_counter_threshold
  pub cleanup_interval_set : IsGiven c.cleanup_interval
  pub timeout_set : IsGiven c.optimizing_compression_task_timeout
  pub drift_set : IsGiven c.allowed_clock_drift_for_files_from_future
  pub file_count_set : IsGiven c.file_count_soft_limit
  pub total_size_set : IsGiven c.files_total_size_soft_limit
  pub count_percent : (p : ℕ) × (c.file_count_limit_percent_if_deleting ≡ some p) × (p ≤ 100)
  pub size_percent : (p : ℕ) × (c.files_total_size_limit_percent_if_deleting ≡ some p) × (p ≤ 100)

push_error-fails : {P : Type 0} (es : List ConfigError) (e : ConfigError) → es ++ (e ∷ []) ≡ [] → P
push_error-fails [] e h = absurd (cc)
push_error-fails (x ∷ es) e h = absurd (cc)

-- A check that leaves no error passed, and changed nothing.
error_if-passed :
    (bad : Bool) (e : ConfigError) (c : CacheConfig)
    → (error_if bad e c).errors ≡ []
    → (bad ≡ false) × (error_if bad e c ≡ c) × (c.errors ≡ [])
error_if-passed true e c h = push_error-fails c.errors e h
error_if-passed false e c h = (refl, refl, h)

not-eq-false : (b : Bool) → not b ≡ false → b ≡ true
not-eq-false true h = refl
not-eq-false false h = absurd (cc)

-- The configuration with the settings that come after the compression levels, or their defaults.
abbrev settled : CacheConfig → CacheConfig
settled c = record c {
  optimized_compression_usage_counter_threshold =
      some (or_default c.optimized_compression_usage_counter_threshold 0x100);
  cleanup_interval = some (or_default c.cleanup_interval 3600);
  optimizing_compression_task_timeout =
      some (or_default c.optimizing_compression_task_timeout 1800);
  allowed_clock_drift_for_files_from_future =
      some (or_default c.allowed_clock_drift_for_files_from_future 86400);
  file_count_soft_limit = some (or_default c.file_count_soft_limit 0x1_0000);
  files_total_size_soft_limit = some (or_default c.files_total_size_soft_limit 536870912);
  file_count_limit_percent_if_deleting =
      some (or_default c.file_count_limit_percent_if_deleting 70);
  files_total_size_limit_percent_if_deleting =
      some (or_default c.files_total_size_limit_percent_if_deleting 70);
}

abbrev with_size_percent : CacheConfig → CacheConfig
with_size_percent c = record c {
  files_total_size_limit_percent_if_deleting =
      some (or_default c.files_total_size_limit_percent_if_deleting 70);
}

percent_in_range : (p : ℕ) → ltb 100 p ≡ false → p ≤ 100
percent_in_range p h = ground arith

validate_after-passed :
    (c : CacheConfig)
    → (validate_after c).errors ≡ []
    → (validate_after c ≡ settled c)
      × (or_default c.file_count_limit_percent_if_deleting 70 ≤ 100)
      × (or_default c.files_total_size_limit_percent_if_deleting 70 ≤ 100)
      × (c.errors ≡ [])
unfolding validate_optimized_compression_usage_counter_threshold_or_default
    validate_cleanup_interval_or_default validate_optimizing_compression_task_timeout_or_default
    validate_allowed_clock_drift_for_files_from_future_or_default
    validate_file_count_soft_limit_or_default validate_files_total_size_soft_limit_or_default
    validate_file_count_limit_percent_if_deleting_or_default
    validate_files_total_size_limit_percent_if_deleting_or_default
validate_after-passed c h =
    let (b, e, h') = error_if-passed _ _ _ h in
    let (b', e', h'') = error_if-passed _ _ _ h' in
    (
      e ∙ ap with_size_percent e',
      percent_in_range _ b',
      percent_in_range _ (
          subst
            (λ (x : CacheConfig).
              ltb 100 (or_default x.files_total_size_limit_percent_if_deleting 70) ≡ false)
            e' b),
      h'',
    )

validate_directory-none :
    (env : Environment) (c : CacheConfig)
    → directory_of env c.directory ≡ none
    → validate_directory_or_default env c ≡ push_error no_default_directory c
unfolding validate_directory_or_default
validate_directory-none env c e = rw (validate_directory_or_default, e) refl

validate_directory-some :
    (env : Environment) (c : CacheConfig) (d : String)
    → directory_of env c.directory ≡ some d
    → validate_directory_or_default env c ≡ check_directory env d (record c { directory = some d })
unfolding validate_directory_or_default
validate_directory-some env c d e = rw (validate_directory_or_default, e) refl

-- With no error, a directory was found.
abbrev IsPlaced : CacheConfig → Type 0
IsPlaced c = c.errors ≡ [] → IsGiven c.directory

canonical-IsPlaced : (o : Option String) (c : CacheConfig) → IsPlaced (canonical o c)
canonical-IsPlaced none c h = push_error-fails c.errors directory_not_canonical h
canonical-IsPlaced (some d) c h = (d, refl)

created-IsPlaced :
    (created : Bool) (o : Option String) (c : CacheConfig)
    → IsPlaced (if created then canonical o c else push_error directory_not_created c)
created-IsPlaced true o c h = canonical-IsPlaced o c h
created-IsPlaced false o c h = push_error-fails c.errors directory_not_created h

absolute-IsPlaced :
    (absolute created : Bool) (o : Option String) (c : CacheConfig)
    → IsPlaced (
        if absolute
        then if created then canonical o c else push_error directory_not_created c
        else push_error relative_directory c)
absolute-IsPlaced true created o c h = created-IsPlaced created o c h
absolute-IsPlaced false created o c h = push_error-fails c.errors relative_directory h

validate_directory-IsPlaced :
    (env : Environment) (c : CacheConfig) → IsPlaced (validate_directory_or_default env c)
unfolding validate_directory_or_default
validate_directory-IsPlaced env c h = elim (Option-cases (directory_of env c.directory)) [
  | inl e ↦
      let same = validate_directory-none env c e in
      push_error-fails c.errors no_default_directory (sym (ap CacheConfig.errors same) ∙ h)
  | inr (d, e) ↦
      let same = validate_directory-some env c d e in
      subst IsPlaced (sym same)
        (absolute-IsPlaced (env.is_absolute d) (env.create_dir_all d) (env.canonicalize d)
          (record c { directory = some d }))
        h
]

abbrev with_levels : ℤ → CacheConfig → CacheConfig
with_levels base_lvl c =
    error_if (less (optimized_level c) base_lvl) optimized_level_below_baseline (
      error_if (not (is_level (optimized_level c))) optimized_level_out_of_range
        (record c { optimized_compression_level = some (optimized_level c) }))

validate_optimized_lem :
    (c : CacheConfig) (base_lvl : ℤ)
    → c.baseline_compression_level ≡ some base_lvl
    → validate_optimized_compression_level_or_default c ≡ some (with_levels base_lvl c)
unfolding validate_optimized_compression_level_or_default
validate_optimized_lem c base_lvl e = ap (λ (o : Option ℤ). check_levels o c) e

with_levels-passed :
    (c : CacheConfig) (base_lvl : ℤ)
    → (with_levels base_lvl c).errors ≡ []
    → (with_levels base_lvl c ≡ record c { optimized_compression_level = some (optimized_level c) })
      × (is_level (optimized_level c) ≡ true)
      × (less (optimized_level c) base_lvl ≡ false)
      × (c.errors ≡ [])
with_levels-passed c base_lvl h =
    let (b, e, h') = error_if-passed _ _ _ h in
    let (b', e', h'') = error_if-passed _ _ _ h' in (e ∙ e', not-eq-false _ b', b, h'')

abbrev baseline_level : Environment → CacheConfig → ℤ
baseline_level env c = or_default c.baseline_compression_level env.zstd_default_compression_level

-- A check keeps the settings.
error_if-baseline :
    (bad : Bool) (e : ConfigError) (c : CacheConfig)
    → (error_if bad e c).baseline_compression_level ≡ c.baseline_compression_level
error_if-baseline true e c = refl
error_if-baseline false e c = refl

-- The configuration with its directory, the size of the queue and the baseline level.
abbrev placed : Environment → CacheConfig → CacheConfig
placed env c = validate_worker_event_queue_size_or_default (validate_directory_or_default env c)

validate_before-baseline :
    (env : Environment) (c : CacheConfig)
    → (validate_before env c).baseline_compression_level ≡ some (baseline_level env (placed env c))
unfolding validate_baseline_compression_level_or_default
validate_before-baseline env c = error_if-baseline _ _ _

validate_before-passed :
    (env : Environment) (c : CacheConfig)
    → (validate_before env c).errors ≡ []
    → IsGiven (validate_before env c).directory
      × IsGiven (validate_before env c).worker_event_queue_size
      × (is_level (baseline_level env (placed env c)) ≡ true)
unfolding validate_baseline_compression_level_or_default validate_worker_event_queue_size_or_default
validate_before-passed env c h =
    let (b, e, h') = error_if-passed _ _ _ h in
    let (d, given) = validate_directory-IsPlaced env c h' in
    (
      (d, ap CacheConfig.directory e ∙ given),
      (_, ap CacheConfig.worker_event_queue_size e),
      not-eq-false _ b,
    )

-- What the validations leave is valid, if they found no error.
passed-IsValid :
    (env : Environment) (c : CacheConfig) (base_lvl : ℤ)
    → base_lvl ≡ baseline_level env (placed env c)
    → (validate_after (with_levels base_lvl (validate_before env c))).errors ≡ []
    → IsValid (validate_after (with_levels base_lvl (validate_before env c)))
passed-IsValid env c base_lvl at h =
    let b = validate_before env c in
    let (e, count, size, h') = validate_after-passed (with_levels base_lvl b) h in
    let (e', top, order, h'') = with_levels-passed b base_lvl h' in
    let (d, q, base) = validate_before-passed env c h'' in
    subst IsValid (sym e) (
      subst (λ (x : CacheConfig). IsValid (settled x)) (sym e')
        (record {
          directory_set = d;
          queue_size_set = q;
          levels = (
            base_lvl,
            optimized_level b,
            validate_before-baseline env c ∙ ap some (sym at),
            refl,
            ap is_level at ∙ base,
            top,
            order,
          );
          threshold_set = (_, refl);
          cleanup_interval_set = (_, refl);
          timeout_set = (_, refl);
          drift_set = (_, refl);
          file_count_set = (_, refl);
          total_size_set = (_, refl);
          count_percent = (
            _,
            refl,
            subst (λ (x : CacheConfig). or_default x.file_count_limit_percent_if_deleting 70 ≤ 100)
                e' count,
          );
          size_percent = (
            _,
            refl,
            subst
                (λ (x : CacheConfig).
                  or_default x.files_total_size_limit_percent_if_deleting 70 ≤ 100)
                e' size,
          );
        }))

-- Either disabled, or valid with no error.
abbrev pub IsSound : CacheConfig → Type 0
IsSound c = (c.enabled ≡ false) ⊎ (IsValid c × (c.errors ≡ []))

kept_without_errors : (c : CacheConfig) → c.errors ≡ [] → disable_if_any_error c ≡ c
unfolding disable_if_any_error
kept_without_errors c e = ap (λ (l : List ConfigError). disable_for l c) e

disabled_by_error :
    (x : ConfigError) (es : List ConfigError) (c : CacheConfig)
    → c.errors ≡ x ∷ es
    → disable_if_any_error c ≡ new_cache_with_errors (x ∷ es)
unfolding disable_if_any_error
disabled_by_error x es c e = ap (λ (l : List ConfigError). disable_for l c) e

disable_if_any_error-IsSound :
    (es : List ConfigError) (c : CacheConfig)
    → c.errors ≡ es
    → (c.errors ≡ [] → IsValid c)
    → IsSound (disable_if_any_error c)
unfolding disable_if_any_error
disable_if_any_error-IsSound [] c e valid =
    subst IsSound (sym (kept_without_errors c e)) (inr (valid e, e))
disable_if_any_error-IsSound (x ∷ es) c e valid =
    inl (ap CacheConfig.enabled (disabled_by_error x es c e))

validate-IsSound :
    (env : Environment) (c : CacheConfig)
    → (c' : CacheConfig) × (validate env c ≡ some c') × IsSound c'
unfolding validate
validate-IsSound env c =
    let found = validate_optimized_lem (validate_before env c) _ (validate_before-baseline env c) in
    (
      _,
      rw (validate, found) refl,
      disable_if_any_error-IsSound _ _ refl (λ h. passed-IsValid env c _ refl h),
    )

-- Reading the configuration returns, whatever the file and the file system say: the result is
-- disabled, or it has every setting, with two levels of zstd of which the optimized one is not below
-- the baseline one, two percentages of at most 100, and no error.
pub from_file-IsSound :
    (env : Environment) (enabled : Bool) (loaded : Loaded)
    → (c : CacheConfig) × (from_file env enabled loaded ≡ some c) × IsSound c
unfolding from_file
from_file-IsSound env false loaded = (_, refl, inl refl)
from_file-IsSound env true no_file = validate-IsSound env new_cache_enabled_template
from_file-IsSound env true (parsed c) = validate-IsSound env c
from_file-IsSound env true (failed e) = (_, refl, inl refl)
