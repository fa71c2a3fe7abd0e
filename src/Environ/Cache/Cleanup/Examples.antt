-- ===== src/Environ/Cache/Cleanup/Examples.antt =====
-- wasmtime-environ/src/cache/worker.rs: the cleanup of three files with room for two.
use wasmtime.Base.{ℕ, ◌≡◌, refl, none, some, List, [], ◌∷◌, arith}
use wasmtime.Environ.Cache.Config.{CacheConfig, pos, new_cache_enabled_template}
use wasmtime.Environ.Cache.Config.Valid.{IsValid}
use wasmtime.Environ.Cache.Cleanup.{
  CacheEntry, recognized, compare_entries, Quotas, Removal, clean_up,
}
use wasmtime.Environ.Cache.Cleanup.Order.{IsOrdered}
use wasmtime.Environ.Cache.Cleanup.Quota.{
  HasQuotas, IsCleaned, percent_of, clean_up-IsCleaned, clean_up_overflows,
}

abbrev files : List CacheEntry
files = recognized "new" 30 40 ∷ recognized "old" 20 40 ∷ recognized "older" 10 40 ∷ []

abbrev tight : CacheConfig
tight = record new_cache_enabled_template {
  file_count_soft_limit = some 3;
  files_total_size_soft_limit = some 100;
  directory = some "/cache";
  worker_event_queue_size = some 16;
  baseline_compression_level = some (pos 3);
  optimized_compression_level = some (pos 20);
  optimized_compression_usage_counter_threshold = some 256;
  cleanup_interval = some 3600;
  optimizing_compression_task_timeout = some 1800;
  allowed_clock_drift_for_files_from_future = some 86400;
  file_count_limit_percent_if_deleting = some 70;
  files_total_size_limit_percent_if_deleting = some 70;
}

tight-IsValid : (n : ℕ) → IsValid (record tight { files_total_size_soft_limit = some n })
tight-IsValid n = record {
  directory_set = (_, refl);
  queue_size_set = (_, refl);
  levels = (_, _, refl, refl, refl, refl, refl);
  threshold_set = (_, refl);
  cleanup_interval_set = (_, refl);
  timeout_set = (_, refl);
  drift_set = (_, refl);
  file_count_set = (_, refl);
  total_size_set = (_, refl);
  count_percent = (_, refl, omega arith);
  size_percent = (_, refl, omega arith);
}

tight-HasQuotas : HasQuotas tight 100 3
tight-HasQuotas = record {
  valid = tight-IsValid 100;
  size_limit = refl;
  count_limit = refl;
  size_fits = omega arith;
  count_fits = omega arith;
}

files-IsOrdered : IsOrdered 100 files
unfolding compare_entries
files-IsOrdered = (((λ e. cc), ((λ e. cc), tt)), (((λ e. cc), tt), (tt, tt)))

clean_up-IsCleaned_example :
    (q : Quotas) × (rs : List Removal) × (clean_up tight files ≡ some rs)
    × (q.total_size_limit ≡ 100)
    × (q.file_count_limit ≡ 3)
    × (some (q.tsl_if_deleting) ≡ some (percent_of 100 70))
    × (some (q.fcl_if_deleting) ≡ some (percent_of 3 70))
    × IsCleaned 100 q files rs
clean_up-IsCleaned_example =
    clean_up-IsCleaned 100 100 3 tight files tight-HasQuotas files-IsOrdered (omega arith)

-- 2^60 bytes.
abbrev huge : CacheConfig
huge = record tight { files_total_size_soft_limit = some 1152921504606846976 }

clean_up_overflows_example : clean_up huge files ≡ none
clean_up_overflows_example =
    clean_up_overflows huge files 1152921504606846976 70 (tight-IsValid 1152921504606846976) refl
      refl (omega arith)
