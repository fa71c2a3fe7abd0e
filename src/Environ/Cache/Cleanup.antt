-- ===== src/Environ/Cache/Cleanup.antt =====
-- wasmtime-environ/src/cache/worker.rs: which files the cleanup of `handle_on_cache_update` deletes.
-- The listed files are an argument, in the order that the sort by `compare_entries` gave them.
pub mod Order
pub mod Cut
pub mod Quota
mod Examples
use Prim.Native.Nat.{Ordering, compare}
use Prim.Native.String.{String}
use wasmtime.Base.{
  ℕ, suc, ◌+◌, ◌*◌, ◌/◌, ◌%◌, Bool, true, false, ◌||◌, Option, none, some, List, [], ◌∷◌, map, drop,
  ltb, if◌then◌else◌, ◌>>=◌, usize_mod, checked_mul_usize,
}
use wasmtime.Environ.Cache.Config.{CacheConfig}

pub data CacheEntry : Type 0 where
  recognized : String → ℕ → ℕ → CacheEntry
  unrecognized : String → Bool → CacheEntry

-- The comparison of two times, with the files from the far future last.
abbrev pub compare_times : ℕ → ℕ → Bool → Bool → Ordering
compare_times lhs rhs false false = compare rhs lhs
compare_times lhs rhs true false = Ordering.gt
compare_times lhs rhs false true = Ordering.lt
compare_times lhs rhs true true = Ordering.eq

-- The comparison that sorts the files by age.
unfoldable pub compare_entries : ℕ → CacheEntry → CacheEntry → Ordering
compare_entries tolerance (recognized p lhs s) (recognized q rhs t) =
    compare_times lhs rhs (ltb tolerance lhs) (ltb tolerance rhs)
compare_entries tolerance (recognized p lhs s) (unrecognized q d) = Ordering.lt
compare_entries tolerance (unrecognized p d) (recognized q rhs t) = Ordering.gt
compare_entries tolerance (unrecognized p d) (unrecognized q e) = Ordering.eq

-- The limits of the size and of the number of files, and those that hold once files are deleted.
pub record Quotas : Type 0 where
  pub total_size_limit : ℕ
  pub file_count_limit : ℕ
  pub tsl_if_deleting : ℕ
  pub fcl_if_deleting : ℕ

-- `limit.checked_mul(percent).unwrap() / 100`
abbrev pub if_deleting : ℕ → ℕ → Option ℕ
if_deleting limit percent = checked_mul_usize limit percent >>= λ n. some (n / 100)

unfoldable pub quotas : CacheConfig → Option Quotas
quotas c = c.files_total_size_soft_limit >>= λ total_size_limit.
    c.file_count_soft_limit >>= λ file_count_limit.
    c.files_total_size_limit_percent_if_deleting >>= λ size_percent.
    if_deleting total_size_limit size_percent >>= λ tsl_if_deleting.
    c.file_count_limit_percent_if_deleting >>= λ count_percent.
    if_deleting file_count_limit count_percent >>= λ fcl_if_deleting. some (record {
      total_size_limit = total_size_limit;
      file_count_limit = file_count_limit;
      tsl_if_deleting = tsl_if_deleting;
      fcl_if_deleting = fcl_if_deleting;
    })

-- `start_delete_idx_if_deleting_recognized_items` after one more file.
abbrev pub first_excess : Quotas → ℕ → ℕ → Option ℕ → Option ℕ
first_excess q idx total_size (some i) = some i
first_excess q idx total_size none =
    if ltb q.tsl_if_deleting total_size || ltb q.fcl_if_deleting (suc idx) then some idx else none

-- The loop that finds the cut: `start_delete_idx` at its end.
unfoldable pub find_cut : Quotas → ℕ → ℕ → Option ℕ → List CacheEntry → Option ℕ
find_cut q idx total_size cut [] = none
find_cut q idx total_size cut (unrecognized path is_dir ∷ items) = some idx
find_cut q idx total_size cut (recognized path mtime size ∷ items) =
    let total = (total_size + size) % usize_mod in
    let excess = first_excess q idx total cut in
    let rest = find_cut q (suc idx) total excess items in
    if ltb q.total_size_limit total || ltb q.file_count_limit (suc idx) then excess else rest

-- What the cleanup asks of the file system; a refusal is only logged.
pub data Removal : Type 0 where
  remove_file remove_dir_all : String → Removal

abbrev pub removal : CacheEntry → Removal
removal (recognized path mtime size) = remove_file path
removal (unrecognized path false) = remove_file path
removal (unrecognized path true) = remove_dir_all path

abbrev pub from_cut : Option ℕ → List CacheEntry → List CacheEntry
from_cut none index = []
from_cut (some idx) index = drop idx index

-- The removals for a sorted index; `none` is a panic.
unfoldable pub clean_up : CacheConfig → List CacheEntry → Option (List Removal)
clean_up c index = quotas c >>= λ q. some (map removal (from_cut (find_cut q 0 0 none index) index))
