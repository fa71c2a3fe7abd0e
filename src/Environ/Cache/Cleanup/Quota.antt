-- ===== src/Environ/Cache/Cleanup/Quota.antt =====
-- wasmtime-environ/src/cache/worker.rs: what the cleanup keeps is recognized, young, and within the
-- quotas.
use wasmtime.Base.{
  ltb-eq-false, checked_mul_usize, ℕ, ◌*◌, ◌/◌, ◌≡◌, ◌≤◌, ◌<◌, ◌⊎◌, inl, inr, refl, ap, ◌∙◌, subst,
  Option, none, some, List, ◌++◌, map, length, drop, usize_mod, arith, lt→ltb, checked_mul_usize,
  ◌>>=◌,
}
use wasmtime.Environ.Cache.Config.{CacheConfig}
use wasmtime.Environ.Cache.Cleanup.{
  Removal, CacheEntry, Quotas, quotas, find_cut, Removal, if_deleting, removal, from_cut, clean_up,
}
use wasmtime.Environ.Cache.Config.Valid.{IsValid}
use wasmtime.Environ.Cache.Cleanup.Order.{
  sizes, AllRecognized, AllUnrecognized, IsOrdered, NoneAfter, IsOrdered-RecognizedFirst,
  IsOrdered-NoneAfter, drop-append,
}
use wasmtime.Environ.Cache.Cleanup.Cut.{Split, IsReduced, find_cut-before}

from_cut-deleted :
    (index : List CacheEntry) (r : Option ℕ) (s : Split 0 index r) → from_cut r index ≡ s.deleted
from_cut-deleted index r s = elim s.at [
  | inl (e, n) ↦ rw (e, n) refl
  | inr e ↦
      let plain : r ≡ some (length s.kept) = e ∙ ap some (omega arith) in
      ap (λ (o : Option ℕ). from_cut o index) plain
      ∙ (ap (λ (l : List CacheEntry). drop (length s.kept) l) s.split
          ∙ drop-append s.kept s.deleted)
]

-- What a cleanup does to a sorted index: it removes the files behind a cut. The files before it are
-- recognized, and none of them compares as greater than a file behind it. Either only unrecognized files go and
-- the rest is within the full quotas, or the rest is within the reduced ones.
pub record IsCleaned (tolerance : ℕ) (q : Quotas) (index : List CacheEntry) (rs : List Removal)
    : Type 0 where
  pub kept : List CacheEntry
  pub deleted : List CacheEntry
  pub split : index ≡ kept ++ deleted
  pub removals : rs ≡ map removal deleted
  pub all_recognized : AllRecognized kept
  pub youngest : NoneAfter tolerance kept deleted
  pub within :
      (AllUnrecognized deleted
        × (sizes kept ≤ q.total_size_limit)
        × (length kept ≤ q.file_count_limit))
      ⊎ ((sizes kept ≤ q.tsl_if_deleting) × (length kept ≤ q.fcl_if_deleting))

find_cut-IsCleaned :
    (tolerance : ℕ) (q : Quotas) (index : List CacheEntry)
    → IsReduced q
    → IsOrdered tolerance index
    → sizes index < usize_mod
    → IsCleaned tolerance q index (map removal (from_cut (find_cut q 0 0 none index) index))
find_cut-IsCleaned tolerance q index red up small =
    let cleaned : (s : Split 0 index (find_cut q 0 0 none index))
        → ((AllUnrecognized s.deleted
              × (sizes s.kept ≤ q.total_size_limit)
              × (length s.kept ≤ q.file_count_limit))
            ⊎ ((sizes s.kept ≤ q.tsl_if_deleting) × (length s.kept ≤ q.fcl_if_deleting)))
        → IsCleaned tolerance q index (map removal (from_cut (find_cut q 0 0 none index) index)) =
      λ s w. record {
        kept = s.kept;
        deleted = s.deleted;
        split = s.split;
        removals = ap (map removal) (from_cut-deleted index _ s);
        all_recognized = s.all_recognized;
        youngest =
            IsOrdered-NoneAfter tolerance s.kept s.deleted (subst (IsOrdered tolerance) s.split up);
        within = w;
      } in
    elim (find_cut-before q 0 0 index red (IsOrdered-RecognizedFirst tolerance index up)
      (omega arith) (omega arith) (omega arith)) [
        | inl (s, u, w) ↦ cleaned s (inl (u, omega (arith, w.0), omega (arith, w.1)))
        | inr (s, w) ↦ cleaned s (inr (omega (arith, w.0), omega (arith, w.1)))
      ]

-- A percentage of at most 100 of a limit, where the product does not overflow.
abbrev pub percent_of : ℕ → ℕ → ℕ
percent_of limit percent = (limit * percent) / 100

percent_of-le : (limit percent : ℕ) → percent ≤ 100 → percent_of limit percent ≤ limit
percent_of-le limit percent h = grind arith

if_deleting-total :
    (limit percent : ℕ)
    → limit * percent < usize_mod
    → if_deleting limit percent ≡ some (percent_of limit percent)
unfolding checked_mul_usize
if_deleting-total limit percent h = rw (lt→ltb (limit * percent) usize_mod h) refl

quotas_lem :
    (c : CacheConfig) (size count size_percent count_percent : ℕ)
    → c.files_total_size_soft_limit ≡ some size
    → c.file_count_soft_limit ≡ some count
    → c.files_total_size_limit_percent_if_deleting ≡ some size_percent
    → c.file_count_limit_percent_if_deleting ≡ some count_percent
    → size * size_percent < usize_mod
    → count * count_percent < usize_mod
    → quotas c
      ≡ some (record {
        total_size_limit = size;
        file_count_limit = count;
        tsl_if_deleting = percent_of size size_percent;
        fcl_if_deleting = percent_of count count_percent;
      })
unfolding quotas
quotas_lem c size count sp cp e f g h x y =
    rw (e, f, g, h, if_deleting-total size sp x, if_deleting-total count cp y) refl

-- The configuration asks for limits whose products with the percentages do not overflow.
pub record HasQuotas (c : CacheConfig) (size count : ℕ) : Type 0 where
  pub valid : IsValid c
  pub size_limit : c.files_total_size_soft_limit ≡ some size
  pub count_limit : c.file_count_soft_limit ≡ some count
  pub size_fits : size * 100 < usize_mod
  pub count_fits : count * 100 < usize_mod

product_le : (n p : ℕ) → p ≤ 100 → n * 100 < usize_mod → n * p < usize_mod
product_le n p h k = grind arith

-- With a valid configuration whose limits are below 2^64 / 100, files of less than 2^64 bytes in all
-- and an index in the order of the sort, the cleanup does not panic. The files that it keeps are
-- recognized, none of them comes after a removed one in the order by age, and either only
-- unrecognized files go and the rest is within the limits, or the rest is within the given
-- percentages of the limits.
pub clean_up-IsCleaned :
    (tolerance size count : ℕ) (c : CacheConfig) (index : List CacheEntry)
    → HasQuotas c size count
    → IsOrdered tolerance index
    → sizes index < usize_mod
    → (q : Quotas) × (rs : List Removal) × (clean_up c index ≡ some rs)
      × (q.total_size_limit ≡ size)
      × (q.file_count_limit ≡ count)
      × (some (q.tsl_if_deleting)
          ≡ (c.files_total_size_limit_percent_if_deleting >>= λ p. some (percent_of size p)))
      × (some (q.fcl_if_deleting)
          ≡ (c.file_count_limit_percent_if_deleting >>= λ p. some (percent_of count p)))
      × IsCleaned tolerance q index rs
unfolding clean_up
clean_up-IsCleaned tolerance size count c index has up small =
    let (sp, e, sp_small) = has.valid.size_percent in
    let (cp, f, cp_small) = has.valid.count_percent in
    let found =
      quotas_lem c size count sp cp has.size_limit has.count_limit e f
        (product_le size sp sp_small has.size_fits) (product_le count cp cp_small has.count_fits) in
    (
      _,
      _,
      rw (clean_up, found) refl,
      refl,
      refl,
      rw e refl,
      rw f refl,
      find_cut-IsCleaned tolerance _ index
          (record {
            size_reduced = percent_of-le size sp sp_small;
            count_reduced = percent_of-le count cp cp_small;
          })
          up small,
    )

-- Where the product of the size limit and its percentage needs more than 64 bits, the cleanup
-- panics, though the configuration is valid.
pub clean_up_overflows :
    (c : CacheConfig) (index : List CacheEntry) (size percent : ℕ)
    → IsValid c
    → c.files_total_size_soft_limit ≡ some size
    → c.files_total_size_limit_percent_if_deleting ≡ some percent
    → usize_mod ≤ size * percent
    → clean_up c index ≡ none
unfolding clean_up quotas checked_mul_usize
clean_up_overflows c index size percent valid e f over =
    let (count, g) = valid.file_count_set in
    rw (clean_up, quotas, e, g, f, ltb-eq-false (size * percent) usize_mod over) refl
