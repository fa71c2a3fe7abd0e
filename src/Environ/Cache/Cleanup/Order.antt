-- ===== src/Environ/Cache/Cleanup/Order.antt =====
-- wasmtime-environ/src/cache/worker.rs: what the order by age says of the files.
use Prim.Native.Nat.{Ordering}
use wasmtime.Base.{ℕ, ◌+◌, ◌≡◌, ◌≢◌, refl, Bool, List, [], ◌∷◌, ◌++◌, length, drop}
use wasmtime.Environ.Cache.Cleanup.{String, CacheEntry, recognized, unrecognized, compare_entries}

-- The bytes of the recognized files.
abbrev pub sizes : List CacheEntry → ℕ
sizes [] = 0
sizes (recognized p m s ∷ es) = s + sizes es
sizes (unrecognized p d ∷ es) = sizes es

abbrev pub AllRecognized : List CacheEntry → Type 0
AllRecognized [] = Unit
AllRecognized (recognized p m s ∷ es) = AllRecognized es
AllRecognized (unrecognized p d ∷ es) = ⊥

abbrev pub AllUnrecognized : List CacheEntry → Type 0
AllUnrecognized [] = Unit
AllUnrecognized (recognized p m s ∷ es) = ⊥
AllUnrecognized (unrecognized p d ∷ es) = AllUnrecognized es

-- A file compares as no greater than any of a list.
abbrev pub NotAfter : ℕ → CacheEntry → List CacheEntry → Type 0
NotAfter tolerance e [] = Unit
NotAfter tolerance e (d ∷ ds) =
    (compare_entries tolerance e d ≢ Ordering.gt) × NotAfter tolerance e ds

-- The order that a sort by `compare_entries` leaves.
abbrev pub IsOrdered : ℕ → List CacheEntry → Type 0
IsOrdered tolerance [] = Unit
IsOrdered tolerance (e ∷ es) = NotAfter tolerance e es × IsOrdered tolerance es

-- Every file of the first list compares as no greater than every file of the second.
abbrev pub NoneAfter : ℕ → List CacheEntry → List CacheEntry → Type 0
NoneAfter tolerance [] ds = Unit
NoneAfter tolerance (e ∷ es) ds = NotAfter tolerance e ds × NoneAfter tolerance es ds

-- The unrecognized files come last.
abbrev pub RecognizedFirst : List CacheEntry → Type 0
RecognizedFirst [] = Unit
RecognizedFirst (recognized p m s ∷ es) = RecognizedFirst es
RecognizedFirst (unrecognized p d ∷ es) = AllUnrecognized es

NotAfter-AllUnrecognized :
    (tolerance : ℕ) (p : String) (d : Bool) (es : List CacheEntry)
    → NotAfter tolerance (unrecognized p d) es
    → AllUnrecognized es
unfolding compare_entries
NotAfter-AllUnrecognized tolerance p d [] h = h
NotAfter-AllUnrecognized tolerance p d (recognized q m s ∷ es) h = absurd (h.0 refl)
NotAfter-AllUnrecognized tolerance p d (unrecognized q e ∷ es) h =
    NotAfter-AllUnrecognized tolerance p d es h.1

pub IsOrdered-RecognizedFirst :
    (tolerance : ℕ) (es : List CacheEntry) → IsOrdered tolerance es → RecognizedFirst es
IsOrdered-RecognizedFirst tolerance [] h = h
IsOrdered-RecognizedFirst tolerance (recognized p m s ∷ es) h =
    IsOrdered-RecognizedFirst tolerance es h.1
IsOrdered-RecognizedFirst tolerance (unrecognized p d ∷ es) h =
    NotAfter-AllUnrecognized tolerance p d es h.0

NotAfter-append :
    (tolerance : ℕ) (e : CacheEntry) (ks ds : List CacheEntry)
    → NotAfter tolerance e (ks ++ ds)
    → NotAfter tolerance e ds
NotAfter-append tolerance e [] ds h = h
NotAfter-append tolerance e (k ∷ ks) ds h = NotAfter-append tolerance e ks ds h.1

pub IsOrdered-NoneAfter :
    (tolerance : ℕ) (ks ds : List CacheEntry)
    → IsOrdered tolerance (ks ++ ds)
    → NoneAfter tolerance ks ds
IsOrdered-NoneAfter tolerance [] ds h = tt
IsOrdered-NoneAfter tolerance (k ∷ ks) ds h =
    (NotAfter-append tolerance k ks ds h.0, IsOrdered-NoneAfter tolerance ks ds h.1)

pub drop-append : {A : Type 0} (xs ys : List A) → drop (length xs) (xs ++ ys) ≡ ys
drop-append [] ys = refl
drop-append (x ∷ xs) ys = drop-append xs ys
