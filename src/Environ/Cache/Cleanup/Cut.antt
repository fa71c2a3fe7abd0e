-- ===== src/Environ/Cache/Cleanup/Cut.antt =====
-- wasmtime-environ/src/cache/worker.rs: where the loop of the cleanup cuts the files.
use wasmtime.Base.{
  ℕ, suc, ◌+◌, ◌%◌, ◌≡◌, ◌≤◌, ◌<◌, ◌⊎◌, inl, inr, refl, sym, ap, ◌∙◌, subst, Bool, true, false,
  ◌||◌, Option, none, some, List, [], ◌∷◌, ◌++◌, length, ltb, usize_mod, arith, Bool-cases,
  if◌then◌else◌,
}
use wasmtime.Environ.Cache.Cleanup.{
  String, CacheEntry, recognized, unrecognized, Quotas, first_excess, find_cut,
}
use wasmtime.Environ.Cache.Cleanup.Order.{sizes, AllRecognized, AllUnrecognized, RecognizedFirst}

-- A cut of a list whose first file has the index `idx`.
pub record Split (idx : ℕ) (es : List CacheEntry) (r : Option ℕ) : Type 0 where
  pub kept : List CacheEntry
  pub deleted : List CacheEntry
  pub split : es ≡ kept ++ deleted
  pub at : ((r ≡ none) × (deleted ≡ [])) ⊎ (r ≡ some (idx + length kept))
  pub all_recognized : AllRecognized kept

-- The kept files, with those before them, are within two limits.
abbrev pub Within : ℕ → ℕ → ℕ → ℕ → List CacheEntry → Type 0
Within size count total idx kept = (total + sizes kept ≤ size) × (idx + length kept ≤ count)

abbrev pub Full : (q : Quotas) (idx total : ℕ) (es : List CacheEntry) → Option ℕ → Type 0
Full q idx total es r =
    (s : Split idx es r) × AllUnrecognized s.deleted
    × Within q.total_size_limit q.file_count_limit total idx s.kept

abbrev pub Reduced : (q : Quotas) (idx total : ℕ) (es : List CacheEntry) → Option ℕ → Type 0
Reduced q idx total es r =
    (s : Split idx es r) × Within q.tsl_if_deleting q.fcl_if_deleting total idx s.kept

abbrev extend :
    (idx : ℕ) (p : String) (m size : ℕ) (es : List CacheEntry) (r : Option ℕ)
    → Split (suc idx) es r
    → Split idx (recognized p m size ∷ es) r
extend idx p m size es r s = record {
  kept = recognized p m size ∷ s.kept;
  deleted = s.deleted;
  split = ap (λ (l : List CacheEntry). recognized p m size ∷ l) s.split;
  at = elim s.at [ inl h ↦ inl h | inr h ↦ inr (h ∙ ap some (omega arith)) ];
  all_recognized = s.all_recognized;
}

-- The sum of the sizes does not wrap.
find_cut-step :
    (q : Quotas) (idx total : ℕ) (cut : Option ℕ) (p : String) (m size : ℕ) (es : List CacheEntry)
    → total + size < usize_mod
    → find_cut q idx total cut (recognized p m size ∷ es) ≡ (
        if ltb q.total_size_limit (total + size) || ltb q.file_count_limit (suc idx)
        then first_excess q idx (total + size) cut
        else find_cut q (suc idx) (total + size) (first_excess q idx (total + size) cut) es)
unfolding find_cut
find_cut-step q idx total cut p m size es h =
    let small : (total + size) % usize_mod ≡ total + size = omega arith in rw small refl

within_of : (a b x y : ℕ) → (ltb a x || ltb b y) ≡ false → (x ≤ a) × (y ≤ b)
within_of a b x y h = ground arith

find_cut_nil : (q : Quotas) (idx total : ℕ) (cut : Option ℕ) → find_cut q idx total cut [] ≡ none
unfolding find_cut
find_cut_nil q idx total cut = refl

find_cut_unrecognized :
    (q : Quotas) (idx total : ℕ) (cut : Option ℕ) (p : String) (d : Bool) (es : List CacheEntry)
    → find_cut q idx total cut (unrecognized p d ∷ es) ≡ some idx
unfolding find_cut
find_cut_unrecognized q idx total cut p d es = refl

-- The end of the list, or its first unrecognized file.
Full-nil :
    (q : Quotas) (idx total : ℕ)
    → total ≤ q.total_size_limit
    → idx ≤ q.file_count_limit
    → Full q idx total [] none
Full-nil q idx total s c = (
  record { kept = []; deleted = []; split = refl; at = inl (refl, refl); all_recognized = tt },
  tt,
  (omega arith, omega arith),
)

Full-unrecognized :
    (q : Quotas) (idx total : ℕ) (p : String) (d : Bool) (es : List CacheEntry)
    → AllUnrecognized es
    → total ≤ q.total_size_limit
    → idx ≤ q.file_count_limit
    → Full q idx total (unrecognized p d ∷ es) (some idx)
Full-unrecognized q idx total p d es u s c = (
  record {
    kept = [];
    deleted = unrecognized p d ∷ es;
    split = refl;
    at = inr (ap some (omega arith));
    all_recognized = tt;
  },
  u,
  (omega arith, omega arith),
)

Full-cons :
    (q : Quotas) (idx total : ℕ) (p : String) (m size : ℕ) (es : List CacheEntry) (r : Option ℕ)
    → Full q (suc idx) (total + size) es r
    → Full q idx total (recognized p m size ∷ es) r
Full-cons q idx total p m size es r (s, u, w) =
    (extend idx p m size es r s, u, (omega (arith, w.0), omega (arith, w.1)))

Reduced-cons :
    (q : Quotas) (idx total : ℕ) (p : String) (m size : ℕ) (es : List CacheEntry) (r : Option ℕ)
    → Reduced q (suc idx) (total + size) es r
    → Reduced q idx total (recognized p m size ∷ es) r
Reduced-cons q idx total p m size es r (s, w) =
    (extend idx p m size es r s, (omega (arith, w.0), omega (arith, w.1)))

under_limits : (a b x y : ℕ) → x ≤ a → y ≤ b → (ltb a x || ltb b y) ≡ false
under_limits a b x y h k = ground arith

-- Once a file was in excess of the reduced quotas: the cut is there, or nothing recognized goes.
find_cut-after :
    (q : Quotas) (i idx total : ℕ) (es : List CacheEntry)
    → RecognizedFirst es
    → total + sizes es < usize_mod
    → total ≤ q.total_size_limit
    → idx ≤ q.file_count_limit
    → (find_cut q idx total (some i) es ≡ some i)
      ⊎ Full q idx total es (find_cut q idx total (some i) es)
find_cut-after q i idx total [] k small s c = inr (
    subst (Full q idx total []) (sym (find_cut_nil q idx total (some i)))
      (Full-nil q idx total s c))
find_cut-after q i idx total (unrecognized p d ∷ es) k small s c = inr (
    subst (Full q idx total (unrecognized p d ∷ es))
      (sym (find_cut_unrecognized q idx total (some i) p d es))
      (Full-unrecognized q idx total p d es k s c))
find_cut-after q i idx total (recognized p m size ∷ es) k small s c =
    let step = find_cut-step q idx total (some i) p m size es (omega arith) in
    elim (Bool-cases (ltb q.total_size_limit (total + size) || ltb q.file_count_limit (suc idx))) [
      | inl over ↦ inl (rw (step, over) refl)
      | inr under ↦
          let e : find_cut q idx total (some i) (recognized p m size ∷ es)
              ≡ find_cut q (suc idx) (total + size) (some i) es =
            rw (step, under) refl in
          let (x, y) =
            within_of q.total_size_limit q.file_count_limit (total + size) (suc idx) under in
          elim (find_cut-after q i (suc idx) (total + size) es k (omega arith) x y) [
            | inl h ↦ inl (e ∙ h)
            | inr h ↦ inr (
                subst (Full q idx total (recognized p m size ∷ es)) (sym e)
                  (Full-cons q idx total p m size es _ h))
          ]
    ]

-- The reduced quotas are no larger than the full ones.
pub record IsReduced (q : Quotas) : Type 0 where
  pub size_reduced : q.tsl_if_deleting ≤ q.total_size_limit
  pub count_reduced : q.fcl_if_deleting ≤ q.file_count_limit

-- The first file in excess of the reduced quotas: the cut is there, or nothing recognized goes.
Reduced-here :
    (q : Quotas) (idx total : ℕ) (es : List CacheEntry) (r : Option ℕ)
    → total ≤ q.tsl_if_deleting
    → idx ≤ q.fcl_if_deleting
    → r ≡ some idx
    → Reduced q idx total es r
Reduced-here q idx total es r s c e = (
  record {
    kept = [];
    deleted = es;
    split = refl;
    at = inr (e ∙ ap some (omega arith));
    all_recognized = tt;
  },
  (omega arith, omega arith),
)

excess_here :
    (q : Quotas) (idx total : ℕ)
    → (ltb q.tsl_if_deleting total || ltb q.fcl_if_deleting (suc idx)) ≡ true
    → first_excess q idx total none ≡ some idx
excess_here q idx total h = rw h refl

excess_later :
    (q : Quotas) (idx total : ℕ)
    → (ltb q.tsl_if_deleting total || ltb q.fcl_if_deleting (suc idx)) ≡ false
    → first_excess q idx total none ≡ none
excess_later q idx total h = rw h refl

over_reduced :
    (q : Quotas) (idx total : ℕ)
    → IsReduced q
    → (ltb q.tsl_if_deleting total || ltb q.fcl_if_deleting (suc idx)) ≡ false
    → (ltb q.total_size_limit total || ltb q.file_count_limit (suc idx)) ≡ false
over_reduced q idx total small h =
    let (x, y) = within_of q.tsl_if_deleting q.fcl_if_deleting total (suc idx) h in
    under_limits q.total_size_limit q.file_count_limit total (suc idx)
      (omega (arith, small.size_reduced)) (omega (arith, small.count_reduced))

-- Where the first excess is, the cut is there, or nothing recognized goes.
find_cut_here :
    (q : Quotas) (idx total : ℕ) (p : String) (m size : ℕ) (es : List CacheEntry)
    → RecognizedFirst es
    → total + (size + sizes es) < usize_mod
    → total ≤ q.tsl_if_deleting
    → idx ≤ q.fcl_if_deleting
    → (ltb q.tsl_if_deleting (total + size) || ltb q.fcl_if_deleting (suc idx)) ≡ true
    → Full q idx total
        (recognized p m size ∷ es)
        (find_cut q idx total none (recognized p m size ∷ es))
      ⊎ Reduced q idx total
          (recognized p m size ∷ es)
          (find_cut q idx total none (recognized p m size ∷ es))
find_cut_here q idx total p m size es k small s c excess =
    let step = find_cut-step q idx total none p m size es (omega arith) in
    let here = excess_here q idx (total + size) excess in
    elim (Bool-cases (ltb q.total_size_limit (total + size) || ltb q.file_count_limit (suc idx))) [
      | inl over ↦ inr (Reduced-here q idx total _ _ s c (step ∙ rw (over, here) refl))
      | inr under ↦
          let e : find_cut q idx total none (recognized p m size ∷ es)
              ≡ find_cut q (suc idx) (total + size) (some idx) es =
            step ∙ rw (under, here) refl in
          let (x, y) =
            within_of q.total_size_limit q.file_count_limit (total + size) (suc idx) under in
          elim (find_cut-after q idx (suc idx) (total + size) es k (omega arith) x y) [
            | inl h ↦ inr (Reduced-here q idx total _ _ s c (e ∙ h))
            | inr h ↦ inl (
                subst (Full q idx total (recognized p m size ∷ es)) (sym e)
                  (Full-cons q idx total p m size es _ h))
          ]
    ]

pub find_cut-before :
    (q : Quotas) (idx total : ℕ) (es : List CacheEntry)
    → IsReduced q
    → RecognizedFirst es
    → total + sizes es < usize_mod
    → total ≤ q.tsl_if_deleting
    → idx ≤ q.fcl_if_deleting
    → Full q idx total es (find_cut q idx total none es)
      ⊎ Reduced q idx total es (find_cut q idx total none es)
find_cut-before q idx total [] red k small s c = inl (
    subst (Full q idx total []) (sym (find_cut_nil q idx total none))
      (Full-nil q idx total (omega (arith, red.size_reduced)) (omega (arith, red.count_reduced))))
find_cut-before q idx total (unrecognized p d ∷ es) red k small s c = inl (
    subst (Full q idx total (unrecognized p d ∷ es))
      (sym (find_cut_unrecognized q idx total none p d es))
      (Full-unrecognized q idx total p d es k (omega (arith, red.size_reduced))
        (omega (arith, red.count_reduced))))
find_cut-before q idx total (recognized p m size ∷ es) red k small s c =
    let step = find_cut-step q idx total none p m size es (omega arith) in
    elim (Bool-cases (ltb q.tsl_if_deleting (total + size) || ltb q.fcl_if_deleting (suc idx))) [
      | inl excess ↦ find_cut_here q idx total p m size es k small s c excess
      | inr fits ↦
          let e : find_cut q idx total none (recognized p m size ∷ es)
              ≡ find_cut q (suc idx) (total + size) none es =
            step
            ∙ rw
                (over_reduced q idx (total + size) red fits, excess_later q idx (total + size) fits)
                refl in
          let (x, y) =
            within_of q.tsl_if_deleting q.fcl_if_deleting (total + size) (suc idx) fits in
          elim (find_cut-before q (suc idx) (total + size) es red k (omega arith) x y) [
            | inl h ↦ inl (
                subst (Full q idx total (recognized p m size ∷ es)) (sym e)
                  (Full-cons q idx total p m size es _ h))
            | inr h ↦ inr (
                subst (Reduced q idx total (recognized p m size ∷ es)) (sym e)
                  (Reduced-cons q idx total p m size es _ h))
          ]
    ]
