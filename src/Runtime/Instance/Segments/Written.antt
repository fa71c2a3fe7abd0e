-- ===== src/Runtime/Instance/Segments/Written.antt =====
-- wasmtime-runtime/src/instance.rs: the bytes of the memories after a data segment is written.
use wasmtime.Base.{
  false, ℕ, zero, suc, ◌-◌, ◌≤◌, ◌<◌, ◌≡◌, ◌≢◌, refl, sym, ap, ◌∙◌, subst, Option, none, some, List,
  [], ◌∷◌, ◌&&◌, get_elem?, get_elem?-lt, get_elem?-set_self, get_elem?-set_ne, set, leb, ◌==◌,
  ==_iff, ==-eq-false, if◌then◌else◌, ◌>>=◌, over, value_or, value_or-over, leb→le, Bool-cases,
  Option-cases, inl, inr, ℕ_discrete, arith,
}
use wasmtime.Runtime.Memory.{LinearMemory}
use wasmtime.Runtime.Instance.{Instance, Store, put_instance}
use wasmtime.Runtime.Instance.Stores.{put_own, put_other}
use wasmtime.Runtime.Instance.Segments.{
  DataInitializer, Target, locate, write_segment, overlay, fill, fill_nth,
}
use wasmtime.Runtime.Instance.Segments.Kept.{Alike, Addressed, fill_nth-length}

-- A byte of a memory of an instance.
abbrev pub byte_at : Store → ℕ → ℕ → ℕ → Option ℕ
byte_at s owner index at =
    s owner >>= λ inst. get_elem? inst.memories index >>= λ m. some (m.mmap.bytes at)

-- What bytes that are laid out from an index on put at an index.
abbrev pub covered_by : List ℕ → ℕ → ℕ → Option ℕ
covered_by [] at i = none
covered_by (b ∷ bs) at i = let rest = covered_by bs (suc at) i in if i == at then some b else rest

abbrev pub in_memory : ℕ → ℕ → List ℕ → ℕ → ℕ → ℕ → ℕ → Option ℕ
in_memory owner index bs at o j i = if owner == o && index == j then covered_by bs at i else none

module _ (s : Store) (k : ℕ) where
  abbrev pub in_segment : DataInitializer → ℕ → ℕ → ℕ → Option ℕ
  in_segment init o j i = elim (locate s k init) [
    | none ↦ none
    | some t ↦ in_memory t.owner t.index init.contents t.start o j i
  ]

  -- What the segments put at a byte of a memory: the last one counts.
  abbrev pub overlaid : List DataInitializer → ℕ → ℕ → ℕ → Option ℕ
  overlaid [] o j i = none
  overlaid (init ∷ inits) o j i = over (overlaid inits o j i) (in_segment init o j i)

-- A byte with a value over it, if there is such a byte.
abbrev pub under : Option ℕ → Option ℕ → Option ℕ
under a below = below >>= λ x. some (value_or a x)

-- A write whose target has no instance changes nothing; another puts back its owner.
pub write_segment-none :
    (s : Store) (t : Target) (bytes : List ℕ) → s t.owner ≡ none → write_segment s t bytes ≡ s
unfolding write_segment
write_segment-none s t bytes p = rw (write_segment, p) refl

abbrev pub filled : Instance → Target → List ℕ → Instance
filled o t bytes = record o { memories = fill_nth o.memories t.index t.start bytes }

pub write_segment-some :
    (s : Store) (t : Target) (bytes : List ℕ) (o : Instance)
    → s t.owner ≡ some o
    → write_segment s t bytes ≡ put_instance s (filled o t bytes)
unfolding write_segment
write_segment-some s t bytes o p = rw (write_segment, p) refl

pub filled-Alike : (o : Instance) (t : Target) (bytes : List ℕ) → Alike o (filled o t bytes)
filled-Alike o t bytes = record {
  id = refl;
  module_ = refl;
  offsets = refl;
  vmctx = refl;
  count = fill_nth-length o.memories t.index t.start bytes;
}

covered_by-none : (bs : List ℕ) (at i : ℕ) → i < at → covered_by bs at i ≡ none
covered_by-none [] at i h = refl
covered_by-none (b ∷ bs) at i h =
    rw (==-eq-false i at (λ e. absurd (omega (arith, e))))
      (covered_by-none bs (suc at) i (omega arith))

covered_by-get_elem? :
    (bs : List ℕ) (at i : ℕ) → at ≤ i → covered_by bs at i ≡ get_elem? bs (i - at)
covered_by-get_elem? [] at i h = refl
covered_by-get_elem? (b ∷ bs) at i h = elim (ℕ_discrete i at) [
  | yes e ↦ let here : i - at ≡ zero = omega (arith, e) in rw ((==_iff i at).1 e, here) refl
  | no n ↦
      let later : i - at ≡ suc (i - suc at) = omega (arith, n) in
      rw (==-eq-false i at n, later) (covered_by-get_elem? bs (suc at) i (omega (arith, n)))
]

beyond : (at i : ℕ) → leb at i ≡ false → i < at
beyond at i e = ground arith

-- The bytes of `copy_from_slice`.
overlay-covered_by :
    (bytes : ℕ → ℕ) (at : ℕ) (bs : List ℕ) (i : ℕ)
    → overlay bytes at bs i ≡ value_or (covered_by bs at i) (bytes i)
overlay-covered_by bytes at bs i = elim (Bool-cases (leb at i)) [
  | inr e ↦ rw (overlay, e, covered_by-none bs at i (beyond at i e)) refl
  | inl e ↦
      rw (covered_by-get_elem? bs at i (leb→le at i e))
        (elim (Option-cases (get_elem? bs (i - at))) [
          | inl f ↦ rw (overlay, e, f) refl
          | inr (b, f) ↦ rw (overlay, e, f) refl
        ])
]

pub under-none : (below : Option ℕ) → under none below ≡ below
under-none none = refl
under-none (some x) = refl

-- A byte of one of several memories.
abbrev at_memory : List LinearMemory → ℕ → ℕ → Option ℕ
at_memory ms j i = get_elem? ms j >>= λ m. some (m.mmap.bytes i)

fill_nth-some :
    (ms : List LinearMemory) (index start : ℕ) (bs : List ℕ) (m : LinearMemory)
    → get_elem? ms index ≡ some m
    → fill_nth ms index start bs ≡ set ms index (fill m start bs)
fill_nth-some ms index start bs m p = rw (fill_nth, p) refl

fill_nth-none :
    (ms : List LinearMemory) (index start : ℕ) (bs : List ℕ)
    → get_elem? ms index ≡ none
    → fill_nth ms index start bs ≡ ms
fill_nth-none ms index start bs p = rw (fill_nth, p) refl

fill_nth-own :
    (ms : List LinearMemory) (index start : ℕ) (bs : List ℕ) (i : ℕ)
    → at_memory (fill_nth ms index start bs) index i
      ≡ under (covered_by bs start i) (at_memory ms index i)
fill_nth-own ms index start bs i = elim (Option-cases (get_elem? ms index)) [
  | inl p ↦ rw (fill_nth-none ms index start bs p, p) refl
  | inr (m, p) ↦
      rw
        (
          fill_nth-some ms index start bs m p,
          get_elem?-set_self ms index (fill m start bs) (get_elem?-lt ms index m p),
          p,
        )
        (ap some (overlay-covered_by m.mmap.bytes start bs i))
]

fill_nth-other :
    (ms : List LinearMemory) (index start : ℕ) (bs : List ℕ) (j i : ℕ)
    → index ≢ j
    → at_memory (fill_nth ms index start bs) j i ≡ at_memory ms j i
fill_nth-other ms index start bs j i n = elim (Option-cases (get_elem? ms index)) [
  | inl p ↦ rw (fill_nth-none ms index start bs p) refl
  | inr (m, p) ↦
      rw (fill_nth-some ms index start bs m p, get_elem?-set_ne ms (fill m start bs) n) refl
]

fill_nth-at_memory :
    (ms : List LinearMemory) (index start : ℕ) (bs : List ℕ) (j i : ℕ)
    → at_memory (fill_nth ms index start bs) j i
      ≡ under (if index == j then covered_by bs start i else none) (at_memory ms j i)
fill_nth-at_memory ms index start bs j i = elim (ℕ_discrete index j) [
  | yes e ↦ rw ((==_iff index j).1 e) (
      subst
        (λ n.
          at_memory (fill_nth ms index start bs) n i
          ≡ under (covered_by bs start i) (at_memory ms n i))
        e (fill_nth-own ms index start bs i))
  | no n ↦
      rw (==-eq-false index j n)
        (fill_nth-other ms index start bs j i n ∙ sym (under-none (at_memory ms j i)))
]

-- One segment, written at its target: the bytes that it covers are its own, all others stay.
pub write_segment-in_memory :
    (c : Store) (t : Target) (bs : List ℕ) (o j i : ℕ)
    → Addressed c
    → byte_at (write_segment c t bs) o j i
      ≡ under (in_memory t.owner t.index bs t.start o j i) (byte_at c o j i)
write_segment-in_memory c t bs o j i addressed = elim (Option-cases (c t.owner)) [
  | inl p ↦ elim (ℕ_discrete t.owner o) [
    | yes e ↦
        let nobody : c o ≡ none = ap c (sym e) ∙ p in rw (write_segment-none c t bs p, nobody) refl
    | no n ↦
        rw (write_segment-none c t bs p, ==-eq-false t.owner o n)
          (sym (under-none (byte_at c o j i)))
  ]
  | inr (inst, p) ↦
      let id = addressed t.owner inst p in
      elim (ℕ_discrete t.owner o) [
        | yes e ↦
            let own : put_instance c (filled inst t bs) o ≡ some (filled inst t bs) =
              put_own c (filled inst t bs) o (id ∙ e) in
            let there : c o ≡ some inst = ap c (sym e) ∙ p in
            rw (write_segment-some c t bs inst p, own, there, (==_iff t.owner o).1 e)
              (fill_nth-at_memory inst.memories t.index t.start bs j i)
        | no n ↦
            let same : put_instance c (filled inst t bs) o ≡ c o =
              put_other c (filled inst t bs) o (λ e. n (sym (e ∙ id))) in
            rw (write_segment-some c t bs inst p, same, ==-eq-false t.owner o n)
              (sym (under-none (byte_at c o j i)))
      ]
]

pub under-over : (a b below : Option ℕ) → under a (under b below) ≡ under (over a b) below
under-over a b none = refl
under-over a b (some x) = ap some (value_or-over a b x)
