-- ===== src/Jit/CodeMemory/Publish.antt =====
-- wasmtime-jit/src/code_memory.rs: `publish` makes what was handed out executable.
use mathlib.Core.Option
use wasmtime.Runtime.Mmap
use wasmtime.Base.{
  ℕ_discrete, subst, ℕ, ◌+◌, ◌≤◌, ◌<◌, ◌≡◌, ◌≢◌, ◌⊎◌, inl, inr, refl, ap, sym, ◌∙◌, zero, suc, Bool,
  true, ◌||◌, Option, none, some, List, [], ◌∷◌, length, get_elem?, get_elem?-append, get_elem?-lt,
  length-append, ltb, ◌==◌, if◌then◌else◌, arith, dec_lt, Bool-cases, lt→ltb, ltb-eq-false,
  ==-eq-false,
}
use wasmtime.Base.Outcomes.{ok, >>=-eq-ok}
use wasmtime.Jit.CodeMemory.{CodeMap, CodeMemory, Block, protect, protect_from, publish, writable}
use wasmtime.Jit.CodeMemory.Blocks.{IsValid, Owned, mappings, byte_at, read}
use wasmtime.Jit.CodeMemory.Steps.{get_elem?-append_one}
use wasmtime.Jit.CodeMemory.Allocate.{old_mapping}

-- A mapping after the loop of `publish`.
abbrev pub sealed : ℕ → ℕ → CodeMap → CodeMap
sealed published k c =
    if ltb k published || c.mmap.len == 0 then c else record c { executable = true }

protect-sealed :
    (answers : ℕ → Bool) (published k : ℕ) (c c' : CodeMap)
    → protect answers published k c ≡ ok c'
    → c' ≡ sealed published k c
protect-sealed answers published k c c' e = ground arith

-- A turn of the loop.
sealed_once :
    (answers : ℕ → Bool) (published k : ℕ) (d : CodeMap) (ds cs' : List CodeMap)
    → protect_from answers published k (d ∷ ds) ≡ ok cs'
    → (ds' : List CodeMap) × (protect_from answers published (suc k) ds ≡ ok ds')
      × (cs' ≡ sealed published k d ∷ ds')
unfolding protect_from
sealed_once answers published k d ds cs' e =
    let (d', p, q) = >>=-eq-ok (protect answers published k d) _ e in
    let (ds', p', q') = >>=-eq-ok (protect_from answers published (suc k) ds) _ q in
    (ds', p', cc (protect-sealed answers published k d d' p))

-- The loop seals every mapping in place.
protect_from-sealed :
    (answers : ℕ → Bool) (published k i : ℕ) (cs cs' : List CodeMap)
    → protect_from answers published k cs ≡ ok cs'
    → get_elem? cs' i ≡ Option.map (sealed published (k + i)) (get_elem? cs i)
unfolding protect_from
protect_from-sealed answers published k i [] cs' e =
    subst (λ xs. get_elem? xs i ≡ none) {x = []} (ground arith) refl
protect_from-sealed answers published k zero (d ∷ ds) cs' e =
    let (ds', p, q) = sealed_once answers published k d ds cs' e in
    rw q (ap (λ n. some (sealed published n d)) (omega arith))
protect_from-sealed answers published k (suc i) (d ∷ ds) cs' e =
    let (ds', p, q) = sealed_once answers published k d ds cs' e in
    rw q (
      protect_from-sealed answers published (suc k) i ds ds' p
      ∙ ap (λ n. Option.map (sealed published n) (get_elem? ds i)) (omega arith))

protect_from-length :
    (answers : ℕ → Bool) (published k : ℕ) (cs cs' : List CodeMap)
    → protect_from answers published k cs ≡ ok cs'
    → length cs' ≡ length cs
unfolding protect_from
protect_from-length answers published k [] cs' e = ground arith
protect_from-length answers published k (d ∷ ds) cs' e =
    let (ds', p, q) = sealed_once answers published k d ds cs' e in
    rw q (ap suc (protect_from-length answers published (suc k) ds ds' p))

-- The mappings after a `publish`: those before, sealed, and an empty current one.
published_mappings :
    (answers : ℕ → Bool) (m m' : CodeMemory)
    → publish answers m ≡ ok m'
    → (cs : List CodeMap) × (protect_from answers m.published 0 (mappings m) ≡ ok cs)
      × (m'
          ≡ record { current = writable Mmap.new; mmaps = cs; position = 0; published = length cs })
unfolding publish
published_mappings answers m m' e =
    let (cs, p, q) = >>=-eq-ok (protect_from answers m.published 0 (mappings m)) _ e in
    (cs, p, ground arith)

get_elem?-total {ℓ} :
    {A : Type ℓ} (xs : List A) (i : ℕ) → i < length xs → (x : A) × (get_elem? xs i ≡ some x)
get_elem?-total [] i l = absurd (omega arith)
get_elem?-total (x ∷ xs) zero l = (x, refl)
get_elem?-total (x ∷ xs) (suc i) l = get_elem?-total xs i (omega arith)

sealed_mmap : (published k : ℕ) (c : CodeMap) → (sealed published k c).mmap ≡ c.mmap
sealed_mmap published k c = elim (Bool-cases (ltb k published || c.mmap.len == 0)) [
  | inl e ↦ rw e refl
  | inr e ↦ rw e refl
]

-- A sealed mapping is executable, unless it is empty.
sealed_executable :
    (published k : ℕ) (c : CodeMap)
    → ((k < published) → c.mmap.len ≢ 0 → c.executable ≡ true)
    → ((sealed published k c).executable ≡ true) ⊎ ((sealed published k c).mmap.len ≡ 0)
sealed_executable published k c old = elim (ℕ_discrete c.mmap.len 0) [
  | yes e ↦ inr (ap (λ m. m.len) (sealed_mmap published k c) ∙ e)
  | no n ↦ elim (dec_lt k published) [
    | yes l ↦ inl (rw (lt→ltb k published l) (old l n))
    | no g ↦ inl (rw (ltb-eq-false k published (omega arith), ==-eq-false c.mmap.len 0 n) refl)
  ]
]

-- Where a mapping is, its sealed form is after the call.
published_at :
    (answers : ℕ → Bool) (m m' : CodeMemory) (k : ℕ) (c : CodeMap)
    → publish answers m ≡ ok m'
    → get_elem? (mappings m) k ≡ some c
    → (k < length m'.mmaps) × (get_elem? (mappings m') k ≡ some (sealed m.published k c))
published_at answers m m' k c e r =
    let (cs, p, q) = published_mappings answers m m' e in
    let same : length cs ≡ length (mappings m) =
      protect_from-length answers m.published 0 (mappings m) cs p in
    let at : k < length cs = omega (arith, same, get_elem?-lt (mappings m) k c r) in
    rw q (
      at,
      get_elem?-append cs (writable Mmap.new ∷ []) k at
          ∙ protect_from-sealed answers m.published 0 k (mappings m) cs p
          ∙ ap (λ n. Option.map (sealed m.published n) (get_elem? (mappings m) k)) (omega arith)
          ∙ ap (Option.map (sealed m.published k)) r,
    )

some_eq {ℓ} : {A : Type ℓ} {o : Option A} {x y : A} → o ≡ some x → o ≡ some y → x ≡ y
some_eq e f = cc

-- What `publish` promises of a block handed out before: it is kept with its contents, and its
-- mapping, which the block fits in, is executable unless it is empty.
pub record Published (m : CodeMemory) (s : Block) (m' : CodeMemory) : Type 0 where
  pub owned : Owned m' s
  pub contents : (i : ℕ) → read m' s i ≡ read m s i
  pub map : CodeMap
  pub held : get_elem? (mappings m') s.mapping ≡ some map
  pub executable : (map.executable ≡ true) ⊎ (map.mmap.len ≡ 0)

-- In a valid code memory, a `publish` that returns keeps the place and the contents of every block
-- handed out before, and the mapping it lies in is executable, unless it is empty.
pub publish-Published :
    (answers : ℕ → Bool) (m m' : CodeMemory) (s : Block)
    → IsValid m
    → Owned m s
    → publish answers m ≡ ok m'
    → Published m s m'
unfolding read
publish-Published answers m m' s v o e =
    let more : length (mappings m) ≡ suc (length m.mmaps) =
      length-append m.mmaps (m.current ∷ []) ∙ omega arith in
    let (c, r) = get_elem?-total (mappings m) s.mapping (omega (arith, more, old_mapping m s o)) in
    let (at, held) = published_at answers m m' s.mapping c e r in
    let same : (sealed m.published s.mapping c).mmap ≡ c.mmap =
      sealed_mmap m.published s.mapping c in
    record {
      owned = (
        inl at,
        λ d h.
            subst (λ n. s.start + s.len ≤ n)
              (ap (λ x. x.len) (sym same) ∙ ap (λ x. x.mmap.len) (some_eq held h)) (o.1 c r),
      );
      contents = λ i.
          ap (λ x. byte_at x (s.start + i)) held
          ∙ ap (λ x. some (x.bytes (s.start + i))) same
          ∙ sym (ap (λ x. byte_at x (s.start + i)) r);
      map = sealed m.published s.mapping c;
      held = held;
      executable = sealed_executable m.published s.mapping c (v.old s.mapping c r);
    }

published_length :
    (answers : ℕ → Bool) (m m' : CodeMemory)
    → publish answers m ≡ ok m'
    → length m'.mmaps ≡ length (mappings m)
published_length answers m m' e =
    let (cs, p, q) = published_mappings answers m m' e in
    rw q (protect_from-length answers m.published 0 (mappings m) cs p)

-- Every mapping pushed is executable after the call, unless it is empty.
published_old :
    (answers : ℕ → Bool) (m m' : CodeMemory) (k : ℕ) (d : CodeMap)
    → IsValid m
    → publish answers m ≡ ok m'
    → get_elem? (mappings m') k ≡ some d
    → k < length m'.mmaps
    → d.mmap.len ≢ 0
    → d.executable ≡ true
published_old answers m m' k d v e r l n =
    let (c, at) = get_elem?-total (mappings m) k (omega (arith, published_length answers m m' e)) in
    let (_, held) = published_at answers m m' k c e at in
    let same : sealed m.published k c ≡ d = some_eq held r in
    elim (sealed_executable m.published k c (v.old k c at)) [
      | inl x ↦ ap (λ y. y.executable) (sym same) ∙ x
      | inr z ↦ absurd (n (ap (λ y. y.mmap.len) (sym same) ∙ z))
    ]

-- A `publish` that returns keeps the invariant of a code memory: the position is in the current
-- mapping, and exactly the published mappings, the empty ones apart, are executable.
pub publish-IsValid :
    (answers : ℕ → Bool) (m m' : CodeMemory) → IsValid m → publish answers m ≡ ok m' → IsValid m'
publish-IsValid answers m m' v e =
    let (cs, p, q) = published_mappings answers m m' e in
    subst IsValid (sym q) (record {
      inside = omega arith;
      small = omega arith;
      pushed = omega arith;
      old = λ k c r l n.
          published_old answers m m' k c v e (ap (λ x. get_elem? (mappings x) k) q ∙ r)
            (omega (arith, ap (λ x. length x.mmaps) q)) n;
      young = λ k c r l. elim (get_elem?-append_one cs (writable Mmap.new) c k r) [
        | inl at ↦ absurd (omega (arith, get_elem?-lt cs k c at))
        | inr (last, _) ↦ ap (λ x. x.executable) last
      ];
    })
