-- ===== src/Jit/Link/Bytes.antt =====
-- wasmtime-jit/src/link.rs: the bytes of the code after patches are applied to it.
use wasmtime.Base.{
  subst, ℕ, zero, suc, ◌+◌, ◌-◌, ◌≤◌, ◌<◌, ◌≡◌, ◌⊎◌, inl, inr, refl, ◌∙◌, some, List, [], ◌∷◌, ◌++◌,
  get_elem?, arith, leb, ltb, leb→le, le→leb, lt→ltb, ltb→lt, Bool-cases,
}
use wasmtime.Jit.Link.Relocate.{Patch, byte_of, write_unaligned}

abbrev pub apply_all : List Patch → (ℕ → ℕ) → ℕ → ℕ
apply_all [] bytes = bytes
apply_all (p ∷ ps) bytes = apply_all ps (write_unaligned bytes p.site p.value)

-- The bytes of a patch.
abbrev pub Covers : Patch → ℕ → Type 0
Covers p a = (p.site ≤ a) × (a < p.site + 8)

abbrev pub ApartFrom : Patch → List Patch → Type 0
ApartFrom p [] = Unit {0}
ApartFrom p (q ∷ qs) = ((p.site + 8 ≤ q.site) ⊎ (q.site + 8 ≤ p.site)) × ApartFrom p qs

-- No two patches share a byte.
abbrev pub Apart : List Patch → Type 0
Apart [] = Unit {0}
Apart (p ∷ ps) = ApartFrom p ps × Apart ps

abbrev pub Outside : List Patch → ℕ → Type 0
Outside [] a = Unit {0}
Outside (p ∷ ps) a = (¬ Covers p a) × Outside ps a

pub apply_all-append :
    (ps qs : List Patch) (bytes : ℕ → ℕ)
    → apply_all (ps ++ qs) bytes ≡ apply_all qs (apply_all ps bytes)
apply_all-append [] qs bytes = refl
apply_all-append (p ∷ ps) qs bytes = apply_all-append ps qs (write_unaligned bytes p.site p.value)

write_unaligned-inside :
    (bytes : ℕ → ℕ) (site value k : ℕ)
    → k < 8
    → write_unaligned bytes site value (site + k) ≡ byte_of value k
unfolding write_unaligned
write_unaligned-inside bytes site value k h =
    let back : site + k - site ≡ k = omega arith in
    rw (le→leb site (site + k) (omega arith), lt→ltb (site + k) (site + 8) (omega arith), back) refl

write_unaligned-outside :
    (bytes : ℕ → ℕ) (p : Patch) (a : ℕ)
    → ¬ Covers p a
    → write_unaligned bytes p.site p.value a ≡ bytes a
unfolding write_unaligned
write_unaligned-outside bytes p a h = elim (Bool-cases (leb p.site a)) [
  | inr e ↦ rw e refl
  | inl e ↦ elim (Bool-cases (ltb a (p.site + 8))) [
    | inr f ↦ rw (e, f) refl
    | inl f ↦ absurd (h (leb→le _ _ e, ltb→lt _ _ f))
  ]
]

-- Bytes that no patch covers stay.
pub apply_all-Outside :
    (ps : List Patch) (bytes : ℕ → ℕ) (a : ℕ) → Outside ps a → apply_all ps bytes a ≡ bytes a
apply_all-Outside [] bytes a h = refl
apply_all-Outside (p ∷ ps) bytes a h =
    apply_all-Outside ps (write_unaligned bytes p.site p.value) a h.1
    ∙ write_unaligned-outside bytes p a h.0

ApartFrom-Outside :
    (p : Patch) (qs : List Patch) (a : ℕ) → Covers p a → ApartFrom p qs → Outside qs a
ApartFrom-Outside p [] a c h = tt
ApartFrom-Outside p (q ∷ qs) a c h = (
  (λ (d : Covers q a). elim h.0 [
    | inl x ↦ absurd (omega (arith, c, d, x))
    | inr x ↦ absurd (omega (arith, c, d, x))
  ]),
  ApartFrom-Outside p qs a c h.1,
)

pub apply_all-inside :
    (ps : List Patch) (bytes : ℕ → ℕ) (j k : ℕ) (p : Patch)
    → Apart ps
    → get_elem? ps j ≡ some p
    → k < 8
    → apply_all ps bytes (p.site + k) ≡ byte_of p.value k
apply_all-inside [] bytes j k p h e q = absurd (cc)
apply_all-inside (x ∷ ps) bytes zero k p h e q =
    let same : x ≡ p = cc in
    subst
      (λ (y : Patch).
        apply_all ps (write_unaligned bytes x.site x.value) (y.site + k) ≡ byte_of y.value k)
      same
      (apply_all-Outside ps (write_unaligned bytes x.site x.value) (x.site + k)
          (ApartFrom-Outside x ps (x.site + k) (omega arith, omega arith) h.0)
        ∙ write_unaligned-inside bytes x.site x.value k q)
apply_all-inside (x ∷ ps) bytes (suc j) k p h e q =
    apply_all-inside ps (write_unaligned bytes x.site x.value) j k p h.1 e q
