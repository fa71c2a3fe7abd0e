-- ===== src/Runtime/Instance/Globals/Initial.antt =====
-- wasmtime-runtime/src/instance.rs: after `initialize_globals`, constants are read back.
use wasmtime.Base.{
  ℕ, zero, suc, ◌+◌, ◌%◌, ◌^◌, ◌<◌, ◌≡◌, refl, sym, ap, ◌∙◌, subst, inl, inr, Option, none, some,
  List, [], ◌∷◌, length, get_elem?, drop, arith, ◌>>=◌, Option-cases, dec_lt,
}
use wasmtime.Environ.Module.{
  Module, defined_global_index, GlobalInit, i32_const, i64_const, f32_const, f64_const, v128_const,
  get_global, import,
}
use wasmtime.Environ.VmOffsets.{VmOffsets}
use wasmtime.Environ.VmOffsets.Fields
use wasmtime.Environ.VmOffsets.Layout.{globals, count, slot, Fits}
use wasmtime.Runtime.VmContext
use wasmtime.Runtime.VmContext.{VmContext, Cell, write, global_definition}
use wasmtime.Runtime.VmContext.Slots.{write_self, write_other}
use wasmtime.Runtime.Instance.{Instance, Store, put_instance}
use wasmtime.Runtime.Instance.Growth.{slot_apart, some_injective}
use wasmtime.Runtime.Instance.Globals.{
  initializers, init_bits, initialize_global, initialize_from, initialize_globals,
}

-- The number of values that the type of a constant has, and its bits.
abbrev pub constant : GlobalInit → Option (ℕ × ℕ)
constant (i32_const x) = some (2 ^ 32, x)
constant (i64_const x) = some (2 ^ 64, x)
constant (f32_const x) = some (2 ^ 32, x)
constant (f64_const x) = some (2 ^ 64, x)
constant (v128_const x) = some (2 ^ 128, x)
constant (get_global x) = none
constant import = none

-- The initializer of a constant stores it in the bytes that its type is read from.
init_bits-constant :
    (s : Store) (inst : Instance) (bits new m x : ℕ) (g : GlobalInit)
    → constant g ≡ some (m, x)
    → init_bits s inst bits g ≡ some new
    → new % m ≡ x % m
init_bits-constant s inst bits new m x (i32_const y) c e = ground arith
init_bits-constant s inst bits new m x (i64_const y) c e = ground arith
init_bits-constant s inst bits new m x (f32_const y) c e = ground arith
init_bits-constant s inst bits new m x (f64_const y) c e = ground arith
init_bits-constant s inst bits new m x (v128_const y) c e = ground arith
init_bits-constant s inst bits new m x (get_global y) c e = cc
init_bits-constant s inst bits new m x import c e = cc

-- A turn of the loop writes the slot of the global at the index, which is in range.
record Turn (s : Store) (inst : Instance) (index : ℕ) (g : GlobalInit) (next : Instance)
    : Type 0 where
  defined : ℕ
  bits : ℕ
  new : ℕ
  at : ℕ
  position : index ≡ length inst.module_.imported_globals + defined
  in_slots : defined < count inst.offsets globals
  offset : slot inst.offsets globals defined ≡ some at
  value : init_bits (put_instance s inst) inst bits g ≡ some new
  shape : next ≡ record inst { vmctx = write inst.vmctx at (global_definition new) }

slot-lt-count : (o : VmOffsets) (i at : ℕ) → slot o globals i ≡ some at → i < count o globals
unfolding Fields.vmctx_vmglobal_definition
slot-lt-count o i at e = elim (dec_lt i (count o globals)) [
  | yes l ↦ l
  | no n ↦ absurd (ground arith)
]

defined_position :
    (m : Module) (index d : ℕ)
    → defined_global_index m index ≡ some d
    → index ≡ length m.imported_globals + d
unfolding defined_global_index
defined_position m index d e = ground arith

turn :
    (s : Store) (inst next : Instance) (index : ℕ) (g : GlobalInit)
    → initialize_global s inst index g ≡ some next
    → Turn s inst index g next
turn s inst next index g e = elim (Option-cases (defined_global_index inst.module_ index)) [
  | inl p ↦ absurd (ground arith)
  | inr (d, p) ↦ elim (Option-cases (slot inst.offsets globals d)) [
    | inl q ↦ absurd (ground arith)
    | inr (at, q) ↦ elim (Option-cases (VmContext.as_global_definition (inst.vmctx at))) [
      | inl r ↦ absurd (ground arith)
      | inr (bits, r) ↦ elim (Option-cases (init_bits (put_instance s inst) inst bits g)) [
        | inl u ↦ absurd (ground arith)
        | inr (new, u) ↦ record {
          defined = d;
          bits = bits;
          new = new;
          at = at;
          position = defined_position inst.module_ index d p;
          in_slots = slot-lt-count inst.offsets d at q;
          offset = q;
          value = u;
          shape = ground arith;
        }
      ]
    ]
  ]
]

turned_once :
    (s : Store) (inst inst' : Instance) (index : ℕ) (g : GlobalInit) (gs : List GlobalInit)
    → initialize_from s inst index (g ∷ gs) ≡ some inst'
    → (next : Instance) × Turn s inst index g next
      × (initialize_from s next (index + 1) gs ≡ some inst')
unfolding initialize_from
turned_once s inst inst' index g gs e = elim (Option-cases (initialize_global s inst index g)) [
  | inl p ↦ absurd (ground arith)
  | inr (next, p) ↦ (next, turn s inst next index g p, ground arith)
]

global_at :
    (o : VmOffsets) (v : VmContext) (d a : ℕ)
    → slot o globals d ≡ some a
    → VmContext.global o v d ≡ VmContext.as_global_definition (v a)
global_at o v d a e = ap (λ s. s >>= λ at. VmContext.as_global_definition (v at)) e

-- A turn does not change another global.
Turn-keeps :
    (s : Store) (inst next : Instance) (index d : ℕ) (g : GlobalInit)
    → Turn s inst index g next
    → Fits inst.offsets
    → inst.offsets.pointer_size ≡ 8
    → d < count inst.offsets globals
    → length inst.module_.imported_globals + d < index
    → VmContext.global next.offsets next.vmctx d ≡ VmContext.global inst.offsets inst.vmctx d
Turn-keeps s inst next index d g t f eight l before =
    let (a, ea, ne) =
      slot_apart inst.offsets globals globals d t.defined t.at f eight l t.in_slots
        (inr (omega (arith, t.position))) t.offset in
    ap (λ x. VmContext.global x.offsets x.vmctx d) t.shape
    ∙ global_at inst.offsets (write inst.vmctx t.at (global_definition t.new)) d a ea
    ∙ ap VmContext.as_global_definition (write_other inst.vmctx t.at a (global_definition t.new) ne)
    ∙ sym (global_at inst.offsets inst.vmctx d a ea)

-- The loop does not change the globals before its index.
loop_keeps :
    (s : Store) (inst inst' : Instance) (index d : ℕ) (gs : List GlobalInit)
    → initialize_from s inst index gs ≡ some inst'
    → Fits inst.offsets
    → inst.offsets.pointer_size ≡ 8
    → d < count inst.offsets globals
    → length inst.module_.imported_globals + d < index
    → VmContext.global inst'.offsets inst'.vmctx d ≡ VmContext.global inst.offsets inst.vmctx d
unfolding initialize_from
loop_keeps s inst inst' index d [] e f eight l before =
    ap (λ x. VmContext.global x.offsets x.vmctx d) (sym (some_injective e))
loop_keeps s inst inst' index d (g ∷ gs) e f eight l before =
    let (next, t, r) = turned_once s inst inst' index g gs e in
    let o : next.offsets ≡ inst.offsets = ap (λ x. x.offsets) t.shape in
    let m : next.module_ ≡ inst.module_ = ap (λ x. x.module_) t.shape in
    loop_keeps s next inst' (index + 1) d gs r (subst Fits (sym o) f)
      (ap (λ x. x.pointer_size) o ∙ eight) (subst (λ x. d < count x globals) (sym o) l)
      (omega (arith, before, ap (λ x. length x.imported_globals) m))
    ∙ Turn-keeps s inst next index d g t f eight l before

-- A constant of the loop is read back after it.
loop_settles :
    (s : Store) (inst inst' : Instance) (index i d m x : ℕ) (g : GlobalInit) (gs : List GlobalInit)
    → initialize_from s inst index gs ≡ some inst'
    → Fits inst.offsets
    → inst.offsets.pointer_size ≡ 8
    → get_elem? gs i ≡ some g
    → constant g ≡ some (m, x)
    → index + i ≡ length inst.module_.imported_globals + d
    → (v : ℕ) × (VmContext.global inst'.offsets inst'.vmctx d ≡ some v) × (v % m ≡ x % m)
loop_settles s inst inst' index i d m x g [] e f eight at c p = cc
loop_settles s inst inst' index zero d m x g (h ∷ gs) e f eight at c p =
    let (next, t, r) = turned_once s inst inst' index h gs e in
    let o : next.offsets ≡ inst.offsets = ap (λ x. x.offsets) t.shape in
    let mo : next.module_ ≡ inst.module_ = ap (λ x. x.module_) t.shape in
    let own : t.defined ≡ d = omega (arith, t.position) in
    let same : h ≡ g = some_injective at in
    (
      t.new,
      loop_keeps s next inst' (index + 1) d gs r (subst Fits (sym o) f)
            (ap (λ x. x.pointer_size) o ∙ eight)
            (omega (arith, own, t.in_slots, ap (λ x. count x globals) o))
            (omega (arith, p, ap (λ x. length x.imported_globals) mo))
          ∙ ap (λ x. VmContext.global x.offsets x.vmctx d) t.shape
          ∙ global_at inst.offsets (write inst.vmctx t.at (global_definition t.new)) d t.at
              (ap (slot inst.offsets globals) (sym own) ∙ t.offset)
          ∙ ap VmContext.as_global_definition
              (write_self inst.vmctx t.at (global_definition t.new)),
      init_bits-constant (put_instance s inst) inst t.bits t.new m x h (ap constant same ∙ c)
          t.value,
    )
loop_settles s inst inst' index (suc i) d m x g (h ∷ gs) e f eight at c p =
    let (next, t, r) = turned_once s inst inst' index h gs e in
    let o : next.offsets ≡ inst.offsets = ap (λ x. x.offsets) t.shape in
    let mo : next.module_ ≡ inst.module_ = ap (λ x. x.module_) t.shape in
    loop_settles s next inst' (index + 1) i d m x g gs r (subst Fits (sym o) f)
      (ap (λ x. x.pointer_size) o ∙ eight) at c
      (omega (arith, p, ap (λ x. length x.imported_globals) mo))

-- Where the context fits on a 64-bit host and `initialize_globals` does not panic, a global that
-- the module defines with a constant is read back as that constant, in the bytes of its type,
-- whatever the other globals are initialized with.
pub initialize_globals-constant :
    (s : Store) (inst inst' : Instance) (i m x : ℕ) (g : GlobalInit)
    → Fits inst.offsets
    → inst.offsets.pointer_size ≡ 8
    → get_elem? (initializers (drop (length inst.module_.imported_globals) inst.module_.globals)) i
      ≡ some g
    → constant g ≡ some (m, x)
    → initialize_globals s inst ≡ some inst'
    → (v : ℕ) × (VmContext.global inst'.offsets inst'.vmctx i ≡ some v) × (v % m ≡ x % m)
unfolding initialize_globals
initialize_globals-constant s inst inst' i m x g f eight at c e =
    loop_settles s inst inst' (length inst.module_.imported_globals) i i m x g
      (initializers (drop (length inst.module_.imported_globals) inst.module_.globals)) e f eight at
      c refl
