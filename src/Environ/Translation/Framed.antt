-- ===== src/Environ/Translation/Framed.antt =====
-- wasmtime-environ/src/module_environ.rs: each index space is as long as its imports and what the
-- module defines.
use wasmtime.Base.{
  le→leb, true, leb, length-drop, drop, replicate, ℕ, suc, ◌+◌, ◌≡◌, refl, some, List, [], ◌∷◌,
  ◌++◌, length, length-append, arith,
}
use wasmtime.Environ.Plan.{Tunables, for_memory}
use wasmtime.Environ.Translation.{
  ModuleTranslation, new, Call, signature, func_import, table_import, memory_import, global_import,
  func_type, table_type, memory_type, global_type, func_export, table_export, memory_export,
  global_export, start_func, elements, body, data_initialization, call, translate,
}
use wasmtime.Runtime.Instance.{create_globals}
use wasmtime.Runtime.Instance.SameContext.{bind-some}

-- What a call defines, of each kind.
abbrev funcs_of : Call → ℕ
funcs_of (func_type s) = 1
funcs_of _ = 0

abbrev tables_of : Call → ℕ
tables_of (table_type ty l) = 1
tables_of _ = 0

abbrev memories_of : Call → ℕ
memories_of (memory_type ty) = 1
memories_of _ = 0

abbrev globals_of : Call → ℕ
globals_of (global_type g) = 1
globals_of _ = 0

abbrev pub sum_of : (Call → ℕ) → List Call → ℕ
sum_of f [] = 0
sum_of f (c ∷ cs) = f c + sum_of f cs

-- Each index space has its imports and a number of definitions.
abbrev Spaced : ModuleTranslation → ℕ → ℕ → ℕ → ℕ → Type 0
Spaced t funcs tables memories globals =
    (length t.module_.functions ≡ length t.module_.imported_funcs + funcs)
    × (length t.module_.table_plans ≡ length t.module_.imported_tables + tables)
    × (length t.module_.memory_plans ≡ length t.module_.imported_memories + memories)
    × (length t.module_.globals ≡ length t.module_.imported_globals + globals)

length-append_one : {A : Type 0} (xs : List A) (x : A) → length (xs ++ (x ∷ [])) ≡ suc (length xs)
length-append_one xs x = omega (arith, length-append xs (x ∷ []))

some_injective : {A : Type 0} {x y : A} → some x ≡ some y → x ≡ y
some_injective e = cc

call-Spaced :
    (c : Call) (t t' : ModuleTranslation) (f b y g : ℕ)
    → call c t ≡ some t'
    → Spaced t f b y g
    → Spaced t' (f + funcs_of c) (b + tables_of c) (y + memories_of c) (g + globals_of c)
unfolding call
call-Spaced (signature sig) t t' f b y g e h = grind (arith, length-append_one)
call-Spaced (func_import s x z) t t' f b y g e h = grind (arith, length-append_one)
call-Spaced (table_import ty l x z) t t' f b y g e h = grind (arith, length-append_one)
call-Spaced (memory_import ty x z) t t' f b y g e h =
    let (plan, p, q) = bind-some (for_memory ty t.tunables) _ e in grind (arith, length-append_one)
call-Spaced (global_import w x z) t t' f b y g e h = grind (arith, length-append_one)
call-Spaced (func_type s) t t' f b y g e h = grind (arith, length-append_one)
call-Spaced (table_type ty l) t t' f b y g e h = grind (arith, length-append_one)
call-Spaced (memory_type ty) t t' f b y g e h =
    let (plan, p, q) = bind-some (for_memory ty t.tunables) _ e in grind (arith, length-append_one)
call-Spaced (global_type w) t t' f b y g e h = grind (arith, length-append_one)
call-Spaced (func_export i n) t t' f b y g e h = grind (arith, length-append_one)
call-Spaced (table_export i n) t t' f b y g e h = grind (arith, length-append_one)
call-Spaced (memory_export i n) t t' f b y g e h = grind (arith, length-append_one)
call-Spaced (global_export i n) t t' f b y g e h = grind (arith, length-append_one)
call-Spaced (start_func i) t t' f b y g e h = grind (arith, length-append_one)
call-Spaced (elements l) t t' f b y g e h = grind (arith, length-append_one)
call-Spaced (body w) t t' f b y g e h = grind (arith, length-append_one)
call-Spaced (data_initialization w) t t' f b y g e h = grind (arith, length-append_one)

translate-Spaced :
    (cs : List Call) (t t' : ModuleTranslation) (f b y g : ℕ)
    → translate cs t ≡ some t'
    → Spaced t f b y g
    → Spaced t'
        (f + sum_of funcs_of cs)
        (b + sum_of tables_of cs)
        (y + sum_of memories_of cs)
        (g + sum_of globals_of cs)
unfolding translate
translate-Spaced [] t t' f b y g e h = grind arith
translate-Spaced (c ∷ cs) t t' f b y g e h =
    let (u, p, q) = bind-some (call c t) (translate cs) e in
    let rest = translate-Spaced cs u t' _ _ _ _ q (call-Spaced c t u f b y g p h) in
    (omega (arith, rest.0), omega (arith, rest.1), omega (arith, rest.2), omega (arith, rest.3))

-- Whatever calls the reading of a module makes, and in whatever order, if no plan for a memory
-- panics: each index space of the module is as long as its imports and the definitions of its kind
-- together, so creating the globals of an instance does not panic and makes a zero for each global
-- that the module defines.
pub translate-create_globals :
    (tunables : Tunables) (cs : List Call) (t : ModuleTranslation)
    → translate cs (new tunables) ≡ some t
    → Spaced t
        (sum_of funcs_of cs)
        (sum_of tables_of cs)
        (sum_of memories_of cs)
        (sum_of globals_of cs)
      × (create_globals t.module_ ≡ some (replicate (sum_of globals_of cs) 0))
unfolding create_globals
translate-create_globals tunables cs t e =
    let spaced = translate-Spaced cs (new tunables) t 0 0 0 0 e (refl, refl, refl, refl) in
    let left : length (drop (length t.module_.imported_globals) t.module_.globals)
        ≡ sum_of globals_of cs =
      omega (arith, spaced.3, length-drop (length t.module_.imported_globals) t.module_.globals) in
    let fits : leb (length t.module_.imported_globals) (length t.module_.globals) ≡ true =
      le→leb _ _ (omega (arith, spaced.3)) in
    (
      (
        omega (arith, spaced.0),
        omega (arith, spaced.1),
        omega (arith, spaced.2),
        omega (arith, spaced.3),
      ),
      rw (create_globals, fits, left) refl,
    )
