-- ===== src/Jit/Namespace.antt =====
-- wasmtime-jit/src/namespace.rs: instances by name, as a resolver of imports. An instance is named by
-- its address in the store.
use Prim.Native.String.{String}
use text.Mathlib.Text.{◌==◌ as str_eq}
use wasmtime.Base.{ℕ, Option, none, some, List, [], ◌∷◌, if◌then◌else◌, ◌>>=◌}
use wasmtime.Runtime.Instance.{Store}
use wasmtime.Runtime.Instance.Calls.{Export, lookup}

-- `Namespace`; the last instance that a name was given to counts.
abbrev pub Namespace : Type 0
Namespace = List (String × ℕ)

abbrev pub new : Namespace
new = []

-- `HashMap::insert`
unfoldable pub name_instance : Namespace → String → ℕ → Namespace
name_instance [] name instance_ = (name, instance_) ∷ []
name_instance ((n, i) ∷ names) name instance_ =
    let rest = name_instance names name instance_ in
    if str_eq n name then (n, instance_) ∷ names else (n, i) ∷ rest

unfoldable pub get_instance : Namespace → String → Option ℕ
get_instance [] name = none
get_instance ((n, i) ∷ names) name = if str_eq n name then some i else get_instance names name

-- `resolve`; `none` outside is a panic of the lookup.
unfoldable pub resolve : Store → Namespace → String → String → Option (Option Export)
resolve s names name field = elim (get_instance names name) [
  | none ↦ some none
  | some k ↦ s k >>= λ inst. lookup inst field
]
