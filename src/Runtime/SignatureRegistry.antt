-- ===== src/Runtime/SignatureRegistry.antt =====
-- wasmtime-runtime/src/sig_registry.rs: signatures are numbered, so that an indirect call compares
-- two numbers. The hash map is an association list; the type of signatures is a parameter.
pub mod Unique
mod Examples
use wasmtime.Base.{ℕ, Option, none, some, List, [], ◌∷◌, length, try_u32}
use mathlib.Core.Logic.{ite}

module _ {S : Type 0} (same : Discrete S) where
  pub find : List (S × ℕ) → S → Option ℕ
  find [] s = none
  find ((t, i) ∷ map) s = ite (same t s) (some i) (find map s)

  -- `SignatureRegistry::register` in a release build: the index of an entry that is there, or a new
  -- entry whose index is the number of entries. `none` is the panic where that is no `u32`.
  pub register : List (S × ℕ) → S → Option (ℕ × List (S × ℕ))
  register map s = elim (find map s) [
    | some i ↦ some (i, map)
    | none ↦ elim (try_u32 (length map)) [ none ↦ none | some i ↦ some (i, (s, i) ∷ map) ]
  ]

  -- A registry fed with signatures in turn, from the empty one of `SignatureRegistry::new`.
  pub register_all : List (S × ℕ) → List S → Option (List (S × ℕ))
  register_all map [] = some map
  register_all map (s ∷ ss) = elim (register map s) [
    | none ↦ none
    | some (i, map') ↦ register_all map' ss
  ]
