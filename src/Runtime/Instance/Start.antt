-- ===== src/Runtime/Instance/Start.antt =====
-- wasmtime-runtime/src/instance.rs: which function runs when an instance is made.
use wasmtime.Base.{ℕ, ◌≡◌, ◌⊎◌, inl, inr, sym, ap, ◌∙◌, none, some, get_elem?, arith, Option-cases}
use wasmtime.Environ.Module
use wasmtime.Environ.Module.{Module, Signature}
use wasmtime.Runtime.Instance.Calls.{get_export, plain_function, start_function}

-- A function of the module whose only parameter is the `vmctx` and that has no results.
pub record IsPlain (m : Module) (f : ℕ) : Type 0 where
  pub index : ℕ
  pub signature : Signature
  pub typed : get_elem? m.functions f ≡ some index
  pub found : get_elem? m.signatures index ≡ some signature
  pub no_params : signature.params ≡ 1
  pub no_returns : signature.returns ≡ 0

plain_function-IsPlain :
    (m : Module) (e : Module.Export) (f : ℕ)
    → plain_function m e ≡ some (some f)
    → IsPlain m f × (e ≡ Module.function f)
plain_function-IsPlain m (Module.function g) f h = elim (Option-cases (get_elem? m.functions g)) [
  | inl n ↦ absurd (ground arith)
  | inr (s, p) ↦ elim (Option-cases (get_elem? m.signatures s)) [
    | inl n ↦ absurd (ground arith)
    | inr (sig, q) ↦
        let same : g ≡ f = ground arith in
        (
          record {
            index = s;
            signature = sig;
            typed = ap (get_elem? m.functions) (sym same) ∙ p;
            found = q;
            no_params = ground arith;
            no_returns = ground arith;
          },
          ap Module.function same,
        )
  ]
]
plain_function-IsPlain m (Module.table g) f h = cc
plain_function-IsPlain m (Module.memory g) f h = cc
plain_function-IsPlain m (Module.global g) f h = cc

-- What a module that declares no start function runs: a plain function that it exports as
-- `_start`, or as `main` where it exports no `_start`.
pub start_function-IsPlain :
    (m : Module) (f : ℕ)
    → m.start_func ≡ none
    → start_function m ≡ some (some f)
    → IsPlain m f
      × ((get_export "_start" m.exports ≡ some (Module.function f))
          ⊎ ((get_export "_start" m.exports ≡ none)
              × (get_export "main" m.exports ≡ some (Module.function f))))
unfolding start_function
start_function-IsPlain m f n h = elim (Option-cases (get_export "_start" m.exports)) [
  | inr (e, p) ↦
      let (plain, same) = plain_function-IsPlain m e f (ground arith) in
      (plain, inl (p ∙ ap some same))
  | inl p ↦ elim (Option-cases (get_export "main" m.exports)) [
    | inl q ↦ absurd (ground arith)
    | inr (e, q) ↦
        let (plain, same) = plain_function-IsPlain m e f (ground arith) in
        (plain, inr (p, q ∙ ap some same))
  ]
]
