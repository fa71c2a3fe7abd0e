-- ===== src/Runtime/SignatureRegistry/Examples.antt =====
-- wasmtime-runtime/src/sig_registry.rs: two equal signatures among three registrations.
use wasmtime.Base.{ℕ, ◌≡◌, ◌↔◌, refl, [], ◌∷◌, ℕ_discrete, try_u32}
use wasmtime.Runtime.SignatureRegistry.{find, register, register_all}
use wasmtime.Runtime.SignatureRegistry.Unique.{index_iff_signature}

index_iff_signature_example : (◌≡◌ {A = ℕ} 1 1) ↔ (◌≡◌ {A = ℕ} 20 20)
unfolding find register register_all try_u32 ℕ_discrete
index_iff_signature_example =
    index_iff_signature ℕ_discrete (10 ∷ []) (30 ∷ []) 20 20 1 1 ((10, 0) ∷ [])
      ((20, 1) ∷ (10, 0) ∷ []) ((30, 2) ∷ (20, 1) ∷ (10, 0) ∷ []) ((30, 2) ∷ (20, 1) ∷ (10, 0) ∷ [])
      refl refl refl refl
