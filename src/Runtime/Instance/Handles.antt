-- ===== src/Runtime/Instance/Handles.antt =====
-- wasmtime-runtime/src/instance.rs: the reference counts of instances.
use wasmtime.Base.{
  List, [], ◌++◌, ℕ, zero, suc, ◌+◌, ◌-◌, ◌≤◌, ◌<◌, ◌≡◌, refl, sym, ap, ◌∙◌, Option, none, some,
  arith, ==_iff, ==-eq-false, ℕ_discrete, ◌>>=◌, usize_mod,
}
use wasmtime.Runtime.Memory.{sub_usize}
use wasmtime.Runtime.Instance.{Instance, Store, put_instance}
use wasmtime.Runtime.Instance.Stores.{put_own, put_other}
use wasmtime.Runtime.Instance.Calls.{clone, drop_handle, remove_instance}

-- Dropping so many handles of an instance in turn, and what is dropped next.
abbrev then_drop : (Store → Option (Store × List ℕ)) → Store × List ℕ → Option (Store × List ℕ)
then_drop next r = next r.0 >>= λ q. some (q.0, r.1 ++ q.1)

unfoldable pub drop_handles : Store → ℕ → ℕ → Option (Store × List ℕ)
drop_handles s k zero = some (s, [])
drop_handles s k (suc n) = drop_handle s k >>= then_drop (λ s'. drop_handles s' k n)

-- The drop of a handle that is not the last one.
drop_handle-kept :
    (s : Store) (k : ℕ) (inst : Instance)
    → s k ≡ some inst
    → 2 ≤ inst.refcount
    → inst.refcount < usize_mod
    → drop_handle s k ≡ some (put_instance s (record inst { refcount = inst.refcount - 1 }), [])
unfolding drop_handle
drop_handle-kept s k inst e l b =
    let less : sub_usize inst.refcount 1 ≡ inst.refcount - 1 = omega arith in
    rw (drop_handle, e, less, ==-eq-false (inst.refcount - 1) 0 (omega arith)) refl

drop_handle-last :
    (s : Store) (k : ℕ) (inst : Instance)
    → s k ≡ some inst
    → inst.refcount ≡ 1
    → drop_handle s k ≡ some (remove_instance s k, inst.dependencies)
unfolding drop_handle
drop_handle-last s k inst e one = rw (drop_handle, e, one) refl

-- An instance with `n + 1` references, a `usize`, lives through `n` drops, with one reference left,
-- and is freed by the next, after which the handles on what it imports from are dropped.
pub freed_by_last_drop :
    (s : Store) (k n : ℕ) (inst : Instance)
    → s k ≡ some inst
    → inst.id ≡ k
    → inst.refcount ≡ n + 1
    → n + 1 < usize_mod
    → (s' : Store) × (s'' : Store) × (drop_handles s k n ≡ some (s', []))
      × (s' k ≡ some (record inst { refcount = 1 }))
      × (drop_handle s' k ≡ some (s'', inst.dependencies))
      × (s'' k ≡ none)
unfolding drop_handles
freed_by_last_drop s k zero inst e own r b = (
  s,
  remove_instance s k,
  refl,
  e ∙ ap (λ n. some (record inst { refcount = n })) r,
  drop_handle-last s k inst e (r ∙ refl),
  rw ((==_iff k k).1 refl) refl,
)
freed_by_last_drop s k (suc n) inst e own r b =
    let less : Instance = record inst { refcount = inst.refcount - 1 } in
    let s1 : Store = put_instance s less in
    let (s', s'', p, q, u, v) =
      freed_by_last_drop s1 k n less (put_own s less k own) own (omega arith) (omega arith) in
    (
      s',
      s'',
      ap (λ x. x >>= then_drop (λ y. drop_handles y k n))
            (drop_handle-kept s k inst e (omega arith) (omega arith))
          ∙ ap (λ x. x >>= λ q. some (q.0, q.1)) p,
      q,
      u,
      v,
    )

-- A clone of a handle and a drop of one leave every instance of the store as it was, where the
-- count of the instance is positive and one more is still a `usize`.
pub drop_handle-clone :
    (s : Store) (k j : ℕ) (inst : Instance)
    → s k ≡ some inst
    → inst.id ≡ k
    → 1 ≤ inst.refcount
    → inst.refcount + 1 < usize_mod
    → (s' : Store) × (s'' : Store) × (clone s k ≡ some s')
      × (drop_handle s' k ≡ some (s'', []))
      × (s'' j ≡ s j)
unfolding clone put_instance
drop_handle-clone s k j inst e own l b =
    let more : Instance = record inst { refcount = inst.refcount + 1 } in
    let s' : Store = put_instance s more in
    let back : Instance = record more { refcount = inst.refcount + 1 - 1 } in
    (
      s',
      put_instance s' back,
      ap (λ r. r >>= λ i. some (put_instance s (record i { refcount = i.refcount + 1 }))) e,
      drop_handle-kept s' k more (put_own s more k own) (omega arith) b,
      elim (ℕ_discrete j k) [
        | yes at ↦
            ap (put_instance s' back) at
            ∙ put_own s' back k own
            ∙ ap (λ n. some (record inst { refcount = n })) (omega arith)
            ∙ sym e
            ∙ ap s (sym at)
        | no other ↦
            put_other s' back j (λ x. other (x ∙ own)) ∙ put_other s more j (λ x. other (x ∙ own))
      ],
    )
