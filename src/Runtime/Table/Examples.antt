-- ===== src/Runtime/Table/Examples.antt =====
-- wasmtime-runtime/src/table.rs: a table of two functions that grows by one.
use wasmtime.Base.{ℕ, refl, [], ◌∷◌, some, try_u32, checked_add}
use wasmtime.Runtime.Table.{Table, Anyfunc, default_anyfunc, grow}
use wasmtime.Runtime.Table.Elements.{TableGrown, grow-TableGrown}

abbrev entry : ℕ → Anyfunc
entry n = record { func_ptr = n; type_index = 0; vmctx = 4096 }

abbrev pair_table : Table
pair_table = record { vec = entry 1 ∷ entry 2 ∷ []; address = 64; maximum = some 3 }

abbrev full_table : Table
full_table = record {
  vec = entry 1 ∷ entry 2 ∷ default_anyfunc ∷ [];
  address = 128;
  maximum = some 3;
}

grow-TableGrown_example : TableGrown pair_table 1 3 full_table
unfolding grow try_u32 checked_add
grow-TableGrown_example = grow-TableGrown 128 pair_table 1 3 full_table refl
