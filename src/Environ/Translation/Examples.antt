-- ===== src/Environ/Translation/Examples.antt =====
-- wasmtime-environ/src/module_environ.rs: a module with an imported and a defined global.
use wasmtime.Base.{◌+◌, ◌≡◌, refl, false, some, List, [], ◌∷◌}
use wasmtime.Environ.Plan.{default_tunables}
use wasmtime.Environ.Module.{Global, GlobalInit, i32_const, import}
use wasmtime.Environ.Translation.{
  Call, ModuleTranslation, new, global_import, global_type, global_export, func_type, translate,
}
use wasmtime.Environ.Translation.Framed.{translate-create_globals}
use wasmtime.Runtime.Instance.{create_globals}

abbrev global_of : GlobalInit → Global
global_of init = record { ty = 0; mutability = false; initializer = init }

abbrev calls : List Call
calls =
    global_import (global_of import) "env" "g"
    ∷ func_type 0
    ∷ global_type (global_of (i32_const 7))
    ∷ global_export 1 "h"
    ∷ []

abbrev translated : ModuleTranslation
translated = record (new default_tunables) {
  module_ = record (new default_tunables).module_ {
    imported_globals = ("env", "g") ∷ [];
    functions = 0 ∷ [];
    globals = global_of import ∷ global_of (i32_const 7) ∷ [];
    exports = ("h", wasmtime.Environ.Module.global 1) ∷ [];
  };
}

translate-create_globals_example :
    ((1 ≡ 0 + 1) × (0 ≡ 0 + 0) × (0 ≡ 0 + 0) × (2 ≡ 1 + 1))
    × (create_globals translated.module_ ≡ some (0 ∷ []))
unfolding translate wasmtime.Environ.Translation.call wasmtime.Environ.Translation.insert
translate-create_globals_example = translate-create_globals default_tunables calls translated refl
