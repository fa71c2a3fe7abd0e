-- ===== src/Runtime/Mmap/Examples.antt =====
-- wasmtime-runtime/src/mmap.rs: the theorems on a host with pages of 4096 bytes.
use wasmtime.Base.{◌≡◌, refl, some, true}
use wasmtime.Runtime.Mmap.{Host, round_up_to_page_size}
use wasmtime.Runtime.Mmap.Rounding.{IsPageSize}

abbrev host : Host
host = record { page_size = 4096; mapped = some 0x7000_0000; protected = true }

abbrev page : IsPageSize 4096
page = record { exponent = 12; power = refl }

-- The source's own test.
rounding_test :
    (round_up_to_page_size 0 4096 ≡ 0)
    × (round_up_to_page_size 1 4096 ≡ 4096)
    × (round_up_to_page_size 4096 4096 ≡ 4096)
    × (round_up_to_page_size 4097 4096 ≡ 8192)
unfolding round_up_to_page_size
rounding_test = (refl, refl, refl, refl)
