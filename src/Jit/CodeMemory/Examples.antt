-- ===== src/Jit/CodeMemory/Examples.antt =====
-- wasmtime-jit/src/code_memory.rs: two functions copied, and published.
use wasmtime.Base.{false, get_elem?, ℕ, ◌≡◌, refl, Bool, true, some, [], ◌∷◌, zero, suc, arith, ◌≤◌}
use wasmtime.Base.Outcomes.{ok, panic}
use wasmtime.Base.{◌≢◌}
use wasmtime.Jit.CodeMemory.Total.{allocate-ne-panic}
use wasmtime.Runtime.Mmap
use wasmtime.Runtime.Mmap.{Host, with_at_least, accessible_reserved, fresh, round_up_to_page_size}
use wasmtime.Jit.CodeMemory.{
  CodeMap, CodeMemory, Block, new, writable, write_current, allocate, allocate_copy_of_byte_slices,
  fill_blocks, publish, protect_from,
}
use wasmtime.Jit.CodeMemory.Blocks.{IsValid, Owned, mappings}
use wasmtime.Jit.CodeMemory.Allocate.{
  allocate-Fresh, Untouched, allocate-Untouched, allocate-IsValid,
}
use wasmtime.Jit.CodeMemory.Copies.{Filled, allocate_copy_of_byte_slices-Filled}
use wasmtime.Jit.CodeMemory.Publish.{Published, publish-Published}

abbrev host : Host
host = record { page_size = 4096; mapped = some 1048576; protected = true }

empty-IsValid : IsValid new
empty-IsValid = record {
  inside = omega arith;
  small = omega arith;
  pushed = omega arith;
  old = λ k c r l. absurd (omega arith);
  young = one;
}
  where
    one : (k : ℕ) (c : CodeMap) → get_elem? (mappings new) k ≡ some c → 0 ≤ k → c.executable ≡ false
    one zero c r l = cc
    one (suc k) c r l = cc

-- After the first five bytes.
abbrev first_block : Block
first_block = record { mapping = 1; start = 0; len = 5 }

abbrev five_bytes : CodeMemory
five_bytes = record {
  current = writable (fresh 1048576 65536 true);
  mmaps = writable Mmap.new ∷ [];
  position = 5;
  published = 0;
}

five_bytes_taken : allocate host new 5 ≡ ok (first_block, five_bytes)
unfolding allocate with_at_least accessible_reserved round_up_to_page_size
five_bytes_taken = refl

five_bytes-IsValid : IsValid five_bytes
five_bytes-IsValid =
    allocate-IsValid host new five_bytes 5 first_block (omega arith) empty-IsValid five_bytes_taken

first-Owned : Owned five_bytes first_block
first-Owned =
    (allocate-Fresh host new five_bytes 5 first_block (omega arith) empty-IsValid
      five_bytes_taken).owned

abbrev second_block : Block
second_block = record { mapping = 1; start = 5; len = 2 }

abbrev seven_bytes : CodeMemory
seven_bytes = record five_bytes { position = 7 }

seven_bytes_taken : allocate host five_bytes 2 ≡ ok (second_block, seven_bytes)
unfolding allocate
seven_bytes_taken = refl

allocate-Untouched_example : Untouched five_bytes first_block second_block seven_bytes
allocate-Untouched_example =
    allocate-Untouched host five_bytes seven_bytes 2 second_block first_block (omega arith)
      five_bytes-IsValid first-Owned seven_bytes_taken

-- Two slices in the seven bytes.
abbrev copied_twice : CodeMemory
copied_twice =
    write_current (write_current (record five_bytes { position = 8 }) 5 (144 ∷ [])) 6 (15 ∷ 11 ∷ [])

allocate_copy_of_byte_slices-Filled_example :
    Filled copied_twice
      (record { mapping = 1; start = 5; len = 1 } ∷ record { mapping = 1; start = 6; len = 2 } ∷ [])
      ((144 ∷ []) ∷ (15 ∷ 11 ∷ []) ∷ [])
unfolding allocate_copy_of_byte_slices allocate fill_blocks
allocate_copy_of_byte_slices-Filled_example =
    allocate_copy_of_byte_slices-Filled host five_bytes copied_twice
      ((144 ∷ []) ∷ (15 ∷ 11 ∷ []) ∷ [])
      (record { mapping = 1; start = 5; len = 1 } ∷ record { mapping = 1; start = 6; len = 2 } ∷ [])
      five_bytes-IsValid refl

abbrev five_published : CodeMemory
five_published = record {
  current = writable Mmap.new;
  mmaps = writable Mmap.new ∷ record { mmap = fresh 1048576 65536 true; executable = true } ∷ [];
  position = 0;
  published = 2;
}

abbrev granted : ℕ → Bool
granted k = true

publish-Published_example : Published five_bytes first_block five_published
unfolding publish protect_from
publish-Published_example =
    publish-Published granted five_bytes five_published first_block five_bytes-IsValid first-Owned
      refl

allocate-ne-panic_example : allocate host new 5 ≢ panic
allocate-ne-panic_example =
    allocate-ne-panic host new 5 (record { exponent = 12; power = refl }) (omega arith)
      empty-IsValid
