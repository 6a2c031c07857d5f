-- ===== src/Heap.antt =====
-- libc/mem.c, the kernel's heap: block headers linked from `free_list`, searched first fit. A
-- header is never split or joined. The headers are a map from addresses; to follow a pointer that
-- leads to no header is a fault, `none`.
pub mod FirstFit
pub mod Boot
mod Tests
use first_kernel.Base.{
  ℕ, zero, suc, ◌+◌, ◌-◌, ◌%◌, ◌^◌, Option, none, some, ◌==◌, leb, if◌then◌else◌, Bool, true, false,
  ◌&&◌,
}
use first_kernel.Base.Partial.{◌>>=◌}

-- `MemoryBlock`; `next` is an address, 0 for the null pointer.
pub record MemoryBlock : Type 0 where
  pub size : ℕ
  pub free : ℕ
  pub next : ℕ

-- `sizeof(MemoryBlock)`
abbrev pub header_size : ℕ
header_size = 12

pub record Heap : Type 0 where
  pub block_at : ℕ → Option MemoryBlock
  pub free_list : ℕ

abbrev pub update : (ℕ → Option MemoryBlock) → ℕ → MemoryBlock → ℕ → Option MemoryBlock
update blocks a b p = if a == p then some b else blocks p

-- Arithmetic of `unsigned int` and of addresses.
abbrev pub add_u32 : ℕ → ℕ → ℕ
add_u32 a b = (a + b) % 2 ^ 32

abbrev pub sub_u32 : ℕ → ℕ → ℕ
sub_u32 a b = (a + 2 ^ 32 - b) % 2 ^ 32

unfoldable pub init_heap : ℕ → ℕ → Heap → Heap
init_heap start_address total_size heap = record {
  block_at =
      update heap.block_at start_address
        (record { size = sub_u32 total_size header_size; free = 1; next = 0 });
  free_list = start_address;
}

-- The loop of `kmalloc` at `current`. Fuel that runs out is `none` too.
unfoldable pub search_from : ℕ → ℕ → ℕ → Heap → Option (Heap × ℕ)
search_from zero current size heap = none
search_from (suc fuel) current size heap = elim (current == 0) [
  | true ↦ some (heap, 0)
  | false ↦ do
    block ← heap.block_at current
    elim (block.free == 1 && leb size block.size) [
      | true ↦ some (
        record heap { block_at = update heap.block_at current (record block { free = 0 }) },
        add_u32 current header_size,
      )
      | false ↦ search_from fuel block.next size heap
    ]
]

-- The first argument is the fuel: more than the length of the list is enough.
unfoldable pub kmalloc : ℕ → ℕ → Heap → Option (Heap × ℕ)
kmalloc fuel size heap = search_from fuel heap.free_list size heap

unfoldable pub kfree : ℕ → Heap → Option Heap
kfree ptr heap = if ptr == 0 then some heap else do
  let header = sub_u32 ptr header_size
  block ← heap.block_at header
  some (record heap { block_at = update heap.block_at header (record block { free = 1 }) })
