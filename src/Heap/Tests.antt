-- ===== src/Heap/Tests.antt =====
-- Runs of the heap, and its theorems at concrete inputs.
use first_kernel.Base.{◌≡◌, refl, [], ◌∷◌, none, some, arith}
use first_kernel.Heap.{Heap, update, init_heap, kmalloc, kfree, search_from}
use first_kernel.Heap.FirstFit.{first_fit, take_block, kmalloc-first_fit}
use first_kernel.Heap.Boot.{alloc_free_cycle}

abbrev empty : Heap
empty = record { block_at = λ _. none; free_list = 0 }

-- A list of two blocks, the first in use.
abbrev two_blocks : Heap
two_blocks = record {
  block_at =
      update (update empty.block_at 64 (record { size = 32; free = 0; next = 128 })) 128
        (record { size = 64; free = 1; next = 0 });
  free_list = 64;
}

kmalloc-first_fit_example :
    kmalloc 3 40 two_blocks
    ≡ some (take_block two_blocks (first_fit 40 two_blocks.block_at (64 ∷ 128 ∷ [])))
kmalloc-first_fit_example = kmalloc-first_fit (64 ∷ 128 ∷ []) 3 40 two_blocks (omega arith) (
  refl,
  omega arith,
  (
    record { size = 32; free = 0; next = 128 },
    refl,
    (refl, omega arith, (record { size = 64; free = 1; next = 0 }, refl, refl)),
  ),
)

finds_second :
    (kmalloc 3 40 two_blocks)
    ≡ some (
      record two_blocks {
        block_at = update two_blocks.block_at 128 (record { size = 64; free = 0; next = 0 });
      },
      140,
    )
unfolding kmalloc search_from
finds_second = refl

alloc_free_cycle_example :
    (h1 h2 h3 : Heap) × (kmalloc 5 512 (init_heap 0x100000 4096 empty) ≡ some (h1, 0x10000C))
    × (kmalloc 5 1 h1 ≡ some (h1, 0))
    × (kfree 0x10000C h1 ≡ some h2)
    × (kmalloc 5 1 h2 ≡ some (h3, 0x10000C))
alloc_free_cycle_example =
    alloc_free_cycle 0x100000 4096 (omega arith) (omega arith) (omega arith) (omega arith) 3 512 1
      empty (omega arith) (omega arith)
