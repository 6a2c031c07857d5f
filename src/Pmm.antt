-- ===== src/Pmm.antt =====
-- drivers/pmm.c, the physical memory manager: a bitmap with a bit for each frame of 4 KiB.
-- Words are `unsigned int`s below 2 ^ 32; a word outside the array is a fault, `none`.
pub mod Bitmap
pub mod Frames
pub mod Ownership
mod Tests
use first_kernel.Base.{
  ℕ, zero, suc, ◌+◌, ◌-◌, ◌*◌, ◌/◌, ◌%◌, ◌^◌, bit_and, bit_or, List, Option, none, some, get_elem?,
  replicate, store, ◌==◌, if◌then◌else◌, Bool, true, false,
}
use first_kernel.Base.Partial.{◌>>=◌}

-- `PMM_BLOCK`, the number of frames, and `PMM_BLOCK_SIZE`, the bytes of one.
abbrev pub pmm_block : ℕ
pmm_block = 4096

abbrev pub pmm_block_size : ℕ
pmm_block_size = 4096

-- `memory_bitmap`
abbrev pub Bitmap : Type 0
Bitmap = List ℕ

-- `1 << (bit % 32)`
abbrev pub mask : ℕ → ℕ
mask n = 2 ^ (n % 32)

unfoldable pub pmm_set_bit : Bitmap → ℕ → Option Bitmap
pmm_set_bit bitmap n = do
  word ← get_elem? bitmap (n / 32)
  store bitmap (n / 32) (bit_or word (mask n))

unfoldable pub pmm_clear_bit : Bitmap → ℕ → Option Bitmap
pmm_clear_bit bitmap n = do
  word ← get_elem? bitmap (n / 32)
  store bitmap (n / 32) (bit_and word (2 ^ 32 - 1 - mask n))

unfoldable pub pmm_test_bit : Bitmap → ℕ → Option ℕ
pmm_test_bit bitmap n = do word ← get_elem? bitmap (n / 32); some (bit_and word (mask n))

-- The second loop of `init_pmm`, with `left` rounds to go.
unfoldable pub reserve : ℕ → ℕ → Bitmap → Option Bitmap
reserve zero i bitmap = some bitmap
reserve (suc left) i bitmap = do bitmap' ← pmm_set_bit bitmap i; reserve left (i + 1) bitmap'

unfoldable pub init_pmm : Option Bitmap
init_pmm = reserve 256 0 (replicate (pmm_block / 32) 0)

-- The loop of `pmm_alloc_frame` at `n`, with `left` rounds to go. The address 0 means that no frame
-- is free.
unfoldable pub alloc_from : ℕ → ℕ → Bitmap → Option (Bitmap × ℕ)
alloc_from zero n bitmap = some (bitmap, 0)
alloc_from (suc left) n bitmap = do
  taken ← pmm_test_bit bitmap n
  elim (taken == 0) [
    | true ↦ do bitmap' ← pmm_set_bit bitmap n; some (bitmap', n * pmm_block_size)
    | false ↦ alloc_from left (n + 1) bitmap
  ]

unfoldable pub pmm_alloc_frame : Bitmap → Option (Bitmap × ℕ)
pmm_alloc_frame bitmap = alloc_from pmm_block 0 bitmap

unfoldable pub pmm_free_frame : Bitmap → ℕ → Option Bitmap
pmm_free_frame bitmap addr = pmm_clear_bit bitmap (addr / pmm_block_size)
