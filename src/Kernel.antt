-- ===== src/Kernel.antt =====
-- kernel/kernel.c, the start of the kernel: how `main` composes the frame allocator, the heap and the
-- scheduler. What it asks of the hardware in between (the screen, descriptor tables, the timer, the
-- mouse) leaves these alone.
pub mod Boot
pub mod Start
mod Tests
use first_kernel.Base.{ℕ, ◌+◌, ◌%◌, ◌^◌, Option, some}
use first_kernel.Base.Partial.{◌>>=◌}
use first_kernel.Pmm.{Bitmap, init_pmm, pmm_alloc_frame}
use first_kernel.Heap.{Heap, init_heap, kmalloc}
use first_kernel.Task.{Scheduler, init_multitasking}

pub record Kernel : Type 0 where
  pub bitmap : Bitmap
  pub heap : Heap
  pub scheduler : Scheduler
  pub kernel_stack : ℕ

-- The first argument is the fuel of `kmalloc`.
unfoldable pub main : ℕ → Heap → Scheduler → Option Kernel
main fuel heap tasks = do
  bitmap ← init_pmm
  (bitmap', heap_start) ← pmm_alloc_frame bitmap
  (heap', block) ← kmalloc fuel 4096 (init_heap heap_start 4096 heap)
  let kernel_stack = (block + 4096) % 2 ^ 32
  scheduler ← init_multitasking tasks
  some (record {
    bitmap = bitmap';
    heap = heap';
    scheduler = scheduler;
    kernel_stack = kernel_stack;
  })
