-- ===== src/Kernel/Boot.antt =====
-- The state that the start of the kernel leaves.
use first_kernel.Base.{
  ℕ, suc, ◌*◌, ◌≤◌, ◌≡◌, ◌⊎◌, inl, inr, refl, ap, ◌∙◌, Option, some, length, ltb, if◌then◌else◌,
  arith,
}
use first_kernel.Pmm.{Bitmap, pmm_alloc_frame, pmm_block_size}
use first_kernel.Pmm.Bitmap.{IsBitmap, frame_bit}
use first_kernel.Pmm.Frames.{Granted, Refused, init_pmm_lem, pmm_alloc_frame_lem}
use first_kernel.Heap.{Heap, init_heap, kmalloc}
use first_kernel.Heap.Boot.{OneBlock, init_heap-OneBlock, boot_request_too_large}
use first_kernel.Task.{Scheduler, max_task}
use first_kernel.Task.Table.{IsValid, init_multitasking-IsValid}
use first_kernel.Kernel.{Kernel, main}

-- The first frame above the first MiB is the heap, one free block behind its header; the frames below
-- are in use and no other; task 0 runs; and the kernel's stack starts at address 4096.
pub record Booted (result : Option Kernel) : Type 0 where
  pub kernel : Kernel
  pub returns : result ≡ some kernel
  pub frames : (m : ℕ) → frame_bit kernel.bitmap m ≡ (if ltb m 257 then 1 else 0)
  pub heap : OneBlock 0x100000 4084 1 kernel.heap
  pub tasks : IsValid kernel.scheduler
  pub one_task : kernel.scheduler.task_count ≡ 1
  pub stack : kernel.kernel_stack ≡ 4096

abbrev Fresh : Bitmap → Type 0
Fresh bitmap = (m : ℕ) → frame_bit bitmap m ≡ (if ltb m 256 then 1 else 0)

-- The first allocation gets frame 256.
first_frame :
    (bitmap : Bitmap)
    → IsBitmap bitmap
    → Fresh bitmap
    → (bitmap' : Bitmap) × (pmm_alloc_frame bitmap ≡ some (bitmap', 0x100000))
      × ((m : ℕ) → frame_bit bitmap' m ≡ (if ltb m 257 then 1 else 0))
first_frame bitmap shape fresh = granted (pmm_alloc_frame_lem bitmap shape)
  where
    granted :
        (Granted 0 bitmap (pmm_alloc_frame bitmap) ⊎ Refused 0 bitmap (pmm_alloc_frame bitmap))
        → (bitmap' : Bitmap) × (pmm_alloc_frame bitmap ≡ some (bitmap', 0x100000))
          × ((m : ℕ) → frame_bit bitmap' m ≡ (if ltb m 257 then 1 else 0))
    granted (inl g) =
        let low : 256 ≤ g.frame = ground (arith, g.free, fresh g.frame) in
        let high : g.frame ≤ 256 = ground (arith, g.first 256, fresh 256) in
        let at : g.frame ≡ 256 = omega arith in
        (
          g.after,
          g.returns ∙ ap (λ (n : ℕ). some (g.after, n * pmm_block_size)) at,
          λ m. ground (arith, at, g.marks.marked m, fresh m),
        )
    granted (inr r) = absurd (ground (arith, r.full 256, fresh 256))

-- Whatever the memory of the heap and the table of tasks held before, `main` composes the three parts
-- without a fault, and the stack that it gives the kernel is not memory of the heap: the heap is too
-- small for it, `kmalloc` returns 0, and the stack starts at address 4096.
pub main-Booted :
    (fuel : ℕ) (heap : Heap) (tasks : Scheduler)
    → length tasks.tasks ≡ max_task
    → Booted (main (suc (suc fuel)) heap tasks)
unfolding main
main-Booted fuel heap tasks three =
    let (bitmap, r1, shape, fresh) = init_pmm_lem in
    let (bitmap', r2, used) = first_frame bitmap shape fresh in
    let (scheduler, r4, valid, one) = init_multitasking-IsValid tasks three in
    let h = init_heap 0x100000 4096 heap in
    let r3 : kmalloc (suc (suc fuel)) 4096 h ≡ some (h, 0) =
      boot_request_too_large 0x100000 4096 (omega arith) (omega arith) (omega arith) (omega arith)
        fuel 4096 heap (omega arith) in
    record {
      kernel = record { bitmap = bitmap'; heap = h; scheduler = scheduler; kernel_stack = 4096 };
      returns = rw (r1, r2, r3, r4) refl;
      frames = used;
      heap =
          init_heap-OneBlock 0x100000 4096 (omega arith) (omega arith) (omega arith) (omega arith)
            heap;
      tasks = valid;
      one_task = one;
      stack = refl;
    }
