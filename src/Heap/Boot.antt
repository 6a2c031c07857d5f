-- ===== src/Heap/Boot.antt =====
-- The heap that kernel/kernel.c makes, a list of one block.
use first_kernel.Base.{ℕ, suc, ◌+◌, ◌-◌, ◌^◌, ◌≤◌, ◌<◌, ◌≡◌, refl, ap, ◌≢◌, some, arith}
use first_kernel.Heap.{header_size, Heap, update, sub_u32, search_from, init_heap, kmalloc, kfree}

-- The list is the one block at `start`, of `size` bytes.
pub record OneBlock (start size free : ℕ) (heap : Heap) : Type 0 where
  pub head : heap.free_list ≡ start
  pub block : heap.block_at start ≡ some (record { size = size; free = free; next = 0 })

module _ (start total : ℕ) (mapped : start ≢ 0) (room : header_size ≤ total)
    (small : total < 2 ^ 32) (inside : start + header_size < 2 ^ 32) where
  pub init_heap-OneBlock :
      (heap : Heap) → OneBlock start (total - 12) 1 (init_heap start total heap)
  unfolding init_heap
  init_heap-OneBlock heap = record { head = refl; block = ground arith }

  -- A request of at most the block's size takes the whole block.
  pub kmalloc-free :
      (fuel size : ℕ) {heap : Heap}
      → OneBlock start (total - 12) 1 heap
      → size ≤ total - 12
      → (heap' : Heap) × (kmalloc (suc fuel) size heap ≡ some (heap', start + 12))
        × OneBlock start (total - 12) 0 heap'
  unfolding kmalloc search_from
  kmalloc-free fuel size {heap} o h = (
    record heap {
      block_at = update heap.block_at start (record { size = total - 12; free = 0; next = 0 });
    },
    ground (arith, o.head, o.block),
    record { head = o.head; block = ground arith },
  )

  -- A larger request is refused.
  pub kmalloc-large :
      (fuel size free : ℕ) {heap : Heap}
      → OneBlock start (total - 12) free heap
      → total - 12 < size
      → kmalloc (suc (suc fuel)) size heap ≡ some (heap, 0)
  unfolding kmalloc search_from
  kmalloc-large fuel size free {heap} o h = ground (arith, o.head, o.block)

  pub kmalloc-used :
      (fuel size : ℕ) {heap : Heap}
      → OneBlock start (total - 12) 0 heap
      → kmalloc (suc (suc fuel)) size heap ≡ some (heap, 0)
  unfolding kmalloc search_from
  kmalloc-used fuel size {heap} o = ground (arith, o.head, o.block)

  pub kfree-used :
      (free : ℕ) {heap : Heap}
      → OneBlock start (total - 12) free heap
      → (heap' : Heap) × (kfree (start + 12) heap ≡ some heap')
        × OneBlock start (total - 12) 1 heap'
  unfolding kfree
  kfree-used free {heap} o = (
    record heap {
      block_at = update heap.block_at start (record { size = total - 12; free = 1; next = 0 });
    },
    ground (arith, ap heap.block_at back, o.block, back),
    record { head = o.head; block = ground arith },
  )
    where
      back : sub_u32 (start + 12) header_size ≡ start
      back = omega arith

  -- The heap that `init_heap` makes at an address other than 0, of at least a header's size, serves
  -- one allocation at a time: a request that fits gets the block, a second one gets 0 and changes
  -- nothing, and once the block is freed that request gets it.
  pub alloc_free_cycle :
      (fuel n m : ℕ) (heap : Heap)
      → n ≤ total - 12
      → m ≤ total - 12
      → (h1 h2 h3 : Heap) × (kmalloc (suc (suc fuel)) n (init_heap start total heap)
          ≡ some (h1, start + 12))
        × (kmalloc (suc (suc fuel)) m h1 ≡ some (h1, 0))
        × (kfree (start + 12) h1 ≡ some h2)
        × (kmalloc (suc (suc fuel)) m h2 ≡ some (h3, start + 12))
  alloc_free_cycle fuel n m heap hn hm =
      let (h1, r1, o1) = kmalloc-free (suc fuel) n (init_heap-OneBlock heap) hn in
      let (h2, r2, o2) = kfree-used 0 o1 in
      let (h3, r3, o3) = kmalloc-free (suc fuel) m o2 hm in
      (h1, h2, h3, r1, kmalloc-used fuel m o1, r2, r3)

  -- On the heap that `init_heap` has just made at an address other than 0, of at least a header's
  -- size, a request for more than its one block holds gets 0 and changes nothing.
  pub boot_request_too_large :
      (fuel n : ℕ) (heap : Heap)
      → total - 12 < n
      → kmalloc (suc (suc fuel)) n (init_heap start total heap)
        ≡ some (init_heap start total heap, 0)
  boot_request_too_large fuel n heap h = kmalloc-large fuel n 1 (init_heap-OneBlock heap) h
