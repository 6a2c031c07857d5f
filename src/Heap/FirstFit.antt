-- ===== src/Heap/FirstFit.antt =====
-- `kmalloc` against first fit on the sequence of the blocks.
use first_kernel.Base.{
  ℕ, zero, suc, ◌<◌, ◌≡◌, ◌≢◌, Option, none, some, ◌==◌, leb, if◌then◌else◌, Bool, false, ◌&&◌,
  List, [], ◌∷◌, arith, length,
}
use first_kernel.Heap.{MemoryBlock, header_size, Heap, update, add_u32, search_from, kmalloc}

-- The list from address `p` on runs through `addrs`, in order, and ends.
abbrev pub Chain : (ℕ → Option MemoryBlock) → ℕ → List ℕ → Type 0
Chain blocks p [] = p ≡ 0
Chain blocks p (a ∷ addrs) =
    (p ≡ a) × (a ≢ 0) × ((b : MemoryBlock) × (blocks a ≡ some b) × Chain blocks b.next addrs)

-- Whether the block at an address can serve a request.
abbrev pub fits : ℕ → Option MemoryBlock → Bool
fits size none = false
fits size (some b) = b.free == 1 && leb size b.size

-- The specification: the first block of the list that can serve the request.
pub first_fit : ℕ → (ℕ → Option MemoryBlock) → List ℕ → Option ℕ
first_fit size blocks [] = none
first_fit size blocks (a ∷ addrs) =
    if fits size (blocks a) then some a else first_fit size blocks addrs

-- What an allocation does with the block that was chosen.
pub take_block : Heap → Option ℕ → Heap × ℕ
take_block heap none = (heap, 0)
take_block heap (some a) = (claim (heap.block_at a), add_u32 a header_size)
  where
    claim : Option MemoryBlock → Heap
    claim none = heap
    claim (some b) = record heap { block_at = update heap.block_at a (record b { free = 0 }) }

search_from_lem :
    (addrs : List ℕ) (fuel current size : ℕ) (heap : Heap)
    → length addrs < fuel
    → Chain heap.block_at current addrs
    → search_from fuel current size heap
      ≡ some (take_block heap (first_fit size heap.block_at addrs))
unfolding search_from take_block first_fit
search_from_lem [] zero current size heap h c = absurd (omega arith)
search_from_lem [] (suc fuel) current size heap h c = ground arith
search_from_lem (a ∷ addrs) zero current size heap h c = absurd (omega arith)
search_from_lem (a ∷ addrs) (suc fuel) current size heap h (same, nonzero, (b, found, rest)) =
    rw (same, found)
      (ground (arith, search_from_lem addrs fuel b.next size heap (omega arith) rest))

-- With more fuel than the list has blocks, `kmalloc` ends without a fault, returns the address
-- behind the header of the first free block that is large enough, and marks that block used; if
-- there is none, it returns 0 and changes nothing.
pub kmalloc-first_fit :
    (addrs : List ℕ) (fuel size : ℕ) (heap : Heap)
    → length addrs < fuel
    → Chain heap.block_at heap.free_list addrs
    → kmalloc fuel size heap ≡ some (take_block heap (first_fit size heap.block_at addrs))
unfolding kmalloc
kmalloc-first_fit addrs fuel size heap h c = search_from_lem addrs fuel heap.free_list size heap h c
