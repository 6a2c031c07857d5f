-- ===== src/Cpu/Paging.antt =====
-- cpu/paging.c: one page table for the first four MiB.
use first_kernel.Base.{ℕ, zero, suc, ◌+◌, ◌*◌, List, Option, some, bit_or, store}
use first_kernel.Base.Partial.{◌>>=◌}

-- The two arrays of 1024 entries, and the address that is loaded into CR3.
pub record Paging : Type 0 where
  pub page_directory : List ℕ
  pub first_page_table : List ℕ

-- `for (i …) array[i] = value(i)` from `i` on, with `left` rounds to go.
unfoldable pub fill_from : (ℕ → ℕ) → ℕ → ℕ → List ℕ → Option (List ℕ)
fill_from value zero i array = some array
fill_from value (suc left) i array = do
  array' ← store array i (value i)
  fill_from value left (i + 1) array'

abbrev pub table_entry : ℕ → ℕ
table_entry i = bit_or (i * 4096) 3

-- `table` is the address of `first_page_table`. The instructions that switch paging on follow.
unfoldable pub init_paging : ℕ → Paging → Option Paging
init_paging table p = do
  first_page_table ← fill_from table_entry 1024 0 p.first_page_table
  directory ← store p.page_directory 0 (bit_or table 3)
  page_directory ← fill_from (λ i. 0) 1023 1 directory
  some (record { page_directory = page_directory; first_page_table = first_page_table })
