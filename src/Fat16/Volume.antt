-- ===== src/Fat16/Volume.antt =====
-- The state of fs/fat16.c, its sectors and its clusters.
use first_kernel.Base.{
  ℕ, zero, suc, ◌+◌, ◌-◌, ◌*◌, ◌/◌, ◌%◌, ◌^◌, List, Option, some, bit_or, get_elem?, set, ltb, leb,
  ◌==◌, if◌then◌else◌, Bool, true, false, ◌&&◌,
}
use first_kernel.Base.Partial.{◌>>=◌}
use first_kernel.Base.Text.{Console, print}
unfoldable pub use first_kernel.Base.Text.{c_text}
use first_kernel.Fat16.Layout.{words, unwords}

-- The disk as sectors of 512 bytes by their number; the global `current_dir_cluster`; the messages
-- printed.
pub record Volume : Type 0 where
  pub sectors : ℕ → List ℕ
  pub current_dir_cluster : ℕ
  pub console : Console

-- What `read_sector` and `write_sector` of drivers/disk.c promise.
abbrev pub read_sector : ℕ → Volume → List ℕ
read_sector lba v = v.sectors lba

abbrev pub write_sector : ℕ → List ℕ → Volume → Volume
write_sector lba buffer v = record v { sectors = λ k. if lba == k then buffer else v.sectors k }

abbrev pub say : List ℕ → Volume → Volume
say message v = record v { console = print message v.console }

unfoldable pub cluster_to_sector : ℕ → ℕ
cluster_to_sector cluster = 100 + cluster - 2

unfoldable pub directory_sector : Volume → ℕ
directory_sector v =
    if v.current_dir_cluster == 0 then 68 else cluster_to_sector v.current_dir_cluster

unfoldable pub read_current_directory : Volume → List ℕ
read_current_directory v = read_sector (directory_sector v) v

unfoldable pub write_current_directory : List ℕ → Volume → Volume
write_current_directory buffer v = write_sector (directory_sector v) buffer v

unfoldable pub get_next_cluster : Volume → ℕ → Option ℕ
get_next_cluster v current_cluster = do
  let fat_offset = current_cluster * 2
  let buffer = read_sector (50 + fat_offset / 512) v
  low ← get_elem? buffer (fat_offset % 512)
  high ← get_elem? buffer (fat_offset % 512 + 1)
  some (bit_or (high * 2 ^ 8) low % 2 ^ 16)

-- The loop of `find_free_cluster` at `i`, with `left` rounds to go.
unfoldable pub free_from : ℕ → ℕ → List ℕ → Option ℕ
free_from zero i fat_entries = some 0
free_from (suc left) i fat_entries = do
  entry ← get_elem? fat_entries i
  elim (entry == 0) [ true ↦ some i | false ↦ free_from left (i + 1) fat_entries ]

-- 0 means that no cluster from 2 to 255 is free.
unfoldable pub find_free_cluster : Volume → Option ℕ
find_free_cluster v = free_from 254 2 (words (read_sector 50 v))

-- `fat_entries[cluster] = value` on the first sector of the table, read and written back.
unfoldable pub set_fat_entry : ℕ → ℕ → Volume → Option Volume
set_fat_entry cluster value v = do
  let fat_entries = words (read_sector 50 v)
  old ← get_elem? fat_entries cluster
  some (write_sector 50 (unwords (set fat_entries cluster value)) v)

-- `cluster >= 2 && cluster < 0xFFF8`
abbrev pub in_chain : ℕ → Bool
in_chain cluster = leb 2 cluster && ltb cluster 0xFFF8
