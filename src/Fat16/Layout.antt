-- ===== src/Fat16/Layout.antt =====
-- Sectors as the source casts them: `unsigned short *` views, little-endian, and arrays of
-- `dir_entry_t`, 32 packed bytes each.
use first_kernel.Base.{
  ℕ, zero, suc, ◌+◌, ◌*◌, ◌/◌, ◌%◌, ◌^◌, List, [], ◌∷◌, ◌++◌, get_or, set, take, drop,
}

-- The 256 `unsigned short`s of a sector.
unfoldable pub words : List ℕ → List ℕ
words [] = []
words (lo ∷ []) = []
words (lo ∷ hi ∷ bytes) = (hi * 2 ^ 8 + lo) ∷ words bytes

unfoldable pub unwords : List ℕ → List ℕ
unwords [] = []
unwords (w ∷ ws) = w % 2 ^ 8 ∷ w / 2 ^ 8 % 2 ^ 8 ∷ unwords ws

-- `dir_entry_t`, as its 32 bytes.
abbrev pub DirEntry : Type 0
DirEntry = List ℕ

abbrev pub entry_size : ℕ
entry_size = 32

-- An array of `count` entries.
unfoldable pub split_entries : ℕ → List ℕ → List DirEntry
split_entries zero bytes = []
split_entries (suc count) bytes =
    take entry_size bytes ∷ split_entries count (drop entry_size bytes)

unfoldable pub entries : List ℕ → List DirEntry
entries buffer = split_entries 16 buffer

unfoldable pub join_entries : List DirEntry → List ℕ
join_entries [] = []
join_entries (e ∷ es) = e ++ join_entries es

-- The fields that the source reads, at their offsets in the packed struct.
abbrev pub name : DirEntry → ℕ → ℕ
name e j = get_or e j 0

abbrev pub ext : DirEntry → ℕ → ℕ
ext e j = get_or e (8 + j) 0

abbrev pub attributes : DirEntry → ℕ
attributes e = get_or e 11 0

abbrev pub cluster_low : DirEntry → ℕ
cluster_low e = get_or e 27 0 * 2 ^ 8 + get_or e 26 0

abbrev pub size : DirEntry → ℕ
size e = ((get_or e 31 0 * 2 ^ 8 + get_or e 30 0) * 2 ^ 8 + get_or e 29 0) * 2 ^ 8 + get_or e 28 0

-- The fields that it writes.
abbrev pub set_name : DirEntry → ℕ → ℕ → DirEntry
set_name e j c = set e j c

abbrev pub set_ext : DirEntry → ℕ → ℕ → DirEntry
set_ext e j c = set e (8 + j) c

abbrev pub set_attributes : DirEntry → ℕ → DirEntry
set_attributes e a = set e 11 a

abbrev pub set_cluster_low : DirEntry → ℕ → DirEntry
set_cluster_low e c = set (set e 26 (c % 2 ^ 8)) 27 (c / 2 ^ 8 % 2 ^ 8)

abbrev pub set_size : DirEntry → ℕ → DirEntry
set_size e n =
    set (set (set (set e 28 (n % 2 ^ 8)) 29 (n / 2 ^ 8 % 2 ^ 8)) 30 (n / 2 ^ 16 % 2 ^ 8)) 31
      (n / 2 ^ 24 % 2 ^ 8)
