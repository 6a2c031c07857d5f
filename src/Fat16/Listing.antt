-- ===== src/Fat16/Listing.antt =====
-- The rest of fs/fat16.c on the disk alone: the listing of a directory, the boot sector's data, and
-- the file that is made for a test.
use first_kernel.Base.{
  ℕ, ◌+◌, ◌*◌, ◌^◌, List, [], ◌∷◌, ◌++◌, Option, none, some, get_or, set, store, take, drop,
  replicate, ◌==◌, if◌then◌else◌, true, false,
}
use first_kernel.Base.Partial.{◌>>=◌}
use first_kernel.Base.Text.{codes, c_string}
use first_kernel.CString.{itoa}
use first_kernel.Fat16.Layout.{
  DirEntry, entries, name, attributes, size, words, unwords, set_size, set_attributes,
  set_cluster_low,
}
use first_kernel.Fat16.Volume.{
  Volume, read_sector, write_sector, say, c_text, read_current_directory,
}
use first_kernel.Fat16.Files.{fill_name}

-- `print` of a `char` array.
abbrev pub say_text : List ℕ → Volume → Volume
say_text text v = say (c_text text) v

-- `itoa(n, str_num)` and `print(str_num)`, with an array of ten bytes.
unfoldable pub say_number : ℕ → Volume → Option Volume
say_number n v = do str_num ← itoa n (replicate 10 0); some (say_text str_num v)

-- `filename`, a copy of the name with a terminator, and `ext`.
abbrev pub name_text : DirEntry → List ℕ
name_text e = take 8 e ++ 0 ∷ []

abbrev pub ext_text : DirEntry → List ℕ
ext_text e = take 3 (drop 8 e) ++ 0 ∷ []

unfoldable pub list_entry : DirEntry → Volume → Option Volume
list_entry e v = elim (attributes e == 0x10) [
  | true ↦ some (say (codes "\n") (say_text (name_text e) (say (codes "[DIR] ") v)))
  | false ↦ do
    let v1 = say_text (name_text e) (say (codes "File: ") v)
    let v2 = say_text (ext_text e) (say (codes ".") v1)
    v3 ← say_number (size e) (say (codes " (") v2)
    some (say (codes " bytes)\n") v3)
]

-- The loop of `list_files`, with the count `files_found`.
unfoldable pub list_from : List DirEntry → ℕ → Volume → Option (Volume × ℕ)
list_from [] files_found v = some (v, files_found)
list_from (e ∷ es) files_found v = elim (name e 0 == 0x00) [
  | true ↦ some (v, files_found)
  | false ↦ elim (name e 0 == 0xE5) [
    | true ↦ list_from es files_found v
    | false ↦ do v' ← list_entry e v; list_from es (files_found + 1) v'
  ]
]

unfoldable pub list_files : Volume → Option Volume
list_files v = do
  let title =
      if v.current_dir_cluster == 0
      then codes "\n--- ROOT DIR ---\n"
      else codes "\n--- FOLDER DIR ---\n"
  (v', files_found) ← list_from (entries (read_current_directory v)) 0 (say title v)
  some (
      if files_found == 0
      then say (codes "---------------\n") (say (codes "Files not found\n") v')
      else v')

-- The fields of `bpb_t` that are read, at their offsets in the packed struct.
abbrev pub oem_name : List ℕ → List ℕ
oem_name bpb = take 8 (drop 3 bpb) ++ 0 ∷ []

abbrev pub system_id : List ℕ → List ℕ
system_id bpb = take 8 (drop 54 bpb) ++ 0 ∷ []

abbrev pub bytes_per_sector : List ℕ → ℕ
bytes_per_sector bpb = get_or bpb 12 0 * 2 ^ 8 + get_or bpb 11 0

abbrev pub total_sectors : List ℕ → ℕ
total_sectors bpb = get_or bpb 20 0 * 2 ^ 8 + get_or bpb 19 0

unfoldable pub read_fs_info : Volume → Option Volume
read_fs_info v = do
  let bpb = read_sector 0 v
  let v1 = say (codes "\n--- DISC ANALYSIS ---\n") v
  let v2 = say (codes "\n") (say_text (oem_name bpb) (say (codes "Manufacturer / OS : ") v1))
  let v3 = say (codes "\n") (say_text (system_id bpb) (say (codes "Type of format : ") v2))
  v4 ← say_number (bytes_per_sector bpb) (say (codes "Bytes x Sector  : ") v3)
  v5 ← say_number (total_sectors bpb) (say (codes "Total Sectors: ") (say (codes "\n") v4))
  some (say (codes "--------------------------\n") (say (codes "\n") v5))

-- `for (i …; txt[i] != '\0'; …) part[i] = txt[i]`
unfoldable pub copy_text : List ℕ → ℕ → List ℕ → Option (List ℕ)
copy_text [] i part = none
copy_text (c ∷ txt) i part = elim (c == 0) [
  | true ↦ some part
  | false ↦ do part' ← store part i c; copy_text txt (i + 1) part'
]

abbrev pub txt1 : List ℕ
txt1 =
    codes
      ">> READING CLUSTER 2... this is part 1. the disk will review the fat table and jump to the next sector...\n"

abbrev pub txt2 : List ℕ
txt2 = codes ">> READING CLUSTER 3... this is part 2! the Kernel just follow the map successfuly.\n"

-- `fake_name`, of ten characters, and its terminator.
abbrev pub fake_name : List ℕ
fake_name = c_string "SECRET TXT"

unfoldable pub create_dummy_file : Volume → Option Volume
create_dummy_file v = do
  entry ← fill_name 11 0 fake_name (replicate 32 0)
  let entry' = set_cluster_low (set_attributes (set_size entry 1000) 0x20) 2
  let v1 = write_sector 68 (entry' ++ replicate 480 0) v
  part1 ← copy_text (txt1 ++ 0 ∷ []) 0 (replicate 512 0)
  let v2 = write_sector 100 part1 v1
  part2 ← copy_text (txt2 ++ 0 ∷ []) 0 (replicate 512 0)
  let v3 = write_sector 101 part2 v2
  let fat_entries = words (read_sector 50 v3)
  let v4 = write_sector 50 (unwords (set (set fat_entries 2 3) 3 0xFFFF)) v3
  some (say (codes "Fake file successfully injected into disk.\n") v4)
