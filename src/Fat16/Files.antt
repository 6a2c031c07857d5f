-- ===== src/Fat16/Files.antt =====
-- The operations of fs/fat16.c on files and directories.
use first_kernel.Base.{
  ℕ, zero, suc, ◌+◌, ◌-◌, List, [], ◌∷◌, Option, none, some, get_or, get_elem?, set, replicate, ltb,
  leb, ◌==◌, if◌then◌else◌, true, false,
}
use first_kernel.Base.Partial.{◌>>=◌}
use first_kernel.Base.Text.{codes, c_string}
use first_kernel.CString.{strlen, strcmp}
use first_kernel.Fat16.Layout.{
  DirEntry, entries, join_entries, words, unwords, attributes, cluster_low, set_name, set_ext,
  set_attributes, set_cluster_low, set_size,
}
use first_kernel.Fat16.Volume.{
  Volume, read_sector, write_sector, say, c_text, cluster_to_sector, read_current_directory,
  write_current_directory, get_next_cluster, find_free_cluster, set_fat_entry, in_chain,
}
use first_kernel.Fat16.Directory.{pad_name, find_entry, find_free_dir_entry}

-- `print(name)` between two texts.
abbrev pub say_name : List ℕ → List ℕ → List ℕ → Volume → Volume
say_name before filename after v = say after (say (c_text filename) (say before v))

-- The `while` of `cat_file`. Fuel that runs out is `none`: a chain of clusters that comes back to
-- itself is followed forever.
unfoldable pub print_chain : ℕ → ℕ → Volume → Option Volume
print_chain zero cluster v = none
print_chain (suc fuel) cluster v = elim (in_chain cluster) [
  | true ↦ do
    let file_data = set (read_sector (cluster_to_sector cluster) v) 511 0
    let v' = say (c_text file_data) v
    next ← get_next_cluster v' cluster
    print_chain fuel next v'
  | false ↦ some v
]

-- The first argument is the fuel for the chain.
unfoldable pub cat_file : ℕ → List ℕ → Volume → Option Volume
cat_file fuel filename v = do
  let es = entries (read_current_directory v)
  padded_name ← pad_name filename
  elim (find_entry padded_name 0 es) [
    | none ↦ some (say (codes "Error: File not found.\n") v)
    | some i ↦ do
      v' ← print_chain fuel (cluster_low (get_or es i [])) (say (codes "\n") v)
      some (say (codes "\n\n") v')
  ]

-- The loop of `write_file` that fills name and extension from `filename`.
unfoldable pub fill_name : ℕ → ℕ → List ℕ → DirEntry → Option DirEntry
fill_name zero i filename e = some e
fill_name (suc left) i filename e = do
  c ← get_elem? filename i
  fill_name left (i + 1) filename (if ltb i 8 then set_name e i c else set_ext e (i - 8) c)

-- The loop that copies `content`, which goes on with the list, into the sector's buffer.
unfoldable pub copy_content : List ℕ → ℕ → List ℕ → Option (List ℕ)
copy_content [] i data_buffer = none
copy_content (c ∷ content) i data_buffer = elim (c == 0) [
  | true ↦ some data_buffer
  | false ↦ elim (ltb i 511) [
    | true ↦ copy_content content (i + 1) (set data_buffer i c)
    | false ↦ some data_buffer
  ]
]

-- The entry of a new file: size, attributes and first cluster.
abbrev pub file_entry : ℕ → ℕ → DirEntry → DirEntry
file_entry len cluster e = set_cluster_low (set_attributes (set_size e len) 0x20) cluster

-- From the free entry on: the directory, the data, the table and the message, in this order.
unfoldable pub store_file : ℕ → ℕ → List ℕ → List ℕ → Volume → Option Volume
store_file free_cluster free_entry filename content v = do
  let es = entries (read_current_directory v)
  e ← fill_name 11 0 filename (get_or es free_entry [])
  len ← strlen content
  let v1 =
      write_current_directory (join_entries (set es free_entry (file_entry len free_cluster e))) v
  data_buffer ← copy_content content 0 (replicate 512 0)
  let v2 = write_sector (cluster_to_sector free_cluster) data_buffer v1
  v3 ← set_fat_entry free_cluster 0xFFFF v2
  some (say_name (codes "file '") filename (codes "' save successfuly.\n") v3)

unfoldable pub write_file : List ℕ → List ℕ → Volume → Option Volume
write_file filename content v = do
  free_cluster ← find_free_cluster v
  elim (free_cluster == 0) [
    | true ↦ some (say (codes "Error: disk is full\n") v)
    | false ↦ elim (find_free_dir_entry 0 (entries (read_current_directory v))) [
      | none ↦ some (say (codes "Error: cannot create more file within the main root\n") v)
      | some free_entry ↦ store_file free_cluster free_entry filename content v
    ]
  ]

-- The loop of `make_directory` that fills name and extension.
unfoldable pub fill_dirname : ℕ → ℕ → ℕ → List ℕ → DirEntry → DirEntry
fill_dirname zero i len dirname e = e
fill_dirname (suc left) i len dirname e = fill_dirname left (i + 1) len dirname (
    if ltb i 8
    then set_name e i (if ltb i len then get_or dirname i 0 else b' ')
    else set_ext e (i - 8) b' ')

abbrev pub directory_entry : ℕ → DirEntry → DirEntry
directory_entry cluster e = set_cluster_low (set_attributes (set_size e 0) 0x10) cluster

unfoldable pub store_directory : ℕ → ℕ → List ℕ → Volume → Option Volume
store_directory free_cluster free_entry dirname v = do
  let es = entries (read_current_directory v)
  len ← strlen dirname
  let e = directory_entry free_cluster (fill_dirname 11 0 len dirname (get_or es free_entry []))
  let v1 = write_current_directory (join_entries (set es free_entry e)) v
  let v2 = write_sector (cluster_to_sector free_cluster) (replicate 512 0) v1
  v3 ← set_fat_entry free_cluster 0xFFFF v2
  some (say_name (codes "Directory '") dirname (codes "' successfuly create\n") v3)

unfoldable pub make_directory : List ℕ → Volume → Option Volume
make_directory dirname v = do
  free_cluster ← find_free_cluster v
  elim (free_cluster == 0) [
    | true ↦ some (say (codes "Error: disk is full\n") v)
    | false ↦ elim (find_free_dir_entry 0 (entries (read_current_directory v))) [
      | none ↦ some (say (codes "Error: root dir is full\n") v)
      | some free_entry ↦ store_directory free_cluster free_entry dirname v
    ]
  ]

-- What `change_directory` does with the entry that was found.
unfoldable pub enter : List ℕ → DirEntry → Volume → Volume
enter dirname e v =
    if attributes e == 0x10
    then say_name (codes "Entering the directory '") dirname (codes "'\n")
        (record v { current_dir_cluster = cluster_low e })
    else say_name (codes "Error: '") dirname (codes "' this is a file not a directory\n") v

unfoldable pub search_directory : List ℕ → Volume → Option Volume
search_directory dirname v = do
  let es = entries (read_current_directory v)
  padded_name ← pad_name dirname
  elim (find_entry padded_name 0 es) [
    | none ↦ some (say (codes "Error: directory not found\n") v)
    | some i ↦ some (enter dirname (get_or es i []) v)
  ]

abbrev pub to_root : Volume → Volume
to_root v = say (codes "current position: root directory\n") (record v { current_dir_cluster = 0 })

unfoldable pub change_directory : List ℕ → Volume → Option Volume
change_directory dirname v = do
  slash ← strcmp dirname (c_string "/")
  elim (slash == 0) [
    | true ↦ some (to_root v)
    | false ↦ do
      dots ← strcmp dirname (c_string "..")
      elim (dots == 0) [ true ↦ some (to_root v) | false ↦ search_directory dirname v ]
  ]

-- The `while` of `remove_file`: the chain's entries are cleared one after another. An entry beyond
-- the sector that was read is a fault, `none`, and so is fuel that runs out.
unfoldable pub clear_chain : ℕ → ℕ → List ℕ → Option (List ℕ)
clear_chain zero current fat_entries = none
clear_chain (suc fuel) current fat_entries = elim (in_chain current) [
  | true ↦ do
    next_cluster ← get_elem? fat_entries current
    clear_chain fuel next_cluster (set fat_entries current 0x0000)
  | false ↦ some fat_entries
]

-- `if (start_cluster >= 2) { … }`. The 256 entries of a sector are cleared in at most 257 rounds.
unfoldable pub release_chain : ℕ → Volume → Option Volume
release_chain start_cluster v = elim (leb 2 start_cluster) [
  | true ↦ do
    fat_entries ← clear_chain 258 start_cluster (words (read_sector 50 v))
    some (write_sector 50 (unwords fat_entries) v)
  | false ↦ some v
]

unfoldable pub remove_file : List ℕ → Volume → Option Volume
remove_file filename v = do
  let es = entries (read_current_directory v)
  padded_name ← pad_name filename
  elim (find_entry padded_name 0 es) [
    | none ↦ some (say (codes "Error: file not fount.\n") v)
    | some i ↦ do
      let e = get_or es i []
      let v1 = write_current_directory (join_entries (set es i (set_name e 0 0xE5))) v
      v2 ← release_chain (cluster_low e) v1
      some (say_name (codes "file or directory '") filename (codes "' deleted.\n") v2)
  ]
