-- ===== src/Fat16/Examples.antt =====
-- A disk that holds one file of two clusters: the deletion of it, and the table's functions, at
-- concrete inputs.
use first_kernel.Base.{
  ℕ, ◌≡◌, refl, List, [], ◌∷◌, ◌++◌, some, length, get_or, replicate, All, arith, inl, inr,
  if◌then◌else◌, ◌==◌, Bool-cases, Bool, true, ◌&&◌, ◌||◌, ltb, leb,
}
use first_kernel.Base.Text.{codes, c_string}
use first_kernel.CString.{strlen}
use first_kernel.Fat16.Layout.{words, entries, split_entries, cluster_low}
use first_kernel.Fat16.Views.{all_bytes, all_bytes-IsByte}
use first_kernel.Fat16.Volume.{Volume, directory_sector, read_current_directory}
use first_kernel.Fat16.Table.{IsVolume, fat}
use first_kernel.Fat16.Chains.{Chain}
use first_kernel.Fat16.Release.{StaysInside, release_chain-ends}
use first_kernel.Fat16.Placement.{IsReady}
use first_kernel.Fat16.Directory.{pad_name, pad_from, find_entry, is_match}
use first_kernel.Fat16.Stored.{here}
use first_kernel.Fat16.Removed.{Removed, remove_file-Removed}
use first_kernel.Fat16.Files.{say_name, remove_file, release_chain}

abbrev zeros : ℕ → List ℕ
zeros n = replicate n 0

-- Cluster 2 leads to 3, and 3 is the last.
abbrev table_sector : List ℕ
table_sector = 0 ∷ 0 ∷ 0 ∷ 0 ∷ 3 ∷ 0 ∷ 255 ∷ 255 ∷ zeros 504

abbrev hello_name : List ℕ
hello_name = 72 ∷ 69 ∷ 76 ∷ 76 ∷ 79 ∷ 32 ∷ 32 ∷ 32 ∷ []

abbrev root_sector : List ℕ
root_sector =
    72
    ∷ 69
    ∷ 76
    ∷ 76
    ∷ 79
    ∷ 32
    ∷ 32
    ∷ 32
    ∷ 84
    ∷ 88
    ∷ 84
    ∷ 32
    ∷ 0
    ∷ 0
    ∷ 0
    ∷ 0
    ∷ 0
    ∷ 0
    ∷ 0
    ∷ 0
    ∷ 0
    ∷ 0
    ∷ 0
    ∷ 0
    ∷ 0
    ∷ 0
    ∷ 2
    ∷ 0
    ∷ 0
    ∷ 3
    ∷ 0
    ∷ 0
    ∷ zeros 480

abbrev disk : Volume
disk = record {
  sectors = λ k. if k == 50 then table_sector else if k == 68 then root_sector else zeros 512;
  current_dir_cluster = 0;
  console = [];
}

disk-full : (k : ℕ) → length (disk.sectors k) ≡ 512
disk-full k = elim (Bool-cases (k == 50)) [
  | inl e ↦ rw e refl
  | inr e ↦ rw e (elim (Bool-cases (k == 68)) [ inl e' ↦ rw e' refl | inr e' ↦ rw e' refl ])
]

disk-bytes : (k : ℕ) → all_bytes (disk.sectors k) ≡ true
disk-bytes k = elim (Bool-cases (k == 50)) [
  | inl e ↦ rw e refl
  | inr e ↦ rw e (elim (Bool-cases (k == 68)) [ inl e' ↦ rw e' refl | inr e' ↦ rw e' refl ])
]

disk-IsVolume : IsVolume disk
disk-IsVolume = record {
  full = disk-full;
  bytes = λ k. all_bytes-IsByte (disk.sectors k) (disk-bytes k);
}

disk-IsReady : IsReady disk
disk-IsReady = record { valid = disk-IsVolume; home = inl refl }

pads : pad_name (codes "HELLO" ++ 0 ∷ []) ≡ some hello_name
unfolding pad_name pad_from strlen
pads = refl

found : find_entry hello_name 0 (here disk) ≡ some 0
unfolding find_entry read_current_directory directory_sector entries split_entries is_match
found = refl

chain : Chain (fat disk) (cluster_low (get_or (here disk) 0 [])) (2 ∷ 3 ∷ [])
unfolding words read_current_directory directory_sector entries split_entries
chain = (refl, refl, omega arith, (refl, refl, omega arith, refl))

remove_file-Removed_example :
    (v' : Volume) × (remove_file (c_string "HELLO") disk
      ≡ some (say_name (codes "file or directory '") (c_string "HELLO") (codes "' deleted.\n") v'))
    × Removed 0 (2 ∷ 3 ∷ []) disk v'
remove_file-Removed_example =
    remove_file-Removed (2 ∷ 3 ∷ []) (c_string "HELLO") hello_name disk 0 disk-IsReady pads found
      chain

abbrev all_inside : List ℕ → Bool
all_inside [] = true
all_inside (w ∷ ws) = (ltb w 256 || leb 0xFFF8 w) && all_inside ws

all_inside-StaysInside : (ws : List ℕ) → all_inside ws ≡ true → All StaysInside ws
all_inside-StaysInside [] h = tt
all_inside-StaysInside (w ∷ ws) h = (ground arith, all_inside-StaysInside ws (ground arith))

disk-StaysInside : All StaysInside (fat disk)
unfolding words
disk-StaysInside = all_inside-StaysInside (fat disk) refl

release_chain-ends_example : (v' : Volume) × (release_chain 2 disk ≡ some v')
release_chain-ends_example =
    release_chain-ends disk 2 disk-IsVolume disk-StaysInside (inl (omega arith))
