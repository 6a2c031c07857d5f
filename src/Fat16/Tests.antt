-- ===== src/Fat16/Tests.antt =====
-- The file system on a blank disk: runs of the operations, and the theorems at concrete inputs.
use first_kernel.Fat16.Listing.{create_dummy_file, txt1, txt2, list_files}
use first_kernel.Fat16.Listed.{IsListable, live, says, title, footer, listing, list_files_lem}
use first_kernel.Fat16.Dummy.{create_dummy_file-cat_file}
use first_kernel.Base.{
  ◌==◌, if◌then◌else◌, ℕ, zero, suc, ◌≡◌, refl, List, [], ◌∷◌, ◌++◌, none, some, get_or, take,
  replicate, All, arith, length-replicate, inl,
}
use first_kernel.Base.Text.{is_plain-IsPlain, codes, c_string}
use first_kernel.CString.{strlen, strcmp}
use first_kernel.Fat16.NewDirectory.{MakeResult, make_directory_lem}
use first_kernel.Fat16.Entered.{Entered, make_directory-change_directory}
use first_kernel.Fat16.Layout.{words, entries, split_entries}
use first_kernel.Fat16.Views.{IsByte}
use first_kernel.Fat16.Volume.{Volume, say, directory_sector, read_current_directory}
use first_kernel.Fat16.Table.{IsVolume, fat}
use first_kernel.Fat16.Placement.{IsReady}
use first_kernel.Fat16.Directory.{pad_name, pad_from, find_entry, is_match}
use first_kernel.Fat16.Search.{Agree, is_match-Agree, NoneFree}
use first_kernel.Fat16.Contents.{IsText}
use first_kernel.Fat16.Stored.{here}
use first_kernel.Fat16.Saved.{WriteResult, write_file_lem}
use first_kernel.Fat16.ReadBack.{write_file-cat_file}
use first_kernel.Fat16.Files.{make_directory, write_file, cat_file}

replicate-IsByte : (n : ℕ) → All IsByte (replicate n 0)
replicate-IsByte zero = tt
replicate-IsByte (suc n) = (omega arith, replicate-IsByte n)

abbrev blank_disk : Volume
blank_disk = record { sectors = λ k. replicate 512 0; current_dir_cluster = 0; console = [] }

blank_disk-IsVolume : IsVolume blank_disk
blank_disk-IsVolume = record {
  full = λ k. length-replicate {A = ℕ} 512 0;
  bytes = λ k. replicate-IsByte 512;
}

blank_disk-IsReady : IsReady blank_disk
blank_disk-IsReady = record { valid = blank_disk-IsVolume; home = inl refl }

abbrev hello_txt : List ℕ
hello_txt = c_string "HELLO   TXT"

abbrev hello : List ℕ
hello = c_string "HELLO"

abbrev hello_padded : List ℕ
hello_padded = codes "HELLO   "

hello_pads : pad_name hello ≡ some hello_padded
unfolding pad_name pad_from strlen
hello_pads = refl

hello_agrees : Agree 8 0 hello_padded hello_txt
unfolding is_match
hello_agrees = is_match-Agree 8 0 hello_padded hello_txt refl

hello_new : find_entry hello_padded 0 (here blank_disk) ≡ none
unfolding find_entry read_current_directory directory_sector entries split_entries
hello_new = refl

cluster_two_free : get_or (fat blank_disk) 2 0 ≡ 0
unfolding words
cluster_two_free = refl

room : ¬ NoneFree (here blank_disk)
unfolding read_current_directory directory_sector entries split_entries
room h = cc (h.0)

write_file_lem_example :
    WriteResult hello_txt
      (codes "HELLO   TXT")
      (codes "hi")
      blank_disk
      (write_file hello_txt (codes "hi" ++ 0 ∷ []) blank_disk)
write_file_lem_example =
    write_file_lem hello_txt (codes "HELLO   TXT") [] (codes "hi") [] blank_disk blank_disk-IsReady
      (omega arith) (omega arith) refl (omega arith) (is_plain-IsPlain (codes "HELLO   TXT") refl)
      (omega arith)

write_file-cat_file_example :
    (v' : Volume) × (write_file hello_txt (codes "hi" ++ 0 ∷ []) blank_disk ≡ some v')
    × (cat_file 7 hello v'
        ≡ some (say (codes "\n\n") (say (take 511 (codes "hi")) (say (codes "\n") v'))))
write_file-cat_file_example =
    write_file-cat_file hello_txt (codes "HELLO   TXT") [] (codes "hi") [] hello hello_padded
      blank_disk blank_disk-IsReady (omega arith) (omega arith) refl (omega arith)
      (is_plain-IsPlain (codes "HELLO   TXT") refl) (omega arith)
      (is_plain-IsPlain (codes "hi") refl) (omega arith) hello_pads hello_agrees hello_new 5 2
      (omega arith) (omega arith) cluster_two_free room

abbrev docs : List ℕ
docs = codes "DOCS"

docs-IsText : IsText docs
docs-IsText = (
  (omega arith, omega arith),
  ((omega arith, omega arith), ((omega arith, omega arith), ((omega arith, omega arith), tt))),
)

docs_pads : pad_name (c_string "DOCS") ≡ some (codes "DOCS    ")
unfolding pad_name pad_from strlen
docs_pads = refl

docs_new : find_entry (codes "DOCS    ") 0 (here blank_disk) ≡ none
unfolding find_entry read_current_directory directory_sector entries split_entries
docs_new = refl

no_slash : strcmp (c_string "DOCS") (c_string "/") ≡ some 21
unfolding strcmp
no_slash = refl

no_dots : strcmp (c_string "DOCS") (c_string "..") ≡ some 22
unfolding strcmp
no_dots = refl

make_directory_lem_example :
    MakeResult docs (c_string "DOCS") blank_disk (make_directory (c_string "DOCS") blank_disk)
make_directory_lem_example = make_directory_lem docs [] blank_disk blank_disk-IsReady docs-IsText

make_directory-change_directory_example : (c : ℕ) × Entered (c_string "DOCS") c blank_disk
make_directory-change_directory_example =
    make_directory-change_directory docs [] (codes "DOCS    ") blank_disk blank_disk-IsReady
      docs-IsText (omega arith, (omega arith, (omega arith, (omega arith, tt)))) 21 22 no_slash
      (omega arith) no_dots (omega arith) docs_pads docs_new 2 (omega arith) (omega arith)
      cluster_two_free room

create_dummy_file-cat_file_example :
    (v' : Volume) × (create_dummy_file blank_disk ≡ some v')
    × (cat_file 5 (c_string "SECRET T") v'
        ≡ some (say (codes "\n\n") (say txt2 (say txt1 (say (codes "\n") v')))))
    × (cat_file 1 (c_string "SECRET") v' ≡ some (say (codes "Error: File not found.\n") v'))
create_dummy_file-cat_file_example =
    create_dummy_file-cat_file blank_disk blank_disk-IsVolume refl 2 1

-- A root directory with a deleted entry, a file of 7 bytes and a directory.
abbrev listed_sector : List ℕ
listed_sector =
    0xE5
    ∷ (replicate 31 0
        ++ (codes "HELLO   TXT" ++ (0x20 ∷ (replicate 16 0 ++ (7 ∷ 0 ∷ 0 ∷ 0 ∷ []))))
        ++ (codes "DOCS       " ++ (0x10 ∷ replicate 20 0))
        ++ replicate 416 0)

abbrev listed_disk : Volume
listed_disk = record {
  sectors = λ k. if k == 68 then listed_sector else replicate 512 0;
  current_dir_cluster = 0;
  console = [];
}

listed-IsListable : All IsListable (live (here listed_disk))
unfolding live read_current_directory directory_sector entries split_entries
listed-IsListable = (
  (omega arith, is_plain-IsPlain (codes "HELLO   ") refl, is_plain-IsPlain (codes "TXT") refl),
  (
    (omega arith, is_plain-IsPlain (codes "DOCS    ") refl, is_plain-IsPlain (codes "   ") refl),
    tt,
  ),
)

list_files_lem_example :
    list_files listed_disk
    ≡ some (
        says
          (title listed_disk
            ∷ (listing (live (here listed_disk)) ++ footer (live (here listed_disk))))
          listed_disk)
list_files_lem_example = list_files_lem listed_disk listed-IsListable
