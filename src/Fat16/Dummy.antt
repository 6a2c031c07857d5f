-- ===== src/Fat16/Dummy.antt =====
-- `cat_file` after `create_dummy_file`: a file of two clusters.
use first_kernel.Base.{
  ℕ, suc, ◌≡◌, refl, ap, ◌∙◌, List, [], ◌∷◌, ◌++◌, none, some, length, get_or, set, replicate, All,
  arith, length-set, set-All, get_or-set_self, get_or-set_ne,
}
use first_kernel.Base.Text.{codes, c_string}
use first_kernel.CString.{strlen}
use first_kernel.Fat16.Layout.{DirEntry, entries, split_entries, cluster_low, unwords}
use first_kernel.Fat16.Views.{
  IsByte, IsWord, all_bytes-IsByte, words-unwords, length-unwords, unwords-IsByte, words-IsWord,
}
use first_kernel.Fat16.Volume.{
  Volume, write_sector, say, c_text, cluster_to_sector, directory_sector, read_current_directory,
}
use first_kernel.Fat16.Table.{IsVolume, fat, length-fat, write_sector-IsVolume}
use first_kernel.Fat16.Directory.{pad_name, pad_from, find_entry, is_match}
use first_kernel.Fat16.Files.{fill_name, print_chain, cat_file}
use first_kernel.Fat16.Contents.{sector_of}
use first_kernel.Fat16.Stored.{here}
use first_kernel.Fat16.ReadBack.{IsVolume-say, print_chain-cluster, print_chain-end, cat_file-found}
use first_kernel.Fat16.Listing.{txt1, txt2, fake_name, copy_text, create_dummy_file}

-- The directory sector that is written: name `SECRET T`, extension `XT` and a zero, first cluster 2.
abbrev dummy_entry : DirEntry
dummy_entry = codes "SECRET TXT" ++ (0 ∷ 0x20 ∷ (replicate 14 0 ++ (2 ∷ 0 ∷ 232 ∷ 3 ∷ 0 ∷ 0 ∷ [])))

root_sector : List ℕ
root_sector = dummy_entry ++ replicate 480 0

part1 : List ℕ
part1 = sector_of 512 txt1

part2 : List ℕ
part2 = sector_of 512 txt2

fills : fill_name 11 0 fake_name (replicate 32 0) ≡ some (codes "SECRET TXT" ++ replicate 22 0)
unfolding fill_name
fills = refl

root_shape : (length root_sector ≡ 512) × All IsByte root_sector
unfolding root_sector
root_shape = (refl, all_bytes-IsByte root_sector refl)

part1_shape : (length part1 ≡ 512) × All IsByte part1
unfolding part1
part1_shape = (refl, all_bytes-IsByte part1 refl)

part2_shape : (length part2 ≡ 512) × All IsByte part2
unfolding part2
part2_shape = (refl, all_bytes-IsByte part2 refl)

copies1 : copy_text (txt1 ++ 0 ∷ []) 0 (replicate 512 0) ≡ some part1
unfolding copy_text part1
copies1 = refl

copies2 : copy_text (txt2 ++ 0 ∷ []) 0 (replicate 512 0) ≡ some part2
unfolding copy_text part2
copies2 = refl

reads1 : c_text (set part1 511 0) ≡ txt1
unfolding c_text part1
reads1 = refl

reads2 : c_text (set part2 511 0) ≡ txt2
unfolding c_text part2
reads2 = refl

cat_file-missing :
    (fuel : ℕ) (want : List ℕ) {padded : List ℕ} (v : Volume)
    → pad_name want ≡ some padded
    → find_entry padded 0 (here v) ≡ none
    → cat_file fuel want v ≡ some (say (codes "Error: File not found.\n") v)
unfolding cat_file
cat_file-missing fuel want v p q = ground arith

module _ (v : Volume) (valid : IsVolume v) (root : v.current_dir_cluster ≡ 0) where
  v1 : Volume
  v1 = write_sector 68 root_sector v

  v2 : Volume
  v2 = write_sector 100 part1 v1

  v3 : Volume
  v3 = write_sector 101 part2 v2

  table : List ℕ
  table = set (set (fat v) 2 3) 3 0xFFFF

  v4 : Volume
  v4 = write_sector 50 (unwords table) v3

  done : Volume
  done = say (codes "Fake file successfully injected into disk.\n") v4

  creates : create_dummy_file v ≡ some done
  unfolding create_dummy_file done v4 v3 v2 v1 table root_sector
  creates = rw (fills, copies1, copies2) refl

  pads_entry : pad_name (c_string "SECRET T") ≡ some (codes "SECRET T")
  unfolding pad_name pad_from strlen
  pads_entry = refl

  pads_name : pad_name (c_string "SECRET") ≡ some (codes "SECRET  ")
  unfolding pad_name pad_from strlen
  pads_name = refl

  here-done : here done ≡ entries root_sector
  unfolding read_current_directory directory_sector done v4 v3 v2 v1
  here-done = ground arith

  finds : find_entry (codes "SECRET T") 0 (entries root_sector) ≡ some 0
  unfolding find_entry entries split_entries is_match root_sector
  finds = refl

  misses : find_entry (codes "SECRET  ") 0 (entries root_sector) ≡ none
  unfolding find_entry entries split_entries is_match root_sector
  misses = refl

  starts : cluster_low (get_or (entries root_sector) 0 []) ≡ 2
  unfolding entries split_entries root_sector
  starts = refl

  table_words : All IsWord table
  unfolding table
  table_words =
      set-All IsWord _ 3 0xFFFF
        (set-All IsWord (fat v) 2 3 (words-IsWord (v.sectors 50) (valid.bytes 50)) (omega arith))
        (omega arith)

  length-table : length table ≡ 256
  unfolding table
  length-table = simp length-set (length-fat v valid)

  done-IsVolume : IsVolume done
  unfolding done v4 v3 v2 v1
  done-IsVolume =
      let valid1 = write_sector-IsVolume v valid 68 root_sector root_shape.0 root_shape.1 in
      let valid2 = write_sector-IsVolume v1 valid1 100 part1 part1_shape.0 part1_shape.1 in
      let valid3 = write_sector-IsVolume v2 valid2 101 part2 part2_shape.0 part2_shape.1 in
      let valid4 =
        write_sector-IsVolume v3 valid3 50 (unwords table)
          (omega (arith, length-unwords table, length-table)) (unwords-IsByte table) in
      record { full = valid4.full; bytes = valid4.bytes }

  fat-done : fat done ≡ table
  unfolding done v4
  fat-done = words-unwords table table_words

  content1 : done.sectors (cluster_to_sector 2) ≡ part1
  unfolding done v4 v3 v2 v1 cluster_to_sector
  content1 = refl

  content2 : done.sectors (cluster_to_sector 3) ≡ part2
  unfolding done v4 v3 v2 v1 cluster_to_sector
  content2 = refl

  next2 : get_or (fat done) 2 0 ≡ 3
  unfolding table
  next2 =
      ap (λ (ws : List ℕ). get_or ws 2 0) fat-done
      ∙ get_or-set_ne (set (fat v) 2 3) 3 2 0xFFFF 0 (omega arith)
      ∙ get_or-set_self (fat v) 2 3 0 (omega (arith, length-fat v valid))

  next3 : get_or (fat done) 3 0 ≡ 0xFFFF
  unfolding table
  next3 =
      ap (λ (ws : List ℕ). get_or ws 3 0) fat-done
      ∙ get_or-set_self (set (fat v) 2 3) 3 0xFFFF 0
          (omega (arith, length-fat v valid, length-set (fat v) 2 3))

  -- The two clusters, one after the other.
  chain :
      (fuel : ℕ)
      → print_chain (suc (suc (suc fuel))) 2 (say (codes "\n") done)
        ≡ some (say txt2 (say txt1 (say (codes "\n") done)))
  chain fuel =
      let w = say (codes "\n") done in
      print_chain-cluster (suc (suc fuel)) 2 w (IsVolume-say (codes "\n") done done-IsVolume)
        (omega arith) (omega arith)
      ∙ step next2 (ap (λ (b : List ℕ). c_text (set b 511 0)) content1 ∙ reads1) (suc (suc fuel)) w
      ∙ print_chain-cluster (suc fuel) 3 (say txt1 w)
          (IsVolume-say txt1 w (IsVolume-say (codes "\n") done done-IsVolume)) (omega arith)
          (omega arith)
      ∙ step next3 (ap (λ (b : List ℕ). c_text (set b 511 0)) content2 ∙ reads2) (suc fuel)
          (say txt1 w)
      ∙ print_chain-end fuel 0xFFFF (say txt2 (say txt1 w)) refl
    where
      step :
          {c c' : ℕ} {text text' : List ℕ}
          → c ≡ c'
          → text ≡ text'
          → (n : ℕ) (u : Volume) → print_chain n c (say text u) ≡ print_chain n c' (say text' u)
      step e e' n u = rw (e, e') refl

  -- In the root directory, `create_dummy_file` faults nowhere, and the file that it makes is printed
  -- by `cat_file` of the name `SECRET T`, both clusters of it; the name `SECRET` is not found, since
  -- the name in the source is one space too short.
  pub create_dummy_file-cat_file :
      (fuel fuel' : ℕ)
      → (v' : Volume) × (create_dummy_file v ≡ some v')
        × (cat_file (suc (suc (suc fuel))) (c_string "SECRET T") v'
            ≡ some (say (codes "\n\n") (say txt2 (say txt1 (say (codes "\n") v')))))
        × (cat_file fuel' (c_string "SECRET") v' ≡ some (say (codes "Error: File not found.\n") v'))
  create_dummy_file-cat_file fuel fuel' = (
    done,
    creates,
    cat_file-found (suc (suc (suc fuel))) (c_string "SECRET T") {i = 0} {c = 2} done
        (say txt2 (say txt1 (say (codes "\n") done))) pads_entry
        (ap (find_entry (codes "SECRET T") 0) here-done ∙ finds)
        (ap (λ (es : List DirEntry). cluster_low (get_or es 0 [])) here-done ∙ starts) (chain fuel),
    cat_file-missing fuel' (c_string "SECRET") done pads_name
        (ap (find_entry (codes "SECRET  ") 0) here-done ∙ misses),
  )
