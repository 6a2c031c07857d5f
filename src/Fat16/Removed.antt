-- ===== src/Fat16/Removed.antt =====
-- What `remove_file` leaves on the disk.
use first_kernel.Base.{
  ℕ, ◌+◌, ◌<◌, ◌≡◌, ◌≢◌, refl, ap, sym, ◌∙◌, List, [], none, some, ==_ne, ==_refl, if◌then◌else◌,
  length, get_or, set, All, arith, subst, length-set, set-All, get_or_All_lt,
}
use first_kernel.Base.Text.{codes}
use first_kernel.Fat16.Layout.{DirEntry, entries, join_entries, cluster_low, set_name}
use first_kernel.Fat16.Views.{IsByte, IsEntry}
use first_kernel.Fat16.Entries.{
  IsDirectory, length-join, join-IsByte, entries-join, set-IsDirectory,
}
use first_kernel.Fat16.Volume.{
  Volume, say, directory_sector, read_current_directory, write_current_directory,
}
use first_kernel.Fat16.Table.{IsVolume, fat, write_sector-IsVolume}
use first_kernel.Fat16.Chains.{Chain, mem}
use first_kernel.Fat16.Placement.{IsReady, directory-ne-table}
use first_kernel.Fat16.Directory.{pad_name, find_entry}
use first_kernel.Fat16.Search.{Answers, find_entry-some}
use first_kernel.Fat16.Stored.{here, here-IsDirectory}
use first_kernel.Fat16.Release.{Freed, release_chain-frees}
use first_kernel.Fat16.Files.{say_name, release_chain, remove_file}

-- Entry `i` is marked deleted and the clusters `cs` are free; the rest is as before.
pub record Removed (i : ℕ) (cs : List ℕ) (v v' : Volume) : Type 0 where
  pub valid : IsVolume v'
  pub stays : v'.current_dir_cluster ≡ v.current_dir_cluster
  pub directory : here v' ≡ set (here v) i (set_name (get_or (here v) i []) 0 0xE5)
  pub cleared : (k : ℕ) → get_or (fat v') k 0 ≡ (if mem k cs then 0 else get_or (fat v) k 0)
  pub others : (k : ℕ) → k ≢ directory_sector v → k ≢ 50 → v'.sectors k ≡ v.sectors k
  pub quiet : v'.console ≡ v.console

abbrev deletion : Volume → ℕ → Volume
deletion v i =
    write_current_directory (join_entries (set (here v) i (set_name (get_or (here v) i []) 0 0xE5)))
      v

remove_file-found :
    (filename : List ℕ) {padded : List ℕ} {i : ℕ} (v : Volume) {v' : Volume}
    → pad_name filename ≡ some padded
    → find_entry padded 0 (here v) ≡ some i
    → release_chain (cluster_low (get_or (here v) i [])) (deletion v i) ≡ some v'
    → remove_file filename v
      ≡ some (say_name (codes "file or directory '") filename (codes "' deleted.\n") v')
unfolding remove_file
remove_file-found filename v p q r = ground arith

same_sector :
    (v w : Volume)
    → v.current_dir_cluster ≡ w.current_dir_cluster
    → directory_sector v ≡ directory_sector w
unfolding directory_sector
same_sector v w e = rw e

module _ (v : Volume) (ready : IsReady v) (i : ℕ) (inside : i < length (here v)) where
  es : List DirEntry
  es = set (here v) i (set_name (get_or (here v) i []) 0 0xE5)

  es-IsDirectory : IsDirectory es
  unfolding es
  es-IsDirectory =
      set-IsDirectory (here v) before i (set_name (get_or (here v) i []) 0 0xE5)
        (length-set (get_or (here v) i []) 0 0xE5
          ∙ get_or_All_lt IsEntry (here v) i [] before.shape inside)
        (set-All IsByte (get_or (here v) i []) 0 0xE5
          (get_or_All_lt (All IsByte) (here v) i [] before.bytes inside) (omega arith))
    where
      before : IsDirectory (here v)
      before = here-IsDirectory v ready.valid

  deletion-IsVolume : IsVolume (deletion v i)
  unfolding write_current_directory es
  deletion-IsVolume =
      write_sector-IsVolume v ready.valid (directory_sector v) (join_entries es)
        (length-join es es-IsDirectory) (join-IsByte es es-IsDirectory)

  fat-deletion : fat (deletion v i) ≡ fat v
  unfolding write_current_directory
  fat-deletion = rw (==_ne (directory_sector v) 50 (directory-ne-table v ready))

  new_here : (cs : List ℕ) {v' : Volume} → Freed cs (deletion v i) v' → here v' ≡ es
  unfolding write_current_directory read_current_directory es
  new_here cs {v'} f =
      ap (λ (k : ℕ). entries (v'.sectors k)) (same_sector v' v f.stays)
      ∙ ap entries (
          f.others (directory_sector v) (directory-ne-table v ready)
          ∙ rw (==_refl (directory_sector v)))
      ∙ entries-join es es-IsDirectory

  Freed-Removed : (cs : List ℕ) {v' : Volume} → Freed cs (deletion v i) v' → Removed i cs v v'
  unfolding write_current_directory
  Freed-Removed cs {v'} f = record {
    valid = f.valid;
    stays = f.stays;
    directory = new_here cs f ∙ unfold es in refl;
    cleared =
        λ k. f.cleared k ∙ ap (λ (ws : List ℕ). if mem k cs then 0 else get_or ws k 0) fat-deletion;
    others = λ k p q. f.others k q ∙ rw (==_ne (directory_sector v) k (λ e. p (sym e)));
    quiet = f.quiet;
  }

-- `remove_file` on a name that is found, with a chain of clusters that ends inside the first sector
-- of the table, marks the entry deleted, frees exactly the clusters of that chain and changes
-- nothing else on the disk.
pub remove_file-Removed :
    (cs filename padded : List ℕ) (v : Volume) (i : ℕ)
    → IsReady v
    → pad_name filename ≡ some padded
    → find_entry padded 0 (here v) ≡ some i
    → Chain (fat v) (cluster_low (get_or (here v) i [])) cs
    → (v' : Volume) × (remove_file filename v
        ≡ some (say_name (codes "file or directory '") filename (codes "' deleted.\n") v'))
      × Removed i cs v v'
remove_file-Removed cs filename padded v i ready p q chain =
    released (find_entry-some padded 0 i (here v) q)
  where
    start : ℕ
    start = cluster_low (get_or (here v) i [])

    released :
        ((j : ℕ) × (i ≡ 0 + j) × (j < length (here v)) × Answers padded (get_or (here v) j []))
        → (v' : Volume) × (remove_file filename v
            ≡ some (say_name (codes "file or directory '") filename (codes "' deleted.\n") v'))
          × Removed i cs v v'
    released (j, e, h, a) =
        let inside : i < length (here v) = omega arith in
        let freed =
          release_chain-frees cs start (deletion v i) (deletion-IsVolume v ready i inside) (
            subst (λ (ws : List ℕ). Chain ws start cs) (sym (fat-deletion v ready i inside))
              chain) in
        (
          freed.0,
          remove_file-found filename v p q freed.1,
          Freed-Removed v ready i inside cs freed.2,
        )

-- On a name that is not found it only reports that.
pub remove_file-missing :
    (filename padded : List ℕ) (v : Volume)
    → pad_name filename ≡ some padded
    → find_entry padded 0 (here v) ≡ none
    → remove_file filename v ≡ some (say (codes "Error: file not fount.\n") v)
unfolding remove_file
remove_file-missing filename padded v p q = ground arith
