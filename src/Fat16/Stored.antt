-- ===== src/Fat16/Stored.antt =====
-- The three writes that `write_file` and `make_directory` share.
use first_kernel.Base.{
  ℕ, ◌≤◌, ◌<◌, ◌≡◌, ◌≢◌, refl, ap, sym, ◌∙◌, List, Option, some, ==_ne, ==_refl, length, get_or,
  set, All, arith, inl, inr, ◌⊎◌, get_or-set_ne,
}
use first_kernel.Fat16.Layout.{DirEntry, unwords, entries, join_entries}
use first_kernel.Fat16.Views.{IsByte, IsEntry}
use first_kernel.Fat16.Entries.{
  IsDirectory, entries-IsDirectory, length-join, join-IsByte, entries-join, set-IsDirectory,
}
use first_kernel.Fat16.Volume.{
  Volume, read_sector, write_sector, cluster_to_sector, directory_sector, read_current_directory,
  write_current_directory, set_fat_entry,
}
use first_kernel.Fat16.Table.{IsVolume, fat, write_sector-IsVolume, set_fat_entry_lem}
use first_kernel.Fat16.Placement.{IsReady, directory-ne-table, directory-ne-free, cluster-ne-table}

-- The entries of the current directory.
abbrev pub here : Volume → List DirEntry
here v = entries (read_current_directory v)

pub here-IsDirectory : (v : Volume) → IsVolume v → IsDirectory (here v)
unfolding read_current_directory
here-IsDirectory v valid =
    entries-IsDirectory (read_sector (directory_sector v) v) (valid.full (directory_sector v))
      (valid.bytes (directory_sector v))

-- Entry `e` in place `i` of the directory, `sector` in the new cluster `c`, and `c` marked as the
-- last of its chain; the rest of the disk is as before.
pub record Placed (c i : ℕ) (e : DirEntry) (sector : List ℕ) (v v' : Volume) : Type 0 where
  pub ready : IsReady v'
  pub stays : v'.current_dir_cluster ≡ v.current_dir_cluster
  pub directory : here v' ≡ set (here v) i e
  pub content : v'.sectors (cluster_to_sector c) ≡ sector
  pub table : fat v' ≡ set (fat v) c 0xFFFF
  pub others :
      (k : ℕ)
      → k ≢ directory_sector v
      → k ≢ cluster_to_sector c
      → k ≢ 50
      → v'.sectors k ≡ v.sectors k
  pub quiet : v'.console ≡ v.console

-- The three writes that `write_file` and `make_directory` make.
abbrev pub place : ℕ → ℕ → DirEntry → List ℕ → Volume → Option Volume
place c i e sector v = set_fat_entry c 0xFFFF (
    write_sector (cluster_to_sector c) sector
      (write_current_directory (join_entries (set (here v) i e)) v))

module _ (c i : ℕ) (e : DirEntry) (sector : List ℕ) (v : Volume) (ready : IsReady v) (low : 2 ≤ c)
    (high : c < 256) (free : get_or (fat v) c 0 ≡ 0) (e_shape : IsEntry e) (e_bytes : All IsByte e)
    (s_shape : length sector ≡ 512) (s_bytes : All IsByte sector) where
  es : List DirEntry
  es = set (here v) i e

  es-IsDirectory : IsDirectory es
  unfolding es
  es-IsDirectory = set-IsDirectory (here v) (here-IsDirectory v ready.valid) i e e_shape e_bytes

  v1 : Volume
  v1 = write_current_directory (join_entries es) v

  v2 : Volume
  v2 = write_sector (cluster_to_sector c) sector v1

  v1-IsVolume : IsVolume v1
  unfolding v1 write_current_directory
  v1-IsVolume =
      write_sector-IsVolume v ready.valid (directory_sector v) (join_entries es)
        (length-join es es-IsDirectory) (join-IsByte es es-IsDirectory)

  v2-IsVolume : IsVolume v2
  unfolding v2
  v2-IsVolume = write_sector-IsVolume v1 v1-IsVolume (cluster_to_sector c) sector s_shape s_bytes

  -- What the sectors hold before the table is written.
  table_before : fat v2 ≡ fat v
  unfolding v1 v2 write_current_directory
  table_before = rw (
    ==_ne (cluster_to_sector c) 50 (cluster-ne-table c low),
    ==_ne (directory_sector v) 50 (directory-ne-table v ready),
  )

  v3 : Volume
  v3 = write_sector 50 (unwords (set (fat v2) c 0xFFFF)) v2

  set_entry : (set_fat_entry c 0xFFFF v2 ≡ some v3) × IsVolume v3 × (fat v3 ≡ set (fat v2) c 0xFFFF)
  unfolding v3
  set_entry = set_fat_entry_lem v2 v2-IsVolume c 0xFFFF high (omega arith)

  v3-directory : v3.sectors (directory_sector v) ≡ join_entries es
  unfolding v1 v2 v3 write_current_directory
  v3-directory = rw (
    ==_ne 50 (directory_sector v) (λ q. directory-ne-table v ready (sym q)),
    ==_ne (cluster_to_sector c) (directory_sector v)
        (λ q. directory-ne-free v c ready low free (sym q)),
    ==_refl (directory_sector v),
  )

  v3-content : v3.sectors (cluster_to_sector c) ≡ sector
  unfolding v1 v2 v3 write_current_directory
  v3-content = rw (
    ==_ne 50 (cluster_to_sector c) (λ q. cluster-ne-table c low (sym q)),
    ==_refl (cluster_to_sector c),
  )

  v3-others :
      (k : ℕ)
      → k ≢ directory_sector v
      → k ≢ cluster_to_sector c
      → k ≢ 50
      → v3.sectors k ≡ v.sectors k
  unfolding v1 v2 v3 write_current_directory
  v3-others k p q r = rw (
    ==_ne 50 k (λ e. r (sym e)),
    ==_ne (cluster_to_sector c) k (λ e. q (sym e)),
    ==_ne (directory_sector v) k (λ e. p (sym e)),
  )

  -- The current directory stays in use.
  v3-home :
      (v.current_dir_cluster ≡ 0)
      ⊎ ((2 ≤ v.current_dir_cluster)
          × (v.current_dir_cluster < 256)
          × (get_or (fat v3) v.current_dir_cluster 0 ≢ 0))
  v3-home = elim ready.home [
    | inl root ↦ inl root
    | inr (p, q, busy) ↦ inr (
      p,
      q,
      λ z. busy (
          sym (
            get_or-set_ne (fat v) c v.current_dir_cluster 0xFFFF 0
              λ same. busy (ap (λ (k : ℕ). get_or (fat v) k 0) (sym same) ∙ free))
          ∙ ap (λ (ws : List ℕ). get_or ws v.current_dir_cluster 0)
              (sym (set_entry.2 ∙ ap (λ (ws : List ℕ). set ws c 0xFFFF) table_before))
          ∙ z),
    )
  ]

  pub place-Placed : (v' : Volume) × (place c i e sector v ≡ some v') × Placed c i e sector v v'
  unfolding v1 v2 v3 es write_current_directory read_current_directory directory_sector
  place-Placed = (
    v3,
    set_entry.0,
    record {
      ready = record { valid = set_entry.1; home = v3-home };
      stays = refl;
      directory = ap entries v3-directory ∙ entries-join es es-IsDirectory;
      content = v3-content;
      table = set_entry.2 ∙ ap (λ (ws : List ℕ). set ws c 0xFFFF) table_before;
      others = v3-others;
      quiet = refl;
    },
  )
