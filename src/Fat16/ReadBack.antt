-- ===== src/Fat16/ReadBack.antt =====
-- `cat_file` after `write_file`.
use native.Mathlib.Nat.{zero-add}
use first_kernel.Base.{
  ℕ, suc, ◌/◌, ◌%◌, ◌≤◌, ◌<◌, ◌≡◌, ◌≢◌, refl, ap, ◌∙◌, List, [], ◌∷◌, ◌++◌, none, some, false,
  length, get_or, set, take, All, arith, get_or-set_self,
}
use first_kernel.Base.Text.{codes}
use first_kernel.Fat16.Layout.{DirEntry, cluster_low}
use first_kernel.Fat16.Views.{IsByte}
use first_kernel.Fat16.Volume.{
  Volume, say, c_text, cluster_to_sector, directory_sector, read_current_directory,
  get_next_cluster, in_chain,
}
use first_kernel.Fat16.Table.{IsVolume, fat, fat_entry, length-fat, FirstFree, get_next_cluster_lem}
use first_kernel.Fat16.Placement.{IsReady}
use first_kernel.Fat16.Directory.{pad_name, find_entry}
use first_kernel.Fat16.Files.{print_chain, cat_file, write_file}
use first_kernel.Fat16.Contents.{IsText, IsPlain, sector_of, set-sector_of, c_text-sector_of}
use first_kernel.Fat16.Search.{
  FreeAt, FreeAt-lt, NoneFree, Answers, Agree, Agree-is_match, find_entry-set,
}
use first_kernel.Fat16.Stored.{here, Placed}
use first_kernel.Fat16.Saved.{
  IsFileEntry, say_saved, WriteResult, disk_full, directory_full, saved, write_file_lem,
}

pub IsVolume-say : (message : List ℕ) (v : Volume) → IsVolume v → IsVolume (say message v)
IsVolume-say message v valid = record { full = valid.full; bytes = valid.bytes }

fat_entry-low : (v : Volume) (c : ℕ) → c < 256 → fat_entry v c ≡ get_or (fat v) c 0
fat_entry-low v c h = rw (first, same)
  where
    first : c / 256 ≡ 0
    first = omega arith

    same : c % 256 ≡ c
    same = omega arith

-- The `while` of `cat_file` at a cluster of the first sector of the table.
pub print_chain-cluster :
    (fuel c : ℕ) (v : Volume)
    → IsVolume v
    → 2 ≤ c
    → c < 256
    → let v' = say (c_text (set (v.sectors (cluster_to_sector c)) 511 0)) v in
      print_chain (suc fuel) c v ≡ print_chain fuel (get_or (fat v) c 0) v'
unfolding print_chain
print_chain-cluster fuel c v valid low high = ground (arith, next)
  where
    v' : Volume
    v' = say (c_text (set (v.sectors (cluster_to_sector c)) 511 0)) v

    next : get_next_cluster v' c ≡ some (get_or (fat v) c 0)
    next =
        get_next_cluster_lem v' c
          (IsVolume-say (c_text (set (v.sectors (cluster_to_sector c)) 511 0)) v valid)
        ∙ ap some (fat_entry-low v' c high)

pub print_chain-end :
    (fuel c : ℕ) (v : Volume) → in_chain c ≡ false → print_chain (suc fuel) c v ≡ some v
unfolding print_chain
print_chain-end fuel c v h = ground arith

-- A cluster that ends its chain and holds a text.
print_chain-one :
    (fuel c : ℕ) (text : List ℕ) (v : Volume)
    → IsVolume v
    → 2 ≤ c
    → c < 256
    → IsText text
    → IsPlain text
    → v.sectors (cluster_to_sector c) ≡ sector_of 512 text
    → get_or (fat v) c 0 ≡ 0xFFFF
    → print_chain (suc (suc fuel)) c v ≡ some (say (take 511 text) v)
print_chain-one fuel c text v valid low high chars clear content last =
    print_chain-cluster (suc fuel) c v valid low high
    ∙ rw (last, printed) (print_chain-end fuel 0xFFFF (say (take 511 text) v) refl)
  where
    printed : c_text (set (v.sectors (cluster_to_sector c)) 511 0) ≡ take 511 text
    printed =
        ap (λ (s : List ℕ). c_text (set s 511 0)) content
        ∙ ap c_text (set-sector_of 511 text)
        ∙ c_text-sector_of 511 text chars clear

-- A search that finds entry `i` prints the chain of that entry.
pub cat_file-found :
    (fuel : ℕ) (want : List ℕ) {i c : ℕ} {padded : List ℕ} (v v' : Volume)
    → pad_name want ≡ some padded
    → find_entry padded 0 (here v) ≡ some i
    → cluster_low (get_or (here v) i []) ≡ c
    → print_chain fuel c (say (codes "\n") v) ≡ some v'
    → cat_file fuel want v ≡ some (say (codes "\n\n") v')
unfolding cat_file
cat_file-found fuel want v v' p q r s = ground arith

-- The name of an entry that `write_file` makes is found by the padded name that agrees with it.
file-Answers :
    (filename padded : List ℕ) (len c : ℕ) (e : DirEntry)
    → IsFileEntry filename len c e
    → get_or filename 0 0 ≢ 0
    → Agree 8 0 padded filename
    → Answers padded e
file-Answers filename padded len c e f ne agree = (
  ground (arith, f.named 0, agree 0),
  Agree-is_match 8 0 padded e (λ k p q. rw (f.named k (omega arith)) (agree k p q)),
)

-- A message changes no directory.
here-after : (name : List ℕ) (v : Volume) → here (say_saved name v) ≡ here v
unfolding read_current_directory directory_sector
here-after name v = refl

module _ (filename name tail text rest want padded : List ℕ) (v : Volume) (ready : IsReady v)
    (long : 11 ≤ length filename) (name_bytes : All IsByte filename)
    (ends : filename ≡ name ++ 0 ∷ tail) (name_chars : IsText name) (plain : IsPlain name)
    (chars : IsText text) (clear : IsPlain text) (named : get_or filename 0 0 ≢ 0)
    (pads : pad_name want ≡ some padded) (agree : Agree 8 0 padded filename)
    (new : find_entry padded 0 (here v) ≡ none) where
  -- The state that the message of success leaves.
  abbrev after : Volume → Volume
  after = say_saved name

  cat-saved :
      (fuel c i : ℕ) (e : DirEntry) (v' : Volume)
      → FirstFree (fat v) 2 256 c
      → FreeAt (here v) i
      → IsFileEntry filename (length text) c e
      → Placed c i e (sector_of 512 text) v v'
      → cat_file (suc (suc fuel)) want (after v')
        ≡ some (say (codes "\n\n") (say (take 511 text) (say (codes "\n") (after v'))))
  cat-saved fuel c i e v' f place_free file placed =
      cat_file-found (suc (suc fuel)) want {i = i} {c = c} (after v')
        (say (take 511 text) (say (codes "\n") (after v'))) pads
        (rw new_here (
          find_entry-set padded 0 (here v) i e place_free new
            (file-Answers filename padded (length text) c e file named agree)
          ∙ ap some (zero-add i)))
        (rw new_here (ap cluster_low (get_or-set_self (here v) i e [] in_directory) ∙ file.cluster))
        (print_chain-one fuel c text (say (codes "\n") (after v')) valid f.low f.below chars clear
          placed.content
          (ap (λ (ws : List ℕ). get_or ws c 0) placed.table
            ∙ get_or-set_self (fat v) c 0xFFFF 0
                (omega (arith, length-fat v ready.valid, f.below))))
    where
      in_directory : i < length (here v)
      in_directory = FreeAt-lt (here v) i place_free

      new_here : here (after v') ≡ set (here v) i e
      new_here = here-after name v' ∙ placed.directory

      valid : IsVolume (say (codes "\n") (after v'))
      valid = record { full = placed.ready.valid.full; bytes = placed.ready.valid.bytes }

  -- On a ready volume with a free cluster and a free place in the current directory, a file that
  -- `write_file` saves under a name in an array of at least 11 bytes, with a terminator and without `%d`,
  -- whose first eight bytes are ASCII and are the padded name of `want`, and with a text without `%d`, is
  -- printed back by `cat_file` of `want`, up to its first 511 characters,
  -- if nothing answered to that name before.
  pub write_file-cat_file :
      (fuel k : ℕ)
      → 2 ≤ k
      → k < 256
      → get_or (fat v) k 0 ≡ 0
      → ¬ NoneFree (here v)
      → (v' : Volume) × (write_file filename (text ++ 0 ∷ rest) v ≡ some v')
        × (cat_file (suc (suc fuel)) want v'
            ≡ some (say (codes "\n\n") (say (take 511 text) (say (codes "\n") v'))))
  write_file-cat_file fuel k low high free room = outcome (
      write_file_lem filename name tail text rest v ready long name_bytes ends name_chars plain
        chars)
    where
      outcome :
          WriteResult filename name text v (write_file filename (text ++ 0 ∷ rest) v)
          → (v' : Volume) × (write_file filename (text ++ 0 ∷ rest) v ≡ some v')
            × (cat_file (suc (suc fuel)) want v'
                ≡ some (say (codes "\n\n") (say (take 511 text) (say (codes "\n") v'))))
      outcome (disk_full none_free r) = absurd (none_free k low high free)
      outcome (directory_full c f none_free r) = absurd (room none_free)
      outcome (saved c i e v' f place_free file placed r) =
          (after v', r, cat-saved fuel c i e v' f place_free file placed)
