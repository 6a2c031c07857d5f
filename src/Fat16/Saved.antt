-- ===== src/Fat16/Saved.antt =====
-- `write_file` on every branch.
use first_kernel.Base.{
  ℕ, ◌%◌, ◌^◌, ◌≤◌, ◌<◌, ◌≡◌, ◌≢◌, ap, ◌∙◌, List, [], ◌∷◌, ◌++◌, Option, some, length, get_or, All,
  arith, inl, inr, get_or_All, get_or_All_lt, All-of_get_or, dec_lt,
}
use native.Mathlib.Nat.{zero-add}
use first_kernel.Base.Text.{codes, c_text, IsPlain}
use first_kernel.Fat16.Layout.{DirEntry, attributes, cluster_low, size}
use first_kernel.Fat16.Views.{IsByte, IsEntry}
use first_kernel.Fat16.NewEntry.{
  new_entry, new_entry-IsEntry, new_entry-IsByte, new_entry-name, attributes-new_entry,
  cluster_low-new_entry, size-new_entry,
}
use first_kernel.Fat16.Volume.{Volume, say, find_free_cluster}
use first_kernel.Fat16.Table.{
  fat, Found, FirstFree, NoneFree as NoClusterFree, find_free_cluster_lem,
}
use first_kernel.Fat16.Placement.{IsReady}
use first_kernel.CString.Printed.{c_text_terminated}
use first_kernel.Fat16.Files.{fill_name, store_file, write_file}
use first_kernel.Fat16.Contents.{
  IsText, sector_of, length-sector_of, sector_of-IsByte, copy_content_lem, strlen_lem,
}
use first_kernel.Fat16.Write.{Filled, fill_name_lem}
use first_kernel.Fat16.Search.{FreeAt, FreeAt-lt, NoneFree, FoundPlace, find_free_dir_entry_lem}
use first_kernel.Fat16.Stored.{here, here-IsDirectory, Placed, place, place-Placed}
use first_kernel.Fat16.Entries.{IsDirectory}
use first_kernel.Fat16.Directory.{find_free_dir_entry}

-- The entry of a new file.
pub record IsFileEntry (filename : List ℕ) (len c : ℕ) (e : DirEntry) : Type 0 where
  pub named : (j : ℕ) → j < 11 → get_or e j 0 ≡ get_or filename j 0
  pub attribute : attributes e ≡ 0x20
  pub cluster : cluster_low e ≡ c
  pub sized : size e ≡ len % 2 ^ 32

-- The message of success, with the name in full.
abbrev pub say_saved : List ℕ → Volume → Volume
say_saved name v = say (codes "' save successfuly.\n") (say name (say (codes "file '") v))

-- What `write_file` can do: report a full disk, report a full directory, or save the file.
pub data WriteResult (filename name text : List ℕ) (v : Volume) (result : Option Volume)
    : Type 0 where
  disk_full :
      NoClusterFree (fat v) 2 256
      → result ≡ some (say (codes "Error: disk is full\n") v)
      → WriteResult filename name text v result
  directory_full :
      (c : ℕ)
      → FirstFree (fat v) 2 256 c
      → NoneFree (here v)
      → result ≡ some (say (codes "Error: cannot create more file within the main root\n") v)
      → WriteResult filename name text v result
  saved :
      (c i : ℕ) (e : DirEntry) (v' : Volume)
      → FirstFree (fat v) 2 256 c
      → FreeAt (here v) i
      → IsFileEntry filename (length text) c e
      → Placed c i e (sector_of 512 text) v v'
      → result ≡ some (say_saved name v')
      → WriteResult filename name text v result

write_file-stores :
    {c i : ℕ} (filename content : List ℕ) (v : Volume)
    → c ≢ 0
    → find_free_cluster v ≡ some c
    → find_free_dir_entry 0 (here v) ≡ some i
    → write_file filename content v ≡ store_file c i filename content v
unfolding write_file
write_file-stores filename content v nonzero r q = ground (arith, r, q)

module _ (filename name tail text rest : List ℕ) (v : Volume) (ready : IsReady v)
    (long : 11 ≤ length filename) (name_bytes : All IsByte filename)
    (ends : filename ≡ name ++ 0 ∷ tail) (name_chars : IsText name) (plain : IsPlain name)
    (chars : IsText text) where
  -- `print` of the name puts out the name.
  shown : c_text filename ≡ name
  shown = ap c_text ends ∙ c_text_terminated name tail name_chars plain

  -- The entry that the name is written into, and what is written after it.
  named-IsEntry :
      (i : ℕ)
      → FreeAt (here v) i
      → (e : DirEntry) × (fill_name 11 0 filename (get_or (here v) i []) ≡ some e)
        × IsEntry e
        × All IsByte e
        × ((j : ℕ) → j < 11 → get_or e j 0 ≡ get_or filename j 0)
  named-IsEntry i place_free = filled (fill_name_lem 11 0 filename old long (omega (arith, shape)))
    where
      directory : IsDirectory (here v)
      directory = here-IsDirectory v ready.valid

      inside : i < length (here v)
      inside = FreeAt-lt (here v) i place_free

      old : DirEntry
      old = get_or (here v) i []

      shape : IsEntry old
      shape = get_or_All_lt IsEntry (here v) i [] directory.shape inside

      bytes : All IsByte old
      bytes = get_or_All_lt (All IsByte) (here v) i [] directory.bytes inside

      filled :
          ((e : DirEntry) × (fill_name 11 0 filename old ≡ some e) × Filled 11 0 filename old e)
          → (e : DirEntry) × (fill_name 11 0 filename old ≡ some e)
            × IsEntry e
            × All IsByte e
            × ((j : ℕ) → j < 11 → get_or e j 0 ≡ get_or filename j 0)
      filled (e, r, f) = (
        e,
        r,
        f.same_length ∙ shape,
        All-of_get_or IsByte e 0 byte,
        λ j h. f.inside j (omega arith) (omega arith),
      )
        where
          byte : (j : ℕ) → j < length e → get_or e j 0 < 2 ^ 8
          byte j h = elim (dec_lt j 11) [
            | yes p ↦
                rw (f.inside j (omega arith) (omega arith))
                  (get_or_All IsByte filename j 0 name_bytes (omega arith))
            | no p ↦
                rw (f.outside j (inr (omega arith))) (get_or_All IsByte old j 0 bytes (omega arith))
          ]

  store_file-saved :
      (c i : ℕ)
      → FirstFree (fat v) 2 256 c
      → FreeAt (here v) i
      → WriteResult filename name text v (store_file c i filename (text ++ 0 ∷ rest) v)
  store_file-saved c i f place_free = named (named-IsEntry i place_free)
    where
      placed :
          {e : DirEntry}
          → fill_name 11 0 filename (get_or (here v) i []) ≡ some e
          → IsFileEntry filename (length text) c (new_entry (length text) 0x20 c e)
          → ((v' : Volume) × (place c i (new_entry (length text) 0x20 c e) (sector_of 512 text) v
                ≡ some v')
              × Placed c i (new_entry (length text) 0x20 c e) (sector_of 512 text) v v')
          → WriteResult filename name text v (store_file c i filename (text ++ 0 ∷ rest) v)
      placed {e} r file (v', q, p) =
          saved c i (new_entry (length text) 0x20 c e) v' f place_free file p (
            unfold store_file in
            rw (r, strlen_lem text rest chars, copy_content_lem text rest chars, q)
              (ap (λ (m : List ℕ). some (say_saved m v')) shown))

      named :
          ((e : DirEntry) × (fill_name 11 0 filename (get_or (here v) i []) ≡ some e)
            × IsEntry e
            × All IsByte e
            × ((j : ℕ) → j < 11 → get_or e j 0 ≡ get_or filename j 0))
          → WriteResult filename name text v (store_file c i filename (text ++ 0 ∷ rest) v)
      named (e, r, shape, bytes, same) =
          placed r
            (record {
              named = λ j h. new_entry-name (length text) 0x20 c e shape j h ∙ same j h;
              attribute = attributes-new_entry (length text) 0x20 c e shape;
              cluster = cluster_low-new_entry (length text) 0x20 c e shape (omega (arith, f.below));
              sized = size-new_entry (length text) 0x20 c e shape;
            })
            (place-Placed c i (new_entry (length text) 0x20 c e) (sector_of 512 text) v ready f.low
              f.below f.free (new_entry-IsEntry (length text) 0x20 c e shape)
              (new_entry-IsByte (length text) 0x20 c e shape bytes (omega arith))
              (length-sector_of 512 text) (sector_of-IsByte 512 text chars))

  -- On a ready volume, for a name in an array of at least 11 bytes, with a terminator and without
  -- `%d`, and a text of bytes other than 0, `write_file` faults nowhere. Without a free cluster, or
  -- without a free place in the current directory, it only reports that; otherwise it saves the
  -- file in the first free cluster and the first free place, prints a message with the name, and
  -- leaves the rest of the disk alone.
  pub write_file_lem : WriteResult filename name text v (write_file filename (text ++ 0 ∷ rest) v)
  write_file_lem = cluster (find_free_cluster_lem v ready.valid)
    where
      place_for :
          (c : ℕ)
          → FirstFree (fat v) 2 256 c
          → find_free_cluster v ≡ some c
          → FoundPlace 0 (here v) (find_free_dir_entry 0 (here v))
          → WriteResult filename name text v (write_file filename (text ++ 0 ∷ rest) v)
      place_for c f r (inl (i, place_free, q)) =
          rw
            (write_file-stores filename (text ++ 0 ∷ rest) v (omega (arith, f.low)) r
              (q ∙ ap some (zero-add i)))
            (store_file-saved c i f place_free)
      place_for c f r (inr (none_free, q)) =
          directory_full c f none_free (unfold write_file in ground (arith, r, q, f.low))

      cluster :
          Found (fat v) 2 256 (find_free_cluster v)
          → WriteResult filename name text v (write_file filename (text ++ 0 ∷ rest) v)
      cluster (inl (c, f, r)) = place_for c f r (find_free_dir_entry_lem 0 (here v))
      cluster (inr (none_free, r)) = disk_full none_free (unfold write_file in rw r)
