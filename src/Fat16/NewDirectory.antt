-- ===== src/Fat16/NewDirectory.antt =====
-- `make_directory` on every branch.
use first_kernel.Base.{
  ℕ, zero, suc, ◌^◌, ◌<◌, ◌≡◌, ◌≢◌, ap, ◌∙◌, List, [], ◌∷◌, ◌++◌, Option, some, length, get_or, All,
  arith, inl, inr, get_or_All, get_or_All_lt, All-of_get_or, dec_lt, replicate, length-replicate,
}
use native.Mathlib.Nat.{zero-add}
use first_kernel.Base.Text.{codes}
use first_kernel.Fat16.Layout.{DirEntry, attributes, cluster_low, size}
use first_kernel.Fat16.Views.{IsByte, IsEntry}
use first_kernel.Fat16.NewEntry.{
  new_entry, new_entry-IsEntry, new_entry-IsByte, new_entry-name, attributes-new_entry,
  cluster_low-new_entry, size-new_entry,
}
use first_kernel.Fat16.Volume.{Volume, say, find_free_cluster}
use first_kernel.Fat16.Table.{
  fat, Found, FirstFree, NoneFree as NoClusterFree, find_free_cluster_lem,
}
use first_kernel.Fat16.Placement.{IsReady}
use first_kernel.Fat16.Files.{say_name, fill_dirname, store_directory, make_directory}
use first_kernel.Fat16.Contents.{IsText, strlen_lem}
use first_kernel.Fat16.DirectoryName.{padded_byte, Written, fill_dirname_lem}
use first_kernel.Fat16.Search.{FreeAt, FreeAt-lt, NoneFree, FoundPlace, find_free_dir_entry_lem}
use first_kernel.Fat16.Stored.{here, here-IsDirectory, Placed, place, place-Placed}
use first_kernel.Fat16.Directory.{find_free_dir_entry}

-- The entry of a new directory.
pub record IsDirectoryEntry (text : List ℕ) (c : ℕ) (e : DirEntry) : Type 0 where
  pub named : (j : ℕ) → j < 11 → get_or e j 0 ≡ padded_byte text j
  pub attribute : attributes e ≡ 0x10
  pub cluster : cluster_low e ≡ c
  pub sized : size e ≡ 0

-- What `make_directory` can do: report a full disk, report a full directory, or make an empty
-- directory.
pub data MakeResult (text dirname : List ℕ) (v : Volume) (result : Option Volume) : Type 0 where
  no_cluster :
      NoClusterFree (fat v) 2 256
      → result ≡ some (say (codes "Error: disk is full\n") v)
      → MakeResult text dirname v result
  no_place :
      (c : ℕ)
      → FirstFree (fat v) 2 256 c
      → NoneFree (here v)
      → result ≡ some (say (codes "Error: root dir is full\n") v)
      → MakeResult text dirname v result
  made :
      (c i : ℕ) (e : DirEntry) (v' : Volume)
      → FirstFree (fat v) 2 256 c
      → FreeAt (here v) i
      → IsDirectoryEntry text c e
      → Placed c i e (replicate 512 0) v v'
      → result ≡ some (say_name (codes "Directory '") dirname (codes "' successfuly create\n") v')
      → MakeResult text dirname v result

zeros-IsByte : (n : ℕ) → All IsByte (replicate n 0)
zeros-IsByte zero = tt
zeros-IsByte (suc n) = (omega arith, zeros-IsByte n)

text-IsByte : (text : List ℕ) (j : ℕ) → IsText text → IsByte (get_or text j b' ')
text-IsByte [] j chars = omega arith
text-IsByte (c ∷ text) zero chars = chars.0.1
text-IsByte (c ∷ text) (suc j) chars = text-IsByte text j chars.1

padded_byte-IsByte : (text : List ℕ) (j : ℕ) → IsText text → IsByte (padded_byte text j)
padded_byte-IsByte text j chars = ground (arith, text-IsByte text j chars)

make_directory-stores :
    {c i : ℕ} (dirname : List ℕ) (v : Volume)
    → c ≢ 0
    → find_free_cluster v ≡ some c
    → find_free_dir_entry 0 (here v) ≡ some i
    → make_directory dirname v ≡ store_directory c i dirname v
unfolding make_directory
make_directory-stores dirname v nonzero r q = ground (arith, r, q)

module _ (text rest : List ℕ) (v : Volume) (ready : IsReady v) (chars : IsText text) where
  module _ (c i : ℕ) (f : FirstFree (fat v) 2 256 c) (place_free : FreeAt (here v) i) where
    old : DirEntry
    old = get_or (here v) i []

    filled : DirEntry
    filled = fill_dirname 11 0 (length text) (text ++ 0 ∷ rest) old

    entry : DirEntry
    entry = new_entry 0 0x10 c filled

    old-IsEntry : IsEntry old
    unfolding old
    old-IsEntry =
        get_or_All_lt IsEntry (here v) i [] (here-IsDirectory v ready.valid).shape
          (FreeAt-lt (here v) i place_free)

    old-IsByte : All IsByte old
    unfolding old
    old-IsByte =
        get_or_All_lt (All IsByte) (here v) i [] (here-IsDirectory v ready.valid).bytes
          (FreeAt-lt (here v) i place_free)

    filled-Written : Written 11 0 text old filled
    unfolding filled
    filled-Written = fill_dirname_lem text rest 11 0 old (omega (arith, old-IsEntry))

    filled-IsEntry : IsEntry filled
    filled-IsEntry = filled-Written.same_length ∙ old-IsEntry

    filled-IsByte : All IsByte filled
    filled-IsByte = All-of_get_or IsByte filled 0 byte
      where
        byte : (j : ℕ) → j < length filled → get_or filled j 0 < 2 ^ 8
        byte j h = elim (dec_lt j 11) [
          | yes p ↦
              rw (filled-Written.inside j (omega arith) (omega arith))
                (padded_byte-IsByte text j chars)
          | no p ↦
              rw (filled-Written.outside j (inr (omega arith)))
                (get_or_All IsByte old j 0 old-IsByte (omega arith))
        ]

    entry-IsDirectoryEntry : IsDirectoryEntry text c entry
    unfolding entry
    entry-IsDirectoryEntry = record {
      named = λ j h.
          new_entry-name 0 0x10 c filled filled-IsEntry j h
          ∙ filled-Written.inside j (omega arith) (omega arith);
      attribute = attributes-new_entry 0 0x10 c filled filled-IsEntry;
      cluster = cluster_low-new_entry 0 0x10 c filled filled-IsEntry (omega (arith, f.below));
      sized = size-new_entry 0 0x10 c filled filled-IsEntry;
    }

    entry-Placed :
        (v' : Volume) × (place c i entry (replicate 512 0) v ≡ some v')
        × Placed c i entry (replicate 512 0) v v'
    unfolding entry
    entry-Placed =
        place-Placed c i (new_entry 0 0x10 c filled) (replicate 512 0) v ready f.low f.below f.free
          (new_entry-IsEntry 0 0x10 c filled filled-IsEntry)
          (new_entry-IsByte 0 0x10 c filled filled-IsEntry filled-IsByte (omega arith))
          (length-replicate {A = ℕ} 512 0) (zeros-IsByte 512)

    store_directory-made :
        MakeResult text (text ++ 0 ∷ rest) v (store_directory c i (text ++ 0 ∷ rest) v)
    store_directory-made =
        let (v', q, p) = entry-Placed in
        made c i entry v' f place_free entry-IsDirectoryEntry p
          (unfold store_directory entry filled old in rw (strlen_lem text rest chars, q))

  -- On a ready volume, for a name of bytes other than 0, `make_directory` faults nowhere. Without a
  -- free cluster, or without a free place in the current directory, it only reports that; otherwise
  -- it makes an empty directory in the first free cluster, with an entry for it in the first free
  -- place, and leaves the rest of the disk alone. Its message has what `c_text` gives for the name, so
  -- that a `%d` in the name shows there as a missing argument.
  pub make_directory_lem :
      MakeResult text (text ++ 0 ∷ rest) v (make_directory (text ++ 0 ∷ rest) v)
  make_directory_lem = cluster (find_free_cluster_lem v ready.valid)
    where
      place_for :
          (c : ℕ)
          → FirstFree (fat v) 2 256 c
          → find_free_cluster v ≡ some c
          → FoundPlace 0 (here v) (find_free_dir_entry 0 (here v))
          → MakeResult text (text ++ 0 ∷ rest) v (make_directory (text ++ 0 ∷ rest) v)
      place_for c f r (inl (i, place_free, q)) =
          rw
            (make_directory-stores (text ++ 0 ∷ rest) v (omega (arith, f.low)) r
              (q ∙ ap some (zero-add i)))
            (store_directory-made c i f place_free)
      place_for c f r (inr (none_free, q)) =
          no_place c f none_free (unfold make_directory in ground (arith, r, q, f.low))

      cluster :
          Found (fat v) 2 256 (find_free_cluster v)
          → MakeResult text (text ++ 0 ∷ rest) v (make_directory (text ++ 0 ∷ rest) v)
      cluster (inl (c, f, r)) = place_for c f r (find_free_dir_entry_lem 0 (here v))
      cluster (inr (none_free, r)) = no_cluster none_free (unfold make_directory in rw r)
