-- ===== src/Fat16/Entered.antt =====
-- `change_directory` after `make_directory`.
use first_kernel.Base.{
  ℕ, zero, suc, ◌≤◌, ◌<◌, ◌≡◌, ◌≢◌, refl, ap, sym, ◌∙◌, List, [], ◌∷◌, ◌++◌, some, none, get_or,
  set, All, arith, ==_ne, get_or-set_self, replicate,
}
use mathlib.Core.Option.{some-injective}
use native.Mathlib.Nat.{zero-add}
use first_kernel.Base.Text.{codes, c_string}
use first_kernel.CString.{strcmp}
use first_kernel.Fat16.Layout.{DirEntry, attributes, cluster_low, entries}
use first_kernel.Fat16.Volume.{Volume, cluster_to_sector, directory_sector, read_current_directory}
use first_kernel.Fat16.Table.{fat, FirstFree}
use first_kernel.Fat16.Placement.{IsReady}
use first_kernel.Fat16.Directory.{pad_name, find_entry}
use first_kernel.Fat16.Files.{say_name, make_directory, change_directory, search_directory, enter}
use first_kernel.Fat16.Contents.{IsText}
use first_kernel.Fat16.DirectoryName.{pad_name_lem}
use first_kernel.Fat16.Search.{FreeAt, FreeAt-lt, NoneFree, Answers, Agree-is_match, find_entry-set}
use first_kernel.Fat16.Stored.{here, Placed}
use first_kernel.Fat16.NewDirectory.{
  IsDirectoryEntry, MakeResult, no_cluster, no_place, made, make_directory_lem,
}

-- The directory was made, and entering it leads to an empty directory in cluster `c`.
pub record Entered (dirname : List ℕ) (c : ℕ) (v : Volume) : Type 0 where
  pub made_one : Volume
  pub entered : Volume
  pub makes : make_directory dirname v ≡ some made_one
  pub enters : change_directory dirname made_one ≡ some entered
  pub first : FirstFree (fat v) 2 256 c
  pub current : entered.current_dir_cluster ≡ c
  pub empty : here entered ≡ entries (replicate 512 0)

-- A search that finds entry `i`, a directory, enters it.
change_directory-found :
    (dirname : List ℕ) {padded : List ℕ} {i c s t : ℕ} (v : Volume)
    → strcmp dirname (c_string "/") ≡ some s
    → s ≢ 0
    → strcmp dirname (c_string "..") ≡ some t
    → t ≢ 0
    → pad_name dirname ≡ some padded
    → find_entry padded 0 (here v) ≡ some i
    → attributes (get_or (here v) i []) ≡ 0x10
    → cluster_low (get_or (here v) i []) ≡ c
    → change_directory dirname v
      ≡ some (
          say_name
            (codes "Entering the directory '")
            dirname
            (codes "'\n")
            (record v { current_dir_cluster = c }))
unfolding change_directory search_directory enter
change_directory-found dirname v p np q nq pads found attr low = ground arith

-- The entries inside a directory other than the root.
here-inside :
    (v : Volume) (c : ℕ)
    → v.current_dir_cluster ≡ c
    → c ≢ 0
    → here v ≡ entries (v.sectors (cluster_to_sector c))
unfolding read_current_directory directory_sector
here-inside v c e ne = rw e (rw (==_ne c 0 ne))

ascii :
    (text : List ℕ) (j : ℕ)
    → All (λ c. c < 128) text
    → IsText text
    → (get_or text j b' ' < 128) × (get_or text j b' ' ≢ 0)
ascii [] j small chars = (omega arith, omega arith)
ascii (c ∷ text) zero small chars = (small.0, chars.0.0)
ascii (c ∷ text) (suc j) small chars = ascii text j small.1 chars.1

module _ (text rest padded : List ℕ) (v : Volume) (ready : IsReady v) (chars : IsText text)
    (small : All (λ c. c < 128) text) (s t : ℕ)
    (slash : strcmp (text ++ 0 ∷ rest) (c_string "/") ≡ some s) (no_slash : s ≢ 0)
    (dots : strcmp (text ++ 0 ∷ rest) (c_string "..") ≡ some t) (no_dots : t ≢ 0)
    (pads : pad_name (text ++ 0 ∷ rest) ≡ some padded)
    (new : find_entry padded 0 (here v) ≡ none) where
  -- The state that the message of success leaves.
  abbrev after : Volume → Volume
  after = say_name (codes "Directory '") (text ++ 0 ∷ rest) (codes "' successfuly create\n")

  here-after : (v' : Volume) → here (after v') ≡ here v'
  unfolding read_current_directory directory_sector
  here-after v' = refl

  padded_lem : (j : ℕ) → j < 8 → get_or padded j 0 ≡ get_or text j b' '
  padded_lem j h =
      let (padded', same, bytes) = pad_name_lem text rest chars in
      let one : padded ≡ padded' = some-injective padded padded' (sym pads ∙ same) in
      ap (λ (p : List ℕ). get_or p j 0) one ∙ bytes j h ∙ ground arith

  entry-Answers : (c : ℕ) (e : DirEntry) → IsDirectoryEntry text c e → Answers padded e
  entry-Answers c e d = (
    ground (arith, d.named 0, ascii text 0 small chars),
    Agree-is_match 8 0 padded e
        (λ k p q. ground (arith, padded_lem k, d.named k, ascii text k small chars)),
  )

  enter-made :
      (c i : ℕ) (e : DirEntry) (v' : Volume)
      → FirstFree (fat v) 2 256 c
      → FreeAt (here v) i
      → IsDirectoryEntry text c e
      → Placed c i e (replicate 512 0) v v'
      → make_directory (text ++ 0 ∷ rest) v ≡ some (after v')
      → Entered (text ++ 0 ∷ rest) c v
  enter-made c i e v' f place_free d placed r = record {
    made_one = after v';
    entered =
        say_name (codes "Entering the directory '") (text ++ 0 ∷ rest) (codes "'\n")
          (record (after v') { current_dir_cluster = c });
    makes = r;
    enters =
        change_directory-found (text ++ 0 ∷ rest) (after v') slash no_slash dots no_dots pads found
          (ap attributes entry ∙ d.attribute) (ap cluster_low entry ∙ d.cluster);
    first = f;
    current = refl;
    empty = here-inside _ c refl (omega (arith, f.low)) ∙ ap entries placed.content;
  }
    where
      new_here : here (after v') ≡ set (here v) i e
      new_here = here-after v' ∙ placed.directory

      found : find_entry padded 0 (here (after v')) ≡ some i
      found = rw new_here (
          find_entry-set padded 0 (here v) i e place_free new (entry-Answers c e d)
          ∙ ap some (zero-add i))

      entry : get_or (here (after v')) i [] ≡ e
      entry =
          ap (λ (es : List DirEntry). get_or es i []) new_here
          ∙ get_or-set_self (here v) i e [] (FreeAt-lt (here v) i place_free)

  -- On a ready volume with a free cluster and a free place in the current directory, a directory
  -- that is made under an ASCII name that nothing answered to, other than `/` and `..`, can be
  -- entered by that name: the current directory is then the first free cluster, and it is empty.
  pub make_directory-change_directory :
      (k : ℕ)
      → 2 ≤ k
      → k < 256
      → get_or (fat v) k 0 ≡ 0
      → ¬ NoneFree (here v)
      → (c : ℕ) × Entered (text ++ 0 ∷ rest) c v
  make_directory-change_directory k low high free room =
      outcome (make_directory_lem text rest v ready chars)
    where
      outcome :
          MakeResult text (text ++ 0 ∷ rest) v (make_directory (text ++ 0 ∷ rest) v)
          → (c : ℕ) × Entered (text ++ 0 ∷ rest) c v
      outcome (no_cluster none_free r) = absurd (none_free k low high free)
      outcome (no_place c f none_free r) = absurd (room none_free)
      outcome (made c i e v' f place_free d placed r) =
          (c, enter-made c i e v' f place_free d placed r)
