-- ===== src/Fat16/Directory.antt =====
-- The searches of a directory in fs/fat16.c.
use first_kernel.Base.{
  ℕ, zero, suc, ◌+◌, List, [], ◌∷◌, Option, none, some, get_or, ltb, ◌==◌, if◌then◌else◌, Bool,
  true, ◌&&◌, ◌||◌,
}
use first_kernel.Base.Partial.{◌>>=◌}
use first_kernel.CString.{strlen}
use first_kernel.Fat16.Layout.{DirEntry, name}

-- The loop that fills `padded_name` from index `i`, with `left` rounds to go.
unfoldable pub pad_from : ℕ → ℕ → ℕ → List ℕ → List ℕ
pad_from zero i len filename = []
pad_from (suc left) i len filename =
    (if ltb i len then get_or filename i 0 else b' ') ∷ pad_from left (i + 1) len filename

-- `padded_name`
unfoldable pub pad_name : List ℕ → Option (List ℕ)
pad_name filename = do len ← strlen filename; some (pad_from 8 0 len filename)

-- A `char`, which is signed, against an `unsigned char`.
abbrev pub same_char : ℕ → ℕ → Bool
same_char c b = ltb c 128 && c == b

-- The inner loop: `is_match`.
unfoldable pub is_match : ℕ → ℕ → List ℕ → DirEntry → Bool
is_match zero j padded_name e = true
is_match (suc left) j padded_name e =
    same_char (get_or padded_name j 0) (name e j) && is_match left (j + 1) padded_name e

-- The loop over the entries that `cat_file`, `change_directory`, `remove_file` and
-- `execute_program` share: an entry that begins with 0 ends the directory, one that begins with
-- 0xE5 is deleted.
unfoldable pub find_entry : List ℕ → ℕ → List DirEntry → Option ℕ
find_entry padded_name i [] = none
find_entry padded_name i (e ∷ es) =
    let rest = find_entry padded_name (i + 1) es in
    if name e 0 == 0x00
    then none
    else if name e 0 == 0xE5
    then rest
    else if is_match 8 0 padded_name e
    then some i
    else rest

-- The loop of `find_free_dir_entry`; `none` is its -1.
unfoldable pub find_free_dir_entry : ℕ → List DirEntry → Option ℕ
find_free_dir_entry i [] = none
find_free_dir_entry i (e ∷ es) =
    let rest = find_free_dir_entry (i + 1) es in
    if name e 0 == 0x00 || name e 0 == 0xE5 then some i else rest
