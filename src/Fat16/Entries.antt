-- ===== src/Fat16/Entries.antt =====
-- A directory sector as its 16 entries, and back.
use first_kernel.Base.{
  ℕ, zero, suc, ◌≡◌, ◌∙◌, List, [], ◌∷◌, length, set, drop, All, arith, length-set, set-All,
  take-All, drop-All, append_All,
}
use first_kernel.Fat16.Layout.{DirEntry, entry_size, entries, split_entries, join_entries}
use first_kernel.Fat16.Views.{
  IsByte, IsEntry, split_entries-join_entries, length-split_entries, split_entries-IsEntry,
  length-join_entries,
}

pub record IsDirectory (es : List DirEntry) : Type 0 where
  pub count : length es ≡ 16
  pub shape : All IsEntry es
  pub bytes : All (All IsByte) es

split_entries-IsByte :
    (count : ℕ) (buffer : List ℕ)
    → All IsByte buffer
    → All (All IsByte) (split_entries count buffer)
unfolding split_entries
split_entries-IsByte zero buffer a = tt
split_entries-IsByte (suc count) buffer a = (
  take-All IsByte entry_size buffer a,
  split_entries-IsByte count (drop entry_size buffer) (drop-All IsByte entry_size buffer a),
)

join_entries-IsByte : (es : List DirEntry) → All (All IsByte) es → All IsByte (join_entries es)
unfolding join_entries
join_entries-IsByte [] a = tt
join_entries-IsByte (e ∷ es) a =
    append_All IsByte e (join_entries es) a.0 (join_entries-IsByte es a.1)

pub entries-IsDirectory :
    (buffer : List ℕ) → length buffer ≡ 512 → All IsByte buffer → IsDirectory (entries buffer)
unfolding entries
entries-IsDirectory buffer h a = record {
  count = length-split_entries 16 buffer;
  shape = split_entries-IsEntry 16 buffer (omega arith);
  bytes = split_entries-IsByte 16 buffer a;
}

module _ (es : List DirEntry) (d : IsDirectory es) where
  pub length-join : length (join_entries es) ≡ 512
  length-join = omega (arith, length-join_entries es d.shape, d.count)

  pub join-IsByte : All IsByte (join_entries es)
  join-IsByte = join_entries-IsByte es d.bytes

  pub entries-join : entries (join_entries es) ≡ es
  unfolding entries
  entries-join = split_entries-join_entries es 16 d.count d.shape

  pub set-IsDirectory : (i : ℕ) (e : DirEntry) → IsEntry e → All IsByte e → IsDirectory (set es i e)
  set-IsDirectory i e h a = record {
    count = length-set es i e ∙ d.count;
    shape = set-All IsEntry es i e d.shape h;
    bytes = set-All (All IsByte) es i e d.bytes a;
  }
