-- ===== src/Fat16/Views.antt =====
-- The casts of Fat16/Layout and their inverses.
use first_kernel.Base.{
  take-append, ◌&&◌, ltb, Bool, true, ℕ, zero, suc, ◌+◌, ◌*◌, ◌/◌, ◌%◌, ◌^◌, ◌≤◌, ◌<◌, ◌≡◌, refl,
  ap, ap₂, ◌∙◌, List, [], ◌∷◌, ◌++◌, length, get_or, get_elem?, set, drop, All, arith,
  length-append, length-set, length-take, length-drop, get_or-set_self, get_or-set_ne, some,
}
use first_kernel.Fat16.Layout.{
  words, unwords, DirEntry, entry_size, split_entries, join_entries, cluster_low, set_cluster_low,
  set_size,
}

abbrev pub IsByte : ℕ → Type 0
IsByte b = b < 2 ^ 8

abbrev pub IsWord : ℕ → Type 0
IsWord w = w < 2 ^ 16

abbrev pub IsEntry : DirEntry → Type 0
IsEntry e = length e ≡ entry_size

pub words-unwords : (ws : List ℕ) → All IsWord ws → words (unwords ws) ≡ ws
unfolding words unwords
words-unwords [] h = refl
words-unwords (w ∷ ws) h = ap₂ ◌∷◌ (omega (arith, h.0)) (words-unwords ws h.1)

pub length-words : (bytes : List ℕ) → length (words bytes) ≡ length bytes / 2
unfolding words
length-words [] = refl
length-words (lo ∷ []) = refl
length-words (lo ∷ hi ∷ bytes) = omega (arith, length-words bytes)

pub length-unwords : (ws : List ℕ) → length (unwords ws) ≡ 2 * length ws
unfolding unwords
length-unwords [] = refl
length-unwords (w ∷ ws) = omega (arith, length-unwords ws)

pub words-IsWord : (bytes : List ℕ) → All IsByte bytes → All IsWord (words bytes)
unfolding words
words-IsWord [] h = tt
words-IsWord (lo ∷ []) h = tt
words-IsWord (lo ∷ hi ∷ bytes) h = (omega (arith, h.0, h.1.0), words-IsWord bytes h.1.1)

pub unwords-IsByte : (ws : List ℕ) → All IsByte (unwords ws)
unfolding unwords
unwords-IsByte [] = tt
unwords-IsByte (w ∷ ws) = (omega arith, (omega arith, unwords-IsByte ws))

-- The bytes of a word in the sector, and the word from its bytes.
pub get_elem?-unwords :
    (ws : List ℕ) (i : ℕ)
    → i < length ws
    → (get_elem? (unwords ws) (i * 2) ≡ some (get_or ws i 0 % 2 ^ 8))
      × (get_elem? (unwords ws) (i * 2 + 1) ≡ some (get_or ws i 0 / 2 ^ 8 % 2 ^ 8))
unfolding unwords
get_elem?-unwords [] i h = absurd (omega arith)
get_elem?-unwords (w ∷ ws) zero h = (refl, refl)
get_elem?-unwords (w ∷ ws) (suc i) h = rw (low, high) (get_elem?-unwords ws i (omega arith))
  where
    low : suc i * 2 ≡ suc (suc (i * 2))
    low = omega arith

    high : suc (suc (i * 2)) + 1 ≡ suc (suc (i * 2 + 1))
    high = omega arith

drop-append {ℓ} : {A : Type ℓ} (xs ys : List A) (n : ℕ) → length xs ≡ n → drop n (xs ++ ys) ≡ ys
drop-append [] ys zero h = refl
drop-append [] ys (suc n) h = absurd (omega arith)
drop-append (x ∷ xs) ys zero h = absurd (omega arith)
drop-append (x ∷ xs) ys (suc n) h = drop-append xs ys n (omega arith)

pub split_entries-join_entries :
    (es : List DirEntry) (count : ℕ)
    → length es ≡ count
    → All IsEntry es
    → split_entries count (join_entries es) ≡ es
unfolding split_entries join_entries
split_entries-join_entries [] zero h a = refl
split_entries-join_entries [] (suc count) h a = absurd (omega arith)
split_entries-join_entries (e ∷ es) zero h a = absurd (omega arith)
split_entries-join_entries (e ∷ es) (suc count) h a = rw (
  take-append e (join_entries es) entry_size a.0,
  drop-append e (join_entries es) entry_size a.0,
  split_entries-join_entries es count (omega arith) a.1,
)

pub length-split_entries : (count : ℕ) (bytes : List ℕ) → length (split_entries count bytes) ≡ count
unfolding split_entries
length-split_entries zero bytes = refl
length-split_entries (suc count) bytes = ap suc (length-split_entries count (drop entry_size bytes))

pub split_entries-IsEntry :
    (count : ℕ) (bytes : List ℕ)
    → count * entry_size ≤ length bytes
    → All IsEntry (split_entries count bytes)
unfolding split_entries
split_entries-IsEntry zero bytes h = tt
split_entries-IsEntry (suc count) bytes h = (
  omega (arith, length-take entry_size bytes),
  split_entries-IsEntry count (drop entry_size bytes) (omega (arith, length-drop entry_size bytes)),
)

pub length-join_entries :
    (es : List DirEntry) → All IsEntry es → length (join_entries es) ≡ length es * entry_size
unfolding join_entries
length-join_entries [] a = refl
length-join_entries (e ∷ es) a =
    omega (arith, length-append e (join_entries es), a.0, length-join_entries es a.1)

module _ (e : DirEntry) (shape : IsEntry e) where
  pub length-set_size : (n : ℕ) → IsEntry (set_size e n)
  length-set_size n = simp length-set shape

  pub set_cluster_low-IsEntry : (c : ℕ) → IsEntry (set_cluster_low e c)
  set_cluster_low-IsEntry c = simp length-set shape

  pub cluster_low-set_cluster_low : (c : ℕ) → IsWord c → cluster_low (set_cluster_low e c) ≡ c
  cluster_low-set_cluster_low c h = ground (
    arith,
    get_or-set_self (set e 26 (c % 2 ^ 8)) 27 (c / 2 ^ 8 % 2 ^ 8) 0,
    get_or-set_ne (set e 26 (c % 2 ^ 8)) 27 26 (c / 2 ^ 8 % 2 ^ 8) 0,
    get_or-set_self e 26 (c % 2 ^ 8) 0,
    length-set e 26 (c % 2 ^ 8),
  )

-- A field is not touched by writes at other offsets.
pub name-set_cluster_low :
    (e : DirEntry) (c j : ℕ) → j < 26 → get_or (set_cluster_low e c) j 0 ≡ get_or e j 0
name-set_cluster_low e c j h =
    get_or-set_ne (set e 26 (c % 2 ^ 8)) 27 j (c / 2 ^ 8 % 2 ^ 8) 0 (omega arith)
    ∙ get_or-set_ne e 26 j (c % 2 ^ 8) 0 (omega arith)

pub name-set_size : (e : DirEntry) (n j : ℕ) → j < 28 → get_or (set_size e n) j 0 ≡ get_or e j 0
name-set_size e n j h =
    get_or-set_ne _ 31 j (n / 2 ^ 24 % 2 ^ 8) 0 (omega arith)
    ∙ get_or-set_ne _ 30 j (n / 2 ^ 16 % 2 ^ 8) 0 (omega arith)
    ∙ get_or-set_ne _ 29 j (n / 2 ^ 8 % 2 ^ 8) 0 (omega arith)
    ∙ get_or-set_ne e 28 j (n % 2 ^ 8) 0 (omega arith)

-- A test for closed lists.
abbrev pub all_bytes : List ℕ → Bool
all_bytes [] = true
all_bytes (b ∷ bytes) = ltb b 256 && all_bytes bytes

pub all_bytes-IsByte : (bytes : List ℕ) → all_bytes bytes ≡ true → All IsByte bytes
all_bytes-IsByte [] h = tt
all_bytes-IsByte (b ∷ bytes) h = (ground arith, all_bytes-IsByte bytes (ground arith))
