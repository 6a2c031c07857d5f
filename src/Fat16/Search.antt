-- ===== src/Fat16/Search.antt =====
-- The searches of Fat16/Directory: what they find, and what a new entry in the free place changes.
use first_kernel.Base.{
  ℕ, zero, suc, ◌+◌, ◌≤◌, ◌<◌, ◌≡◌, refl, subst, sym, ◌∙◌, List, [], ◌∷◌, Option, none, some, Bool,
  Bool-cases, true, false, ◌==◌, ==_iff, ◌||◌, length, get_or, set, arith, inl, inr, ◌⊎◌,
}
use first_kernel.Fat16.Layout.{DirEntry, name}
use first_kernel.Fat16.Directory.{is_match, find_entry, find_free_dir_entry}

-- A place that a new entry may take: the end of the directory, or a deleted entry.
abbrev pub is_free : DirEntry → Bool
is_free e = name e 0 == 0x00 || name e 0 == 0xE5

-- Place `i` is the first such place.
abbrev pub FreeAt : List DirEntry → ℕ → Type 0
FreeAt [] i = ⊥
FreeAt (e ∷ es) zero = is_free e ≡ true
FreeAt (e ∷ es) (suc i) = (is_free e ≡ false) × FreeAt es i

abbrev pub NoneFree : List DirEntry → Type 0
NoneFree [] = Unit
NoneFree (e ∷ es) = (is_free e ≡ false) × NoneFree es

pub FreeAt-lt : (es : List DirEntry) (i : ℕ) → FreeAt es i → i < length es
FreeAt-lt [] i h = absurd h
FreeAt-lt (e ∷ es) zero h = omega arith
FreeAt-lt (e ∷ es) (suc i) h = omega (arith, FreeAt-lt es i h.1)

module _ (k : ℕ) (e : DirEntry) (es : List DirEntry) where
  find_free-here : is_free e ≡ true → find_free_dir_entry k (e ∷ es) ≡ some k
  unfolding find_free_dir_entry
  find_free-here h = rw h

  find_free-later :
      is_free e ≡ false → find_free_dir_entry k (e ∷ es) ≡ find_free_dir_entry (k + 1) es
  unfolding find_free_dir_entry
  find_free-later h = rw h

-- What a search that counts from `k` returns.
abbrev pub FoundPlace : ℕ → List DirEntry → Option ℕ → Type 0
FoundPlace k es result =
    ((i : ℕ) × FreeAt es i × (result ≡ some (k + i))) ⊎ (NoneFree es × (result ≡ none))

FoundPlace-cons :
    (k : ℕ) (e : DirEntry) (es : List DirEntry) {result : Option ℕ}
    → is_free e ≡ false
    → FoundPlace (k + 1) es result
    → FoundPlace k (e ∷ es) result
FoundPlace-cons k e es live (inl (i, f, r)) = inl (suc i, (live, f), ground arith)
FoundPlace-cons k e es live (inr (n, r)) = inr ((live, n), r)

-- `find_free_dir_entry` returns the first free place, or its -1 if there is none.
pub find_free_dir_entry_lem :
    (k : ℕ) (es : List DirEntry) → FoundPlace k es (find_free_dir_entry k es)
find_free_dir_entry_lem k [] = inr (tt, unfold find_free_dir_entry in refl)
find_free_dir_entry_lem k (e ∷ es) = elim (Bool-cases (is_free e)) [
  | inl free ↦ inl (0, free, find_free-here k e es free ∙ ground arith)
  | inr live ↦ FoundPlace-cons k e es live (
      subst (FoundPlace (k + 1) es) (sym (find_free-later k e es live))
        (find_free_dir_entry_lem (k + 1) es))
]

-- An entry that is in use and whose name is the one sought.
abbrev pub Answers : List ℕ → DirEntry → Type 0
Answers padded_name e = (is_free e ≡ false) × (is_match 8 0 padded_name e ≡ true)

-- With a new entry in the first free place, a name that was not found before is found there.
pub find_entry-set :
    (padded_name : List ℕ) (k : ℕ) (es : List DirEntry) (i : ℕ) (e' : DirEntry)
    → FreeAt es i
    → find_entry padded_name k es ≡ none
    → Answers padded_name e'
    → find_entry padded_name k (set es i e') ≡ some (k + i)
unfolding find_entry
find_entry-set padded_name k [] i e' f h a = absurd f
find_entry-set padded_name k (e ∷ es) zero e' f h a = ground arith
find_entry-set padded_name k (e ∷ es) (suc i) e' f h a =
    ground (arith, find_entry-set padded_name (k + 1) es i e')

-- `left` bytes from `j` on agree, as a `char` and an `unsigned char` agree: below 128.
abbrev pub Agree : ℕ → ℕ → List ℕ → DirEntry → Type 0
Agree left j padded_name e =
    (k : ℕ)
    → j ≤ k
    → k < j + left
    → (get_or padded_name k 0 < 128) × (get_or padded_name k 0 ≡ name e k)

pub is_match-Agree :
    (left j : ℕ) (padded_name : List ℕ) (e : DirEntry)
    → is_match left j padded_name e ≡ true
    → Agree left j padded_name e
unfolding is_match
is_match-Agree zero j padded_name e h k p q = absurd (omega arith)
is_match-Agree (suc left) j padded_name e h k p q = elim (Bool-cases (j == k)) [
  | inl here ↦ rw (← (==_iff j k).0 here) (ground arith)
  | inr later ↦
      is_match-Agree left (j + 1) padded_name e (ground arith) k (ground arith) (omega arith)
]

pub Agree-is_match :
    (left j : ℕ) (padded_name : List ℕ) (e : DirEntry)
    → Agree left j padded_name e
    → is_match left j padded_name e ≡ true
unfolding is_match
Agree-is_match zero j padded_name e h = refl
Agree-is_match (suc left) j padded_name e h = ground (
  arith,
  h j,
  Agree-is_match left (j + 1) padded_name e (λ k p q. h k (omega arith) (omega arith)),
)

-- What `find_entry` finds is an entry of the directory that answers to the name.
pub find_entry-some :
    (padded_name : List ℕ) (k n : ℕ) (es : List DirEntry)
    → find_entry padded_name k es ≡ some n
    → (i : ℕ) × (n ≡ k + i) × (i < length es) × Answers padded_name (get_or es i [])
unfolding find_entry
find_entry-some padded_name k n [] h = absurd (ground arith)
find_entry-some padded_name k n (e ∷ es) h = elim (Bool-cases (name e 0 == 0x00)) [
  | inl end ↦ absurd (ground arith)
  | inr more ↦ elim (Bool-cases (name e 0 == 0xE5)) [
    | inl deleted ↦ later (find_entry-some padded_name (k + 1) n es (ground arith))
    | inr live ↦ elim (Bool-cases (is_match 8 0 padded_name e)) [
      | inl same ↦ (0, ground arith, omega arith, (ground arith, same))
      | inr other ↦ later (find_entry-some padded_name (k + 1) n es (ground arith))
    ]
  ]
]
  where
    later :
        ((i : ℕ) × (n ≡ k + 1 + i) × (i < length es) × Answers padded_name (get_or es i []))
        → (i : ℕ) × (n ≡ k + i) × (i < length (e ∷ es)) × Answers padded_name (get_or (e ∷ es) i [])
    later (i, p, q, a) = (suc i, omega arith, omega arith, a)
