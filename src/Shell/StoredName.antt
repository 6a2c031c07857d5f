-- ===== src/Shell/StoredName.antt =====
-- `fat_name` of kernel/shell.c, the name in eleven bytes that `cmd_write` builds.
use first_kernel.Base.{
  lt→ltb, get_or-append, append_All, get_or_All, ℕ, ◌<◌, ◌≡◌, ◌≢◌, refl, ap, ap₂, sym, ◌∙◌, List,
  [], ◌∷◌, ◌++◌, some, All, length, get_or, arith, append_assoc, length-append,
}
use first_kernel.Base.Text.{IsText, IsPlain, no_percent-IsPlain}
use first_kernel.CString.Words.{IsWord}
use first_kernel.Fat16.Views.{IsByte}
use first_kernel.Fat16.Search.{Agree}
use first_kernel.Fat16.Contents.{strlen_lem}
use first_kernel.Fat16.Padded.{stretched-All, length-stretched, stretched, pad_from-stretched}
use first_kernel.Shell.Commands.{fat_name}

-- A character of a name: ASCII, no space, and no `%`, which begins a format.
abbrev pub IsNameChar : ℕ → Type 0
IsNameChar c = (c ≢ 0) × (c ≢ b' ') × (c < 128) × (c ≢ b'%')

-- A character of a name as it is stored, where spaces are padding.
abbrev IsStoredChar : ℕ → Type 0
IsStoredChar c = (c ≢ 0) × (c < 128) × (c ≢ b'%')

pub name-IsText : (word : List ℕ) → All IsNameChar word → IsText word
name-IsText [] h = tt
name-IsText (c ∷ word) h = ((h.0.0, omega (arith, h.0.2)), name-IsText word h.1)

pub name-IsWord : (word : List ℕ) → All IsNameChar word → IsWord b' ' word
name-IsWord [] h = tt
name-IsWord (c ∷ word) h = ((h.0.0, h.0.1), name-IsWord word h.1)

pub text-IsWord : (text : List ℕ) → IsText text → IsWord 0 text
text-IsWord [] h = tt
text-IsWord (c ∷ text) h = ((h.0.0, h.0.0), text-IsWord text h.1)

-- The eleven bytes of a name and an extension, and the terminator.
abbrev pub stored_text : List ℕ → List ℕ → List ℕ
stored_text name ext = stretched 8 name ++ stretched 3 ext

abbrev pub stored_name : List ℕ → List ℕ → List ℕ
stored_name name ext = stored_text name ext ++ 0 ∷ []

name-IsStoredChar : (word : List ℕ) → All IsNameChar word → All IsStoredChar word
name-IsStoredChar [] h = tt
name-IsStoredChar (c ∷ word) h = ((h.0.0, h.0.2, h.0.3), name-IsStoredChar word h.1)

stretched-IsStoredChar :
    (n : ℕ) (word : List ℕ) → All IsNameChar word → All IsStoredChar (stretched n word)
stretched-IsStoredChar n word h =
    stretched-All IsStoredChar n word (omega arith, omega arith, omega arith)
      (name-IsStoredChar word h)

stored-IsStoredChar :
    (name ext : List ℕ)
    → All IsNameChar name
    → All IsNameChar ext
    → All IsStoredChar (stored_text name ext)
stored-IsStoredChar name ext n e =
    append_All IsStoredChar (stretched 8 name) (stretched 3 ext) (stretched-IsStoredChar 8 name n)
      (stretched-IsStoredChar 3 ext e)

All-map : {P Q : ℕ → Type 0} (cs : List ℕ) → ((c : ℕ) → P c → Q c) → All P cs → All Q cs
All-map [] f h = tt
All-map (c ∷ cs) f h = (f c h.0, All-map cs f h.1)

pub stored-IsText :
    (name ext : List ℕ) → All IsNameChar name → All IsNameChar ext → IsText (stored_text name ext)
stored-IsText name ext n e =
    All-map (stored_text name ext) (λ c h. (h.0, omega (arith, h.1)))
      (stored-IsStoredChar name ext n e)

pub stored-IsPlain :
    (name ext : List ℕ) → All IsNameChar name → All IsNameChar ext → IsPlain (stored_text name ext)
stored-IsPlain name ext n e =
    no_percent-IsPlain (stored_text name ext)
      (All-map (stored_text name ext) (λ c h. h.2) (stored-IsStoredChar name ext n e))

pub length-stored : (name ext : List ℕ) → length (stored_name name ext) ≡ 12
length-stored name ext = omega (
  arith,
  length-append (stretched 8 name ++ stretched 3 ext) (0 ∷ []),
  length-append (stretched 8 name) (stretched 3 ext),
  length-stretched 8 name,
  length-stretched 3 ext,
)

pub stored-IsByte :
    (name ext : List ℕ)
    → All IsNameChar name
    → All IsNameChar ext
    → All IsByte (stored_name name ext)
stored-IsByte name ext n e =
    append_All IsByte (stored_text name ext) (0 ∷ [])
      (All-map (stored_text name ext) (λ c h. omega (arith, h.1))
        (stored-IsStoredChar name ext n e))
      (omega arith, tt)

pub stored-Agree :
    (name ext : List ℕ) → All IsNameChar name → Agree 8 0 (stretched 8 name) (stored_name name ext)
stored-Agree name ext n k low high = (
  get_or_All (λ (c : ℕ). c < 128) (stretched 8 name) k 0
      (All-map (stretched 8 name) (λ c h. h.1) (stretched-IsStoredChar 8 name n)) (omega arith),
  sym (
      ap (λ (cs : List ℕ). get_or cs k 0)
        (append_assoc (stretched 8 name) (stretched 3 ext) (0 ∷ []))
      ∙ get_or-append (stretched 8 name) (stretched 3 ext ++ 0 ∷ []) k 0
      ∙ rw (length-stretched 8 name, lt→ltb k 8 high) refl),
)

pub fat_name_lem :
    (name ext rest rest' : List ℕ)
    → IsText name
    → IsText ext
    → fat_name (name ++ 0 ∷ rest) (ext ++ 0 ∷ rest') ≡ some (stored_name name ext)
unfolding fat_name
fat_name_lem name ext rest rest' n e =
    rw (strlen_lem name rest n, strlen_lem ext rest' e)
      (ap₂ (λ (xs ys : List ℕ). some (xs ++ ys ++ 0 ∷ [])) (pad_from-stretched 8 0 name rest)
        (pad_from-stretched 3 0 ext rest'))
