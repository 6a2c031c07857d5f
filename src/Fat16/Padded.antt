-- ===== src/Fat16/Padded.antt =====
-- The padding of names that the searches of fs/fat16.c and `cmd_write` of kernel/shell.c share.
use first_kernel.Base.{
  sym, ℕ, zero, suc, ◌+◌, ◌≡◌, refl, ap, ap₂, ◌∙◌, List, [], ◌∷◌, ◌++◌, some, All, length, get_or,
  drop, arith,
}
use first_kernel.Fat16.Directory.{pad_from, pad_name}
use first_kernel.Fat16.Contents.{IsText, strlen_lem}
use first_kernel.Fat16.DirectoryName.{picked}

-- A text in a field of a given width, spaces behind it.
abbrev pub stretched : ℕ → List ℕ → List ℕ
stretched zero text = []
stretched (suc n) [] = b' ' ∷ stretched n []
stretched (suc n) (c ∷ text) = c ∷ stretched n text

pub length-stretched : (n : ℕ) (text : List ℕ) → length (stretched n text) ≡ n
length-stretched zero text = refl
length-stretched (suc n) [] = ap suc (length-stretched n [])
length-stretched (suc n) (c ∷ text) = ap suc (length-stretched n text)

pub stretched-All {κ} :
    (P : ℕ → Type κ) (n : ℕ) (text : List ℕ) → P b' ' → All P text → All P (stretched n text)
stretched-All P zero text sp h = tt
stretched-All P (suc n) [] sp h = (sp, stretched-All P n [] sp tt)
stretched-All P (suc n) (c ∷ text) sp h = (h.0, stretched-All P n text sp h.1)

stretched-drop :
    (n i : ℕ) (text : List ℕ)
    → stretched (suc n) (drop i text) ≡ get_or text i b' ' ∷ stretched n (drop (suc i) text)
stretched-drop n zero [] = refl
stretched-drop n zero (c ∷ text) = refl
stretched-drop n (suc i) [] = refl
stretched-drop n (suc i) (c ∷ text) = stretched-drop n i text

pub pad_from-stretched :
    (left i : ℕ) (text rest : List ℕ)
    → pad_from left i (length text) (text ++ 0 ∷ rest) ≡ stretched left (drop i text)
unfolding pad_from
pad_from-stretched zero i text rest = refl
pad_from-stretched (suc left) i text rest =
    ap₂ (λ (c : ℕ) (cs : List ℕ). c ∷ cs) (picked text rest i)
      (pad_from-stretched left (i + 1) text rest
        ∙ ap (λ (k : ℕ). stretched left (drop k text)) (next i))
    ∙ sym (stretched-drop left i text)
  where
    next : (k : ℕ) → k + 1 ≡ suc k
    next k = omega arith

pub pad_name-stretched :
    (text rest : List ℕ) → IsText text → pad_name (text ++ 0 ∷ rest) ≡ some (stretched 8 text)
unfolding pad_name
pad_name-stretched text rest chars =
    rw (strlen_lem text rest chars) (ap some (pad_from-stretched 8 0 text rest))
