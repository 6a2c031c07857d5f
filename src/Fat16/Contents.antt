-- ===== src/Fat16/Contents.antt =====
-- The content of a file in its sector: the first 511 characters, then zeros.
use first_kernel.Base.{
  ℕ, zero, suc, ◌+◌, ◌<◌, ◌≡◌, ◌≢◌, refl, ap, sym, ◌∙◌, List, [], ◌∷◌, ◌++◌, append_assoc, some,
  length, set, take, replicate, All, arith, length-append,
}
pub use first_kernel.Base.Text.{IsChar, IsText, IsPlain}
use first_kernel.CString.{strlen}
use first_kernel.Fat16.Volume.{c_text}
use first_kernel.Fat16.Files.{copy_content}
use first_kernel.Fat16.Views.{IsByte}

-- `n` bytes: the text as far as it fits before the last byte, which is 0.
abbrev pub sector_of : ℕ → List ℕ → List ℕ
sector_of zero text = []
sector_of (suc zero) text = 0 ∷ []
sector_of (suc (suc n)) [] = 0 ∷ sector_of (suc n) []
sector_of (suc (suc n)) (c ∷ text) = c ∷ sector_of (suc n) text

pub length-sector_of : (n : ℕ) (text : List ℕ) → length (sector_of n text) ≡ n
length-sector_of zero text = refl
length-sector_of (suc zero) text = refl
length-sector_of (suc (suc n)) [] = ap suc (length-sector_of (suc n) [])
length-sector_of (suc (suc n)) (c ∷ text) = ap suc (length-sector_of (suc n) text)

pub sector_of-IsByte : (n : ℕ) (text : List ℕ) → IsText text → All IsByte (sector_of n text)
sector_of-IsByte zero text t = tt
sector_of-IsByte (suc zero) text t = (omega arith, tt)
sector_of-IsByte (suc (suc n)) [] t = (omega arith, sector_of-IsByte (suc n) [] tt)
sector_of-IsByte (suc (suc n)) (c ∷ text) t = (t.0.1, sector_of-IsByte (suc n) text t.1)

-- The last byte is 0 already.
pub set-sector_of :
    (n : ℕ) (text : List ℕ) → set (sector_of (suc n) text) n 0 ≡ sector_of (suc n) text
set-sector_of zero text = refl
set-sector_of (suc n) [] = ap (λ t. 0 ∷ t) (set-sector_of n [])
set-sector_of (suc n) (c ∷ text) = ap (λ t. c ∷ t) (set-sector_of n text)

-- Printed, the sector gives a text without `%d` back, as far as it fits.
pub c_text-sector_of :
    (n : ℕ) (text : List ℕ)
    → IsText text
    → IsPlain text
    → c_text (sector_of (suc n) text) ≡ take n text
unfolding c_text
c_text-sector_of zero text t p = refl
c_text-sector_of (suc n) [] t p = refl
c_text-sector_of (suc zero) (c ∷ text) t p = ground (arith, t.0.0)
c_text-sector_of (suc (suc n)) (c ∷ []) t p = ground (arith, t.0.0)
c_text-sector_of (suc (suc n)) (c ∷ d ∷ text) t p =
    ground (arith, t.0.0, p.0, c_text-sector_of (suc n) (d ∷ text) t.1 p.1)

set-append :
    (pre : List ℕ) (x v : ℕ) (post : List ℕ) (i : ℕ)
    → length pre ≡ i
    → set (pre ++ x ∷ post) i v ≡ pre ++ v ∷ post
set-append [] x v post zero h = refl
set-append [] x v post (suc i) h = absurd (omega arith)
set-append (p ∷ pre) x v post zero h = absurd (omega arith)
set-append (p ∷ pre) x v post (suc i) h = ap (λ t. p ∷ t) (set-append pre x v post i (omega arith))

zeros : (n : ℕ) → replicate n 0 ≡ sector_of n []
zeros zero = refl
zeros (suc zero) = refl
zeros (suc (suc n)) = ap (λ t. 0 ∷ t) (zeros (suc n))

copy_content-step :
    (c : ℕ) (content : List ℕ) (i : ℕ) (buffer : List ℕ)
    → c ≢ 0
    → i < 511
    → copy_content (c ∷ content) i buffer ≡ copy_content content (i + 1) (set buffer i c)
unfolding copy_content
copy_content-step c content i buffer ne h = ground arith

-- The loop after `i` characters, with `n` bytes of the buffer to go.
copy_from :
    (text rest pre : List ℕ) (i n : ℕ)
    → IsText text
    → length pre ≡ i
    → i + n ≡ 512
    → 0 < n
    → copy_content (text ++ 0 ∷ rest) i (pre ++ replicate n 0) ≡ some (pre ++ sector_of n text)
copy_from text rest pre i zero t h e p = absurd (omega arith)
copy_from [] rest pre i (suc n) t h e p = unfold copy_content in rw (zeros (suc n))
copy_from (c ∷ text) rest pre i (suc zero) t h e p = unfold copy_content in ground (arith, t.0.0)
copy_from (c ∷ text) rest pre i (suc (suc n)) t h e p =
    copy_content-step c (text ++ 0 ∷ rest) i (pre ++ replicate (suc (suc n)) 0) t.0.0 (omega arith)
    ∙ ap (copy_content (text ++ 0 ∷ rest) (i + 1))
        (set-append pre 0 c (replicate (suc n) 0) i h ∙ sym (grouped (replicate (suc n) 0)))
    ∙ copy_from text rest (pre ++ c ∷ []) (i + 1) (suc n) t.1
        (omega (arith, length-append {0} pre (c ∷ []))) (omega arith) (omega arith)
    ∙ ap some (grouped (sector_of (suc n) text))
  where
    grouped : (post : List ℕ) → (pre ++ c ∷ []) ++ post ≡ pre ++ c ∷ post
    grouped post = append_assoc pre (c ∷ []) post

-- The loop of `write_file` ends within the array that holds the text, and fills the buffer.
pub copy_content_lem :
    (text rest : List ℕ)
    → IsText text
    → copy_content (text ++ 0 ∷ rest) 0 (replicate 512 0) ≡ some (sector_of 512 text)
copy_content_lem text rest t = copy_from text rest [] 0 512 t refl (omega arith) (omega arith)

pub strlen_lem : (text rest : List ℕ) → IsText text → strlen (text ++ 0 ∷ rest) ≡ some (length text)
unfolding strlen
strlen_lem [] rest t = refl
strlen_lem (c ∷ text) rest t = ground (arith, t.0.0, strlen_lem text rest t.1)
