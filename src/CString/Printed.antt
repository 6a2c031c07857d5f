-- ===== src/CString/Printed.antt =====
-- What `print` sees of a number that `itoa` wrote.
use first_kernel.Base.{
  if◌then◌else◌, ◌==◌, ◌&&◌, ◌++◌, drop, ℕ, zero, suc, ◌/◌, ◌^◌, ◌≤◌, ◌<◌, ◌≡◌, refl, ap, ◌∙◌, List,
  [], ◌∷◌, some, All, length, arith, ℕ_discrete,
}
use native.Mathlib.Nat.{pow-suc}
use first_kernel.CString.{itoa}
use first_kernel.CString.Reverse.{rev_onto}
use first_kernel.CString.Decimal.{
  digits, IsDigit, digits-IsDigit, digits-last, digits-more, itoa_lem,
}
use first_kernel.Base.Text.{missing_argument, IsPlain, IsText, c_text}

-- A number in decimal.
abbrev pub decimal : ℕ → List ℕ
decimal n = rev_onto (digits 10 n) []

-- As many digits as the number needs.
pub length-digits_pow : (k fuel n : ℕ) → n < 10 ^ suc k → length (digits fuel n) ≤ suc k
length-digits_pow k zero n h = unfold digits in omega arith
length-digits_pow zero (suc fuel) n h = rw (digits-last fuel n (omega arith)) (omega arith)
length-digits_pow (suc k) (suc fuel) n h = elim (ℕ_discrete (n / 10) 0) [
  | yes e ↦ rw (digits-last fuel n e) (omega arith)
  | no ne ↦
      rw (digits-more fuel n ne)
        (omega (arith, length-digits_pow k fuel (n / 10) (omega (arith, pow-suc 10 (suc k)))))
]

-- A text without `%d` that a zero ends, whatever lies behind it.
pub c_text_terminated :
    (text rest : List ℕ) → IsText text → IsPlain text → c_text (text ++ 0 ∷ rest) ≡ text
unfolding c_text
c_text_terminated [] rest t p = refl
c_text_terminated (c ∷ []) rest t p = ground (arith, t.0.0)
c_text_terminated (c ∷ d ∷ text) rest t p =
    ground (arith, t.0.0, p.0, c_text_terminated (d ∷ text) rest t.1 p.1)

-- What is put out of a text hangs on the text alone.
pub c_text_rest : (text rest : List ℕ) → c_text (text ++ 0 ∷ rest) ≡ c_text (text ++ 0 ∷ [])
unfolding c_text
c_text_rest [] rest = refl
c_text_rest (c ∷ []) rest = refl
c_text_rest (c ∷ d ∷ text) rest =
    ap
      (λ (shown : List ℕ).
        if c == 0
        then []
        else if c == b'%' && d == b'd'
        then missing_argument ∷ drop 1 shown
        else c ∷ shown)
      (c_text_rest (d ∷ text) rest)

c_text-rev_onto :
    (ds tail : List ℕ) → All IsDigit ds → c_text (rev_onto ds tail) ≡ rev_onto ds (c_text tail)
unfolding rev_onto
c_text-rev_onto [] tail a = refl
c_text-rev_onto (d ∷ ds) tail a =
    c_text-rev_onto ds (d ∷ tail) a.1 ∙ ap (rev_onto ds) (unfold c_text in ground (arith, a.0))

-- An array of ten bytes is enough for nine digits, and what is printed of it is the number.
pub itoa-printed :
    (n : ℕ) (str : List ℕ)
    → n < 10 ^ 9
    → length str ≡ 10
    → (s : List ℕ) × (itoa n str ≡ some s) × (c_text s ≡ decimal n)
itoa-printed n str h ten = (
  rev_onto (digits 10 n) (0 ∷ drop (suc (length (digits 10 n))) str),
  itoa_lem n str (omega arith) (omega (arith, length-digits_pow 8 10 n h)),
  c_text-rev_onto (digits 10 n) (0 ∷ drop (suc (length (digits 10 n))) str) (digits-IsDigit 10 n)
      ∙ ap (rev_onto (digits 10 n)) (unfold c_text in refl),
)
