-- ===== src/CString/Tests.antt =====
-- Runs of the string routines, and their theorems at concrete inputs.
use first_kernel.Base.{ℕ, ◌≡◌, refl, List, [], ◌∷◌, some, replicate, arith}
use first_kernel.Base.Text.{c_string}
use first_kernel.CString.{
  itoa, digits_from, finish, reverse, reverse_from, hex_to_string, hex_from, atoi, atoi_from,
}
use first_kernel.CString.Decimal.{itoa-atoi}

itoa_run : itoa 1234 (replicate 10 7) ≡ some (49 ∷ 50 ∷ 51 ∷ 52 ∷ 0 ∷ 7 ∷ 7 ∷ 7 ∷ 7 ∷ 7 ∷ [])
unfolding itoa digits_from finish reverse reverse_from
itoa_run = refl

hex_run : hex_to_string 0x1234ABCD (replicate 11 7) ≡ some (c_string "0x1234ABCD")
unfolding hex_to_string hex_from
hex_run = refl

atoi_run : atoi (c_string "1234") ≡ some 1234
unfolding atoi atoi_from
atoi_run = refl

itoa-atoi_example : (s : List ℕ) × (itoa 2026 (replicate 11 7) ≡ some s) × (atoi s ≡ some 2026)
itoa-atoi_example = itoa-atoi 2026 (replicate 11 7) (omega arith) (omega arith)
