-- ===== src/CString/Decimal.antt =====
-- Decimal numbers of libc/string.c: `itoa` against the list of a number's digits, and `atoi` against
-- the value of the digits.
use first_kernel.Base.{
  ℕ, zero, suc, ◌+◌, ◌-◌, ◌*◌, ◌/◌, ◌%◌, ◌^◌, ◌≤◌, ◌<◌, ◌≡◌, ◌≢◌, refl, ap, ap₂, sym, ◌∙◌, List, [],
  ◌∷◌, ◌++◌, some, ◌==◌, if◌then◌else◌, length, get_or, drop, ℕ_discrete, store-append, ==_ne,
  arith, false, All, length-append, append_assoc,
}
use native.Mathlib.Nat.{pow-suc}
use first_kernel.CString.{sign_extend, atoi_from, atoi, digits_from, finish, itoa}
use first_kernel.CString.Reverse.{rev_onto, reverse_lem}

-- The digits of a number, the last one first, as characters; `fuel` bounds their count.
unfoldable pub digits : ℕ → ℕ → List ℕ
digits zero n = []
digits (suc fuel) n = (n % 10 + b'0') ∷ (if n / 10 == 0 then [] else digits fuel (n / 10))

-- The value of such a list.
unfoldable pub value : List ℕ → ℕ
value [] = 0
value (d ∷ ds) = value ds * 10 + (d - b'0')

abbrev pub IsDigit : ℕ → Type 0
IsDigit d = (b'0' ≤ d) × (d ≤ b'9')

pub digits-last : (fuel n : ℕ) → n / 10 ≡ 0 → digits (suc fuel) n ≡ (n % 10 + b'0') ∷ []
unfolding digits
digits-last fuel n e = ground arith

pub digits-more :
    (fuel n : ℕ) → n / 10 ≢ 0 → digits (suc fuel) n ≡ (n % 10 + b'0') ∷ digits fuel (n / 10)
unfolding digits
digits-more fuel n ne = ground arith

pub digits-IsDigit : (fuel n : ℕ) → All IsDigit (digits fuel n)
digits-IsDigit zero n = unfold digits in tt
digits-IsDigit (suc fuel) n = elim (ℕ_discrete (n / 10) 0) [
  | yes e ↦ rw (digits-last fuel n e) ((omega arith, omega arith), tt)
  | no ne ↦ rw (digits-more fuel n ne) ((omega arith, omega arith), digits-IsDigit fuel (n / 10))
]

pub value-digits : (fuel n : ℕ) → n < 10 ^ fuel → value (digits fuel n) ≡ n
unfolding value
value-digits zero n h = unfold digits in omega arith
value-digits (suc fuel) n h = elim (ℕ_discrete (n / 10) 0) [
  | yes e ↦ rw (digits-last fuel n e) (omega arith)
  | no ne ↦
      rw (digits-more fuel n ne)
        (omega (arith, value-digits fuel (n / 10) (omega (arith, pow-suc 10 fuel))))
]

length-digits_le : (fuel n : ℕ) → length (digits fuel n) ≤ fuel
length-digits_le zero n = unfold digits in omega arith
length-digits_le (suc fuel) n = elim (ℕ_discrete (n / 10) 0) [
  | yes e ↦ rw (digits-last fuel n e) (omega arith)
  | no ne ↦ rw (digits-more fuel n ne) (omega (arith, length-digits_le fuel (n / 10)))
]

-- `atoi` reads a decimal number, as long as it fits an `int`.
pub atoi_from-rev_onto :
    (ds tail : List ℕ)
    → All IsDigit ds
    → value ds < 2 ^ 31
    → atoi_from 0 (rev_onto ds tail) ≡ atoi_from (value ds) tail
unfolding rev_onto value
atoi_from-rev_onto [] tail a h = refl
atoi_from-rev_onto (d ∷ ds) tail a h = atoi_from-rev_onto ds (d ∷ tail) a.1 (omega arith) ∙ step
  where
    read : (value ds * 10 + sign_extend d + 2 ^ 32 - b'0') % 2 ^ 32 ≡ value ds * 10 + (d - b'0')
    read = ground arith

    step : atoi_from (value ds) (d ∷ tail) ≡ atoi_from (value ds * 10 + (d - b'0')) tail
    step = unfold atoi_from in ground (arith, read)

more_fuel : (fuel m : ℕ) → m < 10 ^ fuel → m ≢ 0 → 0 < fuel
more_fuel zero m h ne = absurd (omega arith)
more_fuel (suc fuel) m h ne = omega arith

-- The digits go into the array one after another.
digits_from_lem :
    (fuel n : ℕ) (pre post : List ℕ)
    → n < 10 ^ fuel
    → 0 < fuel
    → length (digits fuel n) ≤ length post
    → digits_from fuel n (length pre) (pre ++ post)
      ≡ some (
        pre ++ (digits fuel n ++ drop (length (digits fuel n)) post),
        length pre + length (digits fuel n),
      )
unfolding digits_from
digits_from_lem zero n pre post h p k = absurd (omega arith)
digits_from_lem (suc fuel) n pre [] h p k = absurd (unfold digits in omega arith)
digits_from_lem (suc fuel) n pre (c ∷ post) h p k = elim (ℕ_discrete (n / 10) 0) [
  | yes e ↦ rw (digits-last fuel n e, store-append pre c (n % 10 + b'0') post, e) refl
  | no ne ↦
      rw (digits-more fuel n ne, store-append pre c (n % 10 + b'0') post, ==_ne (n / 10) 0 ne)
        (ap₂ (digits_from fuel (n / 10)) (longer (n % 10 + b'0'))
            (sym (append_assoc pre ((n % 10 + b'0') ∷ []) post))
          ∙ digits_from_lem fuel (n / 10) (pre ++ (n % 10 + b'0') ∷ []) post
              (omega (arith, pow-suc 10 fuel))
              (more_fuel fuel (n / 10) (omega (arith, pow-suc 10 fuel)) ne)
              (omega (arith, ap length (digits-more fuel n ne), k))
          ∙ ap some (
              ap₂ (λ (xs : List ℕ) (k : ℕ). (xs, k)) (append_assoc pre ((n % 10 + b'0') ∷ []) _)
                (omega (arith, longer (n % 10 + b'0')))))
]
  where
    longer : (v : ℕ) → length pre + 1 ≡ length (pre ++ v ∷ [])
    longer v = omega (arith, length-append pre (v ∷ []))

drop-cons : (k : ℕ) (str : List ℕ) → k < length str → drop k str ≡ get_or str k 0 ∷ drop (suc k) str
drop-cons k [] h = absurd (omega arith)
drop-cons zero (c ∷ str) h = refl
drop-cons (suc k) (c ∷ str) h = drop-cons k str (omega arith)

module _ (n : ℕ) (str : List ℕ) (positive : n < 2 ^ 31) where
  -- The digits of the number, the last one first.
  abbrev pub ds : List ℕ
  ds = digits 10 n

  below : n < 10 ^ 10
  below = omega arith

  itoa-digits :
      length ds ≤ length str → itoa n str ≡ finish false (ds ++ drop (length ds) str, length ds)
  unfolding itoa
  itoa-digits room = ground (arith, digits_from_lem 10 n [] str below)

  pub itoa_lem :
      length ds < length str → itoa n str ≡ some (rev_onto ds (0 ∷ drop (suc (length ds)) str))
  itoa_lem room =
      itoa-digits (omega arith)
      ∙ unfold finish in
        rw
          (
            drop-cons (length ds) str room,
            store-append ds (get_or str (length ds) 0) 0 (drop (suc (length ds)) str),
          )
          (reverse_lem ds (0 ∷ drop (suc (length ds)) str))

  -- In an array of eleven bytes or more, `itoa` faults nowhere on a number that is not negative, and
  -- `atoi` reads the number back from what it wrote.
  pub itoa-atoi : 11 ≤ length str → (s : List ℕ) × (itoa n str ≡ some s) × (atoi s ≡ some n)
  unfolding atoi
  itoa-atoi room = (
    rev_onto ds (0 ∷ drop (suc (length ds)) str),
    itoa_lem (omega (arith, length-digits_le 10 n)),
    atoi_from-rev_onto ds (0 ∷ drop (suc (length ds)) str) (digits-IsDigit 10 n)
          (omega (arith, value-digits 10 n below))
        ∙ unfold atoi_from in ap some (value-digits 10 n below),
  )
