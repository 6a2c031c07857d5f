-- ===== src/CString.antt =====
-- libc/string.c. A `char *` is the list of the bytes of its array from the pointer on, terminator
-- included; to read past the end of the array is a fault, `none`. An `int` is its bit pattern below
-- 2 ^ 32.
pub mod Reverse
pub mod Compare
pub mod Decimal
pub mod Printed
pub mod Words
mod Tests
use first_kernel.Base.{
  ℕ, zero, suc, ◌+◌, ◌-◌, ◌*◌, ◌/◌, ◌%◌, ◌^◌, bit_and, List, [], ◌∷◌, Option, none, some, ◌==◌, leb,
  ltb, if◌then◌else◌, Bool, true, false, get_elem?, get_or, store, drop, length,
}
use first_kernel.Base.Partial.{◌>>=◌}
use first_kernel.Base.Text.{codes}

-- A `char` as an `int`: plain `char` is signed on x86.
abbrev pub sign_extend : ℕ → ℕ
sign_extend c = if ltb c 128 then c else c + 2 ^ 32 - 256

-- The wrapping difference of two `char`s.
abbrev pub char_difference : ℕ → ℕ → ℕ
char_difference a b = (sign_extend a + 2 ^ 32 - sign_extend b) % 2 ^ 32

unfoldable pub strcmp : List ℕ → List ℕ → Option ℕ
strcmp [] s2 = none
strcmp (a ∷ s1) [] = none
strcmp (a ∷ s1) (b ∷ s2) =
    let rest = strcmp s1 s2 in
    if a == b then (if a == 0 then some 0 else rest) else some (char_difference a b)

unfoldable pub strncmp : List ℕ → List ℕ → ℕ → Option ℕ
strncmp s1 s2 zero = some 0
strncmp [] s2 (suc n) = none
strncmp (a ∷ s1) [] (suc n) = none
strncmp (a ∷ s1) (b ∷ s2) (suc n) =
    let rest = strncmp s1 s2 n in
    if a == b then (if a == 0 then some 0 else rest) else some (char_difference a b)

unfoldable pub strlen : List ℕ → Option ℕ
strlen [] = none
strlen (c ∷ s) = elim (c == 0) [ true ↦ some 0 | false ↦ do n ← strlen s; some (suc n) ]

-- `last_token`: the array that is being cut and the position in it, or null.
pub record Tokens : Type 0 where
  pub buffer : List ℕ
  pub last_token : Option ℕ

-- The loop of `strtok` at position `pos`, where the array goes on with the list: the array and the
-- position that it leaves.
unfoldable pub scan : List ℕ → ℕ → ℕ → List ℕ → Option (List ℕ × ℕ)
scan [] delim pos buffer = none
scan (c ∷ rest) delim pos buffer = elim (c == 0) [
  | true ↦ some (buffer, pos)
  | false ↦ elim (c == delim) [
    | true ↦ do buffer' ← store buffer pos 0; some (buffer', pos + 1)
    | false ↦ scan rest delim (pos + 1) buffer
  ]
]

-- From the place where the search stands.
unfoldable pub next_token : ℕ → Tokens → Option (Tokens × Option ℕ)
next_token delim t = elim t.last_token [
  | none ↦ some (t, none)
  | some pos ↦ do
    c ← get_elem? t.buffer pos
    elim (c == 0) [
      | true ↦ some (t, none)
      | false ↦ do
        (buffer, pos') ← scan (drop pos t.buffer) delim pos t.buffer
        some (record { buffer = buffer; last_token = some pos' }, some pos)
    ]
]

-- `strtok(str, delim)`; the first argument is `none` for a null `str`. The result is the position
-- of the token in the array, or null.
unfoldable pub strtok : Option (List ℕ) → ℕ → Tokens → Option (Tokens × Option ℕ)
strtok none delim t = next_token delim t
strtok (some str) delim t = next_token delim (record { buffer = str; last_token = some 0 })

-- The loop of `atoi`, in wrapping `int` arithmetic.
unfoldable pub atoi_from : ℕ → List ℕ → Option ℕ
atoi_from res [] = none
atoi_from res (c ∷ s) = elim (c == 0) [
  | true ↦ some res
  | false ↦ atoi_from ((res * 10 + sign_extend c + 2 ^ 32 - b'0') % 2 ^ 32) s
]

unfoldable pub atoi : List ℕ → Option ℕ
atoi str = atoi_from 0 str

-- The loop of `reverse`, with `start` and `end` closing in; `fuel` bounds its rounds.
unfoldable pub reverse_from : ℕ → ℕ → ℕ → List ℕ → Option (List ℕ)
reverse_from zero start end str = some str
reverse_from (suc fuel) start end str = elim (ltb start end) [
  | true ↦ do
    a ← get_elem? str start
    b ← get_elem? str end
    str' ← store str start b
    str'' ← store str' end a
    reverse_from fuel (start + 1) (end - 1) str''
  | false ↦ some str
]

-- `end` starts at `length - 1`, where nothing happens for length 0.
unfoldable pub reverse : List ℕ → ℕ → Option (List ℕ)
reverse str len = reverse_from len 0 (len - 1) str

-- The `do … while` of `itoa`; the remainder and the quotient are those of a number that is not
-- negative. Ten rounds are enough for 32 bits; fuel that runs out is `none` too.
unfoldable pub digits_from : ℕ → ℕ → ℕ → List ℕ → Option (List ℕ × ℕ)
digits_from zero n i str = none
digits_from (suc fuel) n i str = do
  str' ← store str i (n % 10 + b'0')
  elim (n / 10 == 0) [ true ↦ some (str', i + 1) | false ↦ digits_from fuel (n / 10) (i + 1) str' ]

-- The sign, the terminator and the reversal.
unfoldable pub finish : Bool → List ℕ × ℕ → Option (List ℕ)
finish true (str, i) = do
  str' ← store str i b'-'
  str'' ← store str' (i + 1) 0
  reverse str'' (i + 1)
finish false (str, i) = do str' ← store str i 0; reverse str' i

-- `itoa` into the array `str`. `-n` overflows for the least `int`, which C leaves undefined.
unfoldable pub itoa : ℕ → List ℕ → Option (List ℕ)
itoa n str = elim (ltb n (2 ^ 31)) [
  | true ↦ do (str', i) ← digits_from 10 n 0 str; finish false (str', i)
  | false ↦ elim (n == 2 ^ 31) [
    | true ↦ none
    | false ↦ do (str', i) ← digits_from 10 (2 ^ 32 - n) 0 str; finish true (str', i)
  ]
]

abbrev pub hex_chars : List ℕ
hex_chars = codes "0123456789ABCDEF"

-- The loop of `hex_to_string` at `i = left - 1`.
unfoldable pub hex_from : ℕ → ℕ → List ℕ → Option (List ℕ)
hex_from zero n str = some str
hex_from (suc i) n str = do
  str' ← store str (i + 2) (get_or hex_chars (bit_and n 0x0F) 0)
  hex_from i (n / 2 ^ 4) str'

unfoldable pub hex_to_string : ℕ → List ℕ → Option (List ℕ)
hex_to_string n str = do
  str1 ← store str 0 b'0'
  str2 ← store str1 1 b'x'
  str3 ← hex_from 8 n str2
  store str3 10 0
