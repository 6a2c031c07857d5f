-- ===== src/Base/Text.antt =====
-- C strings: the codes of a literal, and the messages that the kernel hands to `print`.
use Prim.Native.Nat.{ℕ, ◌<◌, ◌^◌}
use Prim.Native.Char.{code}
use Prim.Native.String.{String}
use native.Mathlib.Omega.{arith}
use mathlib.Core.Path.{◌≡◌}
use mathlib.Core.Bool.{Bool, true, false, not, ◌&&◌}
use mathlib.Core.Logic.{◌≢◌}
use first_kernel.Base.Arrays.{All, drop}
use first_kernel.Base.Tests.{◌==◌, if◌then◌else◌}
use mathlib.Core.List.{List, [], ◌∷◌, ◌++◌}

-- The code points of a text: its bytes, if it is ASCII.
abbrev pub codes : String → List ℕ
codes String.[] = []
codes (String.◌∷◌ c s) = code c ∷ codes s

-- A `char` array that holds a text, with its terminator.
abbrev pub c_string : String → List ℕ
c_string s = codes s ++ 0 ∷ []

-- What `print` puts out where C leaves it open, as characters that no byte is: the number for a `%d`
-- without an argument, and what lies behind an array that has no terminator.
abbrev pub missing_argument : ℕ
missing_argument = 256

abbrev pub beyond_array : ℕ
beyond_array = 257

abbrev pub starts_d : List ℕ → Bool
starts_d [] = false
starts_d (c ∷ s) = c == b'd'

-- What `print` puts out of a buffer that it is handed without arguments. The buffer is a format, up to
-- the first zero.
unfoldable pub c_text : List ℕ → List ℕ
c_text [] = beyond_array ∷ []
c_text (c ∷ s) =
    let shown = c_text s in
    if c == 0
    then []
    else if c == b'%' && starts_d s
    then missing_argument ∷ drop 1 shown
    else c ∷ shown

-- A text without `%d`.
abbrev pub IsPlain : List ℕ → Type 0
IsPlain [] = Unit
IsPlain (c ∷ s) = ((c == b'%' && starts_d s) ≡ false) × IsPlain s

-- The messages printed, the oldest first, as `print` puts them out.
abbrev pub Console : Type 0
Console = List (List ℕ)

abbrev pub print : List ℕ → Console → Console
print message console = console ++ message ∷ []

-- A character of a text.
abbrev pub IsChar : ℕ → Type 0
IsChar c = (c ≢ 0) × (c < 2 ^ 8)

abbrev pub IsText : List ℕ → Type 0
IsText text = All IsChar text

abbrev pub is_plain : List ℕ → Bool
is_plain [] = true
is_plain (c ∷ s) = not (c == b'%' && starts_d s) && is_plain s

pub is_plain-IsPlain : (s : List ℕ) → is_plain s ≡ true → IsPlain s
is_plain-IsPlain [] h = tt
is_plain-IsPlain (c ∷ s) h = (ground arith, is_plain-IsPlain s (ground arith))

-- A text without `%` has no `%d`.
pub no_percent-IsPlain : (s : List ℕ) → All (λ (c : ℕ). c ≢ b'%') s → IsPlain s
no_percent-IsPlain [] h = tt
no_percent-IsPlain (c ∷ s) h = (ground (arith, h.0), no_percent-IsPlain s h.1)
