-- ===== src/Keyboard/Editing.antt =====
-- The buffer and its index as a line of text, and the keys as operations on that line.
use first_kernel.Base.{
  ℕ, ◌-◌, ◌≡◌, List, [], ◌∷◌, ◌++◌, Option, some, ◌==◌, ltb, if◌then◌else◌, take, length,
}
use first_kernel.Keyboard.{Keyboard}

-- The line as it stands on the screen.
abbrev pub line : Keyboard → List ℕ
line k = take k.buffer_index k.key_buffer

-- The editor that the keys mean: Enter starts a new line, Backspace takes the last character off,
-- any other character is appended while there is room.
pub edit : ℕ → List ℕ → List ℕ
edit c l =
    if c == 10
    then []
    else if c == 8
    then take (length l - 1) l
    else if c == 0
    then l
    else if ltb (length l) 255
    then l ++ c ∷ []
    else l

-- What a key has made of the line.
abbrev pub Edits : ℕ → Keyboard → Option Keyboard → Type 0
Edits c k result = (k' : Keyboard) × (result ≡ some k') × (line k' ≡ edit c (line k))
