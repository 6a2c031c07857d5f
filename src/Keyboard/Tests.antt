-- ===== src/Keyboard/Tests.antt =====
-- Runs of the line editor.
use first_kernel.Base.{ℕ, ◌≡◌, refl, List, [], ◌∷◌, Option, none, some, arith, length, take}
use first_kernel.Base.Partial.{◌>>=◌}
use first_kernel.Base.Text.{codes}
use first_kernel.CString.{strncmp, strlen}
use first_kernel.Keyboard.Editing
use first_kernel.Keyboard.{
  Keyboard, keyboard_handler, autocomplete_tab, complete_command, complete_from, other_key, press,
  type_char, rubout, submit, remember, remember_from, recall, retype_from, erase, decode,
  scancode_to_char, scancode_to_char_shift,
}
use first_kernel.Keyboard.Examples.{idle, idle-IsValid, struck_key}
use first_kernel.Keyboard.Typed.{strike, TypesText, no_key, and_key}
use first_kernel.Keyboard.Recalled.{strike-recalls}

abbrev keys : List ℕ → Keyboard → Option Keyboard
keys [] k = some k
keys (c ∷ cs) k = do k' ← keyboard_handler (λ b. b) c k; keys cs k'

abbrev line : Option Keyboard → List ℕ
line o = elim o [ none ↦ [] | some k ↦ take k.buffer_index k.key_buffer ]

tables : (length scancode_to_char ≡ 58) × (length scancode_to_char_shift ≡ 58)
tables = (refl, refl)

-- h, e, Tab, Backspace.
edits : line (keys (35 ∷ 18 ∷ 0x0F ∷ 14 ∷ []) idle) ≡ codes "hel"
unfolding keyboard_handler autocomplete_tab complete_command complete_from other_key press type_char
    rubout decode strncmp strlen
edits = refl

-- l, s, Enter, the up arrow.
recalls : line (keys (38 ∷ 31 ∷ 28 ∷ 0x48 ∷ []) idle) ≡ codes "ls"
unfolding keyboard_handler other_key press type_char submit remember remember_from recall
    retype_from erase decode
recalls = refl

ls_keys : TypesText idle (38 ∷ 31 ∷ []) (codes "ls")
ls_keys =
    and_key (struck_key idle 38 b'l' (unfold decode in refl) refl)
      (and_key (struck_key idle 31 b's' (unfold decode in refl) refl) no_key)

strike-recalls_example :
    (k : Keyboard) × (strike (λ b. b) (38 ∷ 31 ∷ 28 ∷ 0x48 ∷ []) idle ≡ some k)
    × (Editing.line k ≡ codes "ls")
strike-recalls_example =
    strike-recalls (λ b. b) idle b'l' (codes "s") (λ b. refl) idle-IsValid refl (omega arith)
      ls_keys
