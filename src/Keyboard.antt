-- ===== src/Keyboard.antt =====
-- drivers/keyboard.c, the line editor behind the keyboard interrupt. An index outside an array is a
-- fault, `none`. What the handler makes others do is kept as a sequence of events.
pub mod Invariant
pub mod Completion
pub mod Handler
pub mod Editing
pub mod Typed
pub mod Entered
pub mod Recalled
pub mod Examples
mod Tests
use first_kernel.Base.{
  ℕ, zero, suc, ◌+◌, ◌-◌, List, [], ◌∷◌, ◌++◌, Option, none, some, ◌==◌, leb, ltb, if◌then◌else◌,
  Bool, true, false, ◌&&◌, ◌||◌, get_elem?, get_or, store,
}
use first_kernel.Base.Partial.{◌>>=◌}
use first_kernel.Base.Text.{codes, c_string}
use first_kernel.CString.{strncmp, strlen}

-- `os_commands`
abbrev pub os_commands : List (List ℕ)
os_commands =
    c_string "help"
    ∷ c_string "echo"
    ∷ c_string "color"
    ∷ c_string "read"
    ∷ c_string "math"
    ∷ c_string "write"
    ∷ c_string "draw"
    ∷ c_string "fsinfo"
    ∷ c_string "ls"
    ∷ c_string "mkdummy"
    ∷ c_string "mkdir"
    ∷ c_string "cd"
    ∷ c_string "cat"
    ∷ c_string "crash"
    ∷ c_string "clear"
    ∷ c_string "beep"
    ∷ c_string "sleep"
    ∷ c_string "cpuinfo"
    ∷ c_string "uptime"
    ∷ c_string "time"
    ∷ c_string "alloc"
    ∷ c_string "lspci"
    ∷ c_string "rm"
    ∷ c_string "run"
    ∷ c_string "mkapp"
    ∷ c_string "kmsg"
    ∷ c_string "hack"
    ∷ c_string "netinit"
    ∷ []

abbrev pub scancode_to_char : List ℕ
scancode_to_char =
    0
    ∷ 27
    ∷ (codes "1234567890-="
        ++ (8
            ∷ 9
            ∷ (codes "qwertyuiop[]"
                ++ (10
                    ∷ 0
                    ∷ (codes "asdfghjkl;'`"
                        ++ (0 ∷ 92 ∷ (codes "zxcvbnm,./" ++ (0 ∷ 42 ∷ 0 ∷ 32 ∷ []))))))))

abbrev pub scancode_to_char_shift : List ℕ
scancode_to_char_shift =
    0
    ∷ 27
    ∷ (codes "!@#$%^&*()_+"
        ++ (8
            ∷ 9
            ∷ (codes "QWERTYUIOP{}"
                ++ (10
                    ∷ 0
                    ∷ (codes "ASDFGHJKL:"
                        ++ (34
                            ∷ 126
                            ∷ 0
                            ∷ 124
                            ∷ (codes "ZXCVBNM<>?" ++ (0 ∷ 42 ∷ 0 ∷ 32 ∷ []))))))))

-- `print_char(c)`, `print(text)`, `execute_command(buffer)` and `port_bytes_out(port, value)`.
pub data Event : Type 0 where
  prints_char : ℕ → Event
  prints : List ℕ → Event
  executes : List ℕ → Event
  writes_port : ℕ → ℕ → Event

-- The globals of the file, and the events so far.
pub record Keyboard : Type 0 where
  pub shift_pressed : ℕ
  pub caps_locks : ℕ
  pub key_buffer : List ℕ
  pub buffer_index : ℕ
  pub last_command : List ℕ
  pub last_command_len : ℕ
  pub events : List Event

abbrev pub emit : Event → Keyboard → Keyboard
emit event k = record k { events = k.events ++ event ∷ [] }

-- The loop of `autocomplete_tab` that types the rest of a command.
unfoldable pub complete_from : ℕ → List ℕ → Keyboard → Option Keyboard
complete_from zero command k = some k
complete_from (suc missing) command k = do
  letter ← get_elem? command k.buffer_index
  key_buffer ← store k.key_buffer k.buffer_index letter
  complete_from missing command (
      emit (prints_char letter)
        (record k { key_buffer = key_buffer; buffer_index = k.buffer_index + 1 }))

-- Its loop over the commands.
unfoldable pub complete_command : List (List ℕ) → Keyboard → Option Keyboard
complete_command [] k = some k
complete_command (command ∷ commands) k = do
  difference ← strncmp k.key_buffer command k.buffer_index
  elim (difference == 0) [
    | true ↦ do total_len ← strlen command; complete_from (total_len - k.buffer_index) command k
    | false ↦ complete_command commands k
  ]

unfoldable pub autocomplete_tab : Keyboard → Option Keyboard
autocomplete_tab k = elim (k.buffer_index == 0) [
  | true ↦ some k
  | false ↦ do
    key_buffer ← store k.key_buffer k.buffer_index 0
    complete_command os_commands (record k { key_buffer = key_buffer })
]

-- `while (buffer_index > 0)`, with the index as the first argument.
unfoldable pub erase : ℕ → Keyboard → Keyboard
erase zero k = k
erase (suc index) k = erase index (record (emit (prints_char 8) k) { buffer_index = index })

-- The loop that types the last command again.
unfoldable pub retype_from : ℕ → ℕ → Keyboard → Option Keyboard
retype_from zero i k = some k
retype_from (suc left) i k = do
  c ← get_elem? k.last_command i
  key_buffer ← store k.key_buffer i c
  retype_from left (i + 1) (emit (prints_char c) (record k { key_buffer = key_buffer }))

-- The up arrow.
unfoldable pub recall : Keyboard → Option Keyboard
recall k = do
  k' ← retype_from k.last_command_len 0 (erase k.buffer_index k)
  key_buffer ← store k'.key_buffer k'.last_command_len 0
  some (record k' { key_buffer = key_buffer; buffer_index = k'.last_command_len })

-- The loop that remembers the line.
unfoldable pub remember_from : ℕ → ℕ → List ℕ → List ℕ → Option (List ℕ)
remember_from zero i key_buffer last_command = some last_command
remember_from (suc left) i key_buffer last_command = do
  c ← get_elem? key_buffer i
  last_command' ← store last_command i c
  remember_from left (i + 1) key_buffer last_command'

unfoldable pub remember : Keyboard → Option Keyboard
remember k = elim (ltb 0 k.buffer_index) [
  | true ↦ do
    last_command ← remember_from (k.buffer_index + 1) 0 k.key_buffer k.last_command
    some (record k { last_command = last_command; last_command_len = k.buffer_index })
  | false ↦ some k
]

-- Enter. `shell` gives what `execute_command` of kernel/shell.c leaves in the buffer, which it cuts
-- into words in place.
unfoldable pub submit : (List ℕ → List ℕ) → Keyboard → Option Keyboard
submit shell k = do
  key_buffer ← store k.key_buffer k.buffer_index 0
  k' ← remember (record (emit (prints_char 10) k) { key_buffer = key_buffer })
  cleared ← store (shell k'.key_buffer) 0 0
  some (
      emit (prints (codes "OS> "))
        (record (emit (executes k'.key_buffer) k') { key_buffer = cleared; buffer_index = 0 }))

unfoldable pub rubout : Keyboard → Option Keyboard
rubout k = elim (ltb 0 k.buffer_index) [
  | true ↦ do
    key_buffer ← store k.key_buffer (k.buffer_index - 1) 0
    some (
        emit (prints_char 8)
          (record k { key_buffer = key_buffer; buffer_index = k.buffer_index - 1 }))
  | false ↦ some k
]

unfoldable pub type_char : ℕ → Keyboard → Option Keyboard
type_char c k = elim (ltb k.buffer_index 255) [
  | true ↦ do
    key_buffer ← store k.key_buffer k.buffer_index c
    some (
        emit (prints_char c)
          (record k { key_buffer = key_buffer; buffer_index = k.buffer_index + 1 }))
  | false ↦ some k
]

-- `final_char` for a scancode that the tables cover.
unfoldable pub decode : Keyboard → ℕ → Option ℕ
decode k scancode = do
  letter_normal ← get_elem? scancode_to_char scancode
  letter_shift ← get_elem? scancode_to_char_shift scancode
  let is_letter = leb b'a' letter_normal && leb letter_normal b'z'
  let shifted = if k.shift_pressed == 0 then letter_normal else letter_shift
  some (
      if (if k.caps_locks == 0 then false else is_letter)
      then (if k.shift_pressed == 0 then letter_shift else letter_normal)
      else shifted)

unfoldable pub press : (List ℕ → List ℕ) → ℕ → Keyboard → Option Keyboard
press shell final_char k = elim (final_char == 10) [
  | true ↦ submit shell k
  | false ↦ elim (final_char == 8) [
    | true ↦ rubout k
    | false ↦ elim (final_char == 0) [ true ↦ some k | false ↦ type_char final_char k ]
  ]
]

-- The keys that are neither Tab nor the up arrow.
unfoldable pub other_key : (List ℕ → List ℕ) → ℕ → Keyboard → Option Keyboard
other_key shell scancode k = elim (scancode == 0x2A || scancode == 0x36) [
  | true ↦ some (record k { shift_pressed = 1 })
  | false ↦ elim (scancode == 0xAA || scancode == 0xB6) [
    | true ↦ some (record k { shift_pressed = 0 })
    | false ↦ elim (scancode == 0x3A) [
      | true ↦ some (record k { caps_locks = if k.caps_locks == 0 then 1 else 0 })
      | false ↦ elim (leb scancode 57) [
        | true ↦ do final_char ← decode k scancode; press shell final_char k
        | false ↦ some k
      ]
    ]
  ]
]

-- The end of the interrupt is told to the interrupt controller in every case.
unfoldable pub keyboard_handler : (List ℕ → List ℕ) → ℕ → Keyboard → Option Keyboard
keyboard_handler shell scancode k = do
  k' ← elim (scancode == 0x0F) [
    | true ↦ autocomplete_tab k
    | false ↦ elim (scancode == 0x48 && ltb 0 k.last_command_len) [
      | true ↦ recall k
      | false ↦ other_key shell scancode k
    ]
  ]
  some (emit (writes_port 0x20 0x20) k')
