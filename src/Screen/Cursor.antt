-- ===== src/Screen/Cursor.antt =====
-- The place of the cursor of drivers/screen.c under printing.
use first_kernel.Base.{
  none, ◌⊎◌, ℕ, ◌+◌, ◌<◌, ◌≡◌, ◌≢◌, refl, ◌∙◌, List, [], Option, some, ◌==◌, leb, if◌then◌else◌,
  Bool-cases, length, set, arith, length-set, inl, inr,
}
use first_kernel.Base.Text.{IsText, c_text}
use first_kernel.Screen.{
  Screen, klog_size, max_cols, max_rows, log_char, place_char, print_char, print, scroll_screen,
  step_back, step_forward, backspace_on_screen,
}

-- The frame buffer is known, the cursor is on the screen and the log's index is in its buffer.
pub record IsValid (s : Screen) : Type 0 where
  pub mapped : s.vga_mem ≢ 0
  pub col : s.current_col < max_cols
  pub row : s.current_row < max_rows
  pub size : length s.klog_buffer ≡ klog_size
  pub index : s.klog_index < klog_size

abbrev pub Keeps : Option Screen → Type 0
Keeps result = (s' : Screen) × (result ≡ some s') × IsValid s'

log_char-Keeps : (c : ℕ) (s : Screen) → IsValid s → Keeps (log_char c s)
unfolding log_char
log_char-Keeps c s v = elim (Bool-cases (s.dmesg_active == 0)) [
  | inl logging ↦
      let buffer = set s.klog_buffer s.klog_index c in
      elim (Bool-cases (leb klog_size (s.klog_index + 1))) [
        | inl full ↦ (
          record s { klog_buffer = buffer; klog_index = 0; klog_wrapped = 1 },
          ground (arith, v.size, v.index),
          record {
            mapped = v.mapped;
            col = v.col;
            row = v.row;
            size = length-set s.klog_buffer s.klog_index c ∙ v.size;
            index = omega arith;
          },
        )
        | inr room ↦ (
          record s { klog_buffer = buffer; klog_index = s.klog_index + 1 },
          ground (arith, v.size, v.index),
          record {
            mapped = v.mapped;
            col = v.col;
            row = v.row;
            size = length-set s.klog_buffer s.klog_index c ∙ v.size;
            index = ground arith;
          },
        )
      ]
  | inr silent ↦ (s, ground arith, v)
]

-- `print_char` of any character ends without a fault in a valid state: the cursor is on the screen
-- again, in column 0 to 49 and row 0 to 36.
pub print_char-Keeps :
    (font : ℕ → ℕ → ℕ) (c : ℕ) (s : Screen) → IsValid s → Keeps (print_char font c s)
unfolding print_char place_char scroll_screen step_back step_forward backspace_on_screen
print_char-Keeps font c s v =
    let (s1, r, w) = log_char-Keeps c s v in
    let placed = place_char font c s1 in
    (
      (if leb max_rows placed.current_row then scroll_screen placed else placed),
      rw r refl,
      record {
        mapped = ground (arith, w.mapped);
        col = ground (arith, w.col, w.row, w.mapped);
        row = ground (arith, w.col, w.row, w.mapped);
        size = ground (arith, w.size);
        index = ground (arith, w.index);
      },
    )

-- What `print` without arguments does with a buffer: it faults, and then what it puts out is not bytes
-- alone; or it ends in a valid state, and then it is.
abbrev pub Printed : (ℕ → ℕ → ℕ) → List ℕ → Screen → Type 0
Printed font buffer s =
    (IsText (c_text buffer) × Keeps (print font buffer [] s))
    ⊎ ((¬ IsText (c_text buffer)) × (print font buffer [] s ≡ none))
