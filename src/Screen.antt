-- ===== src/Screen.antt =====
-- drivers/screen.c, the text screen and the kernel log. `vga_mem` is the address of the frame buffer,
-- 0 until it is known; an index outside the log's buffer is a fault, `none`.
pub mod Log
pub mod Cursor
mod Tests
use first_kernel.Base.{
  ℕ, zero, suc, ◌+◌, ◌-◌, ◌*◌, ◌/◌, ◌%◌, ◌^◌, bit_and, List, [], ◌∷◌, Option, none, some, ◌==◌, leb,
  ltb, if◌then◌else◌, Bool, true, false, ◌&&◌, ◌||◌, store, get_elem?, replicate,
}
use first_kernel.Base.Partial.{◌>>=◌}
use first_kernel.Base.Text.{c_string}
use first_kernel.CString.{itoa}
use first_kernel.Vga.{Frame, poke, screen_width, screen_height, draw_rectangle}

abbrev pub font_scale : ℕ
font_scale = 2

abbrev pub max_cols : ℕ
max_cols = screen_width / (8 * font_scale)

abbrev pub max_rows : ℕ
max_rows = screen_height / (8 * font_scale)

abbrev pub klog_size : ℕ
klog_size = 4096

pub record Screen : Type 0 where
  pub vga_mem : ℕ
  pub frame : Frame
  pub klog_buffer : List ℕ
  pub klog_index : ℕ
  pub klog_wrapped : ℕ
  pub dmesg_active : ℕ
  pub current_color : ℕ
  pub current_col : ℕ
  pub current_row : ℕ

unfoldable pub log_char : ℕ → Screen → Option Screen
log_char c s = elim (s.dmesg_active == 0) [
  | true ↦ do
    klog_buffer ← store s.klog_buffer s.klog_index c
    let index = s.klog_index + 1
    some (
        if leb klog_size index
        then record s { klog_buffer = klog_buffer; klog_index = 0; klog_wrapped = 1 }
        else record s { klog_buffer = klog_buffer; klog_index = index })
  | false ↦ some s
]

-- `for (i …) vga_mem[i] = 0`, with `left` rounds to go.
unfoldable pub blank_from : ℕ → ℕ → Frame → Frame
blank_from zero i frame = frame
blank_from (suc left) i frame = blank_from left (i + 1) (poke frame i 0)

unfoldable pub clear_screen : Screen → Screen
clear_screen s = if s.vga_mem == 0 then s else record s {
  frame = blank_from (screen_width * screen_height * 3) 0 s.frame;
  current_col = 0;
  current_row = 0;
}

-- `for (i …) vga_mem[i] = vga_mem[i + shift]`
unfoldable pub move_up_from : ℕ → ℕ → ℕ → Frame → Frame
move_up_from zero i shift frame = frame
move_up_from (suc left) i shift frame =
    move_up_from left (i + 1) shift (poke frame i (frame (i + shift)))

abbrev pub bytes_per_row : ℕ
bytes_per_row = screen_width * 3

abbrev pub row_size_bytes : ℕ
row_size_bytes = bytes_per_row * (8 * font_scale)

unfoldable pub scroll_screen : Screen → Screen
scroll_screen s = if s.vga_mem == 0 then s else record s {
  frame =
      blank_from row_size_bytes (screen_height * bytes_per_row - row_size_bytes)
        (move_up_from (screen_height * bytes_per_row - row_size_bytes) 0 row_size_bytes s.frame);
  current_row = max_rows - 1;
  current_col = 0;
}

-- Row `cy` of a glyph, from bit `cx` on; the `glyph` is one byte of it.
unfoldable pub draw_glyph_row : ℕ → ℕ → ℕ → ℕ → ℕ → ℕ → Frame → Frame
draw_glyph_row zero cx glyph x y color frame = frame
draw_glyph_row (suc left) cx glyph x y color frame =
    let pixel = if bit_and (glyph / 2 ^ (7 - cx)) 1 == 0 then 0 else color in
    draw_glyph_row left (cx + 1) glyph x y color
      (draw_rectangle (x + cx * font_scale) y font_scale font_scale pixel frame)

unfoldable pub draw_glyph : ℕ → ℕ → (ℕ → ℕ) → ℕ → ℕ → ℕ → Frame → Frame
draw_glyph zero cy glyph x y color frame = frame
draw_glyph (suc left) cy glyph x y color frame =
    draw_glyph left (cy + 1) glyph x y color
      (draw_glyph_row 8 0 (glyph cy) x (y + cy * font_scale) color frame)

-- `font` is the table of include/font.h: the eight bytes of each character. A `char` from 128 on is
-- negative.
unfoldable pub draw_char_graphic : (ℕ → ℕ → ℕ) → ℕ → ℕ → ℕ → ℕ → Frame → Frame
draw_char_graphic font c x y color frame =
    if ltb c 32 || ltb 127 c then frame else draw_glyph 8 0 (font c) x y color frame

unfoldable pub step_back : Screen → Screen
step_back s =
    if ltb 0 s.current_col
    then record s { current_col = s.current_col - 1 }
    else if ltb 0 s.current_row
    then record s { current_row = s.current_row - 1; current_col = max_cols - 1 }
    else s

unfoldable pub backspace_on_screen : Screen → Screen
backspace_on_screen s =
    let s' = step_back s in
    record s' {
      frame =
          draw_rectangle (s'.current_col * (8 * font_scale)) (s'.current_row * (8 * font_scale))
            (8 * font_scale) (8 * font_scale) 0 s'.frame;
    }

-- The cursor after a character that is drawn.
unfoldable pub step_forward : Screen → Screen
step_forward s =
    if leb max_cols (s.current_col + 1)
    then record s { current_col = 0; current_row = s.current_row + 1 }
    else record s { current_col = s.current_col + 1 }

-- The three kinds of characters.
unfoldable pub place_char : (ℕ → ℕ → ℕ) → ℕ → Screen → Screen
place_char font c s =
    if c == 10
    then record s { current_row = s.current_row + 1; current_col = 0 }
    else if c == 8
    then backspace_on_screen s
    else step_forward (record s {
      frame =
          draw_char_graphic font c (s.current_col * (8 * font_scale))
            (s.current_row * (8 * font_scale)) s.current_color s.frame;
    })

unfoldable pub print_char : (ℕ → ℕ → ℕ) → ℕ → Screen → Option Screen
print_char font c s = do
  s' ← log_char c s
  let placed = place_char font c s'
  some (if leb max_rows placed.current_row then scroll_screen placed else placed)

-- The digits of a number, up to the terminator.
unfoldable pub print_text : (ℕ → ℕ → ℕ) → List ℕ → Screen → Option Screen
print_text font [] s = none
print_text font (c ∷ text) s = elim (c == 0) [
  | true ↦ some s
  | false ↦ do s' ← print_char font c s; print_text font text s'
]

-- `str_num` holds arbitrary bytes before `itoa` fills it.
unfoldable pub print_number : (ℕ → ℕ → ℕ) → ℕ → List ℕ → Screen → Option Screen
print_number font num str_num s = do text ← itoa num str_num; print_text font text s

-- The arguments are those of `%d` in the message; to ask for more of them than there are is a fault.
unfoldable pub print : (ℕ → ℕ → ℕ) → List ℕ → List ℕ → Screen → Option Screen
print font [] args s = none
print font (c ∷ []) args s = if c == 0 then some s else none
print font (c ∷ d ∷ message) args s = elim (c == 0) [
  | true ↦ some s
  | false ↦ elim (c == b'%' && d == b'd') [
    | true ↦ elim args [
      | [] ↦ none
      | num ∷ rest ↦ do s' ← print_number font num (replicate 32 0) s; print font message rest s'
    ]
    | false ↦ do s' ← print_char font c s; print font (d ∷ message) args s'
  ]
]

-- The loops of `dump_kernel_log`.
unfoldable pub dump_from : (ℕ → ℕ → ℕ) → ℕ → ℕ → Screen → Option Screen
dump_from font zero i s = some s
dump_from font (suc left) i s = do
  c ← get_elem? s.klog_buffer i
  s' ← print_char font c s
  dump_from font left (i + 1) s'

unfoldable pub dump_kernel_log : (ℕ → ℕ → ℕ) → Screen → Option Screen
dump_kernel_log font s = do
  s1 ←
      print font (c_string "\n--- start of the kernel log (dmesg) ---\n") []
        (record s { dmesg_active = 1 })
  s2 ← elim (s1.klog_wrapped == 0) [ true ↦ some s1 | false ↦ dump_from font klog_size 0 s1 ]
  s3 ← dump_from font s2.klog_index 0 s2
  s4 ← print font (c_string "\n--- end of the kernel log ---\n") [] s3
  some (record s4 { dmesg_active = 0 })

unfoldable pub set_color : ℕ → Screen → Screen
set_color color s = record s { current_color = color }

-- `init_vga` of drivers/vga.c: the boot loader left the frame buffer's address at 0x5028.
unfoldable pub init_vga : (ℕ → ℕ) → Screen → Screen
init_vga memory s = record s { vga_mem = memory 0x5028 }
