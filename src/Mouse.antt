-- ===== src/Mouse.antt =====
-- drivers/mouse.c, the packets of the mouse and its pointer on the screen. An `int` is its bit pattern
-- below 2 ^ 32; an index outside an array is a fault, `none`. The ports are read by the caller, and
-- what is written to them at the end of the interrupt is kept as a sequence.
pub mod Bounds
pub mod Setup
mod Tests
use first_kernel.Base.{
  ℕ, zero, suc, ◌+◌, ◌-◌, ◌*◌, ◌%◌, ◌^◌, bit_and, bit_or, List, [], ◌∷◌, ◌++◌, Option, none, some,
  ◌==◌, leb, ltb, if◌then◌else◌, Bool, true, false, store, get_elem?, get_or,
}
use first_kernel.Base.Partial.{◌>>=◌}
use first_kernel.CString.{sign_extend}
use first_kernel.Vga.{Frame, get_pixel, put_pixel}

-- `mouse_pointer`: 1 is the outline, 2 the inside.
abbrev pub mouse_pointer : List (List ℕ)
mouse_pointer =
    (1 ∷ 0 ∷ 0 ∷ 0 ∷ 0 ∷ 0 ∷ 0 ∷ 0 ∷ 0 ∷ 0 ∷ 0 ∷ 0 ∷ 0 ∷ 0 ∷ 0 ∷ 0 ∷ [])
    ∷ (1 ∷ 1 ∷ 0 ∷ 0 ∷ 0 ∷ 0 ∷ 0 ∷ 0 ∷ 0 ∷ 0 ∷ 0 ∷ 0 ∷ 0 ∷ 0 ∷ 0 ∷ 0 ∷ [])
    ∷ (1 ∷ 2 ∷ 1 ∷ 0 ∷ 0 ∷ 0 ∷ 0 ∷ 0 ∷ 0 ∷ 0 ∷ 0 ∷ 0 ∷ 0 ∷ 0 ∷ 0 ∷ 0 ∷ [])
    ∷ (1 ∷ 2 ∷ 2 ∷ 1 ∷ 0 ∷ 0 ∷ 0 ∷ 0 ∷ 0 ∷ 0 ∷ 0 ∷ 0 ∷ 0 ∷ 0 ∷ 0 ∷ 0 ∷ [])
    ∷ (1 ∷ 2 ∷ 2 ∷ 2 ∷ 1 ∷ 0 ∷ 0 ∷ 0 ∷ 0 ∷ 0 ∷ 0 ∷ 0 ∷ 0 ∷ 0 ∷ 0 ∷ 0 ∷ [])
    ∷ (1 ∷ 2 ∷ 2 ∷ 2 ∷ 2 ∷ 1 ∷ 0 ∷ 0 ∷ 0 ∷ 0 ∷ 0 ∷ 0 ∷ 0 ∷ 0 ∷ 0 ∷ 0 ∷ [])
    ∷ (1 ∷ 2 ∷ 2 ∷ 2 ∷ 2 ∷ 2 ∷ 1 ∷ 0 ∷ 0 ∷ 0 ∷ 0 ∷ 0 ∷ 0 ∷ 0 ∷ 0 ∷ 0 ∷ [])
    ∷ (1 ∷ 2 ∷ 2 ∷ 2 ∷ 2 ∷ 2 ∷ 2 ∷ 1 ∷ 0 ∷ 0 ∷ 0 ∷ 0 ∷ 0 ∷ 0 ∷ 0 ∷ 0 ∷ [])
    ∷ (1 ∷ 2 ∷ 2 ∷ 2 ∷ 2 ∷ 2 ∷ 2 ∷ 2 ∷ 1 ∷ 0 ∷ 0 ∷ 0 ∷ 0 ∷ 0 ∷ 0 ∷ 0 ∷ [])
    ∷ (1 ∷ 2 ∷ 2 ∷ 2 ∷ 2 ∷ 2 ∷ 2 ∷ 2 ∷ 2 ∷ 1 ∷ 0 ∷ 0 ∷ 0 ∷ 0 ∷ 0 ∷ 0 ∷ [])
    ∷ (1 ∷ 2 ∷ 2 ∷ 2 ∷ 2 ∷ 2 ∷ 2 ∷ 2 ∷ 2 ∷ 2 ∷ 1 ∷ 0 ∷ 0 ∷ 0 ∷ 0 ∷ 0 ∷ [])
    ∷ (1 ∷ 2 ∷ 2 ∷ 2 ∷ 2 ∷ 2 ∷ 2 ∷ 1 ∷ 1 ∷ 1 ∷ 1 ∷ 1 ∷ 0 ∷ 0 ∷ 0 ∷ 0 ∷ [])
    ∷ (1 ∷ 2 ∷ 2 ∷ 1 ∷ 1 ∷ 2 ∷ 2 ∷ 1 ∷ 0 ∷ 0 ∷ 0 ∷ 0 ∷ 0 ∷ 0 ∷ 0 ∷ 0 ∷ [])
    ∷ (1 ∷ 2 ∷ 1 ∷ 0 ∷ 0 ∷ 1 ∷ 2 ∷ 2 ∷ 1 ∷ 0 ∷ 0 ∷ 0 ∷ 0 ∷ 0 ∷ 0 ∷ 0 ∷ [])
    ∷ (1 ∷ 1 ∷ 0 ∷ 0 ∷ 0 ∷ 0 ∷ 1 ∷ 2 ∷ 2 ∷ 1 ∷ 0 ∷ 0 ∷ 0 ∷ 0 ∷ 0 ∷ 0 ∷ [])
    ∷ (0 ∷ 0 ∷ 0 ∷ 0 ∷ 0 ∷ 0 ∷ 0 ∷ 1 ∷ 1 ∷ 0 ∷ 0 ∷ 0 ∷ 0 ∷ 0 ∷ 0 ∷ 0 ∷ [])
    ∷ []

pub record Mouse : Type 0 where
  pub mouse_bytes : List ℕ
  pub mouse_cycle : ℕ
  pub mouse_x : ℕ
  pub mouse_y : ℕ
  pub prev_mouse_x : ℕ
  pub prev_mouse_y : ℕ
  pub mouse_back_buffer : List ℕ
  pub frame : Frame
  pub port_writes : List (ℕ × ℕ)

-- The inner loop of `save_background` at column `j`.
unfoldable pub save_row : ℕ → ℕ → ℕ → ℕ → ℕ → Frame → List ℕ → Option (List ℕ)
save_row zero j i x y frame back = some back
save_row (suc left) j i x y frame back = do
  back' ← store back (i * 16 + j) (get_pixel (x + j) (y + i) frame)
  save_row left (j + 1) i x y frame back'

unfoldable pub save_rows : ℕ → ℕ → ℕ → ℕ → Frame → List ℕ → Option (List ℕ)
save_rows zero i x y frame back = some back
save_rows (suc left) i x y frame back = do
  back' ← save_row 16 0 i x y frame back
  save_rows left (i + 1) x y frame back'

unfoldable pub save_background : ℕ → ℕ → Mouse → Option Mouse
save_background x y m = do
  back ← save_rows 16 0 x y m.frame m.mouse_back_buffer
  some (record m { mouse_back_buffer = back })

-- The inner loop of `restore_background` at column `j`.
unfoldable pub restore_row : ℕ → ℕ → ℕ → ℕ → ℕ → List ℕ → Frame → Option Frame
restore_row zero j i x y back frame = some frame
restore_row (suc left) j i x y back frame = do
  color ← get_elem? back (i * 16 + j)
  restore_row left (j + 1) i x y back (put_pixel (x + j) (y + i) color frame)

unfoldable pub restore_rows : ℕ → ℕ → ℕ → ℕ → List ℕ → Frame → Option Frame
restore_rows zero i x y back frame = some frame
restore_rows (suc left) i x y back frame = do
  frame' ← restore_row 16 0 i x y back frame
  restore_rows left (i + 1) x y back frame'

unfoldable pub restore_background : ℕ → ℕ → Mouse → Option Mouse
restore_background x y m = do
  frame ← restore_rows 16 0 x y m.mouse_back_buffer m.frame
  some (record m { frame = frame })

-- One row of the pointer, from column `j` on.
unfoldable pub draw_pointer_row : List ℕ → ℕ → ℕ → ℕ → ℕ → ℕ → Frame → Frame
draw_pointer_row [] j i x y fill_color frame = frame
draw_pointer_row (p ∷ row) j i x y fill_color frame =
    draw_pointer_row row (j + 1) i x y fill_color (
      if p == 1
      then put_pixel (x + j) (y + i) 0 frame
      else if p == 2
      then put_pixel (x + j) (y + i) fill_color frame
      else frame)

unfoldable pub draw_pointer_rows : List (List ℕ) → ℕ → ℕ → ℕ → ℕ → Frame → Frame
draw_pointer_rows [] i x y fill_color frame = frame
draw_pointer_rows (row ∷ rows) i x y fill_color frame =
    draw_pointer_rows rows (i + 1) x y fill_color (draw_pointer_row row 0 i x y fill_color frame)

unfoldable pub draw_mouse_pointer : ℕ → ℕ → ℕ → Mouse → Mouse
draw_mouse_pointer x y fill_color m = record m {
  frame = draw_pointer_rows mouse_pointer 0 x y fill_color m.frame;
}

-- `if (v < 0) v = 0; if (v > limit) v = limit;`
unfoldable pub clamp : ℕ → ℕ → ℕ
clamp limit v = if leb (2 ^ 31) v then 0 else if ltb limit v then limit else v

-- A delta of nine bits: the `char` and, in the first byte, its sign.
unfoldable pub delta : ℕ → ℕ → ℕ → ℕ
delta flags sign byte =
    if bit_and flags sign == 0 then sign_extend byte else bit_or (sign_extend byte) 0xFFFFFF00

-- A complete packet whose first byte is marked as one.
unfoldable pub move : Mouse → Option Mouse
move m = do
  flags ← get_elem? m.mouse_bytes 0
  byte_x ← get_elem? m.mouse_bytes 1
  byte_y ← get_elem? m.mouse_bytes 2
  m1 ← restore_background m.prev_mouse_x m.prev_mouse_y m
  let x = clamp 784 ((m1.mouse_x + delta flags 0x10 byte_x) % 2 ^ 32)
  let y = clamp 584 ((m1.mouse_y + (2 ^ 32 - delta flags 0x20 byte_y)) % 2 ^ 32)
  m2 ← save_background x y (record m1 { mouse_x = x; mouse_y = y })
  let fill_color = if bit_and flags 0x01 == 0 then 0x00FFFFFF else 0x0000FF00
  some (record (draw_mouse_pointer x y fill_color m2) { prev_mouse_x = x; prev_mouse_y = y })

-- A byte of a packet.
unfoldable pub take_byte : ℕ → Mouse → Option Mouse
take_byte byte m = do
  mouse_bytes ← store m.mouse_bytes m.mouse_cycle byte
  let m' = record m { mouse_bytes = mouse_bytes; mouse_cycle = m.mouse_cycle + 1 }
  elim (m'.mouse_cycle == 3) [
    | true ↦ do
      let start = record m' { mouse_cycle = 0 }
      flags ← get_elem? start.mouse_bytes 0
      elim (bit_and flags 0x08 == 0) [ true ↦ some start | false ↦ move start ]
    | false ↦ some m'
  ]

-- `status` is what port 0x64 gives, and `byte` what port 0x60 gives when it is read.
unfoldable pub mouse_handler : ℕ → ℕ → Mouse → Option Mouse
mouse_handler status byte m = do
  m' ← elim (bit_and status 0x20 == 0) [ true ↦ some m | false ↦ take_byte byte m ]
  some (record m' { port_writes = m'.port_writes ++ (0xA0, 0x20) ∷ (0x20, 0x20) ∷ [] })
