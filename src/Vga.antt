-- ===== src/Vga.antt =====
-- drivers/vga.c, pixels in the linear frame buffer: three bytes each, blue first. The memory behind
-- `vga_mem` is a function from offsets; an `int` is its bit pattern below 2 ^ 32, so that a negative
-- coordinate is one from 2 ^ 31 on.
pub mod Pixels
mod Tests
use first_kernel.Base.{
  ℕ, zero, suc, ◌+◌, ◌*◌, ◌/◌, ◌%◌, ◌^◌, bit_and, bit_or, ◌==◌, ltb, if◌then◌else◌, Bool, true,
  false, ◌&&◌,
}

abbrev pub Frame : Type 0
Frame = ℕ → ℕ

abbrev pub poke : Frame → ℕ → ℕ → Frame
poke frame offset byte p = if offset == p then byte else frame p

abbrev pub screen_width : ℕ
screen_width = 800

abbrev pub screen_height : ℕ
screen_height = 600

-- `v >= 0 && v < limit`
abbrev pub within : ℕ → ℕ → Bool
within v limit = ltb v (2 ^ 31) && ltb v limit

abbrev pub on_screen : ℕ → ℕ → Bool
on_screen x y = within x screen_width && within y screen_height

unfoldable pub offset_of : ℕ → ℕ → ℕ
offset_of x y = y * screen_width * 3 + x * 3

unfoldable pub put_pixel : ℕ → ℕ → ℕ → Frame → Frame
put_pixel x y color frame =
    if on_screen x y
    then poke
        (poke (poke frame (offset_of x y) (bit_and color 0xFF)) (offset_of x y + 1)
          (bit_and (color / 2 ^ 8) 0xFF))
        (offset_of x y + 2) (bit_and (color / 2 ^ 16) 0xFF)
    else frame

unfoldable pub get_pixel : ℕ → ℕ → Frame → ℕ
get_pixel x y frame =
    if on_screen x y
    then bit_or (bit_or (frame (offset_of x y + 2) * 2 ^ 16) (frame (offset_of x y + 1) * 2 ^ 8))
        (frame (offset_of x y))
    else 0

-- The inner loop of `draw_rectangle` at column `j`.
unfoldable pub draw_row : ℕ → ℕ → ℕ → ℕ → ℕ → Frame → Frame
draw_row zero j x y color frame = frame
draw_row (suc left) j x y color frame =
    draw_row left (j + 1) x y color (put_pixel ((x + j) % 2 ^ 32) y color frame)

-- The outer loop at row `i`.
unfoldable pub draw_rows : ℕ → ℕ → ℕ → ℕ → ℕ → ℕ → Frame → Frame
draw_rows zero i x y width color frame = frame
draw_rows (suc left) i x y width color frame =
    draw_rows left (i + 1) x y width color (draw_row width 0 x ((y + i) % 2 ^ 32) color frame)

-- `width` and `height` are not negative.
unfoldable pub draw_rectangle : ℕ → ℕ → ℕ → ℕ → ℕ → Frame → Frame
draw_rectangle x y width height color frame = draw_rows height 0 x y width color frame
