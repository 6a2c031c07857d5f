-- ===== src/Vga/Tests.antt =====
-- Pixels at concrete places.
use first_kernel.Base.{◌-◌, ◌^◌, ◌≡◌, refl}
use first_kernel.Vga.{Frame, offset_of, put_pixel, get_pixel, draw_row, draw_rows, draw_rectangle}

abbrev black : Frame
black offset = 0

white_corner : get_pixel 799 599 (draw_rectangle 798 598 16 16 0xFFFFFF black) ≡ 0xFFFFFF
unfolding get_pixel draw_rectangle draw_rows draw_row put_pixel offset_of
white_corner = refl

left_edge : get_pixel 12 7 (draw_rectangle (2 ^ 32 - 3) 5 16 16 0x00FF00 black) ≡ 0x00FF00
unfolding get_pixel draw_rectangle draw_rows draw_row put_pixel offset_of
left_edge = refl

off_edge : get_pixel 799 7 (draw_rectangle (2 ^ 32 - 3) 5 16 16 0x00FF00 black) ≡ 0
unfolding get_pixel draw_rectangle draw_rows draw_row put_pixel offset_of
off_edge = refl
