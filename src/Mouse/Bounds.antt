-- ===== src/Mouse/Bounds.antt =====
-- The place of the pointer and the packet, under the handler of drivers/mouse.c.
use first_kernel.Base.{
  ℕ, zero, suc, ◌+◌, ◌-◌, ◌*◌, ◌%◌, ◌^◌, ◌≤◌, ◌<◌, ◌≡◌, refl, ◌∙◌, bit_and, List, [], ◌∷◌, ◌++◌,
  Option, some, ◌==◌, if◌then◌else◌, Bool-cases, true, false, length, set, get_or,
  get_elem?-eq-get_or, length-set, arith, inl, inr,
}
use first_kernel.Vga.{Frame, get_pixel, put_pixel}
use first_kernel.Mouse.{
  Mouse, save_row, save_rows, save_background, restore_row, restore_rows, restore_background,
  draw_mouse_pointer, clamp, delta, move, take_byte, mouse_handler,
}

pub record IsValid (m : Mouse) : Type 0 where
  pub bytes : length m.mouse_bytes ≡ 3
  pub cycle : m.mouse_cycle < 3
  pub x : m.mouse_x ≤ 784
  pub y : m.mouse_y ≤ 584
  pub prev_x : m.prev_mouse_x ≤ 784
  pub prev_y : m.prev_mouse_y ≤ 584
  pub back : length m.mouse_back_buffer ≡ 256

abbrev pub Keeps : Option Mouse → Type 0
Keeps result = (m' : Mouse) × (result ≡ some m') × IsValid m'

save_row_lem :
    (left j i x y : ℕ) (frame : Frame) (back : List ℕ)
    → j + left ≤ 16
    → i < 16
    → length back ≡ 256
    → (back' : List ℕ) × (save_row left j i x y frame back ≡ some back') × (length back' ≡ 256)
unfolding save_row
save_row_lem zero j i x y frame back h k n = (back, refl, n)
save_row_lem (suc left) j i x y frame back h k n =
    let color = get_pixel (x + j) (y + i) frame in
    let (back', r, l) =
      save_row_lem left (j + 1) i x y frame (set back (i * 16 + j) color) (omega arith) k
        (length-set back (i * 16 + j) color ∙ n) in
    (back', ground arith, l)

save_rows_lem :
    (left i x y : ℕ) (frame : Frame) (back : List ℕ)
    → i + left ≤ 16
    → length back ≡ 256
    → (back' : List ℕ) × (save_rows left i x y frame back ≡ some back') × (length back' ≡ 256)
unfolding save_rows
save_rows_lem zero i x y frame back h n = (back, refl, n)
save_rows_lem (suc left) i x y frame back h n =
    let (back1, r, l) = save_row_lem 16 0 i x y frame back (omega arith) (omega arith) n in
    let (back2, q, k) = save_rows_lem left (i + 1) x y frame back1 (omega arith) l in
    (back2, rw r q, k)

restore_row_lem :
    (left j i x y : ℕ) (back : List ℕ) (frame : Frame)
    → j + left ≤ 16
    → i < 16
    → length back ≡ 256
    → (frame' : Frame) × (restore_row left j i x y back frame ≡ some frame')
unfolding restore_row
restore_row_lem zero j i x y back frame h k n = (frame, refl)
restore_row_lem (suc left) j i x y back frame h k n =
    let color = get_or back (i * 16 + j) 0 in
    let (frame', r) =
      restore_row_lem left (j + 1) i x y back (put_pixel (x + j) (y + i) color frame) (omega arith)
        k n in
    (frame', rw (get_elem?-eq-get_or back (i * 16 + j) 0 (omega arith)) r)

restore_rows_lem :
    (left i x y : ℕ) (back : List ℕ) (frame : Frame)
    → i + left ≤ 16
    → length back ≡ 256
    → (frame' : Frame) × (restore_rows left i x y back frame ≡ some frame')
unfolding restore_rows
restore_rows_lem zero i x y back frame h n = (frame, refl)
restore_rows_lem (suc left) i x y back frame h n =
    let (frame1, r) = restore_row_lem 16 0 i x y back frame (omega arith) (omega arith) n in
    let (frame2, q) = restore_rows_lem left (i + 1) x y back frame1 (omega arith) n in
    (frame2, rw r q)

clamp_le : (limit v : ℕ) → clamp limit v ≤ limit
unfolding clamp
clamp_le limit v = ground arith

move-Keeps : (m : Mouse) → IsValid m → Keeps (move m)
unfolding move restore_background save_background draw_mouse_pointer
move-Keeps m v =
    let flags = get_or m.mouse_bytes 0 0 in
    let (frame, r) =
      restore_rows_lem 16 0 m.prev_mouse_x m.prev_mouse_y m.mouse_back_buffer m.frame (omega arith)
        v.back in
    let x = clamp 784 ((m.mouse_x + delta flags 0x10 (get_or m.mouse_bytes 1 0)) % 2 ^ 32) in
    let y =
      clamp 584 ((m.mouse_y + (2 ^ 32 - delta flags 0x20 (get_or m.mouse_bytes 2 0))) % 2 ^ 32) in
    let (back, q, n) = save_rows_lem 16 0 x y frame m.mouse_back_buffer (omega arith) v.back in
    let fill_color = if bit_and flags 0x01 == 0 then 0x00FFFFFF else 0x0000FF00 in
    let m2 = record m { frame = frame; mouse_x = x; mouse_y = y; mouse_back_buffer = back } in
    (
      record (draw_mouse_pointer x y fill_color m2) { prev_mouse_x = x; prev_mouse_y = y },
      rw
          (
            get_elem?-eq-get_or m.mouse_bytes 0 0 (omega (arith, v.bytes)),
            get_elem?-eq-get_or m.mouse_bytes 1 0 (omega (arith, v.bytes)),
            get_elem?-eq-get_or m.mouse_bytes 2 0 (omega (arith, v.bytes)),
            r,
            q,
          )
          refl,
      record {
        bytes = v.bytes;
        cycle = v.cycle;
        x = clamp_le 784 _;
        y = clamp_le 584 _;
        prev_x = clamp_le 784 _;
        prev_y = clamp_le 584 _;
        back = n;
      },
    )

take_byte-Keeps : (byte : ℕ) (m : Mouse) → IsValid m → Keeps (take_byte byte m)
unfolding take_byte
take_byte-Keeps byte m v = elim (Bool-cases (m.mouse_cycle + 1 == 3)) [
  | inr more ↦ (
    record m { mouse_bytes = bytes; mouse_cycle = m.mouse_cycle + 1 },
    ground (arith, v.bytes, v.cycle),
    record {
      bytes = n;
      cycle = ground (arith, v.cycle);
      x = v.x;
      y = v.y;
      prev_x = v.prev_x;
      prev_y = v.prev_y;
      back = v.back;
    },
  )
  | inl full ↦ elim (Bool-cases (bit_and (get_or bytes 0 0) 0x08 == 0)) [
    | inl unmarked ↦
        (start, ground (arith, v.bytes, v.cycle, n, get_elem?-eq-get_or bytes 0 0), start-IsValid)
    | inr marked ↦
        let (m', r, w) = move-Keeps start start-IsValid in
        (m', ground (arith, v.bytes, v.cycle, n, get_elem?-eq-get_or bytes 0 0), w)
  ]
]
  where
    bytes : List ℕ
    bytes = set m.mouse_bytes m.mouse_cycle byte

    n : length bytes ≡ 3
    n = length-set m.mouse_bytes m.mouse_cycle byte ∙ v.bytes

    start : Mouse
    start = record m { mouse_bytes = bytes; mouse_cycle = 0 }

    start-IsValid : IsValid start
    start-IsValid = record {
      bytes = n;
      cycle = omega arith;
      x = v.x;
      y = v.y;
      prev_x = v.prev_x;
      prev_y = v.prev_y;
      back = v.back;
    }

-- Whatever the ports give, `mouse_handler` on a valid state faults nowhere and leaves a valid one: the
-- place of the pointer stays in columns 0 to 784 and rows 0 to 584, so that all of its 16 by 16 pixels
-- are on the screen, and the place of the next byte stays in the packet.
pub mouse_handler-Keeps :
    (status byte : ℕ) (m : Mouse) → IsValid m → Keeps (mouse_handler status byte m)
unfolding mouse_handler
mouse_handler-Keeps status byte m v = elim (Bool-cases (bit_and status 0x20 == 0)) [
  | inl idle ↦ ended (m, ground arith, v)
  | inr ready ↦ let (m', r, w) = take_byte-Keeps byte m v in ended (m', ground arith, w)
]
  where
    ended :
        Keeps (elim (bit_and status 0x20 == 0) [ true ↦ some m | false ↦ take_byte byte m ])
        → Keeps (mouse_handler status byte m)
    ended (m', r, w) = (
      record m' { port_writes = m'.port_writes ++ (0xA0, 0x20) ∷ (0x20, 0x20) ∷ [] },
      rw r refl,
      record {
        bytes = w.bytes;
        cycle = w.cycle;
        x = w.x;
        y = w.y;
        prev_x = w.prev_x;
        prev_y = w.prev_y;
        back = w.back;
      },
    )
