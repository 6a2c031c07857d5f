-- ===== src/Mouse/Tests.antt =====
-- Packets of the mouse at concrete values.
use first_kernel.Base.{ℕ, ◌^◌, ◌-◌, ◌≡◌, refl, [], ◌∷◌, replicate, arith, length-replicate}
use first_kernel.Mouse.{Mouse, mouse_handler, clamp, delta}
use first_kernel.Mouse.Bounds.{IsValid, Keeps, mouse_handler-Keeps}

abbrev centred : Mouse
centred = record {
  mouse_bytes = 0 ∷ 0 ∷ 0 ∷ [];
  mouse_cycle = 0;
  mouse_x = 400;
  mouse_y = 300;
  prev_mouse_x = 400;
  prev_mouse_y = 300;
  mouse_back_buffer = replicate 256 0;
  frame = λ p. 0;
  port_writes = [];
}

centred-IsValid : IsValid centred
centred-IsValid = record {
  bytes = refl;
  cycle = omega arith;
  x = omega arith;
  y = omega arith;
  prev_x = omega arith;
  prev_y = omega arith;
  back = length-replicate {A = ℕ} 256 0;
}

-- The delta -1, and a column that would lie left of the screen.
left_by_one : delta 0x18 0x10 255 ≡ 2 ^ 32 - 1
unfolding delta
left_by_one = refl

left_edge : clamp 784 (2 ^ 32 - 5) ≡ 0
unfolding clamp
left_edge = refl

mouse_handler-Keeps_example : Keeps (mouse_handler 0x20 0x18 centred)
mouse_handler-Keeps_example = mouse_handler-Keeps 0x20 0x18 centred centred-IsValid
