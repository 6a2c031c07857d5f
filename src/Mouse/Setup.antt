-- ===== src/Mouse/Setup.antt =====
-- The rest of drivers/mouse.c: how the mouse is switched on through the keyboard controller.
use first_kernel.Base.{ℕ, zero, suc, bit_and, bit_or, ◌==◌, true, false}
use first_kernel.Ports.{Ports}

module _ (ports : Ports) where
  -- The two loops of `mouse_wait`, with `timeout` rounds to go.
  unfoldable pub wait_output : ℕ → ports.State → ports.State
  wait_output zero s = s
  wait_output (suc timeout) s =
      let (v, s') = ports.port_bytes_in 0x64 s in
      elim (bit_and v 1 == 1) [ true ↦ s' | false ↦ wait_output timeout s' ]

  unfoldable pub wait_input : ℕ → ports.State → ports.State
  wait_input zero s = s
  wait_input (suc timeout) s =
      let (v, s') = ports.port_bytes_in 0x64 s in
      elim (bit_and v 2 == 0) [ true ↦ s' | false ↦ wait_input timeout s' ]

  unfoldable pub mouse_wait : ℕ → ports.State → ports.State
  mouse_wait a_type s = elim (a_type == 0) [
    | true ↦ wait_output 100000 s
    | false ↦ wait_input 100000 s
  ]

  unfoldable pub mouse_write : ℕ → ports.State → ports.State
  mouse_write a_write s =
      let s1 = ports.port_bytes_out 0x64 0xD4 (mouse_wait 1 s) in
      ports.port_bytes_out 0x60 a_write (mouse_wait 1 s1)

  unfoldable pub init_mouse : ports.State → ports.State
  init_mouse s =
      let s1 = ports.port_bytes_out 0x64 0xA8 (mouse_wait 1 s) in
      let s2 = mouse_wait 0 (ports.port_bytes_out 0x64 0x20 (mouse_wait 1 s1)) in
      let (v, s3) = ports.port_bytes_in 0x60 s2 in
      let s4 = mouse_wait 1 (ports.port_bytes_out 0x64 0x60 (mouse_wait 1 s3)) in
      let s5 = ports.port_bytes_out 0x60 (bit_or v 2) s4 in
      let s6 = (ports.port_bytes_in 0x60 (mouse_wait 0 (mouse_write 0xF6 s5))).1 in
      (ports.port_bytes_in 0x60 (mouse_wait 0 (mouse_write 0xF4 s6))).1
