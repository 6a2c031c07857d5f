-- ===== src/Drivers/Speaker.antt =====
-- drivers/speaker.c: the loudspeaker behind channel 2 of the interval timer.
use first_kernel.Base.{ℕ, Option, some, bit_and, bit_or, ◌==◌, ltb, not, ◌&&◌, if◌then◌else◌}
use first_kernel.Base.Partial.{◌>>=◌}
use first_kernel.Base.Int.{divide, is_negative}
use first_kernel.Ports.{Ports}

-- The comparison `divisor > 8` of two `int`s, as a number.
abbrev pub above_eight : ℕ → ℕ
above_eight divisor = if ltb 8 divisor && not (is_negative divisor) then 1 else 0

module _ (ports : Ports) where
  -- The two lowest bits of port 0x61, where they are not both set.
  unfoldable pub open_gate : ports.State → ports.State
  open_gate s =
      let (tmp, s') = ports.port_bytes_in 0x61 s in
      if tmp == bit_or tmp 3 then s' else ports.port_bytes_out 0x61 (bit_or tmp 3) s'

  unfoldable pub play_sound : ℕ → ports.State → Option ports.State
  play_sound frequency s = do
    divisor ← divide 1193180 frequency
    let s1 = ports.port_bytes_out 0x43 0xb6 s
    let s2 = ports.port_bytes_out 0x42 (bit_and divisor 0xFF) s1
    let s3 = ports.port_bytes_out 0x42 (bit_and (above_eight divisor) 0xFF) s2
    some (open_gate s3)

  unfoldable pub stop_sound : ports.State → ports.State
  stop_sound s =
      let (tmp, s') = ports.port_bytes_in 0x61 s in ports.port_bytes_out 0x61 (bit_and tmp 0xFC) s'

  -- The empty loop between the two, which only takes time, is left out.
  unfoldable pub beep : ports.State → Option ports.State
  beep s = do s' ← play_sound 1000 s; some (stop_sound s')
