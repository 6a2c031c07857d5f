-- ===== src/Drivers/Rtc.antt =====
-- drivers/rtc.c: the time of day from the real-time clock.
use first_kernel.Base.{ℕ, ◌+◌, ◌*◌, ◌/◌, ◌%◌, ◌^◌, Option, some, bit_and, replicate}
use first_kernel.Base.Partial.{◌>>=◌}
use first_kernel.Base.Text.{codes}
use first_kernel.CString.{itoa}
use first_kernel.Ports.{Ports, Io, tell, tell_text}

-- A byte of two decimal digits, as an `unsigned char`.
abbrev pub from_bcd : ℕ → ℕ
from_bcd b = (bit_and b 0x0F + b / 16 * 10) % 2 ^ 8

module _ (ports : Ports) where
  unfoldable pub get_rtc_register : ℕ → ports.State → ℕ × ports.State
  get_rtc_register reg s = ports.port_bytes_in 0x71 (ports.port_bytes_out 0x70 reg s)

  unfoldable pub print_time : Io ports → Option (Io ports)
  print_time io = do
    let (h, s1) = get_rtc_register 0x04 io.devices
    let (m, s2) = get_rtc_register 0x02 s1
    let (s, s3) = get_rtc_register 0x00 s2
    str_h ← itoa (from_bcd h) (replicate 10 0)
    str_m ← itoa (from_bcd m) (replicate 10 0)
    str_s ← itoa (from_bcd s) (replicate 10 0)
    let io0 = tell (codes "local hour of the hardware: ") (record io { devices = s3 })
    let io1 = tell (codes ":") (tell_text str_h io0)
    let io2 = tell (codes ":") (tell_text str_m io1)
    some (tell (codes "\n") (tell_text str_s io2))
