-- ===== src/Drivers/Timer.antt =====
-- drivers/timer.c: the interval timer and the count of its interrupts.
use first_kernel.Base.{ℕ, ◌+◌, ◌/◌, ◌%◌, ◌^◌, Option, none, some, bit_and, ◌==◌, if◌then◌else◌}
use first_kernel.Ports.{Ports}

-- The two globals.
pub record Timer : Type 0 where
  pub timer_ticks : ℕ
  pub current_frecuency : ℕ

-- The divisor of a frequency that is not 0.
abbrev pub timer_divisor : ℕ → ℕ
timer_divisor frecuency = 1193180 / frecuency

-- Zero seconds of a frequency of zero: the processor's divide error.
unfoldable pub get_uptime_second : Timer → Option ℕ
get_uptime_second t =
    if t.current_frecuency == 0 then none else some (t.timer_ticks / t.current_frecuency)

module _ (ports : Ports) where
  unfoldable pub init_timer : ℕ → Timer → ports.State → Option (Timer × ports.State)
  init_timer frecuency t s =
      let divisor = timer_divisor frecuency in
      let s1 = ports.port_bytes_out 0x43 0x36 s in
      let s2 = ports.port_bytes_out 0x40 (bit_and divisor 0xFF) s1 in
      let s3 = ports.port_bytes_out 0x40 (bit_and (divisor / 2 ^ 8) 0xFF) s2 in
      if frecuency == 0 then none else some (record t { current_frecuency = frecuency }, s3)

  unfoldable pub timer_handler : Timer → ports.State → Timer × ports.State
  timer_handler t s =
      (record t { timer_ticks = (t.timer_ticks + 1) % 2 ^ 32 }, ports.port_bytes_out 0x20 0x20 s)
