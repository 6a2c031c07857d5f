-- ===== src/Drivers/Sound.antt =====
-- What the interval timer makes of the writes of drivers/timer.c and drivers/speaker.c.
use first_kernel.Base.{
  inr, inl, ◌⊎◌, Bool-cases, ◌↔◌, ℕ, zero, suc, ◌+◌, ◌*◌, ◌/◌, ◌%◌, ◌^◌, ◌<◌, ◌≤◌, ◌≡◌, refl, ap,
  sym, ◌∙◌, Option, some, bit_and, bit_or, arith, bit_and_mask, ◌==◌, ==_ne, if◌then◌else◌, ltb,
}
use native.Mathlib.Nat.{div-lt_iff_lt-mul}
use first_kernel.Base.Partial.{◌>>=◌}
use first_kernel.Base.Int.{divide_lem}
use first_kernel.Ports.{Ports}
use first_kernel.Drivers.Timer.{Timer, timer_divisor, init_timer, timer_handler, get_uptime_second}
use first_kernel.Drivers.Speaker.{above_eight, open_gate, play_sound}

-- The interval timer behind the ports: the value that a channel counts from, which two writes after a
-- command byte set, low byte first (a channel counts 65536
-- from a value of 0); an acknowledgement to the interrupt controller leaves it.
pub record Pit (ports : Ports) : Type 0 where
  pub reload : ℕ → ports.State → ℕ
  pub sets_clock :
      (low high : ℕ) (s : ports.State)
      → reload 0 (
          ports.port_bytes_out 0x40 high
            (ports.port_bytes_out 0x40 low (ports.port_bytes_out 0x43 0x36 s)))
        ≡ high * 2 ^ 8 + low
  pub sets_speaker :
      (low high : ℕ) (s : ports.State)
      → reload 2 (
          ports.port_bytes_out 0x42 high
            (ports.port_bytes_out 0x42 low (ports.port_bytes_out 0x43 0xb6 s)))
        ≡ high * 2 ^ 8 + low
  pub keeps :
      (channel v : ℕ) (s : ports.State)
      → reload channel (ports.port_bytes_out 0x20 v s) ≡ reload channel s
  pub gate_in :
      (channel : ℕ) (s : ports.State)
      → reload channel (ports.port_bytes_in 0x61 s).1 ≡ reload channel s
  pub gate_out :
      (channel v : ℕ) (s : ports.State)
      → reload channel (ports.port_bytes_out 0x61 v s) ≡ reload channel s

none_before : (k : ℕ) → k ≡ 0 + k
none_before k = omega arith

no_more : (k : ℕ) → k ≡ k + 0
no_more k = omega arith

small_divisor : (frecuency : ℕ) → 19 ≤ frecuency → 1193180 / frecuency < 2 ^ 16
small_divisor frecuency low = (div-lt_iff_lt-mul (omega (arith, low))).1 (omega (arith, low))

programmed :
    (d : ℕ)
    → d < 2 ^ 31
    → bit_and (above_eight d) 0xFF * 2 ^ 8 + bit_and d 0xFF
      ≡ (if ltb 8 d then 2 ^ 8 else 0) + d % 2 ^ 8
programmed d h = ground (arith, bit_and_mask 8 d, bit_and_mask 8 (above_eight d))

right_only :
    (d : ℕ) {x : ℕ}
    → x ≡ (if ltb 8 d then 2 ^ 8 else 0) + d % 2 ^ 8
    → (x ≡ d) ↔ ((d ≤ 8) ⊎ ((2 ^ 8 ≤ d) × (d < 2 ^ 9)))
right_only d e = ground arith

module _ {ports : Ports} (pit : Pit ports) where
  -- As many interrupts as the fuel says.
  pub interrupts : ℕ → Timer × ports.State → Timer × ports.State
  interrupts zero t = t
  interrupts (suc n) (t, s) = interrupts n (timer_handler ports t s)

  interrupts_lem :
      (n : ℕ) (t : Timer) (s : ports.State)
      → t.timer_ticks + n < 2 ^ 32
      → ((interrupts n (t, s)).0 ≡ record t { timer_ticks = t.timer_ticks + n })
        × (pit.reload 0 (interrupts n (t, s)).1 ≡ pit.reload 0 s)
  unfolding interrupts timer_handler
  interrupts_lem zero t s h =
      (ap (λ (k : ℕ). record t { timer_ticks = k }) (no_more t.timer_ticks), refl)
  interrupts_lem (suc n) t s h =
      let next : (t.timer_ticks + 1) % 2 ^ 32 + n ≡ t.timer_ticks + suc n = omega arith in
      let (counted, same) =
        interrupts_lem n (record t { timer_ticks = (t.timer_ticks + 1) % 2 ^ 32 })
          (ports.port_bytes_out 0x20 0x20 s) (omega (arith, next, h)) in
      (counted ∙ ap (λ (k : ℕ). record t { timer_ticks = k }) next, same ∙ pit.keeps 0 0x20 s)

  -- With a frequency from 19 to 1193180 the divisor fits the 16 bits of the channel, which then counts
  -- from it; and however many interrupts follow, as long as the counter does not overflow, the uptime
  -- is the whole seconds of their number at that frequency.
  pub uptime_lem :
      (frecuency n : ℕ) (s : ports.State)
      → 19 ≤ frecuency
      → frecuency ≤ 1193180
      → n < 2 ^ 32
      → (t' : Timer) × (s' : ports.State) × (init_timer ports frecuency
            (record { timer_ticks = 0; current_frecuency = 18 })
            s
          ≡ some (t', s'))
        × (pit.reload 0 (interrupts n (t', s')).1 ≡ 1193180 / frecuency)
        × (get_uptime_second (interrupts n (t', s')).0 ≡ some (n / frecuency))
  unfolding init_timer get_uptime_second
  uptime_lem frecuency n s low high h =
      let divisor = timer_divisor frecuency in
      let t' : Timer = record { timer_ticks = 0; current_frecuency = frecuency } in
      let s1 =
        ports.port_bytes_out 0x40 (bit_and divisor 0xFF) (ports.port_bytes_out 0x43 0x36 s) in
      let s' = ports.port_bytes_out 0x40 (bit_and (divisor / 2 ^ 8) 0xFF) s1 in
      let (counted, same) = interrupts_lem n t' s' (omega (arith, h)) in
      let fits : divisor < 2 ^ 16 = small_divisor frecuency low in
      let running = ==_ne frecuency 0 (λ e. absurd (omega (arith, e))) in
      (
        t',
        s',
        rw (running) refl,
        same
            ∙ pit.sets_clock (bit_and divisor 0xFF) (bit_and (divisor / 2 ^ 8) 0xFF) s
            ∙ omega (arith, bit_and_mask 8 divisor, bit_and_mask 8 (divisor / 2 ^ 8), fits),
        ap get_uptime_second counted
            ∙ rw (running) (ap (λ (k : ℕ). some (k / frecuency)) (sym (none_before n))),
      )

  opens : (s : ports.State) → pit.reload 2 (open_gate ports s) ≡ pit.reload 2 s
  unfolding open_gate
  opens s =
      elim (Bool-cases
        ((ports.port_bytes_in 0x61 s).0 == bit_or (ports.port_bytes_in 0x61 s).0 3)) [
          | inl e ↦ rw (e) (pit.gate_in 2 s)
          | inr e ↦ rw (e) (pit.gate_out 2 _ _ ∙ pit.gate_in 2 s)
        ]

  -- `play_sound` of a frequency above 0 faults nowhere and makes the speaker's channel count from the low
  -- byte of the divisor, and 256 more if the divisor is above 8; that is the divisor itself only up to
  -- 8 and from 256 to 511.
  pub play_sound_lem :
      (frequency : ℕ) (s : ports.State)
      → 0 < frequency
      → frequency < 2 ^ 31
      → let divisor = 1193180 / frequency in
        (s' : ports.State) × (play_sound ports frequency s ≡ some s')
        × (pit.reload 2 s' ≡ (if ltb 8 divisor then 2 ^ 8 else 0) + divisor % 2 ^ 8)
        × ((pit.reload 2 s' ≡ divisor) ↔ ((divisor ≤ 8) ⊎ ((2 ^ 8 ≤ divisor) × (divisor < 2 ^ 9))))
  unfolding play_sound
  play_sound_lem frequency s p h =
      let divisor = 1193180 / frequency in
      let low : divisor < 2 ^ 31 = omega arith in
      let s1 =
        ports.port_bytes_out 0x42 (bit_and divisor 0xFF) (ports.port_bytes_out 0x43 0xb6 s) in
      let s2 = ports.port_bytes_out 0x42 (bit_and (above_eight divisor) 0xFF) s1 in
      let counts =
        opens s2
        ∙ pit.sets_speaker (bit_and divisor 0xFF) (bit_and (above_eight divisor) 0xFF) s
        ∙ programmed divisor low in
      (
        open_gate ports s2,
        ap
            (λ (o : Option ℕ). do
              d ← o
              let s1 = ports.port_bytes_out 0x42 (bit_and d 0xFF) (ports.port_bytes_out 0x43 0xb6 s)
              let s2 = ports.port_bytes_out 0x42 (bit_and (above_eight d) 0xFF) s1
              some (open_gate ports s2))
            (divide_lem 1193180 frequency (omega arith) p h),
        counts,
        right_only divisor counts,
      )
