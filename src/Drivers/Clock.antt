-- ===== src/Drivers/Clock.antt =====
-- `print_time` of drivers/rtc.c on a real-time clock that counts in BCD.
use first_kernel.Base.{
  ℕ, ◌+◌, ◌*◌, ◌/◌, ◌%◌, ◌<◌, ◌≡◌, refl, ap, ◌∙◌, List, [], ◌∷◌, ◌++◌, some, replicate, arith,
  bit_and_mask, append_assoc,
}
use first_kernel.Base.Text.{c_text, codes}
use first_kernel.CString.Printed.{decimal, itoa-printed}
use first_kernel.Ports.{Ports, Io, tell}
use first_kernel.Drivers.Rtc.{from_bcd, get_rtc_register, print_time}

-- Two decimal digits, one in each half of a byte.
abbrev pub bcd : ℕ → ℕ
bcd n = n / 10 * 16 + n % 10

pub from_bcd-bcd : (n : ℕ) → n < 100 → from_bcd (bcd n) ≡ n
from_bcd-bcd n h = omega (arith, bit_and_mask 4 (bcd n))

-- The clock behind the ports: its registers by number, which reading them does not change.
pub record Clock (ports : Ports) : Type 0 where
  pub register : ports.State → ℕ → ℕ
  pub selects :
      (reg k : ℕ) (s : ports.State) → register (ports.port_bytes_out 0x70 reg s) k ≡ register s k
  pub reads :
      (reg : ℕ) (s : ports.State)
      → (ports.port_bytes_in 0x71 (ports.port_bytes_out 0x70 reg s)).0 ≡ register s reg
  pub keeps : (k : ℕ) (s : ports.State) → register (ports.port_bytes_in 0x71 s).1 k ≡ register s k

module _ {ports : Ports} (clock : Clock ports) where
  abbrev after : ℕ → ports.State → ports.State
  after reg s = (get_rtc_register ports reg s).1

  unchanged : (reg k : ℕ) (s : ports.State) → clock.register (after reg s) k ≡ clock.register s k
  unfolding get_rtc_register
  unchanged reg k s = clock.keeps k (ports.port_bytes_out 0x70 reg s) ∙ clock.selects reg k s

  got :
      (reg n : ℕ) (s : ports.State)
      → clock.register s reg ≡ bcd n
      → n < 100
      → from_bcd (get_rtc_register ports reg s).0 ≡ n
  unfolding get_rtc_register
  got reg n s e h = ap from_bcd (clock.reads reg s ∙ e) ∙ from_bcd-bcd n h

  abbrev telling : Io ports → List ℕ → List ℕ → List ℕ → ports.State → Io ports
  telling io h m s devices = tell (codes "\n") (
      tell s (
        tell (codes ":") (
          tell m (
            tell (codes ":") (
              tell h
                (tell (codes "local hour of the hardware: ") (record io { devices = devices })))))))

  -- With the time of day in the registers as BCD, `print_time` faults nowhere and prints hour, minute
  -- and second in decimal, without leading zeros.
  pub print_time_lem :
      (h m s : ℕ) (io : Io ports)
      → h < 24
      → m < 60
      → s < 60
      → clock.register io.devices 4 ≡ bcd h
      → clock.register io.devices 2 ≡ bcd m
      → clock.register io.devices 0 ≡ bcd s
      → (io' : Io ports) × (print_time ports io ≡ some io')
        × (io'.console
            ≡ io.console
              ++ (codes "local hour of the hardware: "
                  ∷ decimal h
                  ∷ codes ":"
                  ∷ decimal m
                  ∷ codes ":"
                  ∷ decimal s
                  ∷ codes "\n"
                  ∷ []))
  unfolding print_time
  print_time_lem h m s io hh hm hs eh em es =
      let s1 = after 4 io.devices in
      let s2 = after 2 s1 in
      let got_h = got 4 h io.devices eh (omega arith) in
      let got_m = got 2 m s1 (unchanged 4 2 io.devices ∙ em) (omega arith) in
      let got_s = got 0 s s2 (unchanged 2 0 s1 ∙ unchanged 4 0 io.devices ∙ es) (omega arith) in
      let (str_h, wrote_h, shown_h) = itoa-printed h (replicate 10 0) (omega arith) refl in
      let (str_m, wrote_m, shown_m) = itoa-printed m (replicate 10 0) (omega arith) refl in
      let (str_s, wrote_s, shown_s) = itoa-printed s (replicate 10 0) (omega arith) refl in
      (
        telling io (decimal h) (decimal m) (decimal s) (after 0 s2),
        rw (got_h, wrote_h, got_m, wrote_m, got_s, wrote_s)
            (ap (λ (d : List ℕ). some (telling io d (c_text str_m) (c_text str_s) (after 0 s2)))
                shown_h
              ∙ ap (λ (d : List ℕ). some (telling io (decimal h) d (c_text str_s) (after 0 s2)))
                  shown_m
              ∙ ap (λ (d : List ℕ). some (telling io (decimal h) (decimal m) d (after 0 s2)))
                  shown_s),
        simp append_assoc refl,
      )
