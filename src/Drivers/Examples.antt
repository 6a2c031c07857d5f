-- ===== src/Drivers/Examples.antt =====
-- The drivers for the timer, the speaker, the clock and the network card on the machine of Board.
use first_kernel.Base.{◌^◌, ◌<◌, ◌≤◌, ◌≡◌, ◌↔◌, ◌⊎◌, refl, arith, [], ◌∷◌, some}
use first_kernel.Base.Text.{codes}
use first_kernel.CString.Printed.{decimal}
use first_kernel.Ports.{Io}
use first_kernel.Drivers.Timer.{Timer, init_timer, get_uptime_second}
use first_kernel.Drivers.Speaker.{play_sound}
use first_kernel.Drivers.Rtc.{print_time}
use first_kernel.Drivers.NetworkCard.{Card, init_e1000}
use first_kernel.Drivers.Sound.{interrupts, uptime_lem, play_sound_lem}
use first_kernel.Drivers.Clock.{print_time_lem}
use first_kernel.Drivers.Probe.{Started, init_e1000-Started}
use first_kernel.Drivers.Board.{Board, board_ports, board_pit, board_clock, board_pci, board}

uptime_lem_example :
    (t' : Timer) × (s' : Board) × (init_timer board_ports 100
        (record { timer_ticks = 0; current_frecuency = 18 })
        board
      ≡ some (t', s'))
    × (board_pit.reload 0 (interrupts board_pit 250 (t', s')).1 ≡ 11931)
    × (get_uptime_second (interrupts board_pit 250 (t', s')).0 ≡ some 2)
uptime_lem_example = uptime_lem board_pit 100 250 board (omega arith) (omega arith) (omega arith)

-- The tone of 1000 Hz has the divisor 1193.
play_sound_lem_example :
    (s' : Board) × (play_sound board_ports 1000 board ≡ some s')
    × (board_pit.reload 2 s' ≡ 425)
    × ((board_pit.reload 2 s' ≡ 1193) ↔ ((1193 ≤ 8) ⊎ ((2 ^ 8 ≤ 1193) × (1193 < 2 ^ 9))))
play_sound_lem_example = play_sound_lem board_pit 1000 board (omega arith) (omega arith)

abbrev io : Io board_ports
io = record { devices = board; console = [] }

print_time_lem_example :
    (io' : Io board_ports) × (print_time board_ports io ≡ some io')
    × (io'.console
        ≡ codes "local hour of the hardware: "
          ∷ decimal 9
          ∷ codes ":"
          ∷ decimal 33
          ∷ codes ":"
          ∷ decimal 5
          ∷ codes "\n"
          ∷ [])
print_time_lem_example =
    print_time_lem board_clock 9 33 5 io (omega arith) (omega arith) (omega arith) refl refl refl

abbrev card : Card
card = record { e1000_mmio_base = 0; mac_address = []; tx_ring = [] }

init_e1000-Started_example : Started board_pci 0 0 card io (init_e1000 board_ports 0 0 card io)
init_e1000-Started_example = init_e1000-Started board_pci 0 0 card io
