-- ===== src/Shell/Commands.antt =====
-- The handlers of kernel/shell.c, but for `cmd_help`, which reads the table of all of them.
use first_kernel.Base.{
  ℕ, zero, suc, ◌+◌, ◌-◌, ◌*◌, ◌/◌, ◌%◌, ◌^◌, List, [], ◌∷◌, ◌++◌, Option, none, some, get_or, set,
  replicate, ◌==◌, true, false, ◌&&◌, if◌then◌else◌, length,
}
use first_kernel.Base.Partial.{◌>>=◌}
use first_kernel.Base.Int.{divide}
use first_kernel.Base.Text.{codes, c_string, c_text}
use first_kernel.CString.{strcmp, strlen, atoi, itoa, hex_to_string}
use first_kernel.Pmm.{pmm_alloc_frame}
use first_kernel.Vga.{draw_rectangle}
use first_kernel.Screen.{set_color, clear_screen, dump_kernel_log}
use first_kernel.Fat16.Volume.{Volume, read_sector, say}
use first_kernel.Fat16.Directory.{pad_from}
use first_kernel.Fat16.Files.{write_file, cat_file, make_directory, change_directory, remove_file}
use first_kernel.Fat16.Listing.{list_files, read_fs_info, create_dummy_file}
use first_kernel.Ports.{Ports}
use first_kernel.Drivers.Timer.{get_uptime_second}
use first_kernel.Drivers.Speaker.{beep}
use first_kernel.Drivers.Rtc.{print_time}
use first_kernel.Drivers.Pci.{check_all_pci_buses}
use first_kernel.Drivers.NetworkCard.{init_e1000}
use first_kernel.Shell.System.{
  Environment, System, interrupt, cli, hlt, tell, tell_text, execute, on_volume, io_of, with_io,
  on_io, next_arg, text_at, with_arg,
}
use first_kernel.Shell.Programs.{execute_program}

-- `fat_name`: eight bytes of the name and three of the extension, padded, and a terminator.
unfoldable pub fat_name : List ℕ → List ℕ → Option (List ℕ)
fat_name file_name file_ext = do
  n_len ← strlen file_name
  e_len ← strlen file_ext
  some (pad_from 8 0 n_len file_name ++ pad_from 3 0 e_len file_ext ++ 0 ∷ [])

-- The colours by name, each test on its own.
abbrev pub color_names : List (List ℕ × ℕ)
color_names =
    (c_string "cyan", 0x0000FFFF)
    ∷ (c_string "green", 0x0000FF00)
    ∷ (c_string "red", 0x00FF0000)
    ∷ (c_string "blue", 0x000000FF)
    ∷ (c_string "white", 0x00FFFFFF)
    ∷ []

unfoldable pub choose_color : List (List ℕ × ℕ) → List ℕ → ℕ → Option ℕ
choose_color [] fg_str fg_color = some fg_color
choose_color ((name, color) ∷ names) fg_str fg_color = do
  r ← strcmp fg_str name
  choose_color names fg_str (if r == 0 then color else fg_color)

-- What `math` comes to: nothing for an operator that is none of the four, the processor's divide
-- error, or a number.
pub data Outcome : Type 0 where
  no_operator : Outcome
  divide_error : Outcome
  number : ℕ → Outcome

unfoldable pub calculate : List ℕ → ℕ → ℕ → Option Outcome
calculate op a b = do
  slash ← strcmp op (c_string "/")
  elim (slash == 0) [
    | true ↦ elim (divide a b) [ none ↦ some divide_error | some quotient ↦ some (number quotient) ]
    | false ↦ do
      plus ← strcmp op (c_string "+")
      minus ← strcmp op (c_string "-")
      times ← strcmp op (c_string "*")
      some (
          if plus == 0
          then number ((a + b) % 2 ^ 32)
          else if minus == 0
          then number ((a + 2 ^ 32 - b) % 2 ^ 32)
          else if times == 0
          then number (a * b % 2 ^ 32)
          else no_operator)
  ]

-- Three pointers, none of them null.
unfoldable pub all_given : Option ℕ → Option ℕ → Option ℕ → Option (ℕ × ℕ × ℕ)
all_given (some i) (some j) (some k) = some (i, j, k)
all_given _ _ _ = none

-- The bytes of an `int`.
abbrev pub int_bytes : ℕ → List ℕ
int_bytes n = n % 2 ^ 8 ∷ n / 2 ^ 8 % 2 ^ 8 ∷ n / 2 ^ 16 % 2 ^ 8 ∷ n / 2 ^ 24 % 2 ^ 8 ∷ []

-- What `cmd_read` prints of a sector.
unfoldable pub show_sector : ℕ → List ℕ → List ℕ → Volume → Volume
show_sector sector_number sector_str sector_data v =
    if sector_number == 0
    then (if get_or sector_data 510 0 == 0x55 && get_or sector_data 511 0 == 0xAA
        then say (0xC2 ∷ 0xA1 ∷ codes "SUCCESS! firm 0x55AA found (Bootloader validate).\n")
            (say (codes "Reading complete. verifying firm the sector 0...\n") v)
        else say (codes "Fail. firm not found of the bootloader.\n")
            (say (codes "Reading complete. verifying firm the sector 0...\n") v))
    else say (codes "\n") (
        say (c_text (set sector_data 511 0))
          (say (codes ":\n") (say (c_text sector_str) (say (codes "content of the sector ") v))))

module _ {ports : Ports} (env : Environment) where
  -- The loop of `cmd_echo`; `fuel` bounds its rounds, and fuel that runs out is `none`.
  unfoldable pub echo_from : ℕ → System ports → Option (System ports)
  echo_from zero s = none
  echo_from (suc fuel) s = do
    (s', pos) ← next_arg b' ' s
    elim pos [
      | none ↦ some (tell (codes "\n") s')
      | some i ↦ echo_from fuel (tell (codes " ") (tell_text (text_at i s') s'))
    ]

  -- Each round but the last cuts a byte or more off the line.
  unfoldable pub cmd_echo : System ports → Option (System ports)
  cmd_echo s = echo_from (suc (length s.tokens.buffer)) s

  unfoldable pub cmd_color : System ports → Option (System ports)
  cmd_color =
      with_arg (codes "Error: missing agrs\n- use: color [cyan|green|red|blue|white]\n")
        (λ fg_str s. do
          fg_color ← choose_color color_names fg_str 0x00FFFFFF
          some (
              tell (codes "- color has been update\n")
                (record s { screen = clear_screen (set_color fg_color s.screen) })))

  unfoldable pub cmd_read : System ports → Option (System ports)
  cmd_read =
      with_arg (codes "Error: missing args\n - use: read [number_of_sector]\n") (λ sector_str s. do
        sector_number ← atoi sector_str
        let s1 = tell (codes "Reading the sector of the disk...\n") s
        let sector_data = read_sector sector_number s1.volume
        some (record s1 { volume = show_sector sector_number sector_str sector_data s1.volume }))

  -- The divide error is interrupt 0, whose handler stops the kernel.
  unfoldable pub evaluate : ℕ × ℕ × ℕ → System ports → Option (System ports)
  evaluate (i, j, k) s = do
    arg1_num ← atoi (text_at i s)
    arg2_num ← atoi (text_at k s)
    outcome ← calculate (text_at j s) arg1_num arg2_num
    elim outcome [
      | no_operator ↦ some s
      | divide_error ↦ some (execute (interrupt 0x00) s)
      | number n ↦ do
        result_str ← itoa n (replicate 10 0)
        some (tell (codes "\n") (tell_text result_str (tell (codes "the result is: ") s)))
    ]

  unfoldable pub cmd_math : System ports → Option (System ports)
  cmd_math s = do
    (s1, pos1) ← next_arg b' ' s
    (s2, pos2) ← next_arg b' ' s1
    (s3, pos3) ← next_arg b' ' s2
    elim (all_given pos1 pos2 pos3) [
      | none ↦
          some (tell (codes "Error: missing args\n -use: math [number] [+|-|/|*] [number]\n") s3)
      | some args ↦ evaluate args s3
    ]

  unfoldable pub save_text : ℕ × ℕ × ℕ → System ports → Option (System ports)
  save_text (i, j, k) s = do
    filename ← fat_name (text_at i s) (text_at j s)
    on_volume (write_file filename (text_at k s)) s

  unfoldable pub cmd_write : System ports → Option (System ports)
  cmd_write s = do
    (s1, pos1) ← next_arg b' ' s
    (s2, pos2) ← next_arg b' ' s1
    (s3, pos3) ← next_arg 0 s2
    elim (all_given pos1 pos2 pos3) [
      | none ↦
          some (tell (codes "Error: missing args\n- use: write [name(8)] [EXT(8)] [text...]\n") s3)
      | some args ↦ save_text args s3
    ]

  unfoldable pub cmd_draw : System ports → Option (System ports)
  cmd_draw s = some (record s {
    screen = record s.screen { frame = draw_rectangle 10 10 50 50 40 s.screen.frame };
  })

  unfoldable pub cmd_mkdir : System ports → Option (System ports)
  cmd_mkdir =
      with_arg (codes "Error of sintax.\n- use: mkdir [name]\n")
        (λ dirname. on_volume (make_directory dirname))

  unfoldable pub cmd_cat : System ports → Option (System ports)
  cmd_cat =
      with_arg (codes "Error: missing args\n- use: cat [filename]\n")
        (λ file_to_read. on_volume (cat_file env.fuel file_to_read))

  unfoldable pub cmd_cd : System ports → Option (System ports)
  cmd_cd =
      with_arg (codes "Error of sintax\n- use: cd [dirname]\n")
        (λ dirname. on_volume (change_directory dirname))

  unfoldable pub cmd_rm : System ports → Option (System ports)
  cmd_rm =
      with_arg (codes "Error: missing args.\nUse: rm [name]\n")
        (λ target. on_volume (remove_file target))

  unfoldable pub cmd_run : System ports → Option (System ports)
  cmd_run = with_arg (codes "Use: run [name]\n") (execute_program env.fuel)

  unfoldable pub cmd_mkapp : System ports → Option (System ports)
  cmd_mkapp s = do
    let app_code = 0xCD ∷ 0x80 ∷ 0xEB ∷ 0xFE ∷ 0x00 ∷ []
    s' ← on_volume (write_file (c_string "APP     BIN") app_code) s
    some (tell (codes "Program compiled and installed as APP.BIN\n") s')

  unfoldable pub cmd_crash : System ports → Option (System ports)
  cmd_crash s = some (execute (interrupt 0x0E) s)

  unfoldable pub cmd_clear : System ports → Option (System ports)
  cmd_clear s = some (record s { screen = clear_screen s.screen })

  unfoldable pub cmd_beep : System ports → Option (System ports)
  cmd_beep s = do
    devices ← beep ports s.devices
    some (record (tell (codes "Emitiendo pitido en el hardware...\n") s) { devices = devices })

  unfoldable pub cmd_sleep : System ports → Option (System ports)
  cmd_sleep s = some (
      execute hlt (
        execute cli
          (tell (codes "stop getting any interrups\n") (tell (codes "killing the cpu\n") s))))

  -- `get_cpu_info` of cpu/cpu_utils.c
  unfoldable pub get_cpu_info : System ports → System ports
  get_cpu_info s =
      let vendor = int_bytes env.ebx ++ int_bytes env.edx ++ int_bytes env.ecx ++ 0 ∷ [] in
      tell (codes "\n") (tell_text vendor (tell (codes "procesor found: ") s))

  unfoldable pub cmd_uptime : System ports → Option (System ports)
  cmd_uptime s = do
    seconds ← get_uptime_second s.timer
    str_seconds ← itoa seconds (replicate 32 0)
    some (tell (codes " seconds on\n") (tell_text str_seconds (tell (codes "the system has ") s)))

  unfoldable pub cmd_alloc : System ports → Option (System ports)
  cmd_alloc s = do
    (bitmap, ptr) ← pmm_alloc_frame s.bitmap
    let s1 = record s { bitmap = bitmap }
    elim (ptr == 0) [
      | true ↦ some (tell (codes "Error: graphic memory is full\n") s1)
      | false ↦ do
        hex_address ← hex_to_string ptr (replicate 11 0)
        let s2 = tell (codes "Block of 4KB reserve succesfully in: ") s1
        some (tell (codes "\n") (tell_text hex_address s2))
    ]

  unfoldable pub cmd_kmsg : System ports → Option (System ports)
  cmd_kmsg s = do screen ← dump_kernel_log env.font s.screen; some (record s { screen = screen })

  unfoldable pub cmd_hack : System ports → Option (System ports)
  cmd_hack s =
      some (execute cli (tell (codes "trying to shut down the kernel (Command 'cli')...\n") s))

  unfoldable pub cmd_init_e1000 : System ports → Option (System ports)
  cmd_init_e1000 s = do
    (card, io) ← init_e1000 ports env.tx_ring env.tx_buffers s.card (io_of s)
    some (record (with_io s io) { card = card })

  unfoldable pub cmd_fsinfo : System ports → Option (System ports)
  cmd_fsinfo = on_volume read_fs_info

  unfoldable pub cmd_ls : System ports → Option (System ports)
  cmd_ls = on_volume list_files

  unfoldable pub cmd_mkdummy : System ports → Option (System ports)
  cmd_mkdummy = on_volume create_dummy_file

  unfoldable pub cmd_time : System ports → Option (System ports)
  cmd_time = on_io (print_time ports)

  unfoldable pub cmd_lspci : System ports → Option (System ports)
  cmd_lspci = on_io (check_all_pci_buses ports)
