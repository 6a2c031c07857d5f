-- ===== src/Shell/Keeps.antt =====
-- Every command of kernel/shell.c keeps the length of the line.
use first_kernel.Base.{
  ℕ, zero, suc, List, [], ◌∷◌, ◌++◌, Option, some, ◌==◌, get_elem?, drop, length, replicate,
}
use first_kernel.Base.Text.{codes, c_string, Console}
use first_kernel.CString.{Tokens, strcmp, strtok, next_token, atoi, itoa, hex_to_string}
use first_kernel.Fat16.Directory.{pad_name, find_entry}
use first_kernel.Fat16.Files.{write_file, cat_file, make_directory, change_directory, remove_file}
use first_kernel.Fat16.Listing.{list_files, read_fs_info, create_dummy_file}
use first_kernel.Heap.{kmalloc}
use first_kernel.Task.{create_task}
use first_kernel.Pmm.{pmm_alloc_frame}
use first_kernel.Screen.{dump_kernel_log}
use first_kernel.Drivers.Timer.{get_uptime_second}
use first_kernel.Drivers.Speaker
use first_kernel.Drivers.Rtc.{print_time}
use first_kernel.Drivers.Pci.{check_all_pci_buses}
use first_kernel.Drivers.NetworkCard.{init_e1000}
use first_kernel.Ports.{Ports}
use first_kernel.Shell.System.{Environment, System, tell, tell_text, text_at, on_volume}
use first_kernel.Shell.Commands
use first_kernel.Shell.Commands.{Outcome, no_operator, divide_error, number, fat_name, all_given}
use first_kernel.Shell.Dispatch.{
  help, echo, color, read, math, write, draw, fsinfo, ls, mkdummy, mkdir, cd, cat, crash, clear,
  beep, sleep, cpuinfo, uptime, time, alloc, lspci, rm, run, mkapp, kmsg, hack, netinit, Handler,
  Command, commands, run_handler, dispatch, execute_command, cmd_help, tell_all, help_lines,
}
use first_kernel.Shell.Programs.{execute_program, start_program}
use first_kernel.Shell.Line.{
  Every-bind, Every-then, Every-branch, Every-option, SameLength, next_token-length, HasLine, Kept,
  next_arg-Kept, with_arg-Kept, on_volume-Kept, on_io-Kept,
}

module _ {ports : Ports} (env : Environment) (n : ℕ) where
  -- What a command does with a line of that length.
  abbrev Keeps : (System ports → Option (System ports)) → Type 0
  Keeps f = (s : System ports) → HasLine n s → Kept n (f s)

  echo_from-Keeps : (fuel : ℕ) → Keeps (Commands.echo_from env fuel)
  unfolding Commands.echo_from
  echo_from-Keeps zero s l = tt
  echo_from-Keeps (suc fuel) s l = next_arg-Kept n b' ' s _ l (λ s' pos l'.
      Every-option (HasLine n) pos _ _ l'
        (λ i. echo_from-Keeps fuel (tell (codes " ") (tell_text (text_at i s') s')) l'))

  color-Keeps : Keeps (Commands.cmd_color env)
  unfolding Commands.cmd_color
  color-Keeps = with_arg-Kept n _ _ (λ text s l.
      Every-bind (HasLine n) (Commands.choose_color Commands.color_names text 0x00FFFFFF) _
        (λ c. l))

  read-Keeps : Keeps (Commands.cmd_read env)
  unfolding Commands.cmd_read
  read-Keeps = with_arg-Kept n _ _ (λ text s l. Every-bind (HasLine n) (atoi text) _ (λ c. l))

  Every-outcome :
      (o : Outcome) (x y : Option (System ports)) (f : ℕ → Option (System ports))
      → Kept n x
      → Kept n y
      → ((m : ℕ) → Kept n (f m))
      → Kept n (elim o [ no_operator ↦ x | divide_error ↦ y | number m ↦ f m ])
  Every-outcome no_operator x y f h k l = h
  Every-outcome divide_error x y f h k l = k
  Every-outcome (number m) x y f h k l = l m

  evaluate-Keeps : (args : ℕ × ℕ × ℕ) → Keeps (Commands.evaluate env args)
  unfolding Commands.evaluate
  evaluate-Keeps (i, j, k) s l = Every-bind (HasLine n) (atoi (text_at i s)) _ (λ a.
      Every-bind (HasLine n) (atoi (text_at k s)) _ (λ b.
        Every-bind (HasLine n) (Commands.calculate (text_at j s) a b) _ (λ result.
          Every-outcome result _ _ _ l l
            (λ m. Every-bind (HasLine n) (itoa m (replicate 10 0)) _ (λ str. l)))))

  math-Keeps : Keeps (Commands.cmd_math env)
  unfolding Commands.cmd_math
  math-Keeps s l = next_arg-Kept n b' ' s _ l (λ s1 pos1 l1.
      next_arg-Kept n b' ' s1 _ l1 (λ s2 pos2 l2. next_arg-Kept n b' ' s2 _ l2 (λ s3 pos3 l3.
        Every-option (HasLine n) (all_given pos1 pos2 pos3) _ _ l3
          (λ args. evaluate-Keeps args s3 l3))))

  save_text-Keeps : (args : ℕ × ℕ × ℕ) → Keeps (Commands.save_text env args)
  unfolding Commands.save_text
  save_text-Keeps (i, j, k) s l =
      Every-bind (HasLine n) (Commands.fat_name (text_at i s) (text_at j s)) _
        (λ name. on_volume-Kept n (write_file name (text_at k s)) s l)

  write-Keeps : Keeps (Commands.cmd_write env)
  unfolding Commands.cmd_write
  write-Keeps s l = next_arg-Kept n b' ' s _ l (λ s1 pos1 l1.
      next_arg-Kept n b' ' s1 _ l1 (λ s2 pos2 l2. next_arg-Kept n 0 s2 _ l2 (λ s3 pos3 l3.
        Every-option (HasLine n) (all_given pos1 pos2 pos3) _ _ l3
          (λ args. save_text-Keeps args s3 l3))))

  start_program-Keeps : (fuel cluster : ℕ) → Keeps (start_program fuel cluster)
  unfolding start_program
  start_program-Keeps fuel cluster s l =
      Every-bind (HasLine n) (kmalloc fuel 512 s.heap) _
        (λ r. Every-bind (HasLine n) (create_task _ _) _ (λ m. l))

  execute_program-Keeps : (fuel : ℕ) (filename : List ℕ) → Keeps (execute_program fuel filename)
  unfolding execute_program
  execute_program-Keeps fuel filename s l = Every-bind (HasLine n) (pad_name filename) _ (λ padded.
      Every-option (HasLine n) (find_entry padded 0 _) _ _ l (λ i.
        Every-then (HasLine n) (HasLine n) (start_program fuel _ s) _
          (start_program-Keeps fuel _ s l) (λ s' l'. l')))

  alloc-Keeps : Keeps (Commands.cmd_alloc env)
  unfolding Commands.cmd_alloc
  alloc-Keeps s l = Every-bind (HasLine n) (pmm_alloc_frame s.bitmap) _ (λ r.
      Every-branch (HasLine n) (r.1 == 0) _ _ l
        (Every-bind (HasLine n) (hex_to_string r.1 (replicate 11 0)) _ (λ str. l)))

  tell_all-Keeps :
      (messages : Console) (s : System ports) → HasLine n s → HasLine n (tell_all env messages s)
  unfolding tell_all
  tell_all-Keeps [] s l = l
  tell_all-Keeps (m ∷ ms) s l = tell_all-Keeps ms (tell m s) l

  run_handler-Keeps : (h : Handler) → Keeps (run_handler env h)
  unfolding run_handler cmd_help Commands.cmd_echo Commands.cmd_draw Commands.cmd_fsinfo
      Commands.cmd_ls Commands.cmd_mkdummy Commands.cmd_mkdir Commands.cmd_cd Commands.cmd_cat
      Commands.cmd_crash Commands.cmd_clear Commands.cmd_beep Commands.cmd_sleep
      Commands.get_cpu_info Commands.cmd_uptime Commands.cmd_time Commands.cmd_lspci Commands.cmd_rm
      Commands.cmd_run Commands.cmd_mkapp Commands.cmd_kmsg Commands.cmd_hack
      Commands.cmd_init_e1000
  run_handler-Keeps help s l =
      tell_all-Keeps (help_lines commands) (tell (codes "--- commands availables ---\n") s) l
  run_handler-Keeps echo s l = echo_from-Keeps (suc (length s.tokens.buffer)) s l
  run_handler-Keeps color s l = color-Keeps s l
  run_handler-Keeps read s l = read-Keeps s l
  run_handler-Keeps math s l = math-Keeps s l
  run_handler-Keeps write s l = write-Keeps s l
  run_handler-Keeps draw s l = l
  run_handler-Keeps fsinfo s l = on_volume-Kept n read_fs_info s l
  run_handler-Keeps ls s l = on_volume-Kept n list_files s l
  run_handler-Keeps mkdummy s l = on_volume-Kept n create_dummy_file s l
  run_handler-Keeps mkdir s l =
      with_arg-Kept n _ _ (λ text. on_volume-Kept n (make_directory text)) s l
  run_handler-Keeps cd s l =
      with_arg-Kept n _ _ (λ text. on_volume-Kept n (change_directory text)) s l
  run_handler-Keeps cat s l =
      with_arg-Kept n _ _ (λ text. on_volume-Kept n (cat_file env.fuel text)) s l
  run_handler-Keeps crash s l = l
  run_handler-Keeps clear s l = l
  run_handler-Keeps beep s l = Every-bind (HasLine n) (Speaker.beep ports s.devices) _ (λ d. l)
  run_handler-Keeps sleep s l = l
  run_handler-Keeps cpuinfo s l = l
  run_handler-Keeps uptime s l =
      Every-bind (HasLine n) (get_uptime_second s.timer) _
        (λ seconds. Every-bind (HasLine n) (itoa seconds (replicate 32 0)) _ (λ str. l))
  run_handler-Keeps time s l = on_io-Kept n (print_time ports) s l
  run_handler-Keeps alloc s l = alloc-Keeps s l
  run_handler-Keeps lspci s l = on_io-Kept n (check_all_pci_buses ports) s l
  run_handler-Keeps rm s l = with_arg-Kept n _ _ (λ text. on_volume-Kept n (remove_file text)) s l
  run_handler-Keeps run s l = with_arg-Kept n _ _ (execute_program-Keeps env.fuel) s l
  run_handler-Keeps mkapp s l =
      Every-then (HasLine n) (HasLine n)
        (on_volume (write_file (c_string "APP     BIN") (0xCD ∷ 0x80 ∷ 0xEB ∷ 0xFE ∷ 0x00 ∷ [])) s)
        _
        (on_volume-Kept n
          (write_file (c_string "APP     BIN") (0xCD ∷ 0x80 ∷ 0xEB ∷ 0xFE ∷ 0x00 ∷ [])) s l)
        (λ s' l'. l')
  run_handler-Keeps kmsg s l =
      Every-bind (HasLine n) (dump_kernel_log env.font s.screen) _ (λ screen. l)
  run_handler-Keeps hack s l = l
  run_handler-Keeps netinit s l = Every-bind (HasLine n) (init_e1000 ports _ _ _ _) _ (λ r. l)

  dispatch-Keeps : (cs : List Command) (command : List ℕ) → Keeps (dispatch env cs command)
  unfolding dispatch
  dispatch-Keeps [] command s l = l
  dispatch-Keeps (c ∷ cs) command s l =
      Every-bind (HasLine n) (strcmp command (c.name ++ 0 ∷ [])) _ (λ r.
        Every-branch (HasLine n) (r == 0) _ _ (run_handler-Keeps c.handler s l)
          (dispatch-Keeps cs command s l))

module _ {ports : Ports} (env : Environment) where
  -- `execute_command` keeps the length of the line, whatever command it runs.
  pub execute_command-Kept :
      (input : List ℕ) (s : System ports)
      → HasLine (length input) s
      → Kept (length input) (execute_command env input s)
  unfolding execute_command strtok
  execute_command-Kept input s l =
      let n = length input in
      let start : Tokens = record { buffer = input; last_token = some 0 } in
      Every-bind (HasLine n) (get_elem? input 0) _ (λ c. Every-branch (HasLine n) (c == 0) _ _ l (
        Every-then (λ (r : Tokens × Option ℕ). SameLength input r.0.buffer) (HasLine n)
          (next_token b' ' start) _ (next_token-length b' ' start)
          (λ r q. Every-option (HasLine n) r.1 _ _ tt (λ i.
            dispatch-Keeps env n commands (drop i r.0.buffer) (record s { tokens = r.0 }) q))))
