-- ===== src/Shell/Dispatch.antt =====
-- The table of commands of kernel/shell.c and the choice of the handler.
use first_kernel.Base.{
  ℕ, List, [], ◌∷◌, ◌++◌, Option, none, some, ◌==◌, true, false, drop, get_elem?,
}
use first_kernel.Base.Partial.{◌>>=◌}
use first_kernel.Base.Text.{codes, Console}
use first_kernel.CString.{strcmp, strtok}
use first_kernel.Ports.{Ports}
use first_kernel.Shell.System.{Environment, System, tell, tell_text}
use first_kernel.Shell.Commands

-- The handlers that the table points to.
pub data Handler : Type 0 where
  help : Handler
  echo : Handler
  color : Handler
  read : Handler
  math : Handler
  write : Handler
  draw : Handler
  fsinfo : Handler
  ls : Handler
  mkdummy : Handler
  mkdir : Handler
  cd : Handler
  cat : Handler
  crash : Handler
  clear : Handler
  beep : Handler
  sleep : Handler
  cpuinfo : Handler
  uptime : Handler
  time : Handler
  alloc : Handler
  lspci : Handler
  rm : Handler
  run : Handler
  mkapp : Handler
  kmsg : Handler
  hack : Handler
  netinit : Handler

-- `command_t`
pub record Command : Type 0 where
  pub name : List ℕ
  pub handler : Handler
  pub description : List ℕ

abbrev pub commands : List Command
commands =
    (record { name = codes "help"; handler = help; description = codes "shows all the commands" })
    ∷ (record { name = codes "echo"; handler = echo; description = codes "print a message" })
    ∷ (record {
      name = codes "color";
      handler = color;
      description = codes " changes the color the background and the fonts";
    })
    ∷ (record {
      name = codes "read";
      handler = read;
      description = codes "read one sector of the disk";
    })
    ∷ (record {
      name = codes "math";
      handler = math;
      description = codes "can make basic arithmetic functions";
    })
    ∷ (record {
      name = codes "write";
      handler = write;
      description = codes "can write something in one sector";
    })
    ∷ (record { name = codes "draw"; handler = draw; description = codes "can draw a rectangle" })
    ∷ (record {
      name = codes "fsinfo";
      handler = fsinfo;
      description = codes "return the disk information";
    })
    ∷ (record { name = codes "ls"; handler = ls; description = codes "return al files available" })
    ∷ (record {
      name = codes "mkdummy";
      handler = mkdummy;
      description = codes "make a dummy file for test";
    })
    ∷ (record { name = codes "mkdir"; handler = mkdir; description = codes "make a new directory" })
    ∷ (record {
      name = codes "cd";
      handler = cd;
      description = codes "change the directory actual";
    })
    ∷ (record {
      name = codes "cat";
      handler = cat;
      description = codes "read a file within the system";
    })
    ∷ (record { name = codes "crash"; handler = crash; description = codes "force the page fault" })
    ∷ (record { name = codes "clear"; handler = clear; description = codes "clear the screen" })
    ∷ (record { name = codes "beep"; handler = beep; description = codes "make a beep sound" })
    ∷ (record {
      name = codes "sleep";
      handler = sleep;
      description = codes "kill the interrupts of the system";
    })
    ∷ (record {
      name = codes "cpuinfo";
      handler = cpuinfo;
      description = codes "return the cpu information";
    })
    ∷ (record {
      name = codes "uptime";
      handler = uptime;
      description = codes "return time since system bootup";
    })
    ∷ (record {
      name = codes "time";
      handler = time;
      description = codes "return the local time of hardwar";
    })
    ∷ (record {
      name = codes "alloc";
      handler = alloc;
      description = codes "make an reserve of memory";
    })
    ∷ (record {
      name = codes "lspci";
      handler = lspci;
      description = codes "return the pci buses available";
    })
    ∷ (record {
      name = codes "rm";
      handler = rm;
      description = codes "delete a file or directory from the disk";
    })
    ∷ (record { name = codes "run"; handler = run; description = codes "execute a program" })
    ∷ (record {
      name = codes "mkapp";
      handler = mkapp;
      description = codes "make a executeable progrma";
    })
    ∷ (record {
      name = codes "kmsg";
      handler = kmsg;
      description = codes "show the event register and start of the kernel";
    })
    ∷ (record {
      name = codes "hack";
      handler = hack;
      description = codes "pen-testing: try to shut down the interrupts(break the privileges)";
    })
    ∷ (record {
      name = codes "netinit";
      handler = netinit;
      description = codes "wake the network card E1000";
    })
    ∷ []

-- The lines of `cmd_help`, as the messages they are printed in.
unfoldable pub help_lines : List Command → Console
help_lines [] = []
help_lines (c ∷ cs) = codes "- " ∷ c.name ∷ codes ": " ∷ c.description ∷ codes "\n" ∷ help_lines cs

module _ {ports : Ports} (env : Environment) where
  unfoldable pub tell_all : Console → System ports → System ports
  tell_all [] s = s
  tell_all (m ∷ ms) s = tell_all ms (tell m s)

  unfoldable pub cmd_help : System ports → Option (System ports)
  cmd_help s = some (
      tell (codes "-----------------\n")
        (tell_all (help_lines commands) (tell (codes "--- commands availables ---\n") s)))

  unfoldable pub run_handler : Handler → System ports → Option (System ports)
  run_handler help = cmd_help
  run_handler echo = Commands.cmd_echo env
  run_handler color = Commands.cmd_color env
  run_handler read = Commands.cmd_read env
  run_handler math = Commands.cmd_math env
  run_handler write = Commands.cmd_write env
  run_handler draw = Commands.cmd_draw env
  run_handler fsinfo = Commands.cmd_fsinfo env
  run_handler ls = Commands.cmd_ls env
  run_handler mkdummy = Commands.cmd_mkdummy env
  run_handler mkdir = Commands.cmd_mkdir env
  run_handler cd = Commands.cmd_cd env
  run_handler cat = Commands.cmd_cat env
  run_handler crash = Commands.cmd_crash env
  run_handler clear = Commands.cmd_clear env
  run_handler beep = Commands.cmd_beep env
  run_handler sleep = Commands.cmd_sleep env
  run_handler cpuinfo = λ s. some (Commands.get_cpu_info env s)
  run_handler uptime = Commands.cmd_uptime env
  run_handler time = Commands.cmd_time env
  run_handler alloc = Commands.cmd_alloc env
  run_handler lspci = Commands.cmd_lspci env
  run_handler rm = Commands.cmd_rm env
  run_handler run = Commands.cmd_run env
  run_handler mkapp = Commands.cmd_mkapp env
  run_handler kmsg = Commands.cmd_kmsg env
  run_handler hack = Commands.cmd_hack env
  run_handler netinit = Commands.cmd_init_e1000 env

  -- The loop of `execute_command` over the table.
  unfoldable pub dispatch : List Command → List ℕ → System ports → Option (System ports)
  dispatch [] command s =
      some (tell (codes "\n") (tell_text command (tell (codes "unknow command: ") s)))
  dispatch (c ∷ cs) command s = do
    r ← strcmp command (c.name ++ 0 ∷ [])
    elim (r == 0) [ true ↦ run_handler c.handler s | false ↦ dispatch cs command s ]

  -- `input` is the line, which is cut in place; `strtok` gives no null pointer for a line that is not
  -- empty.
  unfoldable pub execute_command : List ℕ → System ports → Option (System ports)
  execute_command input s = do
    c ← get_elem? input 0
    elim (c == 0) [
      | true ↦ some s
      | false ↦ do
        (tokens, pos) ← strtok (some input) b' ' s.tokens
        elim pos [
          | none ↦ none
          | some i ↦ dispatch commands (drop i tokens.buffer) (record s { tokens = tokens })
        ]
    ]
