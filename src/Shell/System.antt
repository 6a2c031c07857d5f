-- ===== src/Shell/System.antt =====
-- The state that the handlers of kernel/shell.c share: that of every component they call.
use first_kernel.Base.{ℕ, List, [], ◌∷◌, ◌++◌, Option, none, some, drop}
use first_kernel.Base.Partial.{◌>>=◌}
use first_kernel.Base.Text.{c_text}
use first_kernel.CString.{Tokens, strtok}
use first_kernel.Fat16.Volume.{Volume, say}
use first_kernel.Pmm.{Bitmap}
use first_kernel.Heap.{Heap}
use first_kernel.Task.{Scheduler}
use first_kernel.Screen.{Screen}
use first_kernel.Ports.{Ports, Io}
use first_kernel.Drivers.Timer.{Timer}
use first_kernel.Drivers.NetworkCard.{Card}

-- The inline assembly of the handlers.
pub data Instruction : Type 0 where
  interrupt : ℕ → Instruction
  cli : Instruction
  hlt : Instruction

-- What the handlers take from outside of the C code: the fuel for the loops of `cat_file` and
-- `kmalloc`, the addresses of two arrays of drivers/e1000.c, what `cpuid` leaves in EBX, ECX and EDX,
-- and the glyphs.
pub record Environment : Type 0 where
  pub fuel : ℕ
  pub tx_ring : ℕ
  pub tx_buffers : ℕ
  pub ebx : ℕ
  pub ecx : ℕ
  pub edx : ℕ
  pub font : ℕ → ℕ → ℕ

-- The messages printed are those of the volume's console; `screen` is drawn on by the handlers that
-- draw; `instructions` are those executed, the oldest first.
pub record System (ports : Ports) : Type 0 where
  pub volume : Volume
  pub tokens : Tokens
  pub bitmap : Bitmap
  pub memory : ℕ → ℕ
  pub heap : Heap
  pub scheduler : Scheduler
  pub timer : Timer
  pub card : Card
  pub screen : Screen
  pub devices : ports.State
  pub instructions : List Instruction

module _ {ports : Ports} where
  abbrev pub tell : List ℕ → System ports → System ports
  tell message s = record s { volume = say message s.volume }

  abbrev pub tell_text : List ℕ → System ports → System ports
  tell_text text s = tell (c_text text) s

  abbrev pub execute : Instruction → System ports → System ports
  execute i s = record s { instructions = s.instructions ++ i ∷ [] }

  -- A function of the file system.
  abbrev pub on_volume : (Volume → Option Volume) → System ports → Option (System ports)
  on_volume f s = do volume ← f s.volume; some (record s { volume = volume })

  abbrev pub io_of : System ports → Io ports
  io_of s = record { devices = s.devices; console = s.volume.console }

  abbrev pub with_io : System ports → Io ports → System ports
  with_io s io = record s {
    volume = record s.volume { console = io.console };
    devices = io.devices;
  }

  -- A driver that prints.
  abbrev pub on_io : (Io ports → Option (Io ports)) → System ports → Option (System ports)
  on_io f s = do io ← f (io_of s); some (with_io s io)

  -- `strtok(0, delim)`
  unfoldable pub next_arg : ℕ → System ports → Option (System ports × Option ℕ)
  next_arg delim s = do
    (tokens, pos) ← strtok none delim s.tokens
    some (record s { tokens = tokens }, pos)

  -- What a token's pointer points to.
  abbrev pub text_at : ℕ → System ports → List ℕ
  text_at pos s = drop pos s.tokens.buffer

  -- A handler with one argument: what it does with the argument, and the message if there is none.
  unfoldable pub with_arg :
      List ℕ
      → (List ℕ → System ports → Option (System ports))
      → System ports
      → Option (System ports)
  with_arg usage f s = do
    (s', pos) ← next_arg b' ' s
    elim pos [ none ↦ some (tell usage s') | some i ↦ f (text_at i s') s' ]
