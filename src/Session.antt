-- ===== src/Session.antt =====
-- drivers/keyboard.c on top of kernel/shell.c: the handler of the keyboard's interrupt calls
-- `execute_command` on its line buffer, which is the array that the shell cuts into words.
-- The scancode that the port gives is an argument.
pub mod Interrupt
pub mod Lines
pub mod Entered
pub mod Spoken
mod Tests
use first_kernel.Base.{ℕ, List, [], ◌∷◌, Option, none, some}
use first_kernel.Base.Partial.{◌>>=◌}
use first_kernel.Keyboard.{
  Keyboard, Event, prints_char, prints, executes, writes_port, keyboard_handler,
}
use first_kernel.Ports.{Ports}
use first_kernel.Shell.System.{Environment, System, tell}
use first_kernel.Shell.Dispatch.{execute_command}

pub record Machine (ports : Ports) : Type 0 where
  pub keyboard : Keyboard
  pub system : System ports

module _ {ports : Ports} (env : Environment) where
  -- `strtok` works in the keyboard's buffer.
  abbrev pub holding : List ℕ → System ports → System ports
  holding buffer s = record s { tokens = record s.tokens { buffer = buffer } }

  abbrev pub acknowledge : ℕ → ℕ → System ports → System ports
  acknowledge port value s = record s { devices = ports.port_bytes_out port value s.devices }

  -- What `execute_command` leaves in the buffer. The handler has printed the end of the line before. A
  -- fault leaves nothing to speak of; it is a fault of the interrupt as well.
  unfoldable pub left_line : System ports → List ℕ → List ℕ
  left_line s buffer = elim (execute_command env buffer (holding buffer (tell (10 ∷ []) s))) [
    | none ↦ buffer
    | some s' ↦ s'.tokens.buffer
  ]

  -- What the handler's calls do to the system, in their order.
  unfoldable pub perform : Event → System ports → Option (System ports)
  perform (prints_char c) s = some (tell (c ∷ []) s)
  perform (prints message) s = some (tell message s)
  perform (executes buffer) s = execute_command env buffer (holding buffer s)
  perform (writes_port port value) s = some (acknowledge port value s)

  unfoldable pub perform_all : List Event → System ports → Option (System ports)
  perform_all [] s = some s
  perform_all (event ∷ events) s = do s' ← perform event s; perform_all events s'

  unfoldable pub keyboard_interrupt : ℕ → Machine ports → Option (Machine ports)
  keyboard_interrupt scancode m = do
    keyboard ← keyboard_handler (left_line m.system) scancode (record m.keyboard { events = [] })
    system ← perform_all keyboard.events m.system
    some (record { keyboard = keyboard; system = system })

  -- One interrupt after another.
  unfoldable pub interrupts : List ℕ → Machine ports → Option (Machine ports)
  interrupts [] m = some m
  interrupts (scancode ∷ scancodes) m = do
    m' ← keyboard_interrupt scancode m
    interrupts scancodes m'
