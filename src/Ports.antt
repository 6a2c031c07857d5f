-- ===== src/Ports.antt =====
-- The ports of the machine. drivers/ports.c is the inline assembly of six instructions, so what stands
-- behind them is a parameter: a state, and what each instruction gives and does to it. So are the
-- `volatile` accesses of memory where a device is mapped.
use first_kernel.Base.{ℕ, List}
use first_kernel.Base.Text.{Console, print, c_text}

pub record Ports : Type 1 where
  pub State : Type 0
  pub port_bytes_in : ℕ → State → ℕ × State
  pub port_bytes_out : ℕ → ℕ → State → State
  pub port_word_in : ℕ → State → ℕ × State
  pub port_word_out : ℕ → ℕ → State → State
  pub port_dword_in : ℕ → State → ℕ × State
  pub port_dword_out : ℕ → ℕ → State → State
  pub volatile_read : ℕ → State → ℕ × State
  pub volatile_write : ℕ → ℕ → State → State

-- The devices' state and the messages printed, for drivers that do both.
pub record Io (ports : Ports) : Type 0 where
  pub devices : ports.State
  pub console : Console

module _ {ports : Ports} where
  abbrev pub tell : List ℕ → Io ports → Io ports
  tell message io = record io { console = print message io.console }

  -- `print` of a `char` array.
  abbrev pub tell_text : List ℕ → Io ports → Io ports
  tell_text text io = tell (c_text text) io

  abbrev pub bytes_out : ℕ → ℕ → Io ports → Io ports
  bytes_out port value io = record io { devices = ports.port_bytes_out port value io.devices }
