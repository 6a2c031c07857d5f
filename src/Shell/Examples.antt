-- ===== src/Shell/Examples.antt =====
-- A system with a blank disk.
use first_kernel.Base.{ℕ, [], none, replicate}
use first_kernel.Ports.{Ports}
use first_kernel.Shell.System.{Environment, System}

-- A machine without devices.
abbrev pub bare_ports : Ports
bare_ports = record {
  State = ℕ;
  port_bytes_in = λ p s. (0, s);
  port_bytes_out = λ p v s. s;
  port_word_in = λ p s. (0, s);
  port_word_out = λ p w s. s;
  port_dword_in = λ p s. (0, s);
  port_dword_out = λ p w s. s;
  volatile_read = λ a s. (0, s);
  volatile_write = λ a w s. s;
}

abbrev pub environment : Environment
environment = record {
  fuel = 2;
  tx_ring = 0;
  tx_buffers = 0;
  ebx = 0;
  ecx = 0;
  edx = 0;
  font = λ c y. 0;
}

abbrev pub blank_system : System bare_ports
blank_system = record {
  volume = record { sectors = λ k. replicate 512 0; current_dir_cluster = 0; console = [] };
  tokens = record { buffer = []; last_token = none };
  bitmap = [];
  memory = λ a. 0;
  heap = record { block_at = λ a. none; free_list = 0 };
  scheduler = record { tasks = []; current_task = 0; task_count = 0 };
  timer = record { timer_ticks = 0; current_frecuency = 100 };
  card = record { e1000_mmio_base = 0; mac_address = []; tx_ring = [] };
  screen = record {
    vga_mem = 0;
    frame = λ a. 0;
    klog_buffer = [];
    klog_index = 0;
    klog_wrapped = 0;
    dmesg_active = 0;
    current_color = 0;
    current_col = 0;
    current_row = 0;
  };
  devices = 0;
  instructions = [];
}
