-- ===== src/Kernel/Tests.antt =====
-- The start of the kernel from memory that holds zeros.
use first_kernel.Base.{refl, [], ◌∷◌, none}
use first_kernel.Base.{ℕ, arith, replicate}
use first_kernel.Ports.{Ports}
use first_kernel.Cpu.Descriptors.{GdtEntry}
use first_kernel.Cpu.Interrupts.{IdtEntry}
use first_kernel.Kernel.Start.{Layout, Machine, start, Ready, start-Ready}
use first_kernel.Heap.{Heap}
use first_kernel.Task.{Scheduler, Pcb}

abbrev zero_task : Pcb
zero_task = record { esp = 0; id = 0; active = 0 }

abbrev zero_tasks : Scheduler
zero_tasks = record {
  tasks = zero_task ∷ zero_task ∷ zero_task ∷ [];
  current_task = 0;
  task_count = 0;
}

abbrev zero_heap : Heap
zero_heap = record { block_at = λ p. none; free_list = 0 }

abbrev no_entry : GdtEntry
no_entry = record {
  limit_low = 0;
  base_low = 0;
  base_middle = 0;
  access = 0;
  granularity = 0;
  base_high = 0;
}

abbrev no_gate : IdtEntry
no_gate = record { base_lo = 0; sel = 0; always0 = 0; flags = 0; base_hi = 0 }

-- A machine whose devices are silent.
abbrev silent_ports : Ports
silent_ports = record {
  State = ℕ;
  port_bytes_in = λ p s. (0, s);
  port_bytes_out = λ p v s. s;
  port_word_in = λ p s. (0, s);
  port_word_out = λ p w s. s;
  port_dword_in = λ p s. (0, s);
  port_dword_out = λ p w s. s;
  volatile_read = λ a s. (0, s);
  volatile_write = λ a w s. s;
}

abbrev layout : Layout
layout = record {
  gdt_entries = 0x9000;
  tss_entry = 0x9100;
  idt = 0x9200;
  entry_points = record {
    isr0 = 0x8000;
    isr13 = 0x8010;
    isr14 = 0x8020;
    isr32 = 0x8030;
    isr33 = 0x8040;
    isr43 = 0x8050;
    isr44 = 0x8060;
    isr46 = 0x8070;
    isr128 = 0x8080;
  };
}

abbrev machine : Machine silent_ports
machine = record {
  memory = λ a. 0;
  screen = record {
    vga_mem = 0;
    frame = λ a. 0;
    klog_buffer = [];
    klog_index = 0;
    klog_wrapped = 0;
    dmesg_active = 0;
    current_color = 0;
    current_col = 0;
    current_row = 0;
  };
  gdt = record {
    gdt_entries = replicate 6 no_entry;
    gdt_ptr = record { limit = 0; base = 0 };
    tss_entry = record {
      esp0 = 0;
      ss0 = 0;
      cs = 0;
      ss = 0;
      ds = 0;
      es = 0;
      fs = 0;
      gs = 0;
      iomap_base = 0;
    };
  };
  idt = record { idt = replicate 256 no_gate; limit = 0; base = 0 };
  heap = zero_heap;
  tasks = zero_tasks;
  timer = record { timer_ticks = 0; current_frecuency = 18 };
  devices = 0;
  console = [];
}

start-Ready_example : Ready layout machine (start 2 layout machine)
start-Ready_example = start-Ready 0 layout machine refl refl refl (omega arith) (
  omega arith,
  (
    omega arith,
    (
      omega arith,
      (omega arith, (omega arith, (omega arith, (omega arith, (omega arith, (omega arith, tt)))))),
    ),
  ),
)
