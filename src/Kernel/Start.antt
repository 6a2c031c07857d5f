-- ===== src/Kernel/Start.antt =====
-- The whole of `main` of kernel/kernel.c up to its idle loop: the screen, the processor's tables, the
-- three parts of Kernel, the timer and the mouse.
use first_kernel.Base.{
  ◌%◌, ◌/◌, List, ℕ, suc, ◌^◌, ◌<◌, ◌≡◌, refl, [], ◌∷◌, ◌++◌, Option, some, length,
}
use first_kernel.Base.Partial.{◌>>=◌}
use first_kernel.Base.Text.{codes, Console, print}
use first_kernel.Ports.{Ports}
use first_kernel.Screen.{Screen, init_vga, clear_screen}
use first_kernel.Heap.{Heap}
use first_kernel.Task.{Scheduler, max_task}
use first_kernel.Drivers.Timer.{Timer, init_timer}
use first_kernel.Mouse.Setup.{init_mouse}
use first_kernel.Cpu.Descriptors.{Gdt, init_gdt, set_kernel_stack}
use first_kernel.Cpu.Interrupts.{Idt, EntryPoints, isr_install, pic_remap}
use first_kernel.Base.{All}
use first_kernel.Cpu.Interrupts.{gates}
use first_kernel.Cpu.Segments.{Segments, init_gdt_lem}
use first_kernel.Cpu.Gates.{Leads, isr_install_lem}
use first_kernel.Kernel.{Kernel, main}
use first_kernel.Kernel.Boot.{Booted, main-Booted}

-- What the linker and the boot loader fix: the addresses of three tables and of the entry points.
pub record Layout : Type 0 where
  pub gdt_entries : ℕ
  pub tss_entry : ℕ
  pub idt : ℕ
  pub entry_points : EntryPoints

pub record Machine (ports : Ports) : Type 0 where
  pub memory : ℕ → ℕ
  pub screen : Screen
  pub gdt : Gdt
  pub idt : Idt
  pub heap : Heap
  pub tasks : Scheduler
  pub timer : Timer
  pub devices : ports.State
  pub console : Console

-- The machine that runs: what changed of it, and the three parts of Kernel.
pub record Running (ports : Ports) : Type 0 where
  pub screen : Screen
  pub gdt : Gdt
  pub idt : Idt
  pub kernel : Kernel
  pub timer : Timer
  pub devices : ports.State
  pub console : Console

-- Bytes written to ports, one after another.
unfoldable pub outs : (ports : Ports) → List (ℕ × ℕ) → ports.State → ports.State
outs ports [] s = s
outs ports ((port, value) ∷ writes) s = outs ports writes (ports.port_bytes_out port value s)

-- The interval timer's channel 0, low byte and high byte, mode 3, from 11931, which is 1193180 / 100.
abbrev pub hundred_hertz : List (ℕ × ℕ)
hundred_hertz = (0x43, 0x36) ∷ (0x40, 11931 % 2 ^ 8) ∷ (0x40, 11931 / 2 ^ 8) ∷ []

timer_lem :
    (ports : Ports) (t : Timer) (s : ports.State)
    → init_timer ports 100 t s
      ≡ some (record t { current_frecuency = 100 }, outs ports hundred_hertz s)
unfolding init_timer outs
timer_lem ports t s = refl

module _ {ports : Ports} where
  -- The first argument is the fuel of `kmalloc`. `set_kernel_stack` only writes a field of the task
  -- state segment, so it may stand behind the rest of Kernel's `main`.
  unfoldable pub start : ℕ → Layout → Machine ports → Option (Running ports)
  start fuel layout m = do
    gdt ← init_gdt layout.gdt_entries layout.tss_entry m.gdt
    (idt, s1) ← isr_install ports layout.idt layout.entry_points m.idt m.devices
    kernel ← main fuel m.heap m.tasks
    (timer, s2) ← init_timer ports 100 m.timer s1
    some (record {
      screen = clear_screen (init_vga m.memory m.screen);
      gdt = set_kernel_stack kernel.kernel_stack gdt;
      idt = idt;
      kernel = kernel;
      timer = timer;
      devices = init_mouse ports s2;
      console = print (codes "OS> ") m.console;
    })

  -- The machine after `start`: the three parts of Kernel as they are after `main`, the flat segments,
  -- the kernel's stack in the task state segment, each vector's gate to its entry point, and the prompt;
  -- the devices have seen the interrupt controller's setting up, then the timer's with the divisor of
  -- 100 Hz, then the mouse's.
  pub record Ready (layout : Layout) (m : Machine ports) (result : Option (Running ports))
      : Type 0 where
    pub running : Running ports
    pub returns : result ≡ some running
    pub booted : Booted (some running.kernel)
    pub segments : Segments layout.tss_entry running.gdt.gdt_entries
    pub stack : running.gdt.tss_entry.esp0 ≡ 4096
    pub leads : All (Leads running.idt.idt) (gates layout.entry_points)
    pub frequency : running.timer ≡ record m.timer { current_frecuency = 100 }
    pub devices :
        running.devices ≡ init_mouse ports (outs ports hundred_hertz (pic_remap ports m.devices))
    pub prompt : running.console ≡ m.console ++ codes "OS> " ∷ []

  -- Whatever the heap's memory and the tables hold, if the tables have their sizes and the addresses
  -- are of 32 bits, `main` reaches its idle loop without a fault, in that state.
  pub start-Ready :
      (fuel : ℕ) (layout : Layout) (m : Machine ports)
      → length m.gdt.gdt_entries ≡ 6
      → length m.idt.idt ≡ 256
      → length m.tasks.tasks ≡ max_task
      → layout.tss_entry < 2 ^ 32
      → All (λ (g : ℕ × ℕ). g.1 < 2 ^ 32) (gates layout.entry_points)
      → Ready layout m (start (suc (suc fuel)) layout m)
  unfolding start
  start-Ready fuel layout m six all three small entries =
      let (gdt, r1, segments) = init_gdt_lem layout.gdt_entries layout.tss_entry m.gdt six small in
      let (idt, r2, leads) =
        isr_install_lem ports layout.idt layout.entry_points m.idt m.devices all entries in
      let booted = main-Booted fuel m.heap m.tasks three in
      let r4 = timer_lem ports m.timer (pic_remap ports m.devices) in
      record {
        running = record {
          screen = clear_screen (init_vga m.memory m.screen);
          gdt = set_kernel_stack booted.kernel.kernel_stack gdt;
          idt = idt;
          kernel = booted.kernel;
          timer = record m.timer { current_frecuency = 100 };
          devices = init_mouse ports (outs ports hundred_hertz (pic_remap ports m.devices));
          console = print (codes "OS> ") m.console;
        };
        returns = rw (r1, r2, booted.returns, r4) refl;
        booted = record {
          kernel = booted.kernel;
          returns = refl;
          frames = booted.frames;
          heap = booted.heap;
          tasks = booted.tasks;
          one_task = booted.one_task;
          stack = booted.stack;
        };
        segments = segments;
        stack = booted.stack;
        leads = leads;
        frequency = refl;
        devices = refl;
        prompt = refl;
      }
