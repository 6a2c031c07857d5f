-- ===== src/Cpu/Interrupts.antt =====
-- cpu/idt.c and cpu/isr.c: the table of interrupt gates, the interrupt controllers and the handlers
-- that report an exception.
use first_kernel.Base.{ℕ, ◌-◌, ◌*◌, ◌/◌, ◌^◌, List, [], ◌∷◌, Option, some, bit_and, store}
use first_kernel.Base.Partial.{◌>>=◌}
use first_kernel.Base.Text.{codes, Console}
use first_kernel.Screen.{Screen, clear_screen}
use first_kernel.Ports.{Ports}

-- `struct idt_entry`
pub record IdtEntry : Type 0 where
  pub base_lo : ℕ
  pub sel : ℕ
  pub always0 : ℕ
  pub flags : ℕ
  pub base_hi : ℕ

-- `idt` and `idt_reg`.
pub record Idt : Type 0 where
  pub idt : List IdtEntry
  pub limit : ℕ
  pub base : ℕ

abbrev pub idt_entries : ℕ
idt_entries = 256

unfoldable pub idt_gate : ℕ → IdtEntry
idt_gate handler = record {
  base_lo = bit_and handler 0xFFFF;
  sel = 0x08;
  always0 = 0;
  flags = 0x8E;
  base_hi = bit_and (handler / 2 ^ 16) 0xFFFF;
}

unfoldable pub set_idt_gate : ℕ → ℕ → Idt → Option Idt
set_idt_gate n handler t = do idt ← store t.idt n (idt_gate handler); some (record t { idt = idt })

-- `table` is the address of `idt`. The instruction that loads the register follows.
abbrev pub set_idt : ℕ → Idt → Idt
set_idt table t = record t { base = table; limit = idt_entries * 8 - 1 }

-- The addresses of the entry points of cpu/interrupt.asm.
pub record EntryPoints : Type 0 where
  pub isr0 : ℕ
  pub isr13 : ℕ
  pub isr14 : ℕ
  pub isr32 : ℕ
  pub isr33 : ℕ
  pub isr43 : ℕ
  pub isr44 : ℕ
  pub isr46 : ℕ
  pub isr128 : ℕ

-- The calls of `set_idt_gate` in `isr_install`.
abbrev pub gates : EntryPoints → List (ℕ × ℕ)
gates e =
    (0, e.isr0)
    ∷ (13, e.isr13)
    ∷ (14, e.isr14)
    ∷ (32, e.isr32)
    ∷ (33, e.isr33)
    ∷ (43, e.isr43)
    ∷ (44, e.isr44)
    ∷ (46, e.isr46)
    ∷ (128, e.isr128)
    ∷ []

unfoldable pub set_gates : List (ℕ × ℕ) → Idt → Option Idt
set_gates [] t = some t
set_gates ((n, handler) ∷ gs) t = do t' ← set_idt_gate n handler t; set_gates gs t'

module _ (ports : Ports) where
  unfoldable pub pic_remap : ports.State → ports.State
  pic_remap s =
      let (a1, s1) = ports.port_bytes_in 0x21 s in
      let (a2, s2) = ports.port_bytes_in 0xA1 s1 in
      let s3 = ports.port_bytes_out 0xA0 0x11 (ports.port_bytes_out 0x20 0x11 s2) in
      let s4 = ports.port_bytes_out 0xA1 0x28 (ports.port_bytes_out 0x21 0x20 s3) in
      let s5 = ports.port_bytes_out 0xA1 0x02 (ports.port_bytes_out 0x21 0x04 s4) in
      let s6 = ports.port_bytes_out 0xA1 0x01 (ports.port_bytes_out 0x21 0x01 s5) in
      ports.port_bytes_out 0xA1 0x00 (ports.port_bytes_out 0x21 0x00 s6)

  unfoldable pub isr_install : ℕ → EntryPoints → Idt → ports.State → Option (Idt × ports.State)
  isr_install table e t s = do t' ← set_gates (gates e) t; some (set_idt table t', pic_remap s)

-- The screen in a new colour, and the messages that are printed on it.
abbrev pub panic : ℕ → Console → Screen → Screen × Console
panic color messages s = (clear_screen (record s { current_color = color }), messages)

unfoldable pub isr0_handler : Screen → Screen × Console
isr0_handler = panic 0x1F (
    codes "\n\n ** KERNEL PANIC - SYSTEM STOPED ** \n\n"
    ∷ codes "   EXCEPTION 0x00: try of divide of 0.\n"
    ∷ codes "   the kernel has block the cpu to evade corruption of data.\n"
    ∷ codes "   please, restar the virtual machine.\n"
    ∷ [])

unfoldable pub isr13_handler : Screen → Screen × Console
isr13_handler = panic 0x4F (
    codes "\n\n ** KERNEL PANIC - SYSTEM STOPED ** \n\n"
    ∷ codes "   EXCEPTION 0x0D: general protection fault.\n"
    ∷ codes "   the user program(ring 3) try to run as root or touch forbidden memory.\n"
    ∷ codes "   the kernel has block the attack.\n"
    ∷ codes "   please, restar the virtual machine.\n"
    ∷ [])

unfoldable pub isr14_handler : Screen → Screen × Console
isr14_handler = panic 0x4F (
    codes "\n\n ** KERNEL PANIC - SYSTEM STOPED ** \n\n"
    ∷ codes "   EXCEPTION 0x0E: Page fault, (paging fault).\n"
    ∷ codes "   The MMU try to read the memory with bad aligment or protected.\n"
    ∷ codes "   The machine has been blocked per security.\n"
    ∷ [])

unfoldable pub isr128_handler : Screen → Screen × Console
isr128_handler s = (s, codes "\n[KERNEL] Syscall 0x80 recived! the program says hi.\n" ∷ [])
