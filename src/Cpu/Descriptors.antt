-- ===== src/Cpu/Descriptors.antt =====
-- cpu/gdt.c: the segment descriptors and the task state segment.
use first_kernel.Base.{ℕ, ◌+◌, ◌-◌, ◌*◌, ◌/◌, ◌%◌, ◌^◌, List, Option, some, bit_and, bit_or, store}
use first_kernel.Base.Partial.{◌>>=◌}

-- `gdt_entry_t`
pub record GdtEntry : Type 0 where
  pub limit_low : ℕ
  pub base_low : ℕ
  pub base_middle : ℕ
  pub access : ℕ
  pub granularity : ℕ
  pub base_high : ℕ

-- `gdt_ptr_t`
pub record GdtPtr : Type 0 where
  pub limit : ℕ
  pub base : ℕ

-- `tss_entry_t`, the fields that are not always zero.
pub record TssEntry : Type 0 where
  pub esp0 : ℕ
  pub ss0 : ℕ
  pub cs : ℕ
  pub ss : ℕ
  pub ds : ℕ
  pub es : ℕ
  pub fs : ℕ
  pub gs : ℕ
  pub iomap_base : ℕ

-- The three globals.
pub record Gdt : Type 0 where
  pub gdt_entries : List GdtEntry
  pub gdt_ptr : GdtPtr
  pub tss_entry : TssEntry

-- The number of bytes of `tss_entry_t`: twenty-five words of four bytes and two of two.
abbrev pub tss_size : ℕ
tss_size = 25 * 4 + 2 * 2

unfoldable pub gdt_gate : ℕ → ℕ → ℕ → ℕ → GdtEntry
gdt_gate base limit access gran = record {
  limit_low = bit_and limit 0xFFFF;
  base_low = bit_and base 0xFFFF;
  base_middle = bit_and (base / 2 ^ 16) 0xFF;
  access = access;
  granularity = bit_or (bit_and (limit / 2 ^ 16) 0x0F) (bit_and gran 0xF0);
  base_high = bit_and (base / 2 ^ 24) 0xFF;
}

unfoldable pub gdt_set_gate : ℕ → ℕ → ℕ → ℕ → ℕ → Gdt → Option Gdt
gdt_set_gate num base limit access gran g = do
  gdt_entries ← store g.gdt_entries num (gdt_gate base limit access gran)
  some (record g { gdt_entries = gdt_entries })

-- `tss` is the address of `tss_entry`.
unfoldable pub write_tss : ℕ → ℕ → ℕ → ℕ → Gdt → Option Gdt
write_tss tss num ss0 esp0 g = do
  g' ← gdt_set_gate num tss ((tss + tss_size) % 2 ^ 32) 0xE9 0x00 g
  some (record g' {
    tss_entry = record {
      esp0 = esp0;
      ss0 = ss0;
      cs = 0x0B;
      ss = 0x13;
      ds = 0x13;
      es = 0x13;
      fs = 0x13;
      gs = 0x13;
      iomap_base = tss_size;
    };
  })

-- `entries` is the address of `gdt_entries`. The two instructions that load the registers follow.
unfoldable pub init_gdt : ℕ → ℕ → Gdt → Option Gdt
init_gdt entries tss g = do
  let g0 = record g { gdt_ptr = record { limit = 8 * 6 - 1; base = entries } }
  g1 ← gdt_set_gate 0 0 0 0 0 g0
  g2 ← gdt_set_gate 1 0 0xFFFFFFFF 0x9A 0xCF g1
  g3 ← gdt_set_gate 2 0 0xFFFFFFFF 0x92 0xCF g2
  g4 ← gdt_set_gate 3 0 0xFFFFFFFF 0xFA 0xCF g3
  g5 ← gdt_set_gate 4 0 0xFFFFFFFF 0xF2 0xCF g4
  write_tss tss 5 0x10 0x0 g5

abbrev pub set_kernel_stack : ℕ → Gdt → Gdt
set_kernel_stack esp g = record g { tss_entry = record g.tss_entry { esp0 = esp } }
