-- ===== src/Cpu/Segments.antt =====
-- The descriptors of cpu/gdt.c and the gates of cpu/idt.c as the processor reads them.
use first_kernel.Base.{
  sym, subst, bit_or_low, bit_and_high, ℕ, ◌+◌, ◌*◌, ◌/◌, ◌%◌, ◌^◌, ◌<◌, ◌≡◌, refl, ap₂, ◌∙◌, List,
  [], ◌∷◌, some, bit_and, bit_or, length, get_or, arith, bit_and_mask, if◌then◌else◌, leb,
}
use first_kernel.Cpu.Descriptors.{
  GdtEntry, Gdt, GdtPtr, TssEntry, gdt_gate, gdt_set_gate, write_tss, init_gdt, tss_size,
}
use first_kernel.Cpu.Interrupts.{IdtEntry, idt_gate}

-- The base and the limit that the processor puts together from a descriptor, and its flags.
abbrev pub segment_base : GdtEntry → ℕ
segment_base e = e.base_high * 2 ^ 24 + e.base_middle * 2 ^ 16 + e.base_low

abbrev pub segment_limit : GdtEntry → ℕ
segment_limit e = e.granularity % 2 ^ 4 * 2 ^ 16 + e.limit_low

abbrev pub segment_flags : GdtEntry → ℕ
segment_flags e = e.granularity / 2 ^ 4

-- The number of bytes from the base on: the limit counts pages if the flag G is set.
abbrev pub segment_bytes : GdtEntry → ℕ
segment_bytes e =
    if leb 8 (segment_flags e) then (segment_limit e + 1) * 4096 else segment_limit e + 1

granularity_lem :
    (limit gran : ℕ)
    → gran < 2 ^ 8
    → bit_or (bit_and (limit / 2 ^ 16) 0x0F) (bit_and gran 0xF0)
      ≡ gran / 2 ^ 4 * 2 ^ 4 + limit / 2 ^ 16 % 2 ^ 4
granularity_lem limit gran h =
    ap₂ bit_or (bit_and_mask 4 (limit / 2 ^ 16)) (bit_and_high gran h)
    ∙ bit_or_low 4 (gran / 2 ^ 4) (limit / 2 ^ 16 % 2 ^ 4) (omega arith)

-- A descriptor says what it was built from: any base of 32 bits, the lower 20 bits of the limit, the
-- access byte and the upper four bits of the flags.
pub gdt_gate_lem :
    (base limit access gran : ℕ)
    → base < 2 ^ 32
    → gran < 2 ^ 8
    → let e = gdt_gate base limit access gran in
      (segment_base e ≡ base)
      × (segment_limit e ≡ limit % 2 ^ 20)
      × (e.access ≡ access)
      × (segment_flags e ≡ gran / 2 ^ 4)
unfolding gdt_gate
gdt_gate_lem base limit access gran hb hg = (
  omega
      (arith, bit_and_mask 16 base, bit_and_mask 8 (base / 2 ^ 16), bit_and_mask 8 (base / 2 ^ 24)),
  omega (arith, granularity_lem limit gran hg, bit_and_mask 16 limit),
  refl,
  omega (arith, granularity_lem limit gran hg),
)

-- The entry point that the processor puts together from a gate.
abbrev pub gate_target : IdtEntry → ℕ
gate_target e = e.base_hi * 2 ^ 16 + e.base_lo

-- A gate leads to any handler of 32 bits.
pub idt_gate_lem : (handler : ℕ) → handler < 2 ^ 32 → gate_target (idt_gate handler) ≡ handler
unfolding idt_gate
idt_gate_lem handler h = omega (arith, bit_and_mask 16 handler, bit_and_mask 16 (handler / 2 ^ 16))

-- The six descriptors, from a table of six entries whatever they hold.
six_entries :
    (entries tss : ℕ) (es : List GdtEntry) (p : GdtPtr) (t : TssEntry)
    → length es ≡ 6
    → (g : Gdt) × (init_gdt entries tss (record { gdt_entries = es; gdt_ptr = p; tss_entry = t })
        ≡ some g)
      × (g.gdt_entries
          ≡ gdt_gate 0 0 0 0
            ∷ gdt_gate 0 0xFFFFFFFF 0x9A 0xCF
            ∷ gdt_gate 0 0xFFFFFFFF 0x92 0xCF
            ∷ gdt_gate 0 0xFFFFFFFF 0xFA 0xCF
            ∷ gdt_gate 0 0xFFFFFFFF 0xF2 0xCF
            ∷ gdt_gate tss ((tss + tss_size) % 2 ^ 32) 0xE9 0x00
            ∷ [])
      × (g.gdt_ptr ≡ record { limit = 47; base = entries })
      × (g.tss_entry.ss0 ≡ 0x10)
unfolding init_gdt gdt_set_gate write_tss
six_entries entries tss (a ∷ b ∷ c ∷ d ∷ e ∷ f ∷ []) p t h = (_, refl, refl, refl, refl)
six_entries entries tss [] p t h = absurd (omega arith)
six_entries entries tss (a ∷ []) p t h = absurd (omega arith)
six_entries entries tss (a ∷ b ∷ []) p t h = absurd (omega arith)
six_entries entries tss (a ∷ b ∷ c ∷ []) p t h = absurd (omega arith)
six_entries entries tss (a ∷ b ∷ c ∷ d ∷ []) p t h = absurd (omega arith)
six_entries entries tss (a ∷ b ∷ c ∷ d ∷ e ∷ []) p t h = absurd (omega arith)
six_entries entries tss (a ∷ b ∷ c ∷ d ∷ e ∷ f ∷ g ∷ es) p t h = absurd (omega arith)

-- A segment of all of the 4 GiB.
abbrev pub IsFlat : ℕ → GdtEntry → Type 0
IsFlat access e = (segment_base e ≡ 0) × (segment_bytes e ≡ 2 ^ 32) × (e.access ≡ access)

flat : (access : ℕ) → IsFlat access (gdt_gate 0 0xFFFFFFFF access 0xCF)
unfolding gdt_gate
flat access = (refl, refl, refl)

abbrev no_entry : GdtEntry
no_entry = record {
  limit_low = 0;
  base_low = 0;
  base_middle = 0;
  access = 0;
  granularity = 0;
  base_high = 0;
}

-- Code and data of ring 0 and of ring 3 over all of the 4 GiB; the descriptor of the task state segment
-- has its base, and as its limit the lower 20 bits of the address behind it.
pub record Segments (tss : ℕ) (es : List GdtEntry) : Type 0 where
  pub kernel_code : IsFlat 0x9A (get_or es 1 no_entry)
  pub kernel_data : IsFlat 0x92 (get_or es 2 no_entry)
  pub user_code : IsFlat 0xFA (get_or es 3 no_entry)
  pub user_data : IsFlat 0xF2 (get_or es 4 no_entry)
  pub task_base : segment_base (get_or es 5 no_entry) ≡ tss
  pub task_limit : segment_limit (get_or es 5 no_entry) ≡ (tss + 104) % 2 ^ 20

-- From a table of six entries, whatever they hold, `init_gdt` faults nowhere and leaves the four flat
-- segments and the task state segment, whose limit is its address and size and not its size.
pub init_gdt_lem :
    (entries tss : ℕ) (g : Gdt)
    → length g.gdt_entries ≡ 6
    → tss < 2 ^ 32
    → (g' : Gdt) × (init_gdt entries tss g ≡ some g') × Segments tss g'.gdt_entries
init_gdt_lem entries tss g six h =
    let (g', r, es, p, s) = six_entries entries tss g.gdt_entries g.gdt_ptr g.tss_entry six in
    let (base, limit, access, flags) =
      gdt_gate_lem tss ((tss + tss_size) % 2 ^ 32) 0xE9 0x00 h (omega arith) in
    (
      g',
      r,
      subst (Segments tss) (sym es) (record {
        kernel_code = flat 0x9A;
        kernel_data = flat 0x92;
        user_code = flat 0xFA;
        user_data = flat 0xF2;
        task_base = base;
        task_limit = omega (arith, limit);
      }),
    )
