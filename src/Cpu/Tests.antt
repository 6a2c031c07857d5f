-- ===== src/Cpu/Tests.antt =====
-- The tables of the processor, built from empty ones.
use first_kernel.Base.{
  ℕ, ◌*◌, ◌^◌, ◌<◌, ◌≡◌, refl, arith, none, some, replicate, ltb, if◌then◌else◌,
}
use first_kernel.Cpu.Descriptors.{GdtEntry, Gdt, init_gdt}
use first_kernel.Cpu.Segments.{Segments, init_gdt_lem}
use first_kernel.Cpu.Paging.{Paging, init_paging}
use first_kernel.Cpu.Translation.{translate, init_paging-translate}

abbrev empty_entry : GdtEntry
empty_entry = record {
  limit_low = 0;
  base_low = 0;
  base_middle = 0;
  access = 0;
  granularity = 0;
  base_high = 0;
}

abbrev empty_table : Gdt
empty_table = record {
  gdt_entries = replicate 6 empty_entry;
  gdt_ptr = record { limit = 0; base = 0 };
  tss_entry = record {
    esp0 = 0;
    ss0 = 0;
    cs = 0;
    ss = 0;
    ds = 0;
    es = 0;
    fs = 0;
    gs = 0;
    iomap_base = 0;
  };
}

init_gdt_lem_example :
    (g' : Gdt) × (init_gdt 0x9000 0x9100 empty_table ≡ some g') × Segments 0x9100 g'.gdt_entries
init_gdt_lem_example = init_gdt_lem 0x9000 0x9100 empty_table refl (omega arith)

abbrev empty_pages : Paging
empty_pages = record { page_directory = replicate 1024 0; first_page_table = replicate 1024 0 }

init_paging-translate_example :
    (p' : Paging) × (init_paging (5 * 4096) empty_pages ≡ some p')
    × ((x : ℕ) → x < 2 ^ 32 → translate (5 * 4096) p' x ≡ (if ltb x (2 ^ 22) then some x else none))
init_paging-translate_example = init_paging-translate 5 empty_pages refl refl
