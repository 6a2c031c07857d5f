-- ===== src/Shell/Programs.antt =====
-- `execute_program` of fs/fat16.c: a file's first sector becomes a task.
use first_kernel.Base.{ℕ, ◌+◌, ◌*◌, ◌^◌, List, [], ◌∷◌, Option, none, some, get_or}
use first_kernel.Base.Partial.{◌>>=◌}
use first_kernel.Base.Text.{codes}
use first_kernel.Heap.{kmalloc}
use first_kernel.Task.{Machine, create_task, poke}
use first_kernel.Fat16.Layout.{entries, cluster_low}
use first_kernel.Fat16.Volume.{read_sector, read_current_directory, cluster_to_sector}
use first_kernel.Fat16.Directory.{pad_name, find_entry}
use first_kernel.Fat16.Files.{say_name}
use first_kernel.Ports.{Ports}
use first_kernel.Shell.System.{System, tell}

-- The bytes of a sector, into the words of memory from an address that is a multiple of 4.
unfoldable pub load : ℕ → List ℕ → (ℕ → ℕ) → ℕ → ℕ
load address (a ∷ b ∷ c ∷ d ∷ bytes) memory =
    load (address + 4) bytes (poke memory address (a + b * 2 ^ 8 + c * 2 ^ 16 + d * 2 ^ 24))
load address _ memory = memory

module _ {ports : Ports} where
  abbrev pub machine_of : System ports → Machine
  machine_of s = record {
    bitmap = s.bitmap;
    memory = s.memory;
    scheduler = s.scheduler;
    console = s.volume.console;
  }

  abbrev pub with_machine : System ports → Machine → System ports
  with_machine s m = record s {
    bitmap = m.bitmap;
    memory = m.memory;
    scheduler = m.scheduler;
    volume = record s.volume { console = m.console };
  }

  -- The program of a cluster; `kmalloc` may return 0, which is not looked at.
  unfoldable pub start_program : ℕ → ℕ → System ports → Option (System ports)
  start_program fuel cluster s = do
    (heap, app_memory) ← kmalloc fuel 512 s.heap
    let sector = read_sector (cluster_to_sector cluster) s.volume
    let loaded = record s { heap = heap; memory = load app_memory sector s.memory }
    m ← create_task app_memory (machine_of loaded)
    some (with_machine loaded m)

  -- The first argument is the fuel of `kmalloc`.
  unfoldable pub execute_program : ℕ → List ℕ → System ports → Option (System ports)
  execute_program fuel filename s = do
    let es = entries (read_current_directory s.volume)
    padded_name ← pad_name filename
    elim (find_entry padded_name 0 es) [
      | none ↦ some (tell (codes "Error: Program not found.\n") s)
      | some i ↦ do
        s' ← start_program fuel (cluster_low (get_or es i [])) s
        some (record s' {
          volume =
              say_name (codes "running '") filename (codes "' in the background...\n") s'.volume;
        })
    ]
