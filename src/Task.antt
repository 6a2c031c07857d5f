-- ===== src/Task.antt =====
-- cpu/task.c, preemptive tasks: the table of at most three tasks, the creation of one and the
-- switch that the timer interrupt makes. An index outside the table is a fault, `none`.
pub mod Table
pub mod RoundRobin
mod Tests
use first_kernel.Base.{
  ℕ, zero, suc, ◌+◌, ◌-◌, ◌%◌, ◌^◌, List, [], ◌∷◌, Option, none, some, ◌==◌, leb, if◌then◌else◌,
  Bool, true, false, get_elem?, store, replicate,
}
use first_kernel.Base.Partial.{◌>>=◌}
use first_kernel.Base.Text.{codes, Console, print}
use first_kernel.Pmm.{Bitmap, pmm_alloc_frame}

abbrev pub max_task : ℕ
max_task = 3

-- `pcb_t`
pub record Pcb : Type 0 where
  pub esp : ℕ
  pub id : ℕ
  pub active : ℕ

-- The three globals of cpu/task.c.
pub record Scheduler : Type 0 where
  pub tasks : List Pcb
  pub current_task : ℕ
  pub task_count : ℕ

unfoldable pub deactivate : List Pcb → List Pcb
deactivate [] = []
deactivate (t ∷ ts) = record t { active = 0 } ∷ deactivate ts

unfoldable pub init_multitasking : Scheduler → Option Scheduler
init_multitasking s = do
  let tasks = deactivate s.tasks
  t ← get_elem? tasks 0
  tasks' ← store tasks 0 (record t { id = 0; active = 1 })
  some (record { tasks = tasks'; current_task = 0; task_count = 1 })

-- `current_task++`, back to 0 at the end of the table.
unfoldable pub advance : ℕ → ℕ
advance current = if leb max_task (current + 1) then 0 else current + 1

-- The `do … while` of `schedule`. Fuel that runs out is `none` too; `max_task` rounds are enough.
unfoldable pub next_active : ℕ → List Pcb → ℕ → Option ℕ
next_active zero tasks current = none
next_active (suc fuel) tasks current = do
  t ← get_elem? tasks (advance current)
  elim (t.active == 0) [
    | true ↦ next_active fuel tasks (advance current)
    | false ↦ some (advance current)
  ]

-- The new state, and the stack pointer to resume with.
unfoldable pub schedule : ℕ → Scheduler → Option (Scheduler × ℕ)
schedule current_esp s = if leb s.task_count 1 then some (s, current_esp) else do
  t ← get_elem? s.tasks s.current_task
  tasks ← store s.tasks s.current_task (record t { esp = current_esp })
  next ← next_active max_task tasks s.current_task
  t' ← get_elem? tasks next
  some (record { tasks = tasks; current_task = next; task_count = s.task_count }, t'.esp)

-- What `create_task` touches: the frame allocator, the words of memory, the table and the screen.
pub record Machine : Type 0 where
  pub bitmap : Bitmap
  pub memory : ℕ → ℕ
  pub scheduler : Scheduler
  pub console : Console

-- What isr32 of cpu/interrupt.asm loads when it resumes a task.
pub record Resumed : Type 0 where
  pub ds : ℕ
  pub eax : ℕ
  pub eip : ℕ
  pub cs : ℕ
  pub eflags : ℕ

-- The end of isr32 on the stack pointer that `schedule` returns: `pop eax` and `mov ds, ax`, the eight
-- registers of `popa`, of which EAX is the last, and the three words of `iretd`.
unfoldable pub resume : ℕ → (ℕ → ℕ) → Resumed
resume esp memory = record {
  ds = memory esp % 2 ^ 16;
  eax = memory (esp + 32);
  eip = memory (esp + 36);
  cs = memory (esp + 40) % 2 ^ 16;
  eflags = memory (esp + 44);
}

abbrev pub poke : (ℕ → ℕ) → ℕ → ℕ → ℕ → ℕ
poke memory a w p = if a == p then w else memory p

-- `*(--stack) = w` for each word in turn; the stack pointer is an `unsigned int *`.
unfoldable pub push_words : List ℕ → ℕ → (ℕ → ℕ) → ℕ × (ℕ → ℕ)
push_words [] stack memory = (stack, memory)
push_words (w ∷ ws) stack memory =
    let stack' = (stack + 2 ^ 32 - 4) % 2 ^ 32 in push_words ws stack' (poke memory stack' w)

-- EFLAGS, the code selector and the entry point, and eight zeros. isr32 pops nine words in front of
-- `iretd`, one more than the zeros.
abbrev pub initial_frame : ℕ → List ℕ
initial_frame task_code = 0x202 ∷ 0x08 ∷ task_code ∷ replicate 8 0

unfoldable pub create_task : ℕ → Machine → Option Machine
create_task task_code m =
    let s = m.scheduler in
    if leb max_task s.task_count
    then some (record m { console = print (codes "Error: Max of tasks reached.\n") m.console })
    else do
      (bitmap, frame) ← pmm_alloc_frame m.bitmap
      let (stack, memory) = push_words (initial_frame task_code) (frame + 4096) m.memory
      let id = s.task_count
      tasks ← store s.tasks id (record { esp = stack; id = id; active = 1 })
      some (record m {
        bitmap = bitmap;
        memory = memory;
        scheduler = record {
          tasks = tasks;
          current_task = s.current_task;
          task_count = s.task_count + 1;
        };
      })
