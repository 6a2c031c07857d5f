-- ===== src/Task/Table.antt =====
-- The task table of cpu/task.c: what is true of it after `init_multitasking`, and what
-- `create_task` adds.
use first_kernel.Base.{
  inr, ℕ, zero, suc, ◌+◌, ◌-◌, ◌*◌, ◌%◌, ◌^◌, ◌≤◌, ◌<◌, ◌≡◌, refl, ap, sym, ◌∙◌, ◌≢◌, List, [], ◌∷◌,
  some, ltb, if◌then◌else◌, get_or, set, length, arith, length-set, get_or-set_self, get_or-set_ne,
  get_elem?-eq-get_or, ◌⊎◌,
}
use first_kernel.Base.Text.{codes, print}
use first_kernel.Pmm.{Bitmap, pmm_alloc_frame}
use first_kernel.Pmm.Bitmap.{IsBitmap}
use first_kernel.Pmm.Frames.{pmm_alloc_frame_total}
use first_kernel.Task.{
  max_task, Pcb, Scheduler, Machine, deactivate, init_multitasking, push_words, initial_frame,
  create_task, poke, resume,
}

abbrev pub blank : Pcb
blank = record { esp = 0; id = 0; active = 0 }

-- Entry `i` of the table.
abbrev pub task_at : Scheduler → ℕ → Pcb
task_at s i = get_or s.tasks i blank

-- Tasks are never taken out: the first `task_count` entries of the table are the active ones, and
-- the current task is one of them.
pub record IsValid (s : Scheduler) : Type 0 where
  pub three : length s.tasks ≡ max_task
  pub active : (i : ℕ) → (task_at s i).active ≡ (if ltb i s.task_count then 1 else 0)
  pub running : s.current_task < s.task_count
  pub fits : s.task_count ≤ max_task

get_or-deactivate : (ts : List Pcb) (i : ℕ) → (get_or (deactivate ts) i blank).active ≡ 0
unfolding deactivate
get_or-deactivate [] i = refl
get_or-deactivate (t ∷ ts) zero = refl
get_or-deactivate (t ∷ ts) (suc i) = get_or-deactivate ts i

length-deactivate : (ts : List Pcb) → length (deactivate ts) ≡ length ts
unfolding deactivate
length-deactivate [] = refl
length-deactivate (t ∷ ts) = ap suc (length-deactivate ts)

-- From a table of three entries, whatever they hold, `init_multitasking` faults nowhere and leaves
-- task 0 as the only active task and the current one.
pub init_multitasking-IsValid :
    (s : Scheduler)
    → length s.tasks ≡ max_task
    → (s' : Scheduler) × (init_multitasking s ≡ some s') × IsValid s' × (s'.task_count ≡ 1)
unfolding init_multitasking
init_multitasking-IsValid s three =
    let first = record (get_or (deactivate s.tasks) 0 blank) { id = 0; active = 1 } in
    (
      record { tasks = set (deactivate s.tasks) 0 first; current_task = 0; task_count = 1 },
      ground (arith, get_elem?-eq-get_or (deactivate s.tasks) 0 blank, length-deactivate s.tasks),
      record {
        three = length-set (deactivate s.tasks) 0 first ∙ length-deactivate s.tasks ∙ three;
        active = λ i. ground (
          arith,
          get_or-set_self (deactivate s.tasks) 0 first blank,
          get_or-set_ne (deactivate s.tasks) 0 i first blank,
          get_or-deactivate s.tasks i,
          length-deactivate s.tasks,
        );
        running = omega arith;
        fits = omega arith;
      },
      refl,
    )

-- The words `ws` lie below `top`, the first one highest, and `result` is the stack pointer and the
-- memory after them; the rest of the memory is as before.
pub record Pushed (ws : List ℕ) (top : ℕ) (memory : ℕ → ℕ) (result : ℕ × (ℕ → ℕ)) : Type 0 where
  pub esp : result.0 ≡ top - 4 * length ws
  pub words : (i : ℕ) → i < length ws → result.1 (top - 4 * i - 4) ≡ get_or ws i 0
  pub others : (a : ℕ) → (a < top - 4 * length ws) ⊎ (top ≤ a) → result.1 a ≡ memory a

push_words-cons :
    (w : ℕ) (ws : List ℕ) (top : ℕ) (memory : ℕ → ℕ) {result : ℕ × (ℕ → ℕ)}
    → 4 * length (w ∷ ws) ≤ top
    → Pushed ws (top - 4) (poke memory (top - 4) w) result
    → Pushed (w ∷ ws) top memory result
push_words-cons w ws top memory {result} h p = record {
  esp = omega (arith, p.esp);
  words = words;
  others = λ a q. ground (arith, p.others a);
}
  where
    shift : (i : ℕ) → top - 4 * suc i - 4 ≡ top - 4 - 4 * i - 4
    shift i = omega arith

    words : (i : ℕ) → i < length (w ∷ ws) → result.1 (top - 4 * i - 4) ≡ get_or (w ∷ ws) i 0
    words zero q = ground (arith, p.others (top - 4))
    words (suc i) q = rw (shift i) (p.words i (omega arith))

pub push_words-Pushed :
    (ws : List ℕ) (top : ℕ) (memory : ℕ → ℕ)
    → 4 * length ws ≤ top
    → top < 2 ^ 32
    → Pushed ws top memory (push_words ws top memory)
push_words-Pushed [] top memory h small = record {
  esp = unfold push_words in omega arith;
  words = λ i q. absurd (omega arith);
  others = λ a q. unfold push_words in refl;
}
push_words-Pushed (w ∷ ws) top memory h small = rw pushes (
    push_words-cons w ws top memory h
      (push_words-Pushed ws (top - 4) (poke memory (top - 4) w) (omega arith) (omega arith)))
  where
    below : (top + 2 ^ 32 - 4) % 2 ^ 32 ≡ top - 4
    below = omega arith

    pushes : push_words (w ∷ ws) top memory ≡ push_words ws (top - 4) (poke memory (top - 4) w)
    pushes = unfold push_words in rw below

-- What `create_task` leaves: a new last task, ready to start at `task_code` on a frame of its own.
pub record Created (task_code : ℕ) (m m' : Machine) : Type 0 where
  pub frame : ℕ
  pub granted : pmm_alloc_frame m.bitmap ≡ some (m'.bitmap, frame)
  pub valid : IsValid m'.scheduler
  pub count : m'.scheduler.task_count ≡ m.scheduler.task_count + 1
  pub current : m'.scheduler.current_task ≡ m.scheduler.current_task
  pub entry :
      task_at m'.scheduler m.scheduler.task_count
      ≡ record { esp = frame + 4096 - 44; id = m.scheduler.task_count; active = 1 }
  pub others : (i : ℕ) → i ≢ m.scheduler.task_count → task_at m'.scheduler i ≡ task_at m.scheduler i
  pub stack :
      Pushed (initial_frame task_code) (frame + 4096) m.memory (frame + 4096 - 44, m'.memory)
  pub resumed :
      resume (frame + 4096 - 44) m'.memory
      ≡ record { ds = 0; eax = task_code; eip = 0x08; cs = 0x202; eflags = m.memory (frame + 4096) }
  pub quiet : m'.console ≡ m.console

-- The words of a new stack are one too few for isr32: each is popped into the register before its own,
-- and EFLAGS comes from behind the frame.
resume-Pushed :
    (task_code top : ℕ) (memory memory' : ℕ → ℕ)
    → 4096 ≤ top
    → Pushed (initial_frame task_code) top memory (top - 44, memory')
    → resume (top - 44) memory'
      ≡ record { ds = 0; eax = task_code; eip = 0x08; cs = 0x202; eflags = memory top }
unfolding resume
resume-Pushed task_code top memory memory' h p =
    let word : (i k : ℕ)
        → i < 11
        → k + 4 * i ≡ 40
        → memory' (top - 44 + k) ≡ get_or (initial_frame task_code) i 0 =
      λ i k l e. ap memory' (omega (arith, e)) ∙ p.words i l in
    let first : memory' (top - 44) ≡ 0 = ap memory' (omega arith) ∙ p.words 10 (omega arith) in
    let behind : memory' (top - 44 + 44) ≡ memory top =
      ap memory' (omega arith) ∙ p.others top (inr (omega arith)) in
    rw
      (
        first,
        word 2 32 (omega arith) (omega arith),
        word 1 36 (omega arith) (omega arith),
        word 0 40 (omega arith) (omega arith),
        behind,
      )
      refl

-- The scheduler part of `create_task`.
abbrev add_task : Scheduler → Pcb → Scheduler
add_task s t = record {
  tasks = set s.tasks s.task_count t;
  current_task = s.current_task;
  task_count = s.task_count + 1;
}

add_task-IsValid :
    (t : Pcb) {s : Scheduler}
    → IsValid s
    → s.task_count < max_task
    → t.active ≡ 1
    → IsValid (add_task s t)
add_task-IsValid t {s} v h a = record {
  three = length-set s.tasks s.task_count t ∙ v.three;
  active = λ i. ground (
    arith,
    v.active i,
    v.three,
    get_or-set_self s.tasks s.task_count t blank,
    get_or-set_ne s.tasks s.task_count i t blank,
  );
  running = omega (arith, v.running);
  fits = omega arith;
}

-- With room in a valid table and a bitmap of 128 words, `create_task` faults nowhere and adds a
-- task whose stack lies at the top of the frame that the allocator returns (at 4096 if that is 0), with
-- the eleven words pushed there; the other tasks and the rest of the memory are as before. What isr32
-- makes of that stack is not a start at `task_code`: it pops nine words before `iretd`, so that EAX is
-- `task_code`, EIP 8, CS 0x202, and EFLAGS the word behind the frame.
pub create_task-Created :
    (task_code : ℕ) (m : Machine)
    → IsBitmap m.bitmap
    → IsValid m.scheduler
    → m.scheduler.task_count < max_task
    → (m' : Machine) × (create_task task_code m ≡ some m') × Created task_code m m'
create_task-Created task_code m shape v room = create (pmm_alloc_frame_total m.bitmap shape)
  where
    create :
        ((bitmap' : Bitmap) × (addr : ℕ) × (pmm_alloc_frame m.bitmap ≡ some (bitmap', addr))
          × IsBitmap bitmap'
          × (addr ≤ 4095 * 4096))
        → (m' : Machine) × (create_task task_code m ≡ some m') × Created task_code m m'
    create (bitmap', frame, granted, shape', high) =
        let pushed : Pushed (initial_frame task_code) (frame + 4096) m.memory
            (push_words (initial_frame task_code) (frame + 4096) m.memory) =
          push_words-Pushed (initial_frame task_code) (frame + 4096) m.memory (omega arith)
            (omega arith) in
        let t : Pcb = record {
          esp = (push_words (initial_frame task_code) (frame + 4096) m.memory).0;
          id = m.scheduler.task_count;
          active = 1;
        } in
        (
          record m {
            bitmap = bitmap';
            memory = (push_words (initial_frame task_code) (frame + 4096) m.memory).1;
            scheduler = add_task m.scheduler t;
          },
          unfold create_task in ground (arith, granted, v.three),
          record {
            frame = frame;
            granted = granted;
            valid = add_task-IsValid t v room refl;
            count = refl;
            current = refl;
            entry = ground (
              arith,
              v.three,
              pushed.esp,
              get_or-set_self m.scheduler.tasks m.scheduler.task_count t blank,
            );
            others = λ i ne.
                get_or-set_ne m.scheduler.tasks m.scheduler.task_count i t blank (λ e. ne (sym e));
            stack = record { esp = omega arith; words = pushed.words; others = pushed.others };
            resumed =
                resume-Pushed task_code (frame + 4096) m.memory _ (omega arith)
                  (record { esp = omega arith; words = pushed.words; others = pushed.others });
            quiet = refl;
          },
        )

-- At the limit of three tasks `create_task` only prints its error.
pub create_task-full :
    (task_code : ℕ) (m : Machine)
    → max_task ≤ m.scheduler.task_count
    → create_task task_code m
      ≡ some (record m { console = print (codes "Error: Max of tasks reached.\n") m.console })
unfolding create_task
create_task-full task_code m full = ground arith
