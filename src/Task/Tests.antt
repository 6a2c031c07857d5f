-- ===== src/Task/Tests.antt =====
-- Runs of the scheduler, and its theorems at concrete inputs.
use first_kernel.Base.{
  ℕ, zero, suc, ◌≡◌, refl, [], ◌∷◌, ◌++◌, some, replicate, arith, if◌then◌else◌, ltb,
}
use first_kernel.Pmm.{Bitmap}
use first_kernel.Task.{Scheduler, Machine, create_task, init_multitasking, schedule, deactivate}
use first_kernel.Task.Table.{IsValid, task_at, blank, create_task-Created, Created}
use first_kernel.Task.RoundRobin.{
  Switched, schedule-Switched, interrupts, Returned, resumes_after_round,
}

abbrev at_reset : Scheduler
at_reset = record { tasks = blank ∷ blank ∷ blank ∷ []; current_task = 0; task_count = 0 }

abbrev booted : Scheduler
booted = record {
  tasks = record { esp = 0; id = 0; active = 1 } ∷ blank ∷ blank ∷ [];
  current_task = 0;
  task_count = 1;
}

abbrev three_tasks : Scheduler
three_tasks = record {
  tasks =
      record { esp = 0; id = 0; active = 1 }
      ∷ record { esp = 500; id = 1; active = 1 }
      ∷ record { esp = 600; id = 2; active = 1 }
      ∷ [];
  current_task = 2;
  task_count = 3;
}

boots : init_multitasking at_reset ≡ some booted
unfolding init_multitasking deactivate
boots = refl

three_active : (i : ℕ) → (task_at three_tasks i).active ≡ (if ltb i 3 then 1 else 0)
three_active zero = refl
three_active (suc zero) = refl
three_active (suc (suc zero)) = refl
three_active (suc (suc (suc i))) = ground arith

three_tasks-IsValid : IsValid three_tasks
three_tasks-IsValid = record {
  three = refl;
  active = three_active;
  running = omega arith;
  fits = omega arith;
}

one_active : (i : ℕ) → (task_at booted i).active ≡ (if ltb i 1 then 1 else 0)
one_active zero = refl
one_active (suc zero) = refl
one_active (suc (suc zero)) = refl
one_active (suc (suc (suc i))) = ground arith

booted-IsValid : IsValid booted
booted-IsValid = record {
  three = refl;
  active = one_active;
  running = omega arith;
  fits = omega arith;
}

abbrev first_mib : Bitmap
first_mib = replicate 8 0xFFFF_FFFF ++ replicate 120 0

abbrev machine : Machine
machine = record { bitmap = first_mib; memory = λ _. 7; scheduler = booted; console = [] }

create_task-Created_example :
    (m' : Machine) × (create_task 0x200000 machine ≡ some m') × Created 0x200000 machine m'
create_task-Created_example = create_task-Created 0x200000 machine refl booted-IsValid (omega arith)

schedule-Switched_example :
    (s' : Scheduler) × (resumed : ℕ) × (schedule 700 three_tasks ≡ some (s', resumed))
    × Switched 700 three_tasks s' resumed
schedule-Switched_example = schedule-Switched 700 three_tasks three_tasks-IsValid (omega arith)

resumes_after_round_example : Returned 700 three_tasks (interrupts 700 (800 ∷ 900 ∷ []) three_tasks)
resumes_after_round_example =
    resumes_after_round 700 (800 ∷ 900 ∷ []) three_tasks three_tasks-IsValid refl
