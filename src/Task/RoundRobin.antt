-- ===== src/Task/RoundRobin.antt =====
-- `schedule` of cpu/task.c, one switch and rounds of them.
use first_kernel.Base.{
  ℕ, suc, ◌+◌, ◌≤◌, ◌<◌, ◌≡◌, refl, ap, sym, ◌∙◌, ◌≢◌, List, [], ◌∷◌, Option, some, ◌==◌, ltb,
  if◌then◌else◌, get_or, set, length, arith, length-set, get_or-set_self, get_or-set_ne,
  get_elem?-eq-get_or,
}
use first_kernel.Base.Partial.{◌>>=◌}
use first_kernel.Task.{max_task, Pcb, Scheduler, advance, next_active, schedule}
use first_kernel.Task.Table.{IsValid, task_at, blank}

-- The specification: the next of `count` tasks, round and round.
abbrev pub successor : ℕ → ℕ → ℕ
successor count current = if ltb (current + 1) count then current + 1 else 0

module _ (tasks : List Pcb) (three : length tasks ≡ max_task) where
  next_active-suc :
      (fuel current : ℕ)
      → current < max_task
      → next_active (suc fuel) tasks current ≡ (
          if (get_or tasks (advance current) blank).active == 0
          then next_active fuel tasks (advance current)
          else some (advance current))
  unfolding next_active advance
  next_active-suc fuel current h = ground (arith, get_elem?-eq-get_or tasks (advance current) blank)

  -- Three rounds are enough to find an active task, also if that is the current one.
  next_active_lem :
      (count current : ℕ)
      → ((i : ℕ) → (get_or tasks i blank).active ≡ (if ltb i count then 1 else 0))
      → current < count
      → count ≤ max_task
      → next_active max_task tasks current ≡ some (successor count current)
  unfolding advance
  next_active_lem count current active running fits = ground (
    arith,
    next_active-suc 2 current,
    next_active-suc 1 (advance current),
    next_active-suc 0 (advance (advance current)),
    active (advance current),
    active (advance (advance current)),
    active (advance (advance (advance current))),
  )

-- What a switch does: the stack pointer of the task that was running is kept in its entry, no other
-- entry changes, and the next task resumes with the stack pointer that its entry holds.
pub record Switched (current_esp : ℕ) (s s' : Scheduler) (resumed : ℕ) : Type 0 where
  pub valid : IsValid s'
  pub count : s'.task_count ≡ s.task_count
  pub turn : s'.current_task ≡ successor s.task_count s.current_task
  pub saved : task_at s' s.current_task ≡ record (task_at s s.current_task) { esp = current_esp }
  pub others : (i : ℕ) → i ≢ s.current_task → task_at s' i ≡ task_at s i
  pub resumes : resumed ≡ (task_at s' s'.current_task).esp

-- With two tasks or more, `schedule` ends without a fault and switches to the next task in turn.
pub schedule-Switched :
    (current_esp : ℕ) (s : Scheduler)
    → IsValid s
    → 2 ≤ s.task_count
    → (s' : Scheduler) × (resumed : ℕ) × (schedule current_esp s ≡ some (s', resumed))
      × Switched current_esp s s' resumed
schedule-Switched current_esp s v many = (
  after,
  (task_at after next).esp,
  returns,
  record {
    valid = record {
      three = length-set s.tasks s.current_task t ∙ v.three;
      active = active;
      running = ground (arith, v.running);
      fits = v.fits;
    };
    count = refl;
    turn = refl;
    saved = get_or-set_self s.tasks s.current_task t blank in_table;
    others = λ i ne. get_or-set_ne s.tasks s.current_task i t blank (λ e. ne (sym e));
    resumes = refl;
  },
)
  where
    in_table : s.current_task < length s.tasks
    in_table = omega (arith, v.running, v.fits, v.three)

    t : Pcb
    t = record (task_at s s.current_task) { esp = current_esp }

    next : ℕ
    next = successor s.task_count s.current_task

    after : Scheduler
    after = record {
      tasks = set s.tasks s.current_task t;
      current_task = next;
      task_count = s.task_count;
    }

    active : (i : ℕ) → (task_at after i).active ≡ (if ltb i s.task_count then 1 else 0)
    active i = ground (
      arith,
      v.active i,
      get_or-set_self s.tasks s.current_task t blank in_table,
      get_or-set_ne s.tasks s.current_task i t blank,
    )

    next_in_table : next < length (set s.tasks s.current_task t)
    next_in_table = ground (arith, length-set s.tasks s.current_task t, v.three, v.fits)

    returns : schedule current_esp s ≡ some (after, (task_at after next).esp)
    returns =
        unfold schedule in
        ground (
          arith,
          get_elem?-eq-get_or s.tasks s.current_task blank in_table,
          next_active_lem (set s.tasks s.current_task t)
              (length-set s.tasks s.current_task t ∙ v.three) s.task_count s.current_task active
              v.running v.fits,
          get_elem?-eq-get_or (set s.tasks s.current_task t) next blank next_in_table,
        )

-- With one task, or none, `schedule` changes nothing and resumes what was interrupted.
pub schedule-alone :
    (current_esp : ℕ) (s : Scheduler)
    → s.task_count ≤ 1
    → schedule current_esp s ≡ some (s, current_esp)
unfolding schedule
schedule-alone current_esp s h = ground arith

-- Timer interrupts one after another: the stack pointers at which they come, and the stack pointer
-- with which the last one resumes.
pub interrupts : ℕ → List ℕ → Scheduler → Option (Scheduler × ℕ)
interrupts esp [] s = schedule esp s
interrupts esp (esp' ∷ esps) s = do (s', resumed) ← schedule esp s; interrupts esp' esps s'

-- A task comes back.
pub record Returned (esp : ℕ) (s : Scheduler) (result : Option (Scheduler × ℕ)) : Type 0 where
  pub after : Scheduler
  pub returns : result ≡ some (after, esp)
  pub current : after.current_task ≡ s.current_task
  pub valid : IsValid after

-- A switch away from the task of entry `i` saves its stack pointer; any other switch keeps it.
kept :
    {esp : ℕ} {s s' : Scheduler} {r : ℕ} (i : ℕ)
    → Switched esp s s' r
    → i ≢ s.current_task
    → (task_at s' i).esp ≡ (task_at s i).esp
kept i w ne = ap (λ (t : Pcb). t.esp) (w.others i ne)

saved_esp :
    {esp : ℕ} {s s' : Scheduler} {r : ℕ}
    → Switched esp s s' r
    → (task_at s' s.current_task).esp ≡ esp
saved_esp w = ap (λ (t : Pcb). t.esp) w.saved

resumed_at :
    {esp : ℕ} {s s' : Scheduler} {r : ℕ} (i : ℕ)
    → Switched esp s s' r
    → s'.current_task ≡ i
    → r ≡ (task_at s' i).esp
resumed_at {s' = s'} i w e = w.resumes ∙ ap (λ (k : ℕ). (task_at s' k).esp) e

module _ (e0 : ℕ) (s : Scheduler) (v : IsValid s) where
  round_of_two : (e1 : ℕ) → s.task_count ≡ 2 → Returned e0 s (interrupts e0 (e1 ∷ []) s)
  round_of_two e1 two = first (schedule-Switched e0 s v (omega arith))
    where
      second :
          {s1 : Scheduler} {r1 : ℕ}
          → schedule e0 s ≡ some (s1, r1)
          → Switched e0 s s1 r1
          → ((s2 : Scheduler) × (r2 : ℕ) × (schedule e1 s1 ≡ some (s2, r2)) × Switched e1 s1 s2 r2)
          → Returned e0 s (interrupts e0 (e1 ∷ []) s)
      second {s1} q1 w1 (s2, r2, q2, w2) =
          let back : s2.current_task ≡ s.current_task =
            ground (arith, w1.turn, w2.turn, w1.count, v.running) in
          let away : s.current_task ≢ s1.current_task = λ e. ground (arith, w1.turn, v.running) in
          let home : r2 ≡ e0 =
            resumed_at s.current_task w2 back ∙ kept s.current_task w2 away ∙ saved_esp w1 in
          record {
            after = s2;
            returns = unfold interrupts in rw (q1, ← home) q2;
            current = back;
            valid = w2.valid;
          }

      first :
          ((s1 : Scheduler) × (r1 : ℕ) × (schedule e0 s ≡ some (s1, r1)) × Switched e0 s s1 r1)
          → Returned e0 s (interrupts e0 (e1 ∷ []) s)
      first (s1, r1, q1, w1) =
          second q1 w1 (schedule-Switched e1 s1 w1.valid (omega (arith, w1.count)))

  round_of_three : (e1 e2 : ℕ) → s.task_count ≡ 3 → Returned e0 s (interrupts e0 (e1 ∷ e2 ∷ []) s)
  round_of_three e1 e2 three = first (schedule-Switched e0 s v (omega arith))
    where
      third :
          {s1 s2 : Scheduler} {r1 r2 : ℕ}
          → schedule e0 s ≡ some (s1, r1)
          → Switched e0 s s1 r1
          → schedule e1 s1 ≡ some (s2, r2)
          → Switched e1 s1 s2 r2
          → ((s3 : Scheduler) × (r3 : ℕ) × (schedule e2 s2 ≡ some (s3, r3)) × Switched e2 s2 s3 r3)
          → Returned e0 s (interrupts e0 (e1 ∷ e2 ∷ []) s)
      third {s1} {s2} q1 w1 q2 w2 (s3, r3, q3, w3) =
          let back : s3.current_task ≡ s.current_task =
            ground (arith, w1.turn, w2.turn, w3.turn, w1.count, w2.count, v.running) in
          let away1 : s.current_task ≢ s1.current_task = λ e. ground (arith, w1.turn, v.running) in
          let away2 : s.current_task ≢ s2.current_task =
            λ e. ground (arith, w1.turn, w2.turn, w1.count, v.running) in
          let home : r3 ≡ e0 =
            resumed_at s.current_task w3 back
            ∙ kept s.current_task w3 away2
            ∙ kept s.current_task w2 away1
            ∙ saved_esp w1 in
          record {
            after = s3;
            returns = unfold interrupts in rw (q1, q2, ← home) q3;
            current = back;
            valid = w3.valid;
          }

      second :
          {s1 : Scheduler} {r1 : ℕ}
          → schedule e0 s ≡ some (s1, r1)
          → Switched e0 s s1 r1
          → ((s2 : Scheduler) × (r2 : ℕ) × (schedule e1 s1 ≡ some (s2, r2)) × Switched e1 s1 s2 r2)
          → Returned e0 s (interrupts e0 (e1 ∷ e2 ∷ []) s)
      second q1 w1 (s2, r2, q2, w2) =
          third q1 w1 q2 w2 (schedule-Switched e2 s2 w2.valid (omega (arith, w1.count, w2.count)))

      first :
          ((s1 : Scheduler) × (r1 : ℕ) × (schedule e0 s ≡ some (s1, r1)) × Switched e0 s s1 r1)
          → Returned e0 s (interrupts e0 (e1 ∷ e2 ∷ []) s)
      first (s1, r1, q1, w1) =
          second q1 w1 (schedule-Switched e1 s1 w1.valid (omega (arith, w1.count)))

-- As many interrupts as there are tasks, at whatever stack pointers they come, bring the task that
-- was interrupted first back, with the stack pointer that it was interrupted at.
pub resumes_after_round :
    (esp : ℕ) (esps : List ℕ) (s : Scheduler)
    → IsValid s
    → suc (length esps) ≡ s.task_count
    → Returned esp s (interrupts esp esps s)
resumes_after_round esp [] s v e = record {
  after = s;
  returns = unfold interrupts in schedule-alone esp s (omega arith);
  current = refl;
  valid = v;
}
resumes_after_round esp (e1 ∷ []) s v e = round_of_two esp s v e1 (sym e)
resumes_after_round esp (e1 ∷ e2 ∷ []) s v e = round_of_three esp s v e1 e2 (sym e)
resumes_after_round esp (e1 ∷ e2 ∷ e3 ∷ esps) s v e = absurd (omega (arith, v.fits))
