-- ===== src/Thread/Tests.antt =====
-- Four threads, and the theorems at them.
use zy_os.Base.{none, ◌+◌, ℕ, ◌≡◌, refl, false, [], ◌∷◌, ◌==◌, arith, if◌then◌else◌, ok, ◌||◌}
use zy_os.Thread.{TaskStatus, task_running, task_ready, task_blocked, Sched, schedule}
use zy_os.Thread.Valid.{IsValid, Switched}
use zy_os.Thread.Fair.{requeued, schedule_lem, yields, taking_turns}

abbrev status_at : ℕ → TaskStatus
status_at t = if t == 1 then task_running else if t == 2 || t == 3 then task_ready else task_blocked

-- Thread 1 runs, 2 and 3 are ready, 0 is the idle thread.
abbrev pub four : Sched
four = record {
  task = λ t. record {
    self_kernel_stack = t + 4096;
    stack = none;
    pid = t;
    name = [];
    fd_table = λ i. none;
    cwd_inode_nr = 0;
    parent_pid = none;
    status = status_at t;
    priority = 31;
    ticks = 2;
    elapsed_ticks = 0;
    stack_magic = 0x19971216;
  };
  ready = 2 ∷ 3 ∷ [];
  all = 0 ∷ 1 ∷ 2 ∷ 3 ∷ [];
  current = 1;
  idle_thread = 0;
  main_thread = 1;
  next_pid = 3;
  intr_on = false;
}

pub four-IsValid : IsValid four
four-IsValid = record {
  unique = (refl, (refl, tt));
  queued = λ t. ground arith;
  running = λ t. ground arith;
  idle = refl;
}

schedule_lem_example : Switched (schedule four) (requeued four) (2 ∷ 3 ∷ 1 ∷ [])
schedule_lem_example = schedule_lem four four-IsValid refl

taking_turns_example : (s' : Sched) × (yields 2 four ≡ ok s') × (s'.current ≡ 3) × IsValid s'
taking_turns_example = taking_turns four (2 ∷ []) 3 [] four-IsValid refl
