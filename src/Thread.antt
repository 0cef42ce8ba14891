-- ===== src/Thread.antt =====
-- thread/thread.c: the states of threads and the ready queue.
-- A thread is the number of its `task_struct`. `ready` is the content of `thread_ready_list`, whose
-- operations LinkedList models over pointers; `all` is that of `thread_all_list`. `switch_to` is the
-- change of `current`; what a caller does behind `schedule()` it does when it is current again.
pub mod Valid
pub mod Fair
pub mod Tests
use zy_os.Base.{
  ℕ, zero, suc, ◌+◌, ◌-◌, ◌*◌, ◌%◌, ◌^◌, Bool, true, false, not, ◌&&◌, ◌||◌, Option, none, some,
  List, [], ◌∷◌, ◌++◌, ◌==◌, ltb, if◌then◌else◌, update, replicate, Run, ok, panic, assert, ◌>>=◌,
  ◌>>◌,
}

abbrev pub Tid : Type 0
Tid = ℕ

pub data TaskStatus : Type 0 where
  task_running task_ready task_blocked task_waiting task_hanging task_died : TaskStatus

-- What `thread_create` writes to the new stack, as `struct thread_stack`.
pub record ThreadStack : Type 0 where
  pub ebp : ℕ
  pub ebx : ℕ
  pub edi : ℕ
  pub esi : ℕ
  pub eip : ℕ
  pub function : ℕ
  pub func_arg : ℕ

-- `struct task_struct`, less the fields of a process: `pg_dir`, its virtual addresses and its blocks. The
-- tags of its lists are its places in `ready` and `all`; -1 is `none`.
pub record Task : Type 0 where
  pub self_kernel_stack : ℕ
  pub stack : Option ThreadStack
  pub pid : ℕ
  pub name : List ℕ
  pub fd_table : ℕ → Option ℕ
  pub cwd_inode_nr : ℕ
  pub parent_pid : Option ℕ
  pub status : TaskStatus
  pub priority : ℕ
  pub ticks : ℕ
  pub elapsed_ticks : ℕ
  pub stack_magic : ℕ

pub record Sched : Type 0 where
  pub task : Tid → Task
  pub ready : List Tid
  pub all : List Tid
  pub current : Tid
  pub idle_thread : Tid
  pub main_thread : Tid
  pub next_pid : ℕ
  pub intr_on : Bool

abbrev pub is_running : TaskStatus → Bool
is_running task_running = true
is_running task_ready = false
is_running task_blocked = false
is_running task_waiting = false
is_running task_hanging = false
is_running task_died = false

abbrev pub is_ready : TaskStatus → Bool
is_ready task_running = false
is_ready task_ready = true
is_ready task_blocked = false
is_ready task_waiting = false
is_ready task_hanging = false
is_ready task_died = false

-- The three states from which a thread can be woken.
abbrev pub is_blocked : TaskStatus → Bool
is_blocked task_running = false
is_blocked task_ready = false
is_blocked task_blocked = true
is_blocked task_waiting = true
is_blocked task_hanging = true
is_blocked task_died = false

-- `elem_find`
abbrev pub has : Tid → List Tid → Bool
has t [] = false
has t (x ∷ xs) = t == x || has t xs

abbrev pub status_of : Sched → Tid → TaskStatus
status_of s t = (s.task t).status

abbrev pub set_status : Tid → TaskStatus → Sched → Sched
set_status t st s = record s { task = update s.task t (record (s.task t) { status = st }) }

-- The rest of a function behind its `schedule()`, and of those that end so.
unfoldable pub intr_set_status : Bool → Sched → Sched
intr_set_status old_status s = record s { intr_on = old_status }

unfoldable pub thread_unblock : Tid → Sched → Run Sched
thread_unblock pthread s =
    assert (is_blocked (status_of s pthread))
    >> (assert (not (has pthread s.ready))
        >> ok (set_status pthread task_ready (record s { ready = pthread ∷ s.ready })))

-- The first part of `schedule`: a thread whose time is up goes to the end of the queue.
unfoldable pub requeue : Sched → Run Sched
requeue s =
    let cur = s.current in
    let t = s.task cur in
    let t' = record t { ticks = t.priority; status = task_ready } in
    if is_running t.status
    then (assert (not (has cur s.ready))
        >> ok (record s { ready = s.ready ++ cur ∷ []; task = update s.task cur t' }))
    else ok s

abbrev pub wake_idle : Sched → List Tid → Run Sched
wake_idle s [] = thread_unblock s.idle_thread s
wake_idle s (t ∷ ts) = ok s

-- `list_pop` and the switch, where an empty queue fails the assertion.
abbrev pub switch_next : Sched → List Tid → Run Sched
switch_next s [] = panic
switch_next s (next ∷ rest) =
    ok (record (set_status next task_running s) { ready = rest; current = next })

unfoldable pub schedule : Sched → Run Sched
schedule s =
    assert (not s.intr_on)
    >> (requeue s >>= λ s1. wake_idle s1 s1.ready >>= λ s2. switch_next s2 s2.ready)

abbrev pub intr_off : Sched → Sched
intr_off s = record s { intr_on = false }

-- `thread_block` up to the switch.
unfoldable pub thread_block : TaskStatus → Sched → Run Sched
thread_block stat s = assert (is_blocked stat) >> schedule (set_status s.current stat (intr_off s))

-- `thread_yield` up to the switch.
unfoldable pub thread_yield : Sched → Run Sched
thread_yield s =
    let cur = s.current in
    assert (not (has cur s.ready))
    >> schedule (set_status cur task_ready (record (intr_off s) { ready = s.ready ++ cur ∷ [] }))

-- The lock around it is Sync's. `pid_t` has 16 bits.
unfoldable pub allocate_pid : Sched → ℕ × Sched
allocate_pid s = let pid = (s.next_pid + 1) % 2 ^ 16 in (pid, record s { next_pid = pid })

-- Descriptors 0 to 2 are the standard ones, and those from 3 to 7 are free.
abbrev pub first_fds : ℕ → Option ℕ
first_fds i = if ltb i 3 then some i else none

unfoldable pub init_thread : Tid → (name : List ℕ) (prio : ℕ) → Sched → Sched
unfolding allocate_pid
init_thread pthread name prio s0 =
    let (pid, s) = allocate_pid s0 in
    record s {
      task = update s.task pthread (record {
        self_kernel_stack = (pthread + 4096) % 2 ^ 32;
        stack = none;
        pid = pid;
        name = name;
        fd_table = first_fds;
        cwd_inode_nr = 0;
        parent_pid = none;
        status = if pthread == s.main_thread then task_running else task_ready;
        priority = prio % 256;
        ticks = prio % 256;
        elapsed_ticks = 0;
        stack_magic = 0x19971216;
      });
    }

-- The stack pointer is a `uint32_t*`, so that each step down takes four times the size of the structure:
-- 76 bytes for `struct intr_stack` and 32 for `struct thread_stack`. `kernel_thread` is the address of that
-- function.
unfoldable pub thread_create : Tid → (kernel_thread func func_arg : ℕ) → Sched → Sched
thread_create pthread kernel_thread func func_arg s =
    let t = s.task pthread in
    record s {
      task = update s.task pthread (record t {
        self_kernel_stack = (t.self_kernel_stack + 2 ^ 32 - 4 * 76 - 4 * 32) % 2 ^ 32;
        stack = some (record {
          ebp = 0;
          ebx = 0;
          edi = 0;
          esi = 0;
          eip = kernel_thread;
          function = func;
          func_arg = func_arg;
        });
      });
    }

-- `thread_start` on the page that `get_kernel_pages` returned.
unfoldable pub thread_start :
    Tid → (name : List ℕ) (prio kernel_thread func func_arg : ℕ) → Sched → Run Sched
thread_start thread name prio kernel_thread func func_arg s0 =
    let s = thread_create thread kernel_thread func func_arg (init_thread thread name prio s0) in
    assert (not (has thread s.ready))
    >> (assert (not (has thread s.all))
        >> ok (record s { ready = s.ready ++ thread ∷ []; all = s.all ++ thread ∷ [] }))

-- `make_main_thread` for the thread that runs.
unfoldable pub make_main_thread : (name : List ℕ) → Sched → Run Sched
make_main_thread name s0 =
    let s = init_thread s0.current name 31 (record s0 { main_thread = s0.current }) in
    assert (not (has s.current s.all)) >> ok (record s { all = s.all ++ s.current ∷ [] })
