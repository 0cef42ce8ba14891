-- ===== src/Thread/Fair.antt =====
-- What the scheduler's operations guarantee, and that yielding threads take turns.
use zy_os.Base.{
  ℕ, zero, suc, ◌≡◌, ◌≢◌, refl, ap, ◌∙◌, true, false, List, [], ◌∷◌, ◌++◌, arith, update, length,
  Run, ok, ◌>>=◌,
}
use zy_os.Thread.{
  Tid, TaskStatus, task_ready, Sched, is_running, is_ready, is_blocked, has, status_of, set_status,
  thread_unblock, requeue, schedule, thread_block, thread_yield, thread_start, thread_create,
  init_thread, allocate_pid, intr_off,
}
use zy_os.Thread.Valid.{
  IsValid, IsParked, has-append, Unique-append, or_idle, Switched, finish-Switched,
}

-- The state behind `requeue`, and that which `thread_yield` hands to `schedule`.
abbrev pub requeued : Sched → Sched
requeued s =
    let t = s.task s.current in
    record s {
      ready = s.ready ++ s.current ∷ [];
      task = update s.task s.current (record t { ticks = t.priority; status = task_ready });
    }

abbrev pub yielded : Sched → Sched
yielded s =
    set_status s.current task_ready (record (intr_off s) { ready = s.ready ++ s.current ∷ [] })

absent : (s : Sched) → IsValid s → has s.current s.ready ≡ false
absent s v = ground (arith, v.queued s.current, v.running s.current)

requeued-IsParked : (s : Sched) → IsValid s → IsParked (requeued s)
requeued-IsParked s v = record {
  unique = Unique-append s.current s.ready v.unique (absent s v);
  queued = λ t. ground (arith, has-append t s.current s.ready, v.queued t);
  running = λ t. ground (arith, v.running t);
  idle = ground (arith, v.idle);
}

yielded-IsParked : (s : Sched) → IsValid s → IsParked (yielded s)
yielded-IsParked s v = record {
  unique = Unique-append s.current s.ready v.unique (absent s v);
  queued = λ t. ground (arith, has-append t s.current s.ready, v.queued t);
  running = λ t. ground (arith, v.running t);
  idle = ground (arith, v.idle);
}

or_idle-append : (xs : List Tid) (y i : Tid) → or_idle (xs ++ y ∷ []) i ≡ xs ++ y ∷ []
or_idle-append [] y i = refl
or_idle-append (x ∷ xs) y i = refl

-- With interrupts off and exactly the ready threads queued, schedule succeeds: the running thread is
-- ready with a full time slice and goes behind the queue, the first of that queue runs, the other
-- statuses stay, and again exactly the ready threads are queued.
pub schedule_lem :
    (s : Sched)
    → IsValid s
    → s.intr_on ≡ false
    → Switched (schedule s) (requeued s) (s.ready ++ s.current ∷ [])
unfolding schedule requeue
schedule_lem s v off =
    let w = finish-Switched (requeued s) (s.ready ++ s.current ∷ []) (requeued-IsParked s v) refl in
    let same = or_idle-append s.ready s.current s.idle_thread in
    record {
      next = w.next;
      result = ground (arith, absent s v, v.running s.current, w.result);
      valid = w.valid;
      order = w.order ∙ same;
      same = w.same;
    }

-- With exactly the ready threads queued, `thread_yield` succeeds and the caller goes behind the queue.
pub thread_yield_lem :
    (s : Sched) → IsValid s → Switched (thread_yield s) (yielded s) (s.ready ++ s.current ∷ [])
unfolding thread_yield schedule requeue
thread_yield_lem s v =
    let w = finish-Switched (yielded s) (s.ready ++ s.current ∷ []) (yielded-IsParked s v) refl in
    let same = or_idle-append s.ready s.current s.idle_thread in
    record {
      next = w.next;
      result = ground (arith, absent s v, w.result);
      valid = w.valid;
      order = w.order ∙ same;
      same = w.same;
    }

abbrev pub blocked : TaskStatus → Sched → Sched
blocked stat s = set_status s.current stat (intr_off s)

blocked_only :
    (stat : TaskStatus)
    → is_blocked stat ≡ true
    → (is_running stat ≡ false) × (is_ready stat ≡ false)
blocked_only stat h = ground arith

-- With exactly the ready threads queued and a blocked status, thread_block succeeds: the running thread
-- gets that status, the first ready thread runs or the idle thread when there is none, the other
-- statuses stay, and again exactly the ready threads are queued.
thread_block_lem :
    (s : Sched) (stat : TaskStatus)
    → IsValid s
    → is_blocked stat ≡ true
    → Switched (thread_block stat s) (blocked stat s) (or_idle s.ready s.idle_thread)
unfolding thread_block schedule requeue
thread_block_lem s stat v h =
    let b = blocked_only stat h in
    let parked : IsParked (blocked stat s) = record {
      unique = v.unique;
      queued = λ t. ground (arith, v.queued t, v.running t, b, absent s v);
      running = λ t. ground (arith, v.running t, b);
      idle = ground (arith, v.idle, h);
    } in
    let w = finish-Switched (blocked stat s) s.ready parked refl in
    record {
      next = w.next;
      result = ground (arith, h, b, w.result);
      valid = w.valid;
      order = w.order;
      same = w.same;
    }

-- With exactly the ready threads queued, thread_unblock of a blocked thread succeeds: the thread goes
-- in front of the queue, the current thread stays, and again exactly the ready threads are queued.
pub thread_unblock_lem :
    (s : Sched) (t : Tid)
    → IsValid s
    → is_blocked (status_of s t) ≡ true
    → (s' : Sched) × (thread_unblock t s ≡ ok s')
      × IsValid s'
      × (s'.ready ≡ t ∷ s.ready)
      × (s'.current ≡ s.current)
unfolding thread_unblock
thread_unblock_lem s t v h =
    let b = blocked_only (status_of s t) h in
    let free : has t s.ready ≡ false = ground (arith, v.queued t) in
    (
      set_status t task_ready (record s { ready = t ∷ s.ready }),
      ground arith,
      record {
        unique = (free, v.unique);
        queued = λ u. ground (arith, v.queued u);
        running = λ u. ground (arith, v.running u, b);
        idle = ground (arith, v.idle);
      },
      refl,
      refl,
    )

-- `k` calls of `thread_yield` in a row, each by the thread that runs then.
abbrev pub yields : ℕ → Sched → Run Sched
yields zero s = ok s
yields (suc k) s = thread_yield s >>= yields k

append_assoc : (xs ys zs : List Tid) → (xs ++ ys) ++ zs ≡ xs ++ (ys ++ zs)
append_assoc [] ys zs = refl
append_assoc (x ∷ xs) ys zs = ap (λ l. x ∷ l) (append_assoc xs ys zs)

-- With exactly the ready threads queued, when every running thread calls thread_yield, a thread that
-- has n threads in front of it in the queue runs after n + 1 calls, all of which succeed.
pub taking_turns :
    (s : Sched) (xs : List Tid) (t : Tid) (ys : List Tid)
    → IsValid s
    → s.ready ≡ xs ++ t ∷ ys
    → (s' : Sched) × (yields (suc (length xs)) s ≡ ok s') × (s'.current ≡ t) × IsValid s'
taking_turns s [] t ys v e =
    let w = thread_yield_lem s v in
    let order : w.next.current ∷ w.next.ready ≡ t ∷ (ys ++ s.current ∷ []) =
      w.order ∙ ap (λ l. l ++ s.current ∷ []) e in
    (w.next, ap (λ r. r >>= yields 0) w.result, ground arith, w.valid)
taking_turns s (x ∷ xs) t ys v e =
    let w = thread_yield_lem s v in
    let order : w.next.current ∷ w.next.ready ≡ x ∷ ((xs ++ t ∷ ys) ++ s.current ∷ []) =
      w.order ∙ ap (λ l. l ++ s.current ∷ []) e in
    let rest : w.next.ready ≡ xs ++ t ∷ (ys ++ s.current ∷ []) =
      ground arith ∙ append_assoc xs (t ∷ ys) (s.current ∷ []) in
    let (s', run, cur, val) = taking_turns w.next xs t (ys ++ s.current ∷ []) w.valid rest in
    (s', ap (λ r. r >>= yields (suc (length xs))) w.result ∙ run, cur, val)

-- A thread that is started anew is queued last, and the invariant holds again.
pub thread_start-IsValid :
    (s : Sched) (t : Tid) (name : List ℕ) (prio entry func arg : ℕ)
    → IsValid s
    → has t s.ready ≡ false
    → has t s.all ≡ false
    → t ≢ s.main_thread
    → t ≢ s.current
    → (s' : Sched) × (thread_start t name prio entry func arg s ≡ ok s')
      × IsValid s'
      × (s'.ready ≡ s.ready ++ t ∷ [])
unfolding thread_start thread_create init_thread allocate_pid
thread_start-IsValid s t name prio entry func arg v h g n c =
    let s1 = thread_create t entry func arg (init_thread t name prio s) in
    (
      record s1 { ready = s.ready ++ t ∷ []; all = s.all ++ t ∷ [] },
      ground arith,
      record {
        unique = Unique-append t s.ready v.unique h;
        queued = λ u. ground (arith, has-append u t s.ready, v.queued u);
        running = λ u. ground (arith, v.running u);
        idle = ground (arith, v.idle);
      },
      refl,
    )
