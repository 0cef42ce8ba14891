-- ===== src/Thread/Valid.antt =====
-- The scheduler's invariant: exactly the ready threads are queued, once each, and the current thread is
-- the one that runs.
use zy_os.Base.{
  ◌≡◌, ◌≢◌, refl, sym, ap, subst, ◌∙◌, Bool, true, false, ◌||◌, List, [], ◌∷◌, ◌++◌, ◌==◌, arith,
  Run, ok, ◌>>=◌,
}
use zy_os.Thread.{
  Tid, TaskStatus, task_ready, task_running, Sched, is_running, is_ready, is_blocked, has,
  status_of, set_status, thread_unblock, wake_idle, switch_next,
}

abbrev pub Unique : List Tid → Type 0
Unique [] = Unit {0}
Unique (x ∷ xs) = (has x xs ≡ false) × Unique xs

pub has-append : (t y : Tid) (xs : List Tid) → has t (xs ++ y ∷ []) ≡ (has t xs || t == y)
has-append t y [] = ground arith
has-append t y (x ∷ xs) = ground (arith, has-append t y xs)

pub Unique-append : (y : Tid) (xs : List Tid) → Unique xs → has y xs ≡ false → Unique (xs ++ y ∷ [])
Unique-append y [] u h = (refl, tt)
Unique-append y (x ∷ xs) u h =
    (ground (arith, has-append x y xs, u.0), Unique-append y xs u.1 (ground arith))

abbrev pub alive : TaskStatus → Bool
alive st = is_running st || is_ready st || is_blocked st

pub record IsValid (s : Sched) : Type 0 where
  pub unique : Unique s.ready
  pub queued : (t : Tid) → has t s.ready ≡ is_ready (status_of s t)
  pub running : (t : Tid) → is_running (status_of s t) ≡ (t == s.current)
  pub idle : alive (status_of s s.idle_thread) ≡ true

-- The same between the current thread's removal and the next one's choice.
pub record IsParked (s : Sched) : Type 0 where
  pub unique : Unique s.ready
  pub queued : (t : Tid) → has t s.ready ≡ is_ready (status_of s t)
  pub running : (t : Tid) → is_running (status_of s t) ≡ false
  pub idle : alive (status_of s s.idle_thread) ≡ true

pub switch_next-IsValid :
    (s : Sched) (n : Tid) (rest : List Tid)
    → IsParked s
    → s.ready ≡ n ∷ rest
    → (s' : Sched) × (switch_next s s.ready ≡ ok s')
      × IsValid s'
      × (s'.current ∷ s'.ready ≡ n ∷ rest)
      × ((t : Tid) → t ≢ n → s'.task t ≡ s.task t)
switch_next-IsValid s n rest p e =
    let s' = record (set_status n task_running s) { ready = rest; current = n } in
    let u = subst Unique e p.unique in
    let q : (t : Tid) → has t (n ∷ rest) ≡ is_ready (status_of s t) =
      λ t. subst (λ z. has t z ≡ is_ready (status_of s t)) e (p.queued t) in
    (
      s',
      ap (switch_next s) e,
      record {
        unique = u.1;
        queued = λ t. ground (arith, q t, u.0);
        running = λ t. ground (arith, p.running t);
        idle = ground (arith, p.idle);
      },
      refl,
      λ t ne. ground arith,
    )

-- The queue from which the next thread is taken: the idle thread stands in for an empty one.
abbrev pub or_idle : List Tid → Tid → List Tid
or_idle [] idle = idle ∷ []
or_idle (x ∷ xs) idle = x ∷ xs

-- What `schedule` guarantees: it halts nowhere, and the threads of `queue` are the next one and those
-- that stay queued.
pub record Switched (r : Run Sched) (s : Sched) (queue : List Tid) : Type 0 where
  pub next : Sched
  pub result : r ≡ ok next
  pub valid : IsValid next
  pub order : next.current ∷ next.ready ≡ queue
  pub same : (t : Tid) → t ≢ next.current → status_of next t ≡ status_of s t

woken : Sched → Sched
woken s = set_status s.idle_thread task_ready (record s { ready = s.idle_thread ∷ s.ready })

woken-IsParked :
    (s : Sched)
    → IsParked s
    → s.ready ≡ []
    → (thread_unblock s.idle_thread s ≡ ok (woken s)) × IsParked (woken s)
unfolding thread_unblock woken
woken-IsParked s p e =
    let empty : (t : Tid) → is_ready (status_of s t) ≡ false =
      λ t. sym (p.queued t) ∙ ap (has t) e in
    let idle : is_blocked (status_of s s.idle_thread) ≡ true =
      ground (arith, p.idle, p.running s.idle_thread, empty s.idle_thread) in
    let absent : has s.idle_thread s.ready ≡ false = ap (has s.idle_thread) e in
    (
      ground arith,
      record {
        unique = (absent, p.unique);
        queued = λ t. ground (arith, p.queued t);
        running = λ t. ground (arith, p.running t);
        idle = ground arith;
      },
    )

abbrev pub finish : Sched → Run Sched
finish s = wake_idle s s.ready >>= λ s2. switch_next s2 s2.ready

pub finish-Switched :
    (s : Sched) (xs : List Tid)
    → IsParked s
    → s.ready ≡ xs
    → Switched (finish s) s (or_idle xs s.idle_thread)
unfolding woken
finish-Switched s [] p e =
    let (done, parked) = woken-IsParked s p e in
    let (s', r, v, o, f) = switch_next-IsValid (woken s) s.idle_thread s.ready parked refl in
    record {
      next = s';
      result = ap (λ xs. wake_idle s xs >>= λ s2. switch_next s2 s2.ready) e ∙ (rw done r);
      valid = v;
      order = o ∙ ap (λ z. s.idle_thread ∷ z) e;
      same = λ t ne. ground (arith, f t, o);
    }
finish-Switched s (n ∷ rest) p e =
    let (s', r, v, o, f) = switch_next-IsValid s n rest p e in
    record {
      next = s';
      result = ap (λ xs. wake_idle s xs >>= λ s2. switch_next s2 s2.ready) e ∙ r;
      valid = v;
      order = o;
      same = λ t ne. ground (arith, f t, o);
    }
