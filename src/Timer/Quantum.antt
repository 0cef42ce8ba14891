-- ===== src/Timer/Quantum.antt =====
-- How long a thread runs before the clock takes the processor from it.
use zy_os.Base.{
  ℕ, zero, suc, ◌+◌, ◌-◌, ◌%◌, ◌^◌, ◌≡◌, refl, ap, ◌∙◌, false, [], ◌∷◌, ◌++◌, arith, Run, ok, ◌>>=◌,
}
use zy_os.Thread.{Task, Sched}
use zy_os.Thread.Valid.{IsValid}
use zy_os.Thread.Fair.{schedule_lem}
use zy_os.Timer.{Clock, intr_timer_handler, put_task, stack_magic_value, frequency_set}

-- A number of interrupts of the clock in a row.
abbrev pub fires : ℕ → Clock → Run Clock
fires zero c = ok c
fires (suc n) c = intr_timer_handler c >>= fires n

abbrev pub running_task : Clock → Task
running_task c = c.sched.task c.sched.current

put_task-IsValid :
    (s : Sched) (t : Task)
    → IsValid s
    → t.status ≡ (s.task s.current).status
    → IsValid (put_task t s)
put_task-IsValid s t v e = record {
  unique = v.unique;
  queued = λ u. ground (arith, v.queued u);
  running = λ u. ground (arith, v.running u);
  idle = ground (arith, v.idle);
}

-- With interrupts off in the handler, exactly the ready threads queued and an intact stack magic, a
-- running thread with n ticks left is switched out by the clock's interrupt number n + 1, behind the
-- queue whose first thread runs then.
pub quantum_lem :
    (n : ℕ) (c : Clock)
    → IsValid c.sched
    → c.sched.intr_on ≡ false
    → (running_task c).stack_magic ≡ stack_magic_value
    → (running_task c).ticks ≡ n
    → (c' : Clock) × (fires (suc n) c ≡ ok c')
      × (c'.sched.current ∷ c'.sched.ready ≡ c.sched.ready ++ c.sched.current ∷ [])
      × IsValid c'.sched
unfolding intr_timer_handler
quantum_lem zero c v off magic t =
    let s = c.sched in
    let k = running_task c in
    let k' = record k { elapsed_ticks = (k.elapsed_ticks + 1) % 2 ^ 32 } in
    let w = schedule_lem (put_task k' s) (put_task-IsValid s k' v refl) off in
    (
      record { sched = w.next; ticks = (c.ticks + 1) % 2 ^ 32 },
      ground (arith, w.result),
      w.order,
      w.valid,
    )
quantum_lem (suc n) c v off magic t =
    let s = c.sched in
    let k = running_task c in
    let k' = record k { elapsed_ticks = (k.elapsed_ticks + 1) % 2 ^ 32; ticks = k.ticks - 1 } in
    let c1 : Clock = record { sched = put_task k' s; ticks = (c.ticks + 1) % 2 ^ 32 } in
    let step : intr_timer_handler c ≡ ok c1 = ground arith in
    let (c', run, order, val) =
      quantum_lem n c1 (put_task-IsValid s k' v refl) off (ground arith) (ground arith) in
    (c', ap (λ r. r >>= fires (suc n)) step ∙ run, order, val)

-- frequency_set programs a counter value as if it were its low byte: the bytes written are those for
-- the value modulo 256.
pub frequency_set-low :
    (port number rwl mode value : ℕ)
    → frequency_set port number rwl mode value ≡ frequency_set port number rwl mode (value % 256)
unfolding frequency_set
frequency_set-low port number rwl mode value = ground arith
