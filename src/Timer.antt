-- ===== src/Timer.antt =====
-- device/timer.c: the clock's interrupt and the programming of the PIT.
-- The handler runs with interrupts off, and `running_thread()` is `current`.
pub mod Quantum
mod Tests
use zy_os.Base.{
  ℕ, zero, suc, ◌+◌, ◌-◌, ◌*◌, ◌/◌, ◌%◌, ◌^◌, bit_or, Bool, List, [], ◌∷◌, ◌==◌, if◌then◌else◌,
  update, Run, ok, assert, ltb, ◌>>=◌, ◌>>◌,
}
use zy_os.Thread.{Task, Sched, schedule}

-- The scheduler, and the kernel's own count of ticks.
pub record Clock : Type 0 where
  pub sched : Sched
  pub ticks : ℕ

abbrev pub stack_magic_value : ℕ
stack_magic_value = 0x19971216

abbrev pub put_task : Task → Sched → Sched
put_task t s = record s { task = update s.task s.current t }

unfoldable pub intr_timer_handler : Clock → Run Clock
intr_timer_handler c =
    let s = c.sched in
    let t = s.task s.current in
    let t1 = record t { elapsed_ticks = (t.elapsed_ticks + 1) % 2 ^ 32 } in
    let now = (c.ticks + 1) % 2 ^ 32 in
    let next = schedule (put_task t1 s) in
    assert (t.stack_magic == stack_magic_value)
    >> (if t.ticks == 0
        then (next >>= λ s'. ok (record { sched = s'; ticks = now }))
        else ok (record { sched = put_task (record t1 { ticks = t.ticks - 1 }) s; ticks = now }))

-- `DIV_ROUND_UP(m_seconds, mil_seconds_per_intr)`, and the assertion behind it.
unfoldable pub mtime_sleep_ticks : ℕ → Run ℕ
mtime_sleep_ticks m_seconds =
    let sleep_ticks = (m_seconds + 10 - 1) % 2 ^ 32 / 10 in
    assert (ltb 0 sleep_ticks) >> ok sleep_ticks

-- The condition of the loop of `ticks_to_sleep`, in `uint32_t`.
unfoldable pub must_wait : (now start_tick sleep_ticks : ℕ) → Bool
must_wait now start_tick sleep_ticks = ltb ((now + 2 ^ 32 - start_tick) % 2 ^ 32) sleep_ticks

-- What `outb` writes, as pairs of a port and a byte, in order.
unfoldable pub frequency_set :
    (counter_port counter_no rwl counter_mode counter_value : ℕ) → List (ℕ × ℕ)
frequency_set counter_port counter_no rwl counter_mode counter_value =
    (0x43, bit_or (bit_or (counter_no * 2 ^ 6) (rwl * 2 ^ 4)) (counter_mode * 2 ^ 1) % 256)
    ∷ (counter_port, counter_value % 256)
    ∷ (counter_port, counter_value % 256 / 2 ^ 8)
    ∷ []
