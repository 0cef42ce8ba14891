-- ===== src/IoQueue.antt =====
-- device/io_queue.c and io_queue.h: the ring of characters between an interrupt handler and readers.
-- The lock of the queue is its holder. The loops `for (; ioq_empty(ioq);)` and `for (; ioq_full(ioq);)`
-- are cut where the thread blocks: a call gives `wait` there, and `get_resumed` and `put_resumed` are
-- what the thread does when it runs again.
pub mod Fifo
mod Tests
use zy_os.Base.{
  ℕ, ◌+◌, ◌%◌, Bool, true, false, Option, none, some, ◌==◌, if◌then◌else◌, update, Run, ok, assert,
  ◌>>◌,
}

abbrev pub buf_size : ℕ
buf_size = 64

-- A thread, by the number that stands for the address of its `task_struct`.
abbrev pub Tid : Type 0
Tid = ℕ

pub record IoQueue : Type 0 where
  pub lock : Option Tid
  pub producer : Option Tid
  pub consumer : Option Tid
  pub buf : ℕ → ℕ
  pub head : ℕ
  pub tail : ℕ

unfoldable pub io_queue_init : IoQueue → IoQueue
io_queue_init q = record q { lock = none; producer = none; consumer = none; head = 0; tail = 0 }

unfoldable pub next_pos : ℕ → ℕ
next_pos pos = (pos + 1) % buf_size

-- `intr_off` is `intr_get_status() == INTR_OFF`.
unfoldable pub ioq_full : Bool → IoQueue → Run Bool
ioq_full intr_off q = assert intr_off >> ok (next_pos q.head == q.tail)

unfoldable pub ioq_empty : Bool → IoQueue → Run Bool
ioq_empty intr_off q = assert intr_off >> ok (q.head == q.tail)

abbrev pub is_none : Option Tid → Bool
is_none none = true
is_none (some t) = false

-- What a call leaves: the result and the thread that it woke, or the thread blocked, on the lock
-- (`lock_wait`) or as the waiter of the queue (`wait`).
pub data Outcome : Type 0 where
  done : ℕ → Option Tid → IoQueue → Outcome
  wait : IoQueue → Outcome
  lock_wait : IoQueue → Outcome

-- `lock_acquire(&ioq->lock)` up to where it blocks. (A thread that held the lock would go on; the
-- callers do not hold it there.)
abbrev acquired : Tid → IoQueue → (IoQueue → Run Outcome) → Run Outcome
acquired cur q k = elim q.lock [
  | none ↦ k (record q { lock = some cur })
  | some t ↦ if t == cur then k q else ok (lock_wait q)
]

-- `ioq_wait(&ioq->consumer)` and `ioq_wait(&ioq->producer)`, up to `thread_block`.
unfoldable pub wait_consumer : Tid → IoQueue → Run Outcome
wait_consumer cur q = assert (is_none q.consumer) >> ok (wait (record q { consumer = some cur }))

unfoldable pub wait_producer : Tid → IoQueue → Run Outcome
wait_producer cur q = assert (is_none q.producer) >> ok (wait (record q { producer = some cur }))

-- `ioq_getchar` and `ioq_putchar` from the head of their loops. The waker's `thread_unblock` is the
-- thread that `done` names.
unfoldable pub ioq_getchar : Bool → Tid → IoQueue → Run Outcome
unfolding ioq_empty wait_consumer next_pos
ioq_getchar intr_off cur q =
    let byte = q.buf q.tail in
    let q' = record q { tail = next_pos q.tail; producer = none } in
    assert intr_off
    >> (if q.head == q.tail
        then acquired cur q (wait_consumer cur)
        else ok (done byte q.producer q'))

unfoldable pub ioq_putchar : Bool → Tid → IoQueue → ℕ → Run Outcome
unfolding ioq_full wait_producer next_pos
ioq_putchar intr_off cur q byte =
    let q' = record q { buf = update q.buf q.head byte; head = next_pos q.head; consumer = none } in
    assert intr_off
    >> (if next_pos q.head == q.tail
        then acquired cur q (wait_producer cur)
        else ok (done byte q.consumer q'))

-- `lock_release(&ioq->lock)` behind the wait, and round the loop again.
unfoldable pub get_resumed : Bool → Tid → IoQueue → Run Outcome
unfolding ioq_getchar
get_resumed intr_off cur q = ioq_getchar intr_off cur (record q { lock = none })

unfoldable pub put_resumed : Bool → Tid → IoQueue → ℕ → Run Outcome
unfolding ioq_putchar
put_resumed intr_off cur q byte = ioq_putchar intr_off cur (record q { lock = none }) byte
