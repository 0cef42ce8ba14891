-- ===== src/Sync.antt =====
-- thread/sync.c: semaphores and locks, as the steps of threads that interleave.
-- `sema_down` and `sema_up` run with interrupts off, so one pass of the loop of `sema_down` up to
-- `thread_block`, and a call of `sema_up`, is one step each. The other statements of `lock_acquire` and
-- `lock_release` are steps of their own, between which any other thread may run. A caller releases only
-- a lock that it holds, and does not hold it 2^32 times over.
pub mod Inv
pub mod Steps
pub mod Safe
mod Tests
use zy_os.Base.{
  ℕ, zero, suc, ◌+◌, ◌-◌, ◌%◌, ◌^◌, ◌≡◌, Bool, true, false, not, ◌&&◌, Option, none, some, List, [],
  ◌∷◌, ◌++◌, ◌==◌, ltb, if◌then◌else◌, update, Run, ok, panic, assert, ◌>>=◌, ◌>>◌,
}
use zy_os.Thread.{Tid, has}

pub record Semaphore : Type 0 where
  pub value : ℕ
  pub waiters : List Tid

pub record Lock : Type 0 where
  pub holder : Option Tid
  pub sem : Semaphore
  pub holder_repeat_nr : ℕ

unfoldable pub sema_init : ℕ → Semaphore
sema_init value = record { value = value % 256; waiters = [] }

unfoldable pub lock_init : Lock
unfolding sema_init
lock_init = record { holder = none; sem = sema_init 1; holder_repeat_nr = 0 }

-- How a pass of the loop of `sema_down` ends.
pub data Down : Type 0 where
  taken slept : Semaphore → Down

unfoldable pub sema_down : Tid → Semaphore → Run Down
sema_down cur s =
    let value' = (s.value + 255) % 256 in
    if s.value == 0
    then (assert (not (has cur s.waiters))
        >> ok (slept (record s { waiters = s.waiters ++ cur ∷ [] })))
    else assert (value' == 0) >> ok (taken (record s { value = value' }))

abbrev pub wake_first : List Tid → Option Tid
wake_first [] = none
wake_first (t ∷ ts) = some t

abbrev pub rest_of : List Tid → List Tid
rest_of [] = []
rest_of (t ∷ ts) = ts

-- With the thread that `thread_unblock` wakes.
unfoldable pub sema_up : Semaphore → Run (Option Tid × Semaphore)
sema_up s =
    let value' = (s.value + 1) % 256 in
    assert (s.value == 0)
    >> (assert (value' == 1)
        >> ok (wake_first s.waiters, record { value = value'; waiters = rest_of s.waiters }))

-- Where a thread is: outside of both functions without the lock; in `sema_down` in front of a pass of
-- the loop, or blocked in it; in `lock_acquire` behind `sema_down`, and behind the new `holder`; outside
-- with the lock; in `lock_release` behind `holder = NULL`, and in front of `sema_up`.
pub data Point : Type 0 where
  outside trying sleeping downed owning holding disowned cleared : Point

pub record System : Type 0 where
  pub lock : Lock
  pub at : Tid → Point

abbrev pub is_holder : Option Tid → Tid → Bool
is_holder none t = false
is_holder (some h) t = h == t

abbrev pub go : Tid → Point → Lock → System → System
go t p l y = record { lock = l; at = update y.at t p }

-- `lock_acquire` up to `sema_down`, or all of it for the holder.
unfoldable pub acquire_begin : Tid → System → Run System
acquire_begin t y =
    let l = y.lock in
    if is_holder l.holder t
    then ok (go t (y.at t) (record l { holder_repeat_nr = (l.holder_repeat_nr + 1) % 2 ^ 32 }) y)
    else ok (go t trying l y)

abbrev pub after_down : Tid → System → Down → Run System
after_down t y (taken s) = ok (go t downed (record (y.lock) { sem = s }) y)
after_down t y (slept s) = ok (go t sleeping (record (y.lock) { sem = s }) y)

unfoldable pub acquire_down : Tid → System → Run System
acquire_down t y = sema_down t y.lock.sem >>= after_down t y

unfoldable pub acquire_own : Tid → System → Run System
acquire_own t y = ok (go t owning (record (y.lock) { holder = some t }) y)

unfoldable pub acquire_end : Tid → System → Run System
acquire_end t y =
    assert (y.lock.holder_repeat_nr == 0)
    >> ok (go t holding (record (y.lock) { holder_repeat_nr = 1 }) y)

-- `lock_release` up to `holder = NULL`, or all of it when the lock is held more than once.
unfoldable pub release_begin : Tid → System → Run System
release_begin t y =
    let l = y.lock in
    assert (is_holder l.holder t)
    >> (if ltb 1 l.holder_repeat_nr
        then ok (go t (y.at t) (record l { holder_repeat_nr = l.holder_repeat_nr - 1 }) y)
        else assert (l.holder_repeat_nr == 1) >> ok (go t disowned (record l { holder = none }) y))

unfoldable pub release_clear : Tid → System → Run System
release_clear t y = ok (go t cleared (record (y.lock) { holder_repeat_nr = 0 }) y)

abbrev pub waking : Option Tid → (Tid → Point) → Tid → Point
waking none at = at
waking (some w) at = update at w trying

unfoldable pub release_up : Tid → System → Run System
release_up t y = sema_up y.lock.sem >>= λ r.
    ok (record { lock = record (y.lock) { sem = r.1 }; at = update (waking r.0 y.at) t outside })

-- What a thread may do next: call `lock_acquire` or `lock_release`, or go on in one of them.
pub data Action : Type 0 where
  call_acquire call_release go_on : Action

abbrev pub continue : Point → Tid → System → Option (Run System)
continue outside t y = none
continue trying t y = some (acquire_down t y)
continue sleeping t y = none
continue downed t y = some (acquire_own t y)
continue owning t y = some (acquire_end t y)
continue holding t y = none
continue disowned t y = some (release_clear t y)
continue cleared t y = some (release_up t y)

abbrev pub may_acquire : Point → Lock → Bool
may_acquire outside l = true
may_acquire trying l = false
may_acquire sleeping l = false
may_acquire downed l = false
may_acquire owning l = false
may_acquire holding l = ltb (l.holder_repeat_nr + 1) (2 ^ 32)
may_acquire disowned l = false
may_acquire cleared l = false

abbrev pub may_release : Point → Bool
may_release outside = false
may_release trying = false
may_release sleeping = false
may_release downed = false
may_release owning = false
may_release holding = true
may_release disowned = false
may_release cleared = false

-- `none` where the thread cannot take the action.
unfoldable pub act : Action → Tid → System → Option (Run System)
act call_acquire t y = if may_acquire (y.at t) y.lock then some (acquire_begin t y) else none
act call_release t y = if may_release (y.at t) then some (release_begin t y) else none
act go_on t y = continue (y.at t) t y

abbrev pub start : System
start = record { lock = lock_init; at = λ t. outside }

pub data Reachable : System → Type 0 where
  started : Reachable start
  stepped :
      {y y' : System} (a : Action) (t : Tid) → Reachable y → act a t y ≡ some (ok y') → Reachable y'
