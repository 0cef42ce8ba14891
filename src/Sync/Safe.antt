-- ===== src/Sync/Safe.antt =====
-- Whatever the order of the steps: one owner at a time, no assertion fails, and no wake-up is lost.
use zy_os.Base.{
  ◌≡◌, ◌≢◌, ◌⊎◌, inl, inr, refl, ap, subst, ◌∙◌, true, Option, some, arith, Bool-cases, Run, panic,
}
use zy_os.Thread.{Tid, has}
use zy_os.Sync.{
  Point, outside, trying, sleeping, downed, owning, holding, disowned, cleared, System, Action,
  call_acquire, call_release, go_on, may_acquire, may_release, continue, act, acquire_begin,
  release_begin, Reachable, started, stepped,
}
use zy_os.Sync.Inv.{busy, is_sleeping, Inv, start-Inv, owner_of}
use zy_os.Sync.Steps.{
  Kept, acquire_begin-Kept, acquire_again-Kept, acquire_down-Kept, acquire_own-Kept,
  acquire_end-Kept, release_begin-Kept, release_clear-Kept, release_up-Kept,
}

acquire-Kept :
    (p : Point) (y : System) (t : Tid)
    → Inv y
    → y.at t ≡ p
    → may_acquire p y.lock ≡ true
    → Kept (acquire_begin t y)
acquire-Kept outside y t i e m = acquire_begin-Kept y t i e
acquire-Kept trying y t i e m = absurd (ground arith)
acquire-Kept sleeping y t i e m = absurd (ground arith)
acquire-Kept downed y t i e m = absurd (ground arith)
acquire-Kept owning y t i e m = absurd (ground arith)
acquire-Kept holding y t i e m = acquire_again-Kept y t i e (ground arith)
acquire-Kept disowned y t i e m = absurd (ground arith)
acquire-Kept cleared y t i e m = absurd (ground arith)

release-Kept :
    (p : Point) (y : System) (t : Tid)
    → Inv y
    → y.at t ≡ p
    → may_release p ≡ true
    → Kept (release_begin t y)
release-Kept outside y t i e m = absurd (ground arith)
release-Kept trying y t i e m = absurd (ground arith)
release-Kept sleeping y t i e m = absurd (ground arith)
release-Kept downed y t i e m = absurd (ground arith)
release-Kept owning y t i e m = absurd (ground arith)
release-Kept holding y t i e m = release_begin-Kept y t i e
release-Kept disowned y t i e m = absurd (ground arith)
release-Kept cleared y t i e m = absurd (ground arith)

abbrev of_some : {r r' : Run System} → Kept r' → Option.some r' ≡ some r → Kept r
of_some {r} {r'} k e = subst Kept (ground arith) k

continue-Kept :
    (p : Point) (y : System) (t : Tid) {r : Run System}
    → Inv y
    → y.at t ≡ p
    → continue p t y ≡ some r
    → Kept r
continue-Kept outside y t i e c = absurd (ground arith)
continue-Kept trying y t i e c = of_some (acquire_down-Kept y t i e) c
continue-Kept sleeping y t i e c = absurd (ground arith)
continue-Kept downed y t i e c = of_some (acquire_own-Kept y t i e) c
continue-Kept owning y t i e c = of_some (acquire_end-Kept y t i e) c
continue-Kept holding y t i e c = absurd (ground arith)
continue-Kept disowned y t i e c = of_some (release_clear-Kept y t i e) c
continue-Kept cleared y t i e c = of_some (release_up-Kept y t i e) c

pub act-Kept :
    (a : Action) (t : Tid) (y : System) {r : Run System} → Inv y → act a t y ≡ some r → Kept r
unfolding act
act-Kept call_acquire t y {r} i c = elim (Bool-cases (may_acquire (y.at t) y.lock)) [
  | inl m ↦
      let c' : Option.some (acquire_begin t y) ≡ some r = ground arith in
      of_some (acquire-Kept (y.at t) y t i refl m) c'
  | inr n ↦ absurd (ground arith)
]
act-Kept call_release t y {r} i c = elim (Bool-cases (may_release (y.at t))) [
  | inl m ↦
      let c' : Option.some (release_begin t y) ≡ some r = ground arith in
      of_some (release-Kept (y.at t) y t i refl m) c'
  | inr n ↦ absurd (ground arith)
]
act-Kept go_on t y i c = continue-Kept (y.at t) y t i refl c

pub Reachable-Inv : {y : System} → Reachable y → Inv y
Reachable-Inv started = start-Inv
Reachable-Inv (stepped {y} {y'} a t r e) =
    let k = act-Kept a t y (Reachable-Inv r) e in
    let same : k.next ≡ y' = ground (arith, k.result) in subst Inv same k.inv

-- In every state that threads reach from a fresh lock by calls of lock_acquire and lock_release in any
-- interleaving, two threads that hold the lock are the same thread, and the lock's holder is that
-- thread.
pub mutual_exclusion :
    {y : System} (t u : Tid)
    → Reachable y
    → y.at t ≡ holding
    → y.at u ≡ holding
    → (t ≡ u) × (y.lock.holder ≡ some t)
mutual_exclusion {y} t u r e f =
    let i = Reachable-Inv r in
    let o = owner_of y t i.mutex (ap busy e) in
    (ground (arith, o.alone u, ap busy f), ground (arith, o.holder, e))

-- In every such reachable state, no step that a thread can take in lock_acquire or lock_release fails
-- an assertion.
pub act-ne-panic : {y : System} (a : Action) (t : Tid) → Reachable y → act a t y ≢ some panic
act-ne-panic {y} a t r e = let k = act-Kept a t y (Reachable-Inv r) e in ground (arith, k.result)

-- In every such reachable state where a thread sleeps in sema_down, some thread is between the end of
-- sema_down and the end of sema_up, or some thread is about to try sema_down.
pub no_lost_wakeup :
    {y : System} (t : Tid)
    → Reachable y
    → y.at t ≡ sleeping
    → ((u : Tid) × (busy (y.at u) ≡ true)) ⊎ ((u : Tid) × (y.at u ≡ trying))
no_lost_wakeup {y} t r e =
    let i = Reachable-Inv r in
    let waits : has t y.lock.sem.waiters ≡ true = i.queue.asleep t ∙ ap is_sleeping e in
    elim i.awake [
      | inl empty ↦ absurd (ground (arith, subst (λ z. has t z ≡ true) empty waits))
      | inr (inl taken) ↦ elim i.mutex [
        | inl f ↦ absurd (ground (arith, f.value))
        | inr (u, o) ↦ inl (u, o.here)
      ]
      | inr (inr tries) ↦ inr tries
    ]
