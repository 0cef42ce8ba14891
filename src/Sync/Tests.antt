-- ===== src/Sync/Tests.antt =====
-- Two threads at a lock: the first holds it, and the second waits.
use zy_os.Base.{ℕ, ◌≡◌, ◌≢◌, ◌⊎◌, refl, true, Option, none, some, Run, ok, panic}
use zy_os.Sync.{
  System, sleeping, holding, trying, Action, call_acquire, call_release, go_on, act, start,
  Reachable, started, stepped, lock_init, sema_init, acquire_begin, acquire_down, acquire_own,
  acquire_end, sema_down,
}
use zy_os.Sync.Inv.{busy}
use zy_os.Sync.Safe.{mutual_exclusion, act-ne-panic, no_lost_wakeup}

abbrev after : Option (Run System) → System
after none = start
after (some panic) = start
after (some (ok y)) = y

abbrev step : Action → ℕ → System → System
step a t y = after (act a t y)

abbrev asked : System
asked = step call_acquire 1 start

abbrev down : System
down = step go_on 1 asked

abbrev owner : System
owner = step go_on 1 down

abbrev held : System
held = step go_on 1 owner

abbrev asked_again : System
asked_again = step call_acquire 2 held

abbrev waits : System
waits = step go_on 2 asked_again

waits-Reachable : Reachable waits
unfolding act acquire_begin acquire_down acquire_own acquire_end sema_down lock_init sema_init
waits-Reachable =
    let a : Reachable asked = stepped call_acquire 1 started refl in
    let b : Reachable down = stepped go_on 1 a refl in
    let c : Reachable owner = stepped go_on 1 b refl in
    let d : Reachable held = stepped go_on 1 c refl in
    let e : Reachable asked_again = stepped call_acquire 2 d refl in stepped go_on 2 e refl

first_holds : waits.at 1 ≡ holding
unfolding act acquire_begin acquire_down acquire_own acquire_end sema_down lock_init sema_init
first_holds = refl

second_sleeps : waits.at 2 ≡ sleeping
unfolding act acquire_begin acquire_down acquire_own acquire_end sema_down lock_init sema_init
second_sleeps = refl

mutual_exclusion_example : (◌≡◌ {A = ℕ} 1 1) × (waits.lock.holder ≡ some 1)
mutual_exclusion_example = mutual_exclusion 1 1 waits-Reachable first_holds first_holds

act-ne-panic_example : act call_release 1 waits ≢ some panic
act-ne-panic_example = act-ne-panic call_release 1 waits-Reachable

no_lost_wakeup_example : ((u : ℕ) × (busy (waits.at u) ≡ true)) ⊎ ((u : ℕ) × (waits.at u ≡ trying))
no_lost_wakeup_example = no_lost_wakeup 2 waits-Reachable second_sleeps
