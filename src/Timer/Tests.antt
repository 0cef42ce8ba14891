-- ===== src/Timer/Tests.antt =====
-- The clock at four threads.
use zy_os.Base.{◌≡◌, refl, [], ◌∷◌, ok}
use zy_os.Thread.Tests.{four, four-IsValid}
use zy_os.Thread.Valid.{IsValid}
use zy_os.Timer.{Clock}
use zy_os.Timer.Quantum.{fires, quantum_lem}

abbrev clock : Clock
clock = record { sched = four; ticks = 100 }

quantum_lem_example :
    (c' : Clock) × (fires 3 clock ≡ ok c')
    × (c'.sched.current ∷ c'.sched.ready ≡ 2 ∷ 3 ∷ 1 ∷ [])
    × IsValid c'.sched
quantum_lem_example = quantum_lem 2 clock four-IsValid refl refl refl
