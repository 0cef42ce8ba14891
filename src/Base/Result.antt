-- ===== src/Base/Result.antt =====
-- The outcome of kernel code with `ASSERT` and `PANIC` (kernel/debug.h), which halt the machine.
use mathlib.Core.Path.{◌≡◌, refl}
use mathlib.Core.Bool.{Bool, true, false}

-- `panic` is a call of `panic_spin`, which never returns.
pub data Run {ℓ} (V : Type ℓ) : Type ℓ where
  panic : Run V
  ok : V → Run V

-- `ASSERT(c)`, as compiled without `NDEBUG`.
abbrev pub assert : Bool → Run (Unit {0})
assert false = panic
assert true = ok tt

infixl 5 ◌>>=◌
abbrev pub ◌>>=◌ {ℓ κ} : {V : Type ℓ} {W : Type κ} → Run V → (V → Run W) → Run W
panic >>= next = panic
ok result >>= next = next result

infixl 5 ◌>>◌
abbrev pub ◌>>◌ {κ} : {W : Type κ} → Run (Unit {0}) → Run W → Run W
first >> next = first >>= λ done. next

-- Inversion of a successful sequence.
pub >>=-eq-ok {ℓ κ} :
    {V : Type ℓ} {W : Type κ} (m : Run V) (f : V → Run W) {b : W}
    → (m >>= f) ≡ ok b
    → (a : V) × (m ≡ ok a) × (f a ≡ ok b)
>>=-eq-ok (ok a) f h = (a, refl, h)
>>=-eq-ok panic f h = cc
