-- ===== src/Sync/Inv.antt =====
-- What holds of a lock and its threads between any two steps.
use zy_os.Base.{
  ℕ, ◌≡◌, ◌≢◌, ◌⊎◌, inl, inr, refl, sym, ap, subst, ◌∙◌, Bool, true, false, Option, none, some, [],
  ◌==◌, arith, ltb, update,
}
use zy_os.Thread.{Tid, has}
use zy_os.Thread.Valid.{Unique}
use zy_os.Sync.{
  Lock, lock_init, sema_init, Point, outside, trying, sleeping, downed, owning, holding, disowned,
  cleared, System, go, start,
}

-- Behind `sema_down` and in front of the end of `sema_up`.
abbrev pub busy : Point → Bool
busy outside = false
busy trying = false
busy sleeping = false
busy downed = true
busy owning = true
busy holding = true
busy disowned = true
busy cleared = true

abbrev pub is_sleeping : Point → Bool
is_sleeping outside = false
is_sleeping trying = false
is_sleeping sleeping = true
is_sleeping downed = false
is_sleeping owning = false
is_sleeping holding = false
is_sleeping disowned = false
is_sleeping cleared = false

-- The lock's fields, by the point where its owner is.
abbrev pub expected_holder : Point → Tid → Option Tid
expected_holder outside t = none
expected_holder trying t = none
expected_holder sleeping t = none
expected_holder downed t = none
expected_holder owning t = some t
expected_holder holding t = some t
expected_holder disowned t = none
expected_holder cleared t = none

abbrev pub repeat_ok : Point → ℕ → Bool
repeat_ok outside n = n == 0
repeat_ok trying n = n == 0
repeat_ok sleeping n = n == 0
repeat_ok downed n = n == 0
repeat_ok owning n = n == 0
repeat_ok holding n = ltb 0 n
repeat_ok disowned n = true
repeat_ok cleared n = n == 0

pub record Free (y : System) : Type 0 where
  pub value : y.lock.sem.value ≡ 1
  pub holder : y.lock.holder ≡ none
  pub repeats : y.lock.holder_repeat_nr ≡ 0
  pub nobody : (t : Tid) → busy (y.at t) ≡ false

pub record Owned (t : Tid) (y : System) : Type 0 where
  pub value : y.lock.sem.value ≡ 0
  pub here : busy (y.at t) ≡ true
  pub alone : (u : Tid) → u ≢ t → busy (y.at u) ≡ false
  pub holder : y.lock.holder ≡ expected_holder (y.at t) t
  pub repeats : repeat_ok (y.at t) y.lock.holder_repeat_nr ≡ true

abbrev pub Mutex : System → Type 0
Mutex y = Free y ⊎ ((t : Tid) × Owned t y)

pub record Queue (y : System) : Type 0 where
  pub unique : Unique y.lock.sem.waiters
  pub asleep : (t : Tid) → has t y.lock.sem.waiters ≡ is_sleeping (y.at t)

-- Nobody sleeps for good: somebody has the lock, or is about to try for it.
abbrev pub Awake : System → Type 0
Awake y = (y.lock.sem.waiters ≡ []) ⊎ (y.lock.sem.value ≡ 0) ⊎ ((t : Tid) × (y.at t ≡ trying))

pub record Inv (y : System) : Type 0 where
  pub mutex : Mutex y
  pub queue : Queue y
  pub awake : Awake y

pub start-Inv : Inv start
unfolding lock_init sema_init
start-Inv = record {
  mutex = inl (record { value = refl; holder = refl; repeats = refl; nobody = λ t. refl });
  queue = record { unique = tt; asleep = λ t. refl };
  awake = inl refl;
}

pub owner_of : (y : System) (t : Tid) → Mutex y → busy (y.at t) ≡ true → Owned t y
owner_of y t (inl f) b = absurd (ground (arith, f.nobody t))
owner_of y t (inr (u, o)) b =
    let same : u ≡ t = ground (arith, o.alone t) in subst (λ z. Owned z y) same o

-- A thread outside of the lock moves, and another that is inside does not notice.
pub move_idle :
    (y : System) (t : Tid) (p : Point) (l : Lock)
    → Mutex y
    → busy (y.at t) ≡ false
    → busy p ≡ false
    → l.holder ≡ y.lock.holder
    → l.holder_repeat_nr ≡ y.lock.holder_repeat_nr
    → l.sem.value ≡ y.lock.sem.value
    → Mutex (go t p l y)
move_idle y t p l (inl f) b b' h r v = inl (record {
  value = v ∙ f.value;
  holder = h ∙ f.holder;
  repeats = r ∙ f.repeats;
  nobody = λ u. ground (arith, f.nobody u);
})
move_idle y t p l (inr (u, o)) b b' h r v =
    let ne : u ≢ t = λ e. ground (arith, o.here, subst (λ z. busy (y.at z) ≡ false) (sym e) b) in
    let at : update y.at t p u ≡ y.at u = ground arith in
    inr (
      u,
      record {
        value = v ∙ o.value;
        here = ap busy at ∙ o.here;
        alone = λ w n. ground (arith, o.alone w n);
        holder = h ∙ o.holder ∙ sym (ap (λ z. expected_holder z u) at);
        repeats =
            subst (λ z. repeat_ok z l.holder_repeat_nr ≡ true) (sym at)
              (subst (λ z. repeat_ok (y.at u) z ≡ true) (sym r) o.repeats);
      },
    )

-- The owner moves on.
pub move_owner :
    (y : System) (t : Tid) (p : Point) (l : Lock)
    → Owned t y
    → busy p ≡ true
    → l.sem.value ≡ 0
    → l.holder ≡ expected_holder p t
    → repeat_ok p l.holder_repeat_nr ≡ true
    → Owned t (go t p l y)
move_owner y t p l o b v h r =
    let at : update y.at t p t ≡ p = ground arith in
    record {
      value = v;
      here = ap busy at ∙ b;
      alone = λ u ne. ground (arith, o.alone u ne);
      holder = h ∙ sym (ap (λ z. expected_holder z t) at);
      repeats = subst (λ z. repeat_ok z l.holder_repeat_nr ≡ true) (sym at) r;
    }

pub move-Queue :
    (y : System) (t : Tid) (p : Point) (l : Lock)
    → Queue y
    → is_sleeping (y.at t) ≡ false
    → is_sleeping p ≡ false
    → l.sem.waiters ≡ y.lock.sem.waiters
    → Queue (go t p l y)
move-Queue y t p l q a b w = record {
  unique = subst Unique (sym w) q.unique;
  asleep = λ u. ap (has u) w ∙ ground (arith, q.asleep u);
}
