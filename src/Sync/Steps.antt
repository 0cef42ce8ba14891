-- ===== src/Sync/Steps.antt =====
-- Each step of `lock_acquire` and `lock_release` keeps the invariant and fails no assertion.
use zy_os.Base.{
  ◌+◌, ◌-◌, ◌%◌, ◌^◌, ◌<◌, ◌≡◌, ◌≢◌, ◌⊎◌, inl, inr, refl, sym, ap, subst, ◌∙◌, true, false, none,
  some, List, [], ◌∷◌, ◌++◌, arith, ltb, update, Bool-cases, Run, ok,
}
use zy_os.Thread.{Tid, has}
use zy_os.Thread.Valid.{Unique, has-append, Unique-append}
use zy_os.Sync.{
  Lock, Point, outside, trying, sleeping, downed, owning, holding, disowned, cleared, System, go,
  is_holder, acquire_begin, acquire_down, acquire_own, acquire_end, release_begin, release_clear,
  release_up, sema_down, sema_up,
}
use zy_os.Sync.Inv.{
  busy, is_sleeping, Free, Owned, Awake, Inv, owner_of, move_idle, move_owner, move-Queue,
  expected_holder, repeat_ok,
}

pub record Kept (r : Run System) : Type 0 where
  pub next : System
  pub result : r ≡ ok next
  pub inv : Inv next

-- Where neither the value nor the queue changes, and the thread was not about to try.
move-Awake :
    (y : System) (t : Tid) (p : Point) (l : Lock)
    → Awake y
    → y.at t ≢ trying
    → l.sem ≡ y.lock.sem
    → Awake (go t p l y)
move-Awake y t p l (inl e) n s = inl (ap (λ z. z.waiters) s ∙ e)
move-Awake y t p l (inr (inl e)) n s = inr (inl (ap (λ z. z.value) s ∙ e))
move-Awake y t p l (inr (inr (u, e))) n s =
    let ne : u ≢ t = λ q. n (subst (λ z. y.at z ≡ trying) q e) in inr (inr (u, ground arith))

-- A step of the owner that leaves the semaphore alone.
owner_step :
    (y : System) (t : Tid) (p : Point) (l : Lock)
    → Inv y
    → busy (y.at t) ≡ true
    → busy p ≡ true
    → l.sem ≡ y.lock.sem
    → l.holder ≡ expected_holder p t
    → repeat_ok p l.holder_repeat_nr ≡ true
    → Inv (go t p l y)
owner_step y t p l i b b' s h r =
    let o = owner_of y t i.mutex b in
    record {
      mutex = inr (t, move_owner y t p l o b' (ap (λ z. z.value) s ∙ o.value) h r);
      queue = move-Queue y t p l i.queue (ground arith) (ground arith) (ap (λ z. z.waiters) s);
      awake = inr (inl (ap (λ z. z.value) s ∙ o.value));
    }

not_holder :
    (y : System) (t : Tid) → Inv y → busy (y.at t) ≡ false → is_holder y.lock.holder t ≡ false
not_holder y t i b = elim i.mutex [
  | inl f ↦ ground (arith, f.holder)
  | inr (u, o) ↦
      let ne : u ≢ t = λ e. ground (arith, o.here, subst (λ z. busy (y.at z) ≡ false) (sym e) b) in
      ground (arith, o.holder)
]

pub acquire_begin-Kept :
    (y : System) (t : Tid) → Inv y → y.at t ≡ outside → Kept (acquire_begin t y)
unfolding acquire_begin
acquire_begin-Kept y t i e =
    let b : busy (y.at t) ≡ false = ap busy e in
    record {
      next = go t trying y.lock y;
      result = ground (arith, not_holder y t i b);
      inv = record {
        mutex = move_idle y t trying y.lock i.mutex b refl refl refl refl;
        queue = move-Queue y t trying y.lock i.queue (ap is_sleeping e) refl refl;
        awake = inr (inr (t, ground arith));
      };
    }

pub acquire_again-Kept :
    (y : System) (t : Tid)
    → Inv y
    → y.at t ≡ holding
    → y.lock.holder_repeat_nr + 1 < 2 ^ 32
    → Kept (acquire_begin t y)
unfolding acquire_begin
acquire_again-Kept y t i e h =
    let l = record (y.lock) { holder_repeat_nr = (y.lock.holder_repeat_nr + 1) % 2 ^ 32 } in
    let b : busy (y.at t) ≡ true = ap busy e in
    let o = owner_of y t i.mutex b in
    let own : y.lock.holder ≡ some t = o.holder ∙ ap (λ z. expected_holder z t) e in
    record {
      next = go t (y.at t) l y;
      result = ground (arith, own);
      inv = owner_step y t (y.at t) l i b b refl o.holder (ground arith);
    }

pub acquire_down-Kept : (y : System) (t : Tid) → Inv y → y.at t ≡ trying → Kept (acquire_down t y)
unfolding acquire_down sema_down
acquire_down-Kept y t i e =
    let b : busy (y.at t) ≡ false = ap busy e in
    let s = y.lock.sem in
    let out : has t s.waiters ≡ false = i.queue.asleep t ∙ ap is_sleeping e in
    elim i.mutex [
      | inl f ↦
          let l = record (y.lock) { sem = record s { value = (s.value + 255) % 256 } } in
          let zeroed : l.sem.value ≡ 0 = omega (arith, f.value) in
          let at : update y.at t downed t ≡ downed = ground arith in
          record {
            next = go t downed l y;
            result = ground (arith, f.value);
            inv = record {
              mutex = inr (
                t,
                record {
                  value = zeroed;
                  here = ap busy at;
                  alone = λ u ne. ground (arith, f.nobody u);
                  holder = f.holder ∙ sym (ap (λ z. expected_holder z t) at);
                  repeats = ground (arith, f.repeats);
                },
              );
              queue = move-Queue y t downed l i.queue (ap is_sleeping e) refl refl;
              awake = inr (inl zeroed);
            };
          }
      | inr (u, o) ↦
          let l = record (y.lock) { sem = record s { waiters = s.waiters ++ t ∷ [] } } in
          record {
            next = go t sleeping l y;
            result = ground (arith, o.value, out);
            inv = record {
              mutex = move_idle y t sleeping l i.mutex b refl refl refl refl;
              queue = record {
                unique = Unique-append t s.waiters i.queue.unique out;
                asleep = λ w. ground (arith, has-append w t s.waiters, i.queue.asleep w);
              };
              awake = inr (inl o.value);
            };
          }
    ]

pub acquire_own-Kept : (y : System) (t : Tid) → Inv y → y.at t ≡ downed → Kept (acquire_own t y)
unfolding acquire_own
acquire_own-Kept y t i e =
    let b : busy (y.at t) ≡ true = ap busy e in
    let o = owner_of y t i.mutex b in
    let l = record (y.lock) { holder = some t } in
    record {
      next = go t owning l y;
      result = refl;
      inv = owner_step y t owning l i b refl refl refl (ground (arith, o.repeats));
    }

pub acquire_end-Kept : (y : System) (t : Tid) → Inv y → y.at t ≡ owning → Kept (acquire_end t y)
unfolding acquire_end
acquire_end-Kept y t i e =
    let b : busy (y.at t) ≡ true = ap busy e in
    let o = owner_of y t i.mutex b in
    let l = record (y.lock) { holder_repeat_nr = 1 } in
    record {
      next = go t holding l y;
      result = ground (arith, o.repeats);
      inv =
          owner_step y t holding l i b refl refl (o.holder ∙ ap (λ z. expected_holder z t) e) refl;
    }

pub release_begin-Kept :
    (y : System) (t : Tid) → Inv y → y.at t ≡ holding → Kept (release_begin t y)
unfolding release_begin
release_begin-Kept y t i e =
    let b : busy (y.at t) ≡ true = ap busy e in
    let o = owner_of y t i.mutex b in
    let own : y.lock.holder ≡ some t = o.holder ∙ ap (λ z. expected_holder z t) e in
    let some_times = subst (λ z. repeat_ok z y.lock.holder_repeat_nr ≡ true) e o.repeats in
    elim (Bool-cases (ltb 1 y.lock.holder_repeat_nr)) [
      | inl more ↦
          let l = record (y.lock) { holder_repeat_nr = y.lock.holder_repeat_nr - 1 } in
          record {
            next = go t (y.at t) l y;
            result = ground (arith, own);
            inv = owner_step y t (y.at t) l i b b refl o.holder (ground arith);
          }
      | inr last ↦
          let l = record (y.lock) { holder = none } in
          record {
            next = go t disowned l y;
            result = ground (arith, own);
            inv = owner_step y t disowned l i b refl refl refl refl;
          }
    ]

pub release_clear-Kept :
    (y : System) (t : Tid) → Inv y → y.at t ≡ disowned → Kept (release_clear t y)
unfolding release_clear
release_clear-Kept y t i e =
    let b : busy (y.at t) ≡ true = ap busy e in
    let o = owner_of y t i.mutex b in
    let l = record (y.lock) { holder_repeat_nr = 0 } in
    record {
      next = go t cleared l y;
      result = refl;
      inv =
          owner_step y t cleared l i b refl refl (o.holder ∙ ap (λ z. expected_holder z t) e) refl;
    }

released : (y : System) (t : Tid) (at : Tid → Point) (ws : List Tid) → System
released y t at ws = record {
  lock = record (y.lock) { sem = record { value = 1; waiters = ws } };
  at = update at t outside;
}

-- The end of `sema_up`, where `at` differs from the points before in a thread that was not busy.
released-Free :
    (y : System) (t : Tid) (at : Tid → Point) (ws : List Tid)
    → Owned t y
    → y.at t ≡ cleared
    → ((u : Tid) → u ≢ t → busy (at u) ≡ false)
    → Free (released y t at ws)
unfolding released
released-Free y t at ws o e others = record {
  value = refl;
  holder = o.holder ∙ ap (λ z. expected_holder z t) e;
  repeats = ground (arith, subst (λ z. repeat_ok z y.lock.holder_repeat_nr ≡ true) e o.repeats);
  nobody = λ u. ground (arith, others u);
}

waiters_cases : (xs : List Tid) → (xs ≡ []) ⊎ ((w : Tid) × (ws : List Tid) × (xs ≡ w ∷ ws))
waiters_cases [] = inl refl
waiters_cases (x ∷ xs) = inr (x, xs, refl)

pub release_up-Kept : (y : System) (t : Tid) → Inv y → y.at t ≡ cleared → Kept (release_up t y)
unfolding release_up sema_up released
release_up-Kept y t i e =
    let o = owner_of y t i.mutex (ap busy e) in
    let awake_t = i.queue.asleep t ∙ ap is_sleeping e in
    elim (waiters_cases y.lock.sem.waiters) [
      | inl empty ↦ record {
        next = released y t y.at [];
        result = ground (arith, o.value, empty);
        inv = record {
          mutex = inl (released-Free y t y.at [] o e o.alone);
          queue = record { unique = tt; asleep = λ u. ground (arith, i.queue.asleep u, empty) };
          awake = inl refl;
        };
      }
      | inr (w, ws, some_wait) ↦
          let u = subst Unique some_wait i.queue.unique in
          let asleep : (v : Tid) → has v (w ∷ ws) ≡ is_sleeping (y.at v) =
            λ v. subst (λ z. has v z ≡ is_sleeping (y.at v)) some_wait (i.queue.asleep v) in
          let ne : w ≢ t = λ q. ground (arith, asleep t, awake_t, some_wait) in
          record {
            next = released y t (update y.at w trying) ws;
            result = ground (arith, o.value, some_wait);
            inv = record {
              mutex = inl (
                  released-Free y t (update y.at w trying) ws o e
                    (λ v n. ground (arith, o.alone v)));
              queue = record { unique = u.1; asleep = λ v. ground (arith, asleep v, u.0, e) };
              awake = inr (inr (w, ground arith));
            };
          }
    ]
