-- ===== src/IoQueue/Fifo.antt =====
-- The ring refines a queue of at most 63 characters.
use zy_os.Base.{
  ℕ, zero, suc, ◌+◌, ◌-◌, ◌%◌, ◌<◌, ◌≡◌, refl, sym, ap, ◌∙◌, ◌⊎◌, true, false, none, some, List, [],
  ◌∷◌, ◌++◌, arith, ◌==◌, length, update, ok, panic,
}
use zy_os.IoQueue.{
  IoQueue, Tid, done, wait, lock_wait, next_pos, io_queue_init, ioq_full, ioq_empty, ioq_getchar,
  ioq_putchar,
}

-- The `n` characters from index `at` on, going round.
abbrev pub window : (ℕ → ℕ) → ℕ → ℕ → List ℕ
window buf at zero = []
window buf at (suc n) = buf at ∷ window buf ((at + 1) % 64) n

abbrev pub count : IoQueue → ℕ
count q = (q.head + 64 - q.tail) % 64

-- The characters held, oldest first.
abbrev pub contents : IoQueue → List ℕ
contents q = window q.buf q.tail (count q)

-- Both indices stay in the array.
pub record IsValid (q : IoQueue) : Type 0 where
  pub head_in : q.head < 64
  pub tail_in : q.tail < 64

pub length-window : (buf : ℕ → ℕ) (at n : ℕ) → length (window buf at n) ≡ n
length-window buf at zero = refl
length-window buf at (suc n) = ap suc (length-window buf ((at + 1) % 64) n)

window-write :
    (buf : ℕ → ℕ) (c at n i : ℕ)
    → at < 64
    → n < 64
    → i ≡ (at + n) % 64
    → window (update buf i c) at (suc n) ≡ window buf at n ++ c ∷ []
window-write buf c at zero i h m e = ground arith
window-write buf c at (suc n) i h m e =
    let first : (at == i) ≡ false = ground arith in
    ground (arith, window-write buf c ((at + 1) % 64) n i)

-- In a valid queue of fewer than 63 characters, with interrupts off, ioq_putchar succeeds: the
-- character stands behind what the queue held, the waiting consumer is woken and forgotten, and the
-- queue stays valid.
pub put_lem :
    (cur : Tid) (q : IoQueue) (c : ℕ)
    → IsValid q
    → length (contents q) < 63
    → (q' : IoQueue) × (ioq_putchar true cur q c ≡ ok (done c q.consumer q'))
      × (contents q' ≡ contents q ++ c ∷ [])
      × (q'.consumer ≡ none)
      × IsValid q'
unfolding ioq_putchar
put_lem cur q c v room =
    let n = count q in
    let short : n < 63 = omega (arith, length-window q.buf q.tail n) in
    let grown : ((q.head + 1) % 64 + 64 - q.tail) % 64 ≡ suc n = omega arith in
    let buf' = update q.buf q.head c in
    (
      record q { buf = buf'; head = (q.head + 1) % 64; consumer = none },
      ground arith,
      ap (window buf' q.tail) grown
          ∙ window-write q.buf c q.tail n q.head v.tail_in (omega arith) (omega arith),
      refl,
      record { head_in = omega arith; tail_in = v.tail_in },
    )

-- In a valid queue of 63 characters, with interrupts off, ioq_putchar changes none of them: the thread
-- waits as the producer or on the lock, or the machine halts.
pub put_full :
    (cur : Tid) (q : IoQueue) (c : ℕ)
    → IsValid q
    → length (contents q) ≡ 63
    → (ioq_putchar true cur q c ≡ panic)
      ⊎ ((q' : IoQueue) × (ioq_putchar true cur q c ≡ ok (wait q'))
          × (q'.producer ≡ some cur)
          × (contents q' ≡ contents q))
      ⊎ (ioq_putchar true cur q c ≡ ok (lock_wait q))
unfolding ioq_putchar
put_full cur q c v full =
    let n : count q ≡ 63 = omega (arith, length-window q.buf q.tail (count q)) in ground arith

-- In a valid queue that holds a character, with interrupts off, ioq_getchar succeeds with the oldest
-- one and leaves the rest, wakes and forgets the waiting producer, and keeps the queue valid.
get_lem :
    (cur : Tid) (q : IoQueue) {c : ℕ} {rest : List ℕ}
    → IsValid q
    → contents q ≡ c ∷ rest
    → (q' : IoQueue) × (ioq_getchar true cur q ≡ ok (done c q.producer q'))
      × (contents q' ≡ rest)
      × (q'.producer ≡ none)
      × IsValid q'
unfolding ioq_getchar
get_lem cur q {c} {rest} v e =
    let q' = record q { tail = (q.tail + 1) % 64; producer = none } in
    let n : count q ≡ suc (count q') =
      omega (arith, length-window q.buf q.tail (count q), ap length e) in
    let e' : window q.buf q.tail (suc (count q')) ≡ c ∷ rest =
      sym (ap (window q.buf q.tail) n) ∙ e in
    (q', ground arith, cc, refl, record { head_in = v.head_in; tail_in = omega arith })

-- In a valid queue that is empty, with interrupts off, ioq_getchar leaves it empty: the thread waits as
-- the consumer or on the lock, or the machine halts.
pub get_empty :
    (cur : Tid) (q : IoQueue)
    → IsValid q
    → contents q ≡ []
    → (ioq_getchar true cur q ≡ panic)
      ⊎ ((q' : IoQueue) × (ioq_getchar true cur q ≡ ok (wait q'))
          × (q'.consumer ≡ some cur)
          × (contents q' ≡ contents q))
      ⊎ (ioq_getchar true cur q ≡ ok (lock_wait q))
unfolding ioq_getchar
get_empty cur q v empty =
    let n : count q ≡ 0 = omega (arith, length-window q.buf q.tail (count q), ap length empty) in
    ground arith

-- With interrupts off the two tests say how many characters are held: `ioq_full` that there are 63,
-- and `ioq_empty` that there are none.
pub full_empty_lem :
    (q : IoQueue)
    → IsValid q
    → (ioq_full true q ≡ ok (length (contents q) == 63))
      × (ioq_empty true q ≡ ok (length (contents q) == 0))
unfolding ioq_full ioq_empty next_pos
full_empty_lem q v = (
  ground (arith, length-window q.buf q.tail (count q)),
  ground (arith, length-window q.buf q.tail (count q)),
)

-- A queue that was initialised is valid and holds nothing.
pub init_lem : (q : IoQueue) → IsValid (io_queue_init q) × (contents (io_queue_init q) ≡ [])
unfolding io_queue_init
init_lem q = (omega arith, refl)
