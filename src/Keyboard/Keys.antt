-- ===== src/Keyboard/Keys.antt =====
-- What a key does: the buffer, the case of letters, and the keys that are held.
use zy_os.Base.{
  ℕ, ◌-◌, ◌<◌, ◌≡◌, ◌≢◌, ◌⊎◌, inl, inr, refl, sym, ap, subst, ◌∙◌, bit_and, bit_or, Bool, true,
  false, not, ◌&&◌, ◌||◌, Option, none, [], ◌∷◌, ◌++◌, ◌==◌, ltb, leb, if◌then◌else◌, get_or,
  length, arith, Bool-cases, Run, ok,
}
use zy_os.Base.Bytes.{every_below, every_below_sound}
use zy_os.IoQueue.{Tid, IoQueue, ioq_full}
use zy_os.IoQueue.Fifo.{contents, count, length-window, put_lem, full_empty_lem}
use zy_os.IoQueue.Fifo as Fifo
use zy_os.Keyboard.{
  Kbd, Handled, handled, keymap, with_shift, key_char, key_up, control_down, key_down,
  intr_keyboard_handler,
}

abbrev pub lower : ℕ → ℕ
lower code = (get_or keymap code (0, 0)).0

abbrev pub is_letter : ℕ → Bool
is_letter c = leb 97 c && leb c 122

abbrev pub xor : Bool → Bool → Bool
xor true b = not b
xor false b = b

-- What a call of the handler may leave: a valid buffer, with at most one character more.
pub record Pressed (k : Kbd) (r : Run Handled) : Type 0 where
  pub next : Kbd
  pub woken : Option Tid
  pub result : r ≡ ok (handled woken next)
  pub valid : Fifo.IsValid next.kbd_buf
  pub typed :
      (contents next.kbd_buf ≡ contents k.kbd_buf)
      ⊎ ((c : ℕ) × (contents next.kbd_buf ≡ contents k.kbd_buf ++ c ∷ []))

quiet :
    (k k' : Kbd) (r : Run Handled)
    → Fifo.IsValid k.kbd_buf
    → r ≡ ok (handled none k')
    → k'.kbd_buf ≡ k.kbd_buf
    → Pressed k r
quiet k k' r v e s = record {
  next = k';
  woken = none;
  result = e;
  valid = subst Fifo.IsValid (sym s) v;
  typed = inl (ap (λ q. contents q) s);
}

key_up-buf : (c : ℕ) (k : Kbd) → (key_up c k).kbd_buf ≡ k.kbd_buf
unfolding key_up
key_up-buf c k = ground arith

control_down-buf : (c : ℕ) (k : Kbd) → (control_down c k).kbd_buf ≡ k.kbd_buf
unfolding control_down
control_down-buf c k = ground arith

length-full :
    (q : IoQueue) → Fifo.IsValid q → (length (contents q) ≡ 63) ⊎ (length (contents q) < 63)
length-full q v = ground (arith, length-window q.buf q.tail (count q))

key_down-none :
    (cur : Tid) (code : ℕ) (k : Kbd)
    → (key_char code k.shift_status k.caps_lock_status == 0) ≡ true
    → key_down cur code k ≡ ok (handled none (control_down (bit_and code 0xff) k))
unfolding key_down
key_down-none cur code k e = ground arith

key_down_full :
    (cur : Tid) (code : ℕ) (k : Kbd)
    → Fifo.IsValid k.kbd_buf
    → (key_char code k.shift_status k.caps_lock_status == 0) ≡ false
    → length (contents k.kbd_buf) ≡ 63
    → key_down cur code k ≡ ok (handled none k)
unfolding key_down
key_down_full cur code k v e full =
    let full' : ioq_full true k.kbd_buf ≡ ok true =
      (full_empty_lem k.kbd_buf v).0 ∙ ap ok (ground arith) in
    ground arith

-- A key with a character, where the buffer has room.
pub key_down-typed :
    (cur : Tid) (code : ℕ) (k : Kbd)
    → Fifo.IsValid k.kbd_buf
    → length (contents k.kbd_buf) < 63
    → key_char code k.shift_status k.caps_lock_status ≢ 0
    → (q : IoQueue) × (key_down cur code k
        ≡ ok (handled k.kbd_buf.consumer (record k { kbd_buf = q })))
      × (contents q ≡ contents k.kbd_buf ++ key_char code k.shift_status k.caps_lock_status ∷ [])
      × Fifo.IsValid q
unfolding key_down
key_down-typed cur code k v h ne =
    let c = key_char code k.shift_status k.caps_lock_status in
    let (q, put, holds, _, v') = put_lem cur k.kbd_buf c v h in
    let room : ioq_full true k.kbd_buf ≡ ok false =
      (full_empty_lem k.kbd_buf v).0 ∙ ap ok (ground arith) in
    (q, ground (arith, room, put), holds, v')

key_down-Pressed :
    (cur : Tid) (code : ℕ) (k : Kbd) → Fifo.IsValid k.kbd_buf → Pressed k (key_down cur code k)
key_down-Pressed cur code k v =
    let c = key_char code k.shift_status k.caps_lock_status in
    elim (Bool-cases (c == 0)) [
      | inl no_char ↦
          quiet k (control_down (bit_and code 0xff) k) (key_down cur code k) v
            (key_down-none cur code k no_char) (control_down-buf (bit_and code 0xff) k)
      | inr char ↦ elim (length-full k.kbd_buf v) [
        | inl full ↦ quiet k k (key_down cur code k) v (key_down_full cur code k v char full) refl
        | inr room ↦
            let (q, run, holds, v') = key_down-typed cur code k v room (ground arith) in
            record {
              next = record k { kbd_buf = q };
              woken = k.kbd_buf.consumer;
              result = run;
              valid = v';
              typed = inr (c, holds);
            }
      ]
    ]

-- For every byte from the keyboard and a valid buffer the handler returns without blocking or halting,
-- leaves a valid buffer, and adds at most one character to it.
pub handler-Pressed :
    (cur : Tid) (inb : ℕ) (k : Kbd)
    → Fifo.IsValid k.kbd_buf
    → Pressed k (intr_keyboard_handler cur inb k)
unfolding intr_keyboard_handler
handler-Pressed cur inb k v =
    let k1 = record k { ext_scan_code = false } in
    let code = if k.ext_scan_code then bit_or 0xe000 inb else inb in
    let up = bit_and code 0xff7f in
    let down = key_down-Pressed cur code k1 v in
    elim (Bool-cases (inb == 0xe0)) [
      | inl prefix ↦
          quiet k (record k { ext_scan_code = true }) (intr_keyboard_handler cur inb k) v
            (ground arith) refl
      | inr key ↦ elim (Bool-cases (bit_and code 0x80 == 0)) [
        | inr break ↦
            quiet k (key_up up k1) (intr_keyboard_handler cur inb k) v (ground arith)
              (key_up-buf up k1)
        | inl make ↦
            elim (Bool-cases ((ltb 0 code && ltb code 0x3b) || code == 0xe038 || code == 0xe01d)) [
              | inl known ↦
                  let same : intr_keyboard_handler cur inb k ≡ key_down cur code k1 =
                    ground arith in
                  record {
                    next = down.next;
                    woken = down.woken;
                    result = same ∙ down.result;
                    valid = down.valid;
                    typed = down.typed;
                  }
              | inr other ↦ quiet k k1 (intr_keyboard_handler cur inb k) v (ground arith) refl
            ]
      ]
    ]

eqb : Bool → Bool → Bool
eqb true b = b
eqb false b = not b

case_ok : ℕ → Bool → Bool → Bool
unfolding keymap key_char with_shift
case_ok code s c =
    not (is_letter (lower code))
    || key_char code s c == (if xor s c then lower code - 32 else lower code)

case_table :
    every_below 59 (λ code.
      case_ok code true true
      && case_ok code true false
      && case_ok code false true
      && case_ok code false false)
    ≡ true
unfolding every_below case_ok
case_table = refl

case_row : (code : ℕ) (s c : Bool) → code < 59 → case_ok code s c ≡ true
case_row code true true h = ground (arith, every_below_sound 59 _ code case_table h)
case_row code true false h = ground (arith, every_below_sound 59 _ code case_table h)
case_row code false true h = ground (arith, every_below_sound 59 _ code case_table h)
case_row code false false h = ground (arith, every_below_sound 59 _ code case_table h)

eq_of : (a : Bool) (x y : ℕ) → (not a || x == y) ≡ true → a ≡ true → x ≡ y
eq_of a x y h e = ground arith

key_char-letter :
    (code : ℕ) (s c : Bool)
    → code < 59
    → is_letter (lower code) ≡ true
    → key_char code s c ≡ (if xor s c then lower code - 32 else lower code)
unfolding case_ok
key_char-letter code s c h l =
    eq_of (is_letter (lower code)) (key_char code s c)
      (if xor s c then lower code - 32 else lower code) (case_row code s c h) l

letter_code : ℕ → Bool
unfolding keymap
letter_code code = not (is_letter (lower code)) || (ltb 0 code && bit_and code 0x80 == 0)

letter_table : every_below 59 letter_code ≡ true
unfolding every_below letter_code
letter_table = refl

both_of : (a b c : Bool) → (not a || (b && c)) ≡ true → a ≡ true → (b ≡ true) × (c ≡ true)
both_of a b c h e = ground arith

make_code :
    (code : ℕ)
    → code < 59
    → is_letter (lower code) ≡ true
    → (ltb 0 code ≡ true) × ((bit_and code 0x80 == 0) ≡ true)
unfolding letter_code
make_code code h l =
    both_of (is_letter (lower code)) (ltb 0 code) (bit_and code 0x80 == 0)
      (every_below_sound 59 letter_code code letter_table h) l

pick-ne-zero : (b : Bool) (c : ℕ) → is_letter c ≡ true → (if b then c - 32 else c) ≢ 0
pick-ne-zero b c h = ground arith

-- For the scan code of a letter without a pending prefix, in a valid buffer with room, the handler
-- appends the small letter, or the capital one when exactly one of shift and caps lock is on, and
-- changes nothing else but to wake the reader.
pub letter_key :
    (cur : Tid) (code : ℕ) (k : Kbd)
    → Fifo.IsValid k.kbd_buf
    → length (contents k.kbd_buf) < 63
    → k.ext_scan_code ≡ false
    → code < 59
    → is_letter (lower code) ≡ true
    → let c = if xor k.shift_status k.caps_lock_status then lower code - 32 else lower code in
      (q : IoQueue) × (intr_keyboard_handler cur code k
        ≡ ok (handled k.kbd_buf.consumer (record k { ext_scan_code = false; kbd_buf = q })))
      × (contents q ≡ contents k.kbd_buf ++ c ∷ [])
unfolding intr_keyboard_handler
letter_key cur code k v room ext h l =
    let k1 = record k { ext_scan_code = false } in
    let char = key_char-letter code k.shift_status k.caps_lock_status h l in
    let some_char : key_char code k.shift_status k.caps_lock_status ≢ 0 =
      λ e. pick-ne-zero (xor k.shift_status k.caps_lock_status) (lower code) l (sym char ∙ e) in
    let (q, run, holds, _) = key_down-typed cur code k1 v room some_char in
    let make = make_code code h l in
    let same : intr_keyboard_handler cur code k ≡ key_down cur code k1 =
      ground (arith, make, ext) in
    (q, same ∙ run, holds ∙ ap (λ c. contents k.kbd_buf ++ c ∷ []) char)
