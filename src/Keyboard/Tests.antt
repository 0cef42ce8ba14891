-- ===== src/Keyboard/Tests.antt =====
-- Keys at an empty buffer.
use zy_os.Base.{◌≡◌, refl, true, false, none, some, [], ◌∷◌, arith, ok}
use zy_os.IoQueue.{IoQueue}
use zy_os.IoQueue.Fifo.{contents}
use zy_os.Keyboard.{Kbd, intr_keyboard_handler, handled, keymap}
use zy_os.Keyboard.Keys.{letter_key}

abbrev shifted : Kbd
shifted = record {
  ctrl_status = false;
  shift_status = true;
  alt_status = false;
  caps_lock_status = false;
  ext_scan_code = false;
  kbd_buf = record {
    lock = none;
    producer = none;
    consumer = some 4;
    buf = λ i. 0;
    head = 9;
    tail = 9;
  };
}

-- The key of the letter a, with shift.
capital_a :
    (q : IoQueue) × (intr_keyboard_handler 1 0x1e shifted
      ≡ ok (handled (some 4) (record shifted { kbd_buf = q })))
    × (contents q ≡ 65 ∷ [])
unfolding keymap
capital_a =
    letter_key 1 0x1e shifted (record { head_in = omega arith; tail_in = omega arith })
      (omega arith) refl (omega arith) refl
