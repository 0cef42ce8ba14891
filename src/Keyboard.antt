-- ===== src/Keyboard.antt =====
-- device/keyboard.c: the keyboard's interrupt, from scan codes to characters in the buffer.
-- `inb` of the port is an argument. The handler runs with interrupts off. Characters are ASCII codes.
pub mod Keys
mod Tests
use zy_os.Base.{
  ℕ, bit_and, bit_or, Bool, true, false, not, ◌&&◌, ◌||◌, Option, none, some, List, [], ◌∷◌, ◌==◌,
  ltb, if◌then◌else◌, get_or, Run, ok, ◌>>=◌,
}
use zy_os.IoQueue.{Tid, IoQueue, Outcome, done, wait, lock_wait, ioq_full, ioq_putchar}

pub record Kbd : Type 0 where
  pub ctrl_status : Bool
  pub shift_status : Bool
  pub alt_status : Bool
  pub caps_lock_status : Bool
  pub ext_scan_code : Bool
  pub kbd_buf : IoQueue

-- Without and with the shift key, by the scan code; 0 is no character.
unfoldable pub keymap : List (ℕ × ℕ)
keymap =
    (0, 0)
    ∷ (27, 27)
    ∷ (49, 33)
    ∷ (50, 64)
    ∷ (51, 35)
    ∷ (52, 36)
    ∷ (53, 37)
    ∷ (54, 94)
    ∷ (55, 38)
    ∷ (56, 42)
    ∷ (57, 40)
    ∷ (48, 41)
    ∷ (45, 95)
    ∷ (61, 43)
    ∷ (8, 8)
    ∷ (9, 9)
    ∷ (113, 81)
    ∷ (119, 87)
    ∷ (101, 69)
    ∷ (114, 82)
    ∷ (116, 84)
    ∷ (121, 89)
    ∷ (117, 85)
    ∷ (105, 73)
    ∷ (111, 79)
    ∷ (112, 80)
    ∷ (91, 123)
    ∷ (93, 125)
    ∷ (13, 13)
    ∷ (0, 0)
    ∷ (97, 65)
    ∷ (115, 83)
    ∷ (100, 68)
    ∷ (102, 70)
    ∷ (103, 71)
    ∷ (104, 72)
    ∷ (106, 74)
    ∷ (107, 75)
    ∷ (108, 76)
    ∷ (59, 58)
    ∷ (39, 34)
    ∷ (96, 126)
    ∷ (0, 0)
    ∷ (92, 124)
    ∷ (122, 90)
    ∷ (120, 88)
    ∷ (99, 67)
    ∷ (118, 86)
    ∷ (98, 66)
    ∷ (110, 78)
    ∷ (109, 77)
    ∷ (44, 60)
    ∷ (46, 62)
    ∷ (47, 63)
    ∷ (0, 0)
    ∷ (42, 42)
    ∷ (0, 0)
    ∷ (32, 32)
    ∷ (0, 0)
    ∷ []

-- How the handler ends: with the reader that it woke, or blocked in the buffer.
pub data Handled : Type 0 where
  handled : Option Tid → Kbd → Handled
  stuck : Kbd → Handled

-- The keys with two characters.
abbrev pub two_characters : ℕ → Bool
two_characters scan_code =
    ltb scan_code 0x0e
    || scan_code == 0x29
    || scan_code == 0x1a
    || scan_code == 0x1b
    || scan_code == 0x2b
    || scan_code == 0x27
    || scan_code == 0x28
    || scan_code == 0x33
    || scan_code == 0x34
    || scan_code == 0x35

unfoldable pub with_shift : (scan_code : ℕ) (shift_down caps_lock : Bool) → Bool
with_shift scan_code shift_down caps_lock =
    if two_characters scan_code
    then shift_down
    else if shift_down && caps_lock
    then false
    else shift_down || caps_lock

unfoldable pub key_char : (scan_code : ℕ) (shift_down caps_lock : Bool) → ℕ
unfolding keymap with_shift
key_char scan_code shift_down caps_lock =
    let key = get_or keymap (bit_and scan_code 0x00ff) (0, 0) in
    if with_shift scan_code shift_down caps_lock then key.1 else key.0

unfoldable pub key_up : (make_code : ℕ) → Kbd → Kbd
key_up make_code k =
    if make_code == 0x1d || make_code == 0xe01d
    then record k { ctrl_status = false }
    else if make_code == 0x2a || make_code == 0x36
    then record k { shift_status = false }
    else if make_code == 0x38 || make_code == 0xe038
    then record k { alt_status = false }
    else k

-- A key without a character, by its scan code without the high byte.
unfoldable pub control_down : (scan_code : ℕ) → Kbd → Kbd
control_down scan_code k =
    if scan_code == 0x1d || scan_code == 0xe01d
    then record k { ctrl_status = true }
    else if scan_code == 0x2a || scan_code == 0x36
    then record k { shift_status = true }
    else if scan_code == 0x38 || scan_code == 0xe038
    then record k { alt_status = true }
    else if scan_code == 0x3a
    then record k { caps_lock_status = not k.caps_lock_status }
    else k

abbrev pub put_done : Kbd → Outcome → Handled
put_done k (done c woken q) = handled woken (record k { kbd_buf = q })
put_done k (wait q) = stuck (record k { kbd_buf = q })
put_done k (lock_wait q) = stuck (record k { kbd_buf = q })

abbrev pub put_key : Tid → ℕ → Kbd → Bool → Run Handled
put_key cur c k true = ok (handled none k)
put_key cur c k false = ioq_putchar true cur k.kbd_buf c >>= λ r. ok (put_done k r)

unfoldable pub key_down : Tid → (scan_code : ℕ) → Kbd → Run Handled
key_down cur scan_code k =
    let cur_char = key_char scan_code k.shift_status k.caps_lock_status in
    if cur_char == 0
    then ok (handled none (control_down (bit_and scan_code 0x00ff) k))
    else ioq_full true k.kbd_buf >>= put_key cur cur_char k

unfoldable pub intr_keyboard_handler : Tid → (inb : ℕ) → Kbd → Run Handled
intr_keyboard_handler cur inb k0 =
    let scan_code = if k0.ext_scan_code then bit_or 0xe000 inb else inb in
    let k = record k0 { ext_scan_code = false } in
    if inb == 0xe0
    then ok (handled none (record k0 { ext_scan_code = true }))
    else if not (bit_and scan_code 0x0080 == 0)
    then ok (handled none (key_up (bit_and scan_code 0xff7f) k))
    else if (ltb 0 scan_code && ltb scan_code 0x3b) || scan_code == 0xe038 || scan_code == 0xe01d
    then key_down cur scan_code k
    else ok (handled none k)
