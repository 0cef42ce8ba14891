-- ===== src/Ide.antt =====
-- device/ide.c: the commands that the disk driver gives to the controller.
-- A call is the list of what it does to the ports. `ready` says whether `busy_wait` succeeds in the round
-- that starts when so many sectors are done, and `wait_interrupt` stands for `sema_down`; the lock of
-- the channel is that of Sync.antt, and is left out.
pub mod Partitions
pub mod Requests
pub mod Transfers
pub mod Waiting
mod Tests
use zy_os.Base.{
  ℕ, zero, suc, ◌+◌, ◌-◌, ◌*◌, ◌/◌, ◌%◌, ◌^◌, bit_and, bit_or, Bool, true, false, not, Option, none,
  some, List, [], ◌∷◌, ◌++◌, ◌==◌, ltb, leb, if◌then◌else◌, update, Run, ok, panic, assert, ◌>>=◌,
  ◌>>◌,
}

pub data Event : Type 0 where
  outb : (port value : ℕ) → Event
  insw : (port addr words : ℕ) → Event
  outsw : (port addr words : ℕ) → Event
  wait_interrupt : Event

-- `struct disk` with the ports of its channel.
pub record Hd : Type 0 where
  pub port_base : ℕ
  pub dev_no : ℕ

abbrev pub reg_data : Hd → ℕ
reg_data hd = hd.port_base

abbrev pub reg_sect_cnt : Hd → ℕ
reg_sect_cnt hd = hd.port_base + 2

abbrev pub reg_lba_l : Hd → ℕ
reg_lba_l hd = hd.port_base + 3

abbrev pub reg_lba_m : Hd → ℕ
reg_lba_m hd = hd.port_base + 4

abbrev pub reg_lba_h : Hd → ℕ
reg_lba_h hd = hd.port_base + 5

abbrev pub reg_dev : Hd → ℕ
reg_dev hd = hd.port_base + 6

abbrev pub reg_cmd : Hd → ℕ
reg_cmd hd = hd.port_base + 7

abbrev pub max_lba : ℕ
max_lba = 80 * 1024 * 1024 / 512 - 1

abbrev pub cmd_read_sector : ℕ
cmd_read_sector = 0x20

abbrev pub cmd_write_sector : ℕ
cmd_write_sector = 0x30

-- `BIT_DEV_MBS | BIT_DEV_LBA`, and `BIT_DEV_DEV` for the second disk.
abbrev pub dev_bits : Hd → ℕ
dev_bits hd = if hd.dev_no == 1 then 0xf0 else 0xe0

abbrev pub select_disk : Hd → List Event
select_disk hd = outb (reg_dev hd) (dev_bits hd) ∷ []

-- `sec_cnt` is a `uint8_t`, and `outb` writes the low byte of its value.
abbrev pub selection : Hd → (lba sec_cnt : ℕ) → List Event
selection hd lba sec_cnt =
    outb (reg_sect_cnt hd) (sec_cnt % 256)
    ∷ outb (reg_lba_l hd) (lba % 256)
    ∷ outb (reg_lba_m hd) (lba / 2 ^ 8 % 256)
    ∷ outb (reg_lba_h hd) (lba / 2 ^ 16 % 256)
    ∷ outb (reg_dev hd) (bit_or (dev_bits hd) (lba / 2 ^ 24) % 256)
    ∷ []

unfoldable pub select_sector : Hd → (lba sec_cnt : ℕ) → Run (List Event)
select_sector hd lba sec_cnt = assert (leb lba max_lba) >> ok (selection hd lba sec_cnt)

abbrev pub cmd_out : Hd → (cmd : ℕ) → List Event
cmd_out hd cmd = outb (reg_cmd hd) cmd ∷ []

-- The words that `read_from_sector` and `write2sector` move for a `uint8_t`.
unfoldable pub words_moved : (sec_cnt : ℕ) → ℕ
words_moved sec_cnt = if sec_cnt == 0 then 256 * 512 / 2 else sec_cnt * 512 / 2

abbrev pub read_from_sector : Hd → (buf sec_cnt : ℕ) → List Event
read_from_sector hd buf sec_cnt = insw (reg_data hd) buf (words_moved (sec_cnt % 256)) ∷ []

abbrev pub write2sector : Hd → (buf sec_cnt : ℕ) → List Event
write2sector hd buf sec_cnt = outsw (reg_data hd) buf (words_moved (sec_cnt % 256)) ∷ []

abbrev pub secs_op : (secs_done sec_cnt : ℕ) → ℕ
secs_op secs_done sec_cnt =
    if leb ((secs_done + 256) % 2 ^ 32) sec_cnt then 256 else sec_cnt - secs_done

-- The two bodies: a read waits for the interrupt before the data, a write behind it.
unfoldable pub read_command : Hd → (ready : Bool) (lba buf done op : ℕ) → Run (List Event)
read_command hd ready lba buf done op = select_sector hd ((lba + done) % 2 ^ 32) op >>= λ selected.
    assert ready
    >> ok (
        selected
        ++ (cmd_out hd cmd_read_sector
            ++ (wait_interrupt ∷ read_from_sector hd ((buf + done * 512) % 2 ^ 32) op)))

unfoldable pub write_command : Hd → (ready : Bool) (lba buf done op : ℕ) → Run (List Event)
write_command hd ready lba buf done op = select_sector hd ((lba + done) % 2 ^ 32) op >>= λ selected.
    assert ready
    >> ok (
        selected
        ++ (cmd_out hd cmd_write_sector
            ++ (write2sector hd ((buf + done * 512) % 2 ^ 32) op ++ (wait_interrupt ∷ []))))

abbrev pub behind : List Event → Option (List Event) → Option (List Event)
behind events none = none
behind events (some rest) = some (events ++ rest)

-- The loop that both share: what has been done so far is `done`, and the inner `none` means that the
-- fuel ran out.
unfoldable pub transfer_loop :
    (fuel : ℕ) (round : (done op : ℕ) → Run (List Event)) (sec_cnt done : ℕ)
    → Run (Option (List Event))
transfer_loop zero round sec_cnt done = ok none
transfer_loop (suc fuel) round sec_cnt done =
    let op = secs_op done sec_cnt in
    let rest = transfer_loop fuel round sec_cnt (done + op) in
    let this : Run (Option (List Event)) =
      round done op >>= λ events. rest >>= λ r. ok (behind events r) in
    if ltb done sec_cnt then this else ok (some [])

unfoldable pub ide_read : Hd → (ready : ℕ → Bool) (lba buf sec_cnt : ℕ) → Run (Option (List Event))
ide_read hd ready lba buf sec_cnt =
    assert (leb lba max_lba)
    >> (assert (ltb 0 sec_cnt)
        >> (transfer_loop (sec_cnt + 1) (λ done. read_command hd (ready done) lba buf done) sec_cnt
              0
            >>= λ r. ok (behind (select_disk hd) r)))

unfoldable pub ide_write : Hd → (ready : ℕ → Bool) (lba buf sec_cnt : ℕ) → Run (Option (List Event))
ide_write hd ready lba buf sec_cnt =
    assert (leb lba max_lba)
    >> (assert (ltb 0 sec_cnt)
        >> (transfer_loop (sec_cnt + 1) (λ done. write_command hd (ready done) lba buf done) sec_cnt
              0
            >>= λ r. ok (behind (select_disk hd) r)))
