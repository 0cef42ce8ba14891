-- ===== src/Ide/Requests.antt =====
-- Which sectors the register writes of device/ide.c ask for, as the ATA registers are read.
use zy_os.Base.{
  ℕ, zero, suc, ◌+◌, ◌-◌, ◌*◌, ◌/◌, ◌%◌, ◌^◌, ◌≤◌, ◌<◌, ◌≡◌, inl, inr, refl, ap, bit_or, Bool, true,
  ◌&&◌, List, [], ◌∷◌, ◌++◌, ◌==◌, leb, if◌then◌else◌, update, arith, Bool-cases, Run, ok,
}
use zy_os.Ide.{
  Event, wait_interrupt, selection, cmd_out, read_from_sector, write2sector, Hd, select_sector,
  words_moved, read_command, write_command, dev_bits, max_lba,
}

-- A sector of one of the two disks of a channel, and the address of its bytes in memory.
pub record Request : Type 0 where
  pub dev : ℕ
  pub lba : ℕ
  pub addr : ℕ

abbrev pub requests : (dev n lba addr : ℕ) → List Request
requests dev zero lba addr = []
requests dev (suc n) lba addr =
    record { dev = dev; lba = lba; addr = addr } ∷ requests dev n (lba + 1) (addr + 512)

-- The registers, by their distance from the base port: the sector, the disk, whether the sector is given
-- by its number (`LBA`), and how many sectors (0 means 256). The place 8 holds whether the interrupt of the
-- last command is still to be waited for, as 1.
abbrev pub reg_lba : (ℕ → ℕ) → ℕ
reg_lba regs = regs 3 + 2 ^ 8 * regs 4 + 2 ^ 16 * regs 5 + 2 ^ 24 * (regs 6 % 16)

abbrev pub reg_drive : (ℕ → ℕ) → ℕ
reg_drive regs = regs 6 / 2 ^ 4 % 2

abbrev pub by_lba : (ℕ → ℕ) → Bool
by_lba regs = regs 6 / 2 ^ 6 % 2 == 1

abbrev pub reg_count : (ℕ → ℕ) → ℕ
reg_count regs = if regs 2 == 0 then 256 else regs 2

-- A transfer moves the sectors that are selected, if the command fits and as many words are moved: those
-- of a read behind the interrupt, those of a write before it.
abbrev pub served : (cmd waiting : ℕ) (regs : ℕ → ℕ) (addr words : ℕ) → List Request
served cmd waiting regs addr words =
    if regs 7 == cmd && (regs 8 == waiting && by_lba regs)
    then (if words == reg_count regs * 256
        then requests (reg_drive regs) (reg_count regs) (reg_lba regs) addr
        else [])
    else []

-- A command sets the place 8.
abbrev pub written_reg : (regs : ℕ → ℕ) (reg value : ℕ) → ℕ → ℕ
written_reg regs reg value =
    if reg == 7 then update (update regs reg value) 8 1 else update regs reg value

unfoldable pub asked_in : (base : ℕ) (regs : ℕ → ℕ) → List Event → List Request
asked_in base regs [] = []
asked_in base regs (Event.outb port value ∷ events) =
    asked_in base (written_reg regs (port - base) value) events
asked_in base regs (Event.insw port addr words ∷ events) =
    served 0x20 0 regs addr words ++ asked_in base regs events
asked_in base regs (Event.outsw port addr words ∷ events) =
    served 0x30 1 regs addr words ++ asked_in base regs events
asked_in base regs (Event.wait_interrupt ∷ events) = asked_in base (update regs 8 0) events

-- What the five registers hold behind `select_sector` and a command.
abbrev pub selected : (regs : ℕ → ℕ) (lba op dev cmd : ℕ) → ℕ → ℕ
selected regs lba op dev cmd =
    update
      (update
        (update
          (update (update (update (update regs 2 (op % 256)) 3 (lba % 256)) 4 (lba / 2 ^ 8 % 256)) 5
            (lba / 2 ^ 16 % 256))
          6 dev)
        7 cmd)
      8 1

-- The byte that selects a disk, by LBA, with no more bits of the sector.
record Selects (dev b : ℕ) : Type 0 where
  low : b % 16 ≡ 0
  drive : b / 2 ^ 4 % 2 ≡ dev
  numbered : b / 2 ^ 6 % 2 ≡ 1

-- The number of a disk on its channel as the controller takes it.
abbrev pub drive_of : Hd → ℕ
drive_of hd = if hd.dev_no == 1 then 1 else 0

dev_Selects :
    (hd : Hd) (lba : ℕ)
    → lba ≤ max_lba
    → Selects (drive_of hd) (bit_or (dev_bits hd) (lba / 2 ^ 24) % 256)
dev_Selects hd lba small =
    let high : lba / 2 ^ 24 ≡ 0 = omega arith in
    elim (Bool-cases (hd.dev_no == 1)) [
      | inl y ↦ rw (high, y) record { low = refl; drive = refl; numbered = refl }
      | inr n ↦ rw (high, n) record { low = refl; drive = refl; numbered = refl }
    ]

served_lem :
    (cmd waiting : ℕ) (regs : ℕ → ℕ) (lba op dev b addr : ℕ)
    → waiting ≤ 1
    → lba ≤ max_lba
    → 0 < op
    → op ≤ 256
    → Selects dev b
    → served cmd waiting
        (update (selected regs lba op b cmd) 8 waiting)
        addr
        (words_moved (op % 256))
      ≡ requests dev op lba addr
unfolding words_moved
served_lem cmd waiting regs lba op dev b addr bit small pos few sel =
    let same : (cmd == cmd) ≡ true = ground arith in
    let state : (waiting == waiting) ≡ true = ground arith in
    let count : (if op % 256 == 0 then 256 else op % 256) ≡ op = ground arith in
    let words : (if op % 256 == 0 then 65536 else op % 256 * 512 / 2) ≡ op * 256 = ground arith in
    let sector : lba % 256
          + 2 ^ 8 * (lba / 2 ^ 8 % 256)
          + 2 ^ 16 * (lba / 2 ^ 16 % 256)
          + 2 ^ 24 * (b % 16)
        ≡ lba =
      omega (arith, sel.low) in
    let fits : (op * 256 == op * 256) ≡ true = ground arith in
    rw (same, state, sel.numbered, sel.drive, words, count, sector, fits) refl

pub requests-append :
    (dev n m lba addr : ℕ)
    → requests dev n lba addr ++ requests dev m (lba + n) (addr + n * 512)
      ≡ requests dev (n + m) lba addr
requests-append dev zero m lba addr =
    let a : lba + 0 ≡ lba = omega arith in
    let b : addr + 0 * 512 ≡ addr = omega arith in
    let c : 0 + m ≡ m = omega arith in rw (a, b, c) refl
requests-append dev (suc n) m lba addr =
    let a : lba + suc n ≡ lba + 1 + n = omega arith in
    let b : addr + suc n * 512 ≡ addr + 512 + n * 512 = omega arith in
    let c : suc n + m ≡ suc (n + m) = omega arith in
    rw (a, b, c)
      (ap (λ r. record { dev = dev; lba = lba; addr = addr } ∷ r)
        (requests-append dev n m (lba + 1) (addr + 512)))

-- What one round asks for, whatever the registers hold and whatever follows.
abbrev pub Asks : Hd → (lba buf done op : ℕ) → Run (List Event) → Type 0
Asks hd lba buf done op round =
    (events : List Event) × (round ≡ ok events)
    × ((regs : ℕ → ℕ)
        → (regs' : ℕ → ℕ) × ((rest : List Event)
            → asked_in hd.port_base regs (events ++ rest)
              ≡ requests (drive_of hd) op (lba + done) (buf + done * 512)
                ++ asked_in hd.port_base regs' rest))

offset : (base k : ℕ) → base + k - base ≡ k
offset base k = omega arith

module _ (hd : Hd) (lba buf done op : ℕ) (small : lba + done ≤ max_lba) (pos : 0 < op)
    (few : op ≤ 256) (room : buf + done * 512 < 2 ^ 32) where
  abbrev after : (regs : ℕ → ℕ) (cmd : ℕ) → ℕ → ℕ
  after regs cmd =
      selected regs ((lba + done) % 2 ^ 32) op
        (bit_or (dev_bits hd) ((lba + done) % 2 ^ 32 / 2 ^ 24) % 256) cmd

  round-served :
      (cmd waiting : ℕ) (regs : ℕ → ℕ)
      → waiting ≤ 1
      → served cmd waiting
          (update (after regs cmd) 8 waiting)
          ((buf + done * 512) % 2 ^ 32)
          (words_moved (op % 256))
        ≡ requests (drive_of hd) op (lba + done) (buf + done * 512)
  round-served cmd waiting regs bit =
      let l : (lba + done) % 2 ^ 32 ≡ lba + done = omega arith in
      let a : (buf + done * 512) % 2 ^ 32 ≡ buf + done * 512 = omega arith in
      rw (l, a)
        (served_lem cmd waiting regs (lba + done) op (drive_of hd)
          (bit_or (dev_bits hd) ((lba + done) / 2 ^ 24) % 256) (buf + done * 512) bit small pos few
          (dev_Selects hd (lba + done) small))

  pub read_command-Asks : Asks hd lba buf done op (read_command hd true lba buf done op)
  unfolding read_command select_sector asked_in
  read_command-Asks =
      let l = (lba + done) % 2 ^ 32 in
      let inside : leb l max_lba ≡ true = ground arith in
      let events =
        selection hd l op
        ++ (cmd_out hd 0x20
            ++ (wait_interrupt ∷ read_from_sector hd ((buf + done * 512) % 2 ^ 32) op)) in
      (
        events,
        rw inside refl,
        λ regs. (
          update (after regs 0x20) 8 0,
          λ rest.
              rw
                (
                  offset hd.port_base 2,
                  offset hd.port_base 3,
                  offset hd.port_base 4,
                  offset hd.port_base 5,
                  offset hd.port_base 6,
                  offset hd.port_base 7,
                )
                (ap (λ x. x ++ asked_in hd.port_base (update (after regs 0x20) 8 0) rest)
                  (round-served 0x20 0 regs (omega arith))),
        ),
      )

  pub write_command-Asks : Asks hd lba buf done op (write_command hd true lba buf done op)
  unfolding write_command select_sector asked_in
  write_command-Asks =
      let l = (lba + done) % 2 ^ 32 in
      let inside : leb l max_lba ≡ true = ground arith in
      let events =
        selection hd l op
        ++ (cmd_out hd 0x30
            ++ (write2sector hd ((buf + done * 512) % 2 ^ 32) op ++ (wait_interrupt ∷ []))) in
      (
        events,
        rw inside refl,
        λ regs. (
          update (after regs 0x30) 8 0,
          λ rest.
              rw
                (
                  offset hd.port_base 2,
                  offset hd.port_base 3,
                  offset hd.port_base 4,
                  offset hd.port_base 5,
                  offset hd.port_base 6,
                  offset hd.port_base 7,
                )
                (ap (λ x. x ++ asked_in hd.port_base (update (after regs 0x30) 8 0) rest)
                  (round-served 0x30 1 regs (omega arith))),
        ),
      )
