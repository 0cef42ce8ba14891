-- ===== src/Ide/Transfers.antt =====
-- `ide_read` and `ide_write` of device/ide.c over a range of sectors.
use zy_os.Base.{
  ℕ, zero, suc, ◌+◌, ◌-◌, ◌*◌, ◌^◌, ◌≤◌, ◌<◌, ◌≡◌, inl, inr, refl, ap, ◌∙◌, true, Option, some,
  List, [], ◌++◌, ltb, leb, arith, Bool-cases, Run, ok, ◌>>=◌, ◌>>◌, assert,
}
use zy_os.Ide.{
  Event, Hd, secs_op, read_command, write_command, transfer_loop, behind, ide_read, ide_write,
  dev_bits, max_lba, select_disk,
}
use zy_os.Ide.Requests.{
  requests, drive_of, written_reg, asked_in, requests-append, Asks, read_command-Asks,
  write_command-Asks,
}

requests-join :
    (dev lba buf sec_cnt done op : ℕ)
    → done + op ≤ sec_cnt
    → requests dev op (lba + done) (buf + done * 512)
        ++ requests dev (sec_cnt - (done + op)) (lba + (done + op)) (buf + (done + op) * 512)
      ≡ requests dev (sec_cnt - done) (lba + done) (buf + done * 512)
requests-join dev lba buf sec_cnt done op fits =
    let a : lba + (done + op) ≡ lba + done + op = omega arith in
    let b : buf + (done + op) * 512 ≡ buf + done * 512 + op * 512 = omega arith in
    let c : op + (sec_cnt - (done + op)) ≡ sec_cnt - done = omega arith in
    rw (a, b)
      (requests-append dev op (sec_cnt - (done + op)) (lba + done) (buf + done * 512)
        ∙ ap (λ n. requests dev n (lba + done) (buf + done * 512)) c)

asked_in-nil : (base : ℕ) (regs : ℕ → ℕ) → asked_in base regs [] ≡ []
unfolding asked_in
asked_in-nil base regs = refl

-- The rounds that are left ask for the sectors that are left.
transfer_loop_lem :
    (hd : Hd) (lba buf sec_cnt : ℕ) (round : (done op : ℕ) → Run (List Event))
    → ((done op : ℕ)
        → done + op ≤ sec_cnt
        → 0 < op
        → op ≤ 256
        → Asks hd lba buf done op (round done op))
    → sec_cnt + 256 < 2 ^ 32
    → (fuel done : ℕ) → done ≤ sec_cnt
    → sec_cnt - done < fuel
    → (events : List Event) × (transfer_loop fuel round sec_cnt done ≡ ok (some events))
      × ((regs : ℕ → ℕ)
          → asked_in hd.port_base regs events
            ≡ requests (drive_of hd) (sec_cnt - done) (lba + done) (buf + done * 512))
unfolding transfer_loop
transfer_loop_lem hd lba buf sec_cnt round asks small zero done le enough = absurd (omega arith)
transfer_loop_lem hd lba buf sec_cnt round asks small (suc fuel) done le enough =
    let op = secs_op done sec_cnt in
    elim (Bool-cases (ltb done sec_cnt)) [
      | inl more ↦
          let pos : 0 < op = ground arith in
          let few : op ≤ 256 = ground arith in
          let fits : done + op ≤ sec_cnt = ground arith in
          let (events, run, these) = asks done op fits pos few in
          let (rest, run', those) =
            transfer_loop_lem hd lba buf sec_cnt round asks small fuel (done + op) fits
              (omega arith) in
          (
            events ++ rest,
            rw (more, run, run') refl,
            λ regs.
                let (regs', this) = these regs in
                this rest
                ∙ ap (λ x. requests (drive_of hd) op (lba + done) (buf + done * 512) ++ x)
                    (those regs')
                ∙ requests-join (drive_of hd) lba buf sec_cnt done op fits,
          )
      | inr over ↦
          let all : sec_cnt - done ≡ 0 = ground arith in
          ([], rw over refl, λ regs. rw all (asked_in-nil hd.port_base regs))
    ]

-- What a whole call asks for.
abbrev pub Transfers : Hd → (lba buf sec_cnt : ℕ) → Run (Option (List Event)) → Type 0
Transfers hd lba buf sec_cnt call =
    (events : List Event) × (call ≡ ok (some events))
    × ((regs : ℕ → ℕ) → asked_in hd.port_base regs events ≡ requests (drive_of hd) sec_cnt lba buf)

call-Transfers :
    (hd : Hd) (lba buf sec_cnt : ℕ) (round : (done op : ℕ) → Run (List Event))
    → ((done op : ℕ)
        → done + op ≤ sec_cnt
        → 0 < op
        → op ≤ 256
        → Asks hd lba buf done op (round done op))
    → lba + sec_cnt ≤ max_lba + 1
    → 0 < sec_cnt
    → Transfers hd lba buf sec_cnt (
        assert (leb lba max_lba)
        >> (assert (ltb 0 sec_cnt)
            >> (transfer_loop (sec_cnt + 1) round sec_cnt 0 >>= λ r.
                ok (behind (select_disk hd) r))))
unfolding asked_in
call-Transfers hd lba buf sec_cnt round asks inside pos =
    let (events, run, those) =
      transfer_loop_lem hd lba buf sec_cnt round asks (omega arith) (sec_cnt + 1) 0 (omega arith)
        (omega arith) in
    let first : leb lba max_lba ≡ true = ground arith in
    let some_sector : ltb 0 sec_cnt ≡ true = ground arith in
    let a : lba + 0 ≡ lba = omega arith in
    let b : buf + 0 * 512 ≡ buf = omega arith in
    let c : sec_cnt - 0 ≡ sec_cnt = omega arith in
    (
      select_disk hd ++ events,
      rw (first, some_sector, run) refl,
      λ regs.
          those (written_reg regs (hd.port_base + 6 - hd.port_base) (dev_bits hd))
          ∙ rw (a, b, c) refl,
    )

-- For a range of sectors that ends inside the disk and a buffer below 2^32, where the disk is ready in
-- every round, ide_read and ide_write return, and the register writes of their commands, of at most 256
-- sectors each, select this drive of the channel, address by LBA, and select and move exactly the
-- sectors of the range, in order and to or from consecutive places of the buffer, data that is read
-- behind the interrupt and data that is written before it.
pub ide_transfer_lem :
    (hd : Hd) (lba buf sec_cnt : ℕ)
    → 0 < sec_cnt
    → lba + sec_cnt ≤ max_lba + 1
    → buf + sec_cnt * 512 ≤ 2 ^ 32
    → Transfers hd lba buf sec_cnt (ide_read hd (λ done. true) lba buf sec_cnt)
      × Transfers hd lba buf sec_cnt (ide_write hd (λ done. true) lba buf sec_cnt)
unfolding ide_read ide_write
ide_transfer_lem hd lba buf sec_cnt pos inside room = (
  call-Transfers hd lba buf sec_cnt (λ done. read_command hd true lba buf done)
      (λ done op fits p few. read_command-Asks hd lba buf done op (omega arith) p few (omega arith))
      inside pos,
  call-Transfers hd lba buf sec_cnt (λ done. write_command hd true lba buf done)
      (λ done op fits p few.
        write_command-Asks hd lba buf done op (omega arith) p few (omega arith))
      inside pos,
)
