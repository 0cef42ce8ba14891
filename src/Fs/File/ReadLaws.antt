-- ===== src/Fs/File/ReadLaws.antt =====
-- What `file_read` of fs/file.c puts in the buffer.
use zy_os.Base.{
  ℕ, zero, suc, ◌+◌, ◌-◌, ◌*◌, ◌/◌, ◌%◌, ◌^◌, ◌≤◌, ◌<◌, ◌≡◌, ◌≢◌, ◌⊎◌, inl, inr, refl, ap, ◌∙◌,
  true, ◌&&◌, Option, none, some, ◌==◌, ltb, leb, if◌then◌else◌, arith, Bool-cases, min, Run, ok,
}
use zy_os.Fs.Inode.{Disk}
use zy_os.Fs.File.{File, read_blocks, read_loop, read_size, read_sized, file_read}
use zy_os.Fs.File.Content.{block_of, content, read_blocks_lem}

module _ (disk : Disk) (w all : ℕ → ℕ) (pos size : ℕ) (small : pos + size < 2 ^ 32)
    (collected : (k : ℕ) → pos / 512 ≤ k → k ≤ (pos + size) / 512 → all k ≡ block_of disk w k) where
  -- One round fills the buffer with bytes of the file.
  chunk_byte :
      (r k : ℕ)
      → r ≤ k
      → k < r + min (size - r) (512 - (pos + r) % 512)
      → disk (all ((pos + r) / 512)) ((pos + r) % 512 + (k - r)) ≡ content disk w (pos + k)
  chunk_byte r k g h =
      let block : (pos + k) / 512 ≡ (pos + r) / 512 = ground arith in
      let off : (pos + k) % 512 ≡ (pos + r) % 512 + (k - r) = ground arith in
      rw (block, off, collected ((pos + r) / 512) (omega arith) (ground arith)) refl

  -- With enough fuel the loop ends, the position stands behind what was read, and the buffer holds it.
  read_loop_lem :
      (fuel r : ℕ) (buf : ℕ → ℕ)
      → r ≤ size
      → size - r < fuel
      → (out : ℕ → ℕ) × (read_loop fuel all disk size (pos + r) r buf ≡ some (pos + size, out))
        × ((k : ℕ) → out k ≡ (if leb r k && ltb k size then content disk w (pos + k) else buf k))
  unfolding read_loop
  read_loop_lem zero r buf le enough = absurd (omega arith)
  read_loop_lem (suc fuel) r buf le enough = elim (Bool-cases (ltb r size)) [
    | inl more ↦
        let chunk = min (size - r) (512 - (pos + r) % 512) in
        let buf' : ℕ → ℕ = λ k.
          if leb r k && ltb k (r + chunk)
          then disk (all ((pos + r) / 512)) ((pos + r) % 512 + (k - r))
          else buf k in
        let some_chunk : 0 < chunk = ground arith in
        let fits : r + chunk ≤ size = ground arith in
        let (out, run, reads) = read_loop_lem fuel (r + chunk) buf' fits (omega arith) in
        let p' : (pos + r + chunk) % 2 ^ 32 ≡ pos + (r + chunk) = omega arith in
        (out, rw (more, p') run, λ k. reads k ∙ ground (arith, chunk_byte r k))
    | inr over ↦
        let e : pos + r ≡ pos + size = ground arith in (buf, rw (over, e) refl, λ k. ground arith)
  ]

  read_all :
      (buf : ℕ → ℕ)
      → (out : ℕ → ℕ) × (read_loop (size + 1) all disk size pos 0 buf ≡ some (pos + size, out))
        × ((k : ℕ) → out k ≡ (if ltb k size then content disk w (pos + k) else buf k))
  read_all buf =
      let (out, run, reads) = read_loop_lem (size + 1) 0 buf (omega arith) (omega arith) in
      let here : pos ≡ pos + 0 = omega arith in
      (
        out,
        ap (λ p. read_loop (size + 1) all disk size p 0 buf) here ∙ run,
        λ k. reads k ∙ ground arith,
      )

-- How much is read.
read_size_lem :
    (pos i_size count : ℕ)
    → pos ≤ i_size
    → i_size < 2 ^ 32
    → pos + count < 2 ^ 32
    → 0 < count
    → read_size pos i_size count ≡ (if pos == i_size then none else some (min count (i_size - pos)))
unfolding read_size
read_size_lem pos i_size count le small sum some_count = ground arith

-- The state after a read of `n` bytes.
pub record ReadDone (f : File) (buf : ℕ → ℕ) (disk : Disk) (n : ℕ)
    (result : Run (Option ℕ × File × (ℕ → ℕ))) : Type 0 where
  pub out : ℕ → ℕ
  pub run : result ≡ ok (some n, record f { fd_pos = f.fd_pos + n }, out)
  pub reads :
      (k : ℕ)
      → out k ≡ (if ltb k n then content disk f.fd_inode.i_sectors (f.fd_pos + k) else buf k)

read_sized_run :
    (f : File) (buf all out : ℕ → ℕ) (disk : Disk) (n : ℕ)
    → f.fd_pos + n < 139 * 512
    → read_blocks (f.fd_pos / 512) ((f.fd_pos + n) / 512) f.fd_inode disk ≡ ok all
    → read_loop (n + 1) all disk n f.fd_pos 0 buf ≡ some (f.fd_pos + n, out)
    → read_sized true f buf disk (some n) ≡ ok (some n, record f { fd_pos = f.fd_pos + n }, out)
read_sized_run f buf all out disk n top blocks loop =
    let last : (f.fd_pos + n) % 2 ^ 32 ≡ f.fd_pos + n = omega arith in
    let a : ltb (f.fd_pos / 512) 139 ≡ true = ground arith in
    let b : ltb ((f.fd_pos + n) / 512) 139 ≡ true = ground arith in
    rw (last, a, b, blocks, loop) refl

read_sized_lem :
    (f : File) (buf : ℕ → ℕ) (disk : Disk) (n : ℕ)
    → f.fd_pos + n < 139 * 512
    → (f.fd_pos + n < 12 * 512) ⊎ (f.fd_inode.i_sectors 12 ≢ 0)
    → ReadDone f buf disk n (read_sized true f buf disk (some n))
read_sized_lem f buf disk n top has =
    let pos = f.fd_pos in
    let has' : ((pos + n) / 512 < 12) ⊎ (f.fd_inode.i_sectors 12 ≢ 0) = elim has [
      | inl l ↦ inl (omega arith)
      | inr t ↦ inr t
    ] in
    let (all, blocks, addresses) =
      read_blocks_lem (pos / 512) ((pos + n) / 512) f.fd_inode disk (omega arith) has' in
    let (out, loop, reads) =
      read_all disk f.fd_inode.i_sectors all pos n (omega arith) addresses buf in
    record { out = out; run = read_sized_run f buf all out disk n top blocks loop; reads = reads }

-- For a position up to the size of the file, a count other than 0 and a range of fewer than 139 blocks,
-- whose table of addresses is there when it reaches past block 11, file_read returns -1 at the end of
-- the file and changes nothing, and otherwise reads to the count or the end of the file, whichever
-- comes first: it returns that number, puts the bytes of the file behind the position into the buffer,
-- leaves the rest of the buffer, and moves the position behind them.
pub file_read_lem :
    (f : File) (buf : ℕ → ℕ) (count : ℕ) (disk : Disk)
    → f.fd_pos ≤ f.fd_inode.i_size
    → f.fd_inode.i_size < 2 ^ 32
    → f.fd_pos + count < 139 * 512
    → 0 < count
    → (f.fd_pos + count < 12 * 512) ⊎ (f.fd_inode.i_sectors 12 ≢ 0)
    → (if f.fd_pos == f.fd_inode.i_size
        then file_read true f buf count disk ≡ ok (none, f, buf)
        else ReadDone f buf disk
            (min count (f.fd_inode.i_size - f.fd_pos))
            (file_read true f buf count disk))
unfolding file_read
file_read_lem f buf count disk le small top some_count has =
    let n = min count (f.fd_inode.i_size - f.fd_pos) in
    let amount = read_size_lem f.fd_pos f.fd_inode.i_size count le small (omega arith) some_count in
    let has' : (f.fd_pos + n < 12 * 512) ⊎ (f.fd_inode.i_sectors 12 ≢ 0) = elim has [
      | inl l ↦ inl (ground arith)
      | inr t ↦ inr t
    ] in
    elim (Bool-cases (f.fd_pos == f.fd_inode.i_size)) [
      | inl y ↦ rw (amount, y) refl
      | inr x ↦ rw (amount, x) (read_sized_lem f buf disk n (ground arith) has')
    ]
