-- ===== src/Fs/File/WriteLaws.antt =====
-- What the loop of `file_write` in fs/file.c leaves on the disk.
use zy_os.Base.{
  ℕ, zero, suc, ◌+◌, ◌-◌, ◌*◌, ◌/◌, ◌%◌, ◌^◌, ◌≤◌, ◌<◌, ◌≡◌, ◌≢◌, ◌⊎◌, inl, inr, refl, sym, ap, ◌∙◌,
  true, false, some, ◌==◌, ltb, if◌then◌else◌, arith, Bool-cases, ok, panic,
}
use zy_os.Fs.Inode.{Disk}
use zy_os.Fs.File.{File, Volume}
use zy_os.Fs.File.Write.{
  Growth, Writing, write_round, write_loop, write_done, write_blocks, collect_blocks, file_write,
  start_writing, collect, first_block,
}

-- The byte `i` of a file whose blocks have the addresses `blocks`.
abbrev pub byte_at : Disk → (blocks : ℕ → ℕ) → ℕ → ℕ
byte_at disk blocks i = disk (blocks (i / 512)) (i % 512)

-- The state of the loop: what it has written, and why a block that is not read has nothing to keep.
pub record IsWriting (size count : ℕ) (s : Writing) : Type 0 where
  pub grown : s.i_size ≡ size + s.bytes_written
  pub within : s.bytes_written ≤ count
  pub position : s.fd_pos < 2 ^ 32
  pub kept : (s.first_write_block ≡ true) ⊎ ((s.i_size % 512 ≡ 0) ⊎ (s.bytes_written ≡ count))

-- What the loop leaves when it starts at `s`.
pub record Written (blocks src : ℕ → ℕ) (size count : ℕ) (s t : Writing) : Type 0 where
  pub sized : t.i_size ≡ size + count
  pub counted : t.bytes_written ≡ count
  pub moved : t.fd_pos ≡ (s.fd_pos + (count - s.bytes_written)) % 2 ^ 32
  pub bytes :
      (i : ℕ)
      → i < size + count
      → byte_at t.disk blocks i
        ≡ (if ltb i s.i_size then byte_at s.disk blocks i else src (i - size))
  pub others :
      (l : ℕ)
      → ((k : ℕ) → size / 512 ≤ k → k ≤ (size + count) / 512 → l ≢ blocks k)
      → t.disk l ≡ s.disk l

module _ (blocks all src : ℕ → ℕ) (size count : ℕ)
    (distinct : (j k : ℕ)
      → j ≤ (size + count) / 512
      → k ≤ (size + count) / 512
      → blocks j ≡ blocks k
      → j ≡ k)
    (collected : (k : ℕ) → size / 512 ≤ k → k ≤ (size + count) / 512 → all k ≡ blocks k) where
  round-IsWriting :
      (s : Writing)
      → IsWriting size count s
      → s.bytes_written < count
      → IsWriting size count (write_round all src count s)
        × (s.bytes_written < (write_round all src count s).bytes_written)
  unfolding write_round
  round-IsWriting s v more =
      let g = v.grown in
      (
        record {
          grown = omega arith;
          within = omega arith;
          position = omega arith;
          kept = elim (Bool-cases (ltb (count - s.bytes_written) (512 - s.i_size % 512))) [
            | inl last ↦ inr (inr (ground arith))
            | inr full ↦ inr (inl (ground arith))
          ];
        },
        omega arith,
      )

  round_byte :
      (s : Writing) (i : ℕ)
      → IsWriting size count s
      → s.bytes_written < count
      → i < (write_round all src count s).i_size
      → byte_at (write_round all src count s).disk blocks i
        ≡ (if ltb i s.i_size then byte_at s.disk blocks i else src (i - size))
  unfolding write_round
  round_byte s i v more h =
      let g = v.grown in
      let low : size / 512 ≤ s.i_size / 512 = omega arith in
      let high : s.i_size / 512 ≤ (size + count) / 512 = omega arith in
      let bound : i / 512 ≤ (size + count) / 512 = omega arith in
      let at = collected (s.i_size / 512) low high in
      elim (Bool-cases (i / 512 == s.i_size / 512)) [
        | inl e ↦
            let here : i / 512 ≡ s.i_size / 512 = ground arith in
            let hit : blocks (i / 512) ≡ all (s.i_size / 512) = ap blocks here ∙ sym at in
            elim (Bool-cases (ltb i s.i_size)) [
              | inl old ↦
                  let first : s.first_write_block ≡ true = elim v.kept [
                    | inl f ↦ f
                    | inr rest ↦ absurd (elim rest [ inl z ↦ ground arith | inr z ↦ omega arith ])
                  ] in
                  ground arith
              | inr new ↦
                  let from : s.bytes_written + (i % 512 - s.i_size % 512) ≡ i - size =
                    ground arith in
                  ground arith
            ]
        | inr n ↦
            let miss : i / 512 ≢ s.i_size / 512 = ground arith in
            let before : i < s.i_size = ground arith in
            let apart : blocks (i / 512) ≢ all (s.i_size / 512) =
              λ e. miss (distinct (i / 512) (s.i_size / 512) bound high (e ∙ at)) in
            ground arith
      ]

  round_other :
      (s : Writing) (l : ℕ)
      → IsWriting size count s
      → s.bytes_written < count
      → ((k : ℕ) → size / 512 ≤ k → k ≤ (size + count) / 512 → l ≢ blocks k)
      → (write_round all src count s).disk l ≡ s.disk l
  unfolding write_round
  round_other s l v more out =
      let g = v.grown in
      let low : size / 512 ≤ s.i_size / 512 = omega arith in
      let high : s.i_size / 512 ≤ (size + count) / 512 = omega arith in
      ground (arith, collected (s.i_size / 512) low high, out (s.i_size / 512) low high)

  round_moved :
      (s : Writing)
      → IsWriting size count s
      → s.bytes_written < count
      → let s' = write_round all src count s in
        (s'.fd_pos + (count - s'.bytes_written)) % 2 ^ 32
        ≡ (s.fd_pos + (count - s.bytes_written)) % 2 ^ 32
  unfolding write_round
  round_moved s v more = omega arith

  -- One round, and then what the rest of the loop leaves.
  Written-step :
      (s t : Writing)
      → IsWriting size count s
      → s.bytes_written < count
      → Written blocks src size count (write_round all src count s) t
      → Written blocks src size count s t
  Written-step s t v more w =
      let s' = write_round all src count s in
      let (v', grows) = round-IsWriting s v more in
      record {
        sized = w.sized;
        counted = w.counted;
        moved = w.moved ∙ round_moved s v more;
        bytes = λ i h. w.bytes i h ∙ elim (Bool-cases (ltb i s'.i_size)) [
          | inl y ↦ rw y (round_byte s i v more (ground arith))
          | inr n ↦ rw n (ground (arith, v'.grown, v.grown))
        ];
        others = λ l out. w.others l out ∙ round_other s l v more out;
      }

  write_loop-Written :
      (fuel : ℕ) (s : Writing)
      → IsWriting size count s
      → count - s.bytes_written < fuel
      → (t : Writing) × (write_loop fuel all src count s ≡ some t)
        × Written blocks src size count s t
  unfolding write_loop
  write_loop-Written zero s v enough = absurd (omega arith)
  write_loop-Written (suc fuel) s v enough = elim (Bool-cases (ltb s.bytes_written count)) [
    | inl more ↦
        let less : s.bytes_written < count = ground arith in
        let (v', grows) = round-IsWriting s v less in
        let (t, run, w) = write_loop-Written fuel (write_round all src count s) v' (omega arith) in
        (t, rw more run, Written-step s t v less w)
    | inr over ↦ (
      s,
      rw over refl,
      record {
        sized = ground (arith, v.grown, v.within);
        counted = ground (arith, v.within);
        moved = ground (arith, v.within, v.position);
        bytes = λ i h. ground (arith, v.grown, v.within);
        others = λ l out. refl;
      },
    )
  ]

-- For a write that fits into 71680 bytes and whose blocks are collected at different addresses, the
-- loop of file_write ends, and what is synced and returned is a state in which the size has grown by
-- the count, the bytes written are the count, the bytes of the file up to the old size are those from
-- before, those behind are the bytes of the source, and every sector that is no block of the written
-- range is as it was.
pub file_write_lem :
    (f : File) (src blocks : ℕ → ℕ) (count : ℕ) (v : Volume) (g : Growth)
    → let size = f.fd_inode.i_size in
      size + count ≤ 71680
      → collect_blocks f count v ≡ ok g
      → g.failed ≡ false
      → ((j k : ℕ)
          → j ≤ (size + count) / 512
          → k ≤ (size + count) / 512
          → blocks j ≡ blocks k
          → j ≡ k)
      → ((k : ℕ) → size / 512 ≤ k → k ≤ (size + count) / 512 → g.all_blocks k ≡ blocks k)
      → (t : Writing) × (file_write true true f src count v
          ≡ write_done g.i_sectors f g.volume (some t))
        × Written blocks src size count (start_writing size g.volume.disk) t
unfolding file_write write_blocks
file_write_lem f src blocks count v g fits run fine distinct collected =
    let size = f.fd_inode.i_size in
    let start = start_writing size g.volume.disk in
    let valid : IsWriting size count start = record {
      grown = omega arith;
      within = omega arith;
      position = omega arith;
      kept = inl refl;
    } in
    let (t, loop, w) =
      write_loop-Written blocks g.all_blocks src size count distinct collected (count + 1) start
        valid (omega arith) in
    let small : ltb (512 * 140) ((size + count) % 2 ^ 32) ≡ false = ground arith in
    (t, rw (small, run, fine, loop) refl, w)

-- A write that would fill a file to its last byte, 71680 bytes, and that has its first block, halts the
-- machine.
pub file_write-full :
    (f : File) (src : ℕ → ℕ) (count : ℕ) (v : Volume)
    → f.fd_inode.i_size + count ≡ 71680
    → f.fd_inode.i_sectors 0 ≢ 0
    → file_write true true f src count v ≡ panic
unfolding file_write collect_blocks first_block collect
file_write-full f src count v full there =
    let first : (f.fd_inode.i_sectors 0 == 0) ≡ false = ground arith in rw (full, first) refl
