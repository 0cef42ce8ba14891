-- ===== src/Fs/Opened/Tests.antt =====
-- Two descriptors of one file.
use zy_os.Base.{
  ℕ, ◌≡◌, ◌≢◌, refl, true, some, Option, [], ◌∷◌, ◌==◌, if◌then◌else◌, update, arith, ok, ◌>>=◌,
}
use zy_os.Fs.Inode.{Part}
use zy_os.Fs.File.{Inode}
use zy_os.Fs.Files.{pcb_fd_install, minus_one, get_free_slot_in_global, free_from}
use zy_os.Fs.Opened.{
  Opened, find_open, o_wronly, file_open, file_close, inode_close, fd_local_to_global, sys_close,
  update_inode_open_cnts,
}
use zy_os.Fs.Opened.Counts.{count, slots, refs, Counted}
use zy_os.Fs.Opened.Steps.{World, close_file, here, next, Sound, no_dangling_file}
use zy_os.Fs.Opened.Shared.{fork-sys_close, second_writer}

-- The file 9 at the address 4096, open as 3 for writing and as 4 for reading.
abbrev file_9 : Inode
file_9 = record { i_no = 9; i_size = 100; i_open_cnts = 2; write_deny = true; i_sectors = λ k. 0 }

abbrev twice : Opened
twice = record {
  file_table = λ g. record {
    fd_pos = 0;
    fd_flag = if g == 3 then 1 else 0;
    fd_inode = if g == 3 then 4096 else if g == 4 then 4096 else 0;
  };
  inode = λ p. file_9;
  open_inodes = 4096 ∷ [];
}

abbrev part : Part
part = record { start_lba = 2048; sec_cnt = 100000; inode_table_lba = 2100 }

abbrev one_fd : ℕ → ℕ
one_fd k = if k == 3 then 4 else minus_one

second_writer_example :
    (d : Option ℕ × Opened × (ℕ → ℕ)) × (file_open 8192 part 9 o_wronly
        (λ l i. 0)
        (file_close 4 twice)
        one_fd
      ≡ ok d)
    × (d.1.file_table 3 ≡ twice.file_table 3)
    × (◌≢◌ {A = ℕ} 3 4)
    × (d.1.file_table 4 ≡ record { fd_pos = 0; fd_flag = o_wronly; fd_inode = 4096 })
    × (d.0 ≡ some 4)
    × (d.2 ≡ update one_fd 4 4)
unfolding pcb_fd_install find_open get_free_slot_in_global free_from file_close inode_close
second_writer_example =
    second_writer 8192 part 9 4 3 4 (λ l i. 0) twice one_fd (omega arith) (omega arith) refl
      (omega arith) (omega arith) refl refl 4 refl

fork-sys_close_example :
    (s' : Opened) × ((update_inode_open_cnts one_fd twice >>= λ forked. sys_close 3 forked one_fd)
      ≡ ok (true, s', update one_fd 3 minus_one))
    × (fd_local_to_global one_fd 3 ≡ ok 4)
    × ((s'.file_table 4).fd_inode ≡ 0)
    × ((s'.inode 4096).i_open_cnts ≡ 2)
    × (s'.open_inodes ≡ 4096 ∷ [])
fork-sys_close_example =
    fork-sys_close twice one_fd 4 refl (omega arith) (λ k l h. ground arith) (omega arith)
      (omega arith)

twice-Counted : Counted [] twice
unfolding count slots
twice-Counted = record {
  nonnull = refl;
  listed = λ p nz. ground arith;
  counted = λ p nz pos. ground arith;
}

abbrev start : World
start = record { held = []; opened = twice }

abbrev behind : World
behind = record { held = []; opened = file_close 4 twice }

start-Sound : Sound start
start-Sound = record { counts = twice-Counted; few = omega arith }

-- The other descriptor is closed.
no_dangling_file_example :
    (count 4096 behind.opened.open_inodes ≡ 1)
    × ((behind.opened.inode 4096).i_open_cnts ≡ refs [] behind.opened 4096)
unfolding file_close inode_close
no_dangling_file_example =
    no_dangling_file start behind start-Sound
      (next here (close_file start 4 (omega arith) (omega arith))) 3 (omega arith) (omega arith)
