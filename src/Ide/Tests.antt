-- ===== src/Ide/Tests.antt =====
-- The disk driver at concrete commands and tables.
use zy_os.Base.{◌≡◌, refl, true, [], arith, ltb, if◌then◌else◌}
use zy_os.Ide.{Hd, ide_read, ide_write}
use zy_os.Ide.Transfers.{Transfers, ide_transfer_lem}
use zy_os.Ide.Waiting.{Polled, busy_wait, busy_wait-Polled, swap_from, swap_pairs_bytes}
use zy_os.Ide.Partitions.{Scan}

abbrev second_disk : Hd
second_disk = record { port_base = 0x1f0; dev_no = 1 }

-- 300 sectors take two commands.
ide_transfer_lem_example :
    Transfers second_disk 2048 0xc0100000 300
      (ide_read second_disk (λ done. true) 2048 0xc0100000 300)
    × Transfers second_disk 2048 0xc0100000 300
        (ide_write second_disk (λ done. true) 2048 0xc0100000 300)
ide_transfer_lem_example =
    ide_transfer_lem second_disk 2048 0xc0100000 300 (omega arith) (omega arith) (omega arith)

-- Busy three times, then with data.
busy_wait-Polled_example :
    Polled
      (λ k. if ltb k 3 then 0x80 else 0x40)
      (λ k. 0x48)
      0
      29999
      (busy_wait (λ k. if ltb k 3 then 0x80 else 0x40) (λ k. 0x48))
busy_wait-Polled_example = busy_wait-Polled (λ k. if ltb k 3 then 0x80 else 0x40) (λ k. 0x48)

abbrev nothing_found : Scan
nothing_found = record {
  ext_lba_base = 0;
  p_no = 0;
  l_no = 0;
  prim_parts = λ k. record { no = 0; start_lba = 0; sec_cnt = 0 };
  logic_parts = λ k. record { no = 0; start_lba = 0; sec_cnt = 0 };
  partition_list = [];
}

-- "ba" is the text of a word that holds "ab".
swaps : swap_pairs_bytes (λ k. if ltb k 1 then 97 else 98) (λ k. 7) 2 0 ≡ 98
unfolding swap_pairs_bytes swap_from
swaps = refl
