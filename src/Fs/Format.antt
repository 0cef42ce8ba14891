-- ===== src/Fs/Format.antt =====
-- `partition_format` of fs/fs.c: the super block and the sectors that are written, in order.
-- `struct inode` has 76 bytes and `struct dir_entry` 24. `buf` is 0 where it is not written, since
-- `sys_malloc` clears what it returns.
use zy_os.Base.{
  ℕ, zero, suc, ◌+◌, ◌-◌, ◌*◌, ◌/◌, ◌%◌, ◌^◌, ◌&&◌, Bool, true, List, [], ◌∷◌, ltb, leb,
  if◌then◌else◌, update,
}
use zy_os.Base.Bytes.{set_bit, clear_bit}

pub record SuperBlock : Type 0 where
  pub magic : ℕ
  pub sec_cnt : ℕ
  pub inode_cnt : ℕ
  pub part_lba_base : ℕ
  pub block_bitmap_lba : ℕ
  pub block_bitmap_sects : ℕ
  pub inode_bitmap_lba : ℕ
  pub inode_bitmap_sects : ℕ
  pub inode_table_lba : ℕ
  pub inode_table_sects : ℕ
  pub data_start_lba : ℕ
  pub root_inode_no : ℕ
  pub dir_entry_size : ℕ

abbrev pub inode_size : ℕ
inode_size = 76

abbrev pub div_round_up : ℕ → ℕ → ℕ
div_round_up x step = (x + step - 1) % 2 ^ 32 / step

-- The blocks that the bitmap stands for, `block_bitmap_bit_len`.
unfoldable pub bitmap_bit_len : (sec_cnt : ℕ) → ℕ
bitmap_bit_len sec_cnt =
    let inode_table_sects = div_round_up (inode_size * 4096) 512 in
    let used_sects = 1 + 1 + div_round_up 4096 4096 + inode_table_sects in
    let free_sects = (sec_cnt + 2 ^ 32 - used_sects) % 2 ^ 32 in
    free_sects - div_round_up free_sects 4096

unfoldable pub super_block_of : (start_lba sec_cnt : ℕ) → SuperBlock
super_block_of start_lba sec_cnt =
    let inode_bitmap_sects = div_round_up 4096 4096 in
    let inode_table_sects = div_round_up (inode_size * 4096) 512 in
    let block_bitmap_sects = div_round_up (bitmap_bit_len sec_cnt) 4096 in
    let block_bitmap_lba = (start_lba + 2) % 2 ^ 32 in
    let inode_bitmap_lba = (block_bitmap_lba + block_bitmap_sects) % 2 ^ 32 in
    let inode_table_lba = (inode_bitmap_lba + inode_bitmap_sects) % 2 ^ 32 in
    record {
      magic = 0x19970719;
      sec_cnt = sec_cnt;
      inode_cnt = 4096;
      part_lba_base = start_lba;
      block_bitmap_lba = block_bitmap_lba;
      block_bitmap_sects = block_bitmap_sects;
      inode_bitmap_lba = inode_bitmap_lba;
      inode_bitmap_sects = inode_bitmap_sects;
      inode_table_lba = inode_table_lba;
      inode_table_sects = inode_table_sects;
      data_start_lba = (inode_table_lba + inode_table_sects) % 2 ^ 32;
      root_inode_no = 0;
      dir_entry_size = 24;
    }

-- `while (bit_idx <= block_bitmap_last_bit)`, with the rounds left.
unfoldable pub clear_bits : (byte bit_idx left : ℕ) → ℕ
clear_bits byte bit_idx zero = byte
clear_bits byte bit_idx (suc left) = clear_bits (clear_bit byte bit_idx) (bit_idx + 1) left

unfoldable pub block_bitmap : (bit_len : ℕ) → ℕ → ℕ
block_bitmap bit_len =
    let last_byte = bit_len / 8 in
    let last_bit = bit_len % 8 in
    let last_size = 512 - last_byte % 512 in
    let buf = update (λ (i : ℕ). 0) 0 (set_bit 0 0) in
    let filled =
      λ (i : ℕ). if leb last_byte i && ltb i (last_byte + last_size) then 0xff else buf i in
    update filled last_byte (clear_bits (filled last_byte) 0 (last_bit + 1))

pub record DirEntry : Type 0 where
  pub filename : List ℕ
  pub i_no : ℕ
  pub is_directory : Bool

-- What is written: the super block, a bitmap, the inode table by the root's size, number and first
-- sector, or the root directory.
pub data Image : Type 0 where
  super_block : SuperBlock → Image
  bitmap : (ℕ → ℕ) → Image
  inode_table : (i_size i_no i_sector : ℕ) → Image
  directory : List DirEntry → Image

pub record Write : Type 0 where
  pub lba : ℕ
  pub image : Image
  pub sects : ℕ

unfoldable pub partition_format : (start_lba sec_cnt : ℕ) → List Write
partition_format start_lba sec_cnt =
    let sb = super_block_of start_lba sec_cnt in
    record { lba = (start_lba + 1) % 2 ^ 32; image = super_block sb; sects = 1 }
    ∷ record {
      lba = sb.block_bitmap_lba;
      image = bitmap (block_bitmap (bitmap_bit_len sec_cnt));
      sects = sb.block_bitmap_sects;
    }
    ∷ record {
      lba = sb.inode_bitmap_lba;
      image = bitmap (update (λ (i : ℕ). 0) 0 (set_bit 0 0));
      sects = sb.inode_bitmap_sects;
    }
    ∷ record {
      lba = sb.inode_table_lba;
      image = inode_table (sb.dir_entry_size * 2) 0 sb.data_start_lba;
      sects = sb.inode_table_sects;
    }
    ∷ record {
      lba = sb.data_start_lba;
      image = directory (
          record { filename = 46 ∷ []; i_no = 0; is_directory = true }
          ∷ record { filename = 46 ∷ 46 ∷ []; i_no = 0; is_directory = true }
          ∷ []);
      sects = 1;
    }
    ∷ []
