-- ===== src/Descriptor.antt =====
-- kernel/interrupt.c and user_process/tss.c: the descriptors that the kernel writes for the processor,
-- and the handlers behind the vectors. A mask and its shift are written as a quotient and a remainder.
pub mod Decoded
mod Tests
use zy_os.Base.{ℕ, zero, suc, ◌+◌, ◌-◌, ◌*◌, ◌/◌, ◌%◌, ◌^◌, bit_or, List, [], ◌∷◌, update}

-- The macros of kernel/global.h.
abbrev selector_k_code : ℕ
selector_k_code = 8

abbrev selector_k_stack : ℕ
selector_k_stack = 16

abbrev pub idt_desc_attr_dpl0 : ℕ
idt_desc_attr_dpl0 = 0x8e

abbrev pub idt_desc_attr_dpl3 : ℕ
idt_desc_attr_dpl3 = 0xee

abbrev pub gdt_attr_high : ℕ
gdt_attr_high = 0xc0

abbrev gdt_code_attr_low_dpl3 : ℕ
gdt_code_attr_low_dpl3 = 0xf8

abbrev gdt_data_attr_low_dpl3 : ℕ
gdt_data_attr_low_dpl3 = 0xf2

abbrev pub tss_attr_high : ℕ
tss_attr_high = 0x80

abbrev pub tss_attr_low : ℕ
tss_attr_low = 0x89

abbrev idt_desc_cnt : ℕ
idt_desc_cnt = 0x81

pub record GateDesc : Type 0 where
  pub func_offset_low_word : ℕ
  pub selector : ℕ
  pub dcount : ℕ
  pub attribute : ℕ
  pub func_offset_high_word : ℕ

-- `function` is the address of the code.
unfoldable pub make_idt_desc : (attr function : ℕ) → GateDesc
make_idt_desc attr function = record {
  func_offset_low_word = function % 2 ^ 16;
  selector = selector_k_code;
  dcount = 0;
  attribute = attr % 256;
  func_offset_high_word = function / 2 ^ 16 % 2 ^ 16;
}

-- The loop over the table, with the rounds that are left.
unfoldable pub fill_gates : ℕ → ℕ → (ℕ → ℕ) → (ℕ → GateDesc) → ℕ → GateDesc
fill_gates zero i intr_entry_table idt = idt
fill_gates (suc left) i intr_entry_table idt =
    fill_gates left (i + 1) intr_entry_table
      (update idt i (make_idt_desc idt_desc_attr_dpl0 (intr_entry_table i)))

-- The entries of kernel/kernel.s are parameters. It defines those of the vectors up to 0x2f; what the loop
-- reads for a later one lies behind the table.
unfoldable pub idt_desc_init : (ℕ → ℕ) → ℕ → (ℕ → GateDesc) → ℕ → GateDesc
idt_desc_init intr_entry_table syscall_handler idt =
    let last_index = idt_desc_cnt - 1 in
    update (fill_gates idt_desc_cnt 0 intr_entry_table idt) last_index
      (make_idt_desc idt_desc_attr_dpl3 syscall_handler)

-- What `outb` writes, as pairs of a port and a byte, in order.
abbrev pic_init : List (ℕ × ℕ)
pic_init =
    (0x20, 0x11)
    ∷ (0x21, 0x20)
    ∷ (0x21, 0x04)
    ∷ (0x21, 0x01)
    ∷ (0xa0, 0x11)
    ∷ (0xa1, 0x28)
    ∷ (0xa1, 0x02)
    ∷ (0xa1, 0x01)
    ∷ (0x21, 0xf8)
    ∷ (0xa1, 0xbf)
    ∷ []

-- The handlers' part of the loop of `exception_init`, with the rounds that are left.
unfoldable pub fill_handlers : ℕ → ℕ → (general_intr_handler : ℕ) → (ℕ → ℕ) → ℕ → ℕ
fill_handlers zero i general_intr_handler idt_table = idt_table
fill_handlers (suc left) i general_intr_handler idt_table =
    fill_handlers left (i + 1) general_intr_handler (update idt_table i general_intr_handler)

unfoldable pub exception_init : (general_intr_handler : ℕ) → (ℕ → ℕ) → ℕ → ℕ
exception_init general_intr_handler idt_table =
    fill_handlers idt_desc_cnt 0 general_intr_handler idt_table

unfoldable pub register_handler : (vector_no function : ℕ) → (ℕ → ℕ) → ℕ → ℕ
register_handler vector_no function idt_table = update idt_table (vector_no % 256) function

-- The operand of `lidt`, with `sizeof(struct gate_desc)` 8, for the address of the table.
unfoldable idt_operand : ℕ → ℕ
idt_operand idt = bit_or (idt_desc_cnt * 8 - 1) (idt * 2 ^ 16)

pub record GdtDesc : Type 0 where
  pub limit_low_word : ℕ
  pub base_low_word : ℕ
  pub base_mid_byte : ℕ
  pub attr_low_byte : ℕ
  pub limit_high_attr_high : ℕ
  pub base_high_byte : ℕ

unfoldable pub make_gdt_desc : (desc_base limit attr_low attr_high : ℕ) → GdtDesc
make_gdt_desc desc_base limit attr_low attr_high = record {
  limit_low_word = limit % 2 ^ 16;
  base_low_word = desc_base % 2 ^ 16;
  base_mid_byte = desc_base / 2 ^ 16 % 256;
  attr_low_byte = attr_low % 256;
  limit_high_attr_high = (limit / 2 ^ 16 % 16 + attr_high % 256) % 256;
  base_high_byte = desc_base / 2 ^ 24 % 256;
}

-- The fields of `struct tss` that the kernel writes; the others stay 0.
record Tss : Type 0 where
  pub esp0 : ℕ
  pub ss0 : ℕ
  pub io_base : ℕ

unfoldable update_tss_esp : (pthread : ℕ) → Tss → Tss
update_tss_esp pthread tss = record tss { esp0 = (pthread + 4096) % 2 ^ 32 }

-- `sizeof(struct tss)`, 27 words.
abbrev pub tss_size : ℕ
tss_size = 108

-- The fields behind `memset`, and the descriptors that are written, each with its address.
unfoldable tss_init : (tss_addr : ℕ) → Tss × List (ℕ × GdtDesc)
tss_init tss_addr = (
  record { esp0 = 0; ss0 = selector_k_stack; io_base = tss_size },
  (0xc0000920, make_gdt_desc tss_addr (tss_size - 1) tss_attr_low tss_attr_high)
      ∷ (0xc0000928, make_gdt_desc 0 0xfffff gdt_code_attr_low_dpl3 gdt_attr_high)
      ∷ (0xc0000930, make_gdt_desc 0 0xfffff gdt_data_attr_low_dpl3 gdt_attr_high)
      ∷ [],
)
