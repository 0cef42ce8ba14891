-- ===== src/Descriptor/Decoded.antt =====
-- The descriptors of kernel/interrupt.c and user_process/tss.c, read as the processor reads them.
use zy_os.Base.{
  ℕ, zero, suc, ◌+◌, ◌-◌, ◌*◌, ◌/◌, ◌%◌, ◌^◌, ◌≤◌, ◌<◌, ◌≡◌, ◌⊎◌, leb, ◌&&◌, sym, subst, refl, Bool,
  true, false, if◌then◌else◌, ◌==◌, ltb, update, arith,
}
use zy_os.Descriptor.{
  GateDesc, GdtDesc, make_idt_desc, fill_gates, idt_desc_init, make_gdt_desc, fill_handlers,
  exception_init, register_handler, idt_desc_attr_dpl0, idt_desc_attr_dpl3, tss_size, tss_attr_low,
  tss_attr_high,
}

-- The code that a gate leads to.
unfoldable gate_offset : GateDesc → ℕ
gate_offset g = g.func_offset_high_word * 2 ^ 16 + g.func_offset_low_word

-- The least privilege (`DPL`) from which `int` may enter a gate: bits 5 and 6 of the attribute.
unfoldable gate_dpl : GateDesc → ℕ
gate_dpl g = g.attribute / 2 ^ 5 % 4

make_idt_desc-offset :
    (attr function : ℕ) → function < 2 ^ 32 → gate_offset (make_idt_desc attr function) ≡ function
unfolding gate_offset make_idt_desc
make_idt_desc-offset attr function h = omega arith

-- The loop leaves the entries below `i` and behind the last.
fill_gates_out :
    (left i : ℕ) (entry : ℕ → ℕ) (idt : ℕ → GateDesc) (v : ℕ)
    → (v < i) ⊎ (i + left ≤ v)
    → fill_gates left i entry idt v ≡ idt v
unfolding fill_gates
fill_gates_out zero i entry idt v out = refl
fill_gates_out (suc left) i entry idt v out =
    let next = update idt i (make_idt_desc idt_desc_attr_dpl0 (entry i)) in
    ground (arith, fill_gates_out left (i + 1) entry next v)

fill_gates_lem :
    (left i : ℕ) (entry : ℕ → ℕ) (idt : ℕ → GateDesc) (v : ℕ)
    → i ≤ v
    → v < i + left
    → fill_gates left i entry idt v ≡ make_idt_desc idt_desc_attr_dpl0 (entry v)
unfolding fill_gates
fill_gates_lem zero i entry idt v lo hi = absurd (omega arith)
fill_gates_lem (suc left) i entry idt v lo hi =
    let next = update idt i (make_idt_desc idt_desc_attr_dpl0 (entry i)) in
    ground
      (arith, fill_gates_lem left (i + 1) entry next v, fill_gates_out left (i + 1) entry next v)

-- The bit `P`, and the type: 0xe, with the bit `S` clear, for an interrupt gate of 32 bits.
unfoldable gate_present : GateDesc → ℕ
gate_present g = g.attribute / 2 ^ 7 % 2

unfoldable gate_type : GateDesc → ℕ
gate_type g = g.attribute % 2 ^ 5

-- The gate is present, an interrupt gate that may be entered by `int` from privilege `dpl`, and leads to
-- `function` in the first segment of the global table, the kernel's code, for privilege 0.
pub Enters : (dpl function : ℕ) → GateDesc → Type 0
Enters dpl function g =
    (gate_present g ≡ 1)
    × (gate_type g ≡ 0xe)
    × (gate_dpl g ≡ dpl)
    × (g.dcount ≡ 0)
    × (g.selector ≡ 1 * 2 ^ 3 + 0 * 2 ^ 2 + 0)
    × (gate_offset g ≡ function)

make_idt_desc-Enters_kernel :
    (function : ℕ)
    → function < 2 ^ 32
    → Enters 0 function (make_idt_desc idt_desc_attr_dpl0 function)
unfolding Enters gate_present gate_type gate_dpl make_idt_desc
make_idt_desc-Enters_kernel function h =
    (refl, refl, refl, refl, refl, make_idt_desc-offset idt_desc_attr_dpl0 function h)

make_idt_desc-Enters_user :
    (function : ℕ)
    → function < 2 ^ 32
    → Enters 3 function (make_idt_desc idt_desc_attr_dpl3 function)
unfolding Enters gate_present gate_type gate_dpl make_idt_desc
make_idt_desc-Enters_user function h =
    (refl, refl, refl, refl, refl, make_idt_desc-offset idt_desc_attr_dpl3 function h)

-- A choice between a gate for users and one for the kernel.
choice-Enters :
    (b : Bool) (user kernel : ℕ) (g g' : GateDesc)
    → Enters 3 user g
    → Enters 0 kernel g'
    → Enters (if b then 3 else 0) (if b then user else kernel) (if b then g else g')
choice-Enters true user kernel g g' u k = u
choice-Enters false user kernel g g' u k = k

-- For a vector below 0x30, or the vector 0x80, whose entry, like syscall_handler, lies below 2^32,
-- idt_desc_init leaves a present interrupt gate into the segment of the kernel's code: one of privilege
-- 3 that leads to syscall_handler if the vector is 0x80, and otherwise one of privilege 0 that leads to
-- the entry of the vector.
pub idt_desc_init_lem :
    (entry : ℕ → ℕ) (syscall_handler : ℕ) (idt : ℕ → GateDesc) (v : ℕ)
    → entry v < 2 ^ 32
    → syscall_handler < 2 ^ 32
    → (v < 0x30) ⊎ (v ≡ 0x80)
    → Enters
        (if v == 0x80 then 3 else 0)
        (if v == 0x80 then syscall_handler else entry v)
        (idt_desc_init entry syscall_handler idt v)
unfolding idt_desc_init
idt_desc_init_lem entry syscall_handler idt v small h there =
    let lo : v < 0x81 = omega arith in
    choice-Enters (v == 0x80) _ _ _ _ (make_idt_desc-Enters_user syscall_handler h) (
      subst (Enters 0 (entry v)) (sym (fill_gates_lem 0x81 0 entry idt v (omega arith) lo))
        (make_idt_desc-Enters_kernel (entry v) small))

fill_handlers_lem :
    (left i general : ℕ) (idt_table : ℕ → ℕ) (v : ℕ)
    → fill_handlers left i general idt_table v
      ≡ (if leb i v && ltb v (i + left) then general else idt_table v)
unfolding fill_handlers
fill_handlers_lem zero i general idt_table v = ground arith
fill_handlers_lem (suc left) i general idt_table v =
    ground (arith, fill_handlers_lem left (i + 1) general (update idt_table i general) v)

register_handler_lem :
    (general vector_no function : ℕ) (idt_table : ℕ → ℕ) (v : ℕ)
    → vector_no < 256
    → register_handler vector_no function (exception_init general idt_table) v
      ≡ (if v == vector_no then function else if ltb v 0x81 then general else idt_table v)
unfolding exception_init register_handler
register_handler_lem general vector_no function idt_table v h =
    ground (arith, fill_handlers_lem 0x81 0 general idt_table v)

-- A segment as the processor takes it: its first address, and its size by the limit and the bit `G`.
unfoldable segment_base : GdtDesc → ℕ
segment_base d = d.base_high_byte * 2 ^ 24 + d.base_mid_byte * 2 ^ 16 + d.base_low_word

unfoldable pub segment_limit : GdtDesc → ℕ
segment_limit d = d.limit_high_attr_high % 16 * 2 ^ 16 + d.limit_low_word

unfoldable segment_size : GdtDesc → ℕ
segment_size d =
    if d.limit_high_attr_high / 2 ^ 7 == 0
    then segment_limit d + 1
    else (segment_limit d + 1) * 4096

make_gdt_desc_lem :
    (desc_base limit attr_low attr_high : ℕ)
    → desc_base < 2 ^ 32
    → limit < 2 ^ 20
    → attr_low < 256
    → attr_high < 256
    → attr_high % 16 ≡ 0
    → let d = make_gdt_desc desc_base limit attr_low attr_high in
      (segment_base d ≡ desc_base)
      × (segment_limit d ≡ limit)
      × (d.attr_low_byte ≡ attr_low)
      × (d.limit_high_attr_high / 2 ^ 4 ≡ attr_high / 2 ^ 4)
unfolding segment_base segment_limit make_gdt_desc
make_gdt_desc_lem desc_base limit attr_low attr_high hb hl lo hi low =
    (omega arith, omega arith, omega arith, omega arith)

-- The state segment lies at its address, but reaches 4096 times its size.
tss_init-size :
    (tss_addr : ℕ)
    → tss_addr < 2 ^ 32
    → let d = make_gdt_desc tss_addr (tss_size - 1) tss_attr_low tss_attr_high in
      (segment_base d ≡ tss_addr) × (segment_size d ≡ tss_size * 4096)
unfolding segment_base segment_limit segment_size make_gdt_desc
tss_init-size tss_addr h = (omega arith, refl)
