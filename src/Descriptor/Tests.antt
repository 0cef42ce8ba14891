-- ===== src/Descriptor/Tests.antt =====
-- The descriptors at concrete addresses.
use zy_os.Base.{◌+◌, ◌*◌, ◌≡◌, refl, inl, arith}
use zy_os.Descriptor.{GateDesc, idt_desc_init, make_gdt_desc, gdt_attr_high}
use zy_os.Descriptor.Decoded.{Enters, idt_desc_init_lem, segment_limit}

abbrev blank : GateDesc
blank = record {
  func_offset_low_word = 0;
  selector = 0;
  dcount = 0;
  attribute = 0;
  func_offset_high_word = 0;
}

-- The vector of the clock, for entries of 16 bytes from 0xc0001500 on.
idt_desc_init_lem_example :
    Enters 0 0xc0001700 (idt_desc_init (λ k. 0xc0001500 + 16 * k) 0xc0001d80 (λ k. blank) 0x20)
idt_desc_init_lem_example =
    idt_desc_init_lem (λ k. 0xc0001500 + 16 * k) 0xc0001d80 (λ k. blank) 0x20 (omega arith)
      (omega arith) (inl (omega arith))

code_segment : segment_limit (make_gdt_desc 0 0xfffff 0xf8 gdt_attr_high) ≡ 0xfffff
unfolding segment_limit make_gdt_desc
code_segment = refl
