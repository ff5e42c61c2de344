-- ===== src/Descriptors/Tests.antt =====
-- A segment of user code, and the gate of the keyboard.
use lt_kernel.Prelude.{◌+◌, ◌*◌, ◌≡◌, arith, get_elem?}
use lt_kernel.Descriptors.{
  gdt_init_descriptor, gdt_get_base_addr_from_descriptor, descriptor_bytes, idt_init,
}
use lt_kernel.Descriptors.Segments.{segment_of, gdt_init_descriptor-segment_of}
use lt_kernel.Descriptors.Gates.{IsGate, idt_init-IsGate}

gdt_init_descriptor-segment_of_example :
    (segment_of (descriptor_bytes (gdt_init_descriptor 0x12345678 0xFFFFF 0xFF 0x0F))
      ≡ record { base = 0x12345678; limit = 0xFFFFF; access = 0xFF; flags = 0x0F })
    × (gdt_get_base_addr_from_descriptor (gdt_init_descriptor 0x12345678 0xFFFFF 0xFF 0x0F)
        ≡ 0x12345678)
gdt_init_descriptor-segment_of_example =
    gdt_init_descriptor-segment_of 0x12345678 0xFFFFF 0xFF 0x0F (omega arith) (omega arith)
      (omega arith) (omega arith)

idt_init-IsGate_example :
    IsGate 0x100000
      (λ v. 0x200000 + v * 16)
      33
      (get_elem? (idt_init 0x100000 (λ v. 0x200000 + v * 16)) 33)
idt_init-IsGate_example = idt_init-IsGate 0x100000 (λ v. 0x200000 + v * 16) 33 (omega arith)
