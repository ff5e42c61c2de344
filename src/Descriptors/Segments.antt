-- ===== src/Descriptors/Segments.antt =====
-- What the processor reads from a segment descriptor.
use lt_kernel.Prelude.{ℕ, ◌+◌, ◌*◌, ◌/◌, ◌%◌, ◌<◌, ◌≡◌, List, get_or, arith}
use lt_kernel.Descriptors.{gdt_init_descriptor, gdt_get_base_addr_from_descriptor, descriptor_bytes}

-- The layout of a segment descriptor of 8 bytes, as the processor defines it.
pub record Segment : Type 0 where
  pub base : ℕ
  pub limit : ℕ
  pub access : ℕ
  pub flags : ℕ

abbrev pub segment_of : List ℕ → Segment
segment_of bytes = record {
  base =
      get_or bytes 2 0
      + 0x100 * get_or bytes 3 0
      + 0x10000 * get_or bytes 4 0
      + 0x1000000 * get_or bytes 7 0;
  limit = get_or bytes 0 0 + 0x100 * get_or bytes 1 0 + 0x10000 * (get_or bytes 6 0 % 16);
  access = get_or bytes 5 0;
  flags = get_or bytes 6 0 / 16;
}

-- For a base of 32 bits, a limit of 20, an access byte and 4 flags: the processor reads from the bytes of
-- the descriptor that GdtInitDescriptor fills these four values, and GdtGetBaseAddrFromDescriptor
-- answers the base.
pub gdt_init_descriptor-segment_of :
    (base limit access flags : ℕ)
    → base < 0x100000000
    → limit < 0x100000
    → access < 256
    → flags < 16
    → (segment_of (descriptor_bytes (gdt_init_descriptor base limit access flags))
        ≡ record { base = base; limit = limit; access = access; flags = flags })
      × (gdt_get_base_addr_from_descriptor (gdt_init_descriptor base limit access flags) ≡ base)
unfolding gdt_init_descriptor descriptor_bytes gdt_get_base_addr_from_descriptor
gdt_init_descriptor-segment_of base limit access flags hb hl ha hf = (ground arith, omega arith)
