-- ===== src/Descriptors.antt =====
-- The descriptor tables: kernel/init/gdt.c and kernel/init/idt.c. The addresses of the interrupt routines,
-- which are assembly, and of the task state are parameters.
pub mod Segments
pub mod Gates
mod Tests
use lt_kernel.Prelude.{
  ℕ, zero, suc, ◌+◌, ◌*◌, ◌/◌, ◌%◌, ◌^◌, Bool, true, false, List, [], ◌∷◌, ◌==◌, if◌then◌else◌, leb,
  set, replicate,
}
use lt_kernel.Prelude.Words.{u8, u16, u32}

pub record GdtDescriptor : Type 0 where
  pub limit0_15 : ℕ
  pub base0_15 : ℕ
  pub base16_23 : ℕ
  pub access : ℕ
  pub limit16_19 : ℕ
  pub flags : ℕ
  pub base24_31 : ℕ

-- `GdtInitDescriptor`
unfoldable pub gdt_init_descriptor : ℕ → ℕ → ℕ → ℕ → GdtDescriptor
gdt_init_descriptor base limit access flags = record {
  limit0_15 = u16 limit;
  base0_15 = u16 base;
  base16_23 = base / 0x10000 % 256;
  access = u8 access;
  limit16_19 = limit / 0x10000 % 16;
  flags = flags % 16;
  base24_31 = base / 0x1000000 % 256;
}

-- `GdtGetBaseAddrFromDescriptor`: the operands of `|` have no bit in common.
unfoldable pub gdt_get_base_addr_from_descriptor : GdtDescriptor → ℕ
gdt_get_base_addr_from_descriptor d = d.base0_15 + d.base16_23 * 0x10000 + d.base24_31 * 0x1000000

-- The bytes of a packed descriptor: the fields of four bits share one.
unfoldable pub descriptor_bytes : GdtDescriptor → List ℕ
descriptor_bytes d =
    d.limit0_15 % 256
    ∷ d.limit0_15 / 256
    ∷ d.base0_15 % 256
    ∷ d.base0_15 / 256
    ∷ d.base16_23
    ∷ d.access
    ∷ (d.limit16_19 + 16 * d.flags)
    ∷ d.base24_31
    ∷ []

-- `sizeof(Tss)`, and `gGdtDescriptor` as `GdtInit` fills it
abbrev pub tss_size : ℕ
tss_size = 104

abbrev pub gdt_init : ℕ → List GdtDescriptor
gdt_init tss =
    gdt_init_descriptor 0 0 0 0
    ∷ gdt_init_descriptor 0 0xFFFFF 0x9B 0x0D
    ∷ gdt_init_descriptor 0 0xFFFFF 0x93 0x0D
    ∷ gdt_init_descriptor 0 0xFFFFF 0xFF 0x0F
    ∷ gdt_init_descriptor 0 0xFFFFF 0xF3 0x0F
    ∷ gdt_init_descriptor tss tss_size 0xE9 0
    ∷ []

-- `GdtGetDescriptor`: the table is at address 0, so the selector is the address.
unfoldable pub gdt_get_descriptor : ℕ → ℕ
gdt_get_descriptor selector = if leb selector 40 then selector else 0

pub record IdtDescriptor : Type 0 where
  pub offset0_15 : ℕ
  pub selector : ℕ
  pub type : ℕ
  pub offset16_31 : ℕ

-- `CPU_GATE` and `SYSCALL_GATE`
abbrev pub cpu_gate : ℕ
cpu_gate = 0x8E

abbrev pub syscall_gate : ℕ
syscall_gate = 0xEF

-- `IdtInitDescriptor`, for an entry
unfoldable pub idt_init_descriptor : ℕ → ℕ → IdtDescriptor
idt_init_descriptor isr_addr type = record {
  offset0_15 = isr_addr % 0x10000;
  selector = 0x8;
  type = u16 (type * 256);
  offset16_31 = isr_addr / 0x10000 % 0x10000;
}

abbrev pub idt_size : ℕ
idt_size = 255

-- The vectors that `IdtInit` gives a routine of their own and CPU_GATE.
abbrev pub cpu_vectors : List ℕ
cpu_vectors =
    0 ∷ 2 ∷ 4 ∷ 5 ∷ 6 ∷ 7 ∷ 8 ∷ 10 ∷ 11 ∷ 12 ∷ 13 ∷ 14 ∷ 16 ∷ 17 ∷ 18 ∷ 19 ∷ 20 ∷ 30 ∷ 32 ∷ 33 ∷ 36
    ∷ []

unfoldable pub install : (ℕ → ℕ) → List ℕ → List IdtDescriptor → List IdtDescriptor
install isr [] idt = idt
install isr (v ∷ vs) idt = install isr vs (set idt v (idt_init_descriptor (isr v) cpu_gate))

-- `IdtInit`, where `isr` is the address of the routine of a vector and `default` that of
-- `_asm_default_isr`.
unfoldable pub idt_init : ℕ → (ℕ → ℕ) → List IdtDescriptor
idt_init default isr =
    let idt = replicate idt_size (idt_init_descriptor default cpu_gate) in
    set (install isr cpu_vectors idt) 48 (idt_init_descriptor (isr 48) syscall_gate)
