-- ===== src/Paging.antt =====
-- The page tables of kernel/init/vmm.c and kernel/init/vmm.h. The kernel reaches the tables through
-- virtual addresses, by way of the last entry of each directory, which is the directory itself; so
-- every access goes through the translation of the processor, with 4 KiB pages.
pub mod Walk
pub mod Entry
pub mod Mapping
mod Tests
use lt_kernel.Prelude.{
  ℕ, zero, suc, ◌+◌, ◌-◌, ◌*◌, ◌/◌, ◌%◌, ◌^◌, ◌<◌, Bool, true, false, not, ◌&&◌, Option, none, some,
  ◌==◌, if◌then◌else◌, ltb, leb, bit_and, bit_or,
}
use lt_kernel.Prelude.Result.{Result, ok, fault, ◌>>=◌}

-- The physical memory, a word for each address that is a multiple of 4, and the register `cr3`.
pub record Machine : Type 0 where
  pub ram : ℕ → ℕ
  pub cr3 : ℕ

-- The translation of the processor: the entry of the directory, the entry of the table, the page.
unfoldable pub walk : Machine → ℕ → Option ℕ
walk m v =
    let pde = m.ram (m.cr3 + 4 * (v / 0x400000)) in
    let pte = m.ram (pde / 4096 * 4096 + 4 * (v / 4096 % 1024)) in
    if pde % 2 == 0
    then none
    else if pte % 2 == 0
    then none
    else some (pte / 4096 * 4096 + v % 4096)

-- A read and a write of `*(u32 *)v`; a page that is not present is a `fault`.
unfoldable pub load : Machine → ℕ → Result ℕ
load m v = elim (walk m v) [ none ↦ fault | some p ↦ ok (m.ram p) ]

unfoldable pub store : ℕ → ℕ → Machine → Result Machine
store v x m = elim (walk m v) [
  | none ↦ fault
  | some p ↦ ok (record m { ram = λ q. if q == p then x else m.ram q })
]

-- `0xFFFFF000 | PD_OFFSET(v)` and `0xFFC00000 | ((v & 0xFFFFF000) >> 10)`: the operands of `|` have no
-- bit in common.
abbrev pub pde_at : ℕ → ℕ
pde_at v = 0xFFFFF000 + v / 0x400000 * 4

abbrev pub pte_at : ℕ → ℕ
pte_at v = 0xFFC00000 + v / 4096 * 4

abbrev pub page_present : ℕ
page_present = 1

abbrev pub page_writeable : ℕ
page_writeable = 2

abbrev pub page_non_privileged_access : ℕ
page_non_privileged_access = 4

-- `FlagOn`
abbrev pub flag_on : ℕ → ℕ → Bool
flag_on flags f = not (bit_and flags f == 0)

-- The assignment of a bit field of one bit, at place `i` of the word `w`.
unfoldable pub with_bit : ℕ → Bool → ℕ → ℕ
with_bit i b w = w / 2 ^ (i + 1) * 2 ^ (i + 1) + (if b then 2 ^ i else 0) + w % 2 ^ i

-- The six fields that both entries have.
unfoldable pub with_flags : ℕ → ℕ → ℕ
with_flags flags w = with_bit 5 (flag_on flags 32) (
    with_bit 4 (flag_on flags 16) (
      with_bit 3 (flag_on flags 8) (
        with_bit 2 (flag_on flags 4)
          (with_bit 1 (flag_on flags 2) (with_bit 0 (flag_on flags 1) w)))))

-- The words that `SetPageDirectoryEntry` and `SetPageTableEntry` leave in an entry: the address, which
-- overwrites all of it, and then the bit fields.
unfoldable pub page_directory_entry : ℕ → ℕ → ℕ
page_directory_entry pt_addr flags = with_bit 7 (flag_on flags 128) (with_flags flags pt_addr)

unfoldable pub page_table_entry : ℕ → ℕ → ℕ
page_table_entry page_addr flags = with_bit 6 (flag_on flags 64) (with_flags flags page_addr)

-- `SetPageDirectoryEntry` and `SetPageTableEntry` for an entry at a virtual address
abbrev pub set_page_directory_entry : ℕ → ℕ → ℕ → Machine → Result Machine
set_page_directory_entry pd pt_addr flags m = store pd (page_directory_entry pt_addr flags) m

abbrev pub set_page_table_entry : ℕ → ℕ → ℕ → Machine → Result Machine
set_page_table_entry pt page_addr flags m = store pt (page_table_entry page_addr flags) m

-- `CleanPageTable`, for the entries that are left
unfoldable pub clean_page_table : ℕ → ℕ → Machine → Result Machine
clean_page_table zero entry m = ok m
clean_page_table (suc left) entry m = do
  m' ← set_page_table_entry entry 0 0 m
  clean_page_table left (entry + 4) m'

-- `GetPhysicalAddress`; NULL is 0.
unfoldable pub get_physical_address : ℕ → Machine → Result ℕ
get_physical_address v m = do
  pde ← load m (pde_at v)
  elim (pde % 2 == 0) [
    | true ↦ ok 0
    | false ↦ do
      pte ← load m (pte_at v)
      ok (if pte % 2 == 0 then 0 else pte / 4096 * 4096 + v % 4096)
  ]

-- `AddPageToKernelPageDirectory`; `none` if the machine is stopped, by `hlt` for an address that is not
-- the kernel's, by a panic if there is no table. The argument `flags` is not used by the code.
unfoldable pub add_page_to_kernel_page_directory : ℕ → ℕ → Machine → Result (Option Machine)
add_page_to_kernel_page_directory v p m = elim (ltb 0x40000000 v) [
  | true ↦ ok none
  | false ↦ do
    pde ← load m (pde_at v)
    elim (flag_on pde page_present) [
      | false ↦ ok none
      | true ↦ do
        m' ← set_page_table_entry (pte_at v) p (bit_or page_present page_writeable) m
        ok (some m')
    ]
]

-- `IsVirtualAddressAvailable`
unfoldable pub is_virtual_address_available : ℕ → Machine → Result Bool
is_virtual_address_available v m = do
  pde ← load m (pde_at v)
  elim (flag_on pde page_present) [
    | false ↦ ok false
    | true ↦ do pte ← load m (pte_at v); ok (flag_on pte page_present)
  ]

-- `CheckUserVirtualAddressValidity`
abbrev pub check_user_virtual_address_validity : ℕ → Bool
check_user_virtual_address_validity v = not (v == 0) && leb 0x40000000 v
