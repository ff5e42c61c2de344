-- ===== src/Elf.antt =====
-- The ELF loader: kernel/fs/elf.c. A file is the list of its bytes; a read behind its end is a `fault`.
-- Of a page of code the model keeps the call of AddPageToPageDirectory, whose subject is Spaces, and
-- what the page holds; what PmCreateProcess answers is a parameter. MmSet clears 4096 bytes from the
-- address on: for an address that is not the start of a page they reach into the next page, which is
-- not mapped or holds the program already, and the model gives a `fault`.
pub mod Count
pub mod Segment
pub mod Program
mod Tests
use lt_kernel.Prelude.{
  ℕ, zero, suc, ◌+◌, ◌-◌, ◌*◌, ◌/◌, ◌%◌, ◌^◌, ◌<◌, Bool, true, false, ◌&&◌, List, [], ◌∷◌, ◌++◌,
  ◌==◌, if◌then◌else◌, ltb, drop, replicate, length,
}
use lt_kernel.Prelude.Words.{u32}
use lt_kernel.Prelude.Result.{Result, ok, fault, stuck, ◌>>=◌}
use lt_kernel.Status.{
  KeStatus, status_success, status_not_elf_file, status_invalid_virtual_user_address,
  status_physical_memory_full, failed,
}
use lt_kernel.Frames.{Bitmap, get_free_page, page_size}
use lt_kernel.Paging.{check_user_virtual_address_validity}
use lt_kernel.FileCache.{byte_at, bytes_at}

-- A page of code: where it is mapped, its frame, and its bytes.
pub record CodePage : Type 0 where
  pub v_addr : ℕ
  pub p_addr : ℕ
  pub bytes : List ℕ

abbrev pub u16_at : List ℕ → ℕ → Result ℕ
u16_at file i = do a ← byte_at file i; b ← byte_at file (i + 1); ok (a + 0x100 * b)

abbrev pub u32_at : List ℕ → ℕ → Result ℕ
u32_at file i = do a ← u16_at file i; b ← u16_at file (i + 2); ok (a + 0x10000 * b)

-- `ElfIdent`, and `ElfCheckIdent` from the byte at `i` on
abbrev pub elf_ident : List ℕ
elf_ident = 0x7f ∷ b'E' ∷ b'L' ∷ b'F' ∷ []

unfoldable pub check_loop : List ℕ → ℕ → List ℕ → Result Bool
check_loop file i [] = ok true
check_loop file i (x ∷ ident) = do
  b ← byte_at file i
  elim (b == x) [ true ↦ check_loop file (i + 1) ident | false ↦ ok false ]

abbrev pub elf_check_ident : List ℕ → Result Bool
elf_check_ident file = check_loop file 0 elf_ident

-- The fields of `ElfHeader` that are read.
pub record ElfHeader : Type 0 where
  pub entry : ℕ
  pub phoff : ℕ
  pub phnum : ℕ

unfoldable pub elf_header : List ℕ → Result ElfHeader
elf_header file = do
  entry ← u32_at file 24
  phoff ← u32_at file 28
  phnum ← u16_at file 44
  ok record { entry = entry; phoff = phoff; phnum = phnum }

-- The fields of `ElfProgramHeaderTable` that are read.
pub record ProgramHeader : Type 0 where
  pub offset : ℕ
  pub vaddr : ℕ
  pub mem_size : ℕ

unfoldable pub program_header : List ℕ → ℕ → Result ProgramHeader
program_header file i = do
  offset ← u32_at file (i + 4)
  vaddr ← u32_at file (i + 8)
  mem_size ← u32_at file (i + 20)
  ok record { offset = offset; vaddr = vaddr; mem_size = mem_size }

-- The status, the pages that were mapped, and the bitmap.
pub record Loaded : Type 0 where
  pub status : KeStatus
  pub code : List CodePage
  pub bitmap : Bitmap

abbrev pub loaded : KeStatus → Bitmap → Loaded
loaded status bm = record { status = status; code = []; bitmap = bm }

abbrev pub with_page : CodePage → Loaded → Loaded
with_page p l = record l { code = p ∷ l.code }

-- `MmSet(page, 0, PAGE_SIZE)` and then `MmCopy` of some bytes to its start
abbrev pub fill_page : List ℕ → List ℕ
fill_page bytes = bytes ++ drop (length bytes) (replicate page_size 0)

-- `while (count < size)`, for `fuel` pages
unfoldable pub load_pages : List ℕ → ℕ → ℕ → ℕ → ℕ → ℕ → Bitmap → Result Loaded
load_pages file zero v source size count bm = stuck
load_pages file (suc fuel) v source size count bm =
    let frame = get_free_page bm in
    let part = (if ltb (size - count) page_size then size - count else page_size) in
    elim (ltb count size) [
      | false ↦ ok (loaded status_success bm)
      | true ↦ elim (check_user_virtual_address_validity v) [
        | false ↦ ok (loaded status_invalid_virtual_user_address bm)
        | true ↦ elim (frame.0 == 0) [
          | true ↦ ok (loaded status_physical_memory_full frame.1)
          | false ↦ elim (v % page_size == 0) [
            | false ↦ fault
            | true ↦ do
              bytes ← bytes_at file (source + count) part
              rest ←
                  load_pages file fuel (u32 (v + page_size)) source size (u32 (count + page_size))
                    frame.1
              ok (with_page (record { v_addr = v; p_addr = frame.0; bytes = fill_page bytes }) rest)
          ]
        ]
      ]
    ]

-- The loop over the program headers, from the one at `i` on; it ends at an address that is NULL.
unfoldable pub load_segments : ℕ → List ℕ → ℕ → ℕ → Bitmap → Result Loaded
load_segments fuel file i zero bm = ok (loaded status_success bm)
load_segments fuel file i (suc left) bm = do
  h ← program_header file i
  elim (h.vaddr == 0) [
    | true ↦ ok (loaded status_success bm)
    | false ↦ do
      l ← load_pages file fuel h.vaddr h.offset h.mem_size 0 bm
      elim (failed l.status) [
        | true ↦ ok l
        | false ↦ do
          m ← load_segments fuel file (i + 32) left l.bitmap
          ok (record m { code = l.code ++ m.code })
      ]
  ]

-- `LoadElf`, for pointers that are not NULL, where `create` answers the status of PmCreateProcess for an
-- entry. ElfInit always succeeds: its test of `phoff` is overwritten.
unfoldable pub load_elf : ℕ → (ℕ → KeStatus) → List ℕ → Bitmap → Result Loaded
load_elf fuel create file bm = do
  is_elf ← elf_check_ident file
  elim is_elf [
    | false ↦ ok (loaded status_not_elf_file bm)
    | true ↦ do
      h ← elf_header file
      elim (failed (create h.entry)) [
        | true ↦ ok (loaded (create h.entry) bm)
        | false ↦ load_segments fuel file h.phoff h.phnum bm
      ]
  ]
