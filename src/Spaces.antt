-- ===== src/Spaces.antt =====
-- The address spaces of processes: AddPageToPageDirectory, CreateProcessPageDirectory,
-- SaveCurrentMemoryMapping and RestoreMemoryMapping of kernel/init/vmm.c, with ThreadPrepare and
-- SwitchToMemoryMappingOfThread of kernel/user/thread.c.
pub mod Prepare
mod Tests
use lt_kernel.Prelude.{
  ℕ, zero, suc, ◌+◌, ◌*◌, Bool, true, false, Option, none, some, List, [], ◌∷◌, ◌++◌, ◌==◌,
  if◌then◌else◌, bit_or,
}
use lt_kernel.Prelude.Result.{Result, ok, ◌>>=◌}
use lt_kernel.Paging.{
  Machine, load, store, pde_at, pte_at, flag_on, page_present, page_writeable,
  page_non_privileged_access, set_page_directory_entry, set_page_table_entry, clean_page_table,
}
use lt_kernel.PageHeap.{Page, PageHeap, page_alloc}

-- `PageDirectory`: where it is, and the tables that were allocated for it.
pub record PageDirectory : Type 0 where
  pub pd_entry : ℕ
  pub page_table_list : List ℕ

-- The heap of pages, with the machine, and `s_SavedPageDirectoryEntry`, 0 for NULL.
pub record Spaces : Type 0 where
  pub pages : PageHeap
  pub saved : ℕ

-- `NB_PAGES_PER_TABLE`
abbrev pub nb_pages_per_table : ℕ
nb_pages_per_table = 1024

-- `PAGE_PRESENT | PAGE_WRITEABLE | flags`
abbrev pub page_flags : ℕ → ℕ
page_flags flags = bit_or (bit_or page_present page_writeable) flags

abbrev pub with_machine : Machine → PageHeap → PageHeap
with_machine m h = record h { machine = m }

-- The part of `AddPageToPageDirectory` for a table that is not there; `none` if PageAlloc stops the
-- machine. ListPush is taken to succeed.
unfoldable pub add_table :
    ℕ → ℕ → PageDirectory → PageHeap → Result (Option (PageDirectory × PageHeap))
add_table v flags pd h = do
  new ← page_alloc h
  elim new [
    | none ↦ ok none
    | some (page, h') ↦ do
      m ← set_page_directory_entry (pde_at v) page.p_addr (page_flags flags) h'.machine
      n ← clean_page_table nb_pages_per_table page.v_addr m
      ok (
          some (
            record pd { page_table_list = pd.page_table_list ++ (page.v_addr ∷ []) },
            with_machine n h',
          ))
  ]

-- The last two lines of `AddPageToPageDirectory`.
unfoldable pub add_entry :
    ℕ → ℕ → ℕ → PageDirectory → PageHeap → Result (Option (PageDirectory × PageHeap))
add_entry v p flags pd h = do
  m ← set_page_table_entry (pte_at v) p (page_flags flags) h.machine
  ok (some (pd, with_machine m h))

-- `AddPageToPageDirectory`, in the address space of the directory
unfoldable pub add_page_to_page_directory :
    ℕ → ℕ → ℕ → PageDirectory → PageHeap → Result (Option (PageDirectory × PageHeap))
add_page_to_page_directory v p flags pd h = do
  pde ← load h.machine (pde_at v)
  elim (flag_on pde page_present) [
    | true ↦ add_entry v p flags pd h
    | false ↦ do
      r ← add_table v flags pd h
      elim r [ none ↦ ok none | some (pd', h') ↦ add_entry v p flags pd' h' ]
  ]

-- The loops of `CreateProcessPageDirectory`: the entries of the kernel, and those of the program.
unfoldable pub copy_entries : ℕ → ℕ → ℕ → Machine → Result Machine
copy_entries zero from to m = ok m
copy_entries (suc left) from to m = do
  e ← load m from
  m' ← store to e m
  copy_entries left (from + 4) (to + 4) m'

unfoldable pub clear_entries : ℕ → ℕ → Machine → Result Machine
clear_entries zero to m = ok m
clear_entries (suc left) to m = do
  m' ← set_page_directory_entry to 0 (bit_or page_writeable page_non_privileged_access) m
  clear_entries left (to + 4) m'

-- `CreateProcessPageDirectory`, for the directory of the kernel at `kernel`
unfoldable pub create_process_page_directory :
    ℕ → PageHeap → Result (Option (PageDirectory × PageHeap))
create_process_page_directory kernel h = do
  new ← page_alloc h
  elim new [
    | none ↦ ok none
    | some (page, h') ↦ do
      m1 ← copy_entries 256 kernel page.v_addr h'.machine
      m2 ← clear_entries 768 (page.v_addr + 1024) m1
      m3 ←
          set_page_directory_entry (page.v_addr + 4 * 1023) page.p_addr
            (bit_or page_present page_writeable) m2
      ok (some (record { pd_entry = page.p_addr; page_table_list = [] }, with_machine m3 h'))
  ]

abbrev pub set_cr3 : ℕ → Spaces → Spaces
set_cr3 cr3 s = record s { pages = with_machine (record s.pages.machine { cr3 = cr3 }) s.pages }

-- `SaveCurrentMemoryMapping` and `RestoreMemoryMapping`
abbrev pub save_current_memory_mapping : Spaces → Spaces
save_current_memory_mapping s = record s { saved = s.pages.machine.cr3 }

abbrev pub restore_memory_mapping : Spaces → Spaces
restore_memory_mapping s = if s.saved == 0 then s else record (set_cr3 s.saved s) { saved = 0 }

-- `SwitchToMemoryMappingOfThread`, for a thread that is not NULL
abbrev pub switch_to_memory_mapping : PageDirectory → Spaces → Spaces
switch_to_memory_mapping pd s = set_cr3 pd.pd_entry (save_current_memory_mapping s)

-- `ThreadPrepare`, for the directory of the process and the page of the stack
unfoldable pub thread_prepare :
    PageDirectory → Page → Spaces → Result (Option (PageDirectory × Spaces))
thread_prepare pd stack s = do
  let t = switch_to_memory_mapping pd s
  r ←
      add_page_to_page_directory stack.v_addr stack.p_addr
        (bit_or (bit_or page_present page_writeable) page_non_privileged_access) pd t.pages
  elim r [
    | none ↦ ok none
    | some (pd', h) ↦ ok (some (pd', restore_memory_mapping (record t { pages = h })))
  ]
