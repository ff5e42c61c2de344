-- ===== src/Spaces/Prepare.antt =====
-- ThreadPrepare maps the stack in the address space of the process, and comes back.
use lt_kernel.Prelude.{
  ℕ, ◌+◌, ◌*◌, ◌/◌, ◌%◌, ◌<◌, ◌≡◌, ◌≢◌, refl, ap, ◌∙◌, true, false, Option, none, some, ◌==◌, arith,
}
use lt_kernel.Prelude.Result.{Result, ok, ◌>>=◌}
use lt_kernel.Paging.{Machine, flag_on, page_present, get_physical_address}
use lt_kernel.Paging.Walk.{pde_of, load-pde_at}
use lt_kernel.Paging.Mapping.{
  IsSpace, placed, set_page_table_entry-placed, placed-IsPlaced, present-on,
}
use lt_kernel.PageHeap.{Page, PageHeap}
use lt_kernel.Spaces.{
  PageDirectory, Spaces, with_machine, add_table, add_entry, add_page_to_page_directory, set_cr3,
  switch_to_memory_mapping, thread_prepare,
}

-- The machine as it is in the address space of a directory.
abbrev pub in_space : ℕ → Machine → Machine
in_space pd m = record m { cr3 = pd }

-- The part of AddPageToPageDirectory behind the read of the directory's entry.
abbrev behind :
    ℕ → ℕ → ℕ → PageDirectory → PageHeap → ℕ → Result (Option (PageDirectory × PageHeap))
behind v p flags pd h pde = elim (flag_on pde page_present) [
  | true ↦ add_entry v p flags pd h
  | false ↦
      add_table v flags pd h
      >>= (λ r. elim r [ none ↦ ok none | some (pd', h') ↦ add_entry v p flags pd' h' ])
]

module _ (v p : ℕ) (pd : PageDirectory) (h : PageHeap) (s : IsSpace h.machine)
    (low : v / 0x400000 < 1023) (present : pde_of h.machine (v / 0x400000) % 2 ≡ 1) where
  add_page_lem :
      add_page_to_page_directory v p 7 pd h
      ≡ ok (some (pd, with_machine (placed h.machine v p 7 s low present) h))
  unfolding add_page_to_page_directory add_entry
  add_page_lem =
      let r = set_page_table_entry-placed h.machine v p 7 s low present in
      let found : behind v p 7 pd h (pde_of h.machine (v / 0x400000))
          ≡ ok (some (pd, with_machine (placed h.machine v p 7 s low present) h)) =
        rw (present-on h.machine v p 7 s low present, behind)
          (ap (λ x. x >>= (λ m. ok (some (pd, with_machine m h)))) r) in
      ap (λ x. x >>= behind v p 7 pd h) (load-pde_at h.machine s.mapped v (omega arith)) ∙ found

-- What ThreadPrepare does.
pub record Prepared (pd : PageDirectory) (stack : Page) (s : Spaces)
    (r : Result (Option (PageDirectory × Spaces))) : Type 0 where
  pub out : Spaces
  pub runs : r ≡ ok (some (pd, out))
  pub back : out.pages.machine.cr3 ≡ s.pages.machine.cr3
  pub saved : out.saved ≡ 0
  pub space : IsSpace (in_space pd.pd_entry out.pages.machine)
  pub found :
      get_physical_address stack.v_addr (in_space pd.pd_entry out.pages.machine)
      ≡ ok (stack.p_addr / 4096 * 4096 + stack.v_addr % 4096)
  pub others :
      (u : ℕ)
      → u < 0x100000000
      → u / 4096 ≢ stack.v_addr / 4096
      → get_physical_address u (in_space pd.pd_entry out.pages.machine)
        ≡ get_physical_address u (in_space pd.pd_entry s.pages.machine)

-- From an address space whose directory is not at 0, for a directory that is its own last table and has
-- no table twice, and a stack below 0xFFC00000 that has a table there: ThreadPrepare does not stop the
-- machine and comes back to the address space with nothing saved; in the directory GetPhysicalAddress
-- then answers the frame of the stack, and for all other pages what it did; and the directory has the
-- same two properties again.
pub thread_prepare-Prepared :
    (pd : PageDirectory) (stack : Page) (s : Spaces)
    → s.pages.machine.cr3 ≢ 0
    → IsSpace (in_space pd.pd_entry s.pages.machine)
    → stack.v_addr < 0xFFC00000
    → pde_of (in_space pd.pd_entry s.pages.machine) (stack.v_addr / 0x400000) % 2 ≡ 1
    → Prepared pd stack s (thread_prepare pd stack s)
unfolding thread_prepare
thread_prepare-Prepared pd stack s ne space small present =
    let t = switch_to_memory_mapping pd s in
    let low : stack.v_addr / 0x400000 < 1023 = omega arith in
    let a = add_page_lem stack.v_addr stack.p_addr pd t.pages space low present in
    let m = placed t.pages.machine stack.v_addr stack.p_addr 7 space low present in
    let i = placed-IsPlaced t.pages.machine stack.v_addr stack.p_addr 7 space low present refl in
    let z : (s.pages.machine.cr3 == 0) ≡ false = ground arith in
    record {
      out = record (set_cr3 s.pages.machine.cr3 (record t { pages = with_machine m t.pages })) {
        saved = 0;
      };
      runs = rw (a, thread_prepare) (rw z refl);
      back = refl;
      saved = refl;
      space = i.space;
      found = i.found;
      others = i.others;
    }
