-- ===== src/PageHeap/Free.antt =====
-- PageFree gives the first block of the heap back, and does not end for any other.
use lt_kernel.Prelude.{
  ℕ, zero, suc, ◌/◌, ◌%◌, ◌<◌, ◌≤◌, ◌≡◌, ◌≢◌, refl, sym, ap, ◌∙◌, true, false, some, List, [], ◌∷◌,
  ◌==◌, arith,
}
use lt_kernel.Prelude.Result.{ok, stuck}
use lt_kernel.Frames.{IsBitmap, pages, is_used, release_page}
use lt_kernel.Paging.{get_physical_address}
use lt_kernel.Paging.Walk.{pde_of}
use lt_kernel.Paging.Mapping.{IsSpace}
use lt_kernel.PageHeap.{MemPageBlock, Page, PageHeap, page_alloc, page_free, free_loop, first}
use lt_kernel.PageHeap.Allocate.{page_alloc-Allocated}

free_loop-stuck :
    (fuel ptr : ℕ) (b : MemPageBlock) (h : PageHeap)
    → b.v_page_addr ≢ ptr
    → free_loop fuel ptr (some b) h ≡ stuck
unfolding free_loop
free_loop-stuck zero ptr b h ne = refl
free_loop-stuck (suc fuel) ptr b h ne =
    let t : (b.v_page_addr == ptr) ≡ false = ground arith in
    rw (t, free_loop) (free_loop-stuck fuel ptr b h ne)

-- For an address that is not NULL and not that of the first block of the heap, PageFree does not end,
-- whatever the number of rounds, even for an address that PageAlloc gave.
pub page_free-stuck :
    (fuel ptr : ℕ) (b : MemPageBlock) (rest : List MemPageBlock) (h : PageHeap)
    → h.blocks ≡ b ∷ rest
    → 0 < ptr
    → b.v_page_addr ≢ ptr
    → page_free fuel ptr h ≡ stuck
unfolding page_free
page_free-stuck fuel ptr b rest h split pos ne =
    let t : (ptr == 0) ≡ false = ground arith in
    rw (t, page_free)
      (ap (λ c. free_loop fuel ptr (first c) h) split ∙ free_loop-stuck fuel ptr b h ne)

free_first :
    (fuel ptr p : ℕ) (b : MemPageBlock) (rest : List MemPageBlock) (h : PageHeap)
    → h.blocks ≡ b ∷ rest
    → 0 < ptr
    → b.v_page_addr ≡ ptr
    → get_physical_address ptr h.machine ≡ ok p
    → page_free (suc fuel) ptr h
      ≡ ok (record h {
        blocks = record b { available = true } ∷ rest;
        bitmap = release_page h.bitmap p;
      })
unfolding page_free free_loop
free_first fuel ptr p b rest h split pos e translated =
    let z : (ptr == 0) ≡ false = ground arith in
    let t : (b.v_page_addr == ptr) ≡ true = ground arith in ground arith

-- PageAlloc and then PageFree of what it gave.
pub record Freed (h : PageHeap) (fuel : ℕ) : Type 0 where
  pub page : Page
  pub heap : PageHeap
  pub out : PageHeap
  pub allocates : page_alloc h ≡ ok (some (page, heap))
  pub frees : page_free (suc fuel) page.v_addr heap ≡ ok out
  pub blocks : out.blocks ≡ h.blocks
  pub bitmap : out.bitmap ≡ h.bitmap

-- If the first block of the heap is free, under the conditions under which PageAlloc takes it: PageFree
-- of the page that PageAlloc gives ends in one round, and the list of blocks and the bitmap are again
-- what they were.
pub page_free-page_alloc :
    (h : PageHeap) (rest : List MemPageBlock) (b : MemPageBlock) (q fuel : ℕ)
    → h.blocks ≡ b ∷ rest
    → b.available ≡ true
    → IsBitmap h.bitmap
    → q < pages h.bitmap
    → is_used h.bitmap q ≡ false
    → is_used h.bitmap 0 ≡ true
    → 0 < b.v_page_addr
    → b.v_page_addr ≤ 0x40000000
    → b.v_page_addr % 4096 ≡ 0
    → IsSpace h.machine
    → pde_of h.machine (b.v_page_addr / 0x400000) % 2 ≡ 1
    → Freed h fuel
unfolding page_free free_loop
page_free-page_alloc h rest b q fuel split f is inside free zeroth pos low aligned space present =
    let a =
      page_alloc-Allocated h [] rest b q split tt f is inside free zeroth pos low aligned space
        present in
    let v = a.page.v_addr in
    let taken : MemPageBlock = record b { available = false } in
    let whole : record b { available = true } ≡ b = ap (λ x. record b { available = x }) (sym f) in
    record {
      page = a.page;
      heap = a.heap;
      out = record a.heap {
        blocks = record b { available = true } ∷ rest;
        bitmap = release_page a.heap.bitmap a.page.p_addr;
      };
      allocates = a.runs;
      frees =
          free_first fuel v a.page.p_addr taken rest a.heap a.blocks (omega (arith, a.v_addr))
            (sym a.v_addr) a.translated;
      blocks = ap (λ c. c ∷ rest) whole ∙ sym split;
      bitmap = a.back;
    }
