-- ===== src/PageHeap/Allocate.antt =====
-- PageAlloc maps its first free block to a free frame.
use lt_kernel.Prelude.{
  ℕ, zero, suc, ◌*◌, ◌/◌, ◌%◌, ◌<◌, ◌≤◌, ◌≡◌, ◌≢◌, refl, ap, ◌∙◌, true, false, Option, some, List,
  [], ◌∷◌, ◌++◌, ◌==◌, arith, All, not_both,
}
use lt_kernel.Prelude.Result.{Result, ok}
use lt_kernel.Frames.{Bitmap, IsBitmap, pages, is_used, get_free_page, release_page, page_size}
use lt_kernel.Frames.Search.{Outcome, get_free_page-Outcome}
use lt_kernel.Frames.Search.Outcome.{found, full}
use lt_kernel.Paging.{get_physical_address}
use lt_kernel.Paging.Walk.{pde_of}
use lt_kernel.Paging.Mapping.{IsSpace, add_page_to_kernel-Mapped}
use lt_kernel.PageHeap.{MemPageBlock, Page, PageHeap, take_block, page_alloc}

abbrev pub IsTaken : MemPageBlock → Type 0
IsTaken b = b.available ≡ false

take_block-append :
    (taken rest : List MemPageBlock) (b : MemPageBlock)
    → All IsTaken taken
    → b.available ≡ true
    → take_block (taken ++ (b ∷ rest))
      ≡ some (b.v_page_addr, taken ++ (record b { available = false } ∷ rest))
unfolding take_block
take_block-append [] rest b t f = rw f refl
take_block-append (c ∷ taken) rest b t f =
    let r = take_block-append taken rest b t.1 f in simp (t.0, r)

pub positive : (bm : Bitmap) (p : ℕ) → is_used bm p ≡ false → is_used bm 0 ≡ true → 0 < p
positive bm zero h k = absurd (not_both (is_used bm 0) k h)
positive bm (suc p) h k = omega arith

-- The frame that `GetFreePage` answers when one is free.
got_frame :
    (bm : Bitmap) (r : ℕ × Bitmap)
    → Outcome bm r
    → (q : ℕ) → q < pages bm
    → is_used bm q ≡ false
    → is_used bm 0 ≡ true
    → (p : ℕ) × (is_used bm p ≡ false)
      × (r.0 ≡ p * page_size)
      × (is_used r.1 p ≡ true)
      × (release_page r.1 r.0 ≡ bm)
      × IsBitmap r.1
      × (0 < p)
      × ((k : ℕ) → p ≢ k → is_used r.1 k ≡ is_used bm k)
got_frame bm r (found p addr out first at is used others back) q inside free zeroth =
    (p, first.free, at, used, back, is, positive bm p first.free zeroth, others)
got_frame bm r (full all_used) q inside free zeroth =
    absurd (not_both (is_used bm q) (all_used q inside) free)

-- What PageAlloc gives and does.
pub record Allocated (h : PageHeap) (taken rest : List MemPageBlock) (b : MemPageBlock)
    (r : Result (Option (Page × PageHeap))) : Type 0 where
  pub page : Page
  pub heap : PageHeap
  pub runs : r ≡ ok (some (page, heap))
  pub v_addr : page.v_addr ≡ b.v_page_addr
  pub blocks : heap.blocks ≡ taken ++ (record b { available = false } ∷ rest)
  pub was_free : is_used h.bitmap (page.p_addr / page_size) ≡ false
  pub is_taken : is_used heap.bitmap (page.p_addr / page_size) ≡ true
  pub frames : (k : ℕ) → page.p_addr / page_size ≢ k → is_used heap.bitmap k ≡ is_used h.bitmap k
  pub is_bitmap : IsBitmap heap.bitmap
  pub back : release_page heap.bitmap page.p_addr ≡ h.bitmap
  pub translated : get_physical_address page.v_addr heap.machine ≡ ok page.p_addr
  pub space : IsSpace heap.machine
  pub others :
      (u : ℕ)
      → u < 0x100000000
      → u / 4096 ≢ page.v_addr / 4096
      → get_physical_address u heap.machine ≡ get_physical_address u h.machine

-- For a frame that is free, frame 0 in use, and the first free block `b` of the heap, page aligned,
-- at most at 0x40000000, not NULL and with a table, in an address space whose directory is its own
-- last table and has no table twice: PageAlloc does not stop the machine; it answers the address of
-- `b`, which is then in use as the only change of the list, and a frame that was free, is then in
-- use as the only change of the bitmap and would be given back by ReleasePage; GetPhysicalAddress
-- translates the one to the other and answers as before for all other pages.
pub page_alloc-Allocated :
    (h : PageHeap) (taken rest : List MemPageBlock) (b : MemPageBlock) (q : ℕ)
    → h.blocks ≡ taken ++ (b ∷ rest)
    → All IsTaken taken
    → b.available ≡ true
    → IsBitmap h.bitmap
    → q < pages h.bitmap
    → is_used h.bitmap q ≡ false
    → is_used h.bitmap 0 ≡ true
    → 0 < b.v_page_addr
    → b.v_page_addr ≤ 0x40000000
    → b.v_page_addr % 4096 ≡ 0
    → IsSpace h.machine
    → pde_of h.machine (b.v_page_addr / 0x400000) % 2 ≡ 1
    → Allocated h taken rest b (page_alloc h)
unfolding page_alloc
page_alloc-Allocated h taken rest b q split t f is inside free zeroth pos low aligned space
      present =
    let g =
      got_frame h.bitmap (get_free_page h.bitmap) (get_free_page-Outcome h.bitmap is) q inside free
        zeroth in
    let frame = get_free_page h.bitmap in
    let v = b.v_page_addr in
    let m = add_page_to_kernel-Mapped h.machine v frame.0 space low present in
    let at : frame.0 ≡ g.0 * 4096 = g.2 in
    let same : frame.0 / 4096 ≡ g.0 = omega arith in
    let nz : (frame.0 == 0) ≡ false = ground (arith, g.6) in
    let vz : (v == 0) ≡ false = ground arith in
    record {
      page = record { p_addr = frame.0; v_addr = v };
      heap = record {
        blocks = taken ++ (record b { available = false } ∷ rest);
        bitmap = frame.1;
        machine = m.out;
      };
      runs = rw (nz, page_alloc, split, take_block-append taken rest b t f) (rw (vz, m.runs) refl);
      v_addr = refl;
      blocks = refl;
      was_free = rw same g.1;
      is_taken = rw same g.3;
      frames = λ k ne. g.7 k (λ e. ne (same ∙ e));
      is_bitmap = g.5;
      back = g.4;
      translated = m.found ∙ ap ok {y = frame.0} (omega arith);
      space = m.space;
      others = m.others;
    }
