-- ===== src/Kmalloc/Served.antt =====
-- What `kmalloc` promises, and how a cut block keeps the promise.
use lt_kernel.Prelude.{
  ℕ, suc, ◌+◌, ◌*◌, ◌<◌, ◌≤◌, ◌≡◌, refl, ◌∙◌, ap, true, false, some, List, ◌∷◌, ◌++◌, arith,
}
use lt_kernel.Frames.{page_size}
use lt_kernel.Kmalloc
use lt_kernel.Kmalloc.{
  Block, block, Headers, KHeap, Run, ok, panicked, heap_limit, write, split_block, take_block,
  find_block, kmalloc_from, kmalloc, ksbrk, pages_for, walk_fuel,
}
use lt_kernel.Kmalloc.Tiles.{Tiles-append, Spot, IsHeap, used_blocks, used_blocks-append}
use lt_kernel.Kmalloc.Find.{NoneFits}
use lt_kernel.Kmalloc.Cut.{Cut}

-- What `kmalloc` answers to a request of `size` bytes: a pointer behind the header of a block that
-- is new among the used blocks and long enough, all the others being as they were; or, if no block
-- fits, the panic of a heap that has reached its limit.
pub data Served (h : KHeap) (bs : List Block) (size calls : ℕ) : Run ℕ → Type 0 where
  served :
      (a n : ℕ) (out : KHeap) (cs : List Block) (xs ys : List (ℕ × ℕ))
      → IsHeap out cs
      → out.base ≡ h.base
      → size ≤ n
      → used_blocks h.base bs ≡ xs ++ ys
      → used_blocks h.base cs ≡ xs ++ (a, n) ∷ ys
      → out.hdr a ≡ block n true
      → (s : Spot out.hdr out.base out.top a) → xs ≡ used_blocks h.base s.before
      → used_blocks (a + n) s.behind ≡ ys
      → out.mallocs ≡ h.mallocs + calls
      → Served h bs size calls (ok (a + 4) out)
  refused :
      NoneFits size bs
      → h.limit < h.top + pages_for size * page_size
      → Served h bs size calls (panicked heap_limit)

-- A block taken out of a well-formed heap, and the heap after it.
module _ (h : KHeap) (bs : List Block) (v : IsHeap h bs) (a size : ℕ) (g : Headers)
    (s : Spot h.hdr h.base h.top a) (eq : bs ≡ s.before ++ s.here ∷ s.behind)
    (free : s.here.used ≡ false) (c : Cut h.hdr h.base h.top a size s g) where
  unfoldable pub cut_blocks : List Block
  cut_blocks = s.before ++ block c.length true ∷ c.rest

  pub cut-IsHeap : IsHeap (record h { hdr = g }) cut_blocks
  unfolding cut_blocks
  cut-IsHeap = record {
    tiles =
        Tiles-append g h.base a h.top s.before (block c.length true ∷ c.rest) c.front
          (c.holds, c.roomy, c.back);
    within = v.within;
    small = v.small;
    positive = v.positive;
    frames = v.frames;
    reserved = v.reserved;
  }

  pub cut_old :
      used_blocks h.base bs ≡ used_blocks h.base s.before ++ used_blocks (a + s.here.size) s.behind
  unfolding used_blocks
  cut_old = rw eq (used_blocks-append h.hdr h.base a s.before (s.here ∷ s.behind) s.front ∙ rw free)

  pub cut_new :
      used_blocks h.base cut_blocks
      ≡ used_blocks h.base s.before ++ (a, c.length) ∷ used_blocks (a + s.here.size) s.behind
  unfolding used_blocks cut_blocks
  cut_new =
      used_blocks-append g h.base a s.before (block c.length true ∷ c.rest) c.front
      ∙ ap (λ t. used_blocks h.base s.before ++ (a, c.length) ∷ t) c.untouched

  unfoldable pub cut_spot : Spot g h.base h.top a
  cut_spot = record {
    before = s.before;
    here = block c.length true;
    behind = c.rest;
    front = c.front;
    holds = c.holds;
    roomy = c.roomy;
    back = c.back;
  }

  pub cut-Served :
      (calls : ℕ) → calls ≡ 0 → Served h bs size calls (ok (a + 4) (record h { hdr = g }))
  unfolding cut_spot
  cut-Served calls z =
      served a c.length (record h { hdr = g }) cut_blocks (used_blocks h.base s.before)
        (used_blocks (a + s.here.size) s.behind) cut-IsHeap refl c.enough cut_old cut_new c.holds
        cut_spot refl c.untouched (omega arith)

-- Marking a used block as used changes no header.
pub mark_again : (g : Headers) (a n x : ℕ) → g a ≡ block n true → Kmalloc.set_used a true g x ≡ g x
unfolding write
mark_again g a n x e = ground arith

pub find_block-here :
    (fuel : ℕ) (hdr : Headers) (top size a : ℕ)
    → a < top
    → (hdr a).used ≡ false
    → size ≤ (hdr a).size
    → find_block (suc fuel) hdr top size a ≡ some (some a)
unfolding find_block
find_block-here fuel hdr top size a lt free large = ground arith
