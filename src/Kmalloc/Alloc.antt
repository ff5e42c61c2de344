-- ===== src/Kmalloc/Alloc.antt =====
-- `kmalloc` on a well-formed heap.
use mathlib.Core.List.{append-nil}
use lt_kernel.Prelude.{
  ℕ, suc, ◌+◌, ◌-◌, ◌*◌, ◌^◌, ◌<◌, ◌≤◌, ◌≡◌, refl, ◌∙◌, sym, true, false, Option, none, some, List,
  [], ◌∷◌, ◌++◌, arith, ◌==◌, dec_le,
}
use lt_kernel.Frames.{page_size}
use lt_kernel.Kmalloc
use lt_kernel.Kmalloc.{
  Block, block, Headers, KHeap, Run, ok, panicked, heap_limit, write, split_block, take_block,
  find_block, kmalloc_from, kmalloc, ksbrk, pages_for, walk_fuel,
}
use lt_kernel.Kmalloc.Tiles.{Tiles-le, Spot, IsHeap, used_blocks, used_blocks-append}
use lt_kernel.Kmalloc.Find.{find_block-Found, Found, fit, missing, NoneFits}
use lt_kernel.Kmalloc.Grow.{Grown, ksbrk-Grown, ksbrk-panics, pages_for_lem}
use lt_kernel.Kmalloc.Cut.{Cut, take_block-Cut, Cut-same}
use lt_kernel.Kmalloc.Served.{
  Served, served, refused, cut_blocks, cut-IsHeap, cut_new, cut_spot, cut-Served, mark_again,
  find_block-here,
}

-- A request that is served from the block that `ksbrk` has just added.
module _ (h : KHeap) (bs : List Block) (v : IsHeap h bs) (size n : ℕ) (pos : 0 < n)
    (some_bytes : 4 < size) (large : size ≤ n * page_size) {r : Run ℕ} (G : Grown h n bs r) where
  new_spot : Spot G.out.hdr G.out.base G.out.top h.top
  new_spot = record {
    before = bs;
    here = block (n * page_size) false;
    behind = [];
    front = G.front;
    holds = G.holds;
    roomy = omega arith;
    back = sym G.end;
  }

  taken : Headers
  taken = take_block h.top size G.out.hdr

  unchanged : used_blocks h.base (bs ++ block (n * page_size) false ∷ []) ≡ used_blocks h.base bs
  unfolding used_blocks
  unchanged =
      used_blocks-append h.hdr h.base h.top bs (block (n * page_size) false ∷ []) v.tiles
      ∙ append-nil (used_blocks h.base bs)

  new_hdr : Headers
  unfolding write
  new_hdr = Kmalloc.set_used h.top true taken

  grown_run :
      (fuel : ℕ)
      → Kmalloc.and_then
          (kmalloc_from 1 (suc fuel) size h.top G.out)
          (λ ptr g. ok ptr (record g { hdr = Kmalloc.set_used h.top true g.hdr }))
        ≡ ok (h.top + 4) (record G.out { hdr = new_hdr })
  unfolding kmalloc_from taken new_hdr
  grown_run fuel =
      let found =
        find_block-here fuel G.out.hdr G.out.top size h.top (omega (arith, G.end)) (rw G.holds)
          (rw G.holds large) in
      rw (found, kmalloc_from)

  new-Cut : Cut G.out.hdr G.out.base G.out.top h.top size new_spot new_hdr
  unfolding taken new_hdr new_spot
  new-Cut =
      let c =
        take_block-Cut G.out.hdr G.out.base G.out.top h.top size
          (omega (arith, G.heap.within, G.heap.small)) new_spot some_bytes large in
      Cut-same taken new_hdr (λ x. mark_again taken h.top c.length x c.holds) c

  grown-Served :
      (fuel : ℕ)
      → Served h bs size 0 (
          Kmalloc.and_then
            (kmalloc_from 1 (suc fuel) size h.top G.out)
            λ ptr g. ok ptr (record g { hdr = Kmalloc.set_used h.top true g.hdr }))
  unfolding used_blocks new_spot cut_blocks cut_spot
  grown-Served fuel =
      let all = bs ++ block (n * page_size) false ∷ [] in
      let new = cut_new G.out all G.heap h.top size new_hdr new_spot refl refl new-Cut in
      rw (grown_run fuel) (
        served h.top new-Cut.length (record G.out { hdr = new_hdr })
          (cut_blocks G.out all G.heap h.top size new_hdr new_spot refl refl new-Cut)
          (used_blocks h.base bs) []
          (cut-IsHeap G.out all G.heap h.top size new_hdr new_spot refl refl new-Cut) G.base
          new-Cut.enough (sym (append-nil (used_blocks h.base bs))) (rw G.base at new) new-Cut.holds
          (cut_spot G.out all G.heap h.top size new_hdr new_spot refl refl new-Cut) refl
          new-Cut.untouched (omega (arith, G.mallocs)))

module _ (h : KHeap) (bs : List Block) (v : IsHeap h bs) (size : ℕ) (some_bytes : 4 < size)
    (sane : size < 2 ^ 30) where
  -- The rest of `_kmalloc` when the walk has found no block.
  grow-Served :
      (fuel : ℕ)
      → NoneFits size bs
      → Served h bs size 0 (
          Kmalloc.and_then (ksbrk (pages_for size) h) λ b g.
            Kmalloc.and_then
              (kmalloc_from 1 (suc fuel) size b g)
              λ ptr g'. ok ptr (record g' { hdr = Kmalloc.set_used b true g'.hdr }))
  grow-Served fuel none_fits =
      let p = pages_for_lem size in
      elim (dec_le (h.top + pages_for size * page_size) h.limit) [
        | yes le ↦
            let G = ksbrk-Grown h bs v (pages_for size) p.0 le in
            rw G.runs (grown-Served h bs v size (pages_for size) p.0 some_bytes p.1 G fuel)
        | no gt ↦
            rw (ksbrk-panics h bs v (pages_for size) p.0 (p.2 sane) (omega arith))
              (refused none_fits (omega arith))
      ]

  from-Served :
      (fuel : ℕ) (o : Option ℕ)
      → find_block (suc fuel) h.hdr h.top size h.base ≡ some o
      → Found h.hdr h.base h.top size bs o
      → Served h bs size 0 (kmalloc_from 2 (suc fuel) size h.base h)
  unfolding kmalloc_from
  from-Served fuel none e (missing none_fits) = rw (e, kmalloc_from) (grow-Served fuel none_fits)
  from-Served fuel (some a) e (fit _ s eq free large _) =
      let c =
        take_block-Cut h.hdr h.base h.top a size (omega (arith, v.within, v.small)) s some_bytes
          large in
      rw (e, kmalloc_from) (cut-Served h bs v a size (take_block a size h.hdr) s eq free c 0 refl)

  count-Served :
      (r : Run ℕ)
      → Served h bs size 0 r
      → Served h bs size 1
          (Kmalloc.and_then r λ ptr g. ok ptr (record g { mallocs = g.mallocs + 1 }))
  count-Served _ (served a n out cs xs ys w b e old new here spot exs eys calls) =
      served a n (record out { mallocs = out.mallocs + 1 }) cs xs ys
        (record {
          tiles = w.tiles;
          within = w.within;
          small = w.small;
          positive = w.positive;
          frames = w.frames;
          reserved = w.reserved;
        })
        b e old new here spot exs eys (omega arith)
  count-Served _ (refused n l) = refused n l

-- `kmalloc` of a positive size below 2^30, on a well-formed heap, ends: it answers a pointer four
-- bytes into a block of at least the size and the header, on a well-formed heap where that block is
-- the one new used block and every block used before is used still, at its address and with its
-- size; or no free block fits and the pages that it asks for pass the heap's limit, and it panics.
pub kmalloc-Served :
    (h : KHeap) (bs : List Block) (size : ℕ)
    → IsHeap h bs
    → 0 < size
    → size + 4 < 2 ^ 30
    → Served h bs (size + 4) 1 (kmalloc size h)
unfolding kmalloc
kmalloc-Served h bs size v pos sane =
    let nz : (size == 0) ≡ false = ground arith in
    let le = Tiles-le h.hdr h.base h.top bs v.tiles in
    let f =
      find_block-Found h.hdr h.top (size + 4) (omega (arith, v.within, v.small)) (walk_fuel h)
        h.base bs v.tiles (omega arith) in
    let fuel : walk_fuel h ≡ suc (h.top - h.base + 1) = omega arith in
    rw nz (
      count-Served h bs v (size + 4) (omega arith) sane _ (
        rw fuel (
          from-Served h bs v (size + 4) (omega arith) sane (h.top - h.base + 1) f.0 (rw fuel at f.1)
            f.2)))
