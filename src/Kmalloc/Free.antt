-- ===== src/Kmalloc/Free.antt =====
-- `kfree` on a well-formed heap.
use lt_kernel.Prelude.{
  ℕ, ◌+◌, ◌-◌, ◌^◌, ◌<◌, ◌≤◌, ◌≡◌, refl, ◌∙◌, ap, sym, true, false, not, some, List, ◌∷◌, ◌++◌,
  arith, ◌⊎◌, inl, inr, ◌==◌,
}
use lt_kernel.Kmalloc
use lt_kernel.Kmalloc.{
  Block, block, Headers, KHeap, Run, ok, panicked, kmalloc, kfree, write, zero_fill, defrag,
  walk_fuel,
}
use lt_kernel.Kmalloc.Tiles.{
  Tiles, Tiles-le, Tiles-append, Tiles-frame, Spot, IsHeap, used_blocks, used_blocks-append,
}
use lt_kernel.Kmalloc.Defrag.{coalesce, used_blocks-coalesce, defrag-coalesce}
use lt_kernel.Kmalloc.Served.{Served, served, refused}
use lt_kernel.Kmalloc.Alloc.{kmalloc-Served}

-- `kfree` of NULL, and of a block that is free already, changes nothing.
pub kfree_ignores :
    (h : KHeap) (ptr : ℕ) → (ptr ≡ 0) ⊎ ((h.hdr (ptr - 4)).used ≡ false) → kfree ptr h ≡ ok tt h
unfolding kfree
kfree_ignores h ptr c = ground arith

-- What `kfree` leaves of a heap whose used blocks are `used`.
pub record Freed (h : KHeap) (used : List (ℕ × ℕ)) (r : Run (Unit {0})) : Type 0 where
  pub out : KHeap
  pub blocks : List Block
  pub runs : r ≡ ok tt out
  pub heap : IsHeap out blocks
  pub base : out.base ≡ h.base
  pub top : out.top ≡ h.top
  pub left : used_blocks h.base blocks ≡ used
  pub frees : out.frees ≡ h.frees + 1
  pub mallocs : out.mallocs ≡ h.mallocs

module _ (h : KHeap) (bs : List Block) (v : IsHeap h bs) (a : ℕ) (s : Spot h.hdr h.base h.top a)
    (used : s.here.used ≡ true) where
  free_hdr : Headers
  unfolding write zero_fill
  free_hdr = Kmalloc.clear_data a (Kmalloc.set_used a false h.hdr)

  free_hdr-at : free_hdr a ≡ block s.here.size false
  unfolding free_hdr
  free_hdr-at = ground (arith, s.holds)

  free_hdr-other : (x : ℕ) → (x < a) ⊎ (a + s.here.size ≤ x) → free_hdr x ≡ h.hdr x
  unfolding free_hdr
  free_hdr-other x o = ground (arith, s.holds, s.roomy)

  free_list : List Block
  free_list = s.before ++ block s.here.size false ∷ s.behind

  free-Tiles : Tiles free_hdr h.base h.top free_list
  unfolding free_list
  free-Tiles =
      Tiles-append free_hdr h.base a h.top s.before (block s.here.size false ∷ s.behind)
        (Tiles-frame h.hdr free_hdr h.base a s.before (λ x lo hi. free_hdr-other x (inl hi))
          s.front)
        (
          free_hdr-at,
          s.roomy,
          Tiles-frame h.hdr free_hdr (a + s.here.size) h.top s.behind
              (λ x lo hi. free_hdr-other x (inr lo)) s.back,
        )

  free_used :
      used_blocks h.base free_list
      ≡ used_blocks h.base s.before ++ used_blocks (a + s.here.size) s.behind
  unfolding used_blocks free_list
  free_used =
      used_blocks-append free_hdr h.base a s.before (block s.here.size false ∷ s.behind) (
        Tiles-frame h.hdr free_hdr h.base a s.before (λ x lo hi. free_hdr-other x (inl hi)) s.front)

  kfree_run :
      (g : Headers)
      → defrag (walk_fuel h) h.top h.base free_hdr ≡ some g
      → kfree (a + 4) h ≡ ok tt (record h { hdr = g; frees = h.frees + 1 })
  unfolding kfree free_hdr
  kfree_run g d =
      let e : a + 4 - 4 ≡ a = omega arith in
      let nz : (a + 4 == 0) ≡ false = ground arith in
      let u : not (h.hdr a).used ≡ false = rw (s.holds, used) in rw (nz, e, d, u)

  -- `kfree` of the pointer behind the header of a used block ends: the block is no longer used, on
  -- a well-formed heap of the same extent where every other used block is as it was.
  pub kfree-Freed :
      Freed h
        (used_blocks h.base s.before ++ used_blocks (a + s.here.size) s.behind)
        (kfree (a + 4) h)
  kfree-Freed =
      let small : h.top < 2 ^ 31 = omega (arith, v.within, v.small) in
      let le = Tiles-le free_hdr h.base h.top free_list free-Tiles in
      let d =
        defrag-coalesce (walk_fuel h) free_hdr h.base h.top free_list small free-Tiles
          (omega arith) in
      record {
        out = record h { hdr = d.0; frees = h.frees + 1 };
        blocks = coalesce free_list;
        runs = kfree_run d.0 d.1;
        heap = record {
          tiles = d.2;
          within = v.within;
          small = v.small;
          positive = v.positive;
          frames = v.frames;
          reserved = v.reserved;
        };
        base = refl;
        top = refl;
        left = used_blocks-coalesce h.base free_list ∙ free_used;
        frees = refl;
        mallocs = refl;
      }

-- A heap that holds the same used blocks as `h`, with one more call of each kind counted.
pub record SameBlocks (h : KHeap) (used : List (ℕ × ℕ)) (r : Run (Unit {0})) : Type 0 where
  pub out : KHeap
  pub blocks : List Block
  pub runs : r ≡ ok tt out
  pub heap : IsHeap out blocks
  pub same : used_blocks h.base blocks ≡ used
  pub mallocs : out.mallocs ≡ h.mallocs + 1

free-Served :
    (h : KHeap) (bs : List Block) (size ptr : ℕ) (out : KHeap) (r : Run ℕ)
    → Served h bs size 1 r
    → r ≡ ok ptr out
    → SameBlocks h (used_blocks h.base bs) (kfree ptr out)
free-Served h bs size ptr out _ (served a n g cs xs ys w b e old new here s exs eys calls) eq =
    let u : s.here ≡ block n true = sym s.holds ∙ here in
    let f = kfree-Freed g cs w a s (rw u) in
    let at_end : a + s.here.size ≡ a + n = rw u in
    let same : used_blocks g.base s.before ++ used_blocks (a + s.here.size) s.behind
        ≡ used_blocks h.base bs =
      rw (b, at_end, eys, ← exs, old) in
    let eg : g ≡ out = cc in
    let ep : a + 4 ≡ ptr = cc in
    rw (← eg, ← ep)
      (record {
        out = f.out;
        blocks = f.blocks;
        runs = f.runs;
        heap = f.heap;
        same = ap (λ t. used_blocks t f.blocks) (sym b) ∙ (f.left ∙ same);
        mallocs = f.mallocs ∙ calls;
      })
free-Served h bs size ptr out _ (refused n l) eq = cc

-- `kmalloc` and then `kfree` of its pointer gives back a well-formed heap with the used blocks that
-- there were before.
pub kfree-kmalloc :
    (h : KHeap) (bs : List Block) (size ptr : ℕ) (out : KHeap)
    → IsHeap h bs
    → 0 < size
    → size + 4 < 2 ^ 30
    → kmalloc size h ≡ ok ptr out
    → SameBlocks h (used_blocks h.base bs) (kfree ptr out)
kfree-kmalloc h bs size ptr out v pos sane e =
    free-Served h bs (size + 4) ptr out _ (kmalloc-Served h bs size v pos sane) e
