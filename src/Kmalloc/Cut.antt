-- ===== src/Kmalloc/Cut.antt =====
-- A block cut out of the heap by `_kmalloc`: `_splitBlock` and `block->state = BLOCK_USED`.
use lt_kernel.Prelude.{
  ℕ, ◌+◌, ◌-◌, ◌%◌, ◌^◌, ◌<◌, ◌≤◌, ◌≡◌, refl, ◌∙◌, true, false, List, ◌∷◌, arith, inl, inr, leb,
  Bool-cases, ◌≢◌, leb→le,
}
use lt_kernel.Prelude.Words.{u32}
use lt_kernel.Kmalloc
use lt_kernel.Kmalloc.{
  Block, block, Headers, KHeap, Run, ok, panicked, heap_limit, write, split_block, take_block,
  find_block, kmalloc_from, kmalloc, ksbrk, pages_for, walk_fuel,
}
use lt_kernel.Kmalloc.Tiles.{Tiles, Tiles-frame, Spot, Spot-le, used_blocks}

-- The blocks after the one at `a` is taken for `size` bytes.
pub record Cut (hdr : Headers) (base top a size : ℕ) (s : Spot hdr base top a) (g : Headers)
    : Type 0 where
  pub length : ℕ
  pub rest : List Block
  pub enough : size ≤ length
  pub front : Tiles g base a s.before
  pub holds : g a ≡ block length true
  pub roomy : 4 < length
  pub back : Tiles g (a + length) top rest
  pub untouched : used_blocks (a + length) rest ≡ used_blocks (a + s.here.size) s.behind

module _ (hdr : Headers) (base top a size : ℕ) (small : top < 2 ^ 31) (s : Spot hdr base top a)
    (some_bytes : 4 < size) (large : size ≤ s.here.size) where
  split_hdr : Headers
  unfolding split_block write
  split_hdr = Kmalloc.set_used a true (split_block a size hdr)

  module _ (room : 8 ≤ s.here.size - size) where
    split_at : (x : ℕ) → x ≢ a → x ≢ a + size → split_hdr x ≡ hdr x
    unfolding split_hdr
    split_at x ne ne' =
        let b = Spot-le hdr base top a s in
        let e : u32 (a + size) ≡ a + size = omega arith in rw e (ground arith)

    split_first : split_hdr a ≡ block size true
    unfolding split_hdr
    split_first =
        let b = Spot-le hdr base top a s in
        let e : u32 (a + size) ≡ a + size = omega arith in
        let e' : size % 2 ^ 31 ≡ size = omega arith in rw e (ground arith)

    split_second : split_hdr (a + size) ≡ block (s.here.size - size) false
    unfolding split_hdr
    split_second =
        let b = Spot-le hdr base top a s in
        let e : u32 (a + size) ≡ a + size = omega arith in
        let e' : ((hdr a).size - size) % 2 ^ 31 ≡ s.here.size - size = rw s.holds (omega arith) in
        rw e (ground arith)

    split_hdr-Cut : Cut hdr base top a size s split_hdr
    unfolding used_blocks
    split_hdr-Cut =
        let b = Spot-le hdr base top a s in
        let end : a + size + (s.here.size - size) ≡ a + s.here.size = omega arith in
        record {
          length = size;
          rest = block (s.here.size - size) false ∷ s.behind;
          enough = omega arith;
          front =
              Tiles-frame hdr _ base a s.before (λ x lo hi. split_at x (omega arith) (omega arith))
                s.front;
          holds = split_first;
          roomy = some_bytes;
          back = (
            split_second,
            omega arith,
            rw end (
                Tiles-frame hdr _ (a + s.here.size) top s.behind
                  (λ x lo hi. split_at x (omega arith) (omega arith)) s.back),
          );
          untouched = rw end;
        }

  whole_hdr : Headers
  unfolding write
  whole_hdr = Kmalloc.set_used a true hdr

  whole_hdr-Cut : Cut hdr base top a size s whole_hdr
  unfolding whole_hdr
  whole_hdr-Cut = record {
    length = s.here.size;
    rest = s.behind;
    enough = large;
    front = Tiles-frame hdr _ base a s.before (λ x lo hi. ground arith) s.front;
    holds = ground (arith, s.holds);
    roomy = s.roomy;
    back =
        Tiles-frame hdr _ (a + s.here.size) top s.behind (λ x lo hi. ground (arith, s.roomy))
          s.back;
    untouched = refl;
  }

  pub take_block-Cut : Cut hdr base top a size s (take_block a size hdr)
  unfolding take_block split_hdr whole_hdr
  take_block-Cut = elim (Bool-cases (leb 8 ((hdr a).size - size))) [
    | inl yes_split ↦
        rw yes_split (split_hdr-Cut (rw s.holds at (leb→le 8 ((hdr a).size - size) yes_split)))
    | inr no_split ↦ rw no_split whole_hdr-Cut
  ]

pub Cut-same :
    {hdr : Headers} {base top a size : ℕ} {s : Spot hdr base top a} (g g' : Headers)
    → ((x : ℕ) → g' x ≡ g x)
    → Cut hdr base top a size s g
    → Cut hdr base top a size s g'
Cut-same {base} {top} {a} {s} g g' same c = record {
  length = c.length;
  rest = c.rest;
  enough = c.enough;
  front = Tiles-frame g g' base a s.before (λ x lo hi. same x) c.front;
  holds = same a ∙ c.holds;
  roomy = c.roomy;
  back = Tiles-frame g g' (a + c.length) top c.rest (λ x lo hi. same x) c.back;
  untouched = c.untouched;
}
