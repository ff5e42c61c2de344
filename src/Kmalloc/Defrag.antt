-- ===== src/Kmalloc/Defrag.antt =====
-- `_kdefrag` against the list of blocks: one pass that joins a free block with a free neighbour.
use lt_kernel.Prelude.{
  ℕ, zero, suc, ◌+◌, ◌%◌, ◌^◌, ◌<◌, ◌≤◌, ◌≡◌, refl, ◌∙◌, true, false, not, ◌&&◌, Option, some, List,
  [], ◌∷◌, arith, length, ltb, Bool-cases, if◌then◌else◌, inl, inr,
}
use lt_kernel.Prelude.Words.{u32}
use lt_kernel.Kmalloc.{Block, block, Headers, merge_next, defrag, write, zero_fill}
use lt_kernel.Kmalloc.Tiles.{Tiles, Tiles-le, Tiles-frame, used_blocks}

-- One pass: the joined block is passed over, so a third free neighbour stays apart.
unfoldable pub coalesce : List Block → List Block
coalesce [] = []
coalesce (b ∷ []) = b ∷ []
coalesce (b ∷ c ∷ bs) =
    let joined = block (b.size + c.size) false ∷ coalesce bs in
    let kept = b ∷ coalesce (c ∷ bs) in if not b.used && not c.used then joined else kept

-- The pass keeps every used block, at its address and with its size.
pub used_blocks-coalesce :
    (a : ℕ) (bs : List Block) → used_blocks a (coalesce bs) ≡ used_blocks a bs
unfolding used_blocks coalesce
used_blocks-coalesce a [] = refl
used_blocks-coalesce a (b ∷ []) = refl
used_blocks-coalesce a (b ∷ c ∷ bs) =
    let e : a + (b.size + c.size) ≡ a + b.size + c.size = omega arith in
    elim (Bool-cases (not b.used && not c.used)) [
      | inl both ↦
          let fb : b.used ≡ false = ground arith in
          let fc : c.used ≡ false = ground arith in
          rw (both, e, fb, fc) (used_blocks-coalesce (a + b.size + c.size) bs)
      | inr kept ↦ let rest = used_blocks-coalesce (a + b.size) (c ∷ bs) in rw (kept, rest)
    ]

-- What the loop leaves from block `a` on.
record Swept (hdr : Headers) (top a : ℕ) (bs : List Block) (r : Option Headers) : Type 0 where
  out : Headers
  runs : r ≡ some out
  tiles : Tiles out a top (coalesce bs)
  below : (x : ℕ) → x < a → out x ≡ hdr x

module _ (top : ℕ) (small : top < 2 ^ 31) where
  -- The header that the merge leaves at `a`, and those that it does not touch.
  merged-at :
      (hdr : Headers) (a : ℕ) (b c : Block)
      → hdr a ≡ b
      → hdr (a + b.size) ≡ c
      → 4 < b.size
      → b.used ≡ false
      → c.used ≡ false
      → a + b.size + c.size < 2 ^ 31
      → a + b.size < top
      → (merge_next top a hdr a ≡ block (b.size + c.size) false)
        × ((x : ℕ) → x < a → merge_next top a hdr x ≡ hdr x)
        × ((x : ℕ) → a + b.size + c.size ≤ x → merge_next top a hdr x ≡ hdr x)
  unfolding merge_next write zero_fill
  merged-at hdr a b c ea eb r fb fc fits lt =
      let next : u32 (a + b.size) ≡ a + b.size = omega arith in
      let sum : (b.size + c.size) % 2 ^ 31 ≡ b.size + c.size = omega arith in
      let go : ltb (a + b.size) top ≡ true = ground arith in
      (rw (ea, next, eb, go, fb, fc) (ground arith), λ x l. ground arith, λ x l. ground arith)

  -- Where the merge does not happen, it leaves the headers alone.
  merge_next-same :
      (hdr : Headers) (a : ℕ) (b c : Block)
      → hdr a ≡ b
      → hdr (a + b.size) ≡ c
      → a + b.size < 2 ^ 31
      → (not b.used && not c.used) ≡ false
      → merge_next top a hdr ≡ hdr
  unfolding merge_next
  merge_next-same hdr a b c ea eb fits kept =
      let next : u32 (a + b.size) ≡ a + b.size = omega arith in
      rw (ea, next, eb, kept) (ground arith)

  merge_next-last :
      (hdr : Headers) (a : ℕ) (b : Block)
      → hdr a ≡ b
      → a + b.size ≡ top
      → merge_next top a hdr ≡ hdr
  unfolding merge_next
  merge_next-last hdr a b ea e =
      let next : u32 (a + b.size) ≡ top = omega arith in rw (ea, next) (ground arith)

  -- One round of the loop, when the block that it leaves at `a` has size `n`.
  defrag-step :
      (fuel : ℕ) (hdr : Headers) (a n : ℕ)
      → a < top
      → (merge_next top a hdr a).size ≡ n
      → a + n < 2 ^ 31
      → defrag (suc fuel) top a hdr ≡ defrag fuel top (a + n) (merge_next top a hdr)
  unfolding defrag
  defrag-step fuel hdr a n lt e fits =
      let next : u32 (a + n) ≡ a + n = omega arith in
      let go : ltb a top ≡ true = ground arith in rw (go, e, next)

  defrag-end : (fuel : ℕ) (hdr : Headers) → defrag (suc fuel) top top hdr ≡ some hdr
  unfolding defrag
  defrag-end fuel hdr = ground arith

  -- Behind a block that stays as it is, the loop goes on.
  Swept-keep :
      (fuel : ℕ) (hdr : Headers) (a : ℕ) (b : Block) (bs : List Block)
      → hdr a ≡ b
      → 4 < b.size
      → a + b.size ≤ top
      → merge_next top a hdr ≡ hdr
      → coalesce (b ∷ bs) ≡ b ∷ coalesce bs
      → Swept hdr top (a + b.size) bs (defrag fuel top (a + b.size) hdr)
      → Swept hdr top a (b ∷ bs) (defrag (suc fuel) top a hdr)
  Swept-keep fuel hdr a b bs e r le same split s = record {
    out = s.out;
    runs =
        defrag-step fuel hdr a b.size (omega arith) (rw (same, e)) (omega arith) ∙ rw same s.runs;
    tiles = rw split (s.below a (omega arith) ∙ e, r, s.tiles);
    below = λ x lt. s.below x (omega arith);
  }

  Swept-join :
      (fuel : ℕ) (hdr : Headers) (a : ℕ) (b c : Block) (bs : List Block)
      → Tiles hdr a top (b ∷ c ∷ bs)
      → b.used ≡ false
      → c.used ≡ false
      → Swept
          (merge_next top a hdr)
          top
          (a + b.size + c.size)
          bs
          (defrag fuel top (a + b.size + c.size) (merge_next top a hdr))
      → Swept hdr top a (b ∷ c ∷ bs) (defrag (suc fuel) top a hdr)
  unfolding coalesce
  Swept-join fuel hdr a b c bs t fb fc s =
      let le = Tiles-le hdr (a + b.size + c.size) top bs t.2.2 in
      let m = merged-at hdr a b c t.0 t.2.0 t.1 fb fc (omega arith) (omega (arith, t.2.1)) in
      let e : a + (b.size + c.size) ≡ a + b.size + c.size = omega arith in
      record {
        out = s.out;
        runs =
            defrag-step fuel hdr a (b.size + c.size) (omega (arith, t.1)) (rw m.0) (omega arith)
            ∙ rw e s.runs;
        tiles =
            rw (fb, fc) (s.below a (omega (arith, t.1)) ∙ m.0, omega (arith, t.1), rw e s.tiles);
        below = λ x lt. s.below x (omega arith) ∙ m.1 x lt;
      }

  defrag-Swept :
      (fuel : ℕ) (hdr : Headers) (a : ℕ) (bs : List Block)
      → Tiles hdr a top bs
      → length bs < fuel
      → Swept hdr top a bs (defrag fuel top a hdr)
  unfolding coalesce
  defrag-Swept zero hdr a bs t f = absurd (omega arith)
  defrag-Swept (suc fuel) hdr a [] t f =
      rw t (record { out = hdr; runs = defrag-end fuel hdr; tiles = refl; below = λ x l. refl })
  defrag-Swept (suc fuel) hdr a (b ∷ []) t f =
      Swept-keep fuel hdr a b [] t.0 t.1 (omega (arith, t.2)) (merge_next-last hdr a b t.0 t.2) refl
        (defrag-Swept fuel hdr (a + b.size) [] t.2 (omega arith))
  defrag-Swept (suc fuel) hdr a (b ∷ c ∷ bs) t f =
      let le = Tiles-le hdr (a + b.size) top (c ∷ bs) t.2 in
      let keep = defrag-Swept fuel hdr (a + b.size) (c ∷ bs) t.2 (omega arith) in
      elim (Bool-cases (not b.used && not c.used)) [
        | inl both ↦
            let fb : b.used ≡ false = ground arith in
            let fc : c.used ≡ false = ground arith in
            let le2 = Tiles-le hdr (a + b.size + c.size) top bs t.2.2 in
            let m = merged-at hdr a b c t.0 t.2.0 t.1 fb fc (omega arith) (omega (arith, t.2.1)) in
            Swept-join fuel hdr a b c bs t fb fc (
              defrag-Swept fuel (merge_next top a hdr) (a + b.size + c.size) bs
                (Tiles-frame hdr _ (a + b.size + c.size) top bs (λ x lo hi. m.2 x lo) t.2.2)
                (omega arith))
        | inr kept ↦
            Swept-keep fuel hdr a b (c ∷ bs) t.0 t.1 (omega arith)
              (merge_next-same hdr a b c t.0 t.2.0 (omega arith) kept) (rw kept) keep
      ]

-- `_kdefrag` ends, and turns well-formed blocks into those of one pass of `coalesce`.
pub defrag-coalesce :
    (fuel : ℕ) (hdr : Headers) (base top : ℕ) (bs : List Block)
    → top < 2 ^ 31
    → Tiles hdr base top bs
    → length bs < fuel
    → (g : Headers) × (defrag fuel top base hdr ≡ some g) × Tiles g base top (coalesce bs)
defrag-coalesce fuel hdr base top bs small t f =
    let s = defrag-Swept top small fuel hdr base bs t f in (s.out, s.runs, s.tiles)
