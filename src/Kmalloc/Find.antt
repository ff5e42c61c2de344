-- ===== src/Kmalloc/Find.antt =====
-- The loop of `_kmalloc` on well-formed blocks.
use lt_kernel.Prelude.{
  ℕ, zero, suc, ◌+◌, ◌^◌, ◌<◌, ◌≤◌, ◌≡◌, refl, ◌∙◌, ap, Bool, true, false, not, ◌||◌, Option, none,
  some, List, [], ◌∷◌, arith, length, inl, inr, ltb, Bool-cases, All,
}
use lt_kernel.Prelude.Words.{u32}
use lt_kernel.Kmalloc.{Block, Headers, find_block}
use lt_kernel.Kmalloc.Tiles.{Tiles, Tiles-le, Spot, spot_blocks}

-- Whether the block can serve a request of `size` bytes, header included.
abbrev pub fits : ℕ → Block → Bool
fits size b = not (b.used || ltb b.size size)

abbrev pub NoneFits : ℕ → List Block → Type 0
NoneFits size bs = All (λ b. fits size b ≡ false) bs

-- The first block that fits, or the proof that none does.
pub data Found (hdr : Headers) (base top size : ℕ) (bs : List Block) : Option ℕ → Type 0 where
  fit :
      (a : ℕ) (s : Spot hdr base top a)
      → bs ≡ spot_blocks s
      → s.here.used ≡ false
      → size ≤ s.here.size
      → NoneFits size s.before
      → Found hdr base top size bs (some a)
  missing : NoneFits size bs → Found hdr base top size bs none

module _ (hdr : Headers) (top size : ℕ) (small : top < 2 ^ 31) where
  Found-cons :
      (a : ℕ) (b : Block) (bs : List Block) (o : Option ℕ)
      → hdr a ≡ b
      → 4 < b.size
      → fits size b ≡ false
      → Found hdr (a + b.size) top size bs o
      → Found hdr a top size (b ∷ bs) o
  Found-cons a b bs none e r no_fit (missing n) = missing (no_fit, n)
  Found-cons a b bs (some c) e r no_fit (fit _ s eq free large n) =
      fit c
        (record {
          before = b ∷ s.before;
          here = s.here;
          behind = s.behind;
          front = (e, r, s.front);
          holds = s.holds;
          roomy = s.roomy;
          back = s.back;
        })
        (ap (λ t. b ∷ t) eq) free large (no_fit, n)

  pub find_block-Found :
      (fuel a : ℕ) (bs : List Block)
      → Tiles hdr a top bs
      → length bs < fuel
      → (o : Option ℕ) × (find_block fuel hdr top size a ≡ some o) × Found hdr a top size bs o
  unfolding find_block
  find_block-Found zero a bs t f = absurd (omega arith)
  find_block-Found (suc fuel) a [] t f = (none, ground arith, missing tt)
  find_block-Found (suc fuel) a (b ∷ bs) t f =
      let le = Tiles-le hdr (a + b.size) top bs t.2 in
      let next : u32 (a + b.size) ≡ a + b.size = omega arith in
      let below : ltb a top ≡ true = ground (arith, t.1) in
      elim (Bool-cases (fits size b)) [
        | inl good ↦ (
          some a,
          rw (below, t.0) (ground arith),
          fit a
              (record {
                before = [];
                here = b;
                behind = bs;
                front = refl;
                holds = t.0;
                roomy = t.1;
                back = t.2;
              })
              refl (ground arith) (ground arith) tt,
        )
        | inr bad ↦
            let rest = find_block-Found fuel (a + b.size) bs t.2 (omega arith) in
            let busy : (b.used || ltb b.size size) ≡ true = ground arith in
            let step : find_block (suc fuel) hdr top size a
                ≡ find_block fuel hdr top size (a + b.size) =
              rw (below, t.0, busy, next) in
            (rest.0, step ∙ rest.1, Found-cons a b bs rest.0 t.0 t.1 bad rest.2)
      ]
