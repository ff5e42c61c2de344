-- ===== src/Kmalloc/Tiles.antt =====
-- What the headers stand for: a list of blocks that lie one behind the other.
use lt_kernel.Prelude.{
  ℕ, ◌+◌, ◌^◌, ◌<◌, ◌≤◌, ◌≡◌, ◌∙◌, true, List, [], ◌∷◌, ◌++◌, arith, length, if◌then◌else◌,
}
use lt_kernel.Frames.{IsBitmap, is_used}
use lt_kernel.Kmalloc.{Block, Headers, KHeap}

-- From `a` the headers lead through the blocks `bs` to `end`; a block has room beyond its header.
abbrev pub Tiles : Headers → ℕ → ℕ → List Block → Type 0
Tiles hdr a end [] = a ≡ end
Tiles hdr a end (b ∷ bs) = (hdr a ≡ b) × (4 < b.size) × Tiles hdr (a + b.size) end bs

-- The used blocks with their addresses, in order.
unfoldable pub used_blocks : ℕ → List Block → List (ℕ × ℕ)
used_blocks a [] = []
used_blocks a (b ∷ bs) =
    let rest = used_blocks (a + b.size) bs in if b.used then (a, b.size) ∷ rest else rest

module _ (hdr : Headers) where
  pub Tiles-le : (a end : ℕ) (bs : List Block) → Tiles hdr a end bs → a + length bs ≤ end
  Tiles-le a end [] t = omega arith
  Tiles-le a end (b ∷ bs) t = omega (arith, Tiles-le (a + b.size) end bs t.2, t.1)

  pub Tiles-append :
      (a m end : ℕ) (xs ys : List Block)
      → Tiles hdr a m xs
      → Tiles hdr m end ys
      → Tiles hdr a end (xs ++ ys)
  Tiles-append a m end [] ys t u = rw t u
  Tiles-append a m end (x ∷ xs) ys t u = (t.0, t.1, Tiles-append (a + x.size) m end xs ys t.2 u)

  -- A change outside the blocks leaves them as they are.
  pub Tiles-frame :
      (g : Headers) (a end : ℕ) (bs : List Block)
      → ((x : ℕ) → a ≤ x → x < end → g x ≡ hdr x)
      → Tiles hdr a end bs
      → Tiles g a end bs
  Tiles-frame g a end [] same t = t
  Tiles-frame g a end (b ∷ bs) same t =
      let le = Tiles-le (a + b.size) end bs t.2 in
      (
        same a (omega arith) (omega (arith, t.1)) ∙ t.0,
        t.1,
        Tiles-frame g (a + b.size) end bs (λ x lo hi. same x (omega arith) hi) t.2,
      )

  pub used_blocks-append :
      (a m : ℕ) (xs ys : List Block)
      → Tiles hdr a m xs
      → used_blocks a (xs ++ ys) ≡ used_blocks a xs ++ used_blocks m ys
  unfolding used_blocks
  used_blocks-append a m [] ys t = rw t
  used_blocks-append a m (x ∷ xs) ys t = ground (arith, used_blocks-append (a + x.size) m xs ys t.2)

-- A block at address `a`, with those before and behind it.
pub record Spot (hdr : Headers) (base top : ℕ) (a : ℕ) : Type 0 where
  pub before : List Block
  pub here : Block
  pub behind : List Block
  pub front : Tiles hdr base a before
  pub holds : hdr a ≡ here
  pub roomy : 4 < here.size
  pub back : Tiles hdr (a + here.size) top behind

abbrev pub spot_blocks : {hdr : Headers} {base top a : ℕ} → Spot hdr base top a → List Block
spot_blocks s = s.before ++ s.here ∷ s.behind

pub Spot-Tiles :
    (hdr : Headers) (base top a : ℕ) (s : Spot hdr base top a) → Tiles hdr base top (spot_blocks s)
Spot-Tiles hdr base top a s =
    Tiles-append hdr base a top s.before (s.here ∷ s.behind) s.front (s.holds, s.roomy, s.back)

pub Spot-le :
    (hdr : Headers) (base top a : ℕ) (s : Spot hdr base top a)
    → (base ≤ a) × (a + s.here.size ≤ top)
Spot-le hdr base top a s = (
  omega (arith, Tiles-le hdr base a s.before s.front),
  omega (arith, Tiles-le hdr (a + s.here.size) top s.behind s.back),
)

-- The well-formed heap that holds the blocks `bs`: they fill it from its base to `gHeap`, the heap
-- lies within its limit and below the sizes that a header can hold, and frame 0 is never free.
pub record IsHeap (h : KHeap) (bs : List Block) : Type 0 where
  pub tiles : Tiles h.hdr h.base h.top bs
  pub within : h.top ≤ h.limit
  pub small : h.limit < 2 ^ 31
  pub positive : 0 < h.base
  pub frames : IsBitmap h.bitmap
  pub reserved : is_used h.bitmap 0 ≡ true

-- Two used blocks never share a byte: each ends before the next begins.
abbrev pub Apart : ℕ → List (ℕ × ℕ) → Type 0
Apart a [] = Unit {0}
Apart a ((p, n) ∷ rest) = (a ≤ p) × Apart (p + n) rest

pub Apart-mono : (a b : ℕ) (xs : List (ℕ × ℕ)) → a ≤ b → Apart b xs → Apart a xs
Apart-mono a b [] h s = tt
Apart-mono a b ((p, n) ∷ rest) h s = (omega arith, s.1)

pub used_blocks-Apart : (a : ℕ) (bs : List Block) → Apart a (used_blocks a bs)
unfolding used_blocks
used_blocks-Apart a [] = tt
used_blocks-Apart a (b ∷ bs) = ground (
  arith,
  used_blocks-Apart (a + b.size) bs,
  Apart-mono a (a + b.size) (used_blocks (a + b.size) bs),
)
