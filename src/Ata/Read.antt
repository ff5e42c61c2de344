-- ===== src/Ata/Read.antt =====
-- `AtaRead` answers the bytes of the disk, whatever their place in the sectors.
use lt_kernel.Prelude.{
  ℕ, zero, suc, ◌+◌, ◌-◌, ◌*◌, ◌/◌, ◌%◌, ◌<◌, ◌≡◌, refl, sym, ap, ◌∙◌, Bool, true, false, some,
  List, [], ◌∷◌, ◌++◌, ◌==◌, arith, ltb, take, drop, length, get_elem?, append_assoc, append-nil,
  dec_lt,
}
use lt_kernel.Prelude.Int.{pos}
use lt_kernel.Prelude.Result.{Result, ok}
use lt_kernel.Alloc.{Alloc, request, give_back}
use lt_kernel.Ata.{Transfer, read_sectors, ata_read}

get_elem?-take : (n k : ℕ) (xs : List ℕ) → k < n → get_elem? (take n xs) k ≡ get_elem? xs k
get_elem?-take zero k xs h = absurd (omega arith)
get_elem?-take (suc n) k [] h = refl
get_elem?-take (suc n) zero (x ∷ xs) h = refl
get_elem?-take (suc n) (suc k) (x ∷ xs) h = get_elem?-take n k xs (omega arith)

get_elem?-drop : (n k : ℕ) (xs : List ℕ) → get_elem? (drop n xs) k ≡ get_elem? xs (n + k)
get_elem?-drop zero k xs = ap (get_elem? xs) (omega arith)
get_elem?-drop (suc n) k [] = refl
get_elem?-drop (suc n) k (x ∷ xs) =
    get_elem?-drop n k xs ∙ ap (get_elem? (x ∷ xs)) {x = suc (n + k)} (omega arith)

get_elem?-append_lt :
    (xs ys : List ℕ) (k : ℕ) → k < length xs → get_elem? (xs ++ ys) k ≡ get_elem? xs k
get_elem?-append_lt [] ys k h = absurd (omega arith)
get_elem?-append_lt (x ∷ xs) ys zero h = refl
get_elem?-append_lt (x ∷ xs) ys (suc k) h = get_elem?-append_lt xs ys k (omega arith)

get_elem?-append_ge :
    (xs ys : List ℕ) (k : ℕ) → get_elem? (xs ++ ys) (length xs + k) ≡ get_elem? ys k
get_elem?-append_ge [] ys k = ap (get_elem? ys) (omega arith)
get_elem?-append_ge (x ∷ xs) ys k =
    ap (get_elem? (x ∷ xs ++ ys)) {y = suc (length xs + k)} (omega arith)
    ∙ get_elem?-append_ge xs ys k

module _ (image : ℕ → List ℕ) (sizes : (lba : ℕ) → length (image lba) ≡ 512) where
  -- `n` sectors from `lba` on
  abbrev sectors : ℕ → ℕ → List ℕ
  sectors zero lba = []
  sectors (suc n) lba = image lba ++ sectors n (suc lba)

  read_sectors_lem :
      (n lba : ℕ) (buffer : List ℕ)
      → read_sectors (λ b. some (image b)) n lba buffer ≡ some (buffer ++ sectors n lba)
  unfolding read_sectors
  read_sectors_lem zero lba buffer = ap some (sym (append-nil buffer))
  read_sectors_lem (suc n) lba buffer =
      read_sectors_lem n (suc lba) (buffer ++ image lba)
      ∙ ap some (append_assoc buffer (image lba) _)

  get_elem?-sectors :
      (n lba k : ℕ)
      → k < 512 * n
      → get_elem? (sectors n lba) k ≡ get_elem? (image (lba + k / 512)) (k % 512)
  get_elem?-sectors zero lba k h = absurd (omega arith)
  get_elem?-sectors (suc n) lba k h = elim (dec_lt k 512) [
    | yes l ↦
        get_elem?-append_lt (image lba) (sectors n (suc lba)) k (omega (arith, sizes lba))
        ∙ ap (λ b. get_elem? (image b) k) {y = lba + k / 512} (omega arith)
        ∙ ap (get_elem? (image (lba + k / 512))) (omega arith)
    | no l ↦
        ap (get_elem? (image lba ++ sectors n (suc lba))) {y = length (image lba) + (k - 512)}
          (omega (arith, sizes lba))
        ∙ get_elem?-append_ge (image lba) (sectors n (suc lba)) (k - 512)
        ∙ get_elem?-sectors n (suc lba) (k - 512) (omega arith)
        ∙ ap (λ b. get_elem? (image b) ((k - 512) % 512)) {y = lba + k / 512} (omega arith)
        ∙ ap (get_elem? (image (lba + k / 512))) (omega arith)
  ]

  given_back :
      (grant : ℕ → Bool) (a : Alloc)
      → grant a.requests ≡ true
      → a.live (suc a.requests) ≡ false
      → (x : ℕ) → (give_back (suc a.requests) (request grant a).1).live x ≡ a.live x
  unfolding give_back request
  given_back grant a g fresh x = ground arith

  -- A read that succeeded: the size, each byte, and the memory as it was.
  pub record Transferred (offset size : ℕ) (a : Alloc) (r : Result Transfer) : Type 0 where
    pub out : Transfer
    pub runs : r ≡ ok out
    pub ret : out.ret ≡ pos size
    pub irq : out.irq ≡ true
    pub bytes :
        (k : ℕ)
        → k < size
        → get_elem? out.bytes k ≡ get_elem? (image ((offset + k) / 512)) ((offset + k) % 512)
    pub balanced : (x : ℕ) → out.heap.live x ≡ a.live x

  -- For a range of the disk that ends below 2^32, when `kmalloc` grants the buffer at a new address and
  -- every sector, of 512 bytes, is read: `AtaRead` returns the size, the byte `k` that it writes is the
  -- byte `(offset + k) % 512` of the sector `(offset + k) / 512`, the buffer is freed and interrupts are
  -- enabled again.
  pub ata_read-Transferred :
      (grant : ℕ → Bool) (offset size : ℕ) (a : Alloc)
      → offset + size < 4294967296
      → grant a.requests ≡ true
      → a.live (suc a.requests) ≡ false
      → Transferred offset size a (ata_read grant (λ b. some (image b)) offset size a)
  unfolding ata_read request
  ata_read-Transferred grant offset size a small g fresh =
      let w : (offset + size) % 4294967296 ≡ offset + size = omega arith in
      let n = (offset + size) / 512 - offset / 512 + 1 in
      let b = offset / 512 in
      let l : ltb ((offset + size) / 512) (offset / 512) ≡ false = ground arith in
      let y : (suc a.requests == 0) ≡ false = ground arith in
      let m = read_sectors_lem n b [] in
      record {
        out = record {
          ret = pos size;
          bytes = take size (drop (offset % 512) (sectors n b));
          heap = give_back (suc a.requests) (request grant a).1;
          irq = true;
        };
        runs = rw (w, l, g, y, m, g) refl;
        ret = refl;
        irq = refl;
        bytes = λ k h.
            get_elem?-take size k (drop (offset % 512) (sectors n b)) h
            ∙ get_elem?-drop (offset % 512) k (sectors n b)
            ∙ get_elem?-sectors n b (offset % 512 + k) (omega arith)
            ∙ ap (λ x. get_elem? (image x) ((offset % 512 + k) % 512)) {y = (offset + k) / 512}
                (omega arith)
            ∙ ap (get_elem? (image ((offset + k) / 512))) (omega arith);
        balanced = λ x. given_back grant a g fresh x;
      }
