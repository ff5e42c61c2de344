-- ===== src/FileCache/Browse.antt =====
-- The loop over the bytes of a directory adds the entries that the bytes encode.
use lt_kernel.Prelude.{
  ℕ, zero, suc, ◌+◌, ◌-◌, ◌%◌, ◌^◌, ◌<◌, ◌≤◌, ◌≡◌, refl, ap, ◌∙◌, Bool, true, false, some, List, [],
  ◌∷◌, ◌==◌, arith, length,
}
use lt_kernel.Prelude.Words.{u32}
use lt_kernel.Prelude.Result.{Result, ok, ◌>>=◌}
use lt_kernel.Status.{KeStatus, status_success}
use lt_kernel.FileCache.{
  World, Inode, Cache, DirectoryEntry, read_entry, cache_entry, browse_loop, is_directory,
  browse_opened, browse_and_cache_directory,
}
use lt_kernel.FileCache.Names.{Child, children_of, add_child, IsOld, cache_entry-Added}

-- The `size` bytes from `i` on are the entries of a list, one behind the other.
abbrev pub Encodes : List ℕ → ℕ → ℕ → List DirectoryEntry → Type 0
Encodes bytes size i [] = size ≡ 0
Encodes bytes size i (e ∷ es) =
    (read_entry bytes i ≡ ok e)
    × (0 < e.rec_len)
    × (e.rec_len ≤ size)
    × Encodes bytes (size - e.rec_len) (i + e.rec_len) es

-- The children of a directory after its entries are added one by one.
abbrev pub add_children : List Child → List DirectoryEntry → List Child
add_children cs [] = cs
add_children cs (e ∷ es) = add_children (add_child cs e) es

record Looped (dir : ℕ) (cs : List Child) (c : Cache) (r : Result (Bool × Cache)) : Type 0 where
  out : Cache
  runs : r ≡ ok (true, out)
  old : IsOld dir out
  children : children_of dir out ≡ cs
  inode : (out.files dir).inode ≡ (c.files dir).inode

-- The body of the loop behind the read of an entry.
abbrev body : ℕ → World → ℕ → List ℕ → ℕ → ℕ → Cache → DirectoryEntry → Result (Bool × Cache)
body fuel w dir bytes size i c e = elim (e.rec_len == 0) [
  | true ↦ ok (true, c)
  | false ↦
      let r = cache_entry w dir e c in
      elim r.0 [
        | false ↦ ok (false, r.1)
        | true ↦ browse_loop fuel w dir bytes (u32 (size + 2 ^ 32 - e.rec_len)) (i + e.rec_len) r.1
      ]
]

module _ (w : World) (grants : (n : ℕ) → w.grant n ≡ true) where
  browse_loop-Looped :
      (fuel dir : ℕ) (bytes : List ℕ) (size i : ℕ) (c : Cache) (es : List DirectoryEntry)
      → length es < fuel
      → size < 0x100000000
      → Encodes bytes size i es
      → IsOld dir c
      → Looped dir (add_children (children_of dir c) es) c (browse_loop fuel w dir bytes size i c)
  unfolding browse_loop
  browse_loop-Looped zero dir bytes size i c es f small en old = absurd (omega arith)
  browse_loop-Looped (suc fuel) dir bytes size i c [] f small en old =
      let z : (size == 0) ≡ true = ground arith in
      rw (z, browse_loop)
        (record { out = c; runs = refl; old = old; children = refl; inode = refl })
  browse_loop-Looped (suc fuel) dir bytes size i c (e ∷ es) f small en old =
      let z : (size == 0) ≡ false = ground arith in
      let y : (e.rec_len == 0) ≡ false = ground arith in
      let s : (size + 4294967296 - e.rec_len) % 4294967296 ≡ size - e.rec_len = omega arith in
      let a = cache_entry-Added w grants dir e c old in
      let c' = (cache_entry w dir e c).1 in
      let r =
        browse_loop-Looped fuel dir bytes (size - e.rec_len) (i + e.rec_len) c' es (omega arith)
          (omega arith) en.3 a.old in
      let step : body fuel w dir bytes size i c e
          ≡ browse_loop fuel w dir bytes (size - e.rec_len) (i + e.rec_len) c' =
        rw (y, body, a.goes_on, s) refl in
      record {
        out = r.out;
        runs =
            rw (z, browse_loop)
              (ap (λ x. x >>= body fuel w dir bytes size i c) en.0 ∙ step ∙ r.runs);
        old = r.old;
        children = r.children ∙ ap (λ cs. add_children cs es) a.children;
        inode = r.inode ∙ a.inode;
      }

-- What BrowseAndCacheDirectory does with a directory that holds the entries `es`.
pub record Browsed (dir : ℕ) (es : List DirectoryEntry) (c : Cache) (r : Result (KeStatus × Cache))
    : Type 0 where
  pub out : Cache
  pub runs : r ≡ ok (status_success, out)
  pub children : children_of dir out ≡ add_children (children_of dir c) es
  pub old : IsOld dir out

-- For an opened directory whose content of 32-bit size encodes a list of entries, if kmalloc grants
-- what is asked and the directory and its children are at addresses that it gave before: with more fuel
-- than there are entries BrowseAndCacheDirectory ends with STATUS_SUCCESS, and the names and inode
-- numbers of the children are those from before with the entries put in front one by one, without `.`,
-- `..` and the names that compare equal to one that is there.
pub browse_and_cache_directory-Browsed :
    (w : World) (fuel dir : ℕ) (c : Cache) (i : Inode) (bytes : List ℕ) (es : List DirectoryEntry)
    → ((n : ℕ) → w.grant n ≡ true)
    → (c.files dir).inode ≡ some i
    → (c.files dir).opened ≡ true
    → (c.files dir).content ≡ some bytes
    → is_directory i ≡ true
    → i.size < 0x100000000
    → Encodes bytes i.size 0 es
    → IsOld dir c
    → length es < fuel
    → Browsed dir es c (browse_and_cache_directory fuel w dir c)
unfolding browse_and_cache_directory browse_opened
browse_and_cache_directory-Browsed w fuel dir c i bytes es grants has opened content isdir small en
      old f =
    let l = browse_loop-Looped w grants fuel dir bytes i.size 0 c es f small en old in
    record {
      out = l.out;
      runs =
          rw (has, browse_and_cache_directory, opened)
            (rw (has, browse_opened, isdir, content, l.runs) refl);
      children = l.children;
      old = l.old;
    }
