-- ===== src/FileCache/Names.antt =====
-- The children of a directory as names with inode numbers, and the step that adds one.
use lt_kernel.Prelude.{
  ℕ, suc, ◌≤◌, ◌≡◌, refl, ap, ◌∙◌, Bool, true, false, ◌||◌, Option, none, some, List, [], ◌∷◌, map,
  ◌==◌, if◌then◌else◌, arith, Bool-cases, Option-cases, inl, inr, All,
}
use lt_kernel.Alloc.{Alloc, request, give_back}
use lt_kernel.FileCache.{
  World, File, Cache, DirectoryEntry, c_string, same_name, dot, dot_dot, find_child, is_cached,
  add_file, cache_entry, set_file,
}

abbrev pub Child : Type 0
Child = Option (List ℕ) × ℕ

abbrev pub child_of : File → Child
child_of f = (f.name, f.inum)

abbrev pub children_of : ℕ → Cache → List Child
children_of dir c = map (λ a. child_of (c.files a)) (c.files dir).children

abbrev pub is_known : List ℕ → List Child → Bool
is_known name [] = false
is_known name ((none, i) ∷ cs) = is_known name cs
is_known name ((some n, i) ∷ cs) = if same_name n name then true else is_known name cs

-- What an entry of a directory adds to its children: nothing for `.`, `..` and a name that is known.
abbrev pub add_child : List Child → DirectoryEntry → List Child
add_child cs e =
    let name = c_string e.name in
    if same_name name dot || same_name name dot_dot
    then cs
    else if is_known name cs
    then cs
    else (some name, e.inode) ∷ cs

-- The directory and its children are at addresses that kmalloc gave before.
pub record IsOld (dir : ℕ) (c : Cache) : Type 0 where
  pub self : dir ≤ c.heap.requests
  pub children : All (λ a. a ≤ c.heap.requests) (c.files dir).children

abbrev Finds : Option ℕ → Bool → Type 0
Finds none known = known ≡ false
Finds (some a) known = known ≡ true

find_child-Finds :
    (files : ℕ → File) (name : List ℕ) (as' : List ℕ)
    → Finds (find_child files name as') (is_known name (map (λ a. child_of (files a)) as'))
unfolding find_child
find_child-Finds files name [] = refl
find_child-Finds files name (a ∷ rest) =
    let h = find_child-Finds files name rest in
    elim (files a).name
      as (λ n.
        Finds
          (elim n [
            | none ↦ find_child files name rest
            | some n ↦ if same_name n name then some a else find_child files name rest
          ])
          (is_known name ((n, (files a).inum) ∷ map (λ a. child_of (files a)) rest))) [
            | none ↦ h
            | some n ↦
                elim (same_name n name)
                  as (λ b.
                    Finds (if b then some a else find_child files name rest)
                      (if b then true else is_known name (map (λ a. child_of (files a)) rest))) [
                        | true ↦ refl
                        | false ↦ h
                      ]
          ]

map_same :
    (f g : ℕ → Child) (n : ℕ) (xs : List ℕ)
    → All (λ a. a ≤ n) xs
    → ((a : ℕ) → a ≤ n → f a ≡ g a)
    → map f xs ≡ map g xs
map_same f g n [] h e = refl
map_same f g n (x ∷ xs) h e = rw (e x h.0, map_same f g n xs h.1 e) refl

All-le : (n k : ℕ) (xs : List ℕ) → n ≤ k → All (λ a. a ≤ n) xs → All (λ a. a ≤ k) xs
All-le n k [] l h = tt
All-le n k (x ∷ xs) l h = (omega arith, All-le n k xs l h.1)

-- The step for one entry, when kmalloc grants what is asked.
pub record Added (dir : ℕ) (cs : List Child) (c : Cache) (r : Bool × Cache) : Type 0 where
  pub goes_on : r.0 ≡ true
  pub old : IsOld dir r.1
  pub children : children_of dir r.1 ≡ cs
  pub inode : (r.1.files dir).inode ≡ (c.files dir).inode

-- The allocator behind a request that is granted.
abbrev after : Alloc → Alloc
after a = record a {
  requests = suc a.requests;
  live = λ x. if x == suc a.requests then true else a.live x;
}

give_back_requests : (p : ℕ) (a : Alloc) → (give_back p a).requests ≡ a.requests
unfolding give_back
give_back_requests p a = ground arith

-- The cache with a new file as the first child of a directory.
abbrev filed : World → ℕ → ℕ → List ℕ → Cache → Cache
filed w dir inum name c =
    let n = suc c.heap.requests in
    let new : File = record (w.raw n) {
      content = none;
      inode = none;
      inum = inum;
      children = [];
      name = some name;
      parent = dir;
    } in
    let d = c.files dir in
    set_file dir (record d { children = n ∷ d.children })
      (set_file n new (record c { heap = after c.heap }))

child_of-filed :
    (w : World) (dir inum : ℕ) (name : List ℕ) (c : Cache) (a : ℕ)
    → a ≤ c.heap.requests
    → child_of ((filed w dir inum name c).files a) ≡ child_of (c.files a)
child_of-filed w dir inum name c a h =
    let q : (a == suc c.heap.requests) ≡ false = ground arith in
    let s : (dir == dir) ≡ true = ground arith in
    elim (Bool-cases (a == dir)) [
      | inl e ↦ let same : a ≡ dir = ground arith in rw (same, s) refl
      | inr e ↦ rw (e, q) refl
    ]

filed-Added :
    (w : World) (dir inum : ℕ) (name : List ℕ) (c : Cache)
    → IsOld dir c
    → Added dir ((some name, inum) ∷ children_of dir c) c (true, filed w dir inum name c)
filed-Added w dir inum name c old =
    let n = suc c.heap.requests in
    let c' = filed w dir inum name c in
    let s : (dir == dir) ≡ true = ground arith in
    let u : (n == dir) ≡ false = ground (arith, old.self) in
    let t : (n == n) ≡ true = ground arith in
    let kept : (c'.files dir).children ≡ n ∷ (c.files dir).children = rw s refl in
    let new : child_of (c'.files n) ≡ (some name, inum) = rw (u, t) refl in
    record {
      goes_on = refl;
      old = record {
        self = omega (arith, old.self);
        children = rw kept (omega arith, All-le c.heap.requests n _ (omega arith) old.children);
      };
      children =
          ap (map (λ a. child_of (c'.files a))) kept
          ∙ rw new (
              ap (λ cs. (some name, inum) ∷ cs)
                (map_same (λ a. child_of (c'.files a)) (λ a. child_of (c.files a)) c.heap.requests _
                  old.children (child_of-filed w dir inum name c)));
      inode = rw s refl;
    }

module _ (w : World) (grants : (n : ℕ) → w.grant n ≡ true) where
  granted : (a : Alloc) → request w.grant a ≡ (suc a.requests, after a)
  unfolding request
  granted a = rw (grants a.requests) refl

  add_file-filed :
      (dir inum : ℕ) (name : List ℕ) (c : Cache)
      → add_file w dir inum name c ≡ (true, filed w dir inum name c)
  unfolding add_file
  add_file-filed dir inum name c =
      let nz : (suc c.heap.requests == 0) ≡ false = ground arith in
      rw (granted c.heap, add_file, nz, granted c.heap) refl

  dropped-Added :
      (dir : ℕ) (c : Cache)
      → IsOld dir c
      → Added dir (children_of dir c) c (
        true,
        record c { heap = give_back (request w.grant c.heap).0 (request w.grant c.heap).1 },
      )
  dropped-Added dir c old =
      let r = request w.grant c.heap in
      let e : (give_back r.0 r.1).requests ≡ suc c.heap.requests =
        give_back_requests r.0 r.1 ∙ ap (λ x. x.1.requests) (granted c.heap) in
      record {
        goes_on = refl;
        old = record {
          self = omega (arith, old.self, e);
          children =
              rw e (All-le c.heap.requests (suc c.heap.requests) _ (omega arith) old.children);
        };
        children = refl;
        inode = refl;
      }

  later : (dir : ℕ) (c : Cache) → IsOld dir c → IsOld dir (record c { heap = after c.heap })
  later dir c old = record {
    self = omega (arith, old.self);
    children = All-le c.heap.requests (suc c.heap.requests) _ (omega arith) old.children;
  }

  pub cache_entry-Added :
      (dir : ℕ) (e : DirectoryEntry) (c : Cache)
      → IsOld dir c
      → Added dir (add_child (children_of dir c) e) c (cache_entry w dir e c)
  unfolding cache_entry is_cached
  cache_entry-Added dir e c old =
      let name = c_string e.name in
      let k = find_child-Finds c.files name (c.files dir).children in
      let drop = dropped-Added dir c old in
      let nz : (suc c.heap.requests == 0) ≡ false = ground arith in
      let pos : ((request w.grant c.heap).0 == 0) ≡ false =
        ap (λ r. r.0 == 0) (granted c.heap) ∙ nz in
      elim (Bool-cases (same_name name dot || same_name name dot_dot)) [
        | inl special ↦ rw (pos, cache_entry, special) drop
        | inr plain ↦ elim (Option-cases (find_child c.files name (c.files dir).children)) [
          | inl new ↦
              let known : is_known name (children_of dir c) ≡ false = rw new at k in
              let c1 : Cache = record c { heap = after c.heap } in
              let f = filed-Added w dir e.inode name c1 (later dir c old) in
              rw
                (
                  pos,
                  cache_entry,
                  plain,
                  new,
                  is_cached,
                  known,
                  granted c.heap,
                  add_file-filed dir e.inode name c1,
                )
                (record {
                  goes_on = f.goes_on;
                  old = f.old;
                  children = f.children;
                  inode = f.inode;
                })
          | inr (a, found) ↦
              let known : is_known name (children_of dir c) ≡ true = rw found at k in
              rw (pos, cache_entry, plain, found, is_cached, known) drop
        ]
      ]
