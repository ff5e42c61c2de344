-- ===== src/Handles/Open.antt =====
-- `SysOpenDir` makes a new handle that `GetDirFromHandle` finds.
use lt_kernel.Prelude.{
  ℕ, suc, ◌+◌, ◌%◌, ◌<◌, ◌≡◌, ◌≢◌, refl, Bool, true, false, Option, none, some, List, [], ◌∷◌, ◌++◌,
  ◌==◌, arith,
}
use lt_kernel.Prelude.Int.{pos}
use lt_kernel.Status.{status_success}
use lt_kernel.Handles.{
  DirHandle, Process, Kernel, Answer, find_dir, get_dir_from_handle, push, create_dir_handle,
  push_dir, sys_open_dir,
}
use lt_kernel.Handles.Lookup.{Found}

-- All handles are above 0 and below the counter, and none is NULL.
abbrev pub Below : ℕ → List (Option DirHandle) → Type 0
Below count [] = Unit {0}
Below count (none ∷ list) = ⊥
Below count (some d ∷ list) = (0 < d.handle) × (d.handle < count) × Below count list

-- A list of handles: new, with the NULL that `ListCreate` leaves, or filled.
abbrev pub Table : ℕ → List (Option DirHandle) → Type 0
Table count [] = ⊥
Table count (none ∷ []) = Unit {0}
Table count (none ∷ (x ∷ list)) = ⊥
Table count (some d ∷ list) = Below count (some d ∷ list)

Below-append :
    (count next : ℕ) (x : DirHandle) (list : List (Option DirHandle))
    → count < next
    → x.handle ≡ count
    → 0 < count
    → Below count list
    → Below next (list ++ some x ∷ [])
Below-append count next x [] lt e z b = (omega arith, omega arith, tt)
Below-append count next x (none ∷ list) lt e z b = b
Below-append count next x (some d ∷ list) lt e z b =
    (b.0, omega (arith, b.1), Below-append count next x list lt e z b.2)

Found-new :
    (count : ℕ) (x : DirHandle) (list : List (Option DirHandle))
    → x.handle ≡ count
    → Below count list
    → Found count (list ++ some x ∷ []) x
unfolding find_dir
Found-new count x [] e b = let q : (x.handle == count) ≡ true = ground arith in rw q refl
Found-new count x (none ∷ list) e b = absurd b
Found-new count x (some d ∷ list) e b =
    let q : (d.handle == count) ≡ false = ground (arith, b.1) in rw q (Found-new count x list e b.2)

-- A push of the new handle keeps the table and is found.
push-Table :
    (count next : ℕ) (x : DirHandle) (list : List (Option DirHandle))
    → count < next
    → x.handle ≡ count
    → 0 < count
    → Table count list
    → Table next (push true x list) × Found count (push true x list) x
unfolding push
push-Table count next x [] lt e z t = absurd t
push-Table count next x (none ∷ []) lt e z t =
    ((omega arith, omega arith, tt), Found-new count x [] e tt)
push-Table count next x (none ∷ (y ∷ list)) lt e z t = absurd t
push-Table count next x (some d ∷ list) lt e z t =
    (Below-append count next x (some d ∷ list) lt e z t, Found-new count x (some d ∷ list) e t)

-- What a successful `SysOpenDir` leaves.
pub record DirOpened (k : Kernel) (p : Process) (dir : ℕ) (r : Answer) : Type 0 where
  pub status : r.status ≡ status_success
  pub ret : r.ret ≡ pos 0
  pub written : r.written ≡ some (k.handle_count, true)
  pub count : r.kernel.handle_count ≡ k.handle_count + 4
  pub owner : Process
  pub current : r.kernel.process ≡ some owner
  pub table : Table (k.handle_count + 4) owner.dir_handle_list
  pub finds :
      get_dir_from_handle k.handle_count r.kernel.process
      ≡ (status_success, some record { handle = k.handle_count; dir = dir; cursor = 0 })

module _ (grant : ℕ → Bool) (is_directory : ℕ → Bool) (leaf : ℕ → ℕ) (next : ℕ → ℕ) where
  created_new :
      (k : Kernel) (dir : ℕ)
      → dir ≢ 0
      → is_directory dir ≡ true
      → grant k.requests ≡ true
      → k.handle_count + 4 < 4294967296
      → create_dir_handle grant is_directory leaf next dir k ≡ (
        status_success,
        some record { handle = k.handle_count; dir = dir; cursor = 0 },
        record k { requests = suc k.requests; handle_count = k.handle_count + 4 },
      )
  unfolding create_dir_handle
  created_new k dir nd isd g small =
      let z : (dir == 0) ≡ false = ground arith in
      let w : (k.handle_count + 4) % 4294967296 ≡ k.handle_count + 4 = omega arith in
      rw (z, isd, g, w) refl

  pushed_new :
      (k : Kernel) (p : Process) (x : DirHandle)
      → grant k.requests ≡ true
      → push_dir grant is_directory leaf next x p k ≡ record k {
        requests = suc k.requests;
        process = some record p { dir_handle_list = push true x p.dir_handle_list };
      }
  unfolding push_dir
  pushed_new k p x g = rw g refl

  abbrev pub running : ℕ → ℕ → Process → Kernel
  running requests count p = record { requests = requests; handle_count = count; process = some p }

  -- For a directory that `OpenFileFromName` found, a process whose handles are all below the counter,
  -- a counter above 0 that does not wrap, and a `kmalloc` that grants the two requests: `SysOpenDir`
  -- succeeds with `*ret` 0 and writes the counter as the new handle, under which `GetDirFromHandle`
  -- then finds the directory with the cursor at its start; the handles are below the new counter,
  -- which is 4 more.
  pub sys_open_dir-DirOpened :
      (n count : ℕ) (p : Process) (dir : ℕ)
      → Table count p.dir_handle_list
      → 0 < count
      → count + 4 < 4294967296
      → dir ≢ 0
      → is_directory dir ≡ true
      → grant n ≡ true
      → grant (suc n) ≡ true
      → DirOpened
          (running n count p)
          p
          dir
          (sys_open_dir grant is_directory leaf next (status_success, dir) (running n count p))
  unfolding sys_open_dir get_dir_from_handle
  sys_open_dir-DirOpened n count p dir t above small nd isd g g' =
      let y : (count == 0) ≡ false = ground arith in
      let x : DirHandle = record { handle = count; dir = dir; cursor = 0 } in
      let q = push-Table count (count + 4) x p.dir_handle_list (omega arith) refl above t in
      let made = created_new (running n count p) dir nd isd g small in
      rw (isd, made, made, made, pushed_new (running (suc n) (count + 4) p) p x g')
        record {
          status = refl;
          ret = refl;
          written = refl;
          count = refl;
          owner = record p { dir_handle_list = push true x p.dir_handle_list };
          current = refl;
          table = q.0;
          finds = rw y q.1;
        }
