-- ===== src/Handles/ReadDir.antt =====
-- `SysReadDir` walks the files of a directory.
use mathlib.Core.Path.{subst, sym}
use lt_kernel.Prelude.{
  ℕ, zero, suc, ◌≡◌, ◌≢◌, refl, ◌∙◌, Bool, true, false, none, some, List, [], ◌∷◌, ◌==◌,
  if◌then◌else◌, arith, Bool-cases, inl, inr, length,
}
use lt_kernel.Prelude.Int.{ℤ, pos}
use lt_kernel.Status.{status_success}
use lt_kernel.Handles.{
  DirHandle, FileHandle, Process, Kernel, Answer, get_dir_from_handle, set_cursor,
  create_dir_handle, create_file_handle, push_dir, push_file, advance, give_entry, sys_read_dir,
}
use lt_kernel.Handles.Lookup.{Found, find_dir-set_cursor, find_dir-push}

-- The current process has the handle `h`, and it stands for `d`.
pub record Opened (h : ℕ) (d : DirHandle) (k : Kernel) : Type 0 where
  pub owner : Process
  pub current : k.process ≡ some owner
  pub found : Found h owner.dir_handle_list d

module _ (grant : ℕ → Bool) (is_directory : ℕ → Bool) (leaf : ℕ → ℕ) (next : ℕ → ℕ)
    (granted : (n : ℕ) → grant n ≡ true) (h : ℕ) where
  push_dir-Opened :
      (d x : DirHandle) (p : Process) (k : Kernel)
      → Found h p.dir_handle_list d
      → Opened h d (push_dir grant is_directory leaf next x p k)
  unfolding push_dir
  push_dir-Opened d x p k f = record {
    owner = _;
    current = refl;
    found = find_dir-push h (grant k.requests) x p.dir_handle_list d f;
  }

  push_file-Opened :
      (d : DirHandle) (x : FileHandle) (p : Process) (k : Kernel)
      → Found h p.dir_handle_list d
      → Opened h d (push_file grant is_directory leaf next x p k)
  unfolding push_file
  push_file-Opened d x p k f = record { owner = _; current = refl; found = f }

  created :
      (file : ℕ) (k : Kernel)
      → file ≢ 0
      → is_directory file ≡ true
      → (create_dir_handle grant is_directory leaf next file k).1
        ≡ some (record { handle = k.handle_count; dir = file; cursor = 0 })
  unfolding create_dir_handle
  created file k ne q =
      let z : (file == 0) ≡ false = ground arith in rw (z, q, granted k.requests) refl

  created_file :
      (file : ℕ) (k : Kernel)
      → file ≢ 0
      → is_directory file ≡ false
      → (create_file_handle grant is_directory leaf next file k).1
        ≡ some (record { handle = k.handle_count; file = file; cursor = 0 })
  unfolding create_file_handle
  created_file file k ne q =
      let z : (file == 0) ≡ false = ground arith in rw (z, q, granted k.requests) refl

  give_entry-Opened :
      (file : ℕ) (d : DirHandle) (p : Process) (k : Kernel)
      → file ≢ 0
      → Found h p.dir_handle_list d
      → ((give_entry grant is_directory leaf next file p k).ret ≡ pos 1)
        × Opened h d (give_entry grant is_directory leaf next file p k).kernel
  unfolding give_entry
  give_entry-Opened file d p k ne f = elim (Bool-cases (is_directory file)) [
    | inl q ↦ rw (q, created file k ne q) (refl, push_dir-Opened d _ p _ f)
    | inr q ↦ rw (q, created_file file k ne q) (refl, push_file-Opened d _ p _ f)
  ]

  got :
      (d : DirHandle) (k : Kernel)
      → h ≢ 0
      → Opened h d k
      → get_dir_from_handle h k.process ≡ (status_success, some d)
  unfolding get_dir_from_handle
  got d k nh o = let z : (h == 0) ≡ false = ground arith in rw (o.current, z) o.found

  -- One call, by the file that the cursor moves to.
  abbrev Moved : DirHandle → Answer → Type 0
  Moved d r =
      let file = advance grant is_directory leaf next d in
      (r.ret ≡ (if file == 0 then pos 0 else pos 1))
      × Opened h (record d { cursor = file }) r.kernel

  sys_read_dir-Moved :
      (d : DirHandle) (k : Kernel)
      → h ≢ 0
      → d.dir ≢ 0
      → Opened h d k
      → Moved d (sys_read_dir grant is_directory leaf next h k)
  unfolding sys_read_dir
  sys_read_dir-Moved d k nh nd o =
      let z : (h == 0) ≡ false = ground arith in
      let y : (d.dir == 0) ≡ false = ground arith in
      let file = advance grant is_directory leaf next d in
      let f = find_dir-set_cursor h file o.owner.dir_handle_list d o.found in
      elim (Bool-cases (file == 0)) [
        | inl e ↦
            rw (z, o.current, got d k nh o, y, e)
              (refl, record { owner = _; current = refl; found = f })
        | inr e ↦
            rw (z, o.current, got d k nh o, y, e)
              (let p' : Process = record o.owner {
                dir_handle_list = set_cursor h file o.owner.dir_handle_list;
              } in
                give_entry-Opened file (record d { cursor = file }) p'
                  (record k { process = some p' }) (ground arith) f)
      ]

  -- The file that the cursor of the handle stands at, 0 if there is no handle.
  abbrev pub cursor_of : Kernel → ℕ
  cursor_of k = elim (get_dir_from_handle h k.process).1 [ none ↦ 0 | some d ↦ d.cursor ]

  -- The answers of `n` calls one after the other, each with the cursor behind it.
  abbrev pub visits : ℕ → Kernel → List (ℤ × ℕ)
  visits zero k = []
  visits (suc n) k =
      let r = sys_read_dir grant is_directory leaf next h k in
      (r.ret, cursor_of r.kernel) ∷ visits n r.kernel

  -- From the file `f` on, `next` leads through the files of the list to NULL.
  abbrev pub Files : ℕ → List ℕ → Type 0
  Files f [] = f ≡ 0
  Files f (c ∷ cs) = (f ≡ c) × (c ≢ 0) × Files (next c) cs

  abbrev pub visited : List ℕ → List (ℤ × ℕ)
  visited [] = (pos 0, 0) ∷ []
  visited (c ∷ cs) = (pos 1, c) ∷ visited cs

  cursor_of_lem : (d : DirHandle) (k : Kernel) → h ≢ 0 → Opened h d k → cursor_of k ≡ d.cursor
  cursor_of_lem d k nh o = rw (got d k nh o, cursor_of) refl

  visits_from :
      (cs : List ℕ) (d : DirHandle) (k : Kernel)
      → h ≢ 0
      → d.dir ≢ 0
      → Opened h d k
      → Files (advance grant is_directory leaf next d) cs
      → visits (suc (length cs)) k ≡ visited cs
  visits_from [] d k nh nd o e =
      let m = sys_read_dir-Moved d k nh nd o in
      let r = sys_read_dir grant is_directory leaf next h k in
      let c : cursor_of r.kernel ≡ 0 = cursor_of_lem _ r.kernel nh m.1 ∙ e in
      let a : r.ret ≡ pos 0 = m.0 ∙ rw e refl in rw (a, c) refl
  visits_from (c ∷ cs) d k nh nd o fs =
      let m = sys_read_dir-Moved d k nh nd o in
      let r = sys_read_dir grant is_directory leaf next h k in
      let file = advance grant is_directory leaf next d in
      let z : (file == 0) ≡ false = ground arith in
      let cur : cursor_of r.kernel ≡ c = cursor_of_lem _ r.kernel nh m.1 ∙ fs.0 in
      let a : r.ret ≡ pos 1 = m.0 ∙ rw z refl in
      let more : Files (advance grant is_directory leaf next (record d { cursor = file })) cs =
        rw z (subst (λ g. Files (next g) cs) (sym fs.0) fs.2) in
      let rest = visits_from cs (record d { cursor = file }) r.kernel nh nd m.1 more in
      rw (a, cur, rest) refl

  -- When every `kmalloc` succeeds, and the current process has a handle, not 0, for a directory whose
  -- files are `cs`, with the cursor at the start: the first calls of `SysReadDir` with the handle answer
  -- 1 and stand at the files of the directory, each once and in their order, and the call after the
  -- last file answers 0 and puts the cursor back to the start.
  pub sys_read_dir-visited :
      (cs : List ℕ) (d : DirHandle) (k : Kernel)
      → h ≢ 0
      → d.dir ≢ 0
      → d.cursor ≡ 0
      → Opened h d k
      → Files (leaf d.dir) cs
      → visits (suc (length cs)) k ≡ visited cs
  sys_read_dir-visited cs d k nh nd z o fs =
      visits_from cs d k nh nd o (let e : (d.cursor == 0) ≡ true = ground arith in rw e fs)
