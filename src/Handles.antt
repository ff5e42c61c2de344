-- ===== src/Handles.antt =====
-- The handles of kernel/lib/handle.c and the directory calls of kernel/user/syscalls.c. A list of
-- handles is the data of its nodes, `none` for the NULL of a new list. Files are addresses; what their
-- fields hold, `kmalloc`'s answers and the result of `OpenFileFromName` are parameters.
pub mod Lookup
pub mod Open
pub mod ReadDir
mod Tests
use lt_kernel.Prelude.{
  ℕ, zero, suc, ◌+◌, ◌<◌, Bool, true, false, not, Option, none, some, List, [], ◌∷◌, ◌++◌, ◌==◌,
  if◌then◌else◌,
}
use lt_kernel.Prelude.Words.{u32}
use lt_kernel.Prelude.Int.{ℤ, pos, negsuc}
use lt_kernel.Status.{
  KeStatus, status_success, status_unexpected, status_null_parameter, status_alloc_failed,
  status_process_not_found, status_not_a_directory, status_not_a_file, status_handle_not_found,
  failed,
}

pub record DirHandle : Type 0 where
  pub handle : ℕ
  pub dir : ℕ
  pub cursor : ℕ

pub record FileHandle : Type 0 where
  pub handle : ℕ
  pub file : ℕ
  pub cursor : ℕ

-- the fields of `Process` that the calls use
pub record Process : Type 0 where
  pub current_directory : ℕ
  pub dir_handle_list : List (Option DirHandle)
  pub file_handle_list : List (Option ℕ)

-- The number of requests to `kmalloc` so far, `s_HandleCount`, and `gCurrentProcess`.
pub record Kernel : Type 0 where
  pub requests : ℕ
  pub handle_count : ℕ
  pub process : Option Process

-- `s_HandleCount++`: the counter is declared as a pointer to an `int`.
abbrev pub next_handle : ℕ → ℕ
next_handle count = u32 (count + 4)

-- The loop of `GetDirFromHandle`.
unfoldable pub find_dir : ℕ → List (Option DirHandle) → KeStatus × Option DirHandle
find_dir handle [] = (status_handle_not_found, none)
find_dir handle (none ∷ list) = (status_unexpected, none)
find_dir handle (some d ∷ list) =
    if d.handle == handle then (status_success, some d) else find_dir handle list

unfoldable pub get_dir_from_handle : ℕ → Option Process → KeStatus × Option DirHandle
get_dir_from_handle handle none = (status_null_parameter, none)
get_dir_from_handle handle (some process) =
    if handle == 0 then (status_null_parameter, none) else find_dir handle process.dir_handle_list

-- A write through the pointer that `GetDirFromHandle` gives.
unfoldable pub set_cursor : ℕ → ℕ → List (Option DirHandle) → List (Option DirHandle)
set_cursor handle file [] = []
set_cursor handle file (none ∷ list) = none ∷ list
set_cursor handle file (some d ∷ list) =
    if d.handle == handle
    then some (record d { cursor = file }) ∷ list
    else some d ∷ set_cursor handle file list

-- `ListPush`, with `kmalloc`'s answer for a new node; `[]` is the list NULL.
unfoldable pub push {ℓ} : {A : Type ℓ} → Bool → A → List (Option A) → List (Option A)
push granted x [] = []
push granted x (none ∷ list) = some x ∷ list
push granted x (some y ∷ list) = some y ∷ (if granted then list ++ some x ∷ [] else list)

-- The status, `*ret`, the value written through the handle parameter or the entry, and the kernel.
pub record Answer : Type 0 where
  pub status : KeStatus
  pub ret : ℤ
  pub written : Option (ℕ × Bool)
  pub kernel : Kernel

module _ (grant : ℕ → Bool) (is_directory : ℕ → Bool) (leaf : ℕ → ℕ) (next : ℕ → ℕ) where
  -- A request to `kmalloc`.
  abbrev pub ask : Kernel → Bool × Kernel
  ask k = (grant k.requests, record k { requests = suc k.requests })

  unfoldable pub create_dir_handle : ℕ → Kernel → KeStatus × Option DirHandle × Kernel
  create_dir_handle dir k =
      let a = ask k in
      if dir == 0
      then (status_null_parameter, none, k)
      else if not (is_directory dir)
      then (status_not_a_directory, none, k)
      else if not a.0
      then (status_alloc_failed, none, a.1)
      else (
        status_success,
        some record { handle = k.handle_count; dir = dir; cursor = 0 },
        record a.1 { handle_count = next_handle k.handle_count },
      )

  unfoldable pub create_file_handle : ℕ → Kernel → KeStatus × Option FileHandle × Kernel
  create_file_handle file k =
      let a = ask k in
      if file == 0
      then (status_null_parameter, none, k)
      else if is_directory file
      then (status_not_a_file, none, k)
      else if not a.0
      then (status_alloc_failed, none, a.1)
      else (
        status_success,
        some record { handle = k.handle_count; file = file; cursor = 0 },
        record a.1 { handle_count = next_handle k.handle_count },
      )

  -- `ListPush(process->dirHandleList, dirHandle)`
  unfoldable pub push_dir : DirHandle → Process → Kernel → Kernel
  push_dir d p k =
      let a = ask k in
      record a.1 { process = some record p { dir_handle_list = push a.0 d p.dir_handle_list } }

  -- `ListPush(process->fileHandleList, fileHandle->handle)`: the handle's number and not the handle.
  unfoldable pub push_file : FileHandle → Process → Kernel → Kernel
  push_file f p k =
      let a = ask k in
      record a.1 {
        process = some record p { file_handle_list = push a.0 f.handle p.file_handle_list };
      }

  abbrev pub answer : KeStatus → ℤ → Option (ℕ × Bool) → Kernel → Answer
  answer status ret written k = record { status = status; ret = ret; written = written; kernel = k }

  -- The call with `*ret` 0 at the start and no NULL parameter. `found` is the result of
  -- `OpenFileFromName`. A process that is not there is noticed after the handle was made.
  unfoldable pub sys_open_dir : KeStatus × ℕ → Kernel → Answer
  sys_open_dir found k =
      let c = create_dir_handle found.1 k in
      if failed found.0
      then answer status_success (negsuc 0) none k
      else if not (is_directory found.1)
      then answer found.0 (negsuc 1) none k
      else elim c.1 [
        | none ↦ answer c.0 (negsuc 2) none c.2
        | some d ↦ elim c.2.process [
          | none ↦ answer status_process_not_found (negsuc 2) none c.2
          | some p ↦ answer status_success (pos 0) (some (d.handle, true)) (push_dir d p c.2)
        ]
      ]

  -- The cursor after the step to the next entry.
  abbrev pub advance : DirHandle → ℕ
  advance d = if d.cursor == 0 then leaf d.dir else next d.cursor

  -- The entry at the cursor: a handle for it is made and written to `dirEntry`.
  unfoldable pub give_entry : ℕ → Process → Kernel → Answer
  give_entry file p k =
      if is_directory file
      then (let c = create_dir_handle file k in
          elim c.1 [
            | none ↦ answer c.0 (negsuc 2) none c.2
            | some d ↦ answer status_success (pos 1) (some (d.handle, true)) (push_dir d p c.2)
          ])
      else (let c = create_file_handle file k in
          elim c.1 [
            | none ↦ answer c.0 (negsuc 2) none c.2
            | some f ↦ answer status_success (pos 1) (some (f.handle, false)) (push_file f p c.2)
          ])

  -- The call with no NULL parameter; the name that is copied to `dirEntry` is that of the cursor.
  unfoldable pub sys_read_dir : ℕ → Kernel → Answer
  sys_read_dir handle k =
      if handle == 0 then answer status_null_parameter (pos 0) none k else elim k.process [
        | none ↦ answer status_process_not_found (negsuc 2) none k
        | some p ↦
            let g = get_dir_from_handle handle k.process in
            elim g.1 [
              | none ↦ answer g.0 (negsuc 3) none k
              | some d ↦
                  let p' : Process = record p {
                    dir_handle_list = set_cursor handle (advance d) p.dir_handle_list;
                  } in
                  let k' : Kernel = record k { process = some p' } in
                  if d.dir == 0
                  then answer status_unexpected (pos 0) none k
                  else if advance d == 0
                  then answer status_success (pos 0) none k'
                  else give_entry (advance d) p' k'
            ]
      ]

  unfoldable pub sys_get_proc_dir : Kernel → Answer
  sys_get_proc_dir k = elim k.process [
    | none ↦ answer status_process_not_found (negsuc 2) none k
    | some p ↦
        let c = create_dir_handle p.current_directory k in
        elim c.1 [
          | none ↦ answer c.0 (negsuc 2) none c.2
          | some d ↦ answer status_success (pos 1) (some (d.handle, true)) (push_dir d p c.2)
        ]
  ]

  -- `BrowseAndCacheDirectory` fills the cache of the files and changes nothing that is modelled here.
  unfoldable pub sys_set_proc_dir : ℕ → Kernel → Answer
  sys_set_proc_dir handle k =
      if handle == 0 then answer status_null_parameter (pos 0) none k else elim k.process [
        | none ↦ answer status_process_not_found (negsuc 2) none k
        | some p ↦
            let g = get_dir_from_handle handle k.process in
            elim g.1 [
              | none ↦ answer g.0 (negsuc 3) none k
              | some d ↦
                  answer status_success (pos 1) none
                    (record k { process = some record p { current_directory = d.dir } })
            ]
      ]
