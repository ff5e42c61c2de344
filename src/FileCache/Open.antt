-- ===== src/FileCache/Open.antt =====
-- The walk along a path: OpenFileFromName of kernel/fs/file.c. The `/` that the code overwrites with 0
-- and restores is only split at.
use lt_kernel.Prelude.{
  ℕ, zero, suc, ◌+◌, true, false, Option, none, some, List, [], ◌∷◌, ◌==◌, if◌then◌else◌, length,
}
use lt_kernel.Prelude.Result.{Result, ok, stuck, ◌>>=◌}
use lt_kernel.Status.{KeStatus, status_success, status_file_not_found}
use lt_kernel.FileCache.{
  World, Cache, same_name, dot, dot_dot, is_cached, open_file, browse_and_cache_directory,
}

-- The status, what `*file` is set to, if anything, and the cache.
pub record Opened : Type 0 where
  pub status : KeStatus
  pub file : Option ℕ
  pub cache : Cache

-- `path[FirstIndexOf(path, '/')] = '\0'`: what stands before and behind the first `/`.
unfoldable pub split_path : List ℕ → Option (List ℕ × List ℕ)
split_path [] = none
split_path (b ∷ bs) = elim (b == b'/') [
  | true ↦ some ([], bs)
  | false ↦ elim (split_path bs) [ none ↦ none | some (name, rest) ↦ some (b ∷ name, rest) ]
]

-- `IsCached`, which answers FALSE for a NULL directory
abbrev pub cached_in : ℕ → List ℕ → Cache → Option ℕ
cached_in dir name c = if dir == 0 then none else is_cached dir name c

-- `if (file->opened == FALSE) OpenFile(file)`
abbrev pub open_closed : World → ℕ → Cache → KeStatus × Cache
open_closed w a c = if (c.files a).opened then (status_success, c) else open_file w a c

-- The last name of a path.
unfoldable pub open_last : World → ℕ → List ℕ → Cache → Opened
open_last w dir name c = elim (cached_in dir name c) [
  | none ↦ record { status = status_file_not_found; file = none; cache = c }
  | some a ↦
      let r = open_closed w a c in
      elim r.0 [
        | status_success ↦ record { status = status_success; file = some a; cache = r.1 }
        | s ↦ record { status = s; file = none; cache = r.1 }
      ]
]

-- `while (*path != '\0')`, for `fuel` names, where `browse_fuel` serves each directory. The status of
-- BrowseAndCacheDirectory is not read.
unfoldable pub open_from : ℕ → ℕ → World → List ℕ → ℕ → Cache → Result Opened
open_from zero browse_fuel w path dir c = stuck
open_from (suc fuel) browse_fuel w [] dir c =
    ok record { status = status_success; file = none; cache = c }
open_from (suc fuel) browse_fuel w (b ∷ bs) dir c = elim (split_path (b ∷ bs)) [
  | none ↦ ok (open_last w dir (b ∷ bs) c)
  | some (name, rest) ↦ elim (same_name name dot_dot) [
    | true ↦ open_from fuel browse_fuel w rest (c.files dir).parent c
    | false ↦ elim (same_name name dot) [
      | true ↦ open_from fuel browse_fuel w rest dir c
      | false ↦ elim (cached_in dir name c) [
        | none ↦ ok record { status = status_file_not_found; file = none; cache = c }
        | some d ↦
            let r = open_closed w d c in
            elim r.0 [
              | status_success ↦ do
                b ← browse_and_cache_directory browse_fuel w d r.1
                open_from fuel browse_fuel w rest d b.1
              | s ↦ ok record { status = s; file = none; cache = r.1 }
            ]
      ]
    ]
  ]
]

-- `OpenFileFromName`, for the root `root`; `current` is the directory of the process that runs for a
-- thread of a program, and the root for one of the kernel.
unfoldable pub open_file_from_name : ℕ → World → ℕ → ℕ → List ℕ → Cache → Result Opened
open_file_from_name browse_fuel w root current [] c = open_from 1 browse_fuel w [] current c
open_file_from_name browse_fuel w root current (b ∷ bs) c = elim (b == b'/') [
  | true ↦
      if length bs == 0
      then ok record { status = status_success; file = some root; cache = c }
      else open_from (length bs + 1) browse_fuel w bs root c
  | false ↦ open_from (length bs + 2) browse_fuel w (b ∷ bs) current c
]
