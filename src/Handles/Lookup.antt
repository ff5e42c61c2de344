-- ===== src/Handles/Lookup.antt =====
-- `GetDirFromHandle` on a list of handles after a push and after a write of a cursor.
use lt_kernel.Prelude.{
  ℕ, ◌≡◌, Bool, true, false, Option, none, some, List, [], ◌∷◌, ◌++◌, ◌==◌, arith, ap, Bool-cases,
  inl, inr,
}
use lt_kernel.Status.{status_success}
use lt_kernel.Handles.{DirHandle, find_dir, set_cursor, push}

-- The handle is in the list, and stands for `d`.
abbrev pub Found : ℕ → List (Option DirHandle) → DirHandle → Type 0
Found h list d = find_dir h list ≡ (status_success, some d)

abbrev moved : ℕ → Option DirHandle → Option DirHandle
moved file none = none
moved file (some d) = some (record d { cursor = file })

-- A write of the cursor of a handle is seen by the next lookup of the handle.
pub find_dir-set_cursor :
    (h file : ℕ) (list : List (Option DirHandle)) (d : DirHandle)
    → Found h list d
    → Found h (set_cursor h file list) (record d { cursor = file })
unfolding find_dir set_cursor
find_dir-set_cursor h file [] d f = absurd (ground arith)
find_dir-set_cursor h file (none ∷ list) d f = absurd (ground arith)
find_dir-set_cursor h file (some e ∷ list) d f = elim (Bool-cases (e.handle == h)) [
  | inl q ↦ rw (q, q) (ap (λ t. (t.0, moved file t.1)) (rw q at f))
  | inr q ↦ rw (q, q) (find_dir-set_cursor h file list d (rw q at f))
]

Found-append :
    (h : ℕ) (list more : List (Option DirHandle)) (d : DirHandle)
    → Found h list d
    → Found h (list ++ more) d
unfolding find_dir
Found-append h [] more d f = absurd (ground arith)
Found-append h (none ∷ list) more d f = absurd (ground arith)
Found-append h (some e ∷ list) more d f = elim (Bool-cases (e.handle == h)) [
  | inl q ↦ rw q (rw q at f)
  | inr q ↦ rw q (Found-append h list more d (rw q at f))
]

-- A push keeps the handles that are in the list.
pub find_dir-push :
    (h : ℕ) (granted : Bool) (x : DirHandle) (list : List (Option DirHandle)) (d : DirHandle)
    → Found h list d
    → Found h (push granted x list) d
unfolding find_dir push
find_dir-push h granted x [] d f = absurd (ground arith)
find_dir-push h granted x (none ∷ list) d f = absurd (ground arith)
find_dir-push h true x (some e ∷ list) d f = Found-append h (some e ∷ list) (some x ∷ []) d f
find_dir-push h false x (some e ∷ list) d f = f
