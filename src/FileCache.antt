-- ===== src/FileCache.antt =====
-- The files that are kept in memory: kernel/fs/file.c and InitRoot of kernel/fs/fs_manager.c. A file
-- is a record at an address; the chain of `leaf` and `next` is the list of its children. What the ext2
-- code answers, what kmalloc grants and what the memory that it grants holds are parameters.
pub mod Names
pub mod Browse
pub mod Open
pub mod Climb
pub mod Root
mod Tests
use lt_kernel.Prelude.{
  ℕ, zero, suc, ◌+◌, ◌-◌, ◌*◌, ◌/◌, ◌%◌, ◌^◌, ◌<◌, Bool, true, false, not, ◌&&◌, ◌||◌, Option, none,
  some, List, [], ◌∷◌, ◌++◌, ◌==◌, if◌then◌else◌, ltb, get_elem?,
}
use lt_kernel.Prelude.Words.{u32}
use lt_kernel.Prelude.Result.{Result, ok, fault, stuck, ◌>>=◌}
use lt_kernel.Status.{
  KeStatus, status_success, status_failure, status_alloc_failed, status_not_a_directory,
  status_file_not_found, status_null_parameter,
}
use lt_kernel.Alloc.{Alloc, request, give_back}

-- The fields of an inode that are used here.
pub record Inode : Type 0 where
  pub size : ℕ
  pub mode : ℕ

pub record File : Type 0 where
  pub inum : ℕ
  pub inode : Option Inode
  pub name : Option (List ℕ)
  pub content : Option (List ℕ)
  pub opened : Bool
  pub children : List ℕ
  pub parent : ℕ

-- What Ext2ReadInode or Ext2ReadFile answers: what was read, or the status of the failure.
pub data Answer {ℓ} (A : Type ℓ) : Type ℓ where
  got : A → Answer A
  refused : KeStatus → Answer A

pub record World : Type 0 where
  pub grant : ℕ → Bool
  pub raw : ℕ → File
  pub read_inode : ℕ → Answer Inode
  pub read_file : ℕ → Answer (List ℕ)

pub record Cache : Type 0 where
  pub files : ℕ → File
  pub heap : Alloc

abbrev pub set_file : ℕ → File → Cache → Cache
set_file a f c = record c { files = λ x. if x == a then f else c.files x }

-- The string that starts a list of bytes: up to the first 0.
abbrev pub c_string : List ℕ → List ℕ
c_string [] = []
c_string (b ∷ bs) = elim (b == 0) [ true ↦ [] | false ↦ b ∷ c_string bs ]

unfoldable pub eq_bytes : List ℕ → List ℕ → Bool
eq_bytes [] [] = true
eq_bytes (x ∷ xs) (y ∷ ys) = (x == y) && eq_bytes xs ys
eq_bytes _ _ = false

-- `StrCmp(a, b) == 0`: it holds as soon as one of the strings is empty.
unfoldable pub same_name : List ℕ → List ℕ → Bool
unfolding eq_bytes
same_name [] b = true
same_name (x ∷ a) [] = true
same_name (x ∷ a) (y ∷ b) = eq_bytes (x ∷ a) (y ∷ b)

abbrev pub dot : List ℕ
dot = b'.' ∷ []

abbrev pub dot_dot : List ℕ
dot_dot = b'.' ∷ b'.' ∷ []

-- The loop of `IsCached`: the first child with a name that compares equal; NULL names are passed over.
unfoldable pub find_child : (ℕ → File) → List ℕ → List ℕ → Option ℕ
find_child files name [] = none
find_child files name (a ∷ rest) = elim (files a).name [
  | none ↦ find_child files name rest
  | some n ↦ if same_name n name then some a else find_child files name rest
]

unfoldable pub is_cached : ℕ → List ℕ → Cache → Option ℕ
is_cached dir name c = find_child c.files name (c.files dir).children

-- `OpenFile`, for an address that is not NULL
unfoldable pub open_file : World → ℕ → Cache → KeStatus × Cache
open_file w a c =
    let f = c.files a in
    let with_inode : Answer Inode = elim f.inode [ some i ↦ got i | none ↦ w.read_inode f.inum ] in
    elim with_inode [
      | refused s ↦ (s, c)
      | got i ↦ elim (w.read_file f.inum) [
        | refused s ↦ (s, set_file a (record f { inode = some i }) c)
        | got bytes ↦ (
          status_success,
          set_file a (record f { inode = some i; content = some bytes; opened = true }) c,
        )
      ]
    ]

-- `CreateFile`, for a disk and an inode that are not NULL; the field `leaf` is not set.
unfoldable pub create_file : World → Inode → ℕ → Cache → KeStatus × ℕ × Cache
create_file w inode inum c =
    let r = request w.grant c.heap in
    elim (r.0 == 0) [
      | true ↦ (status_alloc_failed, 0, record c { heap = r.1 })
      | false ↦ (
        status_success,
        r.0,
        set_file r.0
            (record (w.raw r.0) {
              content = none;
              inode = some inode;
              inum = inum;
              name = none;
              opened = false;
              parent = 0;
            })
            (record c { heap = r.1 }),
      )
    ]

abbrev pub byte_at : List ℕ → ℕ → Result ℕ
byte_at bytes i = elim (get_elem? bytes i) [ none ↦ fault | some b ↦ ok b ]

unfoldable pub bytes_at : List ℕ → ℕ → ℕ → Result (List ℕ)
bytes_at bytes i zero = ok []
bytes_at bytes i (suc n) = do b ← byte_at bytes i; bs ← bytes_at bytes (i + 1) n; ok (b ∷ bs)

-- `Ext2DirectoryEntry`: what the loop of BrowseAndCacheDirectory reads of an entry.
pub record DirectoryEntry : Type 0 where
  pub inode : ℕ
  pub rec_len : ℕ
  pub name : List ℕ

unfoldable pub read_entry : List ℕ → ℕ → Result DirectoryEntry
read_entry bytes i = do
  i0 ← byte_at bytes i
  i1 ← byte_at bytes (i + 1)
  i2 ← byte_at bytes (i + 2)
  i3 ← byte_at bytes (i + 3)
  r0 ← byte_at bytes (i + 4)
  r1 ← byte_at bytes (i + 5)
  n ← byte_at bytes (i + 6)
  name ← bytes_at bytes (i + 8) n
  ok record {
    inode = i0 + i1 * 0x100 + i2 * 0x10000 + i3 * 0x1000000;
    rec_len = r0 + r1 * 0x100;
    name = name;
  }

-- The part of the loop that allocates a file and puts it before the children of the directory; `false`
-- if kmalloc failed. The field `opened` of the new file is not set.
unfoldable pub add_file : World → ℕ → ℕ → List ℕ → Cache → Bool × Cache
add_file w dir inum name c =
    let q = request w.grant c.heap in
    let new : File = record (w.raw q.0) {
      content = none;
      inode = none;
      inum = inum;
      children = [];
      name = some name;
      parent = dir;
    } in
    let d = c.files dir in
    elim (q.0 == 0) [
      | true ↦ (false, record c { heap = q.1 })
      | false ↦ (
        true,
        set_file dir (record d { children = q.0 ∷ d.children })
            (set_file q.0 new (record c { heap = q.1 })),
      )
    ]

-- The body of the loop for one entry; `false` if it leaves the function because kmalloc failed.
unfoldable pub cache_entry : World → ℕ → DirectoryEntry → Cache → Bool × Cache
cache_entry w dir e c =
    let r = request w.grant c.heap in
    let dropped : Cache = record c { heap = give_back r.0 r.1 } in
    let name = c_string e.name in
    elim (r.0 == 0) [
      | true ↦ (false, record c { heap = r.1 })
      | false ↦ elim (same_name name dot || same_name name dot_dot) [
        | true ↦ (true, dropped)
        | false ↦ elim (is_cached dir name (record c { heap = r.1 })) [
          | some a ↦ (true, dropped)
          | none ↦ add_file w dir e.inode name (record c { heap = r.1 })
        ]
      ]
    ]

-- `while (dirContentSize > 0 && currentEntry->recLen > 0)`; the size is unsigned. `false` if an
-- allocation failed.
unfoldable pub browse_loop : ℕ → World → ℕ → List ℕ → ℕ → ℕ → Cache → Result (Bool × Cache)
browse_loop zero w dir bytes size i c = stuck
browse_loop (suc fuel) w dir bytes size i c = elim (size == 0) [
  | true ↦ ok (true, c)
  | false ↦ do
    e ← read_entry bytes i
    elim (e.rec_len == 0) [
      | true ↦ ok (true, c)
      | false ↦
          let r = cache_entry w dir e c in
          elim r.0 [
            | false ↦ ok (false, r.1)
            | true ↦
                browse_loop fuel w dir bytes (u32 (size + 2 ^ 32 - e.rec_len)) (i + e.rec_len) r.1
          ]
    ]
]

-- `IsDirectory` of a file whose inode is there: `mode & EXT2_S_IFDIR`
abbrev pub is_directory : Inode → Bool
is_directory i = not (i.mode / 0x4000 % 2 == 0)

-- `BrowseAndCacheDirectory` behind the part that reads the inode and opens the directory, with the
-- status of that part, which is also the one of a failed allocation.
unfoldable pub browse_opened : ℕ → World → KeStatus → ℕ → Cache → Result (KeStatus × Cache)
browse_opened fuel w status dir c = elim (c.files dir).inode [
  | none ↦ fault
  | some i ↦ elim (is_directory i) [
    | false ↦ ok (status_not_a_directory, c)
    | true ↦ elim (c.files dir).content [
      | none ↦ fault
      | some bytes ↦ do
        r ← browse_loop fuel w dir bytes i.size 0 c
        ok (if r.0 then status_success else status, r.1)
    ]
  ]
]

unfoldable pub browse_and_cache_directory : ℕ → World → ℕ → Cache → Result (KeStatus × Cache)
browse_and_cache_directory fuel w dir c =
    let f = c.files dir in
    let with_inode : Answer (KeStatus × Cache) = elim f.inode [
      | some i ↦ got (status_failure, c)
      | none ↦ elim (w.read_inode f.inum) [
        | refused s ↦ refused s
        | got i ↦ got (status_success, set_file dir (record f { inode = some i }) c)
      ]
    ] in
    elim with_inode [
      | refused s ↦ ok (s, c)
      | got (status, c1) ↦ elim f.opened [
        | true ↦ browse_opened fuel w status dir c1
        | false ↦
            let r = open_file w dir c1 in
            elim r.0 [
              | status_success ↦ browse_opened fuel w status_success dir r.1
              | s ↦ ok (s, r.1)
            ]
      ]
    ]
