-- ===== src/FileCache/Tests.antt =====
-- A directory with two files and itself.
use lt_kernel.Prelude.{
  ℕ, ◌≡◌, refl, true, false, none, some, List, [], ◌∷◌, ◌++◌, ◌==◌, if◌then◌else◌, arith,
}
use lt_kernel.Prelude.Result.{ok}
use lt_kernel.Status.{status_failure}
use lt_kernel.FileCache.{
  World, File, Inode, Cache, refused, DirectoryEntry, read_entry, bytes_at,
  browse_and_cache_directory,
}
use lt_kernel.FileCache.Browse.{Encodes, Browsed, browse_and_cache_directory-Browsed}
use lt_kernel.FileCache.Open.{open_last, open_from}
use lt_kernel.FileCache.Climb.{climbing, open_from-climbs}

abbrev no_file : File
no_file = record {
  inum = 0;
  inode = none;
  name = none;
  content = none;
  opened = false;
  children = [];
  parent = 0;
}

-- `.`, then `sh`, then `ls` with the rest of 48 bytes
abbrev dir_bytes : List ℕ
dir_bytes =
    (2 ∷ 0 ∷ 0 ∷ 0 ∷ 12 ∷ 0 ∷ 1 ∷ 2 ∷ 46 ∷ 0 ∷ 0 ∷ 0 ∷ [])
    ++ ((11 ∷ 0 ∷ 0 ∷ 0 ∷ 12 ∷ 0 ∷ 2 ∷ 1 ∷ 115 ∷ 104 ∷ 0 ∷ 0 ∷ [])
        ++ (12 ∷ 0 ∷ 0 ∷ 0 ∷ 24 ∷ 0 ∷ 2 ∷ 1 ∷ 108 ∷ 115 ∷ []))

abbrev dir_inode : Inode
dir_inode = record { size = 48; mode = 0x41ed }

abbrev directory : File
directory = record no_file {
  inum = 2;
  inode = some dir_inode;
  content = some dir_bytes;
  opened = true;
  parent = 1;
}

abbrev world : World
world = record {
  grant = λ n. true;
  raw = λ a. no_file;
  read_inode = λ n. refused status_failure;
  read_file = λ n. refused status_failure;
}

abbrev one_directory : Cache
one_directory = record {
  files = λ a. if a == 1 then directory else no_file;
  heap = record { requests = 1; live = λ a. a == 1; double_frees = 0 };
}

abbrev entry : ℕ → ℕ → List ℕ → DirectoryEntry
entry inode rec_len name = record { inode = inode; rec_len = rec_len; name = name }

abbrev dir_entries : List DirectoryEntry
dir_entries =
    entry 2 12 (46 ∷ []) ∷ entry 11 12 (115 ∷ 104 ∷ []) ∷ entry 12 24 (108 ∷ 115 ∷ []) ∷ []

dir_bytes-Encodes : Encodes dir_bytes 48 0 dir_entries
unfolding read_entry bytes_at
dir_bytes-Encodes = (
  refl,
  omega arith,
  omega arith,
  (refl, omega arith, omega arith, (refl, omega arith, omega arith, refl)),
)

browse_and_cache_directory-Browsed_example :
    Browsed 1 dir_entries one_directory (browse_and_cache_directory 4 world 1 one_directory)
browse_and_cache_directory-Browsed_example =
    browse_and_cache_directory-Browsed world 4 1 one_directory dir_inode dir_bytes dir_entries
      (λ n. refl) refl refl refl refl (omega arith) dir_bytes-Encodes
      (record { self = omega arith; children = tt }) (omega arith)

open_from-climbs_example :
    open_from 3 4 world (climbing (true ∷ false ∷ []) (115 ∷ 104 ∷ [])) 1 one_directory
    ≡ ok (open_last world 1 (115 ∷ 104 ∷ []) one_directory)
open_from-climbs_example =
    open_from-climbs (true ∷ false ∷ []) 3 4 world 115 (104 ∷ []) 1 one_directory
      ((λ e. absurd (omega arith)), ((λ e. absurd (omega arith)), tt)) (omega arith)
