-- ===== src/FileCache/Root.antt =====
-- The root directory: InitRootFile of kernel/fs/file.c and InitRoot of kernel/fs/fs_manager.c.
use lt_kernel.Prelude.{ℕ, true, false, none, some, List, [], ◌∷◌, ◌==◌}
use lt_kernel.Prelude.Result.{Result, ok, ◌>>=◌}
use lt_kernel.Status.{KeStatus, status_success, status_alloc_failed}
use lt_kernel.Alloc.{request}
use lt_kernel.FileCache.{
  World, Cache, got, refused, set_file, create_file, browse_and_cache_directory,
}

abbrev pub root_name : List ℕ
root_name = b'/' ∷ []

-- `InitRootFile`, for an address that is not NULL
unfoldable pub init_root_file : World → ℕ → Cache → KeStatus × Cache
init_root_file w a c =
    let r = request w.grant c.heap in
    let f = c.files a in
    elim (r.0 == 0) [
      | true ↦
          (status_alloc_failed, set_file a (record f { name = none }) (record c { heap = r.1 }))
      | false ↦ (
        status_success,
        set_file a (record f { name = some root_name; parent = a }) (record c { heap = r.1 }),
      )
    ]

-- `EXT2_ROOT_INODE_NUMBER`
abbrev pub ext2_root_inode_number : ℕ
ext2_root_inode_number = 2

-- `InitRoot`, for a disk that is there: the status, the root file, and the cache.
unfoldable pub init_root : ℕ → World → Cache → Result (KeStatus × ℕ × Cache)
init_root fuel w c = elim (w.read_inode ext2_root_inode_number) [
  | refused s ↦ ok (s, 0, c)
  | got i ↦
      let f = create_file w i ext2_root_inode_number c in
      elim f.0 [
        | status_success ↦
            let n = init_root_file w f.1 f.2 in
            elim n.0 [
              | status_success ↦ do
                b ← browse_and_cache_directory fuel w f.1 n.1
                ok (b.0, f.1, b.1)
              | s ↦ ok (s, f.1, n.1)
            ]
        | s ↦ ok (s, f.1, f.2)
      ]
]
