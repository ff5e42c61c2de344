-- ===== src/Elf/Program.antt =====
-- A program is loaded: the segments of its file, one after the other.
use lt_kernel.Prelude.{ℕ, ◌+◌, ◌*◌, ◌%◌, ◌≤◌, ◌≡◌, true, false, List, [], ◌∷◌, ◌++◌, ◌==◌, length}
use lt_kernel.Prelude.Result.{Result, ok, ◌>>=◌}
use lt_kernel.Status.{KeStatus, status_success, failed}
use lt_kernel.Frames.{Bitmap, page_size}
use lt_kernel.Elf.{
  CodePage, ElfHeader, ProgramHeader, Loaded, loaded, program_header, load_pages, load_segments,
}
use lt_kernel.Elf.Segment.{page_count, IsCover}

-- A segment in the part of a program, from the start of a page on, of at most `fuel` pages, that the
-- file holds with as many bytes as it has in memory.
abbrev pub IsLoadable : ℕ → List ℕ → ProgramHeader → Type 0
IsLoadable fuel file h =
    (0x40000000 ≤ h.vaddr)
    × (h.vaddr % 4096 ≡ 0)
    × (h.vaddr + h.mem_size ≤ 0xFFFFF000)
    × (h.offset + h.mem_size ≤ length file)
    × (h.mem_size ≤ page_size * fuel)

-- The pages of all segments.
abbrev pub total_pages : List ProgramHeader → ℕ
total_pages [] = 0
total_pages (h ∷ hs) = page_count h.mem_size + total_pages hs

-- The program headers of the file from `i` on.
abbrev pub AreSegments : ℕ → List ℕ → ℕ → List ProgramHeader → Type 0
AreSegments fuel file i [] = Unit
AreSegments fuel file i (h ∷ hs) =
    (program_header file i ≡ ok h) × IsLoadable fuel file h × AreSegments fuel file (i + 32) hs

-- The pages are those of the segments in order, with the frames that are taken one after the other.
abbrev pub AreCovers : List ℕ → List ProgramHeader → Bitmap → List CodePage → Bitmap → Type 0
AreCovers file [] bm code last = (code ≡ []) × (bm ≡ last)
AreCovers file (h ∷ hs) bm code last =
    (ps : List CodePage) × (rest : List CodePage) × (next : Bitmap) × (code ≡ ps ++ rest)
    × IsCover file h.vaddr h.offset h.mem_size bm ps next
    × AreCovers file hs next rest last

pub record IsProgram (file : List ℕ) (hs : List ProgramHeader) (bm : Bitmap) (r : Result Loaded)
    : Type 0 where
  pub out : Loaded
  pub runs : r ≡ ok out
  pub status : out.status ≡ status_success
  pub covers : AreCovers file hs bm out.code out.bitmap

-- The loop behind the read of a header, and behind its pages.
abbrev joined : Loaded → Loaded → Result Loaded
joined l m = ok (record m { code = l.code ++ m.code })

abbrev behind_pages : ℕ → List ℕ → ℕ → ℕ → Loaded → Result Loaded
behind_pages fuel file i left l = elim (failed l.status) [
  | true ↦ ok l
  | false ↦ load_segments fuel file (i + 32) left l.bitmap >>= joined l
]

abbrev behind_header : ℕ → List ℕ → ℕ → ℕ → Bitmap → ProgramHeader → Result Loaded
behind_header fuel file i left bm h = elim (h.vaddr == 0) [
  | true ↦ ok (loaded status_success bm)
  | false ↦ load_pages file fuel h.vaddr h.offset h.mem_size 0 bm >>= behind_pages fuel file i left
]

abbrev behind_elf : ℕ → (ℕ → KeStatus) → List ℕ → Bitmap → ElfHeader → Result Loaded
behind_elf fuel create file bm h = elim (failed (create h.entry)) [
  | true ↦ ok (loaded (create h.entry) bm)
  | false ↦ load_segments fuel file h.phoff h.phnum bm
]
