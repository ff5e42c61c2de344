-- ===== src/Elf/Tests.antt =====
-- A program of one segment of 5 bytes at 0x40000000.
use lt_kernel.Prelude.{ℕ, List, [], ◌∷◌, ◌++◌, replicate}
use lt_kernel.Elf.{ElfHeader, ProgramHeader}

-- The entry, then the program header behind the header of 52 bytes.
abbrev program : List ℕ
program =
    (0x7f ∷ b'E' ∷ b'L' ∷ b'F' ∷ [])
    ++ (replicate 20 0
        ++ ((0 ∷ 0 ∷ 0 ∷ 0x40 ∷ 52 ∷ 0 ∷ 0 ∷ 0 ∷ [])
            ++ (replicate 12 0
                ++ ((1 ∷ 0 ∷ [])
                    ++ (replicate 6 0
                        ++ ((1 ∷ 0 ∷ 0 ∷ 0 ∷ 84 ∷ 0 ∷ 0 ∷ 0 ∷ 0 ∷ 0 ∷ 0 ∷ 0x40 ∷ [])
                            ++ (replicate 8 0
                                ++ ((5 ∷ 0 ∷ 0 ∷ 0 ∷ [])
                                    ++ (replicate 8 0
                                        ++ (0x90 ∷ 0x90 ∷ 0x90 ∷ 0xeb ∷ 0xfe ∷ []))))))))))

abbrev header : ElfHeader
header = record { entry = 0x40000000; phoff = 52; phnum = 1 }

abbrev segments : List ProgramHeader
segments = record { offset = 84; vaddr = 0x40000000; mem_size = 5 } ∷ []
