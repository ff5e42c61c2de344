-- ===== src/Ata/Tests.antt =====
-- A read across two sectors, and a write.
use lt_kernel.Prelude.{ℕ, ◌%◌, refl, true, false, some, List, arith, replicate}
use lt_kernel.Alloc.{Alloc}
use lt_kernel.Ata.{ata_read, ata_write}
use lt_kernel.Ata.Read.{Transferred, ata_read-Transferred}
use lt_kernel.Ata.Sectors.{Written, ata_write-Written}

abbrev striped : ℕ → List ℕ
striped lba = replicate 512 (lba % 256)

abbrev no_memory : Alloc
no_memory = record { requests = 0; live = λ x. false; double_frees = 0 }

ata_read-Transferred_example :
    Transferred striped
      (λ lba. refl)
      500
      40
      no_memory
      (ata_read (λ n. true) (λ lba. some (striped lba)) 500 40 no_memory)
ata_read-Transferred_example =
    ata_read-Transferred striped (λ lba. refl) (λ n. true) 500 40 no_memory (omega arith) refl refl

-- Two sectors of a buffer of 1100 bytes: the last 76 bytes are not written.
ata_write-Written_example : Written 1024 1100 (ata_write 1024 1100)
ata_write-Written_example = ata_write-Written 1024 1100 refl (omega arith)
