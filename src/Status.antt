-- ===== src/Status.antt =====
-- kernel/lib/status.h: the status that the functions of the kernel return.
use lt_kernel.Prelude.{Bool, true, false}

pub data KeStatus : Type 0 where
  status_success : KeStatus
  status_failure : KeStatus
  status_unexpected : KeStatus
  status_invalid_parameter : KeStatus
  status_null_parameter : KeStatus
  status_alloc_failed : KeStatus
  status_process_not_found : KeStatus
  status_not_elf_file : KeStatus
  status_invalid_virtual_user_address : KeStatus
  status_physical_memory_full : KeStatus
  status_not_a_directory : KeStatus
  status_not_a_file : KeStatus
  status_file_not_found : KeStatus
  status_handle_not_found : KeStatus

-- `FAILED(status)`
abbrev pub failed : KeStatus → Bool
failed status_success = false
failed _ = true
