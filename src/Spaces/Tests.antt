-- ===== src/Spaces/Tests.antt =====
-- A thread of a process with a table for its stack.
use lt_kernel.Prelude.{refl, [], ◌==◌, if◌then◌else◌, arith}
use lt_kernel.Paging.{Machine}
use lt_kernel.Paging.Mapping.{IsSpace}
use lt_kernel.PageHeap.{Page}
use lt_kernel.Spaces.{PageDirectory, Spaces, thread_prepare}
use lt_kernel.Spaces.Prepare.{in_space, Prepared, thread_prepare-Prepared}

-- The entry 896 of the directory at 0x30000 is for addresses from 0xE0000000 on.
abbrev process_space : Machine
process_space = record {
  ram = λ q. if q == 0x30e00 then 0x50007 else if q == 0x30ffc then 0x30003 else 0;
  cr3 = 0x10000;
}

abbrev process_directory : PageDirectory
process_directory = record { pd_entry = 0x30000; page_table_list = [] }

abbrev stack_page : Page
stack_page = record { p_addr = 0x77000; v_addr = 0xE0000000 }

abbrev in_kernel : Spaces
in_kernel = record {
  pages = record { blocks = []; bitmap = []; machine = process_space };
  saved = 0;
}

process_space-IsSpace : IsSpace (in_space 0x30000 process_space)
process_space-IsSpace = record {
  mapped = record { aligned = refl; self = refl; here = refl };
  separate = λ d e hd he pd pe q. ground arith;
}

thread_prepare-Prepared_example :
    Prepared process_directory stack_page in_kernel
      (thread_prepare process_directory stack_page in_kernel)
thread_prepare-Prepared_example =
    thread_prepare-Prepared process_directory stack_page in_kernel (λ e. absurd (omega arith))
      process_space-IsSpace (omega arith) refl
