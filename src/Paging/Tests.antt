-- ===== src/Paging/Tests.antt =====
-- A directory with one table.
use lt_kernel.Prelude.{◌≡◌, refl, ◌==◌, if◌then◌else◌, arith}
use lt_kernel.Prelude.Result.{ok}
use lt_kernel.Paging.{Machine, walk, get_physical_address, add_page_to_kernel_page_directory}
use lt_kernel.Paging.Walk.{IsSelfMapped, address_of, get_physical_address-walk}
use lt_kernel.Paging.Mapping.{IsSpace, Mapped, add_page_to_kernel-Mapped}

abbrev small_space : Machine
small_space = record {
  ram = λ q. if q == 0x10000 then 0x20003 else if q == 0x10ffc then 0x10003 else 0;
  cr3 = 0x10000;
}

small_space-IsSelfMapped : IsSelfMapped small_space
small_space-IsSelfMapped = record { aligned = refl; self = refl; here = refl }

small_space-IsSpace : IsSpace small_space
small_space-IsSpace = record {
  mapped = small_space-IsSelfMapped;
  separate = λ d e hd he pd pe q. ground arith;
}

get_physical_address-walk_example :
    get_physical_address 0x3042 small_space ≡ ok (address_of (walk small_space 0x3042))
get_physical_address-walk_example =
    get_physical_address-walk small_space 0x3042 small_space-IsSelfMapped (omega arith)

add_page_to_kernel-Mapped_example :
    Mapped small_space 0x3042 0x55000 (add_page_to_kernel_page_directory 0x3042 0x55000 small_space)
add_page_to_kernel-Mapped_example =
    add_page_to_kernel-Mapped small_space 0x3042 0x55000 small_space-IsSpace (omega arith) refl
