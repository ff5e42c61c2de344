-- ===== src/Format/Tests.antt =====
-- Numbers printed at concrete values.
use lt_kernel.Prelude.{◌%◌, ◌^◌, ◌≡◌, arith}
use lt_kernel.Prelude.Int.{negsuc}
use lt_kernel.Format.{print_int, print_bin}
use lt_kernel.Format.Number.{Reads, print_int-Reads}
use lt_kernel.Format.Binary.{bits_from, print_bin_lem}

print_int-Reads_example : Reads 16 (negsuc 48878) (print_int 33 (negsuc 48878) 16)
print_int-Reads_example =
    print_int-Reads 16 (negsuc 48878) (omega arith) (omega arith) (omega arith)

print_bin_lem_example : bits_from 0 (print_bin 773 10) ≡ 773 % 2 ^ 10
print_bin_lem_example = print_bin_lem 773 10
