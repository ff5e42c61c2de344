-- ===== src/Screen/Tests.antt =====
-- The screen at concrete cursors.
use lt_kernel.Prelude.{◌≡◌, arith}
use lt_kernel.Screen.{Screen, sc_print_char, sc_scroll_up}
use lt_kernel.Screen.Print.{Printed, sc_print_char-Printed}
use lt_kernel.Screen.Scroll.{sc_scroll_up_lem}

abbrev at_end : Screen
at_end = record { line = 25; column = 79; color = 15; memory = λ x. x }

sc_print_char-Printed_example : Printed at_end 65 (sc_print_char 65 at_end)
sc_print_char-Printed_example =
    sc_print_char-Printed at_end 65 (record { on_line = omega arith; on_column = omega arith })
      (ground arith) (ground arith)

sc_scroll_up_lem_example : (sc_scroll_up at_end).memory 753700 ≡ 753860
sc_scroll_up_lem_example = sc_scroll_up_lem at_end 753700
