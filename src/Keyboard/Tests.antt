-- ===== src/Keyboard/Tests.antt =====
-- A line of two characters, one with a shift key held.
use lt_kernel.Prelude.{refl, false, none, some, [], ◌∷◌, arith, replicate}
use lt_kernel.Keyboard.{Console, sys_scanf}
use lt_kernel.Keyboard.Line.Typed.{typed_nothing, key_down, key_up, left_shift_down, left_shift_up}
use lt_kernel.Keyboard.Line.{Makes, Typed, Read, sys_scanf-Read}

abbrev quiet_console : Console
quiet_console = record {
  owner_thread = none;
  consoles = λ t. record {
    console_buffer = replicate 512 0;
    buffer_index = 0;
    ready_to_be_flushed = false;
  };
  lshift_enable = false;
  rshift_enable = false;
  printed = [];
}

-- `L` with a shift key held, and `s`
l-Makes : Makes 1 38 76
l-Makes = record {
  low = omega arith;
  high = omega arith;
  not_lshift = λ e. absurd (omega arith);
  not_rshift = λ e. absurd (omega arith);
  mapped = refl;
}

s-Makes : Makes 0 31 115
s-Makes = record {
  low = omega arith;
  high = omega arith;
  not_lshift = λ e. absurd (omega arith);
  not_rshift = λ e. absurd (omega arith);
  mapped = refl;
}

enter-Makes : Makes 0 28 10
enter-Makes = record {
  low = omega arith;
  high = omega arith;
  not_lshift = λ e. absurd (omega arith);
  not_rshift = λ e. absurd (omega arith);
  mapped = refl;
}

-- The left shift key, `L`, both released, and `s` and its release
two_keys : Typed false false (42 ∷ 38 ∷ 166 ∷ 170 ∷ 31 ∷ 159 ∷ []) (76 ∷ 115 ∷ []) false false
two_keys = left_shift_down _ _ _ _ 42 _ _ refl (
    key_down _ _ _ _ 38 76 _ _ l-Makes (λ e. absurd (omega arith))
      (key_up _ _ _ _ 166 _ _ (omega arith) (omega arith) (λ e. absurd (omega arith))
        (λ e. absurd (omega arith))
        (left_shift_up _ _ _ _ 170 _ _ refl (
          key_down _ _ _ _ 31 115 _ _ s-Makes (λ e. absurd (omega arith))
            (key_up _ _ _ _ 159 _ _ (omega arith) (omega arith) (λ e. absurd (omega arith))
              (λ e. absurd (omega arith)) (typed_nothing _ _))))))

sys_scanf-Read_example :
    Read 4
      (76 ∷ 115 ∷ [])
      (156 ∷ [])
      false
      false
      (sys_scanf 4096 (some 4) (42 ∷ 38 ∷ 166 ∷ 170 ∷ 31 ∷ 159 ∷ 28 ∷ 156 ∷ []) quiet_console)
sys_scanf-Read_example =
    sys_scanf-Read 4096 4 28 (42 ∷ 38 ∷ 166 ∷ 170 ∷ 31 ∷ 159 ∷ []) (76 ∷ 115 ∷ []) (156 ∷ []) false
      false quiet_console (λ e. absurd (omega arith)) refl refl refl refl two_keys enter-Makes
      (omega arith)
