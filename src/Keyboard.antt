-- ===== src/Keyboard.antt =====
-- The keyboard and the console: kernel/drivers/keyboard.c, kernel/drivers/kbmap.h and
-- kernel/user/console.c, with SysScanf of kernel/user/syscalls.c, which waits for a line.
pub mod Line
mod Tests
use lt_kernel.Prelude.{
  ℕ, zero, suc, ◌+◌, ◌*◌, ◌%◌, ◌<◌, Bool, true, false, not, ◌||◌, Option, none, some, List, [], ◌∷◌,
  ◌++◌, ◌==◌, if◌then◌else◌, ltb, length, get_elem?, set, take, replicate,
}
use lt_kernel.Prelude.Words.{u8}
use lt_kernel.Prelude.Int.{ℤ, pos, negsuc}
use lt_kernel.Prelude.Result.{Result, ok, fault, stuck, ◌>>=◌}
use lt_kernel.Status.{KeStatus, status_success, status_null_parameter, status_process_not_found}

-- `kbdmap`, four entries for each key; the last 160 entries are 0xFF.
abbrev pub kbdmap : List ℕ
kbdmap =
    27
    ∷ 27
    ∷ 27
    ∷ 27
    ∷ 49
    ∷ 33
    ∷ 49
    ∷ 49
    ∷ 50
    ∷ 64
    ∷ 50
    ∷ 50
    ∷ 51
    ∷ 35
    ∷ 51
    ∷ 51
    ∷ 52
    ∷ 36
    ∷ 52
    ∷ 52
    ∷ 53
    ∷ 37
    ∷ 53
    ∷ 53
    ∷ 54
    ∷ 94
    ∷ 54
    ∷ 54
    ∷ 55
    ∷ 38
    ∷ 55
    ∷ 55
    ∷ 56
    ∷ 42
    ∷ 56
    ∷ 56
    ∷ 57
    ∷ 40
    ∷ 57
    ∷ 57
    ∷ 48
    ∷ 41
    ∷ 48
    ∷ 48
    ∷ 45
    ∷ 95
    ∷ 45
    ∷ 45
    ∷ 61
    ∷ 43
    ∷ 61
    ∷ 61
    ∷ 8
    ∷ 8
    ∷ 127
    ∷ 8
    ∷ 9
    ∷ 9
    ∷ 9
    ∷ 9
    ∷ 113
    ∷ 81
    ∷ 113
    ∷ 113
    ∷ 119
    ∷ 87
    ∷ 119
    ∷ 119
    ∷ 101
    ∷ 69
    ∷ 101
    ∷ 101
    ∷ 114
    ∷ 82
    ∷ 114
    ∷ 114
    ∷ 116
    ∷ 84
    ∷ 116
    ∷ 116
    ∷ 121
    ∷ 89
    ∷ 121
    ∷ 121
    ∷ 117
    ∷ 85
    ∷ 117
    ∷ 117
    ∷ 105
    ∷ 73
    ∷ 105
    ∷ 105
    ∷ 111
    ∷ 79
    ∷ 111
    ∷ 111
    ∷ 112
    ∷ 80
    ∷ 112
    ∷ 112
    ∷ 91
    ∷ 123
    ∷ 91
    ∷ 91
    ∷ 93
    ∷ 125
    ∷ 93
    ∷ 93
    ∷ 10
    ∷ 10
    ∷ 10
    ∷ 10
    ∷ 255
    ∷ 255
    ∷ 255
    ∷ 255
    ∷ 97
    ∷ 65
    ∷ 97
    ∷ 97
    ∷ 115
    ∷ 83
    ∷ 115
    ∷ 115
    ∷ 100
    ∷ 68
    ∷ 100
    ∷ 100
    ∷ 102
    ∷ 70
    ∷ 102
    ∷ 102
    ∷ 103
    ∷ 71
    ∷ 103
    ∷ 103
    ∷ 104
    ∷ 72
    ∷ 104
    ∷ 104
    ∷ 106
    ∷ 74
    ∷ 106
    ∷ 106
    ∷ 107
    ∷ 75
    ∷ 107
    ∷ 107
    ∷ 108
    ∷ 76
    ∷ 108
    ∷ 108
    ∷ 59
    ∷ 58
    ∷ 59
    ∷ 59
    ∷ 39
    ∷ 34
    ∷ 39
    ∷ 39
    ∷ 96
    ∷ 126
    ∷ 96
    ∷ 96
    ∷ 255
    ∷ 255
    ∷ 255
    ∷ 255
    ∷ 92
    ∷ 124
    ∷ 92
    ∷ 92
    ∷ 122
    ∷ 90
    ∷ 122
    ∷ 122
    ∷ 120
    ∷ 88
    ∷ 120
    ∷ 120
    ∷ 99
    ∷ 67
    ∷ 99
    ∷ 99
    ∷ 118
    ∷ 86
    ∷ 118
    ∷ 118
    ∷ 98
    ∷ 66
    ∷ 98
    ∷ 98
    ∷ 110
    ∷ 78
    ∷ 110
    ∷ 110
    ∷ 109
    ∷ 77
    ∷ 109
    ∷ 109
    ∷ 44
    ∷ 60
    ∷ 44
    ∷ 44
    ∷ 46
    ∷ 62
    ∷ 46
    ∷ 46
    ∷ 47
    ∷ 63
    ∷ 47
    ∷ 47
    ∷ 255
    ∷ 255
    ∷ 255
    ∷ 255
    ∷ 255
    ∷ 255
    ∷ 255
    ∷ 255
    ∷ 255
    ∷ 255
    ∷ 255
    ∷ 255
    ∷ 32
    ∷ 32
    ∷ 32
    ∷ 32
    ∷ replicate 160 255

-- `THREAD_CONSOLE_BUFFER_SIZE`
abbrev pub thread_console_buffer_size : ℕ
thread_console_buffer_size = 512

-- the field `console` of a thread
pub record ThreadConsole : Type 0 where
  pub console_buffer : List ℕ
  pub buffer_index : ℕ
  pub ready_to_be_flushed : Bool

-- The owner of `gConsole`, the consoles of the threads, the shift keys that are held, and the
-- characters that are printed.
pub record Console : Type 0 where
  pub owner_thread : Option ℕ
  pub consoles : ℕ → ThreadConsole
  pub lshift_enable : Bool
  pub rshift_enable : Bool
  pub printed : List ℕ

abbrev pub set_console : ℕ → ThreadConsole → Console → Console
set_console t c s = record s { consoles = λ u. if u == t then c else s.consoles u }

-- A character behind the end of the buffer is a `fault`.
unfoldable pub cnsl_handle_key : ℕ → Console → Result Console
cnsl_handle_key key s = elim s.owner_thread [
  | none ↦ ok s
  | some t ↦
      let c = s.consoles t in
      let d : ThreadConsole = record {
        console_buffer = set c.console_buffer c.buffer_index key;
        buffer_index = c.buffer_index + 1;
        ready_to_be_flushed = (key == 10) || c.ready_to_be_flushed;
      } in
      if ltb c.buffer_index thread_console_buffer_size
      then ok (set_console t d (record s { printed = s.printed ++ (key ∷ []) }))
      else fault
]

-- `lshift_enable || rshift_enable`, as the number that it is added as
abbrev pub shift_of : Console → ℕ
shift_of s = if s.lshift_enable || s.rshift_enable then 1 else 0

-- `DrvKeyboard`, for the byte that the port 0x60 gives; a key behind the end of `kbdmap` is a `fault`.
unfoldable pub drv_keyboard : ℕ → Console → Result Console
drv_keyboard code s =
    let i = u8 (code + 255) in
    if ltb i 128
    then if i == 41
      then ok (record s { lshift_enable = true })
      else if i == 53
      then ok (record s { rshift_enable = true })
      else elim (get_elem? kbdmap (i * 4 + shift_of s)) [
        | none ↦ fault
        | some key ↦ cnsl_handle_key key s
      ]
    else if i == 169
    then ok (record s { lshift_enable = false })
    else if i == 181
    then ok (record s { rshift_enable = false })
    else ok s

-- `while (!readyToBeFlushed);` while the keyboard interrupts with the codes of a list. The codes that
-- are left come after the wait; a wait that no key ends is `stuck`.
unfoldable pub wait_line : ℕ → List ℕ → Console → Result (Console × List ℕ)
wait_line t [] s = if (s.consoles t).ready_to_be_flushed then ok (s, []) else stuck
wait_line t (code ∷ codes) s = elim (s.consoles t).ready_to_be_flushed [
  | true ↦ ok (s, code ∷ codes)
  | false ↦ drv_keyboard code s >>= wait_line t codes
]

-- What `SysScanf` returns and writes to the buffer of the caller.
pub record Scanned : Type 0 where
  pub status : KeStatus
  pub ret : ℤ
  pub buffer : List ℕ
  pub console : Console
  pub codes : List ℕ

-- The part of `SysScanf` behind the wait.
unfoldable pub flush_line : ℕ → Console → List ℕ → Scanned
flush_line t s codes =
    let c = s.consoles t in
    let d : ThreadConsole = record c { buffer_index = 0; ready_to_be_flushed = false } in
    let freed : Console = record s { owner_thread = none } in
    record {
      status = status_success;
      ret = pos 0;
      buffer = take c.buffer_index c.console_buffer ++ (0 ∷ []);
      console = set_console t d freed;
      codes = codes;
    }

-- `SysScanf` behind its guards, for the thread `t`. If another thread owns the console the wait for it
-- is `stuck`.
unfoldable pub scan_line : ℕ → List ℕ → Console → Result Scanned
scan_line t codes s = elim s.owner_thread [
  | none ↦
      wait_line t codes (record s { owner_thread = some t }) >>= (λ r. ok (flush_line t r.0 r.1))
  | some u ↦ if u == t then wait_line t codes s >>= (λ r. ok (flush_line t r.0 r.1)) else stuck
]

-- `SysScanf` for the address of the buffer and the current thread; `ret` is never NULL, and 0 before.
unfoldable pub sys_scanf : ℕ → Option ℕ → List ℕ → Console → Result Scanned
sys_scanf buffer current codes s =
    if buffer == 0
    then ok record {
      status = status_null_parameter;
      ret = pos 0;
      buffer = [];
      console = s;
      codes = codes;
    }
    else elim current [
      | none ↦ ok record {
        status = status_process_not_found;
        ret = negsuc 0;
        buffer = [];
        console = s;
        codes = codes;
      }
      | some t ↦ scan_line t codes s
    ]
