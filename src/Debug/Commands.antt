-- ===== src/Debug/Commands.antt =====
-- The commands of the debugger and the loop that waits for them: kernel/debug/ltdbg.c. The nodes of the
-- list that StackTraceCommand builds and takes down again are not counted in the heap.
use lt_kernel.Prelude.{
  ℕ, zero, suc, ◌+◌, ◌*◌, ◌/◌, ◌%◌, ◌^◌, Bool, true, false, ◌||◌, List, [], ◌∷◌, ◌++◌, ◌==◌,
  if◌then◌else◌, length, drop, get_or,
}
use lt_kernel.Prelude.Words.{u32}
use lt_kernel.Prelude.Result.{Result, ok, fault, stuck, ◌>>=◌}
use lt_kernel.Alloc.{Alloc}
use lt_kernel.Paging.{Machine, load, is_virtual_address_available}
use lt_kernel.Debug.{KeDebugResponse, Debugger, u32_bytes, word_of, slice, kmalloc_bytes}

-- `CommandId`, as far as WaitForPacket tells the commands apart.
pub data Command : Type 0 where
  step : Command
  continues : Command
  quit : Command
  registers : Command
  disass : Command
  stack_trace : Command
  memory : Command
  bp : Command
  undefined : Command

abbrev pub command_of : ℕ → Command
command_of n =
    get_or
      (undefined ∷ step ∷ continues ∷ quit ∷ registers ∷ disass ∷ stack_trace ∷ memory ∷ bp ∷ []) n
      undefined

-- `CMD_CONNECT`, and the constants of `KeDebugStatus`
abbrev pub cmd_connect : ℕ
cmd_connect = 0

abbrev pub dbg_status_success : ℕ
dbg_status_success = 0

abbrev pub dbg_status_failure : ℕ
dbg_status_failure = 1

abbrev pub dbg_status_wrong_parameter : ℕ
dbg_status_wrong_parameter = 4

abbrev pub dbg_status_memory_unavailable : ℕ
dbg_status_memory_unavailable = 5

-- The response that most commands give, to the command `n`.
abbrev pub reply : ℕ → ℕ → Debugger → Debugger
reply n status d = record d {
  response = record {
    command = n;
    status = status;
    context = d.context;
    data_size = 0;
    data_ptr = 0;
    bytes = [];
  };
}

-- `eflags |= 0x100` and `eflags &= 0x0FEFF`
abbrev pub with_trap : ℕ → ℕ
with_trap f = f / 512 * 512 + 256 + f % 256

abbrev pub without_trap : ℕ → ℕ
without_trap f = f / 512 % 128 * 512 + f % 256

abbrev pub set_eflags : ℕ → Debugger → Debugger
set_eflags f d = record d { context = record d.context { eflags = f } }

-- StepCommand, ContinueCommand and QuitCommand
abbrev pub step_command : Debugger → Debugger
step_command d = reply 1 dbg_status_success (set_eflags (with_trap d.context.eflags) d)

abbrev pub continue_command : Debugger → Debugger
continue_command d = reply 2 dbg_status_success (set_eflags (without_trap d.context.eflags) d)

abbrev pub quit_command : Debugger → Debugger
quit_command d = reply 3 dbg_status_success (set_eflags (without_trap d.context.eflags) d)

-- A byte at a virtual address, and `size` of them.
unfoldable pub load_byte : Machine → ℕ → Result ℕ
load_byte m v = do w ← load m (v / 4 * 4); ok (w / 256 ^ (v % 4) % 256)

unfoldable pub load_bytes : ℕ → Machine → ℕ → Result (List ℕ)
load_bytes zero m v = ok []
load_bytes (suc n) m v = do b ← load_byte m v; bs ← load_bytes n m (u32 (v + 1)); ok (b ∷ bs)

-- The word at `i` of the parameters.
unfoldable pub param_word : ℕ → Debugger → Result ℕ
param_word i d =
    if d.heap.live d.request.param
    then (do b ← slice 4 (drop i d.request.bytes); ok (word_of b))
    else fault

-- `ListPush` on a list that ListCreate made: the first datum fills the head, which holds NULL.
abbrev pub push_data : List ℕ → ℕ → List ℕ
push_data [] x = x ∷ []
push_data (h ∷ t) x = if h == 0 then x ∷ t else (h ∷ t) ++ (x ∷ [])

-- `while (ebp != NULL)`: the list and the count.
unfoldable pub trace_loop : ℕ → Machine → ℕ → List ℕ → ℕ → Result (List ℕ × ℕ)
trace_loop zero m ebp list n = stuck
trace_loop (suc fuel) m ebp list n = elim (ebp == 0) [
  | true ↦ ok (list, n)
  | false ↦ do
    address ← load m (u32 (ebp + 4))
    next ← load m ebp
    trace_loop fuel m next (push_data list address) (n + 1)
]

abbrev pub words_bytes : List ℕ → List ℕ
words_bytes [] = []
words_bytes (x ∷ xs) = u32_bytes x ++ words_bytes xs

module _ (grant : ℕ → Bool) (junk : ℕ → List ℕ) where
  -- Without memory for the answer, its fields are written at NULL.
  unfoldable pub disass_command : Debugger → Result Debugger
  disass_command d =
      let r : KeDebugResponse = record d.response { command = 5; context = d.context } in
      elim (d.request.param_size == 0 || d.request.param == 0) [
        | true ↦ ok (record d { response = record r { status = dbg_status_failure } })
        | false ↦ do
          n ← param_word 0 d
          let size = u32 (12 + n * 20)
          let m = kmalloc_bytes grant size d.heap
          elim (n == 0) [
            | true ↦ ok (record d { response = record r { status = dbg_status_success } })
            | false ↦ elim (m.0 == 0) [
              | true ↦ fault
              | false ↦ do
                code ← load_bytes (u32 (n * 20)) d.machine d.context.eip
                ok (record d {
                  heap = m.1;
                  response = record r {
                    status = dbg_status_success;
                    data_size = size;
                    data_ptr = m.0;
                    bytes =
                        u32_bytes (u32 (n * 20))
                        ++ (u32_bytes d.context.eip ++ (code ++ drop (8 + length code) (junk m.0)));
                  };
                })
            ]
          ]
      ]

  -- Without memory for the answer, the response stays what it was.
  unfoldable pub stack_trace_command : ℕ → Debugger → Result Debugger
  stack_trace_command fuel d = do
    t ← trace_loop fuel d.machine d.context.ebp (push_data (0 ∷ []) d.context.eip) 1
    let size = u32 (t.1 * 4)
    let m = kmalloc_bytes grant size d.heap
    elim (m.0 == 0) [
      | true ↦ ok (record d { heap = m.1 })
      | false ↦ ok (record d {
        heap = m.1;
        response = record {
          command = 6;
          context = d.context;
          data_size = size;
          status = dbg_status_success;
          data_ptr = m.0;
          bytes = words_bytes t.0 ++ drop (4 * length t.0) (junk m.0);
        };
      })
    ]

  -- The part of `MemoryCommand` behind the parameters, for the answer `k` of kmalloc.
  unfoldable pub memory_reply : Machine → ℕ → ℕ → ℕ × Alloc → Debugger → Result Debugger
  memory_reply m addr size k d = do
    first ← is_virtual_address_available addr m
    elim first [
      | false ↦ ok (reply 7 dbg_status_memory_unavailable d)
      | true ↦ do
        last ← is_virtual_address_available (u32 (addr + size + 0xFFFFFFFF)) m
        elim last [
          | false ↦ ok (reply 7 dbg_status_memory_unavailable d)
          | true ↦ elim (k.0 == 0) [
            | true ↦ ok (reply 7 dbg_status_failure (record d { heap = k.1 }))
            | false ↦ do
              bytes ← load_bytes size m addr
              ok (record d {
                heap = k.1;
                response = record {
                  command = 7;
                  context = d.context;
                  status = dbg_status_success;
                  data_size = size;
                  data_ptr = k.0;
                  bytes = bytes;
                };
              })
          ]
        ]
    ]

  -- The memory is that of the address space in `context->cr3`.
  unfoldable pub memory_command : Debugger → Result Debugger
  memory_command d = elim (d.request.param_size == 8) [
    | false ↦ ok (reply 7 dbg_status_wrong_parameter d)
    | true ↦ do
      size ← param_word 0 d
      addr ← param_word 4 d
      let m : Machine = record d.machine { cr3 = d.context.cr3 }
      let k = kmalloc_bytes grant size d.heap
      memory_reply m addr size k d
  ]
