-- ===== src/Debug/Wait.antt =====
-- The loop that waits for commands, and the interrupts that enter it: WaitForPacket,
-- WaitForConnectCommand, DebugIsr and BreakpointIsr of kernel/debug/ltdbg.c.
use lt_kernel.Prelude.{ℕ, zero, suc, Bool, true, false, List, [], ◌∷◌, ◌++◌, ◌==◌, if◌then◌else◌}
use lt_kernel.Prelude.Result.{Result, ok, stuck, ◌>>=◌}
use lt_kernel.Status.{failed}
use lt_kernel.Debug.{Debugger, read_bytes, free_live, recv_request, send_response}
use lt_kernel.Debug.Commands.{
  Command, step, continues, quit, registers, disass, stack_trace, memory, bp, undefined, command_of,
  cmd_connect, dbg_status_success, dbg_status_failure, reply, step_command, continue_command,
  quit_command, disass_command, stack_trace_command, memory_command,
}

-- `CleanupKeDebugRequest` and `CleanupKeDebugResponse`: the pointers are not set to NULL.
unfoldable pub cleanup : Debugger → Result Debugger
cleanup d = do
  a ← free_live d.request.param d.heap
  b ← free_live d.response.data_ptr a
  ok (record d { heap = b })

module _ (grant : ℕ → Bool) (junk : ℕ → List ℕ) where
  -- The `switch` of `WaitForPacket`: `running`, and the state.
  unfoldable pub run_command : ℕ → Command → Debugger → Result (Bool × Debugger)
  run_command fuel step d = ok (true, step_command d)
  run_command fuel continues d = ok (true, continue_command d)
  run_command fuel quit d = ok (true, quit_command d)
  run_command fuel registers d = ok (false, reply 4 dbg_status_success d)
  run_command fuel disass d = do e ← disass_command grant junk d; ok (false, e)
  run_command fuel stack_trace d = do e ← stack_trace_command grant junk fuel d; ok (false, e)
  run_command fuel memory d = do e ← memory_command grant junk d; ok (false, e)
  run_command fuel bp d = ok (false, d)
  run_command fuel undefined d = ok (false, reply d.request.command dbg_status_failure d)

  -- The loop of `WaitForPacket`, for `fuel` requests, where `trace_fuel` serves a stack trace.
  unfoldable pub wait_loop : ℕ → ℕ → Debugger → Result Debugger
  wait_loop zero trace_fuel d = stuck
  wait_loop (suc fuel) trace_fuel d = do
    r ← recv_request grant d
    elim (failed r.0) [
      | true ↦ ok r.1
      | false ↦ do
        c ← run_command trace_fuel (command_of r.1.request.command) r.1
        elim c.0 [
          | true ↦ cleanup c.1
          | false ↦ do s ← send_response grant c.1; e ← cleanup s.1; wait_loop fuel trace_fuel e
        ]
    ]

  -- `WaitForPacket`, which starts with a request and a response of zeros.
  unfoldable pub wait_for_packet : ℕ → ℕ → Debugger → Result Debugger
  wait_for_packet fuel trace_fuel d = wait_loop fuel trace_fuel (record (reply 0 0 d) {
    request = record { command = 0; param_size = 0; param = 0; bytes = [] };
  })

  -- `BreakpointHit`, with CMD_UNKNOWN and DBG_STATUS_BREAKPOINT_REACHED
  unfoldable pub breakpoint_hit : Debugger → Result Debugger
  breakpoint_hit d = do s ← send_response grant (reply 10 3 d); ok s.1

  unfoldable pub debug_isr : ℕ → ℕ → Debugger → Result Debugger
  debug_isr fuel trace_fuel d = do e ← breakpoint_hit d; wait_for_packet fuel trace_fuel e

  -- The part of `WaitForConnectCommand` behind the first byte, which is answered by 1.
  unfoldable pub connect : Debugger → Result Debugger
  connect d = do
    r ← recv_request grant d
    elim (failed r.0) [
      | true ↦ ok r.1
      | false ↦ elim (r.1.request.command == cmd_connect) [
        | false ↦ ok r.1
        | true ↦ do
          s ← send_response grant (reply cmd_connect dbg_status_success r.1)
          ok (record s.1 { initialized = true })
      ]
    ]

  unfoldable pub wait_for_connect_command : Debugger → Result Debugger
  wait_for_connect_command d = do
    b ← read_bytes 1 d.input
    connect (record (reply 0 0 d) {
      input = b.1;
      output = d.output ++ (1 ∷ []);
      initialized = elim b.0 [
        | [] ↦ d.initialized
        | x ∷ xs ↦ if x == 1 then true else d.initialized
      ];
      request = record { command = 0; param_size = 0; param = 0; bytes = [] };
    })

  unfoldable pub breakpoint_isr : ℕ → ℕ → Debugger → Result Debugger
  breakpoint_isr fuel trace_fuel d = do
    e ← elim d.initialized [ false ↦ wait_for_connect_command d | true ↦ breakpoint_hit d ]
    wait_for_packet fuel trace_fuel e
