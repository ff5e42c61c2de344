-- ===== src/Debug/Tests.antt =====
-- A session with two requests, and one behind a request with parameters.
use lt_kernel.Prelude.{ℕ, ◌≡◌, refl, true, List, [], ◌∷◌, ◌++◌, ◌==◌, inl, inr, arith}
use lt_kernel.Prelude.Result.{fault, ◌>>=◌}
use lt_kernel.Debug.{KeDebugContext, KeDebugPacket, Debugger}
use lt_kernel.Debug.Wait.{cleanup, wait_loop}
use lt_kernel.Debug.Packets.{IsCarried, recv_packet-send_packet}
use lt_kernel.Debug.Session.{request_packet}
use lt_kernel.Debug.Served.{Served}
use lt_kernel.Debug.Dangling.{wait_loop-cleanup}

abbrev stopped : KeDebugContext
stopped = record {
  cr3 = 0x10000;
  cr2 = 0;
  cr0 = 0x80000011;
  gs = 16;
  fs = 16;
  es = 16;
  ds = 16;
  ss = 16;
  edi = 0;
  esi = 0;
  ebp = 0;
  esp = 0x9000;
  ebx = 1;
  edx = 2;
  ecx = 3;
  eax = 4;
  eip = 0x40000000;
  cs = 8;
  padding = 0;
  eflags = 0x202;
}

abbrev debugger : List ℕ → Debugger
debugger input = record {
  input = input;
  output = [];
  heap = record { requests = 3; live = λ x. x == 2; double_frees = 0 };
  machine = record { ram = λ q. 0; cr3 = 0x10000 };
  context = stopped;
  request = record { command = 0; param_size = 0; param = 0; bytes = [] };
  response = record {
    command = 0;
    status = 0;
    context = stopped;
    data_size = 0;
    data_ptr = 0;
    bytes = [];
  };
  initialized = true;
}

abbrev three_bytes : KeDebugPacket
three_bytes = record { size = 3; content = 2; bytes = 7 ∷ 8 ∷ 9 ∷ [] }

recv_packet-send_packet_example : IsCarried three_bytes (debugger [])
recv_packet-send_packet_example =
    recv_packet-send_packet three_bytes (debugger []) (λ e. absurd (omega arith)) refl (omega arith)
      (omega arith)

-- registers, an unknown command, then a step
abbrev commands : List (ℕ × List ℕ)
commands = (4, []) ∷ (40, 1 ∷ []) ∷ []

-- A request for memory that was served: its parameters are at 2.
abbrev served : Debugger
served = record (debugger (request_packet 2 [] ++ [])) {
  request = record {
    command = 7;
    param_size = 8;
    param = 2;
    bytes = 4 ∷ 0 ∷ 0 ∷ 0 ∷ 0 ∷ 0 ∷ 0 ∷ 0 ∷ [];
  };
}

wait_loop-cleanup_example : (cleanup served >>= wait_loop (λ n. true) (λ a. []) 2 5) ≡ fault
wait_loop-cleanup_example =
    wait_loop-cleanup (λ n. true) (λ a. []) 1 5 2 [] [] (λ n. refl) (omega arith) (omega arith)
      served (λ e. absurd (omega arith)) (omega arith) refl (λ e. absurd (omega arith)) (inl refl)
      (inr (inr (inl refl))) refl
