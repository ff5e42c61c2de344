-- ===== src/Scheduler/Tests.antt =====
-- Three threads that take turns.
use lt_kernel.Prelude.{ℕ, ◌<◌, ◌≡◌, refl, true, Option, none, some, [], ◌∷◌, arith, ap, get_elem?}
use lt_kernel.Prelude.Result.{ok}
use lt_kernel.Scheduler.{thread_state_running, Regs, Thread, Sched, schedules}
use lt_kernel.Scheduler.Frame.{interrupt_stack, IsFrame}
use lt_kernel.Scheduler.Rotate.{IsFair, Ticked, schedules-Ticked}
use lt_kernel.Scheduler.Fair.{run, run-reaches, Resumes, schedules-Resumes}

abbrev idle_regs : Regs
idle_regs = record {
  eflags = 512;
  cs = 27;
  eip = 1073741824;
  eax = 0;
  ecx = 0;
  edx = 0;
  ebx = 0;
  ebp = 0;
  esi = 0;
  edi = 0;
  ds = 35;
  es = 35;
  fs = 35;
  gs = 35;
  ss = 35;
  esp = 0;
}

-- The registers of a program that the clock interrupts, all different.
abbrev busy_regs : Regs
busy_regs = record {
  eflags = 514;
  cs = 27;
  eip = 1073741830;
  eax = 1;
  ecx = 2;
  edx = 3;
  ebx = 4;
  ebp = 5;
  esi = 6;
  edi = 7;
  ds = 35;
  es = 36;
  fs = 37;
  gs = 38;
  ss = 39;
  esp = 8;
}

abbrev word_or : Option ℕ → ℕ
word_or none = 0
word_or (some x) = x

abbrev a_frame : ℕ → ℕ
a_frame i = word_or (get_elem? (interrupt_stack busy_regs (λ n. n)) i)

abbrev idle : ℕ → Thread
idle n = record {
  tid = n;
  start_execution_time = 0;
  state = thread_state_running;
  process = n;
  is_user = true;
  esp0 = 4096;
  ss0 = 16;
  regs = idle_regs;
}

abbrev three_threads : Sched
three_threads = record {
  threads = idle 0 ∷ idle 1 ∷ idle 2 ∷ [];
  current = some 2;
  process = some 2;
  nb_threads = 3;
  clock = 7;
  tss_esp0 = 4096;
  tss_ss0 = 16;
}

three_threads-IsFair : IsFair three_threads
three_threads-IsFair = record {
  numbered = (refl, (refl, (refl, tt)));
  counted = refl;
  several = omega arith;
}

a_frame-IsFrame : IsFrame busy_regs a_frame 8192 three_threads
a_frame-IsFrame = record {
  other = λ n. n;
  word = λ i x e. ap word_or e;
  narrow_code = (omega arith, omega arith);
  narrow_data = (omega arith, omega arith, omega arith, omega arith);
  kernel = λ e. absurd (omega arith);
}

schedules-Ticked_example : Ticked three_threads busy_regs 2 (schedules a_frame 8192 three_threads)
schedules-Ticked_example =
    schedules-Ticked three_threads busy_regs a_frame 8192 2 three_threads-IsFair refl (omega arith)
      a_frame-IsFrame

run-reaches_example :
    (m : ℕ) × (m < 3)
    × ((r : Sched × Option Regs) × (run m (λ k. a_frame) (λ k. 8192) three_threads none ≡ ok r)
        × (r.0.current ≡ some 1))
run-reaches_example =
    run-reaches 2 1 (λ k. a_frame) (λ k. 8192) three_threads three_threads-IsFair refl (omega arith)
      (omega arith)

schedules-Resumes_example :
    Resumes 2 busy_regs (run 3 (λ k. a_frame) (λ k. 8192) three_threads none)
schedules-Resumes_example =
    schedules-Resumes 2 2 busy_regs (λ k. a_frame) (λ k. 8192) three_threads three_threads-IsFair
      refl (omega arith) refl a_frame-IsFrame
