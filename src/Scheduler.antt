-- ===== src/Scheduler.antt =====
-- The scheduler: kernel/scheduler.c and PmStartThread of kernel/user/process_manager.c. The list
-- `gThreadsList` is the list of its threads, and a thread is the number of its node. The registers that
-- the assembly `_start_process` is called with are the result. The page directory, the field `state` of
-- the process and the mapping of the stack (ThreadPrepare) are left out.
pub mod Frame
pub mod Rotate
pub mod Fair
mod Tests
use lt_kernel.Prelude.{
  ℕ, zero, suc, ◌+◌, ◌*◌, ◌%◌, ◌<◌, Bool, true, false, not, ◌||◌, Option, none, some, List, [], ◌∷◌,
  ◌==◌, if◌then◌else◌, ltb, length, get_elem?, set,
}
use lt_kernel.Prelude.Words.{u16}
use lt_kernel.Prelude.Result.{Result, ok, fault, ◌>>=◌}

pub data ThreadState : Type 0 where
  thread_state_init : ThreadState
  thread_state_running : ThreadState
  thread_state_pause : ThreadState
  thread_state_dead : ThreadState

abbrev pub is_running : ThreadState → Bool
is_running thread_state_running = true
is_running _ = false

-- the field `regs`, without `cr3`, which nothing sets
pub record Regs : Type 0 where
  pub eflags : ℕ
  pub cs : ℕ
  pub eip : ℕ
  pub eax : ℕ
  pub ecx : ℕ
  pub edx : ℕ
  pub ebx : ℕ
  pub ebp : ℕ
  pub esi : ℕ
  pub edi : ℕ
  pub ds : ℕ
  pub es : ℕ
  pub fs : ℕ
  pub gs : ℕ
  pub ss : ℕ
  pub esp : ℕ

pub record Thread : Type 0 where
  pub tid : ℕ
  pub start_execution_time : ℕ
  pub state : ThreadState
  pub process : ℕ
  pub is_user : Bool
  pub esp0 : ℕ
  pub ss0 : ℕ
  pub regs : Regs

-- `current` and `process` are the globals `gCurrentThread` and `gCurrentProcess`.
pub record Sched : Type 0 where
  pub threads : List Thread
  pub current : Option ℕ
  pub process : Option ℕ
  pub nb_threads : ℕ
  pub clock : ℕ
  pub tss_esp0 : ℕ
  pub tss_ss0 : ℕ

-- `K_CODE_SEG_SELECTOR`
abbrev pub k_code_seg_selector : ℕ
k_code_seg_selector = 8

-- The registers that `Schedules` saves; the interrupt left them on the stack from the address `sp` on,
-- `frame i` is `stack_ptr[i]`. The fields of the segments have 16 bits.
abbrev pub saved_regs : (ℕ → ℕ) → ℕ → Sched → Regs
saved_regs frame sp s = record {
  eflags = frame 16;
  cs = u16 (frame 15);
  eip = frame 14;
  eax = frame 13;
  ecx = frame 12;
  edx = frame 11;
  ebx = frame 10;
  ebp = frame 8;
  esi = frame 7;
  edi = frame 6;
  ds = u16 (frame 5);
  es = u16 (frame 4);
  fs = u16 (frame 3);
  gs = u16 (frame 2);
  ss = if u16 (frame 15) == k_code_seg_selector then u16 s.tss_ss0 else u16 (frame 18);
  esp = if u16 (frame 15) == k_code_seg_selector then sp + 68 else frame 17;
}

unfoldable pub save_context : (ℕ → ℕ) → ℕ → Sched → Thread → Thread
save_context frame sp s t = record t {
  regs = saved_regs frame sp s;
  esp0 = s.tss_esp0;
  ss0 = u16 s.tss_ss0;
}

-- `ListGet(gThreadsList, tid)`: NULL is `none`. In a list of one thread a number above 0 is a `fault`.
unfoldable pub thread_at : List Thread → ℕ → Result (Option Thread)
thread_at [] tid = ok none
thread_at (t ∷ []) (suc tid) = fault
thread_at ts tid = ok (get_elem? ts tid)

-- The part of `PmStartThread` behind the lookup.
unfoldable pub start_found : ℕ → Sched → Option Thread → Result (Sched × Option Regs)
start_found tid s none = ok (record s { current = none }, none)
start_found tid s (some t) = ok (
  record s {
    threads =
        set s.threads tid
          (record t { start_execution_time = s.clock; state = thread_state_running });
    current = some tid;
    process = if t.is_user then some t.process else s.process;
    tss_esp0 = t.esp0;
    tss_ss0 = t.ss0;
  },
  some t.regs,
)

-- `PmStartThread`, for a number that is not -1: the registers that are started, if any.
unfoldable pub pm_start_thread : ℕ → Sched → Result (Sched × Option Regs)
pm_start_thread tid s = do found ← thread_at s.threads tid; start_found tid s found

-- `GetNextThreadTid`; a count of 0 is a `fault`.
unfoldable pub get_next_thread_tid : Thread → ℕ → Result ℕ
get_next_thread_tid t nb = if nb == 0 then fault else ok ((t.tid + 1) % nb)

-- A current thread that is not in the list is a `fault`.
unfoldable pub schedules : (ℕ → ℕ) → ℕ → Sched → Result (Sched × Option Regs)
schedules frame sp s = elim s.current [
  | none ↦ elim s.threads [
    | [] ↦ ok (s, none)
    | t ∷ ts ↦ pm_start_thread t.tid (record s { current = some 0 })
  ]
  | some i ↦ elim (get_elem? s.threads i) [
    | none ↦ fault
    | some t ↦
        if ltb 1 s.nb_threads || not (is_running t.state)
        then (do
          next ← get_next_thread_tid t s.nb_threads
          pm_start_thread next (record s { threads = set s.threads i (save_context frame sp s t) }))
        else ok (s, none)
  ]
]
