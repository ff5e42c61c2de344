-- ===== src/Tasks.antt =====
-- The creation of processes: CreateProcess of kernel/user/process.c, CreateMainThread and InitThread of
-- kernel/user/thread.c, PmCreateKernelThread of kernel/user/process_manager.c. The list
-- `gThreadsList` is the list of its threads, as in Scheduler.
pub mod Lists
pub mod Create
mod Tests
use lt_kernel.Prelude.{
  ℕ, zero, suc, ◌+◌, ◌-◌, ◌<◌, Bool, true, false, not, Option, none, some, List, [], ◌∷◌, ◌++◌,
  ◌==◌, if◌then◌else◌, replicate,
}
use lt_kernel.Prelude.Result.{Result, ok, fault, stuck, ◌>>=◌}
use lt_kernel.Status.{
  KeStatus, status_success, status_failure, status_alloc_failed, status_invalid_parameter,
  status_physical_memory_full, failed,
}
use lt_kernel.Alloc.{Alloc, request, give_back}
use lt_kernel.Frames.{get_free_page, page_size}
use lt_kernel.PageHeap.{Page, PageHeap, page_alloc}
use lt_kernel.Keyboard.{ThreadConsole, thread_console_buffer_size}
use lt_kernel.Scheduler.{ThreadState, thread_state_init, thread_state_running, Regs, Thread}

pub record Process : Type 0 where
  pub pid : ℕ
  pub main_thread : ℕ
  pub parent : ℕ
  pub children : ℕ
  pub threads : ℕ
  pub current_directory : ℕ
  pub file_handle_list : ℕ
  pub dir_handle_list : ℕ

-- The globals, with the heap and the heap of pages; `processes` says what is at an address.
pub record Tasks : Type 0 where
  pub heap : Alloc
  pub pages : PageHeap
  pub threads : List Thread
  pub processes : ℕ → Option Process
  pub thread_id : ℕ
  pub nb_threads : ℕ
  pub current_process_id : ℕ

-- USER_STACK_V_ADDR, and the selectors of the segments of a process
abbrev pub user_stack_v_addr : ℕ
user_stack_v_addr = 0xE0000000

abbrev pub user_code_seg_selector : ℕ
user_code_seg_selector = 0x1B

abbrev pub user_data_seg_selector : ℕ
user_data_seg_selector = 0x23

-- The registers that `InitThread` sets; `ebx` keeps what the memory held.
abbrev pub user_regs : Regs → ℕ → Regs
user_regs raw entry = record raw {
  ss = user_data_seg_selector;
  cs = user_code_seg_selector;
  ds = user_data_seg_selector;
  es = user_data_seg_selector;
  fs = user_data_seg_selector;
  gs = user_data_seg_selector;
  eax = 0;
  ecx = 0;
  edx = 0;
  edi = 0;
  esi = 0;
  esp = user_stack_v_addr + page_size - 4;
  ebp = user_stack_v_addr + page_size - 4;
  eip = entry;
  eflags = 0x200;
}

-- A new thread: what the scheduler sees of it, the page of its stack and its console.
pub record NewThread : Type 0 where
  pub thread : Thread
  pub stack_page : Page
  pub console : ThreadConsole

-- The fields that `InitThread` sets, for a page of the kernel's and the frame of the stack.
abbrev pub new_thread : Regs → ℕ → Thread → Page → ℕ → NewThread
new_thread raw entry t kernel_page frame = record {
  thread = record t {
    regs = user_regs raw entry;
    esp0 = kernel_page.v_addr + page_size;
    ss0 = 0x10;
  };
  stack_page = record { p_addr = frame; v_addr = user_stack_v_addr };
  console = record {
    console_buffer = replicate thread_console_buffer_size 0;
    buffer_index = 0;
    ready_to_be_flushed = false;
  };
}

-- `InitThread`: the status, the thread, which a failure leaves without most fields, and the heap of
-- pages; `none` if PageAlloc stops the machine.
unfoldable pub init_thread :
    Regs → ℕ → Thread → PageHeap → Result (Option (KeStatus × NewThread × PageHeap))
init_thread raw entry t pages = do
  kernel_stack ← page_alloc pages
  elim kernel_stack [
    | none ↦ ok none
    | some (kernel_page, pages') ↦
        let user = get_free_page pages'.bitmap in
        let status = (if user.0 == 0 then status_physical_memory_full else status_success) in
        ok (
          some
            (status, new_thread raw entry t kernel_page user.0, record pages' { bitmap = user.1 }))
  ]

-- `CreateMainThread` for the process at an address: the status, the address of the thread (0 for none),
-- the thread, and the globals. The number of the thread is used up also by a failure.
unfoldable pub create_main_thread :
    (ℕ → Bool) → Regs → ℕ → ℕ → Tasks → Result (Option (KeStatus × ℕ × Option NewThread × Tasks))
create_main_thread grant raw process entry s =
    let r = request grant s.heap in
    elim (r.0 == 0) [
      | true ↦ ok (some (status_alloc_failed, 0, none, record s { heap = r.1 }))
      | false ↦ do
        made ←
            init_thread raw entry
              (record {
                tid = s.thread_id;
                start_execution_time = 0;
                state = thread_state_init;
                process = process;
                is_user = true;
                esp0 = 0;
                ss0 = 0;
                regs = raw;
              })
              s.pages
        elim made [
          | none ↦ ok none
          | some (status, t, pages) ↦
              let numbered : Tasks = record s { thread_id = s.thread_id + 1; pages = pages } in
              elim (failed status) [
                | true ↦ ok (some (status, 0, none, record numbered { heap = give_back r.0 r.1 }))
                | false ↦ ok (
                    some (
                      status_success,
                      r.0,
                      some t,
                      record numbered { heap = r.1; nb_threads = s.nb_threads + 1 },
                    ))
              ]
        ]
    ]

-- The locals of `CreateProcess` that hold allocations, 0 for NULL, and the heap.
pub record Locals : Type 0 where
  pub process : ℕ
  pub children : ℕ
  pub threads : ℕ
  pub files : ℕ
  pub dirs : ℕ
  pub heap : Alloc

abbrev pub no_locals : Alloc → Locals
no_locals a = record { process = 0; children = 0; threads = 0; files = 0; dirs = 0; heap = a }

-- The allocations of `CreateProcess`, in order, up to the first that fails; `ListCreate` allocates one
-- block.
unfoldable pub allocate : (ℕ → Bool) → Alloc → KeStatus × Locals
allocate grant a =
    let p = request grant a in
    let c = request grant p.1 in
    let t = request grant c.1 in
    let f = request grant t.1 in
    let d = request grant f.1 in
    let l : Locals = record (no_locals p.1) { process = p.0 } in
    if p.0 == 0
    then (status_alloc_failed, l)
    else if c.0 == 0
    then (status_failure, record l { heap = c.1 })
    else if t.0 == 0
    then (status_failure, record l { children = c.0; heap = t.1 })
    else if f.0 == 0
    then (status_failure, record l { children = c.0; threads = t.0; heap = f.1 })
    else if d.0 == 0
    then (status_failure, record l { children = c.0; threads = t.0; files = f.0; heap = d.1 })
    else (
      status_success,
      record l { children = c.0; threads = t.0; files = f.0; dirs = d.0; heap = d.1 },
    )

-- The part behind `clean:`: the two lists of handles are not given back.
unfoldable pub clean : Locals → Alloc → Alloc
clean l a = give_back l.threads (give_back l.children (give_back l.process a))

-- `ListPush(gThreadsList, thread)`: the head of an empty list takes the thread; else a node is
-- requested, and without one the list stays as it is. The list of threads and the heap.
unfoldable pub push_thread : (ℕ → Bool) → Thread → List Thread → Alloc → List Thread × Alloc
push_thread grant t [] a = (t ∷ [], a)
push_thread grant t (u ∷ us) a =
    let r = request grant a in if r.0 == 0 then (u ∷ us, r.1) else ((u ∷ us) ++ (t ∷ []), r.1)

-- `CreateProcess`, for a `newProcess` that is not NULL: the status, the process (0 for none), the
-- globals. The list of the threads of the process is new, so that its head takes the thread.
unfoldable pub create_process :
    (ℕ → Bool) → Regs → ℕ → ℕ → ℕ → Tasks → Result (Option (KeStatus × ℕ × Tasks))
create_process grant raw entry parent location s =
    let a = allocate grant s.heap in
    let l = a.1 in
    elim (entry == 0) [
      | true ↦ ok (some (status_invalid_parameter, 0, s))
      | false ↦ elim (failed a.0) [
        | true ↦ ok (some (a.0, 0, record s { heap = clean l l.heap }))
        | false ↦ do
          made ← create_main_thread grant raw l.process entry (record s { heap = l.heap })
          elim made [
            | none ↦ ok none
            | some (status, address, thread, s') ↦ elim thread [
              | none ↦ ok (some (status, 0, record s' { heap = clean l s'.heap }))
              | some t ↦
                  let new : Process = record {
                    pid = s'.current_process_id;
                    main_thread = address;
                    parent = parent;
                    children = l.children;
                    threads = l.threads;
                    current_directory = location;
                    file_handle_list = l.files;
                    dir_handle_list = l.dirs;
                  } in
                  let listed = push_thread grant t.thread s'.threads s'.heap in
                  ok (
                    some (
                      status_success,
                      l.process,
                      record s' {
                        heap = listed.1;
                        threads = listed.0;
                        processes = λ x. if x == l.process then some new else s'.processes x;
                        current_process_id = s'.current_process_id + 1;
                      },
                    ))
            ]
          ]
      ]
    ]

-- `PmCreateKernelThread`: the thread that becomes current, if it is allocated.
unfoldable pub pm_create_kernel_thread : (ℕ → Bool) → Thread → Tasks → Option Thread × Tasks
pm_create_kernel_thread grant raw s =
    let r = request grant s.heap in
    if r.0 == 0 then (none, record s { heap = r.1 }) else (
      some (record raw {
        tid = s.thread_id;
        start_execution_time = 0;
        state = thread_state_running;
        process = 0;
        is_user = false;
      }),
      record s { heap = r.1; thread_id = s.thread_id + 1; nb_threads = s.nb_threads + 1 },
    )
