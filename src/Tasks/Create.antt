-- ===== src/Tasks/Create.antt =====
-- A process is created whole, or the threads are as they were.
use lt_kernel.Prelude.{
  ℕ, suc, ◌+◌, ◌≡◌, refl, sym, ap, ◌∙◌, ◌⊎◌, ◌≢◌, Bool, true, false, Option, none, some, List, [],
  ◌∷◌, ◌++◌, ◌==◌, arith, Bool-cases, inl, inr, length, length-append,
}
use lt_kernel.Prelude.Result.{Result, ok}
use lt_kernel.Status.{
  KeStatus, status_success, status_alloc_failed, status_invalid_parameter, failed,
}
use lt_kernel.Alloc.{Alloc, request, IsSound, granted, denied, request_yes, request_no}
use lt_kernel.Frames.{Bitmap, IsBitmap, is_used, get_free_page}
use lt_kernel.Frames.Search.{Outcome, get_free_page-Outcome}
use lt_kernel.Frames.Search.Outcome.{found, full}
use lt_kernel.PageHeap.{Page, PageHeap, page_alloc}
use lt_kernel.PageHeap.Allocate.{positive}
use lt_kernel.Scheduler.{thread_state_init, Regs, Thread}
use lt_kernel.Scheduler.Rotate.{Numbered}
use lt_kernel.Tasks.{
  Tasks, new_thread, init_thread, create_main_thread, allocate, clean, push_thread, create_process,
}
use lt_kernel.Tasks.Lists.{IsElsewhere, held, clean-held, granted-Used, Held, allocate-Held}

-- The threads are numbered by their places, and the counters agree with the list.
pub record IsCounted (s : Tasks) : Type 0 where
  pub numbered : Numbered 0 s.threads
  pub counted : s.nb_threads ≡ length s.threads
  pub next : s.thread_id ≡ length s.threads

-- PageAlloc gives a page, and the bitmap behind it has frame 0 in use.
pub record HasPage (s : Tasks) : Type 0 where
  pub page : Page
  pub pages : PageHeap
  pub allocates : page_alloc s.pages ≡ ok (some (page, pages))
  pub bitmap : IsBitmap pages.bitmap
  pub zeroth : is_used pages.bitmap 0 ≡ true

Numbered-append :
    (n : ℕ) (ts : List Thread) (t : Thread)
    → Numbered n ts
    → t.tid ≡ n + length ts
    → Numbered n (ts ++ (t ∷ []))
Numbered-append n [] t h e = (omega arith, tt)
Numbered-append n (u ∷ ts) t h e = (h.0, Numbered-append (suc n) ts t h.1 (omega arith))

frame_nonzero :
    (bm : Bitmap) (r : ℕ × Bitmap) → Outcome bm r → is_used bm 0 ≡ true → (r.0 == 0) ≡ false
frame_nonzero bm r (found p addr out first at is used others back) z =
    let pos = positive bm p first.free z in ground arith
frame_nonzero bm r (full all_used) z = refl

-- A thread that a program starts with at `entry`: the selectors of user mode, the top of the stack page
-- of the program, the interrupts on, and a kernel stack on the page at `stack`.
pub record IsStarted (entry stack p tid : ℕ) (t : Thread) : Type 0 where
  pub number : t.tid ≡ tid
  pub owner : t.process ≡ p
  pub state : t.state ≡ thread_state_init
  pub mode : t.is_user ≡ true
  pub code : t.regs.cs ≡ 0x1B
  pub stack_segment : t.regs.ss ≡ 0x23
  pub segments : (t.regs.ds ≡ 0x23) × (t.regs.es ≡ 0x23) × (t.regs.fs ≡ 0x23) × (t.regs.gs ≡ 0x23)
  pub start : t.regs.eip ≡ entry
  pub flags : t.regs.eflags ≡ 0x200
  pub user_stack : (t.regs.esp ≡ 0xE0000FFC) × (t.regs.ebp ≡ 0xE0000FFC)
  pub zeroes :
      (t.regs.eax ≡ 0) × (t.regs.ecx ≡ 0) × (t.regs.edx ≡ 0) × (t.regs.esi ≡ 0) × (t.regs.edi ≡ 0)
  pub kernel_stack : (t.esp0 ≡ stack + 4096) × (t.ss0 ≡ 0x10)

-- How CreateProcess ends: with a new last thread of a new process; with a new process whose thread is
-- counted and not in the list, as the node was refused, which is the request after the six before; or
-- with a status that is a failure, the threads as they were, and the heap as it was but for the two
-- lists of handles.
pub data Ends (grant : ℕ → Bool) (entry stack : ℕ) (s : Tasks)
    : Result (Option (KeStatus × ℕ × Tasks)) → Type 0 where
  created :
      (p : ℕ) (t : Thread) (out : Tasks)
      → (s.threads ≡ []) ⊎ (grant (s.heap.requests + 6) ≡ true)
      → out.threads ≡ s.threads ++ (t ∷ [])
      → IsStarted entry stack p s.thread_id t
      → IsCounted out
      → Ends grant entry stack s (ok (some (status_success, p, out)))
  unlisted :
      (p : ℕ) (out : Tasks)
      → s.threads ≢ []
      → grant (s.heap.requests + 6) ≡ false
      → out.threads ≡ s.threads
      → out.nb_threads ≡ s.nb_threads + 1
      → out.thread_id ≡ s.thread_id + 1
      → Ends grant entry stack s (ok (some (status_success, p, out)))
  refused :
      (status : KeStatus) (out : Tasks)
      → failed status ≡ true
      → out.threads ≡ s.threads
      → IsCounted out
      → ((x : ℕ) → IsElsewhere s.heap.requests x → out.heap.live x ≡ s.heap.live x)
      → Ends grant entry stack s (ok (some (status, 0, out)))

-- Whether the thread gets into the list.
push_cases :
    (grant : ℕ → Bool) (t : Thread) (ts : List Thread) (a : Alloc)
    → (((ts ≡ []) ⊎ (grant a.requests ≡ true)) × ((push_thread grant t ts a).0 ≡ ts ++ (t ∷ [])))
      ⊎ ((ts ≢ []) × (grant a.requests ≡ false) × ((push_thread grant t ts a).0 ≡ ts))
unfolding push_thread
push_cases grant t [] a = inl (inl refl, refl)
push_cases grant t (u ∷ us) a = elim (Bool-cases (grant a.requests)) [
  | inl y ↦
      let z : (suc a.requests == 0) ≡ false = ground arith in
      inl (inr y, rw (request_yes grant a y) (rw z refl))
  | inr n ↦ inr (λ e. ground arith, n, rw (request_no grant a n) refl)
]

module _ (raw : Regs) (entry : ℕ) (s : Tasks) (h : HasPage s) where
  abbrev user : ℕ × Bitmap
  user = get_free_page h.pages.bitmap

  init_thread_runs :
      (t : Thread)
      → init_thread raw entry t s.pages
        ≡ ok (
            some (
              status_success,
              new_thread raw entry t h.page user.0,
              record h.pages { bitmap = user.1 },
            ))
  unfolding init_thread
  init_thread_runs t =
      let nz =
        frame_nonzero h.pages.bitmap user (get_free_page-Outcome h.pages.bitmap h.bitmap)
          h.zeroth in
      rw (h.allocates) (rw nz refl)

  -- The thread before `InitThread`.
  abbrev blank_thread : ℕ → Thread
  blank_thread process = record {
    tid = s.thread_id;
    start_execution_time = 0;
    state = thread_state_init;
    process = process;
    is_user = true;
    esp0 = 0;
    ss0 = 0;
    regs = raw;
  }

  main_thread_runs :
      (grant : ℕ → Bool) (process : ℕ) (a : Alloc)
      → grant a.requests ≡ true
      → create_main_thread grant raw process entry (record s { heap = a })
        ≡ ok (
            some (
              status_success,
              suc a.requests,
              some (new_thread raw entry (blank_thread process) h.page user.0),
              record s {
                thread_id = s.thread_id + 1;
                pages = record h.pages { bitmap = user.1 };
                heap = granted 1 a;
                nb_threads = s.nb_threads + 1;
              },
            ))
  unfolding create_main_thread
  main_thread_runs grant process a y =
      let z : (suc a.requests == 0) ≡ false = ground arith in
      let pos : ((request grant a).0 == 0) ≡ false =
        ap (λ r. r.0 == 0) (request_yes grant a y) ∙ z in
      rw (pos, create_main_thread, init_thread_runs (blank_thread process))
        (rw (request_yes grant a y) refl)

  main_thread_fails :
      (grant : ℕ → Bool) (process : ℕ) (a : Alloc)
      → grant a.requests ≡ false
      → create_main_thread grant raw process entry (record s { heap = a })
        ≡ ok (some (status_alloc_failed, 0, none, record s { heap = denied a }))
  unfolding create_main_thread
  main_thread_fails grant process a n =
      let null : ((request grant a).0 == 0) ≡ true = ap (λ r. r.0 == 0) (request_no grant a n) in
      rw (null, create_main_thread, request_no grant a n) refl

module _ (grant : ℕ → Bool) (raw : Regs) (entry parent location : ℕ) (s : Tasks) (h : HasPage s)
    (sound : IsSound s.heap) (c : IsCounted s) where
  -- The part behind the allocations that were all granted.
  main_thread-Ends :
      allocate grant s.heap ≡ (status_success, held 5 s.heap.requests (granted 5 s.heap))
      → (entry == 0) ≡ false
      → Ends grant entry h.page.v_addr s (create_process grant raw entry parent location s)
  unfolding create_process clean
  main_thread-Ends e nz =
      let a5 = granted 5 s.heap in
      let n = s.heap.requests in
      elim (Bool-cases (grant a5.requests)) [
        | inl y ↦
            let r = main_thread_runs raw entry s h grant (suc n) a5 y in
            let t =
              (new_thread raw entry (blank_thread raw entry s h (suc n)) h.page
                (user raw entry s h).0).thread in
            let more = length-append s.threads (t ∷ []) in
            let a6 = granted 1 a5 in
            let seventh : a6.requests ≡ n + 6 = omega arith in
            let started : IsStarted entry h.page.v_addr (suc n) s.thread_id t = record {
              number = refl;
              owner = refl;
              state = refl;
              mode = refl;
              code = refl;
              stack_segment = refl;
              segments = (refl, refl, refl, refl);
              start = refl;
              flags = refl;
              user_stack = (refl, refl);
              zeroes = (refl, refl, refl, refl, refl);
              kernel_stack = (refl, refl);
            } in
            rw (nz, create_process)
              (rw (e, e)
                (rw r (
                  rw e (elim (push_cases grant t s.threads a6) [
                    | inl (why, pushed) ↦
                        created (suc n) t _
                          (coe 0 1 (i. (s.threads ≡ []) ⊎ (grant (seventh i) ≡ true)) why) pushed
                          started
                          (record {
                            numbered =
                                rw pushed (
                                  Numbered-append 0 s.threads t c.numbered (omega (arith, c.next)));
                            counted = rw pushed (omega (arith, c.counted, more));
                            next = rw pushed (omega (arith, c.next, more));
                          })
                    | inr (some_thread, denial, kept) ↦
                        unlisted (suc n) _ some_thread (ap grant (sym seventh) ∙ denial) kept refl
                          refl
                  ]))))
        | inr q ↦
            let r = main_thread_fails raw entry s h grant (suc n) a5 q in
            rw (nz, create_process)
              (rw (e, e)
                (rw r (
                  rw e (
                    refused status_alloc_failed _ refl refl
                      (record { numbered = c.numbered; counted = c.counted; next = c.next })
                      (λ x o.
                        clean-held s.heap sound 5 (denied a5) (omega arith)
                          (granted-Used s.heap sound 5) x o)))))
      ]

  -- The part behind the allocations of which one failed.
  refused-Ends :
      (a : Held s.heap sound (allocate grant s.heap))
      → failed a.status ≡ true
      → (entry == 0) ≡ false
      → Ends grant entry h.page.v_addr s (create_process grant raw entry parent location s)
  unfolding create_process
  refused-Ends a f nz =
      rw (nz, create_process)
        (rw a.runs (
          rw f (
            rw a.runs (
              refused a.status _ f refl
                (record { numbered = c.numbered; counted = c.counted; next = c.next })
                (λ x o. clean-held s.heap sound a.count a.heap a.few a.used x o)))))

-- When PageAlloc gives a page and leaves frame 0 in use, for a sound heap and threads that are numbered
-- by their places with counters that agree: CreateProcess ends, whatever kmalloc grants, in one of three
-- ways. It adds one thread at the end, of the new process and with the next number: in user mode, at
-- `entry`, with its stack at the end of the page 0xE0000000, the interrupts on, the registers but `ebx`
-- zero, and the kernel stack at the end of the page from PageAlloc. Or, if there are threads already
-- and the node of the list is refused, it answers success with the thread counted and not in the list,
-- so that counters and list no longer agree. Or it answers a failure and leaves the threads alone, and
-- then nothing that it allocated is still in use but, at most, the two lists of handles. In the first
-- and the last case the threads are again numbered by their places with counters that agree.
pub create_process-Ends :
    (grant : ℕ → Bool) (raw : Regs) (entry parent location : ℕ) (s : Tasks)
    → (h : HasPage s) → IsSound s.heap
    → IsCounted s
    → Ends grant entry h.page.v_addr s (create_process grant raw entry parent location s)
unfolding create_process
create_process-Ends grant raw entry parent location s h sound c =
    let a = allocate-Held grant s.heap sound in
    elim (Bool-cases (entry == 0)) [
      | inl z ↦
          rw (z, create_process) (refused status_invalid_parameter s refl refl c (λ x o. refl))
      | inr nz ↦ elim (Bool-cases (failed a.status)) [
        | inl f ↦ refused-Ends grant raw entry parent location s h sound c a f nz
        | inr g ↦ main_thread-Ends grant raw entry parent location s h sound c (a.whole g) nz
      ]
    ]
