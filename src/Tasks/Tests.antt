-- ===== src/Tasks/Tests.antt =====
-- The first process, whose thread needs no node in the list.
use lt_kernel.Prelude.{
  ◌≡◌, refl, true, false, not, none, [], ◌∷◌, ◌==◌, if◌then◌else◌, arith, not_both, ◌∙◌, ap, sym,
}
use lt_kernel.Prelude.Words.{test_bit}
use lt_kernel.Frames.{Bitmap, IsBitmap, is_used}
use lt_kernel.Paging.{Machine}
use lt_kernel.Paging.Mapping.{IsSpace}
use lt_kernel.PageHeap.{MemPageBlock}
use lt_kernel.PageHeap.Allocate.{page_alloc-Allocated}
use lt_kernel.Scheduler.{Regs}
use lt_kernel.Tasks.{Tasks, create_process}
use lt_kernel.Tasks.Create.{HasPage, Ends, create_process-Ends}

abbrev table : Machine
table = record {
  ram = λ q. if q == 0x10000 then 0x20003 else if q == 0x10ffc then 0x10003 else 0;
  cr3 = 0x10000;
}

table-IsSpace : IsSpace table
table-IsSpace = record {
  mapped = record { aligned = refl; self = refl; here = refl };
  separate = λ d e hd he pd pe q. ground arith;
}

abbrev frames : Bitmap
frames = 7 ∷ 0 ∷ []

frames-IsBitmap : IsBitmap frames
frames-IsBitmap = omega arith

frames_0 : is_used frames 0 ≡ true
unfolding is_used test_bit
frames_0 = refl

frames_5 : is_used frames 5 ≡ false
unfolding is_used test_bit
frames_5 = refl

abbrev free_block : MemPageBlock
free_block = record { available = true; v_page_addr = 0x3000 }

abbrev zero_regs : Regs
zero_regs = record {
  eflags = 0;
  cs = 0;
  eip = 0;
  eax = 0;
  ecx = 0;
  edx = 0;
  ebx = 0;
  ebp = 0;
  esi = 0;
  edi = 0;
  ds = 0;
  es = 0;
  fs = 0;
  gs = 0;
  ss = 0;
  esp = 0;
}

abbrev no_tasks : Tasks
no_tasks = record {
  heap = record { requests = 0; live = λ x. false; double_frees = 0 };
  pages = record { blocks = free_block ∷ []; bitmap = frames; machine = table };
  threads = [];
  processes = λ x. none;
  thread_id = 0;
  nb_threads = 0;
  current_process_id = 0;
}

no_tasks-HasPage : HasPage no_tasks
no_tasks-HasPage =
    let a =
      page_alloc-Allocated no_tasks.pages [] [] free_block 5 refl tt refl frames-IsBitmap
        (omega arith) frames_5 frames_0 (omega arith) (omega arith) refl table-IsSpace refl in
    record {
      page = a.page;
      pages = a.heap;
      allocates = a.runs;
      bitmap = a.is_bitmap;
      zeroth =
          a.frames 0
            (λ e. not_both (is_used frames 0) frames_0 (ap (is_used frames) (sym e) ∙ a.was_free))
          ∙ frames_0;
    }

create_process-Ends_example :
    Ends
      (λ n. not (n == 6))
      0x40000000
      no_tasks-HasPage.page.v_addr
      no_tasks
      (create_process (λ n. not (n == 6)) zero_regs 0x40000000 0 0 no_tasks)
create_process-Ends_example =
    create_process-Ends (λ n. not (n == 6)) zero_regs 0x40000000 0 0 no_tasks no_tasks-HasPage
      (record { above = λ x h. refl; null = refl })
      (record { numbered = tt; counted = refl; next = refl })
