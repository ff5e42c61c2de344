-- ===== src/Handles/Tests.antt =====
-- The directory calls at a directory 100 with the files 104 (a directory) and 108.
use lt_kernel.Prelude.{
  ℕ, ◌≡◌, refl, Bool, true, none, some, [], ◌∷◌, ◌==◌, if◌then◌else◌, ◌||◌, arith,
}
use lt_kernel.Prelude.Int.{pos}
use lt_kernel.Status.{status_success}
use lt_kernel.Handles.{DirHandle, Process, Kernel, find_dir, sys_open_dir}
use lt_kernel.Handles.Lookup.{Found}
use lt_kernel.Handles.Open.{DirOpened, running, sys_open_dir-DirOpened}
use lt_kernel.Handles.ReadDir.{Opened, visits, sys_read_dir-visited}

abbrev yes_always : ℕ → Bool
yes_always n = true

abbrev a_directory : ℕ → Bool
a_directory file = (file == 100) || (file == 104)

abbrev first_file : ℕ → ℕ
first_file file = if file == 100 then 104 else 0

abbrev next_file : ℕ → ℕ
next_file file = if file == 104 then 108 else 0

abbrev new_process : Process
new_process = record {
  current_directory = 100;
  dir_handle_list = none ∷ [];
  file_handle_list = none ∷ [];
}

abbrev opened_dir : DirHandle
opened_dir = record { handle = 5; dir = 100; cursor = 0 }

abbrev reading : Kernel
reading = record {
  requests = 2;
  handle_count = 9;
  process = some record new_process { dir_handle_list = some opened_dir ∷ [] };
}

reading-Found : Found 5 (some opened_dir ∷ []) opened_dir
unfolding find_dir
reading-Found = refl

reading-Opened : Opened 5 opened_dir reading
reading-Opened = record { owner = _; current = refl; found = reading-Found }

sys_open_dir-DirOpened_example :
    DirOpened
      (running yes_always a_directory first_file next_file 7 5 new_process)
      new_process
      100
      (sys_open_dir yes_always a_directory first_file next_file
        (status_success, 100)
        (running yes_always a_directory first_file next_file 7 5 new_process))
sys_open_dir-DirOpened_example =
    sys_open_dir-DirOpened yes_always a_directory first_file next_file 7 5 new_process 100 tt
      (omega arith) (omega arith) (ground arith) refl refl refl

sys_read_dir-visited_example :
    visits yes_always a_directory first_file next_file (λ n. refl) 5 3 reading
    ≡ (pos 1, 104) ∷ (pos 1, 108) ∷ (pos 0, 0) ∷ []
sys_read_dir-visited_example =
    sys_read_dir-visited yes_always a_directory first_file next_file (λ n. refl) 5 (104 ∷ 108 ∷ [])
      opened_dir reading (ground arith) (ground arith) refl reading-Opened
      (refl, ground arith, (refl, ground arith, refl))
