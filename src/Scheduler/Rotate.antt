-- ===== src/Scheduler/Rotate.antt =====
-- One tick of the clock moves the processor from a thread to the next.
use lt_kernel.Prelude.{
  dec_lt, ℕ, zero, suc, ◌+◌, ◌%◌, ◌<◌, ◌≡◌, ◌≢◌, refl, sym, ap, ◌∙◌, true, false, Option, some,
  List, [], ◌∷◌, ◌==◌, if◌then◌else◌, arith, ltb, length, get_elem?, set, length-set,
  get_elem?-set_self, get_elem?-set_ne,
}
use native.Mathlib.Nat.{mod-lt, mod-eq_of_lt, mod_self}
use lt_kernel.Prelude.Result.{Result, ok}
use lt_kernel.Scheduler.{
  thread_state_running, Regs, Thread, Sched, saved_regs, save_context, thread_at, start_found,
  pm_start_thread, get_next_thread_tid, schedules,
}
use lt_kernel.Scheduler.Frame.{IsFrame, saved_regs_lem}

-- The threads are numbered by their places, from `start` on.
abbrev pub Numbered : ℕ → List Thread → Type 0
Numbered start [] = Unit {0}
Numbered start (t ∷ ts) = (t.tid ≡ start) × Numbered (suc start) ts

pub record IsFair (s : Sched) : Type 0 where
  pub numbered : Numbered 0 s.threads
  pub counted : s.nb_threads ≡ length s.threads
  pub several : 1 < s.nb_threads

Numbered-get :
    (start i : ℕ) (ts : List Thread)
    → Numbered start ts
    → i < length ts
    → (t : Thread) × (get_elem? ts i ≡ some t) × (t.tid ≡ start + i)
Numbered-get start i [] n h = absurd (omega arith)
Numbered-get start zero (t ∷ ts) n h = (t, refl, omega arith)
Numbered-get start (suc i) (t ∷ ts) n h =
    let r = Numbered-get (suc start) i ts n.1 (omega arith) in (r.0, r.1, omega arith)

Numbered-set :
    (start i : ℕ) (ts : List Thread) (t : Thread)
    → Numbered start ts
    → t.tid ≡ start + i
    → Numbered start (set ts i t)
Numbered-set start i [] t n e = tt
Numbered-set start zero (u ∷ ts) t n e = (omega arith, n.1)
Numbered-set start (suc i) (u ∷ ts) t n e = (n.0, Numbered-set (suc start) i ts t n.1 (omega arith))

several_at : (ts : List Thread) (i : ℕ) → 1 < length ts → thread_at ts i ≡ ok (get_elem? ts i)
unfolding thread_at
several_at [] i h = absurd (omega arith)
several_at (t ∷ []) i h = absurd (omega arith)
several_at (t ∷ (u ∷ ts)) i h = refl

-- The tick from the thread `i`, which it finds with the registers `regs`, to the next one.
pub record Ticked (s : Sched) (regs : Regs) (i : ℕ) (r : Result (Sched × Option Regs))
    : Type 0 where
  pub out : Sched
  pub next : Thread
  pub next_at : get_elem? s.threads ((i + 1) % s.nb_threads) ≡ some next
  pub runs : r ≡ ok (out, some next.regs)
  pub current : out.current ≡ some ((i + 1) % s.nb_threads)
  pub fair : IsFair out
  pub count : out.nb_threads ≡ s.nb_threads
  pub old : Thread
  pub old_at : get_elem? out.threads i ≡ some old
  pub old_regs : old.regs ≡ regs
  pub old_stack : (old.esp0 ≡ s.tss_esp0) × (old.ss0 ≡ s.tss_ss0 % 65536)
  pub next_stack : (out.tss_esp0 ≡ next.esp0) × (out.tss_ss0 ≡ next.ss0)
  pub others :
      (j : ℕ) → j ≢ i → j ≢ (i + 1) % s.nb_threads → get_elem? out.threads j ≡ get_elem? s.threads j

-- The place of the next thread, and that it is another one.
next_place : (i n : ℕ) → i < n → 1 < n → ((i + 1) % n < n) × ((i + 1) % n ≢ i)
next_place i n h h1 = elim (dec_lt (i + 1) n) [
  | yes l ↦
      let e : (i + 1) % n ≡ i + 1 = mod-eq_of_lt l in
      (mod-lt (i + 1) (omega arith), λ q. absurd (omega arith))
  | no l ↦
      let e : (i + 1) % n ≡ 0 = ap (λ x. x % n) (omega arith) ∙ mod_self n in
      (mod-lt (i + 1) (omega arith), λ q. absurd (omega arith))
]

-- The state behind the start of the thread `t` at the place `k`.
abbrev run_of : ℕ → Sched → Thread → Sched
run_of k s t = record s {
  threads =
      set s.threads k (record t { start_execution_time = s.clock; state = thread_state_running });
  current = some k;
  process = if t.is_user then some t.process else s.process;
  tss_esp0 = t.esp0;
  tss_ss0 = t.ss0;
}

started :
    (s : Sched) (k : ℕ) (t : Thread)
    → 1 < length s.threads
    → get_elem? s.threads k ≡ some t
    → pm_start_thread k s ≡ ok (run_of k s t, some t.regs)
unfolding pm_start_thread start_found
started s k t h e = rw (several_at s.threads k h, e) refl

ticks :
    (s : Sched) (frame : ℕ → ℕ) (sp i k : ℕ) (t u : Thread)
    → s.current ≡ some i
    → get_elem? s.threads i ≡ some t
    → (t.tid + 1) % s.nb_threads ≡ k
    → 1 < s.nb_threads
    → 1 < length s.threads
    → k ≢ i
    → get_elem? s.threads k ≡ some u
    → schedules frame sp s
      ≡ ok (
        run_of k (record s { threads = set s.threads i (save_context frame sp s t) }) u,
        some u.regs,
      )
unfolding schedules get_next_thread_tid save_context
ticks s frame sp i k t u c e q n l ne e' =
    let saved : Thread = save_context frame sp s t in
    let s1 : Sched = record s { threads = set s.threads i saved } in
    let at1 : get_elem? s1.threads k ≡ some u =
      get_elem?-set_ne s.threads saved (λ x. ne (sym x)) ∙ e' in
    let long : 1 < length s1.threads = omega (arith, length-set s.threads i saved) in
    let nz : (s.nb_threads == 0) ≡ false = ground arith in
    let m : ltb 1 s.nb_threads ≡ true = ground arith in
    let r = started s1 k u long at1 in rw (c, schedules, e, m, nz, q) r

-- A tick with any frame: the registers that are saved are those of `saved_regs`.
pub tick_saves :
    (s : Sched) (frame : ℕ → ℕ) (sp i : ℕ)
    → IsFair s
    → s.current ≡ some i
    → i < s.nb_threads
    → Ticked s (saved_regs frame sp s) i (schedules frame sp s)
unfolding save_context
tick_saves s frame sp i v c h =
    let n = s.nb_threads in
    let g = Numbered-get 0 i s.threads v.numbered (omega (arith, v.counted)) in
    let t = g.0 in
    let k = (i + 1) % n in
    let p = next_place i n h v.several in
    let saved : Thread = save_context frame sp s t in
    let s1 : Sched = record s { threads = set s.threads i saved } in
    let u = Numbered-get 0 k s.threads v.numbered (omega (arith, v.counted, p.0)) in
    let again : Thread = record u.0 {
      start_execution_time = s.clock;
      state = thread_state_running;
    } in
    let tid : (t.tid + 1) % n ≡ k = ap (λ x. (x + 1) % n) (g.2 ∙ omega arith) in
    record {
      out = run_of k s1 u.0;
      next = u.0;
      next_at = u.1;
      runs =
          ticks s frame sp i k t u.0 c g.1 tid v.several (omega (arith, v.counted, v.several)) p.1
            u.1;
      current = refl;
      fair = record {
        numbered =
            Numbered-set 0 k s1.threads again (Numbered-set 0 i s.threads saved v.numbered g.2) u.2;
        counted =
            omega (arith, v.counted, length-set s.threads i saved, length-set s1.threads k again);
        several = v.several;
      };
      count = refl;
      old = saved;
      old_at =
          get_elem?-set_ne s1.threads again p.1
          ∙ get_elem?-set_self s.threads i saved (omega (arith, v.counted));
      old_regs = refl;
      old_stack = (refl, refl);
      next_stack = (refl, refl);
      others = λ j nj nk.
          get_elem?-set_ne s1.threads again (λ e. nk (sym e))
          ∙ get_elem?-set_ne s.threads saved (λ e. nj (sym e));
    }

-- With two or more threads, numbered by their places, and the thread `i` running, for an interrupt that
-- finds the program with the registers `regs` and leaves them on the stack as the processor and
-- SAVE_REGS push them: a tick saves these registers in the thread `i`, with the kernel stack of the
-- task state, starts the next thread, `i + 1` modulo the count, with the registers it had and its own
-- kernel stack in the task state, and leaves all other threads as they were.
pub schedules-Ticked :
    (s : Sched) (regs : Regs) (frame : ℕ → ℕ) (sp i : ℕ)
    → IsFair s
    → s.current ≡ some i
    → i < s.nb_threads
    → IsFrame regs frame sp s
    → Ticked s regs i (schedules frame sp s)
schedules-Ticked s regs frame sp i v c h f =
    let t = tick_saves s frame sp i v c h in
    record {
      out = t.out;
      next = t.next;
      next_at = t.next_at;
      runs = t.runs;
      current = t.current;
      fair = t.fair;
      count = t.count;
      old = t.old;
      old_at = t.old_at;
      old_regs = t.old_regs ∙ saved_regs_lem regs frame sp s f;
      old_stack = t.old_stack;
      next_stack = t.next_stack;
      others = t.others;
    }
