-- ===== src/Scheduler/Fair.antt =====
-- Ticks one after the other: every thread gets its turn, and finds its registers.
use lt_kernel.Prelude.{
  dec_lt, ℕ, zero, suc, ◌+◌, ◌-◌, ◌%◌, ◌<◌, ◌≤◌, ◌≡◌, ◌≢◌, refl, sym, ap, ◌∙◌, ◌⊎◌, inl, inr,
  Option, none, some, arith, get_elem?,
}
use native.Mathlib.Nat.{mod-lt, mod-eq_of_lt, mod-eq-sub-mod, mod-add-mod}
use lt_kernel.Prelude.Result.{Result, ok, ◌>>=◌}
use lt_kernel.Scheduler.{Regs, Thread, Sched, schedules}
use lt_kernel.Scheduler.Rotate.{IsFair, tick_saves}
use lt_kernel.Scheduler.Frame.{IsFrame, saved_regs_lem}

-- `m` ticks with the interrupt frames of a sequence, and the registers that the last one started.
abbrev pub run : ℕ → (ℕ → ℕ → ℕ) → (ℕ → ℕ) → Sched → Option Regs → Result (Sched × Option Regs)
run zero frame sp s started = ok (s, started)
run (suc m) frame sp s started = do r ← schedules (frame m) (sp m) s; run m frame sp r.0 r.1

mod_sum :
    (i e n : ℕ)
    → i < n
    → e < n
    → (((i + e) % n ≡ i + e) × (i + e < n)) ⊎ (((i + e) % n + n ≡ i + e) × (n ≤ i + e))
mod_sum i e n hi he = elim (dec_lt (i + e) n) [
  | yes l ↦ inl (mod-eq_of_lt l, l)
  | no l ↦
      let a : (i + e) % n ≡ (i + e - n) % n = mod-eq-sub-mod (omega arith) in
      let b : (i + e - n) % n ≡ i + e - n = mod-eq_of_lt (omega arith) in
      inr (omega arith, omega arith)
]

step_place : (i e n : ℕ) → ((i + e) % n + 1) % n ≡ (i + suc e) % n
step_place i e n = mod-add-mod (i + e) n 1 ∙ ap (λ x. x % n) (omega arith)

-- The state after `m` ticks from the thread `i`.
pub record After (s : Sched) (i m : ℕ) (r : Result (Sched × Option Regs)) : Type 0 where
  pub out : Sched
  pub last : Option Regs
  pub runs : r ≡ ok (out, last)
  pub current : out.current ≡ some ((i + m) % s.nb_threads)
  pub fair : IsFair out

run-After :
    (m i : ℕ) (frame : ℕ → ℕ → ℕ) (sp : ℕ → ℕ) (s : Sched) (started : Option Regs)
    → IsFair s
    → i < s.nb_threads
    → s.current ≡ some i
    → After s i m (run m frame sp s started)
run-After zero i frame sp s started v h c = record {
  out = s;
  last = started;
  runs = refl;
  current = c ∙ ap some (sym (ap (λ x. x % s.nb_threads) (omega arith) ∙ mod-eq_of_lt h));
  fair = v;
}
run-After (suc m) i frame sp s started v h c =
    let t = tick_saves s (frame m) (sp m) i v c h in
    let n = s.nb_threads in
    let place : (i + 1) % n < t.out.nb_threads =
      omega (arith, mod-lt (i + 1) {m = n} (omega (arith, v.several)), t.count) in
    let r = run-After m ((i + 1) % n) frame sp t.out (some t.next.regs) t.fair place t.current in
    let at : ((i + 1) % n + m) % t.out.nb_threads ≡ (i + suc m) % n =
      ap (λ x. ((i + 1) % n + m) % x) t.count
      ∙ mod-add-mod (i + 1) n m
      ∙ ap (λ x. x % n) (omega arith) in
    record {
      out = r.out;
      last = r.last;
      runs = rw t.runs r.runs;
      current = r.current ∙ ap some at;
      fair = r.fair;
    }

-- With two or more threads, numbered by their places, and a thread `i` running: for every thread `j`
-- there is a number of ticks, below the count of the threads, after which `j` is the current thread,
-- whatever the interrupt frames are.
pub run-reaches :
    (i j : ℕ) (frame : ℕ → ℕ → ℕ) (sp : ℕ → ℕ) (s : Sched)
    → IsFair s
    → s.current ≡ some i
    → i < s.nb_threads
    → j < s.nb_threads
    → (m : ℕ) × (m < s.nb_threads)
      × ((r : Sched × Option Regs) × (run m frame sp s none ≡ ok r) × (r.0.current ≡ some j))
run-reaches i j frame sp s v c hi hj =
    let n = s.nb_threads in
    elim (dec_lt j i) [
      | yes l ↦
          let m = j + n - i in
          let a = run-After m i frame sp s none v hi c in
          let e : (i + m) % n ≡ j =
            ap (λ x. x % n) (omega arith)
            ∙ mod-eq-sub-mod {n = j + n} {m = n} (omega arith)
            ∙ ap (λ x. x % n) (omega arith)
            ∙ mod-eq_of_lt hj in
          (m, omega arith, ((a.out, a.last), a.runs, a.current ∙ ap some e))
      | no l ↦
          let m = j - i in
          let a = run-After m i frame sp s none v hi c in
          let e : (i + m) % n ≡ j = ap (λ x. x % n) (omega arith) ∙ mod-eq_of_lt hj in
          (m, omega arith, ((a.out, a.last), a.runs, a.current ∙ ap some e))
    ]

elsewhere : (i e n : ℕ) → i < n → e < n → e ≢ 0 → (i + e) % n ≢ i
elsewhere i e n hi he ne q = elim (mod_sum i e n hi he) [
  | inl a ↦ ne (omega arith)
  | inr b ↦ absurd (omega arith)
]

-- The thread `i` has the registers.
abbrev Holds : Sched → ℕ → Regs → Type 0
Holds s i regs = (t : Thread) × (get_elem? s.threads i ≡ some t) × (t.regs ≡ regs)

-- A run that ends with the start of the thread `i` with the registers.
abbrev pub Resumes : ℕ → Regs → Result (Sched × Option Regs) → Type 0
Resumes i regs r = (out : Sched) × (r ≡ ok (out, some regs)) × (out.current ≡ some i)

abbrev regs_or : Regs → Option Thread → Regs
regs_or r none = r
regs_or r (some t) = t.regs

same_regs : (o : Option Thread) (t u : Thread) → o ≡ some t → o ≡ some u → t.regs ≡ u.regs
same_regs o t u e f = ap (regs_or t.regs) (sym e ∙ f)

run-Resumes :
    (d e i : ℕ) (frame : ℕ → ℕ → ℕ) (sp : ℕ → ℕ) (s : Sched) (started : Option Regs) (regs : Regs)
    → IsFair s
    → e ≢ 0
    → e + suc d ≡ s.nb_threads
    → i < s.nb_threads
    → s.current ≡ some ((i + e) % s.nb_threads)
    → Holds s i regs
    → Resumes i regs (run (suc d) frame sp s started)
run-Resumes zero e i frame sp s started regs v ne sum h c w =
    let n = s.nb_threads in
    let cur = (i + e) % n in
    let t = tick_saves s (frame 0) (sp 0) cur v c (mod-lt (i + e) {m = n} (omega arith)) in
    let k : (cur + 1) % n ≡ i =
      step_place i e n
      ∙ ap (λ x. (i + x) % n) (omega arith)
      ∙ mod-eq-sub-mod {n = i + n} {m = n} (omega arith)
      ∙ ap (λ x. x % n) (omega arith)
      ∙ mod-eq_of_lt h in
    let got : get_elem? s.threads i ≡ some t.next = ap (get_elem? s.threads) (sym k) ∙ t.next_at in
    let r : t.next.regs ≡ regs = same_regs (get_elem? s.threads i) t.next w.0 got w.1 ∙ w.2 in
    (t.out, rw t.runs (ap (λ x. ok (t.out, some x)) r), t.current ∙ ap some k)
run-Resumes (suc d) e i frame sp s started regs v ne sum h c w =
    let n = s.nb_threads in
    let cur = (i + e) % n in
    let t =
      tick_saves s (frame (suc d)) (sp (suc d)) cur v c (mod-lt (i + e) {m = n} (omega arith)) in
    let k = step_place i e n in
    let away : i ≢ (cur + 1) % n =
      λ q. elsewhere i (suc e) n h (omega arith) (ground arith) (sym (q ∙ k)) in
    let off : i ≢ cur = λ q. elsewhere i e n h (omega arith) ne (sym q) in
    let at : t.out.current ≡ some ((i + suc e) % t.out.nb_threads) =
      t.current ∙ ap some (k ∙ ap (λ x. (i + suc e) % x) (sym t.count)) in
    let rest =
      run-Resumes d (suc e) i frame sp t.out (some t.next.regs) regs t.fair (ground arith)
        (omega (arith, t.count)) (omega (arith, t.count)) at
        (w.0, t.others i off away ∙ w.1, w.2) in
    (rest.0, rw t.runs rest.1, rest.2)

-- With two or more threads, numbered by their places, and a thread `i` running, which the interrupt of
-- the first tick finds with the registers `regs` and leaves on the stack as the processor and SAVE_REGS
-- push them: after as many ticks as there are threads, whatever the interrupt frames of the later ticks
-- are, the thread `i` is started again, with the registers `regs`.
pub schedules-Resumes :
    (i m : ℕ) (regs : Regs) (frame : ℕ → ℕ → ℕ) (sp : ℕ → ℕ) (s : Sched)
    → IsFair s
    → s.current ≡ some i
    → i < s.nb_threads
    → s.nb_threads ≡ suc m
    → IsFrame regs (frame m) (sp m) s
    → Resumes i regs (run (suc m) frame sp s none)
schedules-Resumes i zero regs frame sp s v c h e f = absurd (omega (arith, v.several))
schedules-Resumes i (suc d) regs frame sp s v c h e f =
    let t = tick_saves s (frame (suc d)) (sp (suc d)) i v c h in
    let at : t.out.current ≡ some ((i + 1) % t.out.nb_threads) =
      t.current ∙ ap (λ x. some ((i + 1) % x)) (sym t.count) in
    let kept = t.old_regs ∙ saved_regs_lem regs (frame (suc d)) (sp (suc d)) s f in
    let rest =
      run-Resumes d 1 i frame sp t.out (some t.next.regs) regs t.fair (ground arith)
        (omega (arith, t.count)) (omega (arith, t.count)) at (t.old, t.old_at, kept) in
    (rest.0, rw t.runs rest.1, rest.2)
