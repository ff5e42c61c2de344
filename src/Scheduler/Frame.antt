-- ===== src/Scheduler/Frame.antt =====
-- What lies on the stack when `Schedules` reads it: the words that the processor pushes for an
-- interrupt, those of `SAVE_REGS` in kernel/init/int.asm, and the call of `clock_isr`.
use lt_kernel.Prelude.{
  ℕ, ◌+◌, ◌*◌, ◌<◌, ◌≡◌, refl, inl, inr, some, List, [], ◌∷◌, ◌==◌, if◌then◌else◌, arith, get_elem?,
  Bool-cases,
}
use lt_kernel.Prelude.Words.{u16}
use lt_kernel.Scheduler.{Regs, Sched, k_code_seg_selector, saved_regs}

-- A segment register on the stack: the upper half of its word is not its own.
abbrev pub pushed : ℕ → ℕ → ℕ
pushed segment upper = segment + 0x10000 * upper

-- The stack from the last push on, for a program that an interrupt finds with registers. `other` holds
-- what belongs to no register: 0 is the frame pointer and 1 the return address of `clock_isr`, 9 the
-- stack pointer that `pushad` pushes, the others are upper halves. The processor pushes first: `ss` and
-- `esp` if the program is not the kernel, `eflags`, `cs` and `eip`; then `pushad` pushes eax, ecx, edx,
-- ebx, esp, ebp, esi and edi; then come ds, es, fs and gs.
abbrev pub interrupt_stack : Regs → (ℕ → ℕ) → List ℕ
interrupt_stack r other =
    other 0
    ∷ other 1
    ∷ pushed r.gs (other 2)
    ∷ pushed r.fs (other 3)
    ∷ pushed r.es (other 4)
    ∷ pushed r.ds (other 5)
    ∷ r.edi
    ∷ r.esi
    ∷ r.ebp
    ∷ other 9
    ∷ r.ebx
    ∷ r.edx
    ∷ r.ecx
    ∷ r.eax
    ∷ r.eip
    ∷ pushed r.cs (other 15)
    ∷ r.eflags
    ∷ (if r.cs == k_code_seg_selector then [] else r.esp ∷ pushed r.ss (other 18) ∷ [])

-- The interrupt found the registers `r`: its stack is at `sp`, with the words `frame`. The kernel's own
-- stack goes on behind the 17 words, in the stack segment of the task state.
pub record IsFrame (r : Regs) (frame : ℕ → ℕ) (sp : ℕ) (s : Sched) : Type 0 where
  pub other : ℕ → ℕ
  pub word : (i x : ℕ) → get_elem? (interrupt_stack r other) i ≡ some x → frame i ≡ x
  pub narrow_code : (r.cs < 65536) × (r.ss < 65536)
  pub narrow_data : (r.ds < 65536) × (r.es < 65536) × (r.fs < 65536) × (r.gs < 65536)
  pub kernel : r.cs ≡ k_code_seg_selector → (r.esp ≡ sp + 17 * 4) × (r.ss ≡ s.tss_ss0)

segment : (w x up : ℕ) → w ≡ pushed x up → x < 65536 → u16 w ≡ x
segment w x up e h = omega arith

saved_stack :
    (r : Regs) (frame : ℕ → ℕ) (sp : ℕ) (s : Sched)
    → (v : IsFrame r frame sp s)
    → ((if r.cs == k_code_seg_selector then u16 s.tss_ss0 else u16 (frame 18)) ≡ r.ss)
      × ((if r.cs == k_code_seg_selector then sp + 68 else frame 17) ≡ r.esp)
saved_stack r frame sp s v = elim (Bool-cases (r.cs == k_code_seg_selector)) [
  | inl y ↦
      let k = v.kernel (ground arith) in let n = v.narrow_code.1 in rw y (omega arith, omega arith)
  | inr n ↦
      let a : frame 17 ≡ r.esp = v.word 17 r.esp (rw n refl) in
      let b : frame 18 ≡ pushed r.ss (v.other 18) = v.word 18 _ (rw n refl) in
      let c = v.narrow_code.1 in rw n (omega arith, a)
]

-- What `Schedules` saves are the registers that the interrupt found.
pub saved_regs_lem :
    (r : Regs) (frame : ℕ → ℕ) (sp : ℕ) (s : Sched)
    → IsFrame r frame sp s
    → saved_regs frame sp s ≡ r
saved_regs_lem r frame sp s v =
    let cs = segment (frame 15) r.cs (v.other 15) (v.word 15 _ refl) v.narrow_code.0 in
    let ds = segment (frame 5) r.ds (v.other 5) (v.word 5 _ refl) v.narrow_data.0 in
    let es = segment (frame 4) r.es (v.other 4) (v.word 4 _ refl) v.narrow_data.1 in
    let fs = segment (frame 3) r.fs (v.other 3) (v.word 3 _ refl) v.narrow_data.2 in
    let gs = segment (frame 2) r.gs (v.other 2) (v.word 2 _ refl) v.narrow_data.3 in
    let st = saved_stack r frame sp s v in
    rw (cs, ds, es, fs, gs, st.0, st.1)
      (rw (v.word 16 _ refl, v.word 14 _ refl, v.word 13 _ refl, v.word 12 _ refl)
        (rw (v.word 11 _ refl, v.word 10 _ refl, v.word 8 _ refl, v.word 7 _ refl, v.word 6 _ refl)
          refl))
