-- ===== src/Descriptors/Gates.antt =====
-- The gates of the interrupt table.
use lt_kernel.Prelude.{
  ℕ, ◌+◌, ◌*◌, ◌/◌, ◌%◌, ◌<◌, ◌≡◌, ◌↔◌, refl, ◌∙◌, ap, Bool, true, false, ◌||◌, ◌&&◌, not, ltb,
  Option, some, List, [], ◌∷◌, ◌==◌, if◌then◌else◌, length, get_elem?, set, replicate, length-set,
  length-replicate, get_elem?-replicate, get_elem?-set_self, get_elem?-set_ne, arith, Bool-cases,
  inl, inr,
}
use lt_kernel.Prelude.Words.{u32}
use lt_kernel.Descriptors.{
  IdtDescriptor, idt_init_descriptor, cpu_gate, syscall_gate, idt_size, cpu_vectors, install,
  idt_init,
}

abbrev pub is_in : ℕ → List ℕ → Bool
is_in i [] = false
is_in i (v ∷ vs) = (i == v) || is_in i vs

if_same : {A : Type 0} (b : Bool) (a : A) → (if b then a else a) ≡ a
if_same true a = refl
if_same false a = refl

length-install :
    (isr : ℕ → ℕ) (vs : List ℕ) (t : List IdtDescriptor) → length (install isr vs t) ≡ length t
unfolding install
length-install isr [] t = refl
length-install isr (v ∷ vs) t = length-install isr vs (set t v _) ∙ length-set t v _

install-in :
    (isr : ℕ → ℕ) (vs : List ℕ) (t : List IdtDescriptor) (i : ℕ)
    → i < length t
    → get_elem? (install isr vs t) i
      ≡ (if is_in i vs then some (idt_init_descriptor (isr i) cpu_gate) else get_elem? t i)
unfolding install
install-in isr [] t i h = refl
install-in isr (v ∷ vs) t i h =
    let g = idt_init_descriptor (isr v) cpu_gate in
    let r = install-in isr vs (set t v g) i (rw (length-set t v g) h) in
    elim (Bool-cases (i == v)) [
      | inl e ↦
          let q : i ≡ v = ground arith in
          let s : get_elem? (set t v g) i ≡ some (idt_init_descriptor (isr i) cpu_gate) =
            rw q (get_elem?-set_self t v g (rw (← q) h)) in
          rw (e, r, s) (if_same (is_in i vs) (some (idt_init_descriptor (isr i) cpu_gate)))
      | inr n ↦
          let s = get_elem?-set_ne t {i = v} {j = i} g (λ q. ground arith) in
          rw n
            (r ∙ ap (λ o. if is_in i vs then some (idt_init_descriptor (isr i) cpu_gate) else o) s)
    ]

-- The vectors with a routine of their own: the exceptions 0 to 20 without the two for debugging and the
-- two reserved numbers, the security exception, the clock, the keyboard, the serial line and the system
-- calls.
abbrev pub has_routine : ℕ → Bool
has_routine i =
    (ltb i 21 && not ((i == 1) || ((i == 3) || ((i == 9) || (i == 15)))))
    || ((i == 30) || ((i == 32) || ((i == 33) || ((i == 36) || (i == 48)))))

own_vectors : (i : ℕ) → (i == 48) ≡ false → has_routine i ≡ is_in i cpu_vectors
own_vectors i n = ground arith

-- An entry for the vector `i` as the processor reads it: present, in the code segment of the kernel, a
-- trap gate for the system calls and an interrupt gate else, with the routine of the vector, and open to
-- programs for the system calls only.
pub record IsGate (default : ℕ) (isr : ℕ → ℕ) (i : ℕ) (r : Option IdtDescriptor) : Type 0 where
  pub gate : IdtDescriptor
  pub found : r ≡ some gate
  pub present : gate.type / 0x8000 % 2 ≡ 1
  pub kind : gate.type / 0x100 % 32 ≡ (if i == 48 then 15 else 14)
  pub plain : gate.type % 0x100 ≡ 0
  pub selector : gate.selector ≡ 8
  pub target :
      gate.offset0_15 + 0x10000 * gate.offset16_31 ≡ u32 (if has_routine i then isr i else default)
  pub user : (gate.type / 0x2000 % 4 ≡ 3) ↔ (i ≡ 48)

target_lem :
    (a t : ℕ)
    → (idt_init_descriptor a t).offset0_15 + 0x10000 * (idt_init_descriptor a t).offset16_31 ≡ u32 a
unfolding idt_init_descriptor
target_lem a t = omega arith

-- For each vector below 255: after IdtInit its gate is present, is for the code segment of the kernel,
-- is a 32-bit trap gate for the vector 48 and a 32-bit interrupt gate for all others, and lets a program
-- enter by `int` if and only if the vector is 48. It leads to the routine of the vector for the vectors
-- 0, 2, 4 to 8, 10 to 14, 16 to 20, 30, 32, 33, 36 and 48, and to the default routine for all others.
pub idt_init-IsGate :
    (default : ℕ) (isr : ℕ → ℕ) (i : ℕ)
    → i < 255
    → IsGate default isr i (get_elem? (idt_init default isr) i)
unfolding idt_init idt_init_descriptor
idt_init-IsGate default isr i h =
    let d = idt_init_descriptor default cpu_gate in
    let t0 = replicate idt_size d in
    let t = install isr cpu_vectors t0 in
    let g = idt_init_descriptor (isr 48) syscall_gate in
    let n0 : i < length t0 = rw (length-replicate idt_size d) h in
    elim (Bool-cases (i == 48)) [
      | inl e ↦
          let q : i ≡ 48 = ground arith in
          record {
            gate = g;
            found =
                rw q (
                  get_elem?-set_self t 48 g (rw (length-install isr cpu_vectors t0) (omega arith)));
            present = refl;
            kind = rw e refl;
            plain = refl;
            selector = refl;
            target = rw (e, q) (target_lem (isr 48) syscall_gate);
            user = (λ u. q, λ u. refl);
          }
      | inr n ↦
          let f =
            get_elem?-set_ne t {i = 48} {j = i} g (λ q. ground arith)
            ∙ install-in isr cpu_vectors t0 i n0
            ∙ ap
                (λ o.
                  if is_in i cpu_vectors then some (idt_init_descriptor (isr i) cpu_gate) else o)
                (get_elem?-replicate idt_size i d h) in
          elim (Bool-cases (is_in i cpu_vectors)) [
            | inl y ↦ record {
              gate = idt_init_descriptor (isr i) cpu_gate;
              found = f ∙ rw y refl;
              present = refl;
              kind = rw n refl;
              plain = refl;
              selector = refl;
              target = rw (own_vectors i n, y) (target_lem (isr i) cpu_gate);
              user = (λ u. absurd (omega arith), λ u. absurd (ground arith));
            }
            | inr y ↦ record {
              gate = d;
              found = f ∙ rw y refl;
              present = refl;
              kind = rw n refl;
              plain = refl;
              selector = refl;
              target = rw (own_vectors i n, y) (target_lem default cpu_gate);
              user = (λ u. absurd (omega arith), λ u. absurd (ground arith));
            }
          ]
    ]
