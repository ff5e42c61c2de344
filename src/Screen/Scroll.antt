-- ===== src/Screen/Scroll.antt =====
-- `ScScrollUp` copies forward, and reads each byte before it is overwritten.
use lt_kernel.Prelude.{ℕ, zero, suc, ◌+◌, ◌≤◌, ◌≡◌, ◌∙◌, true, ◌&&◌, if◌then◌else◌, arith, ltb, leb}
use lt_kernel.Screen.{Screen, screen_ptr, screen_end_ptr, poke, scroll_loop, sc_scroll_up}

scroll_loop_lem :
    (n p : ℕ) (memory : ℕ → ℕ)
    → p + n ≤ suc screen_end_ptr
    → (x : ℕ)
    → scroll_loop n p memory x ≡ (if leb p x && ltb x (p + n) then memory (x + 160) else memory x)
unfolding scroll_loop poke
scroll_loop_lem zero p memory h x = ground arith
scroll_loop_lem (suc n) p memory h x =
    let t : ltb p 757666 ≡ true = ground arith in
    let m : ℕ → ℕ = poke p (memory (p + 160)) memory in
    rw t (scroll_loop_lem n (suc p) m (omega arith) x ∙ ground arith)

-- `ScScrollUp` replaces each byte from `SCREEN_PTR` to `SCREEN_END_PTR` by the byte one line of 160
-- bytes behind it, as it was before the call, and changes no other byte and not the cursor. So the
-- last line takes what stands behind the screen and is not cleared.
pub sc_scroll_up_lem :
    (s : Screen) (x : ℕ)
    → (sc_scroll_up s).memory x
      ≡ (if leb screen_ptr x && leb x screen_end_ptr then s.memory (x + 160) else s.memory x)
unfolding sc_scroll_up
sc_scroll_up_lem s x = scroll_loop_lem 4001 screen_ptr s.memory (omega arith) x ∙ ground arith
