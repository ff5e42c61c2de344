-- ===== src/Paging/Entry.antt =====
-- What an entry keeps of its address, and its present bit.
use lt_kernel.Prelude.{ℕ, zero, suc, ◌/◌, ◌%◌, ◌<◌, ◌≡◌, ◌∙◌, Bool, if◌then◌else◌, arith}
use lt_kernel.Paging.{with_bit, with_flags, page_table_entry, page_directory_entry, flag_on}

-- A bit field below place 8 leaves the frame, and a bit field above place 0 the present bit.
abbrev Kept : ℕ → Bool → ℕ → Type 0
Kept i b w = (with_bit i b w / 4096 ≡ w / 4096) × (0 < i → with_bit i b w % 2 ≡ w % 2)

with_bit-Kept : (i : ℕ) (b : Bool) (w : ℕ) → i < 8 → Kept i b w
unfolding with_bit
with_bit-Kept zero b w h = (ground arith, λ l. absurd (omega arith))
with_bit-Kept (suc zero) b w h = (ground arith, λ l. ground arith)
with_bit-Kept (suc (suc zero)) b w h = (ground arith, λ l. ground arith)
with_bit-Kept (suc (suc (suc zero))) b w h = (ground arith, λ l. ground arith)
with_bit-Kept (suc (suc (suc (suc zero)))) b w h = (ground arith, λ l. ground arith)
with_bit-Kept (suc (suc (suc (suc (suc zero))))) b w h = (ground arith, λ l. ground arith)
with_bit-Kept (suc (suc (suc (suc (suc (suc zero)))))) b w h = (ground arith, λ l. ground arith)
with_bit-Kept (suc (suc (suc (suc (suc (suc (suc zero))))))) b w h =
    (ground arith, λ l. ground arith)
with_bit-Kept (suc (suc (suc (suc (suc (suc (suc (suc i)))))))) b w h = absurd (omega arith)

abbrev one_if : Bool → ℕ
one_if b = if b then 1 else 0

with_bit_lowest : (b : Bool) (w : ℕ) → with_bit 0 b w % 2 ≡ one_if b
unfolding with_bit
with_bit_lowest b w = ground arith

with_flags_lem :
    (flags w : ℕ)
    → (with_flags flags w / 4096 ≡ w / 4096) × (with_flags flags w % 2 ≡ one_if (flag_on flags 1))
unfolding with_flags
with_flags_lem flags w =
    let w0 = with_bit 0 (flag_on flags 1) w in
    let w1 = with_bit 1 (flag_on flags 2) w0 in
    let w2 = with_bit 2 (flag_on flags 4) w1 in
    let w3 = with_bit 3 (flag_on flags 8) w2 in
    let w4 = with_bit 4 (flag_on flags 16) w3 in
    let k0 = with_bit-Kept 0 (flag_on flags 1) w (omega arith) in
    let k1 = with_bit-Kept 1 (flag_on flags 2) w0 (omega arith) in
    let k2 = with_bit-Kept 2 (flag_on flags 4) w1 (omega arith) in
    let k3 = with_bit-Kept 3 (flag_on flags 8) w2 (omega arith) in
    let k4 = with_bit-Kept 4 (flag_on flags 16) w3 (omega arith) in
    let k5 = with_bit-Kept 5 (flag_on flags 32) w4 (omega arith) in
    (
      k5.0 ∙ k4.0 ∙ k3.0 ∙ k2.0 ∙ k1.0 ∙ k0.0,
      k5.1 (omega arith)
          ∙ k4.1 (omega arith)
          ∙ k3.1 (omega arith)
          ∙ k2.1 (omega arith)
          ∙ k1.1 (omega arith)
          ∙ with_bit_lowest (flag_on flags 1) w,
    )

pub page_table_entry_lem :
    (p flags : ℕ)
    → (page_table_entry p flags / 4096 ≡ p / 4096)
      × (page_table_entry p flags % 2 ≡ (if flag_on flags 1 then 1 else 0))
unfolding page_table_entry
page_table_entry_lem p flags =
    let k = with_bit-Kept 6 (flag_on flags 64) (with_flags flags p) (omega arith) in
    let f = with_flags_lem flags p in (k.0 ∙ f.0, k.1 (omega arith) ∙ f.1)

pub page_directory_entry_lem :
    (p flags : ℕ)
    → (page_directory_entry p flags / 4096 ≡ p / 4096)
      × (page_directory_entry p flags % 2 ≡ (if flag_on flags 1 then 1 else 0))
unfolding page_directory_entry
page_directory_entry_lem p flags =
    let k = with_bit-Kept 7 (flag_on flags 128) (with_flags flags p) (omega arith) in
    let f = with_flags_lem flags p in (k.0 ∙ f.0, k.1 (omega arith) ∙ f.1)
