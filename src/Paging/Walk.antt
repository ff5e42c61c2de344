-- ===== src/Paging/Walk.antt =====
-- The last entry of a directory makes its entries and those of its tables readable.
use lt_kernel.Prelude.{
  ℕ, ◌+◌, ◌*◌, ◌/◌, ◌%◌, ◌<◌, ◌≡◌, refl, false, Option, none, some, ◌==◌, arith, Bool-cases, inl,
  inr,
}
use lt_kernel.Prelude.Result.{ok}
use lt_kernel.Paging.{Machine, walk, load, pde_at, pte_at, get_physical_address}

abbrev pub pde_of : Machine → ℕ → ℕ
pde_of m d = m.ram (m.cr3 + 4 * d)

-- The directory is page aligned, and its last entry is itself.
pub record IsSelfMapped (m : Machine) : Type 0 where
  pub aligned : m.cr3 % 4096 ≡ 0
  pub self : pde_of m 1023 / 4096 * 4096 ≡ m.cr3
  pub here : pde_of m 1023 % 2 ≡ 1

-- The physical address of the entry in the table for `v`.
abbrev pub pte_place : Machine → ℕ → ℕ
pte_place m v = pde_of m (v / 0x400000) / 4096 * 4096 + 4 * (v / 4096 % 1024)

module _ (m : Machine) (s : IsSelfMapped m) (v : ℕ) (small : v < 0x100000000) where
  pub walk-pde_at : walk m (pde_at v) ≡ some (m.cr3 + 4 * (v / 0x400000))
  unfolding walk
  walk-pde_at =
      let a : pde_at v / 0x400000 ≡ 1023 = omega arith in
      let b : pde_at v / 4096 % 1024 ≡ 1023 = omega arith in
      let c : pde_at v % 4096 ≡ 4 * (v / 0x400000) = omega arith in
      let h : (pde_of m 1023 % 2 == 0) ≡ false = ground (arith, s.here) in
      rw (a, b, s.self, c, h, s.self) refl

  pub walk-pte_at : pde_of m (v / 0x400000) % 2 ≡ 1 → walk m (pte_at v) ≡ some (pte_place m v)
  unfolding walk
  walk-pte_at present =
      let a : pte_at v / 0x400000 ≡ 1023 = omega arith in
      let b : pte_at v / 4096 % 1024 ≡ v / 0x400000 = omega arith in
      let c : pte_at v % 4096 ≡ 4 * (v / 4096 % 1024) = omega arith in
      let h : (pde_of m 1023 % 2 == 0) ≡ false = ground (arith, s.here) in
      let k : (pde_of m (v / 0x400000) % 2 == 0) ≡ false = ground (arith, present) in
      rw (a, b, s.self, c, h, k) refl

  pub load-pde_at : load m (pde_at v) ≡ ok (pde_of m (v / 0x400000))
  unfolding load
  load-pde_at = rw (walk-pde_at, load) refl

  pub load-pte_at : pde_of m (v / 0x400000) % 2 ≡ 1 → load m (pte_at v) ≡ ok (m.ram (pte_place m v))
  unfolding load
  load-pte_at present = rw (walk-pte_at present, load) refl

-- What `walk` answers, with 0 for a page that is not present.
abbrev pub address_of : Option ℕ → ℕ
address_of none = 0
address_of (some p) = p

-- With a directory that is its own last table: `GetPhysicalAddress` of a 32-bit address never faults,
-- and answers the address to which the processor translates, or NULL where it does not translate.
pub get_physical_address-walk :
    (m : Machine) (v : ℕ)
    → IsSelfMapped m
    → v < 0x100000000
    → get_physical_address v m ≡ ok (address_of (walk m v))
unfolding get_physical_address walk
get_physical_address-walk m v s small = elim (Bool-cases (pde_of m (v / 0x400000) % 2 == 0)) [
  | inl e ↦ ground (arith, load-pde_at m s v small)
  | inr e ↦
      let present : pde_of m (v / 0x400000) % 2 ≡ 1 = ground arith in
      ground (arith, load-pde_at m s v small, load-pte_at m s v small present)
]
