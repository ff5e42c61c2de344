-- ===== src/Paging/Mapping.antt =====
-- A page that is mapped is found, and no other page moves.
use lt_kernel.Prelude.{
  ℕ, ◌+◌, ◌*◌, ◌/◌, ◌%◌, ◌<◌, ◌≤◌, ◌≡◌, ◌≢◌, refl, sym, ap, ◌∙◌, true, false, Option, none, some,
  ◌==◌, if◌then◌else◌, arith, Bool-cases, inl, inr, ltb, bit_or,
}
use lt_kernel.Prelude.Bits.{bit_and-one}
use lt_kernel.Prelude.Result.{Result, ok, ◌>>=◌}
use lt_kernel.Paging.{
  Machine, walk, store, pte_at, flag_on, page_present, get_physical_address, page_table_entry,
  set_page_table_entry, page_writeable, add_page_to_kernel_page_directory,
}
use lt_kernel.Paging.Walk.{
  pde_of, pte_place, IsSelfMapped, walk-pte_at, load-pde_at, address_of, get_physical_address-walk,
}
use lt_kernel.Paging.Entry.{page_table_entry_lem}

-- A directory that is its own last table, and no two of its entries are for one table.
pub record IsSpace (m : Machine) : Type 0 where
  pub mapped : IsSelfMapped m
  pub separate :
      (d e : ℕ)
      → d < 1024
      → e < 1024
      → pde_of m d % 2 ≡ 1
      → pde_of m e % 2 ≡ 1
      → pde_of m d / 4096 ≡ pde_of m e / 4096
      → d ≡ e

abbrev written : Machine → ℕ → ℕ → Machine
written m p x = record m { ram = λ q. if q == p then x else m.ram q }

-- The table of `v` is not the directory.
module _ (m : Machine) (s : IsSpace m) (v : ℕ) (low : v / 0x400000 < 1023)
    (present : pde_of m (v / 0x400000) % 2 ≡ 1) (x : ℕ) where
  abbrev m' : Machine
  m' = written m (pte_place m v) x

  not_directory : (d : ℕ) → d < 1024 → m.cr3 + 4 * d ≢ pte_place m v
  not_directory d h e =
      let a = s.mapped.aligned in
      let b = s.mapped.self in
      let f : pde_of m 1023 / 4096 ≡ pde_of m (v / 0x400000) / 4096 = omega arith in
      let g = s.separate 1023 (v / 0x400000) (omega arith) (omega arith) s.mapped.here present f in
      absurd (omega arith)

  pde_of-written : (d : ℕ) → d < 1024 → pde_of m' d ≡ pde_of m d
  pde_of-written d h =
      let n = not_directory d h in
      let t : (m.cr3 + 4 * d == pte_place m v) ≡ false = ground arith in rw t refl

  written-IsSpace : IsSpace m'
  written-IsSpace = record {
    mapped = record {
      aligned = s.mapped.aligned;
      self = rw (pde_of-written 1023 (omega arith)) s.mapped.self;
      here = rw (pde_of-written 1023 (omega arith)) s.mapped.here;
    };
    separate = λ d e hd he pd pe q.
        s.separate d e hd he (sym (ap (λ y. y % 2) (pde_of-written d hd)) ∙ pd)
          (sym (ap (λ y. y % 2) (pde_of-written e he)) ∙ pe)
          (ap (λ y. y / 4096) (sym (pde_of-written d hd))
            ∙ q
            ∙ ap (λ y. y / 4096) (pde_of-written e he));
  }

  -- The entries of the tables that two addresses share are those of one page.
  other_place :
      (u : ℕ)
      → u < 0x100000000
      → v < 0x100000000
      → u / 4096 ≢ v / 4096
      → pde_of m (u / 0x400000) % 2 ≡ 1
      → pte_place m u ≢ pte_place m v
  other_place u hu hv ne pu e =
      let a : u / 4096 % 1024 < 1024 = omega arith in
      let b : v / 4096 % 1024 < 1024 = omega arith in
      let f : pde_of m (u / 0x400000) / 4096 ≡ pde_of m (v / 0x400000) / 4096 = omega arith in
      let g = s.separate (u / 0x400000) (v / 0x400000) (omega arith) (omega arith) pu present f in
      let k : u / 4096 % 1024 ≡ v / 4096 % 1024 = omega arith in ne (omega arith)

  walk-written_other :
      (u : ℕ) → u < 0x100000000 → v < 0x100000000 → u / 4096 ≢ v / 4096 → walk m' u ≡ walk m u
  unfolding walk
  walk-written_other u hu hv ne =
      let d = pde_of-written (u / 0x400000) (omega arith) in
      elim (Bool-cases (pde_of m (u / 0x400000) % 2 == 0)) [
        | inl e ↦ ground (arith, d)
        | inr e ↦
            let o = other_place u hu hv ne (ground arith) in
            let t : (pte_place m u == pte_place m v) ≡ false = ground arith in
            let q : m'.ram (pde_of m' (u / 0x400000) / 4096 * 4096 + 4 * (u / 4096 % 1024))
                ≡ m.ram (pte_place m u) =
              rw (d, t) refl in
            ground (arith, d, q)
      ]

  walk-written_self : x % 2 ≡ 1 → walk m' v ≡ some (x / 4096 * 4096 + v % 4096)
  unfolding walk
  walk-written_self hx =
      let d = pde_of-written (v / 0x400000) (omega arith) in
      let t : (pte_place m v == pte_place m v) ≡ true = ground arith in
      let q : m'.ram (pde_of m' (v / 0x400000) / 4096 * 4096 + 4 * (v / 4096 % 1024)) ≡ x =
        rw (d, t) refl in
      ground (arith, d, q)

-- What the entry that is written for `v` does to the translation.
pub record IsPlaced (m : Machine) (v p : ℕ) (out : Machine) : Type 0 where
  pub space : IsSpace out
  pub found : get_physical_address v out ≡ ok (p / 4096 * 4096 + v % 4096)
  pub others :
      (u : ℕ)
      → u < 0x100000000
      → u / 4096 ≢ v / 4096
      → get_physical_address u out ≡ get_physical_address u m

module _ (m : Machine) (v p flags : ℕ) (s : IsSpace m) (low : v / 0x400000 < 1023)
    (present : pde_of m (v / 0x400000) % 2 ≡ 1) where
  abbrev pub placed : Machine
  placed = written m (pte_place m v) (page_table_entry p flags)

  pub set_page_table_entry-placed : set_page_table_entry (pte_at v) p flags m ≡ ok placed
  unfolding store
  set_page_table_entry-placed = rw (walk-pte_at m s.mapped v (omega arith) present, store) refl

  pub placed-IsPlaced : flag_on flags 1 ≡ true → IsPlaced m v p placed
  placed-IsPlaced on =
      let x = page_table_entry p flags in
      let e = page_table_entry_lem p flags in
      let odd : x % 2 ≡ 1 = e.1 ∙ rw on refl in
      let is = written-IsSpace m s v low present x in
      record {
        space = is;
        found =
            get_physical_address-walk placed v is.mapped (omega arith)
            ∙ ap (λ w. ok (address_of w)) (walk-written_self m s v low present x odd)
            ∙ ap (λ w. ok (w * 4096 + v % 4096)) e.0;
        others = λ u hu ne.
            get_physical_address-walk placed u is.mapped hu
            ∙ ap (λ w. ok (address_of w))
                (walk-written_other m s v low present x u hu (omega arith) ne)
            ∙ sym (get_physical_address-walk m u s.mapped hu);
      }

  pub present-on : flag_on (pde_of m (v / 0x400000)) page_present ≡ true
  present-on = ground (arith, bit_and-one (pde_of m (v / 0x400000)))

-- What the mapping of `v` to the frame of `p` does.
pub record Mapped (m : Machine) (v p : ℕ) (r : Result (Option Machine)) : Type 0 where
  pub out : Machine
  pub runs : r ≡ ok (some out)
  pub space : IsSpace out
  pub found : get_physical_address v out ≡ ok (p / 4096 * 4096 + v % 4096)
  pub others :
      (u : ℕ)
      → u < 0x100000000
      → u / 4096 ≢ v / 4096
      → get_physical_address u out ≡ get_physical_address u m

-- The part of `AddPageToKernelPageDirectory` behind the read of the directory's entry.
abbrev map_found : Machine → ℕ → ℕ → ℕ → Result (Option Machine)
map_found m v p pde = elim (flag_on pde page_present) [
  | false ↦ ok none
  | true ↦
      set_page_table_entry (pte_at v) p (bit_or page_present page_writeable) m
      >>= (λ m'. ok (some m'))
]

-- In an address space whose directory is its own last table and has no table twice, for an address `v`
-- of the kernel, at most 0x40000000, that has a table: `AddPageToKernelPageDirectory` does not stop the
-- machine, GetPhysicalAddress then answers the frame of `p` with the offset of `v`, answers for all
-- other pages as before, and the directory has the same two properties again.
pub add_page_to_kernel-Mapped :
    (m : Machine) (v p : ℕ)
    → IsSpace m
    → v ≤ 0x40000000
    → pde_of m (v / 0x400000) % 2 ≡ 1
    → Mapped m v p (add_page_to_kernel_page_directory v p m)
unfolding add_page_to_kernel_page_directory
add_page_to_kernel-Mapped m v p s h present =
    let low : v / 0x400000 < 1023 = omega arith in
    let m1 = placed m v p 3 s low present in
    let is = placed-IsPlaced m v p 3 s low present refl in
    let k : ltb 0x40000000 v ≡ false = ground arith in
    let found : map_found m v p (pde_of m (v / 0x400000)) ≡ ok (some m1) =
      rw (present-on m v p 3 s low present, map_found)
        (ap (λ r. r >>= (λ m'. ok (some m')))
          (set_page_table_entry-placed m v p 3 s low present)) in
    record {
      out = m1;
      runs =
          rw (k, add_page_to_kernel_page_directory)
            (ap (λ r. r >>= map_found m v p) (load-pde_at m s.mapped v (omega arith)) ∙ found);
      space = is.space;
      found = is.found;
      others = is.others;
    }
