-- ===== src/Ata/Sectors.antt =====
-- `AtaWrite` writes consecutive sectors from consecutive places of the buffer.
use lt_kernel.Prelude.{
  ℕ, zero, suc, ◌+◌, ◌-◌, ◌*◌, ◌/◌, ◌%◌, ◌<◌, ◌≤◌, ◌≡◌, refl, ap, ◌∙◌, true, false, some, List,
  ◌==◌, if◌then◌else◌, arith, ltb, leb, length, get_elem?, dec_lt,
}
use lt_kernel.Prelude.Int.{ℤ, pos}
use lt_kernel.Ata.{Write, write_sectors, ata_write}

abbrev pub write_at : ℕ → ℕ → ℕ → Write
write_at lba from size = record { lba = lba; from = from; size = size }

same_write :
    (a b c a' b' c' : ℕ)
    → a ≡ a'
    → b ≡ b'
    → c ≡ c'
    → some (write_at a b c) ≡ some (write_at a' b' c')
same_write a b c a' b' c' p q r = rw (p, q, r) refl

get_elem?-write_sectors :
    (n lba from size k : ℕ)
    → 512 * n < size + 512
    → k < n
    → get_elem? (write_sectors n lba from size) k
      ≡ some (write_at (lba + k) (from + 512 * k) (size - 512 * k))
unfolding write_sectors
get_elem?-write_sectors zero lba from size k h l = absurd (omega arith)
get_elem?-write_sectors (suc n) lba from size zero h l =
    let z : (size == 0) ≡ false = ground arith in
    let e =
      same_write lba from size (lba + 0) (from + 512 * 0) (size - 512 * 0) (omega arith)
        (omega arith) (omega arith) in
    elim (dec_lt size 512) [
      | yes s ↦ let b : leb 512 size ≡ false = ground arith in rw (z, b) e
      | no s ↦ let b : leb 512 size ≡ true = ground arith in rw (z, b) e
    ]
get_elem?-write_sectors (suc n) lba from size (suc k) h l =
    let z : (size == 0) ≡ false = ground arith in
    let b : leb 512 size ≡ true = ground arith in
    rw (z, b)
      (get_elem?-write_sectors n (suc lba) (from + 512) (size - 512) k (omega arith) (omega arith)
        ∙ same_write (suc lba + k) (from + 512 + 512 * k) (size - 512 - 512 * k) (lba + suc k)
            (from + 512 * suc k) (size - 512 * suc k) (omega arith) (omega arith) (omega arith))

length-write_sectors :
    (n lba from size : ℕ) → 512 * n < size + 512 → length (write_sectors n lba from size) ≡ n
unfolding write_sectors
length-write_sectors zero lba from size h = refl
length-write_sectors (suc zero) lba from size h =
    let z : (size == 0) ≡ false = ground arith in
    elim (dec_lt size 512) [
      | yes s ↦ let b : leb 512 size ≡ false = ground arith in rw (z, b) refl
      | no s ↦ let b : leb 512 size ≡ true = ground arith in rw (z, b) refl
    ]
length-write_sectors (suc (suc n)) lba from size h =
    let z : (size == 0) ≡ false = ground arith in
    let b : leb 512 size ≡ true = ground arith in
    rw (z, b)
      (ap suc (length-write_sectors (suc n) (suc lba) (from + 512) (size - 512) (omega arith)))

-- What a write of `size` bytes does: the count it returns, and the sectors that it writes.
pub record Written (offset size : ℕ) (r : ℤ × List Write) : Type 0 where
  pub count : ℕ
  pub positive : 0 < count
  pub whole : 512 ≤ size → count ≡ size / 512
  pub returned : r.0 ≡ pos count
  pub number : length r.1 ≡ count
  pub sector :
      (k : ℕ)
      → k < count
      → get_elem? r.1 k ≡ some (write_at (offset / 512 + k) (512 * k) (size - 512 * k))

count_of :
    (size : ℕ)
    → 0 < size
    → (c : ℕ) × ((if ltb 512 size then size / 512 else 1) ≡ c)
      × (0 < c)
      × (512 * c < size + 512)
      × (512 ≤ size → c ≡ size / 512)
count_of size h = elim (dec_lt 512 size) [
  | yes l ↦
      let b : ltb 512 size ≡ true = ground arith in
      (size / 512, rw b refl, omega arith, omega arith, λ _. refl)
  | no l ↦
      let b : ltb 512 size ≡ false = ground arith in
      (1, rw b refl, omega arith, omega arith, λ g. omega arith)
]

-- From an offset that is a multiple of 512, and for a size above 0: `AtaWrite` returns the number of
-- sectors that it writes, which is `size / 512`, rounded down, for a size of a sector or more; the
-- sector `k` of them is `offset / 512 + k`, written from the byte `512 * k` of the buffer, with the
-- size that is left there.
pub ata_write-Written :
    (offset size : ℕ) → offset % 512 ≡ 0 → 0 < size → Written offset size (ata_write offset size)
unfolding ata_write
ata_write-Written offset size aligned h =
    let c = count_of size h in
    let n = c.0 in
    let z : (offset % 512 == 0) ≡ true = ground arith in
    let e : ata_write offset size ≡ (pos n, write_sectors n (offset / 512) 0 size) =
      rw (z, c.1) refl in
    record {
      count = n;
      positive = c.2;
      whole = c.4;
      returned = ap (λ r. r.0) e;
      number = ap (λ r. length r.1) e ∙ length-write_sectors n (offset / 512) 0 size c.3;
      sector = λ k l.
          ap (λ r. get_elem? r.1 k) e
          ∙ get_elem?-write_sectors n (offset / 512) 0 size k c.3 l
          ∙ same_write (offset / 512 + k) (0 + 512 * k) (size - 512 * k) (offset / 512 + k)
              (512 * k) (size - 512 * k) refl (omega arith) refl;
    }
