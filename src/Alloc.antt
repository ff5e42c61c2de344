-- ===== src/Alloc.antt =====
-- The heap as the rest of the kernel sees it (kernel/lib/kmalloc.h): `kmalloc` answers NULL (0) or a
-- new address, `kfree` gives one back. Whether a request is granted is a parameter of the code that
-- allocates; the detailed heap is the subject of Kmalloc. `double_frees` counts the calls of `kfree`
-- with memory that is not in use.
use lt_kernel.Prelude.{ℕ, zero, suc, refl, ◌<◌, ◌≡◌, Bool, true, false, ◌==◌, if◌then◌else◌}

pub record Alloc : Type 0 where
  pub requests : ℕ
  pub live : ℕ → Bool
  pub double_frees : ℕ

-- `kmalloc`: the address, 0 if `grant` says no to this request.
unfoldable pub request : (ℕ → Bool) → Alloc → ℕ × Alloc
request grant a =
    if grant a.requests
    then (
      suc a.requests,
      record a {
        requests = suc a.requests;
        live = λ x. if x == suc a.requests then true else a.live x;
      },
    )
    else (0, record a { requests = suc a.requests })

-- `if (p != NULL) kfree(p);`
unfoldable pub give_back : ℕ → Alloc → Alloc
give_back p a = if p == 0 then a else record a {
  live = λ x. if x == p then false else a.live x;
  double_frees = if a.live p then a.double_frees else suc a.double_frees;
}

-- No address above the count of the requests is in use, and NULL is not.
pub record IsSound (a : Alloc) : Type 0 where
  pub above : (x : ℕ) → a.requests < x → a.live x ≡ false
  pub null : a.live 0 ≡ false

-- The allocator after `k` requests that were granted.
abbrev pub granted : ℕ → Alloc → Alloc
granted zero a = a
granted (suc k) a =
    let b = granted k a in
    record b {
      requests = suc b.requests;
      live = λ x. if x == suc b.requests then true else b.live x;
    }

abbrev pub denied : Alloc → Alloc
denied a = record a { requests = suc a.requests }

module _ (grant : ℕ → Bool) where
  pub request_yes :
      (a : Alloc) → grant a.requests ≡ true → request grant a ≡ (suc a.requests, granted 1 a)
  unfolding request
  request_yes a h = rw h refl

  pub request_no : (a : Alloc) → grant a.requests ≡ false → request grant a ≡ (0, denied a)
  unfolding request
  request_no a h = rw h refl
