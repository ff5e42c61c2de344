-- ===== src/Tasks/Lists.antt =====
-- What the allocations of CreateProcess leave behind when they are cleaned up.
use lt_kernel.Prelude.{
  ℕ, zero, suc, ◌+◌, ◌<◌, ◌≡◌, ◌≢◌, refl, Bool, true, false, ◌==◌, if◌then◌else◌, ltb, leb, ◌&&◌,
  arith, Bool-cases, not_both, inl, inr,
}
use lt_kernel.Status.{KeStatus, status_success, status_failure, status_alloc_failed, failed}
use lt_kernel.Alloc.{Alloc, give_back, IsSound, granted, denied, request_yes, request_no}
use lt_kernel.Tasks.{Locals, allocate, clean}

-- The addresses of the two lists of handles, for an allocator with `n` requests.
abbrev pub IsElsewhere : ℕ → ℕ → Type 0
IsElsewhere n x = (x ≢ n + 4) × (x ≢ n + 5)

-- The locals when the first `k` of the requests are granted.
abbrev pub held : ℕ → ℕ → Alloc → Locals
held k n h = record {
  process = if ltb 0 k then suc n else 0;
  children = if ltb 1 k then suc (suc n) else 0;
  threads = if ltb 2 k then suc (suc (suc n)) else 0;
  files = if ltb 3 k then suc (suc (suc (suc n))) else 0;
  dirs = if ltb 4 k then suc (suc (suc (suc (suc n)))) else 0;
  heap = h;
}

module _ (a : Alloc) (s : IsSound a) where
  -- What is in use after `k` grants, away from the lists of handles.
  abbrev pub Used : ℕ → Alloc → Type 0
  Used k h =
      (x : ℕ)
      → IsElsewhere a.requests x
      → h.live x ≡ (if ltb a.requests x && leb x (a.requests + k) then true else a.live x)

  pub clean-held :
      (k : ℕ) (h : Alloc)
      → k < 6
      → Used k h
      → (x : ℕ) → IsElsewhere a.requests x
      → (clean (held k a.requests h) h).live x ≡ a.live x
  unfolding clean give_back
  clean-held zero h l e x o = ground (arith, e x o)
  clean-held (suc zero) h l e x o = ground (arith, e x o, s.above x)
  clean-held (suc (suc zero)) h l e x o = ground (arith, e x o, s.above x)
  clean-held (suc (suc (suc zero))) h l e x o = ground (arith, e x o, s.above x)
  clean-held (suc (suc (suc (suc zero)))) h l e x o = ground (arith, e x o, s.above x)
  clean-held (suc (suc (suc (suc (suc zero))))) h l e x o = ground (arith, e x o, s.above x)
  clean-held (suc (suc (suc (suc (suc (suc k)))))) h l e x o = absurd (omega arith)

  granted_requests : (k : ℕ) → (granted k a).requests ≡ a.requests + k
  granted_requests zero = omega arith
  granted_requests (suc k) = omega (arith, granted_requests k)

  pub granted-Used : (k : ℕ) → Used k (granted k a)
  granted-Used zero x o = ground arith
  granted-Used (suc k) x o = ground (arith, granted-Used k x o, granted_requests k)

-- How far the allocations come.
pub record Held (a : Alloc) (s : IsSound a) (r : KeStatus × Locals) : Type 0 where
  pub count : ℕ
  pub status : KeStatus
  pub heap : Alloc
  pub runs : r ≡ (status, held count a.requests heap)
  pub few : count < 6
  pub used : Used a s count heap
  pub whole : failed status ≡ false → r ≡ (status_success, held 5 a.requests (granted 5 a))

abbrev fails :
    (a : Alloc) (s : IsSound a) (k : ℕ) (t : KeStatus) (r : KeStatus × Locals)
    → k < 6
    → failed t ≡ true
    → r ≡ (t, held k a.requests (denied (granted k a)))
    → Held a s r
fails a s k t r l f e = record {
  count = k;
  status = t;
  heap = denied (granted k a);
  runs = e;
  few = l;
  used = granted-Used a s k;
  whole = λ g. absurd (not_both (failed t) f g);
}

module _ (grant : ℕ → Bool) (a : Alloc) (s : IsSound a) where
  pub allocate-Held : Held a s (allocate grant a)
  unfolding allocate
  allocate-Held =
      let n = a.requests in
      let z1 : (suc n == 0) ≡ false = ground arith in
      let z2 : (suc (suc n) == 0) ≡ false = ground arith in
      let z3 : (suc (suc (suc n)) == 0) ≡ false = ground arith in
      let z4 : (suc (suc (suc (suc n))) == 0) ≡ false = ground arith in
      let z5 : (suc (suc (suc (suc (suc n)))) == 0) ≡ false = ground arith in
      elim (Bool-cases (grant n)) [
        | inr n0 ↦
            fails a s 0 status_alloc_failed _ (omega arith) refl (simp (request_no grant a n0))
        | inl y0 ↦ elim (Bool-cases (grant (suc n))) [
          | inr n1 ↦
              fails a s 1 status_failure _ (omega arith) refl
                (simp (request_yes grant a y0, request_no grant (granted 1 a) n1, z1) refl)
          | inl y1 ↦ elim (Bool-cases (grant (suc (suc n)))) [
            | inr n2 ↦ fails a s 2 status_failure _ (omega arith) refl (
                simp
                  (
                    request_yes grant a y0,
                    request_yes grant (granted 1 a) y1,
                    request_no grant (granted 2 a) n2,
                    z1,
                    z2,
                  )
                  refl)
            | inl y2 ↦ elim (Bool-cases (grant (suc (suc (suc n))))) [
              | inr n3 ↦ fails a s 3 status_failure _ (omega arith) refl (
                  simp
                    (
                      request_yes grant a y0,
                      request_yes grant (granted 1 a) y1,
                      request_yes grant (granted 2 a) y2,
                      request_no grant (granted 3 a) n3,
                      z1,
                      z2,
                      z3,
                    )
                    refl)
              | inl y3 ↦ elim (Bool-cases (grant (suc (suc (suc (suc n)))))) [
                | inr n4 ↦ fails a s 4 status_failure _ (omega arith) refl (
                    simp
                      (
                        request_yes grant a y0,
                        request_yes grant (granted 1 a) y1,
                        request_yes grant (granted 2 a) y2,
                        request_yes grant (granted 3 a) y3,
                        request_no grant (granted 4 a) n4,
                        z1,
                        z2,
                        z3,
                        z4,
                      )
                      refl)
                | inl y4 ↦
                    let e : allocate grant a ≡ (status_success, held 5 n (granted 5 a)) =
                      simp
                        (
                          request_yes grant a y0,
                          request_yes grant (granted 1 a) y1,
                          request_yes grant (granted 2 a) y2,
                          request_yes grant (granted 3 a) y3,
                          request_yes grant (granted 4 a) y4,
                          z1,
                          z2,
                          z3,
                          z4,
                          z5,
                        )
                        refl in
                    record {
                      count = 5;
                      status = status_success;
                      heap = granted 5 a;
                      runs = e;
                      few = omega arith;
                      used = granted-Used a s 5;
                      whole = λ f. e;
                    }
              ]
            ]
          ]
        ]
      ]
