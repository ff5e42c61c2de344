-- ===== src/LinkedList/Push.antt =====
-- `ListCreate` and `ListPush`.
use lt_kernel.Prelude.{
  ℕ, zero, suc, ◌<◌, ◌≡◌, ◌≢◌, refl, ◌∙◌, false, none, some, [], ◌∷◌, ◌++◌, ◌==◌, if◌then◌else◌,
  arith, length,
}
use lt_kernel.Prelude.Result.{Result, ok, ◌>>=◌}
use lt_kernel.LinkedList.{elem_of, Store, put, last_loop, link_last, list_push}
use lt_kernel.LinkedList.Chain.{
  Cells, has, Chain, nil, node, Chain-frame, not_null, load-ok, Chain-null_iff,
}

has-append :
    (x : ℕ) (cs : Cells) (fresh item : ℕ)
    → has x cs ≡ false
    → x ≢ fresh
    → has x (cs ++ (fresh, item) ∷ []) ≡ false
has-append x [] fresh item o n = ground arith
has-append x ((p, d) ∷ cs) fresh item o n = ground (arith, has-append x cs fresh item)

-- The store after a push: the list at `p` holds `cs`, and nothing outside it and `fresh` changed.
pub record Pushed (st : Store) (fresh p : ℕ) (old cs : Cells) (r : Result Store) : Type 0 where
  pub out : Store
  pub runs : r ≡ ok out
  pub chain : Chain out p cs
  pub outside : (x : ℕ) → has x old ≡ false → x ≢ fresh → out x ≡ st x

abbrev walk : ℕ → ℕ → ℕ → ℕ → Store → Result Store
walk fuel fresh p item st = last_loop fuel st p >>= λ last. link_last last fresh item st

module _ (st : Store) (fresh item : ℕ) (ne : fresh ≢ 0) (unused : st fresh ≡ none) where
  -- The last node gets the new one behind it.
  link-Pushed :
      (p r d : ℕ)
      → p ≢ 0
      → st p ≡ some (elem_of r 0 d)
      → Pushed st fresh p ((p, d) ∷ []) ((p, d) ∷ (fresh, item) ∷ []) (link_last p fresh item st)
  unfolding link_last put
  link-Pushed p r d np h =
      let apart : fresh ≢ p = λ e. ground (arith, unused, h) in
      record {
        out = put (put st p (some (elem_of r fresh d))) fresh (some (elem_of p 0 item));
        runs = rw (load-ok st p _ np h, not_null fresh ne);
        chain =
            node {q = fresh} {r = r} np (ground arith) (ground arith)
              (node {q = 0} {r = p} ne (ground arith) refl nil);
        outside = λ x o n. ground arith;
      }

  walk-Pushed :
      (fuel : ℕ) {p : ℕ} {d : ℕ} {cs : Cells} (q r : ℕ)
      → p ≢ 0
      → st p ≡ some (elem_of r q d)
      → has p cs ≡ false
      → Chain st q cs
      → length cs < fuel
      → Pushed st fresh p
          ((p, d) ∷ cs)
          ((p, d) ∷ cs ++ (fresh, item) ∷ [])
          (walk fuel fresh p item st)
  unfolding last_loop
  walk-Pushed zero q r np h out c f = absurd (omega arith)
  walk-Pushed (suc fuel) {p} {d} q r np h out nil f =
      let l = link-Pushed p r d np h in
      record {
        out = l.out;
        runs = rw (load-ok st p _ np h) l.runs;
        chain = l.chain;
        outside = l.outside;
      }
  walk-Pushed (suc fuel) {p} {d} q r np h out
        (node {q = q'} {r = r'} {d = d'} {cs = ds} nq h' out' c) f =
      let rest = walk-Pushed fuel q' r' nq h' out' c (omega arith) in
      let apart : p ≢ fresh = λ e. ground (arith, unused, h) in
      record {
        out = rest.out;
        runs = rw (load-ok st p _ np h, not_null q nq) rest.runs;
        chain =
            node np (rest.outside p out apart ∙ h)
              (has-append p ((q, d') ∷ ds) fresh item out apart) rest.chain;
        outside = λ x o n. rest.outside x (ground arith) n;
      }

-- What a list holds after a push. A head with a NULL datum takes the datum itself.
abbrev pub pushed : Cells → ℕ → ℕ → Cells
pushed [] fresh item = []
pushed ((p, d) ∷ cs) fresh item =
    if d == 0
    then (p, item) ∷ cs
    else (if fresh == 0 then (p, d) ∷ cs else (p, d) ∷ cs ++ (fresh, item) ∷ [])

module _ (st : Store) (item : ℕ) where
  link-Full :
      (p r d : ℕ)
      → p ≢ 0
      → st p ≡ some (elem_of r 0 d)
      → Pushed st 0 p ((p, d) ∷ []) ((p, d) ∷ []) (link_last p 0 item st)
  unfolding link_last put
  link-Full p r d np h = record {
    out = put st p (some (elem_of r 0 d));
    runs = rw (load-ok st p _ np h);
    chain = node {q = 0} {r = r} np (ground arith) refl nil;
    outside = λ x o n. ground arith;
  }

  walk-Full :
      (fuel : ℕ) {p : ℕ} {d : ℕ} {cs : Cells} (q r : ℕ)
      → p ≢ 0
      → st p ≡ some (elem_of r q d)
      → has p cs ≡ false
      → Chain st q cs
      → length cs < fuel
      → st 0 ≡ none
      → Pushed st 0 p ((p, d) ∷ cs) ((p, d) ∷ cs) (walk fuel 0 p item st)
  unfolding last_loop
  walk-Full zero q r np h out c f z = absurd (omega arith)
  walk-Full (suc fuel) {p} {d} q r np h out nil f z =
      let l = link-Full p r d np h in
      record {
        out = l.out;
        runs = rw (load-ok st p _ np h) l.runs;
        chain = l.chain;
        outside = l.outside;
      }
  walk-Full (suc fuel) {p} {d} q r np h out (node {q = q'} {r = r'} nq h' out' c) f z =
      let rest = walk-Full fuel q' r' nq h' out' c (omega arith) z in
      record {
        out = rest.out;
        runs = rw (load-ok st p _ np h, not_null q nq) rest.runs;
        chain = node np (rest.outside p out np ∙ h) out rest.chain;
        outside = λ x o n. rest.outside x (ground arith) n;
      }

-- For a list that is not NULL, with more fuel than it has nodes, and an answer of `kmalloc` that is
-- either NULL or an unused address: `ListPush` ends. If the head's datum is NULL, the datum is
-- replaced; else a node with the datum is appended, or, when `kmalloc` failed, the list stays as it
-- is. No node outside the list is changed but the new one.
pub list_push-Pushed :
    (fuel fresh item p : ℕ) (st : Store) (cs : Cells)
    → p ≢ 0
    → Chain st p cs
    → length cs < fuel
    → st 0 ≡ none
    → st fresh ≡ none
    → Pushed st fresh p cs (pushed cs fresh item) (list_push fuel fresh p item st)
unfolding list_push put
list_push-Pushed fuel fresh item p st [] np c f z u = absurd (np (Chain-null_iff c))
list_push-Pushed fuel fresh item p st ((p', zero) ∷ cs) np (node {q} {r} np' h out c) f z u =
    record {
      out = put st p (some (elem_of r q item));
      runs = rw (not_null p np, h);
      chain = node {q = q} {r = r} np (ground arith) out (Chain-frame _ (λ x i. ground arith) c);
      outside = λ x o n. ground arith;
    }
list_push-Pushed fuel zero item p st ((p', suc d) ∷ cs) np (node {q} {r} np' h out c) f z u =
    let nd = not_null (suc d) (ground arith) in
    let w = walk-Full st item fuel q r np h out c (omega arith) z in
    record {
      out = w.out;
      runs = rw (not_null p np, h, nd) w.runs;
      chain = rw nd w.chain;
      outside = w.outside;
    }
list_push-Pushed fuel (suc fresh) item p st ((p', suc d) ∷ cs) np (node {q} {r} np' h out c) f z u =
    let nd = not_null (suc d) (ground arith) in
    let nf = not_null (suc fresh) (ground arith) in
    let w = walk-Pushed st (suc fresh) item (ground arith) u fuel q r np h out c (omega arith) in
    record {
      out = w.out;
      runs = rw (not_null p np, h, nd) w.runs;
      chain = rw (nd, nf) w.chain;
      outside = w.outside;
    }
