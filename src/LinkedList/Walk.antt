-- ===== src/LinkedList/Walk.antt =====
-- `ListEnumerate` and `ListDestroyEx`, which walk a list with the pointer after the current node.
use lt_kernel.Prelude.{
  ℕ, zero, suc, ◌<◌, ◌≡◌, ◌≢◌, refl, ◌∙◌, true, false, Option, none, some, List, [], ◌∷◌, ◌==◌,
  arith, length, Bool-cases, inl, inr,
}
use lt_kernel.Prelude.Result.{Result, ok, ◌>>=◌}
use lt_kernel.LinkedList.{
  ListElem, elem_of, Store, put, load, step_next, enumerate_loop, list_enumerate, clean,
  destroy_loop, list_destroy_ex,
}
use lt_kernel.LinkedList.Chain.{Cells, has, Chain, nil, node, Chain-frame, not_null, load-ok, items}

module _ {S : Type 0} where
  abbrev pub fold : (ℕ → S → S) → List ℕ → S → S
  fold f [] s = s
  fold f (d ∷ ds) s = fold f ds (f d s)

  enumerate_step :
      (fuel : ℕ) (f : ℕ → S → S) (st : Store) (s : S) (p next : ℕ) (e : ListElem)
      → p ≢ 0
      → st p ≡ some e
      → enumerate_loop (suc fuel) f st p next s
        ≡ (step_next st next >>= λ after. enumerate_loop fuel f st next after (f e.item s))
  unfolding enumerate_loop
  enumerate_step fuel f st s p next e ne h =
      rw (not_null p ne, h, enumerate_loop, not_null p ne) refl

  enumerate_end :
      (fuel : ℕ) (f : ℕ → S → S) (st : Store) (s : S) → enumerate_loop (suc fuel) f st 0 0 s ≡ ok s
  unfolding enumerate_loop
  enumerate_end fuel f st s = refl

  enumerate_loop-fold :
      (fuel : ℕ) (f : ℕ → S → S) (st : Store) (s : S) {p q r d : ℕ} {cs : Cells}
      → p ≢ 0
      → st p ≡ some (elem_of r q d)
      → Chain st q cs
      → length cs < fuel
      → enumerate_loop (suc fuel) f st p q s ≡ ok (fold f (items ((p, d) ∷ cs)) s)
  enumerate_loop-fold zero f st s ne h c lt = absurd (omega arith)
  enumerate_loop-fold (suc fuel) f st s {d} ne h nil lt =
      enumerate_step (suc fuel) f st s _ 0 _ ne h ∙ enumerate_end fuel f st (f d s)
  enumerate_loop-fold (suc fuel) f st s {d} ne h (node {q = q'} nq h' out c) lt =
      let rest = enumerate_loop-fold fuel f st (f d s) nq h' c (omega arith) in
      enumerate_step (suc fuel) f st s _ _ _ ne h ∙ rw (not_null _ nq, load-ok st _ _ nq h') rest

  -- `ListEnumerate` of a list that is not empty, with more fuel than the list has nodes, ends, and
  -- has called the callback once on every datum, NULL included, in the order of the list.
  pub list_enumerate-fold :
      (fuel : ℕ) (f : ℕ → S → S) (st : Store) (s : S) (p : ℕ) (c : ℕ × ℕ) (cs : Cells)
      → Chain st p (c ∷ cs)
      → length (c ∷ cs) < fuel
      → list_enumerate fuel p (some f) st s ≡ ok (fold f (items (c ∷ cs)) s)
  unfolding list_enumerate load
  list_enumerate-fold zero f st s p c cs ch lt = absurd (omega arith)
  list_enumerate-fold (suc fuel) f st s p c cs (node ne h out ch) lt =
      let w = enumerate_loop-fold fuel f st s ne h ch (omega arith) in rw (not_null p ne, h) w

  -- The store without the nodes `cs`.
  pub record Destroyed (st : Store) (cs : Cells) (s' : S) (r : Result (Store × S)) : Type 0 where
    pub out : Store
    pub runs : r ≡ ok (out, s')
    pub freed : (x : ℕ) → has x cs ≡ true → out x ≡ none
    pub outside : (x : ℕ) → has x cs ≡ false → out x ≡ st x

  destroy_step :
      (fuel : ℕ) (f : Option (ℕ → S → S)) (st : Store) (s : S) (p next : ℕ) (e : ListElem)
      → p ≢ 0
      → st p ≡ some e
      → destroy_loop (suc fuel) f st p next s ≡ (
          step_next (put st p none) next >>= λ after.
          destroy_loop fuel f (put st p none) next after (clean f e.item s))
  unfolding destroy_loop
  destroy_step fuel f st s p next e ne h = rw (not_null p ne, h, destroy_loop, not_null p ne) refl

  destroy_end :
      (fuel : ℕ) (f : Option (ℕ → S → S)) (st : Store) (s : S)
      → destroy_loop (suc fuel) f st 0 0 s ≡ ok (st, s)
  unfolding destroy_loop
  destroy_end fuel f st s = refl

  destroy_loop-Destroyed :
      (fuel : ℕ) (f : Option (ℕ → S → S)) (st : Store) (s : S) {p q r d : ℕ} {cs : Cells}
      → p ≢ 0
      → st p ≡ some (elem_of r q d)
      → has p cs ≡ false
      → Chain st q cs
      → length cs < fuel
      → Destroyed st
          ((p, d) ∷ cs)
          (fold (clean f) (items ((p, d) ∷ cs)) s)
          (destroy_loop (suc fuel) f st p q s)
  unfolding put
  destroy_loop-Destroyed zero f st s ne h out c lt = absurd (omega arith)
  destroy_loop-Destroyed (suc fuel) f st s {p} {d} ne h out nil lt = record {
    out = put st p none;
    runs =
        destroy_step (suc fuel) f st s _ 0 _ ne h
        ∙ destroy_end fuel f (put st p none) (clean f d s);
    freed = λ x i. ground arith;
    outside = λ x o. ground arith;
  }
  destroy_loop-Destroyed (suc fuel) f st s {p} {q} {d} ne h out
        (node {q = q'} {r = r'} {d = d'} {cs = cs} nq h' out' c) lt =
      let apart : (q == p) ≡ false = ground arith in
      let rest =
        destroy_loop-Destroyed fuel f (put st p none) (clean f d s) {r = r'} {d = d'} nq
          (rw apart h') out' (Chain-frame (put st p none) (λ x i. ground arith) c) (omega arith) in
      record {
        out = rest.out;
        runs =
            destroy_step (suc fuel) f st s _ _ _ ne h
            ∙ rw (not_null _ nq, load-ok (put st p none) q (elem_of r' q' d') nq (rw apart h'))
                rest.runs;
        freed = λ x i. elim (Bool-cases (has x ((q, d') ∷ cs))) [
          | inl e ↦ rest.freed x e
          | inr e ↦ rest.outside x e ∙ ground arith
        ];
        outside = λ x o. rest.outside x (ground arith) ∙ ground arith;
      }

  -- `ListDestroyEx` of a list that is not empty, with more fuel than the list has nodes, ends: every
  -- node of the list is freed and no other, and the cleaner, if there is one, has been called once
  -- on every datum that is not NULL, in the order of the list.
  pub list_destroy_ex-Destroyed :
      (fuel : ℕ) (f : Option (ℕ → S → S)) (st : Store) (s : S) (p : ℕ) (c : ℕ × ℕ) (cs : Cells)
      → Chain st p (c ∷ cs)
      → length (c ∷ cs) < fuel
      → Destroyed st (c ∷ cs) (fold (clean f) (items (c ∷ cs)) s) (list_destroy_ex fuel p f st s)
  unfolding list_destroy_ex load
  list_destroy_ex-Destroyed zero f st s p c cs ch lt = absurd (omega arith)
  list_destroy_ex-Destroyed (suc fuel) f st s p c cs (node ne h out ch) lt =
      let d = destroy_loop-Destroyed fuel f st s ne h out ch (omega arith) in
      record {
        out = d.out;
        runs = rw (not_null p ne, h) d.runs;
        freed = d.freed;
        outside = d.outside;
      }
