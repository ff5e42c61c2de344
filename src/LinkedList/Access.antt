-- ===== src/LinkedList/Access.antt =====
-- `ListGet`, `ListTop` and `ListPop`.
use lt_kernel.Prelude.{
  ℕ, zero, suc, ◌≡◌, ◌≢◌, refl, ◌∙◌, none, [], ◌∷◌, ◌==◌, if◌then◌else◌, arith, get_or,
}
use lt_kernel.Prelude.Result.{Result, ok, fault, ◌>>=◌}
use lt_kernel.LinkedList.{Store, put, load, get_loop, list_get, list_top, list_pop}
use lt_kernel.LinkedList.Chain.{Cells, Chain, nil, node, Chain-frame, not_null, items}

-- The end of `ListGet`, behind its loop.
abbrev finish : Store → ℕ × ℕ → Result ℕ
finish st at = if at.1 == 0 then (do e ← load st at.0; ok e.item) else ok 0

get_loop_lem :
    {st : Store} {p : ℕ} (a b : ℕ × ℕ) (cs : Cells) (i : ℕ)
    → Chain st p (a ∷ b ∷ cs)
    → (get_loop st p i >>= finish st) ≡ ok (get_or (items (a ∷ b ∷ cs)) i 0)
unfolding get_loop load
get_loop_lem a b cs zero (node ne h out c) = rw (not_null _ ne, h) refl
get_loop_lem a b [] (suc zero) (node ne h out (node nq h' out' nil)) =
    rw (not_null _ ne, h, not_null _ nq, h') rw (not_null _ nq, h') refl
get_loop_lem a b [] (suc (suc i)) (node ne h out (node nq h' out' nil)) =
    rw (not_null _ ne, h, not_null _ nq, h', not_null (suc i) (ground arith)) refl
get_loop_lem a b (c' ∷ cs) (suc i) (node ne h out (node nq h' out' (node nr h2 out2 c))) =
    let rest = get_loop_lem b c' cs i (node nq h' out' (node nr h2 out2 c)) in
    rw (not_null _ ne, h, not_null _ nq, h', not_null _ nr) rest

-- What `ListGet` answers of a list with these nodes.
abbrev pub gotten : Cells → ℕ → Result ℕ
gotten cs zero = ok (get_or (items cs) 0 0)
gotten (c ∷ []) (suc index) = fault
gotten cs (suc index) = ok (get_or (items cs) (suc index) 0)

list_get_open :
    (st : Store) (p index : ℕ) → p ≢ 0 → list_get p index st ≡ (get_loop st p index >>= finish st)
unfolding list_get
list_get_open st p index ne = rw (not_null p ne) refl

-- `ListGet` of a list that is not empty answers the datum at the index, and NULL behind the end of
-- a list of two or more nodes. On a list of one node every index but 0 dereferences NULL.
pub list_get-gotten :
    (st : Store) (p index : ℕ) (c : ℕ × ℕ) (cs : Cells)
    → Chain st p (c ∷ cs)
    → list_get p index st ≡ gotten (c ∷ cs) index
unfolding get_loop load
list_get-gotten st p zero (p', d) cs (node ne h out c) =
    list_get_open st p zero ne ∙ rw (not_null p ne, h) refl
list_get-gotten st p (suc index) (p', d) [] (node ne h out nil) =
    list_get_open st p (suc index) ne ∙ rw (not_null p ne, h) refl
list_get-gotten st p (suc index) (p', d) ((q, d') ∷ cs) (node ne h out (node nq h' out' c)) =
    let rest = get_loop_lem (p, d) (q, d') cs (suc index) (node ne h out (node nq h' out' c)) in
    list_get_open st p (suc index) ne ∙ rest

-- The result of a pop: the datum, the new list, and the store without the old head.
pub record Popped (st : Store) (p d : ℕ) (cs : Cells) (r : Result (ℕ × ℕ × Store)) : Type 0 where
  pub rest : ℕ
  pub out : Store
  pub runs : r ≡ ok (d, rest, out)
  pub chain : Chain out rest cs
  pub freed : out p ≡ none
  pub outside : (x : ℕ) → x ≢ p → out x ≡ st x

-- `ListPop` of a list that is not empty takes the datum of its head, the one that `ListTop`
-- answers, frees the head and no other node, and leaves the list of the others in their order.
pub list_pop-Popped :
    (st : Store) (p : ℕ) (c : ℕ × ℕ) (cs : Cells)
    → Chain st p (c ∷ cs)
    → (list_top p st ≡ ok c.1) × Popped st p c.1 cs (list_pop p st)
unfolding list_pop list_top load put
list_pop-Popped st p a cs (node {q} ne h out c) = (
  rw (not_null p ne, h) refl,
  record {
    rest = q;
    out = put st p none;
    runs = rw (not_null p ne, h) refl;
    chain = Chain-frame _ (λ x i. ground arith) c;
    freed = ground arith;
    outside = λ x n. ground arith;
  },
)
