-- ===== src/LinkedList/Chain.antt =====
-- What a list stands for: the nodes from its head on, with their data.
use lt_kernel.Prelude.{
  ℕ, ◌≡◌, ◌≢◌, refl, ◌∙◌, Bool, true, false, ◌||◌, none, some, List, [], ◌∷◌, ◌==◌, arith, map,
}
use lt_kernel.Prelude.Result.{ok}
use lt_kernel.LinkedList.{ListElem, elem_of, Store, load}

-- address and data of each node
abbrev pub Cells : Type 0
Cells = List (ℕ × ℕ)

abbrev pub has : ℕ → Cells → Bool
has a [] = false
has a ((p, d) ∷ cs) = (a == p) || has a cs

-- From `p` the `next` pointers lead through the distinct nodes `cs` to NULL.
pub data Chain (st : Store) : ℕ → Cells → Type 0 where
  nil : Chain st 0 []
  node :
      {p q r d : ℕ} {cs : Cells}
      → p ≢ 0
      → st p ≡ some (elem_of r q d)
      → has p cs ≡ false
      → Chain st q cs
      → Chain st p ((p, d) ∷ cs)

-- A change of nodes that are not in the list leaves the list.
pub Chain-frame :
    {st : Store} {p : ℕ} {cs : Cells} (st' : Store)
    → ((x : ℕ) → has x cs ≡ true → st' x ≡ st x)
    → Chain st p cs
    → Chain st' p cs
Chain-frame st' same nil = nil
Chain-frame st' same (node {p} ne h out c) =
    node ne (same p (ground arith) ∙ h) out (Chain-frame st' (λ x i. same x (ground arith)) c)

pub not_null : (p : ℕ) → p ≢ 0 → (p == 0) ≡ false
not_null p ne = ground arith

pub load-ok : (st : Store) (p : ℕ) (e : ListElem) → p ≢ 0 → st p ≡ some e → load st p ≡ ok e
unfolding load
load-ok st p e ne h = rw (not_null p ne, h)

-- A free address is in no list.
pub has_of_none :
    {st : Store} {p : ℕ} {cs : Cells} (x : ℕ) → Chain st p cs → st x ≡ none → has x cs ≡ false
has_of_none x nil e = refl
has_of_none x (node ne h out c) e = ground (arith, has_of_none x c e)

-- The head of a list that is not empty is not NULL, and loads.
pub Chain-null : {st : Store} {cs : Cells} {p : ℕ} → p ≡ 0 → Chain st p cs → cs ≡ []
Chain-null z nil = refl
Chain-null z (node ne h out c) = absurd (ne z)

pub Chain-null_iff : {st : Store} {p : ℕ} → Chain st p [] → p ≡ 0
Chain-null_iff nil = refl

abbrev pub items : Cells → List ℕ
items = map λ c. c.1
