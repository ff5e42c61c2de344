-- ===== src/LinkedList/Tests.antt =====
-- The lists at a concrete list: nodes 16, 32 and 48 with the data 5, 0 and 7.
use lt_kernel.Prelude.{◌+◌, ◌≡◌, refl, none, some, [], ◌∷◌, ◌==◌, if◌then◌else◌, arith}
use lt_kernel.Prelude.Result.{ok}
use lt_kernel.LinkedList.{
  elem_of, Store, list_push, list_get, list_top, list_pop, list_enumerate, clean, list_destroy_ex,
}
use lt_kernel.LinkedList.Chain.{Cells, Chain, nil, node, items}
use lt_kernel.LinkedList.Push.{Pushed, pushed, list_push-Pushed}
use lt_kernel.LinkedList.Access.{list_get-gotten, Popped, list_pop-Popped}
use lt_kernel.LinkedList.Walk.{fold, list_enumerate-fold, Destroyed, list_destroy_ex-Destroyed}

abbrev three : Store
three x =
    if x == 16
    then some (elem_of 0 32 5)
    else (if x == 32
        then some (elem_of 16 48 0)
        else (if x == 48 then some (elem_of 32 0 7) else none))

abbrev three_cells : Cells
three_cells = (16, 5) ∷ (32, 0) ∷ (48, 7) ∷ []

three-Chain : Chain three 16 three_cells
three-Chain = node {q = 32} {r = 0} (ground arith) refl refl (
    node {q = 48} {r = 16} (ground arith) refl refl
      (node {q = 0} {r = 32} (ground arith) refl refl nil))

list_push-Pushed_example :
    Pushed three 64 16 three_cells (pushed three_cells 64 9) (list_push 4 64 16 9 three)
list_push-Pushed_example =
    list_push-Pushed 4 64 9 16 three three_cells (ground arith) three-Chain (omega arith) refl refl

list_get-gotten_example : list_get 16 2 three ≡ ok 7
list_get-gotten_example = list_get-gotten three 16 2 (16, 5) ((32, 0) ∷ (48, 7) ∷ []) three-Chain

list_pop-Popped_example :
    (list_top 16 three ≡ ok 5) × Popped three 16 5 ((32, 0) ∷ (48, 7) ∷ []) (list_pop 16 three)
list_pop-Popped_example = list_pop-Popped three 16 (16, 5) ((32, 0) ∷ (48, 7) ∷ []) three-Chain

list_enumerate-fold_example : list_enumerate 4 16 (some (λ d s. s + d)) three 0 ≡ ok 12
list_enumerate-fold_example =
    list_enumerate-fold 4 (λ d s. s + d) three 0 16 (16, 5) ((32, 0) ∷ (48, 7) ∷ []) three-Chain
      (omega arith)

list_destroy_ex-Destroyed_example :
    Destroyed three three_cells
      (fold (clean (some (λ d s. s + 1))) (items three_cells) 0)
      (list_destroy_ex 4 16 (some (λ d s. s + 1)) three 0)
list_destroy_ex-Destroyed_example =
    list_destroy_ex-Destroyed 4 (some (λ d s. s + 1)) three 0 16 (16, 5) ((32, 0) ∷ (48, 7) ∷ [])
      three-Chain (omega arith)
