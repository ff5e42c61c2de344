-- ===== src/LinkedList.antt =====
-- The doubly linked lists of kernel/lib/list.c over a store of nodes. A node that is not in the
-- store has been freed or never allocated, and a use of it, or of NULL (0), is a `fault`. What
-- `kmalloc` answers is an argument. The walks run on fuel; more than the list's length is enough.
pub mod Chain
pub mod Push
pub mod Access
pub mod Walk
mod Tests
use lt_kernel.Prelude.{
  ℕ, zero, suc, ◌+◌, ◌-◌, ◌<◌, Bool, true, false, Option, none, some, ◌==◌, if◌then◌else◌,
}
use lt_kernel.Prelude.Result.{Result, ok, fault, stuck, ◌>>=◌}

-- `struct ListElem`
pub record ListElem : Type 0 where
  pub prev : ℕ
  pub next : ℕ
  pub item : ℕ

abbrev pub elem_of : ℕ → ℕ → ℕ → ListElem
elem_of p n d = record { prev = p; next = n; item = d }

abbrev pub Store : Type 0
Store = ℕ → Option ListElem

unfoldable pub put : Store → ℕ → Option ListElem → Store
put st p e x = if x == p then e else st x

-- `*p`
unfoldable pub load : Store → ℕ → Result ListElem
load st p = if p == 0 then fault else elim (st p) [ none ↦ fault | some e ↦ ok e ]

-- The address of the list, NULL if `kmalloc` failed.
unfoldable pub list_create : ℕ → Store → ℕ × Store
unfolding put
list_create fresh st = if fresh == 0 then (0, st) else (fresh, put st fresh (some (elem_of 0 0 0)))

-- `while (elem->next != NULL) elem = elem->next;`
unfoldable pub last_loop : ℕ → Store → ℕ → Result ℕ
unfolding load
last_loop zero st elem = stuck
last_loop (suc fuel) st elem = do
  e ← load st elem
  (let rest = last_loop fuel st e.next in if e.next == 0 then ok elem else rest)

-- The writes at the end of `ListPush`. `elem->next` is written before the test for NULL.
unfoldable pub link_last : ℕ → ℕ → ℕ → Store → Result Store
unfolding load put
link_last last fresh item st = do
  e ← load st last
  (if fresh == 0
      then ok (put st last (some (record e { next = 0 })))
      else ok
          (put (put st last (some (record e { next = fresh }))) fresh (some (elem_of last 0 item))))

unfoldable pub list_push : ℕ → ℕ → ℕ → ℕ → Store → Result Store
unfolding load put last_loop link_last
list_push fuel fresh list item st = if list == 0 then ok st else do
  e ← load st list
  (if e.item == 0
      then ok (put st list (some (record e { item = item })))
      else (do last ← last_loop fuel st list; link_last last fresh item st))

-- The loop of `ListGet`, which recurs on `index`; it gives the pair of `list` and `index`.
unfoldable pub get_loop : Store → ℕ → ℕ → Result (ℕ × ℕ)
unfolding load
get_loop st list zero = ok (list, zero)
get_loop st list (suc index) = do
  e ← load st list
  e' ← load st e.next
  (let rest = get_loop st e.next index in if e'.next == 0 then ok (e.next, index) else rest)

unfoldable pub list_get : ℕ → ℕ → Store → Result ℕ
unfolding load get_loop
list_get list index st = if list == 0 then ok 0 else do
  at ← get_loop st list index
  (if at.1 == 0 then (do e ← load st at.0; ok e.item) else ok 0)

unfoldable pub list_top : ℕ → Store → Result ℕ
unfolding load
list_top list st = if list == 0 then ok 0 else (do e ← load st list; ok e.item)

-- The data, the new value of `*list`, and the store. `list` is the value of `*list`.
unfoldable pub list_pop : ℕ → Store → Result (ℕ × ℕ × Store)
unfolding load put
list_pop list st =
    if list == 0
    then ok (0, 0, st)
    else (do e ← load st list; ok (e.item, e.next, put st list none))

-- `if (next != NULL) next = next->next;`
abbrev pub step_next : Store → ℕ → Result ℕ
step_next st next = if next == 0 then ok 0 else (do e ← load st next; ok e.next)

-- `callback(elem->data, Context)` may change the state `S` of its owner, and not the list.
module _ {S : Type 0} where
  unfoldable pub enumerate_loop : ℕ → (ℕ → S → S) → Store → ℕ → ℕ → S → Result S
  unfolding load
  enumerate_loop zero callback st elem next s = stuck
  enumerate_loop (suc fuel) callback st elem next s = elim (elem == 0) [
    | true ↦ ok s
    | false ↦ do
      e ← load st elem
      after ← step_next st next
      enumerate_loop fuel callback st next after (callback e.item s)
  ]

  unfoldable pub list_enumerate : ℕ → ℕ → Option (ℕ → S → S) → Store → S → Result S
  unfolding load enumerate_loop
  list_enumerate fuel list none st s = ok s
  list_enumerate fuel list (some callback) st s =
      if list == 0
      then ok s
      else (do e ← load st list; enumerate_loop fuel callback st list e.next s)

  -- `if (cleaner != NULL && elem->data != NULL) cleaner(elem->data);`
  abbrev pub clean : Option (ℕ → S → S) → ℕ → S → S
  clean none item s = s
  clean (some cleaner) item s = if item == 0 then s else cleaner item s

  unfoldable pub destroy_loop : ℕ → Option (ℕ → S → S) → Store → ℕ → ℕ → S → Result (Store × S)
  unfolding load put
  destroy_loop zero cleaner st elem next s = stuck
  destroy_loop (suc fuel) cleaner st elem next s = elim (elem == 0) [
    | true ↦ ok (st, s)
    | false ↦ do
      e ← load st elem
      after ← step_next (put st elem none) next
      destroy_loop fuel cleaner (put st elem none) next after (clean cleaner e.item s)
  ]

  unfoldable pub list_destroy_ex : ℕ → ℕ → Option (ℕ → S → S) → Store → S → Result (Store × S)
  unfolding load destroy_loop
  list_destroy_ex fuel list cleaner st s =
      if list == 0
      then ok (st, s)
      else (do e ← load st list; destroy_loop fuel cleaner st list e.next s)

-- `ListDestroyEx(list, NULL)`
unfoldable pub list_destroy : ℕ → ℕ → Store → Result (Store × Unit {0})
unfolding list_destroy_ex
list_destroy fuel list st = list_destroy_ex fuel list none st tt
