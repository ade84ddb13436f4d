-- ===== src/Library/LinkedList.antt =====
-- Double-linked lists (library/util/src/list.c): `next` is the first word of an item, `prev` the
-- second. A loop over a list takes fuel.
pub mod Chain
pub mod Laws
pub mod Walk
use sth.Base.{ℕ, zero, suc, ◌+◌, Bool, true, false, ◌==◌, if◌then◌else◌}
use sth.Library.Words.{Words, Cmd, ◌>>=◌, ◌>>◌, pure, out_of_fuel, get, put}

unfoldable pub list_init : (list : ℕ) → Cmd (Unit {0})
list_init list = put (list + 4) list >> put list list

unfoldable pub list_add_between : (first second item : ℕ) → Cmd (Unit {0})
list_add_between first second item = do
  put (second + 4) item
  put item second
  put (item + 4) first
  put first item

-- LIST_FOREACH, as far as `tmp` has come.
unfoldable pub find_from : (fuel root item tmp : ℕ) → Cmd Bool
find_from zero root item tmp = out_of_fuel
find_from (suc fuel) root item tmp =
    if tmp == root
    then pure false
    else if tmp == item
    then pure true
    else (do next ← get tmp; find_from fuel root item next)

unfoldable pub list_find : (fuel root item : ℕ) → Cmd Bool
list_find fuel root item = do tmp ← get root; find_from fuel root item tmp

unfoldable pub list_add : (fuel root item : ℕ) → Cmd (Unit {0})
list_add fuel root item = do
  found ← list_find fuel root item
  if found then pure tt else (do next ← get root; list_add_between root next item)

-- The list itself is not read.
unfoldable pub list_remove : (item : ℕ) → Cmd (Unit {0})
list_remove item = do
  next ← get item
  prev ← get (item + 4)
  put (next + 4) prev
  put prev next
  put (item + 4) item
  put item item

unfoldable pub list_pop : (root : ℕ) → Cmd ℕ
list_pop root = do ret ← get root; if ret == root then pure 0 else (do list_remove ret; pure ret)

abbrev pub list_is_empty : (root : ℕ) → Cmd Bool
list_is_empty root = do next ← get root; pure (next == root)

unfoldable pub size_from : (fuel root count tmp : ℕ) → Cmd ℕ
size_from zero root count tmp = out_of_fuel
size_from (suc fuel) root count tmp =
    if tmp == root then pure count else (do next ← get tmp; size_from fuel root (count + 1) next)

unfoldable pub list_size_get : (fuel root : ℕ) → Cmd ℕ
list_size_get fuel root = do tmp ← get root; size_from fuel root 0 tmp
