-- ===== src/Llist.antt =====
-- The static functions of src/llist.c, up to the line of the public ones (`Llist/Api.antt`).
-- A `struct linked_list` lives outside the heap of nodes, so a function that updates one returns the
-- new value. The two loops of `get_node_of` run on fuel, the distance to the index, which is enough in
-- every state.
pub mod Access
pub mod Api
pub mod Clear
pub mod Cursor
pub mod Find
pub mod Get
pub mod Insert
pub mod Links
pub mod New
pub mod Ops
pub mod Pop
pub mod Sort
pub mod Stale
pub mod Steps
pub mod Take
pub mod Keyed
mod Tests
pub mod Unlink
pub mod Push
pub mod PushInside
pub mod Remove
pub mod RemoveNode
pub mod Rep
pub mod Search
pub mod Segment
pub mod Walk
pub use libcplus.Common.{Status, success, fail}
use libcplus.Common.{
  some, distance, ℕ, zero, suc, ◌+◌, ◌-◌, ◌%◌, ◌^◌, Bool, true, false, ◌&&◌, ◌||◌, not, List, [],
  ◌∷◌, ℤ, pos, ltb, ◌==◌, if◌then◌else◌, increment, decrement, lt_int, eq_int, to_uint32, is_zero,
  is_positive,
}
use libcplus.Heap.{
  Ptr, null, Node, node, Cmd, out_of_fuel, pure, ◌>>=◌, ◌>>◌, when, enoent, enomem, set_errno, load,
  put, set_value, set_prev, set_next, release,
}

-- where `list->current` points: to the head field of the list, or to a link of a node
pub data Loc : Type 0 where
  at_head : Loc
  at_next at_prev : Ptr → Loc

-- `mempool` and `lock` are handles, null if the list has none. The type tag is constant.
pub record LinkedList : Type 0 where
  pub count : ℕ
  pub sort_count : ℕ
  pub cur_index : ℤ
  pub mempool : Ptr
  pub lock : Ptr
  pub head : Ptr
  pub tail : Ptr
  pub current : Loc

-- `int32_t (* comparator)(void *, void *)`
abbrev pub Comparator : Type 0
Comparator = Ptr → Ptr → ℤ

unfoldable pub is_empty : LinkedList → Bool
is_empty list = list.count == 0

unfoldable pub get_size : LinkedList → ℕ
get_size list = list.count

unfoldable pub is_sort : LinkedList → Bool
is_sort list = get_size list == list.sort_count

-- `free_node`; freeing NULL does nothing.
unfoldable pub free_node : Ptr → Cmd (Unit {0})
free_node p = when (not (p == null)) (release p)

-- `fresh` is what the pool or `malloc` returns.
unfoldable pub new_node : (fresh : Ptr) → Ptr → Cmd Ptr
new_node fresh value =
    if fresh == null
    then (do set_errno enomem; pure null)
    else (do put fresh (some (node value null null)); pure fresh)

unfoldable pub get_data : Ptr → Cmd Ptr
get_data p = do n ← load p; pure n.value

unfoldable pub reset_cur_node : LinkedList → LinkedList
reset_cur_node list = record list { cur_index = pos 0; current = at_head }

-- `*(location)`
unfoldable pub deref : LinkedList → Loc → Cmd Ptr
deref list at_head = pure list.head
deref list (at_next p) = do n ← load p; pure n.next
deref list (at_prev p) = do n ← load p; pure n.prev

-- `list->count--` and `list->count ++` on a `uint32_t`
abbrev pub count_down : ℕ → ℕ
count_down n = (n + 2 ^ 32 - 1) % 2 ^ 32

abbrev pub count_up : ℕ → ℕ
count_up n = (n + 1) % 2 ^ 32

abbrev clear_if_empty : LinkedList → LinkedList
clear_if_empty list = if list.count == 0 then record list { head = null; tail = null } else list

unfoldable pub remove_node : LinkedList → Ptr → Cmd LinkedList
remove_node list p = do
  n ← load p
  if list.head == p
      then (do
        when (not (n.next == null)) (set_prev n.next null)
        set_next p null
        let l = record list { head = n.next; count = count_down list.count }
        pure (reset_cur_node (clear_if_empty l)))
      else if list.tail == p
      then (do
        when (not (n.prev == null)) (set_next n.prev null)
        set_prev p null
        let l = record list { tail = n.prev; count = count_down list.count }
        pure (reset_cur_node (clear_if_empty l)))
      else (do
        set_next n.prev n.next
        set_prev n.next n.prev
        set_next p null
        set_prev p null
        let l = record list { count = count_down list.count }
        pure (reset_cur_node (clear_if_empty l)))

unfoldable pub swap_data : Ptr → Ptr → Cmd (Unit {0})
swap_data front back =
    when (not (front == null || back == null))
      (do a ← load front; b ← load back; set_value front b.value; set_value back a.value)

unfoldable pub get_current : LinkedList → Cmd Ptr
get_current list = deref list list.current

-- The result is the node, or NULL, and the list with its cursor moved.
unfoldable pub get_next : LinkedList → Cmd (Ptr × LinkedList)
get_next list = do
  p ← deref list list.current
  if p == null then pure (null, list) else (do
    n ← load p
    if n.next == null
        then pure (null, list)
        else pure
            (n.next, record list { current = at_next p; cur_index = increment list.cur_index }))

unfoldable pub get_prev : LinkedList → Cmd (Ptr × LinkedList)
get_prev list = do
  p ← deref list list.current
  if p == null then pure (null, list) else (do
    n ← load p
    if n.prev == null
        then pure (null, list)
        else pure
            (n.prev, record list { current = at_prev p; cur_index = decrement list.cur_index }))

-- The two loops of `get_node_of`. They take the address of a link without reading it, so a NULL
-- node faults only at the next read.
unfoldable pub walk_next : ℕ → LinkedList → ℤ → Cmd LinkedList
walk_next zero list index = λ _. out_of_fuel
walk_next (suc fuel) list index = if eq_int index list.cur_index then pure list else (do
  p ← deref list list.current
  walk_next fuel (record list { current = at_next p; cur_index = increment list.cur_index }) index)

unfoldable pub walk_prev : ℕ → LinkedList → ℤ → Cmd LinkedList
walk_prev zero list index = λ _. out_of_fuel
walk_prev (suc fuel) list index = if eq_int index list.cur_index then pure list else (do
  p ← deref list list.current
  walk_prev fuel (record list { current = at_prev p; cur_index = decrement list.cur_index }) index)

unfoldable pub get_node_of : LinkedList → ℤ → Cmd (Ptr × LinkedList)
get_node_of list index =
    if eq_int index list.cur_index
    then (do p ← deref list list.current; pure (p, list))
    else if lt_int list.cur_index index
    then (do
      l ← walk_next (distance index list.cur_index + 1) list index
      p ← deref l l.current
      pure (p, l))
    else (do
      l ← walk_prev (distance index list.cur_index + 1) list index
      p ← deref l l.current
      pure (p, l))
