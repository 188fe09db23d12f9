-- ===== src/Llist/Api.antt =====
-- The public functions of src/llist.c on a valid list, as a thread runs them on its own: the assertion
-- on the type tag holds, and taking and giving back the lock does nothing.
-- A function that changes the list or moves its cursor returns the new list.
use libcplus.Common.{
  ℕ, zero, suc, ◌+◌, ◌-◌, ◌%◌, ◌^◌, Bool, ◌||◌, Option, none, some, ℤ, pos, List, [], ◌∷◌, ◌==◌,
  if◌then◌else◌, to_int32, lt_int,
}
use libcplus.Heap.{Ptr, null, Cmd, out_of_fuel, pure, ◌>>=◌, ◌>>◌, einval, set_errno, load}
use libcplus.Llist.{
  LinkedList, Status, success, fail, Comparator, get_size, is_sort, free_node, new_node, get_data,
  reset_cur_node, get_node_of,
}
use libcplus.Llist.Ops.{
  get_node_if, get_index_if, pop_of, push_at, pop_if, get_set_if, remove_data, llist_sort,
}

-- `MIN > PARAMETER || PARAMETER > MAX`
abbrev pub out_of_interval : ℤ → ℤ → ℤ → Bool
out_of_interval index min max = lt_int index min || lt_int max index

-- the value of a node that a search returned, NULL for no node
abbrev pub data_of : Ptr → Cmd Ptr
data_of p = if p == null then pure null else get_data p

unfoldable pub cplus_llist_get_size : LinkedList → ℕ
cplus_llist_get_size list = get_size list

unfoldable pub cplus_llist_get_of : LinkedList → ℤ → Cmd (Ptr × LinkedList)
cplus_llist_get_of list index =
    if out_of_interval index (pos 0) (to_int32 ((get_size list + 2 ^ 32 - 1) % 2 ^ 32))
    then (do set_errno einval; pure (null, list))
    else (do (p, l) ← get_node_of list index; v ← data_of p; pure (v, l))

unfoldable pub cplus_llist_get_index_if :
    LinkedList → Option Comparator → Ptr → Cmd (Option ℤ × LinkedList)
cplus_llist_get_index_if list none arg = do set_errno einval; pure (none, list)
cplus_llist_get_index_if list (some comparator) arg = get_index_if list comparator arg

-- A node that a pop returned is read, and freed.
abbrev pub take_node : Ptr → LinkedList → Cmd (Ptr × LinkedList)
take_node p l = if p == null then pure (null, l) else (do v ← get_data p; free_node p; pure (v, l))

unfoldable pub cplus_llist_pop_of : LinkedList → ℤ → Cmd (Ptr × LinkedList)
cplus_llist_pop_of list index =
    if out_of_interval index (pos 0) (to_int32 (get_size list))
    then (do set_errno einval; pure (null, list))
    else (do (p, l) ← pop_of list index; take_node p l)

-- `fresh` is the address that the allocation of the node returns.
unfoldable pub cplus_llist_push_at :
    (fresh : Ptr) → LinkedList → ℤ → Ptr → Cmd (Status × LinkedList)
cplus_llist_push_at fresh list index value =
    if value == null || out_of_interval index (pos 0) (to_int32 (get_size list))
    then (do set_errno einval; pure (fail, list))
    else (do
      p ← new_node fresh value
      if p == null then pure (fail, list) else push_at list index p)

unfoldable pub cplus_llist_pop_front : LinkedList → Cmd (Ptr × LinkedList)
cplus_llist_pop_front list = cplus_llist_pop_of list (pos 0)

unfoldable pub cplus_llist_pop_back : LinkedList → Cmd (Ptr × LinkedList)
cplus_llist_pop_back list = cplus_llist_pop_of list (to_int32 (cplus_llist_get_size list))

unfoldable pub cplus_llist_push_front : (fresh : Ptr) → LinkedList → Ptr → Cmd (Status × LinkedList)
cplus_llist_push_front fresh list value = cplus_llist_push_at fresh list (pos 0) value

unfoldable pub cplus_llist_push_back : (fresh : Ptr) → LinkedList → Ptr → Cmd (Status × LinkedList)
cplus_llist_push_back fresh list value =
    cplus_llist_push_at fresh list (to_int32 (cplus_llist_get_size list)) value

-- the loop that frees the nodes
unfoldable pub free_nodes : ℕ → Ptr → Cmd (Unit {0})
free_nodes zero p = λ _. out_of_fuel
free_nodes (suc fuel) p =
    if p == null then pure tt else (do n ← load p; free_node p; free_nodes fuel n.next)

unfoldable pub cplus_llist_clear : LinkedList → Cmd (Status × LinkedList)
cplus_llist_clear list = do
  free_nodes (list.count + 1) list.head
  let l = record list { count = 0; sort_count = 0; head = null; tail = null }
  pure (success, reset_cur_node l)

-- The list ends with its status and the handles that were handed to their `delete` functions, the
-- lock and the pool.
unfoldable pub cplus_llist_delete : LinkedList → Cmd (Status × List Ptr)
cplus_llist_delete list = do
  (s, l) ← cplus_llist_clear list
  let pool = if l.mempool == null then [] else l.mempool ∷ []
  elim s [
    | fail ↦ pure (fail, [])
    | success ↦ pure (success, if l.lock == null then pool else l.lock ∷ pool)
  ]

unfoldable pub cplus_llist_get_set_if :
    Bool → (ℕ → Ptr) → LinkedList → Option Comparator → Ptr → Cmd (Option LinkedList × LinkedList)
cplus_llist_get_set_if made supply list none arg = do set_errno einval; pure (none, list)
cplus_llist_get_set_if made supply list (some comparator) arg =
    get_set_if made supply list comparator arg

unfoldable pub cplus_llist_pop_if : LinkedList → Option Comparator → Ptr → Cmd (Ptr × LinkedList)
cplus_llist_pop_if list none arg = do set_errno einval; pure (null, list)
cplus_llist_pop_if list (some comparator) arg = do
  (p, l) ← pop_if list comparator arg
  take_node p l

unfoldable pub cplus_llist_get_if : LinkedList → Option Comparator → Ptr → Cmd (Ptr × LinkedList)
cplus_llist_get_if list none arg = do set_errno einval; pure (null, list)
cplus_llist_get_if list (some comparator) arg = do
  (p, l) ← get_node_if list comparator arg
  v ← data_of p
  pure (v, l)

unfoldable pub cplus_llist_delete_data : LinkedList → Ptr → Cmd (Status × LinkedList)
cplus_llist_delete_data list value =
    if value == null then (do set_errno einval; pure (fail, list)) else remove_data list value

unfoldable pub cplus_llist_sort : LinkedList → Option Comparator → Cmd (Status × LinkedList)
cplus_llist_sort list none = do set_errno einval; pure (fail, list)
cplus_llist_sort list (some comparator) = do
  l ← (if is_sort list then pure list else llist_sort list comparator)
  pure (if is_sort l then success else fail, l)

unfoldable pub cplus_llist_is_sort : LinkedList → Bool
cplus_llist_is_sort list = is_sort list
