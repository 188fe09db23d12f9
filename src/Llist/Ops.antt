-- ===== src/Llist/Ops.antt =====
-- The static functions of src/llist.c that search, insert, remove, copy and sort.
-- The search loops that stop at a node share `scan`; `fuel` counts its rounds.
use libcplus.Common.{
  ℕ, zero, suc, ◌+◌, Bool, ◌&&◌, not, Option, none, some, ℤ, pos, ◌==◌, if◌then◌else◌, increment,
  to_uint32, is_zero, is_positive,
}
use libcplus.Heap.{
  Ptr, null, Cmd, fault, out_of_fuel, pure, ◌>>=◌, ◌>>◌, when, einval, enoent, set_errno, load,
  set_prev, set_next,
}
use libcplus.Llist.{
  at_head, at_next, LinkedList, Status, success, fail, Comparator, is_empty, get_size, free_node,
  new_node, get_data, reset_cur_node, deref, count_down, count_up, remove_node, swap_data,
  get_node_of,
}

-- `while (*(list->current)) { if (test) return …; if (no next) break; advance }`
unfoldable pub scan : ℕ → (Ptr → Bool) → LinkedList → Cmd (Ptr × LinkedList)
scan zero test list = λ _. out_of_fuel
scan (suc fuel) test list = do
  p ← deref list list.current
  if p == null then pure (null, list) else (do
    n ← load p
    if test n.value
        then pure (p, list)
        else if n.next == null
        then pure (null, list)
        else scan fuel test
            (record list { current = at_next p; cur_index = increment list.cur_index }))

-- `data && !comparator(data, arg)`
abbrev pub matches : Comparator → Ptr → Ptr → Bool
matches comparator arg value = not (value == null) && is_zero (comparator value arg)

unfoldable pub get_node_if : LinkedList → Comparator → Ptr → Cmd (Ptr × LinkedList)
get_node_if list comparator arg = do
  (p, l) ← scan (list.count + 1) (matches comparator arg) (reset_cur_node list)
  if p == null then (do set_errno enoent; pure (null, l)) else pure (p, l)

-- CPLUS_FAIL is `none`.
unfoldable pub get_index_if : LinkedList → Comparator → Ptr → Cmd (Option ℤ × LinkedList)
get_index_if list comparator arg = do
  (p, l) ← scan (list.count + 1) (matches comparator arg) (reset_cur_node list)
  if p == null then (do set_errno enoent; pure (none, l)) else pure (some l.cur_index, l)

-- what `pop_of` does behind its three branches
abbrev after_pop : LinkedList → LinkedList
after_pop list =
    let l = record list { count = count_down list.count } in
    if l.count == 0
    then record l { head = null; tail = null; cur_index = pos 0; current = at_head }
    else l

unfoldable pub unlink : Ptr → Cmd (Unit {0})
unlink p = do
  n ← load p
  set_next n.prev n.next
  set_prev n.next n.prev
  set_next p null
  set_prev p null

unfoldable pub pop_of : LinkedList → ℤ → Cmd (Ptr × LinkedList)
pop_of list index =
    if is_empty list
    then (do set_errno enoent; pure (null, list))
    else if is_zero index
    then (do
      let p = list.head
      n ← load p
      when (not (n.next == null)) (set_prev n.next null)
      set_next p null
      pure (p, after_pop (reset_cur_node (record list { head = n.next }))))
    else if get_size list == to_uint32 index
    then (do
      let p = list.tail
      n ← load p
      when (not (n.prev == null)) (set_next n.prev null)
      set_prev p null
      pure (p, after_pop (reset_cur_node (record list { tail = n.prev }))))
    else (do
      (p, l) ← get_node_of list index
      when (not (p == null)) (unlink p)
      pure (p, after_pop l))

unfoldable pub push_at : LinkedList → ℤ → Ptr → Cmd (Status × LinkedList)
push_at list index p =
    if is_empty list
    then (let l = reset_cur_node (record list { head = p; tail = p }) in
        pure (success, record l { count = count_up l.count }))
    else if is_zero index
    then (do
      set_prev list.head p
      set_next p list.head
      let l = reset_cur_node (record list { head = p })
      pure (success, record l { count = count_up l.count }))
    else if get_size list == to_uint32 index
    then (do
      set_next list.tail p
      set_prev p list.tail
      let l = reset_cur_node (record list { tail = p })
      pure (success, record l { count = count_up l.count }))
    else (do
      (target, l) ← get_node_of list index
      if target == null then pure (fail, l) else (do
        set_next p target
        n ← load target
        set_prev p n.prev
        set_next n.prev p
        set_prev target p
        pure (success, record l { count = count_up l.count })))

unfoldable pub pop_if : LinkedList → Comparator → Ptr → Cmd (Ptr × LinkedList)
pop_if list comparator arg =
    let l = reset_cur_node list in
    if is_empty l then (do set_errno enoent; pure (null, l)) else (do
      (p, l') ← scan (l.count + 1) (matches comparator arg) l
      if p == null
          then (do set_errno enoent; pure (null, l'))
          else (do l'' ← remove_node l' p; pure (p, l'')))

unfoldable pub remove_data : LinkedList → Ptr → Cmd (Status × LinkedList)
remove_data list value = do
  (p, l) ← scan (list.count + 1) (λ v. value == v) (reset_cur_node list)
  if p == null then pure (fail, l) else (do l' ← remove_node l p; free_node p; pure (success, l'))

-- The loop of `get_set_if`. The target list is made at the first match, which faults in `new_node` if
-- its struct cannot be allocated (`made` says whether it can); `supply i` is the address for the
-- node of the i-th match, and a match whose node cannot be allocated is left out.
abbrev no_pool : LinkedList
no_pool = record {
  count = 0;
  sort_count = 0;
  cur_index = pos 0;
  mempool = null;
  lock = null;
  head = null;
  tail = null;
  current = at_head;
}

unfoldable pub append_match :
    Bool → (ℕ → Ptr) → ℕ → Ptr → Option LinkedList → Cmd (Option LinkedList)
append_match made supply i value target =
    let add = λ (l : LinkedList). (do
      p ← new_node (supply i) value
      if p == null
          then pure (some l)
          else (do (s, l') ← push_at l (pos (get_size l)) p; pure (some l'))) in
    elim target [
      | some l ↦ add l
      | none ↦ if made then (do set_errno einval; add no_pool) else (λ _. fault)
    ]

unfoldable pub collect :
    ℕ
    → (Ptr → Bool)
    → Bool
    → (ℕ → Ptr)
    → ℕ
    → Option LinkedList
    → LinkedList
    → Cmd (Option LinkedList × LinkedList)
collect zero test made supply i target list = λ _. out_of_fuel
collect (suc fuel) test made supply i target list = do
  p ← deref list list.current
  if p == null then pure (target, list) else (do
    n ← load p
    t ← (if test n.value then append_match made supply i n.value target else pure target)
    if n.next == null
        then pure (t, list)
        else collect fuel test made supply (if test n.value then suc i else i) t
            (record list { current = at_next p; cur_index = increment list.cur_index }))

unfoldable pub get_set_if :
    Bool → (ℕ → Ptr) → LinkedList → Comparator → Ptr → Cmd (Option LinkedList × LinkedList)
get_set_if made supply list comparator arg = do
  (t, l) ←
      collect (list.count + 1) (matches comparator arg) made supply 0 none (reset_cur_node list)
  elim t [ none ↦ (do set_errno enoent; pure (none, l)) | some s ↦ pure (some s, l) ]

-- The inner loop of `llist_sort` with the rounds that are left; the result is `node1` behind it.
unfoldable pub bubble : Comparator → ℕ → Ptr → Cmd Ptr
bubble comparator zero p = pure p
bubble comparator (suc rounds) p = if p == null then pure p else (do
  n ← load p
  if n.next == null then pure p else (do
    value2 ← get_data n.next
    when (is_positive (comparator n.value value2)) (swap_data p n.next)
    bubble comparator rounds n.next))

-- The outer loop: `size` is also the number of rounds that are left.
unfoldable pub sort_rounds : Comparator → ℕ → Ptr → LinkedList → Cmd LinkedList
sort_rounds comparator zero node1 list = pure list
sort_rounds comparator (suc size) node1 list = if node1 == null then pure list else (do
  p ← bubble comparator (suc size) list.head
  sort_rounds comparator size p (record list { sort_count = count_up list.sort_count }))

unfoldable pub llist_sort : LinkedList → Comparator → Cmd LinkedList
llist_sort list comparator = sort_rounds comparator list.count list.head list
