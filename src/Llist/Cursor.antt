-- ===== src/Llist/Cursor.antt =====
-- The public functions of src/llist.c that read at the ends and at the cursor, step it, compare two
-- lists position by position, or make a list.
use libcplus.Common.{
  ℕ, zero, suc, ◌*◌, Bool, true, false, Option, none, some, pos, ltb, ◌==◌, if◌then◌else◌, is_zero,
}
use libcplus.Heap.{Ptr, null, Cmd, pure, ◌>>=◌, ◌>>◌, einval, enomem, set_errno}
use libcplus.Llist.{
  at_head, LinkedList, Comparator, get_data, reset_cur_node, get_current, get_next, get_prev,
}
use libcplus.Llist.Api.{data_of, cplus_llist_get_size, cplus_llist_get_of}

unfoldable pub cplus_llist_get_head : LinkedList → Cmd Ptr
cplus_llist_get_head list = data_of list.head

unfoldable pub cplus_llist_get_tail : LinkedList → Cmd Ptr
cplus_llist_get_tail list = data_of list.tail

unfoldable pub cplus_llist_get_current : LinkedList → Cmd Ptr
cplus_llist_get_current list = do p ← get_current list; data_of p

unfoldable pub cplus_llist_get_next : LinkedList → Cmd (Ptr × LinkedList)
cplus_llist_get_next list = do (p, l) ← get_next list; v ← data_of p; pure (v, l)

unfoldable pub cplus_llist_get_prev : LinkedList → Cmd (Ptr × LinkedList)
cplus_llist_get_prev list = do (p, l) ← get_prev list; v ← data_of p; pure (v, l)

unfoldable pub cplus_llist_get_cycling_next : LinkedList → Cmd (Ptr × LinkedList)
cplus_llist_get_cycling_next list = do
  p ← get_current list
  if p == null then pure (null, list) else (do
    v ← get_data p
    (q, l) ← get_next list
    pure (v, if q == null then reset_cur_node l else l))

-- The loop of `is_consist` with the rounds that are left, on two different lists.
unfoldable pub compare_from :
    Comparator → (rounds idx : ℕ) → LinkedList → LinkedList → Cmd (Bool × LinkedList × LinkedList)
compare_from comparator zero idx l1 l2 = pure (true, l1, l2)
compare_from comparator (suc rounds) idx l1 l2 = do
  (v1, l1') ← cplus_llist_get_of l1 (pos idx)
  (v2, l2') ← cplus_llist_get_of l2 (pos idx)
  if is_zero (comparator v1 v2)
      then compare_from comparator rounds (suc idx) l1' l2'
      else pure (false, l1', l2')

unfoldable pub cplus_llist_is_consist :
    LinkedList → LinkedList → Option Comparator → Cmd (Bool × LinkedList × LinkedList)
cplus_llist_is_consist l1 l2 none = do set_errno einval; pure (false, l1, l2)
cplus_llist_is_consist l1 l2 (some comparator) =
    if cplus_llist_get_size l1 == cplus_llist_get_size l2
    then compare_from comparator (cplus_llist_get_size l1) 0 l1 l2
    else pure (false, l1, l2)

abbrev pub new_list : (pool lock : Ptr) → LinkedList
new_list pool lock = record {
  count = 0;
  sort_count = 0;
  cur_index = pos 0;
  mempool = pool;
  lock = lock;
  head = null;
  tail = null;
  current = at_head;
}

-- `made` says whether the struct can be allocated; `pool` and `lock` are what `cplus_mempool_new`
-- and `cplus_rwlock_new` return; the former sets EINVAL when it is asked for no blocks.
unfoldable pub llist_initialize_object :
    Bool → (pool lock : Ptr) → (max_count : ℕ) → (thread_safe : Bool) → Cmd (Option LinkedList)
llist_initialize_object false pool lock max_count thread_safe = do set_errno enomem; pure none
llist_initialize_object true pool lock max_count thread_safe =
    if pool == null
    then (if max_count == 0
        then (do set_errno einval; pure (some (new_list null (if thread_safe then lock else null))))
        else (do set_errno enomem; pure none))
    else pure (some (new_list pool (if thread_safe then lock else null)))

abbrev pub max_node_count : ℕ
max_node_count = 1024 * 1024

unfoldable pub cplus_llist_prev_new :
    Bool → (pool : Ptr) → (max_count : ℕ) → Cmd (Option LinkedList)
cplus_llist_prev_new made pool max_count =
    if ltb max_node_count max_count
    then (do set_errno einval; pure none)
    else llist_initialize_object made pool null max_count false

unfoldable pub cplus_llist_new : Bool → (pool : Ptr) → Cmd (Option LinkedList)
cplus_llist_new made pool = llist_initialize_object made pool null 0 false

unfoldable pub cplus_llist_prev_new_s :
    Bool → (pool lock : Ptr) → (max_count : ℕ) → Cmd (Option LinkedList)
cplus_llist_prev_new_s made pool lock max_count =
    if ltb max_node_count max_count
    then (do set_errno einval; pure none)
    else llist_initialize_object made pool lock max_count true

unfoldable pub cplus_llist_new_s : Bool → (pool lock : Ptr) → Cmd (Option LinkedList)
cplus_llist_new_s made pool lock = llist_initialize_object made pool lock 0 true
