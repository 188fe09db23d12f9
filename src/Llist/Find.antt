-- ===== src/Llist/Find.antt =====
-- The public searches of src/llist.c: `cplus_llist_get_if` and `cplus_llist_get_index_if`.
use mathlib.Core.Option
use libcplus.Common.{ℕ, zero, suc, ◌≡◌, refl, Option, none, some, pos, ne→==}
use libcplus.Heap.{Ptr, null, node, Mem, ok, enoent}
use libcplus.Llist.{LinkedList, Comparator, reset_cur_node}
use libcplus.Llist.Access.{get_data-at}
use libcplus.Llist.Api.{cplus_llist_get_if, cplus_llist_get_index_if}
use libcplus.Llist.Ops.{matches, get_node_if, get_index_if}
use libcplus.Llist.Rep.{IsList, values}
use libcplus.Llist.Search.{arrived, find, find-Found, searched, scan-find}
use libcplus.Llist.Segment.{ptr_before, Cells, ptr_at, value_at, IsAt, IsAt-Segment}

-- the memory after a search: only a failure sets `errno`
abbrev pub searched_mem : Mem → Option ℕ → Mem
searched_mem m none = record m { errno = enoent }
searched_mem m (some j) = m

abbrev pub value_or_null : Cells → Option ℕ → Ptr
value_or_null xs none = null
value_or_null xs (some j) = value_at xs j

arrived-index : (l : LinkedList) (xs : Cells) (j : ℕ) → (arrived l xs j).cur_index ≡ pos j
arrived-index l xs zero = refl
arrived-index l xs (suc j) = refl

module _ (m : Mem) (l : LinkedList) (xs : Cells) (is : IsList m.heap l xs) (comparator : Comparator)
    (arg : Ptr) where
  at_found :
      (j : ℕ)
      → find (matches comparator arg) (values xs) ≡ some j
      → IsAt m.heap
          (ptr_at xs j null)
          (node (value_at xs j) (ptr_before null xs j) (ptr_at xs (suc j) null))
  at_found j e =
      IsAt-Segment null xs null j is.chain (rw e at (find-Found (matches comparator arg) xs)).0

  get_if-searched :
      (o : Option ℕ)
      → find (matches comparator arg) (values xs) ≡ o
      → cplus_llist_get_if l (some comparator) arg m
        ≡ ok (value_or_null xs o, (searched l xs o).1) (searched_mem m o)
  unfolding cplus_llist_get_if get_node_if reset_cur_node
  get_if-searched none e =
      rw (cplus_llist_get_if, get_node_if, scan-find m l xs (matches comparator arg) is, e)
  get_if-searched (some j) e =
      let at = at_found j e in
      rw (
        cplus_llist_get_if,
        get_node_if,
        scan-find m l xs (matches comparator arg) is,
        e,
        ne→== (ptr_at xs j null) null at.ne_null,
        ne→== (ptr_at xs j null) null at.ne_null,
        get_data-at m (ptr_at xs j null) at,
      )

  get_index_if-searched :
      (o : Option ℕ)
      → find (matches comparator arg) (values xs) ≡ o
      → cplus_llist_get_index_if l (some comparator) arg m
        ≡ ok (Option.map pos o, (searched l xs o).1) (searched_mem m o)
  unfolding cplus_llist_get_index_if get_index_if reset_cur_node
  get_index_if-searched none e =
      rw (cplus_llist_get_index_if, get_index_if, scan-find m l xs (matches comparator arg) is, e)
  get_index_if-searched (some j) e =
      let at = at_found j e in
      rw (
        cplus_llist_get_index_if,
        get_index_if,
        scan-find m l xs (matches comparator arg) is,
        e,
        ne→== (ptr_at xs j null) null at.ne_null,
        arrived-index l xs j,
      )

  -- `cplus_llist_get_if` and `cplus_llist_get_index_if` return the first value that is not NULL and for
  -- which the comparator answers 0, and its index, and leave the cursor there. If there is none, they
  -- return NULL and CPLUS_FAIL, set `errno`, and leave the cursor on the last node. Neither changes
  -- a node.
  pub get_if-find :
      let o = find (matches comparator arg) (values xs) in
      (cplus_llist_get_if l (some comparator) arg m
        ≡ ok (value_or_null xs o, (searched l xs o).1) (searched_mem m o))
      × (cplus_llist_get_index_if l (some comparator) arg m
          ≡ ok (Option.map pos o, (searched l xs o).1) (searched_mem m o))
  get_if-find = (
    get_if-searched (find (matches comparator arg) (values xs)) refl,
    get_index_if-searched (find (matches comparator arg) (values xs)) refl,
  )
