-- ===== src/Llist/Tests.antt =====
-- Runs of src/llist.c on a list of three nodes, and its theorems there.
use libcplus.Common.{
  ◌≡◌, refl, inr, none, some, [], ◌∷◌, ◌==◌, if◌then◌else◌, arith, insert_at, pos, ltb,
}
use libcplus.Heap.{null, node, Heap, Mem, ok, fault, no_error, and_then}
use libcplus.Heap.Returns.{Returns}
use libcplus.Llist.{at_head, at_next, at_prev, LinkedList, Comparator, success}
use libcplus.Llist.Api.{
  cplus_llist_get_of, cplus_llist_push_at, cplus_llist_pop_of, cplus_llist_get_if,
  cplus_llist_get_index_if, cplus_llist_pop_if, cplus_llist_clear, cplus_llist_sort,
}
use libcplus.Llist.Rep.{IsList, IsCursor}
use libcplus.Llist.Segment.{Cells}
use libcplus.Llist.Get.{read_at, get_of-read_at}
use libcplus.Llist.Insert.{Inserted, cplus_llist_push_at-Inserted}
use libcplus.Llist.Remove.{Popped, cplus_llist_pop_of-Popped, cplus_llist_pop_of-fault}
use libcplus.Llist.Search.{searched}
use libcplus.Llist.Find.{get_if-find}
use libcplus.Llist.Take.{TakenIf, cplus_llist_pop_if-find}
use libcplus.Llist.Stale.{get_of-push_at, get_of-push_at_stale}
use libcplus.Llist.Clear.{Cleared, cplus_llist_clear-Cleared}
use libcplus.Llist.Sort.{Sorted, cplus_llist_sort-Sorted}
use libcplus.Llist.Sort.Values.{IsOrder}

abbrev three_nodes : Heap
three_nodes p =
    if p == 1
    then some (node 30 0 2)
    else if p == 2
    then some (node 10 1 3)
    else if p == 3
    then some (node 20 2 0)
    else none

abbrev mem : Mem
mem = record { heap = three_nodes; errno = no_error }

abbrev cells : Cells
cells = (1, 30) ∷ (2, 10) ∷ (3, 20) ∷ []

-- the cursor is at the head
abbrev list : LinkedList
list = record {
  count = 3;
  sort_count = 0;
  cur_index = pos 0;
  mempool = null;
  lock = null;
  head = 1;
  tail = 3;
  current = at_head;
}

-- the cursor came from the right and is at position 1, or is at position 2
abbrev list_in_the_middle : LinkedList
list_in_the_middle = record list { cur_index = pos 1; current = at_prev 3 }

abbrev list_at_the_end : LinkedList
list_at_the_end = record list { cur_index = pos 2; current = at_next 2 }

list-IsList : IsList mem.heap list cells
list-IsList = record {
  chain = (
    record { ne_null = omega arith; holds = refl },
    refl,
    (
      record { ne_null = omega arith; holds = refl },
      refl,
      (record { ne_null = omega arith; holds = refl }, refl, tt),
    ),
  );
  head = refl;
  tail = refl;
  count = refl;
  small = omega arith;
}

list_in_the_middle-IsList : IsList mem.heap list_in_the_middle cells
list_in_the_middle-IsList = record {
  chain = list-IsList.chain;
  head = refl;
  tail = refl;
  count = refl;
  small = omega arith;
}

list_at_the_end-IsList : IsList mem.heap list_at_the_end cells
list_at_the_end-IsList = record {
  chain = list-IsList.chain;
  head = refl;
  tail = refl;
  count = refl;
  small = omega arith;
}

list-IsCursor : IsCursor mem.heap list cells 0
list-IsCursor = record { index = refl; leads = refl; readable = tt; inside = omega arith }

list_in_the_middle-IsCursor : IsCursor mem.heap list_in_the_middle cells 1
list_in_the_middle-IsCursor = record {
  index = refl;
  leads = refl;
  readable = omega arith;
  inside = omega arith;
}

list_at_the_end-IsCursor : IsCursor mem.heap list_at_the_end cells 2
list_at_the_end-IsCursor = record {
  index = refl;
  leads = refl;
  readable = omega arith;
  inside = omega arith;
}

-- 0 on equal values; and a positive answer if the first value is greater
abbrev equal : Comparator
equal a b = if a == b then pos 0 else pos 1

abbrev ascending : Comparator
ascending a b = if ltb b a then pos 1 else pos 0

ascending-IsOrder : IsOrder ascending
ascending-IsOrder = record { total = λ a b h. ground arith; trans = λ a b c h k. ground arith }

get_of-read_at_example :
    cplus_llist_get_of list_at_the_end (pos 1) mem ≡ read_at mem list_at_the_end cells 2 (pos 1)
get_of-read_at_example =
    get_of-read_at mem list_at_the_end cells 2 (pos 1) list_at_the_end-IsList
      list_at_the_end-IsCursor

cplus_llist_push_at-Inserted_example :
    Returns (Inserted mem cells 0 1 4 40) (cplus_llist_push_at 4 list (pos 1) 40 mem)
cplus_llist_push_at-Inserted_example =
    cplus_llist_push_at-Inserted mem list 4 40 (omega arith) refl cells 0 1 (omega arith)
      list-IsList list-IsCursor (omega arith) (omega arith)

cplus_llist_pop_of-Popped_example :
    Returns (Popped mem cells 2 1) (cplus_llist_pop_of list_at_the_end (pos 1) mem)
cplus_llist_pop_of-Popped_example =
    cplus_llist_pop_of-Popped mem list_at_the_end cells 2 1 list_at_the_end-IsList
      list_at_the_end-IsCursor (omega arith) (omega arith) (inr (omega arith))

cplus_llist_pop_of-fault_example : cplus_llist_pop_of list (pos 2) mem ≡ fault
cplus_llist_pop_of-fault_example =
    cplus_llist_pop_of-fault mem list cells 0 1 list-IsList list-IsCursor refl

get_if-find_example :
    (cplus_llist_get_if list (some equal) 20 mem ≡ ok (20, (searched list cells (some 2)).1) mem)
    × (cplus_llist_get_index_if list (some equal) 20 mem
        ≡ ok (some (pos 2), (searched list cells (some 2)).1) mem)
get_if-find_example = get_if-find mem list cells list-IsList equal 20

cplus_llist_pop_if-find_example :
    Returns (TakenIf mem list cells (some 2)) (cplus_llist_pop_if list (some equal) 20 mem)
cplus_llist_pop_if-find_example = cplus_llist_pop_if-find mem list cells list-IsList equal 20

get_of-push_at_example :
    Returns
      (λ r m'.
        (r.0 ≡ 40)
        × IsList m'.heap r.1 (insert_at cells 1 (4, 40))
        × IsCursor m'.heap r.1 (insert_at cells 1 (4, 40)) 1)
      (and_then (cplus_llist_push_at 4 list (pos 1) 40 mem) (λ r. cplus_llist_get_of r.1 (pos 1)))
get_of-push_at_example =
    get_of-push_at mem list 4 40 cells 0 1 (omega arith) refl (omega arith) list-IsList
      list-IsCursor (omega arith) (omega arith) (inr (omega arith))

get_of-push_at_stale_example :
    Returns
      (λ r m'. r.0 ≡ 10)
      (and_then
        (cplus_llist_push_at 4 list_at_the_end (pos 1) 40 mem)
        (λ r. cplus_llist_get_of r.1 (pos 1)))
get_of-push_at_stale_example =
    get_of-push_at_stale mem list_at_the_end 4 40 cells 2 1 (omega arith) refl (omega arith)
      list_at_the_end-IsList list_at_the_end-IsCursor (omega arith) (omega arith) (omega arith)
      (omega arith)

cplus_llist_clear-Cleared_example :
    Returns
      (λ r m'.
        (r.0 ≡ success)
        × Cleared mem cells m'
        × IsList m'.heap r.1 []
        × IsCursor m'.heap r.1 [] 0
        × (r.1.sort_count ≡ 0))
      (cplus_llist_clear list mem)
cplus_llist_clear-Cleared_example = cplus_llist_clear-Cleared mem list cells list-IsList

cplus_llist_sort-Sorted_example :
    Returns
      (λ r m'. Sorted ascending mem list cells r m' × (r.0 ≡ success))
      (cplus_llist_sort list (some ascending) mem)
cplus_llist_sort-Sorted_example =
    cplus_llist_sort-Sorted ascending ascending-IsOrder mem list cells list-IsList (omega arith)
      (omega arith)
