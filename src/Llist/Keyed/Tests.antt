-- ===== src/Llist/Keyed/Tests.antt =====
-- Runs of the keyed lists of src/llist.c on a list of one object.
use libcplus.Common.{
  ℕ, zero, suc, ◌≡◌, ◌≢◌, refl, ap, arith, true, false, Option, none, some, List, [], ◌∷◌, ◌==◌,
  if◌then◌else◌, length, pos, no_error,
}
use libcplus.Heap.{null, node, Mem}
use libcplus.Heap.Returns.{Returns}
use libcplus.Data.{Data, int32, scalar}
use libcplus.Data.Memory.{Malloc, replicate}
use libcplus.Data.RoundTrip.{Allocates}
use libcplus.Data.Text.{cstr, cstr_next}
use libcplus.Llist.{at_head, LinkedList}
use libcplus.Llist.Keyed.{
  Objects, cplus_llist_add_data_scalar, cplus_llist_update_data, find_node_by_key, compare_object,
  compare_key, compare_text, strcmp,
}
use libcplus.Llist.Keyed.Added.{Added, cplus_llist_add_data_scalar-find_data}
use libcplus.Llist.Keyed.Updated.{Doubled, cplus_llist_update_data-Doubled}
use libcplus.Llist.Rep.{IsList, IsCursor}
use libcplus.Llist.Segment.{Cells}
use libcplus.Data.Key.{cplus_data_get_key}

abbrev zeroed : Malloc
zeroed n = some (replicate n 0)

length-zeros : (n : ℕ) → length (replicate n 0) ≡ n
length-zeros zero = refl
length-zeros (suc n) = ap suc (length-zeros n)

zeroed-Allocates : Allocates zeroed
zeroed-Allocates n = (replicate n 0, refl, length-zeros n)

abbrev number : Option (List ℕ) → ℕ → ℕ → Data
number key len w = record {
  is_valid = true;
  action_mode = 0;
  key_len = len;
  key = key;
  spinlock = false;
  str_code = 0;
  bufs_size = 0;
  value = scalar int32 w;
}

-- the object 30 has the key "b"; the object 50 has none
abbrev two_objects : Objects
two_objects p =
    if p == 30
    then some (number (some (98 ∷ 0 ∷ [])) 2 7)
    else if p == 50
    then some (number none 0 8)
    else none

abbrev one_node : Mem
one_node = record { heap = λ p. if p == 1 then some (node 30 0 0) else none; errno = no_error }

abbrev one_cell : Cells
one_cell = (1, 30) ∷ []

abbrev short_list : LinkedList
short_list = record {
  count = 1;
  sort_count = 0;
  cur_index = pos 0;
  mempool = null;
  lock = null;
  head = 1;
  tail = 1;
  current = at_head;
}

short_list-IsList : IsList one_node.heap short_list one_cell
short_list-IsList = record {
  chain = (record { ne_null = omega arith; holds = refl }, refl, tt);
  head = refl;
  tail = refl;
  count = refl;
  small = omega arith;
}

short_list-IsCursor : IsCursor one_node.heap short_list one_cell 0
short_list-IsCursor = record { index = refl; leads = refl; readable = tt; inside = omega arith }

abbrev b : List ℕ
b = 98 ∷ []

abbrev a : List ℕ
a = 97 ∷ []

b_not_a : some b ≢ some a
b_not_a e = let heads : ◌≡◌ {A = ℕ} 98 97 = cc e in omega arith

cplus_llist_add_data_scalar-find_data_example :
    Returns (Added two_objects one_cell 2 40 (97 ∷ 0 ∷ []) (scalar int32 9)) (
      cplus_llist_add_data_scalar 2 40 zeroed two_objects short_list int32
        (some (97 ∷ 0 ∷ []))
        9
        one_node)
unfolding cstr cstr_next
cplus_llist_add_data_scalar-find_data_example =
    cplus_llist_add_data_scalar-find_data 2 40 zeroed two_objects short_list one_cell one_node int32
      9 (97 ∷ []) [] 0 (omega arith) refl (omega arith) refl short_list-IsList short_list-IsCursor
      (omega arith) zeroed-Allocates (omega arith, tt) (omega arith) (omega arith)
      ((number (some (98 ∷ 0 ∷ [])) 2 7, refl, b_not_a), tt)

cplus_llist_update_data-Doubled_example :
    Returns
      (Doubled two_objects one_cell 2 30 50 (98 ∷ []) (scalar int32 8))
      (cplus_llist_update_data 2 zeroed two_objects short_list (some (98 ∷ 0 ∷ [])) 50 one_node)
unfolding find_node_by_key compare_object compare_key compare_text strcmp cplus_data_get_key cstr
    cstr_next
cplus_llist_update_data-Doubled_example =
    cplus_llist_update_data-Doubled 2 30 50 zeroed two_objects short_list one_cell one_node int32 7
      8 (98 ∷ []) [] (number (some (98 ∷ 0 ∷ [])) 2 7) (number none 0 8) 0 refl refl (omega arith)
      refl (omega arith) (omega arith) (omega arith) short_list-IsList (omega arith) refl refl refl
      refl refl refl refl zeroed-Allocates (omega arith, tt) (omega arith) (omega arith)
