-- ===== src/Llist/Access.antt =====
-- What the commands on a node do where the heap has the node.
use libcplus.Common.{refl, ◌≡◌, ◌≢◌, Option, none, some, arith}
use libcplus.Heap.{
  fault, release, Ptr, null, Node, Heap, Mem, ok, write, load, set_prev, set_next, set_value,
}
use libcplus.Llist.{free_node, get_data}
use libcplus.Llist.Segment.{IsAt}

abbrev pub stored : Mem → Ptr → Option Node → Mem
stored m p c = record m { heap = write m.heap p c }

module _ (m : Mem) (p : Ptr) {n : Node} (at : IsAt m.heap p n) where
  pub load-at : load p m ≡ ok n m
  unfolding load
  load-at = ground arith

  pub get_data-at : get_data p m ≡ ok n.value m
  unfolding get_data load
  get_data-at = ground arith

  pub set_prev-at : (q : Ptr) → set_prev p q m ≡ ok tt (stored m p (some (record n { prev = q })))
  unfolding set_prev
  set_prev-at q = ground arith

  pub set_next-at : (q : Ptr) → set_next p q m ≡ ok tt (stored m p (some (record n { next = q })))
  unfolding set_next
  set_next-at q = ground arith

  pub set_value-at :
      (v : Ptr) → set_value p v m ≡ ok tt (stored m p (some (record n { value = v })))
  unfolding set_value
  set_value-at v = ground arith

  pub free_node-at : free_node p m ≡ ok tt (stored m p none)
  unfolding free_node release load write
  free_node-at = ground arith

pub IsAt-write_self : (h : Heap) (p : Ptr) (n : Node) → p ≢ null → IsAt (write h p (some n)) p n
unfolding write
IsAt-write_self h p n ne = ground arith

pub IsAt-write_ne :
    (h : Heap) (p q : Ptr) (c : Option Node) {n : Node}
    → q ≢ p
    → IsAt h q n
    → IsAt (write h p c) q n
unfolding write
IsAt-write_ne h p q c ne at = ground arith

pub write_self : (h : Heap) (p : Ptr) (c : Option Node) → write h p c p ≡ c
unfolding write
write_self h p c = ground arith

pub write_ne : (h : Heap) (p : Ptr) (c : Option Node) (q : Ptr) → q ≢ p → write h p c q ≡ h q
unfolding write
write_ne h p c q ne = ground arith

pub set_prev-null : (m : Mem) (q : Ptr) → set_prev null q m ≡ fault
unfolding set_prev load
set_prev-null m q = refl
