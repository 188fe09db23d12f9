-- ===== src/Llist/Rep.antt =====
-- What a `struct linked_list` stands for, and where its cursor is.
use libcplus.Common.{ℕ, ◌-◌, ◌<◌, ◌≤◌, ◌≡◌, ◌≢◌, Option, none, some, List, arith, length, pos, map}
use libcplus.Heap.{Ptr, null, Node, Heap, Mem, ok, load}
use libcplus.Llist.{Loc, at_head, at_next, at_prev, LinkedList, deref}
use libcplus.Llist.Segment.{Cells, first, last, ptr_at, IsAt, Segment, ptr_at-zero}

-- the stored values, in order
abbrev pub values : Cells → List Ptr
values xs = map (λ c. c.1) xs

-- The list `l` holds the nodes `xs`; below 2^31 - 1 of them, a count is its index.
pub record IsList (h : Heap) (l : LinkedList) (xs : Cells) : Type 0 where
  pub chain : Segment h null xs null
  pub head : l.head ≡ first xs null
  pub tail : l.tail ≡ last null xs
  pub count : l.count ≡ length xs
  pub small : length xs < 2147483647

-- what `*location` reads, where the heap has the node
abbrev pub target : Heap → Ptr → Loc → Option Ptr
target h head at_head = some head
target h head (at_next p) = elim (h p) [ none ↦ none | some n ↦ some n.next ]
target h head (at_prev p) = elim (h p) [ none ↦ none | some n ↦ some n.prev ]

abbrev pub IsLoc : Loc → Type 0
IsLoc at_head = Unit {0}
IsLoc (at_next p) = p ≢ null
IsLoc (at_prev p) = p ≢ null

-- The cursor is at position `i`: its index says so, and its location leads to that node.
pub record IsCursor (h : Heap) (l : LinkedList) (xs : Cells) (i : ℕ) : Type 0 where
  pub index : l.cur_index ≡ pos i
  pub leads : target h l.head l.current ≡ some (ptr_at xs i null)
  pub readable : IsLoc l.current
  pub inside : i ≤ length xs - 1

pub load-ok : (m : Mem) (p : Ptr) {n : Node} → IsAt m.heap p n → load p m ≡ ok n m
unfolding load
load-ok m p at = ground arith

pub deref-ok :
    (m : Mem) (l : LinkedList) (c : Loc) {p : Ptr}
    → IsLoc c
    → target m.heap l.head c ≡ some p
    → deref l c m ≡ ok p m
unfolding deref load
deref-ok m l at_head r e = ground arith
deref-ok m l (at_next p) r e = ground arith
deref-ok m l (at_prev p) r e = ground arith

-- A list with its cursor at the head, as after `reset_cur_node`.
pub IsCursor-head :
    {h : Heap} {l : LinkedList} {xs : Cells}
    → IsList h l xs
    → l.cur_index ≡ pos 0
    → l.current ≡ at_head
    → IsCursor h l xs 0
IsCursor-head {h} {l} {xs} is e c = record {
  index = e;
  leads = rw c (ground (arith, is.head, ptr_at-zero xs null));
  readable = rw c tt;
  inside = omega arith;
}

-- A cursor that says `j` and leads to the node at another position.
pub record IsStale (h : Heap) (l : LinkedList) (xs : Cells) (j other : ℕ) : Type 0 where
  pub index : l.cur_index ≡ pos j
  pub leads : target h l.head l.current ≡ some (ptr_at xs other null)
  pub readable : IsLoc l.current

abbrev pub IsAtHead : LinkedList → Type 0
IsAtHead l = (l.cur_index ≡ pos 0) × (l.current ≡ at_head)
