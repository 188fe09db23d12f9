-- ===== src/Llist/Get.antt =====
-- `cplus_llist_get_of` of src/llist.c.
use libcplus.Common.{
  Bool-cases, ltb→lt, ltb→le, ℕ, ◌+◌, ◌-◌, ◌%◌, ◌^◌, ◌<◌, ◌≤◌, ◌≡◌, refl, true, false, inl, inr,
  arith, if◌then◌else◌, length, ℤ, pos, negsuc, ne→==, to_int32, ltb,
}
use libcplus.Heap.{Run, Ptr, null, Mem, ok, einval}
use libcplus.Llist.{LinkedList, get_size}
use libcplus.Llist.Access.{get_data-at}
use libcplus.Llist.Api.{out_of_interval, cplus_llist_get_of}
use libcplus.Llist.Rep.{IsList, IsCursor}
use libcplus.Llist.Segment.{Cells, ptr_at, value_at, IsAt-Segment}
use libcplus.Llist.Walk.{moved, get_node_of-ok}

-- `(int32_t)(cplus_llist_get_size(obj) - 1)`
pub last_index : ℕ → ℤ
last_index count = to_int32 ((count + 2 ^ 32 - 1) % 2 ^ 32)

pub in_range :
    (n j : ℕ)
    → j < n
    → n < 2147483647
    → out_of_interval (pos j) (pos 0) (to_int32 ((n + 2 ^ 32 - 1) % 2 ^ 32)) ≡ false
in_range n j h s = ground arith

pub get_of-in_range :
    (m : Mem) (l : LinkedList) (xs : Cells) (i j : ℕ)
    → IsList m.heap l xs
    → IsCursor m.heap l xs i
    → j < length xs
    → cplus_llist_get_of l (pos j) m ≡ ok (value_at xs j, moved l xs i j) m
unfolding cplus_llist_get_of get_size
get_of-in_range m l xs i j is c h =
    let at = IsAt-Segment null xs null j is.chain h in
    rw (
      cplus_llist_get_of,
      in_range l.count j (omega arith) (omega arith),
      get_node_of-ok m xs is.chain l i j c (omega arith) h,
      ne→== (ptr_at xs j null) null at.ne_null,
      get_data-at m (ptr_at xs j null) at,
    )

-- what reading a position of the list should give
abbrev pub read_at : Mem → LinkedList → Cells → ℕ → ℤ → Run (Ptr × LinkedList)
read_at m l xs i (pos j) =
    if ltb j (length xs)
    then ok (value_at xs j, moved l xs i j) m
    else ok (null, l) (record m { errno = einval })
read_at m l xs i (negsuc j) = ok (null, l) (record m { errno = einval })

out_of_range :
    (n j : ℕ)
    → n ≤ j
    → n < 2147483647
    → out_of_interval (pos j) (pos 0) (to_int32 ((n + 2 ^ 32 - 1) % 2 ^ 32)) ≡ true
out_of_range n j h s = ground arith

get_of-out_of_range :
    (m : Mem) (l : LinkedList) (xs : Cells) (j : ℕ)
    → IsList m.heap l xs
    → length xs ≤ j
    → cplus_llist_get_of l (pos j) m ≡ ok (null, l) (record m { errno = einval })
unfolding cplus_llist_get_of get_size
get_of-out_of_range m l xs j is h =
    rw (cplus_llist_get_of, out_of_range l.count j (omega arith) (omega arith))

-- From a list with its cursor in order, `cplus_llist_get_of` returns the value at an index of the
-- list and leaves the nodes alone and the cursor there; at any other index it returns NULL, sets
-- `errno` to EINVAL and changes nothing else.
pub get_of-read_at :
    (m : Mem) (l : LinkedList) (xs : Cells) (i : ℕ) (index : ℤ)
    → IsList m.heap l xs
    → IsCursor m.heap l xs i
    → cplus_llist_get_of l index m ≡ read_at m l xs i index
get_of-read_at m l xs i (negsuc j) is c = unfold cplus_llist_get_of in refl
get_of-read_at m l xs i (pos j) is c = elim (Bool-cases (ltb j (length xs))) [
  | inl h ↦ rw h (get_of-in_range m l xs i j is c (ltb→lt j (length xs) h))
  | inr h ↦ rw h (get_of-out_of_range m l xs j is (ltb→le j (length xs) h))
]
