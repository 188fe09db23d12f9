-- ===== src/Llist/Insert.antt =====
-- `cplus_llist_push_at` of src/llist.c.
use libcplus.Common.{
  le→ltb, lt→ltb, length-insert_at, ℕ, zero, suc, ◌+◌, ◌<◌, ◌≤◌, ◌≡◌, ◌≢◌, refl, false, ◌⊎◌, inl,
  inr, Option, none, some, [], ◌∷◌, arith, ◌==◌, length, insert_at, pos, ne→==, to_int32,
  Bool-cases, ==→eq, ==→ne, ◌∙◌,
}
use libcplus.Heap.{Ptr, null, Node, node, Heap, Mem, write}
use libcplus.Heap.Returns.{Returns, Returns-weaken}
use libcplus.Llist.{Loc, at_head, at_next, at_prev, LinkedList, Status, get_size, new_node}
use libcplus.Llist.Access.{IsAt-write_self, write_ne}
use libcplus.Llist.Api.{out_of_interval, cplus_llist_push_at}
use libcplus.Llist.Ops.{push_at}
use libcplus.Llist.PushInside.{push_at-middle}
use libcplus.Llist.Push.{IsFresh, Pushed, push_at-empty, push_at-front, push_at-back}
use libcplus.Llist.Rep.{target, IsList, IsCursor, IsStale}
use libcplus.Llist.Segment.{
  IsAt-Segment, ptr_before-suc, ptr_at-insert_at_behind, ptr_before-insert_at, Cells, has, Segment,
  Segment-write,
}
use libcplus.Llist.Walk.{moved}

-- An address that holds no node is not in a list.
pub not_has_of_none :
    (h : Heap) (b : Ptr) (xs : Cells) (e a : Ptr) → Segment h b xs e → h a ≡ none → has a xs ≡ false
not_has_of_none h b [] e a s n = refl
not_has_of_none h b ((p, v) ∷ xs) e a s n = ground (arith, not_has_of_none h p xs e a s.2 n)

-- Where the cursor is after an insertion at `j` that was reached from position `i`: at the head if
-- the node went to an end; at the new node, if the walk came from the left; and behind a walk from
-- the right it says `j`, but leads to the node behind the new one.
pub record CursorAfter (h : Heap) (l : LinkedList) (xs : Cells) (n : ℕ) (i j : ℕ) : Type 0 where
  pub at_end : (j ≡ 0) ⊎ (j ≡ n) → IsCursor h l xs 0
  pub from_left : 0 < j → i < j → j < n → IsCursor h l xs j
  pub from_right : 0 < j → j < i → j < n → IsStale h l xs j (suc j)

module _ (h : Heap) (l : LinkedList) (xs : Cells) (i k : ℕ) (p v : Ptr)
    (chain : Segment h null (insert_at xs (suc k) (p, v)) null) where
  abbrev ys : Cells
  ys = insert_at xs (suc k) (p, v)

  IsCursor-from_left :
      i < suc k
      → suc k < length xs
      → (n : ℕ) → IsCursor h (record (moved l xs i (suc k)) { count = n }) ys (suc k)
  IsCursor-from_left lt hk n =
      let size = length-insert_at xs (suc k) (p, v) in
      let at = IsAt-Segment null ys null k chain (omega arith) in
      let before = ptr_before-suc null ys null k (omega arith) in
      let same = ptr_before-insert_at null xs (suc k) (p, v) (omega arith) in
      rw (ne→== (suc k) i (omega arith), lt→ltb i (suc k) lt)
        (record {
          index = refl;
          leads = rw (← same, before, at.holds);
          readable = rw (← same, before) at.ne_null;
          inside = omega arith;
        })

  cursor_from_right :
      suc k < i
      → suc (suc k) < length xs
      → (n : ℕ) → IsStale h (record (moved l xs i (suc k)) { count = n }) ys (suc k) (suc (suc k))
  cursor_from_right gt hk n =
      let size = length-insert_at xs (suc k) (p, v) in
      let at = IsAt-Segment null ys null (suc (suc (suc k))) chain (omega arith) in
      let before = ptr_before-suc null ys null (suc (suc k)) (omega arith) in
      let same =
        ptr_at-insert_at_behind xs (suc k) (suc (suc k)) (p, v) null (omega arith) (omega arith) in
      rw (ne→== (suc k) i (omega arith), le→ltb i (suc k) (omega arith))
        (record {
          index = refl;
          leads = rw (← same, at.holds, before);
          readable = rw (← same) at.ne_null;
        })

target-write :
    (h : Heap) (head : Ptr) (c : Loc) (p q : Ptr) (n : Option Node)
    → h p ≡ none
    → target h head c ≡ some q
    → target (write h p n) head c ≡ some q
unfolding write
target-write h head at_head p q n f e = e
target-write h head (at_next a) p q n f e = ground arith
target-write h head (at_prev a) p q n f e = ground arith

in_interval :
    (n j : ℕ) → j ≤ n → n < 2147483647 → out_of_interval (pos j) (pos 0) (to_int32 n) ≡ false
in_interval n j h s = ground arith

abbrev pub Inserted : Mem → Cells → ℕ → ℕ → Ptr → Ptr → Status × LinkedList → Mem → Type 0
Inserted m xs i j p v r m' =
    Pushed m xs j p v r m' × CursorAfter m'.heap r.1 (insert_at xs j (p, v)) (length xs) i j

module _ (m : Mem) (l : LinkedList) (p v : Ptr) (ne : p ≢ null) (unused : m.heap p ≡ none) where
  -- the memory with the new node
  abbrev made : Mem
  made = record m { heap = write m.heap p (some (node v null null)) }

  IsFresh-made : (xs : Cells) → IsList m.heap l xs → IsFresh made.heap xs p v
  IsFresh-made xs is = record {
    at = IsAt-write_self m.heap p _ ne;
    apart = not_has_of_none m.heap null xs null p is.chain unused;
  }

  IsList-made : (xs : Cells) → IsList m.heap l xs → IsList made.heap l xs
  IsList-made xs is = record {
    chain =
        Segment-write m.heap null xs null p _
          (not_has_of_none m.heap null xs null p is.chain unused) is.chain;
    head = is.head;
    tail = is.tail;
    count = is.count;
    small = is.small;
  }

  IsCursor-made : (xs : Cells) (i : ℕ) → IsCursor m.heap l xs i → IsCursor made.heap l xs i
  IsCursor-made xs i c = record {
    index = c.index;
    leads = target-write m.heap l.head l.current p _ _ unused c.leads;
    readable = c.readable;
    inside = c.inside;
  }

  Pushed-made :
      (xs : Cells) (j : ℕ) (r : Status × LinkedList) (m' : Mem)
      → Pushed made xs j p v r m'
      → Pushed m xs j p v r m'
  Pushed-made xs j r m' d = record {
    status = d.status;
    list = d.list;
    frame = λ a o n. d.frame a o n ∙ write_ne m.heap p _ a n;
    errno = d.errno;
  }

  -- an insertion in front
  at_head_end :
      {h : Heap} {r : LinkedList} {ys : Cells} {n i : ℕ}
      → IsCursor h r ys 0
      → CursorAfter h r ys n i 0
  at_head_end c = record {
    at_end = λ _. c;
    from_left = λ lo a b. absurd (omega arith);
    from_right = λ lo a b. absurd (omega arith);
  }

  push_at-Inserted :
      (xs : Cells) (i j : ℕ)
      → IsList m.heap l xs
      → IsCursor m.heap l xs i
      → j ≤ length xs
      → length xs + 1 < 2147483647
      → Returns (Inserted m xs i j p v) (push_at l (pos j) p made)
  push_at-Inserted [] i zero is c h s =
      Returns-weaken (push_at-empty made l p v (IsList-made [] is) (IsFresh-made [] is))
        λ r m' d. (Pushed-made [] 0 r m' d.0, at_head_end d.1)
  push_at-Inserted [] i (suc j) is c h s = absurd (omega arith)
  push_at-Inserted ((q, w) ∷ xs) i zero is c h s =
      let ys : Cells = (q, w) ∷ xs in
      Returns-weaken
        (push_at-front made l p v q w xs (IsList-made ys is) (IsFresh-made ys is) (omega arith))
        λ r m' d. (Pushed-made ys 0 r m' d.0, at_head_end d.1)
  push_at-Inserted ((q, w) ∷ xs) i (suc j) is c h s = elim (Bool-cases (suc j == length ys)) [
    | inl e ↦ rw (==→eq (suc j) (length ys) e) (
        Returns-weaken
          (push_at-back made l p v (length xs) ys refl (IsList-made ys is) (IsFresh-made ys is)
            (omega arith))
          λ r m' d. (
            Pushed-made ys (length ys) r m' d.0,
            record {
              at_end = λ _. d.1;
              from_left = λ lo a b. absurd (omega arith);
              from_right = λ lo a b. absurd (omega arith);
            },
          ))
    | inr n ↦
        let differs = ==→ne (suc j) (length ys) n in
        Returns-weaken
          (push_at-middle made l p v i j ys (omega arith) (IsList-made ys is) (IsCursor-made ys i c)
            (IsFresh-made ys is) (omega arith))
          λ r m' d. (
            Pushed-made ys (suc j) r m' d.0,
            record {
              at_end = elim [ inl e ↦ absurd (omega arith) | inr e ↦ absurd (differs e) ];
              from_left = λ lo lt hj.
                  rw d.1 (IsCursor-from_left m'.heap l ys i j p v d.0.list.chain lt hj _);
              from_right = λ lo gt hj.
                  rw d.1 (cursor_from_right m'.heap l ys i j p v d.0.list.chain gt (omega arith) _);
            },
          )
  ]
    where
      ys : Cells
      ys = (q, w) ∷ xs

  -- On a list with its cursor in order, `cplus_llist_push_at` with an index up to the size, a value that
  -- is not NULL and a node that could be allocated at an unused address succeeds: the new node
  -- stands at that index, the others keep their order, no other memory changes, and the cursor is as
  -- `CursorAfter` says.
  pub cplus_llist_push_at-Inserted :
      (xs : Cells) (i j : ℕ)
      → v ≢ null
      → IsList m.heap l xs
      → IsCursor m.heap l xs i
      → j ≤ length xs
      → length xs + 1 < 2147483647
      → Returns (Inserted m xs i j p v) (cplus_llist_push_at p l (pos j) v m)
  unfolding cplus_llist_push_at get_size new_node
  cplus_llist_push_at-Inserted xs i j nv is c h s =
      rw
        (
          cplus_llist_push_at,
          ne→== v null nv,
          in_interval l.count j (omega arith) (omega arith),
          ne→== p null ne,
          ne→== p null ne,
        )
        (push_at-Inserted xs i j is c h s)
