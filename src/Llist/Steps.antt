-- ===== src/Llist/Steps.antt =====
-- `cplus_llist_get_cycling_next` of src/llist.c, called again and again.
use libcplus.Common.{
  ℕ, zero, suc, ◌+◌, ◌<◌, ◌≡◌, refl, sym, ◌∙◌, ap, List, [], ◌∷◌, arith, length, ne→==, eq→==,
}
use libcplus.Heap.{Heap, Ptr, null, Mem, ok, Cmd, pure, ◌>>=◌}
use libcplus.Heap.Returns.{Returns, returns, Returns-and_then}
use libcplus.Llist.{LinkedList, get_current, get_next, reset_cur_node}
use libcplus.Llist.Access.{load-at, get_data-at}
use libcplus.Llist.Cursor.{cplus_llist_get_cycling_next}
use libcplus.Llist.Rep.{IsList, IsCursor, IsCursor-head, deref-ok, values}
use libcplus.Llist.Segment.{
  Cells, ptr_at, value_at, Segment, IsAt-Segment, ptr_at-length, ptr_before-suc,
}
use libcplus.Llist.Walk.{forward, IsCursor-forward}

module _ (m : Mem) (xs : Cells) (chain : Segment m.heap null xs null) (l : LinkedList) (i : ℕ)
    (c : IsCursor m.heap l xs i) where
  get_next-inside :
      suc i < length xs → get_next l m ≡ ok (ptr_at xs (suc i) null, forward l xs (suc i)) m
  unfolding get_next
  get_next-inside h =
      let at = IsAt-Segment null xs null i chain (omega arith) in
      let next = IsAt-Segment null xs null (suc i) chain h in
      let index : i + 1 ≡ suc i = omega arith in
      rw
        (
          deref-ok m l l.current c.readable c.leads,
          ne→== (ptr_at xs i null) null at.ne_null,
          load-at m (ptr_at xs i null) at,
          ne→== (ptr_at xs (suc i) null) null next.ne_null,
          c.index,
          ptr_before-suc null xs null i (omega arith),
          index,
        )
        refl

  get_next-last : suc i ≡ length xs → get_next l m ≡ ok (null, l) m
  unfolding get_next
  get_next-last h =
      let at = IsAt-Segment null xs null i chain (omega arith) in
      let end : ptr_at xs (suc i) null ≡ null =
        ap (λ k. ptr_at xs k null) h ∙ ptr_at-length xs null in
      rw
        (
          deref-ok m l l.current c.readable c.leads,
          ne→== (ptr_at xs i null) null at.ne_null,
          load-at m (ptr_at xs i null) at,
          eq→== (ptr_at xs (suc i) null) null end,
        )
        refl

  cycling-inside :
      suc i < length xs
      → cplus_llist_get_cycling_next l m ≡ ok (value_at xs i, forward l xs (suc i)) m
  unfolding cplus_llist_get_cycling_next get_current
  cycling-inside h =
      let at = IsAt-Segment null xs null i chain (omega arith) in
      let next = IsAt-Segment null xs null (suc i) chain h in
      rw
        (
          deref-ok m l l.current c.readable c.leads,
          ne→== (ptr_at xs i null) null at.ne_null,
          get_data-at m (ptr_at xs i null) at,
          get_next-inside h,
          ne→== (ptr_at xs (suc i) null) null next.ne_null,
        )
        refl

  cycling-last :
      suc i ≡ length xs → cplus_llist_get_cycling_next l m ≡ ok (value_at xs i, reset_cur_node l) m
  unfolding cplus_llist_get_cycling_next get_current
  cycling-last h =
      let at = IsAt-Segment null xs null i chain (omega arith) in
      rw
        (
          deref-ok m l l.current c.readable c.leads,
          ne→== (ptr_at xs i null) null at.ne_null,
          get_data-at m (ptr_at xs i null) at,
          get_next-last h,
        )
        refl

-- the values from a position on
abbrev from : Cells → ℕ → List Ptr
from [] i = []
from (x ∷ xs) zero = values (x ∷ xs)
from (x ∷ xs) (suc i) = from xs i

from-step : (xs : Cells) (i : ℕ) → i < length xs → from xs i ≡ value_at xs i ∷ from xs (suc i)
from-step [] i h = absurd (omega arith)
from-step (x ∷ []) zero h = refl
from-step (x ∷ y ∷ xs) zero h = refl
from-step (x ∷ xs) (suc i) h = from-step xs i (omega arith)

from-length : (xs : Cells) → from xs (length xs) ≡ []
from-length [] = refl
from-length (x ∷ xs) = from-length xs

-- what that many calls of `cplus_llist_get_cycling_next` answer
unfoldable pub lap : ℕ → LinkedList → Cmd (List Ptr × LinkedList)
lap zero l = pure ([], l)
lap (suc k) l = do
  (v, l') ← cplus_llist_get_cycling_next l
  (vs, l'') ← lap k l'
  pure (v ∷ vs, l'')

-- the calls answered `vs`, left the memory, and the cursor is at `j`
abbrev pub Round : Mem → Cells → List Ptr → ℕ → List Ptr × LinkedList → Mem → Type 0
Round m xs vs j r m' = (r.0 ≡ vs) × IsList m'.heap r.1 xs × IsCursor m'.heap r.1 xs j × (m' ≡ m)

-- a change of the cursor alone
IsList-forward :
    {h : Heap} {l : LinkedList} {xs : Cells} (i : ℕ) → IsList h l xs → IsList h (forward l xs i) xs
IsList-forward i is = record {
  chain = is.chain;
  head = is.head;
  tail = is.tail;
  count = is.count;
  small = is.small;
}

IsList-reset :
    {h : Heap} {l : LinkedList} {xs : Cells} → IsList h l xs → IsList h (reset_cur_node l) xs
unfolding reset_cur_node
IsList-reset is = record {
  chain = is.chain;
  head = is.head;
  tail = is.tail;
  count = is.count;
  small = is.small;
}

lap-Round :
    (m : Mem) (xs : Cells) (k i : ℕ) (l : LinkedList)
    → IsList m.heap l xs
    → IsCursor m.heap l xs i
    → i + suc k ≡ length xs
    → Returns (Round m xs (from xs i) 0) (lap (suc k) l m)
unfolding lap reset_cur_node
lap-Round m xs zero i l is c e =
    let list = IsList-reset is in
    let one : value_at xs i ∷ [] ≡ from xs i = sym (
      from-step xs i (omega arith)
      ∙ ap (λ vs. value_at xs i ∷ vs) (ap (from xs) (omega arith) ∙ from-length xs)) in
    rw (cycling-last m xs is.chain l i c (omega arith))
      (returns (one, list, IsCursor-head list refl refl, refl))
lap-Round m xs (suc k) i l is c e =
    let next = forward l xs (suc i) in
    rw (cycling-inside m xs is.chain l i c (omega arith)) (
      Returns-and_then
        (lap-Round m xs k (suc i) next (IsList-forward (suc i) is)
          (IsCursor-forward m xs is.chain l i (omega arith)) (omega arith))
        λ r m' d.
          returns
            (ap (λ vs. value_at xs i ∷ vs) d.0 ∙ sym (from-step xs i (omega arith)), d.1, d.2, d.3))

-- From the head of a list that is not empty, one call of `cplus_llist_get_cycling_next` for each node
-- answers the values in order, leaves the memory, and comes back to the head.
pub lap-values :
    (m : Mem) (l : LinkedList) (xs : Cells)
    → IsList m.heap l xs
    → IsCursor m.heap l xs 0
    → 0 < length xs
    → Returns (Round m xs (values xs) 0) (lap (length xs) l m)
lap-values m l [] is c h = absurd (omega arith)
lap-values m l (x ∷ xs) is c h = lap-Round m (x ∷ xs) (length xs) 0 l is c (omega arith)
