-- ===== src/Llist/Clear.antt =====
-- `cplus_llist_clear` of src/llist.c.
use libcplus.Common.{
  ℕ, zero, suc, ◌+◌, ◌<◌, ◌≡◌, refl, true, false, none, [], ◌∷◌, arith, length, ne→==,
}
use libcplus.Heap.{Ptr, null, Mem, write}
use libcplus.Heap.Returns.{Returns, returns, Returns-weaken, Returns-and_then}
use libcplus.Llist.{LinkedList, success, reset_cur_node}
use libcplus.Llist.Access.{load-at, free_node-at, write_self, write_ne}
use libcplus.Llist.Api.{free_nodes, cplus_llist_clear}
use libcplus.Llist.Rep.{IsList, IsCursor, IsCursor-head}
use libcplus.Llist.Segment.{Cells, has, first, Segment, Segment-write}

-- every node of `xs` is freed, and nothing else is touched
pub record Cleared (m : Mem) (xs : Cells) (m' : Mem) : Type 0 where
  pub freed : (a : Ptr) → has a xs ≡ true → m'.heap a ≡ none
  pub frame : (a : Ptr) → has a xs ≡ false → m'.heap a ≡ m.heap a
  pub errno : m'.errno ≡ m.errno

free_nodes-Cleared :
    (m : Mem) (b : Ptr) (xs : Cells) (fuel : ℕ)
    → Segment m.heap b xs null
    → length xs < fuel
    → Returns (λ _ m'. Cleared m xs m') (free_nodes fuel (first xs null) m)
unfolding free_nodes
free_nodes-Cleared m b xs zero s h = absurd (omega arith)
free_nodes-Cleared m b [] (suc fuel) s h =
    returns (record { freed = λ a i. cc; frame = λ a o. refl; errno = refl })
free_nodes-Cleared m b ((p, v) ∷ xs) (suc fuel) s h =
    let m1 : Mem = record m { heap = write m.heap p none } in
    rw (ne→== p null s.0.ne_null, load-at m p s.0, free_node-at m p s.0)
      (Returns-weaken
        (free_nodes-Cleared m1 p xs fuel (Segment-write m.heap p xs null p none s.1 s.2)
          (omega arith))
        λ _ m' d. record {
          freed = λ a i. ground (arith, d.freed a, d.frame a, write_self m.heap p none);
          frame = λ a o. ground (arith, d.frame a, write_ne m.heap p none a);
          errno = d.errno;
        })

abbrev pub emptied : LinkedList → LinkedList
emptied l = reset_cur_node (record l { count = 0; sort_count = 0; head = null; tail = null })

module _ (m : Mem) (l : LinkedList) (xs : Cells) (is : IsList m.heap l xs) where
  -- `cplus_llist_clear` succeeds, frees every node and nothing else, and leaves the empty list with
  -- its counters at 0 and its cursor at the head.
  pub cplus_llist_clear-Cleared :
      Returns
        (λ r m'.
          (r.0 ≡ success)
          × Cleared m xs m'
          × IsList m'.heap r.1 []
          × IsCursor m'.heap r.1 [] 0
          × (r.1.sort_count ≡ 0))
        (cplus_llist_clear l m)
  unfolding cplus_llist_clear reset_cur_node
  cplus_llist_clear-Cleared =
      rw (cplus_llist_clear, is.head)
        (Returns-and_then (free_nodes-Cleared m null xs (l.count + 1) is.chain (omega arith))
          λ _ m' d.
            let empty : IsList m'.heap (emptied l) [] = record {
              chain = tt;
              head = refl;
              tail = refl;
              count = refl;
              small = omega arith;
            } in
            returns (refl, d, empty, IsCursor-head empty refl refl, refl))
