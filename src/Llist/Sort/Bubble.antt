-- ===== src/Llist/Sort/Bubble.antt =====
-- The inner loop of `llist_sort` in src/llist.c, on the heap.
use libcplus.Common.{
  ℕ, zero, suc, ◌≡◌, ◌≢◌, refl, sym, ◌∙◌, false, some, [], ◌∷◌, inl, inr, arith, ◌==◌, ne→==, ==→ne,
  Bool-cases, is_positive,
}
use libcplus.Heap.{Ptr, null, node, Node, Mem, ok}
use libcplus.Heap.Returns.{Returns, returns, Returns-weaken}
use libcplus.Llist.{Comparator, swap_data}
use libcplus.Llist.Ops.{bubble}
use libcplus.Llist.Access.{
  stored, load-at, get_data-at, set_value-at, IsAt-write_self, IsAt-write_ne, write_ne, write_self,
}
use libcplus.Llist.Segment.{Cells, has, first, IsAt, Segment, Segment-write}
use libcplus.Llist.Sort.Places.{
  bubble_cells, addresses-bubble_cells, has-SameAddresses, first-SameAddresses,
}

-- `xs` became `ys` in place, and nothing else changed
pub record Moved (m : Mem) (b : Ptr) (xs ys : Cells) (m' : Mem) : Type 0 where
  pub chain : Segment m'.heap b ys null
  pub frame : (a : Ptr) → has a xs ≡ false → m'.heap a ≡ m.heap a
  pub errno : m'.errno ≡ m.errno

swap_data-at :
    (m : Mem) (p q : Ptr) {n k : Node}
    → q ≢ p
    → IsAt m.heap p n
    → IsAt m.heap q k
    → swap_data p q m
      ≡ ok tt (
          stored
            (stored m p (some (record n { value = k.value })))
            q
            (some (record k { value = n.value })))
unfolding swap_data
swap_data-at m p q {n} {k} ne at_p at_q =
    rw
      (
        ne→== p null at_p.ne_null,
        ne→== q null at_q.ne_null,
        load-at m p at_p,
        load-at m q at_q,
        set_value-at m p at_p k.value,
        set_value-at (stored m p (some (record n { value = k.value }))) q
            (IsAt-write_ne m.heap p q (some (record n { value = k.value })) ne at_q) n.value,
      )
      refl

ne_of_out : (a q w : Ptr) (xs : Cells) → has a ((q, w) ∷ xs) ≡ false → a ≢ q
ne_of_out a q w xs h = elim (Bool-cases (a == q)) [ inl e ↦ ground arith | inr e ↦ ==→ne a q e ]

out_of_tail : (a q w : Ptr) (xs : Cells) → has a ((q, w) ∷ xs) ≡ false → has a xs ≡ false
out_of_tail a q w xs h = ground arith

sym_ne : {a b : Ptr} → a ≢ b → b ≢ a
sym_ne ne = λ e. ne (sym e)

-- a node in front of a run of the loop
prepend :
    (comparator : Comparator) (r : ℕ) (m : Mem) (b p q z y : Ptr) (xs : Cells)
    → has p ((q, z) ∷ xs) ≡ false
    → IsAt m.heap p (node y b q)
    → Segment m.heap p (bubble_cells comparator r ((q, z) ∷ xs)) null
    → Segment m.heap b ((p, y) ∷ bubble_cells comparator r ((q, z) ∷ xs)) null
prepend comparator r m b p q z y xs out at s =
    let run = bubble_cells comparator r ((q, z) ∷ xs) in
    let same = addresses-bubble_cells comparator r ((q, z) ∷ xs) in
    (
      rw (first-SameAddresses run ((q, z) ∷ xs) same null) at,
      has-SameAddresses run ((q, z) ∷ xs) same p ∙ out,
      s,
    )

module _ (comparator : Comparator) where
  pub bubble-Moved :
      (r : ℕ) (m : Mem) (b p v : Ptr) (xs : Cells)
      → Segment m.heap b ((p, v) ∷ xs) null
      → Returns
          (λ q m'.
            (q ≢ null) × Moved m b ((p, v) ∷ xs) (bubble_cells comparator r ((p, v) ∷ xs)) m')
          (bubble comparator r p m)
  unfolding bubble bubble_cells
  bubble-Moved zero m b p v xs s =
      returns (s.0.ne_null, record { chain = s; frame = λ a o. refl; errno = refl })
  bubble-Moved (suc r) m b p v [] s =
      rw (ne→== p null s.0.ne_null, load-at m p s.0)
        (returns (s.0.ne_null, record { chain = s; frame = λ a o. refl; errno = refl }))
  bubble-Moved (suc r) m b p v ((q, w) ∷ xs) s =
      let out = s.1 in
      let ne = ne_of_out p q w xs out in
      let out' = out_of_tail p q w xs out in
      rw
        (
          ne→== p null s.0.ne_null,
          load-at m p s.0,
          ne→== q null s.2.0.ne_null,
          get_data-at m q s.2.0,
        )
        (elim (Bool-cases (is_positive (comparator v w))) [
          | inl e ↦
              let c1 = some (node w b q) in
              let c2 = some (node v p (first xs null)) in
              let m1 : Mem = stored m p c1 in
              let m2 : Mem = stored m1 q c2 in
              let s2 : Segment m2.heap p ((q, v) ∷ xs) null = (
                IsAt-write_self m1.heap q (node v p (first xs null)) s.2.0.ne_null,
                s.2.1,
                Segment-write m1.heap q xs null q c2 s.2.1
                    (Segment-write m.heap q xs null p c1 out' s.2.2),
              ) in
              rw (e, swap_data-at m p q (sym_ne ne) s.0 s.2.0)
                (Returns-weaken (bubble-Moved r m2 p q v xs s2) λ x m' d. (
                  d.0,
                  record {
                    chain =
                        prepend comparator r m' b p q v w xs out
                          record {
                            ne_null = s.0.ne_null;
                            holds =
                                d.1.frame p out
                                ∙ write_ne m1.heap q c2 p ne
                                ∙ write_self m.heap p c1;
                          }
                          d.1.chain;
                    frame = λ a o.
                        d.1.frame a (out_of_tail a p v ((q, w) ∷ xs) o)
                        ∙ write_ne m1.heap q c2 a
                            (ne_of_out a q w xs (out_of_tail a p v ((q, w) ∷ xs) o))
                        ∙ write_ne m.heap p c1 a (ne_of_out a p v ((q, w) ∷ xs) o);
                    errno = d.1.errno;
                  },
                ))
          | inr e ↦ rw e (
              Returns-weaken (bubble-Moved r m p q w xs s.2) λ x m' d. (
                d.0,
                record {
                  chain =
                      prepend comparator r m' b p q w v xs out
                        record { ne_null = s.0.ne_null; holds = d.1.frame p out ∙ s.0.holds }
                        d.1.chain;
                  frame = λ a o. d.1.frame a (out_of_tail a p v ((q, w) ∷ xs) o);
                  errno = d.1.errno;
                },
              ))
        ])
