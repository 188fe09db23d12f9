-- ===== src/Llist/Sort.antt =====
-- `cplus_llist_sort` of src/llist.c: the loops on the heap, and when the call reports success.
pub mod Values
pub mod Places
pub mod Bubble
use mathlib.Core.List.{Perm}
use libcplus.Common.{
  ℕ, zero, suc, ◌+◌, ◌%◌, ◌^◌, ◌<◌, ◌≡◌, ◌≢◌, refl, sym, ◌∙◌, ap, Bool, true, false, List, [], ◌∷◌,
  inl, inr, none, some, arith, ◌==◌, if◌then◌else◌, ne→==, eq→==, ==→eq, ==→ne, length, Bool-cases,
}
use libcplus.Heap.{Ptr, null, Mem, ok}
use libcplus.Heap.Returns.{Returns, returns, Returns-weaken, Returns-and_then}
use libcplus.Llist.{get_size, Comparator, LinkedList, Status, success, fail, is_sort, count_up}
use libcplus.Llist.Ops.{bubble, sort_rounds, llist_sort}
use libcplus.Llist.Api.{cplus_llist_sort}
use libcplus.Llist.Rep.{IsList, values}
use libcplus.Llist.Segment.{Cells, has, first, last, Segment}
use libcplus.Llist.Sort.Values.{IsOrder, IsSorted, sort_values-IsSorted, sort-perm, sort_values}
use libcplus.Llist.Sort.Places.{
  bubble_cells, sort_cells, SameAddresses, addresses-bubble_cells, addresses-sort_cells,
  values-sort_cells, has-SameAddresses, last-SameAddresses, first-SameAddresses,
  length-SameAddresses,
}
use libcplus.Llist.Sort.Bubble.{Moved, bubble-Moved}

abbrev ups : ℕ → ℕ → ℕ
ups zero c = c
ups (suc s) c = ups s (count_up c)

module _ (comparator : Comparator) where
  sort_rounds-Moved :
      (s : ℕ) (m : Mem) (p : Ptr) (l : LinkedList) (xs : Cells)
      → Segment m.heap null xs null
      → l.head ≡ first xs null
      → p ≢ null
      → 0 < length xs
      → Returns
          (λ l' m'.
            (l' ≡ record l { sort_count = ups s l.sort_count })
            × Moved m null xs (sort_cells comparator s xs) m')
          (sort_rounds comparator s p l m)
  unfolding sort_rounds sort_cells
  sort_rounds-Moved zero m p l xs c head ne h =
      returns (refl, record { chain = c; frame = λ a o. refl; errno = refl })
  sort_rounds-Moved (suc s) m p l [] c head ne h = absurd (omega arith)
  sort_rounds-Moved (suc s) m p l ((a, v) ∷ xs) c head ne h =
      let ys = bubble_cells comparator (suc s) ((a, v) ∷ xs) in
      let same = addresses-bubble_cells comparator (suc s) ((a, v) ∷ xs) in
      let first_same = first-SameAddresses ys ((a, v) ∷ xs) same null in
      let run : Returns (λ q m1. (q ≢ null) × Moved m null ((a, v) ∷ xs) ys m1)
          (bubble comparator (suc s) l.head m) =
        rw head (bubble-Moved comparator (suc s) m null a v xs c) in
      rw (ne→== p null ne) (
        Returns-and_then run λ q m1 d.
          (Returns-weaken
            (sort_rounds-Moved s m1 q (record l { sort_count = count_up l.sort_count }) ys d.1.chain
              (head ∙ sym first_same) d.0
              (rw (length-SameAddresses ys ((a, v) ∷ xs) same) (omega arith)))
            λ l' m' k. (
              k.0,
              record {
                chain = k.1.chain;
                frame = λ b o.
                    k.1.frame b (has-SameAddresses ys ((a, v) ∷ xs) same b ∙ o) ∙ d.1.frame b o;
                errno = k.1.errno ∙ d.1.errno;
              },
            )))

ups-add : (s c : ℕ) → c < 2 ^ 32 → ups s c ≡ (c + s) % 2 ^ 32
ups-add zero c h = omega arith
ups-add (suc s) c h = ups-add s (count_up c) (omega arith) ∙ (omega arith)

llist_sort-Moved :
    (comparator : Comparator) (m : Mem) (l : LinkedList) (xs : Cells)
    → IsList m.heap l xs
    → Returns
        (λ l' m'.
          (l' ≡ record l { sort_count = ups l.count l.sort_count })
          × Moved m null xs (sort_cells comparator l.count xs) m')
        (llist_sort l comparator m)
unfolding llist_sort sort_rounds sort_cells
llist_sort-Moved comparator m l [] is =
    rw (is.count) (returns (refl, record { chain = tt; frame = λ a o. refl; errno = refl }))
llist_sort-Moved comparator m l ((a, v) ∷ xs) is =
    sort_rounds-Moved comparator l.count m l.head l ((a, v) ∷ xs) is.chain is.head
      (rw (is.head) is.chain.0.ne_null) (omega arith)

-- the test of `is_sort` after the rounds
counted :
    (c s : ℕ)
    → c < 2 ^ 31
    → s < 2 ^ 32
    → (if c == (s + c) % 2 ^ 32 then success else fail) ≡ (if s == 0 then success else fail)
counted c s hc hs = elim (Bool-cases (s == 0)) [
  | inl e ↦ rw (==→eq s 0 e, eq→== c ((0 + c) % 2 ^ 32) (omega arith)) refl
  | inr e ↦ let ne = ==→ne s 0 e in rw (ne→== s 0 ne, ne→== c ((s + c) % 2 ^ 32) (omega arith)) refl
]

-- the list afterwards: the same nodes with the values in another order
pub record Sorted (comparator : Comparator) (m : Mem) (l : LinkedList) (xs : Cells)
    (r : Status × LinkedList) (m' : Mem) : Type 0 where
  pub cells : Cells
  pub list : IsList m'.heap r.1 cells
  pub addresses : SameAddresses cells xs
  pub permuted : Perm (values cells) (values xs)
  pub ordered : IsSorted comparator (values cells)
  pub frame : (a : Ptr) → has a xs ≡ false → m'.heap a ≡ m.heap a
  pub unmoved :
      (r.1.current ≡ l.current) × (r.1.cur_index ≡ l.cur_index) × (r.1.mempool ≡ l.mempool)
  pub rounds : r.1.sort_count ≡ (l.sort_count + l.count) % 2 ^ 32

length-values : (xs : Cells) → length xs ≡ length (values xs)
length-values [] = refl
length-values (x ∷ xs) = ap suc (length-values xs)

in_order :
    (comparator : Comparator)
    → IsOrder comparator
    → (n : ℕ) (xs : Cells) → n ≡ length xs
    → IsSorted comparator (sort_values comparator n (values xs))
in_order comparator order n xs e =
    rw (e ∙ length-values xs) (sort_values-IsSorted comparator order (values xs))

module _ (comparator : Comparator) (order : IsOrder comparator) (m : Mem) (l : LinkedList)
    (xs : Cells) (is : IsList m.heap l xs) (small : l.sort_count < 2 ^ 32)
    (unsorted : l.sort_count ≢ l.count) where
  -- On a list whose round counter is not its size, `cplus_llist_sort` by a total preorder keeps the
  -- nodes, permutes their values into order, leaves the cursor alone, and adds the size to the
  -- counter. It reports success if and only if the counter was 0.
  pub cplus_llist_sort-Sorted :
      Returns
        (λ r m'.
          Sorted comparator m l xs r m' × (r.0 ≡ (if l.sort_count == 0 then success else fail)))
        (cplus_llist_sort l (some comparator) m)
  unfolding cplus_llist_sort is_sort get_size
  cplus_llist_sort-Sorted =
      let ys = sort_cells comparator l.count xs in
      let same = addresses-sort_cells comparator l.count xs in
      let grown : ups l.count l.sort_count ≡ (l.sort_count + l.count) % 2 ^ 32 =
        ups-add l.count l.sort_count small in
      let status : (if l.count == ups l.count l.sort_count then success else fail)
          ≡ (if l.sort_count == 0 then success else fail) =
        rw grown (counted l.count l.sort_count (omega (arith, is.count, is.small)) small) in
      rw (ne→== l.count l.sort_count (λ e. unsorted (sym e))) (
        Returns-and_then (llist_sort-Moved comparator m l xs is) λ l' m' d. rw (d.0) (
          returns (
            record {
              cells = ys;
              list = record {
                chain = d.1.chain;
                head = is.head ∙ sym (first-SameAddresses ys xs same null);
                tail = is.tail ∙ sym (last-SameAddresses ys xs same null);
                count = is.count ∙ sym (length-SameAddresses ys xs same);
                small = rw (length-SameAddresses ys xs same) is.small;
              };
              addresses = same;
              permuted =
                  rw (values-sort_cells comparator l.count xs)
                    (sort-perm comparator l.count (values xs));
              ordered =
                  rw (values-sort_cells comparator l.count xs)
                    (in_order comparator order l.count xs is.count);
              frame = d.1.frame;
              unmoved = (refl, refl, refl);
              rounds = grown;
            },
            status,
          )))
