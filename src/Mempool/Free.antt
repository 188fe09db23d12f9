-- ===== src/Mempool/Free.antt =====
-- `cplus_mempool_free` of src/mempool.c on the free blocks.
use libcplus.Common.{
  ℕ, zero, suc, ◌+◌, ◌-◌, ◌%◌, ◌^◌, ◌<◌, ◌≤◌, ◌≡◌, ◌≢◌, refl, sym, ◌∙◌, ap, true, false, List, [],
  ◌∷◌, ◌++◌, inl, inr, arith, ltb, ◌==◌, if◌then◌else◌, length, Bool-cases, ltb→lt, ltb→le, ne→==,
  eq→==, ==→ne, Status, success,
}
use libcplus.Mempool.{null, Store, write_word, index_to_addr, addr_to_index, cplus_mempool_free}
use libcplus.Mempool.Index.{
  index_to_addr-inj, addr_to_index-index_to_addr, index_to_addr-ne_null, block_count-lt,
}
use libcplus.Mempool.Rep.{upto, among, head_or, Chain, IsPool}
use libcplus.Mempool.Count.{length-le_count}
use libcplus.Mempool.Initialize.{nonempty, write_word_ne, write_word_self}
use libcplus.Mempool.Alloc.{first-le, next_of, all_initialized}

-- the block `i` is free again, and no other word changed
pub record Freed (s : Store) (i : ℕ) (free : List ℕ) (r : Status × Store) : Type 0 where
  pub status : r.0 ≡ success
  pub pool : IsPool r.1 (i ∷ free)
  pub frame : (a : ℕ) → a ≢ index_to_addr s.pool i → r.1.words a ≡ s.words a
  pub errno : r.1.errno ≡ s.errno

among-upto : (i a n : ℕ) → a ≤ i → i < a + n → among i (upto a n) ≡ true
among-upto i a zero lo hi = absurd (omega arith)
among-upto i a (suc n) lo hi = elim (Bool-cases (i == a)) [
  | inl e ↦ rw e refl
  | inr e ↦ let ne = ==→ne i a e in rw (e) (among-upto i (a + 1) n (omega arith) (omega arith))
]

outside :
    (i : ℕ) (is js : List ℕ)
    → among i (is ++ js) ≡ false
    → (among i is ≡ false) × (among i js ≡ false)
outside i [] js o = (refl, o)
outside i (k ∷ is) js o = elim (Bool-cases (i == k)) [
  | inl e ↦ absurd (ground arith)
  | inr e ↦ rw e (outside i is js (ground arith))
]

among_one : (i j : ℕ) → among i (j ∷ []) ≡ false → i ≢ j
among_one i j o = ground arith

first_of_none : (is : List ℕ) (e n : ℕ) (us : List ℕ) → [] ≡ is ++ us → n ≡ e → n ≡ head_or is e
first_of_none [] e n us h same = same
first_of_none (i ∷ is) e n us h same = absurd (nonempty (i ∷ is ++ us) (sym h) (omega arith))

-- the word that `cplus_mempool_free` stores names the first block of the chain
stored_word :
    (s : Store) (free : List ℕ) (is : IsPool s free)
    → (if s.pool.next_block == null
        then s.pool.block_count
        else addr_to_index s.pool s.pool.next_block)
      ≡ head_or is.chain s.pool.initialized_blocks_count
unfolding addr_to_index
stored_word s [] is =
    let next : s.pool.next_block ≡ null =
      is.next
      ∙ ap (λ b. if b then null else index_to_addr s.pool 0)
          (eq→== s.pool.free_blocks_count 0 is.count) in
    let full = all_initialized s is in
    let init = is.initialized in
    rw (eq→== s.pool.next_block null next) (
      first_of_none is.chain s.pool.initialized_blocks_count s.pool.block_count
        (upto s.pool.initialized_blocks_count
          (s.pool.block_count - s.pool.initialized_blocks_count))
        is.blocks (omega arith))
stored_word s (f ∷ free) is =
    let n = s.pool.block_count - s.pool.initialized_blocks_count in
    let same =
      next_of is.chain (f ∷ free) s.pool.initialized_blocks_count n is.blocks (omega arith) in
    let bound = first-le s f free is in
    let next : s.pool.next_block ≡ index_to_addr s.pool f =
      is.next
      ∙ ap (λ b. if b then null else index_to_addr s.pool f)
          (ne→== s.pool.free_blocks_count 0 (omega (arith, is.count))) in
    rw (next, ne→== (index_to_addr s.pool f) null (index_to_addr-ne_null s.pool is.fits f bound))
      (addr_to_index-index_to_addr s.pool is.fits f bound ∙ sym same)

module _ (s : Store) (free : List ℕ) (is : IsPool s free) (i : ℕ) (used : among i free ≡ false)
    (hi : i < s.pool.block_count) where
  out :
      (among i is.chain ≡ false)
      × (among i (
            upto s.pool.initialized_blocks_count
              (s.pool.block_count - s.pool.initialized_blocks_count))
          ≡ false)
  out =
      outside i is.chain
        (upto s.pool.initialized_blocks_count
          (s.pool.block_count - s.pool.initialized_blocks_count))
        (ap (among i) (sym is.blocks) ∙ used)

  was_initialized : i < s.pool.initialized_blocks_count
  was_initialized = elim (Bool-cases (ltb i s.pool.initialized_blocks_count)) [
    | inl e ↦ ltb→lt i s.pool.initialized_blocks_count e
    | inr e ↦
        let le = ltb→le i s.pool.initialized_blocks_count e in
        let init = is.initialized in
        absurd (
          ground (
            arith,
            out.1,
            among-upto i s.pool.initialized_blocks_count
                (s.pool.block_count - s.pool.initialized_blocks_count) le (omega arith),
          ))
  ]

  Chain-write :
      (word e : ℕ) (js : List ℕ)
      → e ≤ s.pool.block_count
      → among i js ≡ false
      → Chain (index_to_addr s.pool) s.words js e
      → Chain (index_to_addr s.pool) (write_word s.words (index_to_addr s.pool i) word) js e
  Chain-write word e [] h o c = tt
  Chain-write word e (j ∷ js) h o c =
      let split = outside i (j ∷ []) js o in
      let lt = c.0 in
      let ne : j ≢ i = λ same. among_one i j split.0 (sym same) in
      (
        c.0,
        write_word_ne s.words (index_to_addr s.pool i) word (index_to_addr s.pool j)
              (λ same. ne (index_to_addr-inj s.pool is.fits j i (omega arith) (omega arith) same))
            ∙ c.1,
        c.2,
        Chain-write word e js h split.1 c.3,
      )

  -- `cplus_mempool_free` of the address of a block in use succeeds and puts the block in front of
  -- the free ones, which keep their order. It touches no word of another block.
  pub cplus_mempool_free-Freed : Freed s i free (cplus_mempool_free (index_to_addr s.pool i) s)
  unfolding cplus_mempool_free index_to_addr
  cplus_mempool_free-Freed =
      let lt = was_initialized in
      let small = block_count-lt s.pool is.fits in
      let word = head_or is.chain s.pool.initialized_blocks_count in
      let more : (s.pool.free_blocks_count + 1) % 2 ^ 32 ≡ length (i ∷ free) =
        let le = length-le_count s free is in omega (arith, is.count) in
      rw
        (
          ne→== (index_to_addr s.pool i) null
              (index_to_addr-ne_null s.pool is.fits i (omega arith)),
          stored_word s free is,
        )
        record {
          status = refl;
          pool = record {
            chain = i ∷ is.chain;
            fits = record { word = is.fits.word; bytes = is.fits.bytes; start = is.fits.start };
            initialized = is.initialized;
            blocks = ap (λ l. i ∷ l) is.blocks;
            links = (
              lt,
              write_word_self s.words (index_to_addr s.pool i) word,
              out.0,
              Chain-write word s.pool.initialized_blocks_count is.chain is.initialized out.0
                  is.links,
            );
            count = more;
            next =
                ap (λ b. if b then null else index_to_addr s.pool i)
                  (sym (ne→== ((s.pool.free_blocks_count + 1) % 2 ^ 32) 0 (omega arith)));
          };
          frame = λ a ne. write_word_ne s.words (index_to_addr s.pool i) word a ne;
          errno = refl;
        }
