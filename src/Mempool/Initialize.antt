-- ===== src/Mempool/Initialize.antt =====
-- The first part of `cplus_mempool_alloc` in src/mempool.c, which adds a block to the chain.
use libcplus.Common.{
  ℕ, suc, ◌+◌, ◌-◌, ◌%◌, ◌^◌, ◌<◌, ◌≡◌, ◌≢◌, refl, sym, ◌∙◌, ap, true, false, List, [], ◌∷◌, ◌++◌,
  inl, inr, arith, ltb, length, Bool-cases, ltb→lt, ltb→le, ne→==,
}
use libcplus.Mempool.{Mempool, Words, Store, write_word, index_to_addr, initialize_block}
use libcplus.Mempool.Index.{Fits, index_to_addr-inj, block_count-lt}
use libcplus.Mempool.Rep.{upto, among, head_or, Chain, IsPool}

abbrev snoc : List ℕ → ℕ → List ℕ
snoc is j = is ++ j ∷ []

append-snoc : (is : List ℕ) (j : ℕ) (js : List ℕ) → is ++ j ∷ js ≡ snoc is j ++ js
append-snoc [] j js = refl
append-snoc (i ∷ is) j js = ap (λ l. i ∷ l) (append-snoc is j js)

head_or-snoc : (is : List ℕ) (j e : ℕ) → head_or (snoc is j) e ≡ head_or is j
head_or-snoc [] j e = refl
head_or-snoc (i ∷ is) j e = refl

among-snoc :
    (a : ℕ) (is : List ℕ) (j : ℕ) → a < j → among a is ≡ false → among a (snoc is j) ≡ false
among-snoc a [] j h o = rw (ne→== a j (omega arith)) refl
among-snoc a (i ∷ is) j h o = ground (arith, among-snoc a is j h)

upto-suc : (a n : ℕ) → a < n → upto a (n - a) ≡ a ∷ upto (a + 1) (n - (a + 1))
upto-suc a n h = let e : n - a ≡ suc (n - (a + 1)) = omega arith in rw e refl

pub write_word_self : (w : Words) (a v : ℕ) → write_word w a v a ≡ v
unfolding write_word
write_word_self w a v = ground arith

pub write_word_ne : (w : Words) (a v b : ℕ) → b ≢ a → write_word w a v b ≡ w b
unfolding write_word
write_word_ne w a v b ne = ground arith

module _ (mp : Mempool) (fits : Fits mp) (w : Words) (j : ℕ) (h : j < mp.block_count) where
  abbrev written : Words
  written = write_word w (index_to_addr mp j) (j + 1)

  pub other :
      (i : ℕ) → i < mp.block_count → i ≢ j → written (index_to_addr mp i) ≡ w (index_to_addr mp i)
  other i hi ne =
      write_word_ne w (index_to_addr mp j) (j + 1) (index_to_addr mp i)
        λ e. ne (index_to_addr-inj mp fits i j (omega arith) (omega arith) e)

  Chain-snoc :
      (is : List ℕ)
      → Chain (index_to_addr mp) w is j
      → Chain (index_to_addr mp) written (snoc is j) (j + 1)
  Chain-snoc [] c = (omega arith, write_word_self w (index_to_addr mp j) (j + 1), refl, tt)
  Chain-snoc (i ∷ is) c =
      let lt = c.0 in
      (
        omega arith,
        other i (omega arith) (omega arith) ∙ c.1 ∙ sym (head_or-snoc is j (j + 1)),
        among-snoc i is j lt c.2,
        Chain-snoc is c.3,
      )

-- a pool whose chain is not empty unless no block is free
pub record IsReady (s : Store) (free : List ℕ) (w : Words) : Type 0 where
  pub pool : IsPool s free
  pub ready : 0 < length free → 0 < length pool.chain
  pub frame :
      (a : ℕ) → ((i : ℕ) → among i free ≡ true → a ≢ index_to_addr s.pool i) → s.words a ≡ w a

pub nonempty : (is : List ℕ) → is ≡ [] → 0 < length is → ⊥
nonempty is e h = let n : length is ≡ 0 = ap length e in omega arith

among-append : (j : ℕ) (is js : List ℕ) → among j (is ++ j ∷ js) ≡ true
among-append j [] js = ground arith
among-append j (i ∷ is) js = rw (among-append j is js) (ground arith)

length-append_suc : (is js : List ℕ) (j : ℕ) → 0 < length (is ++ j ∷ js)
length-append_suc [] js j = omega arith
length-append_suc (i ∷ is) js j = omega arith

module _ (s : Store) (free : List ℕ) (is : IsPool s free) where
  joined :
      s.pool.initialized_blocks_count < s.pool.block_count
      → (word : ℕ) → word ≡ s.pool.initialized_blocks_count + 1
      → IsReady
          (record s {
            words = write_word s.words (index_to_addr s.pool s.pool.initialized_blocks_count) word;
            pool = record s.pool { initialized_blocks_count = word };
          })
          free
          s.words
  unfolding index_to_addr
  joined h word e =
      let j = s.pool.initialized_blocks_count in
      let tail = upto-suc j s.pool.block_count h in
      let blocks : free ≡ is.chain ++ j ∷ upto (j + 1) (s.pool.block_count - (j + 1)) =
        is.blocks ∙ ap (λ l. is.chain ++ l) tail in
      rw e record {
        pool = record {
          chain = snoc is.chain j;
          fits = record { word = is.fits.word; bytes = is.fits.bytes; start = is.fits.start };
          initialized = omega arith;
          blocks = blocks ∙ append-snoc is.chain j (upto (j + 1) (s.pool.block_count - (j + 1)));
          links = Chain-snoc s.pool is.fits s.words j h is.chain is.links;
          count = is.count;
          next = is.next;
        };
        ready = λ _. length-append_suc is.chain [] j;
        frame = λ a out. write_word_ne s.words (index_to_addr s.pool j) (j + 1) a (
            out j (
              ap (among j) blocks
              ∙ among-append j is.chain (upto (j + 1) (s.pool.block_count - (j + 1)))));
      }

  ready_of : (chain : List ℕ) → free ≡ chain ++ [] → 0 < length free → 0 < length chain
  ready_of [] e h = absurd (nonempty free e h)
  ready_of (i ∷ is) e h = omega arith

  pub initialize_block-IsReady : IsReady (initialize_block s) free s.words
  unfolding initialize_block
  initialize_block-IsReady =
      let small = block_count-lt s.pool is.fits in
      elim (Bool-cases (ltb s.pool.initialized_blocks_count s.pool.block_count)) [
        | inl e ↦
            let h = ltb→lt s.pool.initialized_blocks_count s.pool.block_count e in
            rw e (joined h ((s.pool.initialized_blocks_count + 1) % 2 ^ 32) (omega arith))
        | inr e ↦
            let le = ltb→le s.pool.initialized_blocks_count s.pool.block_count e in
            let none_left : s.pool.block_count - s.pool.initialized_blocks_count ≡ 0 =
              omega arith in
            rw e record {
              pool = is;
              ready = ready_of is.chain (
                  is.blocks
                  ∙ ap (λ n. is.chain ++ upto s.pool.initialized_blocks_count n) none_left);
              frame = λ a out. refl;
            }
      ]
