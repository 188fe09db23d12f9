-- ===== src/Mempool/Index.antt =====
-- The two conversions of src/mempool.c, where the size of the pool does not wrap.
use native.Mathlib.Nat.{mul-le-mul_left, mul-le-mul_right, mul-div_cancel_left}
use libcplus.Common.{ℕ, ◌+◌, ◌-◌, ◌*◌, ◌%◌, ◌^◌, ◌<◌, ◌≤◌, ◌≡◌, ◌≢◌, sym, ◌∙◌, ap, arith}
use libcplus.Mempool.{null, Mempool, index_to_addr, addr_to_index}

-- The block sizes add up to fewer than 2^32 bytes; a block holds a `uint32_t`.
pub record Fits (mp : Mempool) : Type 0 where
  pub word : 4 ≤ mp.block_size
  pub bytes : mp.block_size * mp.block_count < 2 ^ 32
  pub start : mp.mem_start ≢ null

pub block_count-lt : (mp : Mempool) → Fits mp → 4 * mp.block_count < 2 ^ 32
block_count-lt mp fits =
    let le = mul-le-mul_right mp.block_count fits.word in let bytes = fits.bytes in omega arith

module _ (mp : Mempool) (fits : Fits mp) (i : ℕ) (h : i ≤ mp.block_count) where
  offset-lt : mp.block_size * i < 2 ^ 32
  offset-lt = let le = mul-le-mul_left mp.block_size h in let bytes = fits.bytes in omega arith

  pub index_to_addr-eq : index_to_addr mp i ≡ mp.mem_start + mp.block_size * i
  unfolding index_to_addr
  index_to_addr-eq = let lt = offset-lt in omega arith

  -- In a pool whose blocks hold a word and add up to fewer than 2^32 bytes, an index up to the
  -- block count survives the way to its address and back.
  pub addr_to_index-index_to_addr : addr_to_index mp (index_to_addr mp i) ≡ i
  unfolding addr_to_index
  addr_to_index-index_to_addr =
      let lt = offset-lt in
      let word = fits.word in
      let positive : 0 < mp.block_size = omega arith in
      let offset : (2 ^ 64 + (mp.mem_start + mp.block_size * i) - mp.mem_start) % 2 ^ 32
          ≡ mp.block_size * i =
        omega arith in
      rw (index_to_addr-eq, offset) (mul-div_cancel_left i positive)

  pub index_to_addr-ne_null : index_to_addr mp i ≢ null
  index_to_addr-ne_null e = let start = fits.start in let eq = index_to_addr-eq in omega arith

-- Distinct blocks have distinct addresses.
pub index_to_addr-inj :
    (mp : Mempool)
    → Fits mp
    → (i j : ℕ) → i ≤ mp.block_count
    → j ≤ mp.block_count
    → index_to_addr mp i ≡ index_to_addr mp j
    → i ≡ j
index_to_addr-inj mp fits i j hi hj e =
    sym (addr_to_index-index_to_addr mp fits i hi)
    ∙ ap (addr_to_index mp) e
    ∙ addr_to_index-index_to_addr mp fits j hj
