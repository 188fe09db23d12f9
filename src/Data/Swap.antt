-- ===== src/Data/Swap.antt =====
-- The byte order functions of src/data.c: `cplus_data_swap*`, and `cplus_data_reverse*`, which do the
-- same in place.
use Prim.Native.Nat.{bit_and, bit_or}
use libcplus.Common.{ℕ, ◌*◌, ◌/◌, ◌%◌, ◌^◌}

-- `value << k` at a width, and `value >> k`
abbrev pub shl : ℕ → ℕ → ℕ → ℕ
shl width v k = v * 2 ^ k % 2 ^ width

abbrev pub shr : ℕ → ℕ → ℕ
shr v k = v / 2 ^ k

-- computed as an `int`, and returned as a `uint16_t`
unfoldable pub cplus_data_swap16 : ℕ → ℕ
cplus_data_swap16 v = bit_or (shl 32 v 8) (shr v 8) % 2 ^ 16

unfoldable pub cplus_data_swap32 : ℕ → ℕ
cplus_data_swap32 v =
    bit_or
      (bit_or (bit_or (shl 32 v 24) (bit_and (shl 32 v 8) 0x00ff_0000))
        (bit_and (shr v 8) 0x0000_ff00))
      (shr v 24)

unfoldable pub cplus_data_swap64 : ℕ → ℕ
cplus_data_swap64 v =
    let a = bit_or (shl 64 v 56) (bit_and (shl 64 v 40) 0x00ff_0000_0000_0000) in
    let b = bit_or a (bit_and (shl 64 v 24) 0x0000_ff00_0000_0000) in
    let c = bit_or b (bit_and (shl 64 v 8) 0x0000_00ff_0000_0000) in
    let d = bit_or c (bit_and (shr v 8) 0x0000_0000_ff00_0000) in
    let e = bit_or d (bit_and (shr v 24) 0x0000_0000_00ff_0000) in
    let f = bit_or e (bit_and (shr v 40) 0x0000_0000_0000_ff00) in bit_or f (shr v 56)

-- the value that the pointer leads to, afterwards
unfoldable pub cplus_data_reverse16 : ℕ → ℕ
cplus_data_reverse16 v = bit_or (shl 32 v 8) (shr v 8) % 2 ^ 16

unfoldable pub cplus_data_reverse32 : ℕ → ℕ
cplus_data_reverse32 v =
    bit_or
      (bit_or (bit_or (shl 32 v 24) (bit_and (shl 32 v 8) 0x00ff_0000))
        (bit_and (shr v 8) 0x0000_ff00))
      (shr v 24)

unfoldable pub cplus_data_reverse64 : ℕ → ℕ
cplus_data_reverse64 v =
    let a = bit_or (shl 64 v 56) (bit_and (shl 64 v 40) 0x00ff_0000_0000_0000) in
    let b = bit_or a (bit_and (shl 64 v 24) 0x0000_ff00_0000_0000) in
    let c = bit_or b (bit_and (shl 64 v 8) 0x0000_00ff_0000_0000) in
    let d = bit_or c (bit_and (shr v 8) 0x0000_0000_ff00_0000) in
    let e = bit_or d (bit_and (shr v 24) 0x0000_0000_00ff_0000) in
    let f = bit_or e (bit_and (shr v 40) 0x0000_0000_0000_ff00) in bit_or f (shr v 56)
