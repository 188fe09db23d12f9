-- ===== src/Data/Update.antt =====
-- `cplus_data_set_value` of src/data.c keeps an object well formed.
use libcplus.Common.{
  ℕ, ◌+◌, ◌≡◌, refl, arith, Bool, true, false, Option, some, List, if◌then◌else◌, Status, no_error,
  einval,
}
use libcplus.Data.{
  Value, Data, Run, under_lock, with_value, null, unknown, scalar, string, byte_array,
}
use libcplus.Data.Memory.{Malloc, u32}
use libcplus.Data.Words.{is_spin}
use libcplus.Data.Access.{grow, grown, with_bufs_size, cplus_data_set_value}
use libcplus.Data.Fill.{
  IsSource, IsFree, stored, refused_by, printed, string_fits, fill_text-Updates, fill_bytes-Updates,
}
use libcplus.Data.WellFormed.{IsMalloc, IsValue, IsWellFormed, Updates, grow-Covers, size-le-grown}

Updates-if :
    (d : Data) (b : Bool) (r s : Run Status)
    → Updates d r
    → Updates d s
    → Updates d (if b then r else s)
Updates-if d true r s hr hs = hr
Updates-if d false r s hr hs = hs

unlocked-Updates :
    (d : Data) (r : Run Status) → d.spinlock ≡ false → Updates d r → Updates d (under_lock d r)
unlocked-Updates d r e h = rw e h

-- the update, with the value apart from the object
updates :
    (malloc : Malloc) (d : Data) (v : Value) (w : ℕ) (block : Option (List ℕ))
    → IsMalloc malloc
    → IsFree d
    → IsValue d.bufs_size v
    → IsSource v w block
    → Updates (with_value d v) (cplus_data_set_value malloc (with_value d v) (some w) block)
unfolding cplus_data_set_value
updates malloc d null w block is free iv src =
    refused_by (with_value d null) null einval (record { unlocked = free.unlocked; key = free.key })
      tt refl
updates malloc d unknown w block is free iv src =
    refused_by (with_value d unknown) unknown einval
      (record { unlocked = free.unlocked; key = free.key }) tt refl
updates malloc d (scalar s v) w block is free iv src =
    let free' : IsFree (with_value d (scalar s v)) = record {
      unlocked = free.unlocked;
      key = free.key;
    } in
    let r = stored (with_value d (scalar s v)) (scalar s w) no_error free' tt refl in
    Updates-if (with_value d (scalar s v)) (is_spin s) _ _
      (unlocked-Updates (with_value d (scalar s v)) _ free.unlocked r) r
updates malloc d (string len bufs) w block is free iv src =
    let o = with_value d (string len bufs) in
    let free' : IsFree o = record { unlocked = free.unlocked; key = free.key } in
    let size : u32 (w + 1) ≡ w + 1 = omega (arith, string_fits bufs block len w src) in
    rw size (
      unlocked-Updates o _ free.unlocked (
        fill_text-Updates o (grown bufs len (w + 1)) (grow malloc bufs len (w + 1)) block free' refl
          (omega (arith, size-le-grown bufs len (w + 1)))
          (grow-Covers malloc bufs len (w + 1) is iv.0) (printed bufs block len w src)))
updates malloc d (byte_array len bufs) w block is free iv src =
    let o = with_value d (byte_array len bufs) in
    let room = grown bufs len w in
    let free' : IsFree (with_bufs_size o room) = record {
      unlocked = free.unlocked;
      key = free.key;
    } in
    unlocked-Updates o _ free.unlocked (
      fill_bytes-Updates (with_bufs_size o room) w (grow malloc bufs len w) block free' refl
        (size-le-grown bufs len w) (grow-Covers malloc bufs len w is iv.0) src)

-- On a well-formed object `cplus_data_set_value` returns, whatever the allocator answers: it neither
-- spins nor leaves a block, and the object behind it is well formed and unlocked, of the same type, and
-- valid if the call succeeds. The word of a scalar is any. The allocator gives blocks of the size that it is
-- asked for. For a string the caller's block holds a C string and the new length is below 2^32 - 1, or the
-- block is NULL, the new length is below RSIZE_MAX_MEM and the old one at most that. For an array the
-- caller's block is NULL or has as many bytes as the new length says.
pub cplus_data_set_value-Updates :
    (malloc : Malloc) (d : Data) (w : ℕ) (block : Option (List ℕ))
    → IsMalloc malloc
    → IsWellFormed d
    → IsSource d.value w block
    → Updates d (cplus_data_set_value malloc d (some w) block)
cplus_data_set_value-Updates malloc d w block is wf src =
    updates malloc d d.value w block is (record { unlocked = wf.unlocked; key = wf.key }) wf.holds
      src
