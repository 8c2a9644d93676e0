-- ===== src/Blockdev/Bytes.antt =====
-- Bytes at any offset of the partition: `ext4_block_writebytes` and `ext4_block_readbytes` of
-- SharpExt4/lwext4/src/ext4_blockdev.c, which go past the cache. The buffer of a caller is the list of
-- its `len` bytes. The buffer `ph_bbuf` of the device carries a block from a read to a write. It has
-- 512 bytes: a read of a larger block overruns it, and what the code does then is undefined. The model
-- stops there with `overrun`, which is no code of the source.
pub mod Copies
pub mod Overlaps
pub mod Written
pub mod Placed
pub mod Stored
pub mod Read
pub mod Loaded
use initramfstool.Base.{
  ℕ, zero, suc, ◌+◌, ◌-◌, ◌*◌, ◌/◌, ◌%◌, ◌^◌, Bool, true, false, not, ◌&&◌, List, [], ◌∷◌, ◌++◌,
  ◌==◌, ltb, if◌then◌else◌, length, set, take, drop, u32, u64, bit_and,
}
use initramfstool.Super.{sub32}
use initramfstool.Bdev.{Bdev, eok, bdif_bread, bdif_bwrite}
use initramfstool.Blockdev.{eio}

abbrev pub einval : ℕ
einval = 22

-- The bytes of `ph_bbuf`.
abbrev pub bbuf_size : ℕ
bbuf_size = 512

abbrev pub overrun : ℕ
overrun = 0x1_0000_0000

-- memcpy to `buf + at`.
unfoldable pub copy_to : List ℕ → ℕ → List ℕ → List ℕ
copy_to buf at [] = buf
copy_to buf at (b ∷ bytes) = copy_to (set buf at b) (at + 1) bytes

-- `if (r != EOK) return r`.
unfoldable pub then_do : ℕ × Bdev → (Bdev → ℕ × Bdev) → ℕ × Bdev
then_do p next = let (r, s) = p in if r == eok then next s else (r, s)

unfoldable pub then_read : ℕ × List ℕ × Bdev → (Bdev → ℕ × List ℕ × Bdev) → ℕ × List ℕ × Bdev
then_read p next =
    let (r, bytes, s) = p in
    let (r1, more, s1) = next s in if r == eok then (r1, bytes ++ more, s1) else (r, bytes, s)

-- `unalg`, and how many of `len` bytes lie in the first physical block after it.
unfoldable pub unalg : Bdev → ℕ → ℕ
unalg s off = u32 (bit_and off (sub32 s.ph_bsize 1))

unfoldable pub head_len : Bdev → ℕ → ℕ → ℕ
head_len s at len = if ltb len (s.ph_bsize - at) then len else s.ph_bsize - at

-- Part of a physical block is read, changed and written.
unfoldable pub patch : Bdev → ℕ → ℕ → List ℕ → ℕ × Bdev
patch s block_idx at bytes =
    let (r, block, s1) = bdif_bread s block_idx 1 in
    if not (r == eok)
    then (r, s1)
    else if ltb bbuf_size s.ph_bsize
    then (overrun, s1)
    else bdif_bwrite s1 (copy_to block at bytes) block_idx 1

unfoldable pub write_rest : Bdev → List ℕ → ℕ → ℕ × Bdev
write_rest s bytes block_idx = if length bytes == 0 then (eok, s) else patch s block_idx 0 bytes

unfoldable pub write_aligned : Bdev → List ℕ → ℕ → ℕ × Bdev
write_aligned s bytes block_idx =
    let blen = length bytes / s.ph_bsize in
    if blen == 0
    then write_rest s bytes block_idx
    else then_do (bdif_bwrite s bytes block_idx blen)
        (λ t. write_rest t (drop (u32 (s.ph_bsize * blen)) bytes) (u64 (block_idx + blen)))

unfoldable pub writebytes : Bdev → ℕ → List ℕ → ℕ × Bdev
writebytes s off bytes =
    let block_idx = u64 (off + s.part_offset) / s.ph_bsize in
    let wlen = head_len s (unalg s off) (length bytes) in
    if s.ph_refctr == 0
    then (eio, s)
    else if ltb s.part_size (u64 (off + length bytes))
    then (einval, s)
    else if unalg s off == 0
    then write_aligned s bytes block_idx
    else then_do (patch s block_idx (unalg s off) (take wlen bytes))
        (λ t. write_aligned t (drop wlen bytes) (u64 (block_idx + 1)))

-- `n` bytes of a physical block, from its byte `at` on.
unfoldable pub read_part : Bdev → ℕ → ℕ → ℕ → ℕ × List ℕ × Bdev
read_part s block_idx at n =
    let (r, block, s1) = bdif_bread s block_idx 1 in
    if (r == eok) && ltb bbuf_size s.ph_bsize
    then (overrun, [], s1)
    else (r, take n (drop at block), s1)

unfoldable pub read_rest : Bdev → ℕ → ℕ → ℕ × List ℕ × Bdev
read_rest s len block_idx = if len == 0 then (eok, [], s) else read_part s block_idx 0 len

unfoldable pub read_aligned : Bdev → ℕ → ℕ → ℕ × List ℕ × Bdev
read_aligned s len block_idx =
    let blen = len / s.ph_bsize in
    if blen == 0
    then read_rest s len block_idx
    else then_read (bdif_bread s block_idx blen)
        (λ t. read_rest t (len - u32 (s.ph_bsize * blen)) (u64 (block_idx + blen)))

-- The bytes are of use only if the result is EOK.
unfoldable pub readbytes : Bdev → ℕ → ℕ → ℕ × List ℕ × Bdev
readbytes s off len =
    let block_idx = u64 (off + s.part_offset) / s.ph_bsize in
    let rlen = head_len s (unalg s off) len in
    if s.ph_refctr == 0
    then (eio, [], s)
    else if ltb s.part_size (u64 (off + len))
    then (einval, [], s)
    else if unalg s off == 0
    then read_aligned s len block_idx
    else then_read (read_part s block_idx (unalg s off) rlen)
        (λ t. read_aligned t (len - rlen) (u64 (block_idx + 1)))
