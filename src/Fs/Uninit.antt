-- ===== src/Fs/Uninit.antt =====
-- The first use of a group whose bitmaps or inode table were left unwritten:
-- `ext4_fs_init_block_bitmap`, `ext4_fs_init_inode_bitmap`, `ext4_fs_init_inode_table` and
-- `ext4_fs_mark_bitmap_end` of SharpExt4/lwext4/src/ext4_fs.c.
use initramfstool.Base.{
  ℕ, zero, suc, ◌+◌, ◌-◌, ◌*◌, ◌/◌, ◌%◌, ◌^◌, not, ◌||◌, List, ◌==◌, ltb, leb, if◌then◌else◌, u32,
  u64, fill,
}
use initramfstool.Bitmap.{bit_set}
use initramfstool.Super.{
  Sblock, get_blocks_cnt, get_block_size, get_desc_size, feature_incom, incom_meta_bg,
  block_group_cnt, inodes_in_group_cnt, is_super_in_bg, num_gdb, to_number, sub32,
}
use initramfstool.BlockGroup.{
  Bgroup, get_block_bitmap, get_inode_bitmap, get_inode_table_first_block,
}
use initramfstool.Address.{block_of_bgid, block_in_group}
use initramfstool.Fs.Monad.{
  M, get, modify, pure, ◌>>=◌, ◌>>◌, block_get, block_set, write_block, write_group,
  set_block_dirty,
}
use initramfstool.Fs.Csum.{balloc_set_bitmap_csum, ialloc_set_bitmap_csum}

abbrev pub incom_flex_bg : ℕ
incom_flex_bg = 0x0200

-- `for (i = start; ...; i++) ext4_bmap_bit_set(bmap, i)`, `n` rounds.
unfoldable pub set_bits : List ℕ → ℕ → ℕ → List ℕ
set_bits bmap start zero = bmap
set_bits bmap start (suc n) = set_bits (bit_set bmap start) (start + 1) n

-- `(start + 7) & ~7`
abbrev pub round_up8 : ℕ → ℕ
round_up8 start = (start + 7) / 8 * 8

unfoldable pub mark_bitmap_end : ℕ → ℕ → List ℕ → List ℕ
mark_bitmap_end start_bit end_bit bitmap =
    let i = round_up8 start_bit in
    let bits = set_bits bitmap start_bit (i - start_bit) in
    if leb end_bit start_bit
    then bitmap
    else if ltb i end_bit
    then fill bits (i / 8) ((end_bit - i) / 8) 0xff
    else bits

-- The blocks at the start of a group that its bitmap marks: superblock, descriptors and the
-- blocks kept for more of them.
unfoldable pub bit_max : Sblock → ℕ → ℕ
bit_max sb bgid =
    let dsc_per_block = get_block_size sb / get_desc_size sb in
    let has_super = to_number (is_super_in_bg sb bgid) in
    if not (feature_incom sb incom_meta_bg) || ltb bgid (u32 (sb.first_meta_bg * dsc_per_block))
    then (if has_super == 0
        then has_super
        else u32 (u32 (has_super + num_gdb sb bgid) + sb.s_reserved_gdt_blocks))
    else u32 (has_super + num_gdb sb bgid)

unfoldable pub group_blocks : Sblock → ℕ → ℕ
group_blocks sb bgid =
    let before = u32 (sb.blocks_per_group * sub32 (block_group_cnt sb) 1) in
    if bgid == sub32 (block_group_cnt sb) 1
    then u32 (u64 (u64 (get_blocks_cnt sb + 2 ^ 64 - sb.first_data_block) + 2 ^ 64 - before))
    else sb.blocks_per_group

-- A metadata block is marked if it lies in the group, or wherever it lies when there is no FLEX_BG.
unfoldable pub mark_block : Sblock → ℕ → List ℕ → ℕ → List ℕ
mark_block sb bgid bmap lba =
    if not (feature_incom sb incom_flex_bg) || block_in_group sb lba bgid
    then bit_set bmap (u32 (lba + 2 ^ 64 - block_of_bgid sb bgid))
    else bmap

unfoldable pub mark_blocks : Sblock → ℕ → List ℕ → ℕ → ℕ → List ℕ
mark_blocks sb bgid bmap lba zero = bmap
mark_blocks sb bgid bmap lba (suc n) = mark_blocks sb bgid (mark_block sb bgid bmap lba) (lba + 1) n

-- What `ext4_fs_init_block_bitmap` writes into the buffer of the block bitmap.
unfoldable pub fresh_block_bitmap : Sblock → Bgroup → ℕ → List ℕ → List ℕ
fresh_block_bitmap sb bg bgid old =
    let block_size = get_block_size sb in
    let inode_table_bcnt = u32 (sb.inodes_per_group * sb.inode_size) / block_size in
    let meta = set_bits (fill old 0 block_size 0) 0 (bit_max sb bgid) in
    let bitmaps =
      mark_block sb bgid (mark_block sb bgid meta (get_block_bitmap bg sb))
        (get_inode_bitmap bg sb) in
    let table = mark_blocks sb bgid bitmaps (get_inode_table_first_block bg sb) inode_table_bcnt in
    mark_bitmap_end (group_blocks sb bgid) (block_size * 8) table

-- The references are set dirty by the caller, `get_block_group_ref`.
unfoldable pub init_block_bitmap : ℕ → M (Unit {0})
init_block_bitmap bgid = do
  block_get
  modify λ s.
      let bg = s.groups bgid in
      let bmp_blk = get_block_bitmap bg s.sb in
      let bitmap = fresh_block_bitmap s.sb bg bgid (s.blocks bmp_blk) in
      write_group (set_block_dirty (write_block s bmp_blk bitmap) bmp_blk) bgid
        (balloc_set_bitmap_csum s.sb bg bitmap)
  block_set

unfoldable pub fresh_inode_bitmap : Sblock → List ℕ → List ℕ
fresh_inode_bitmap sb old =
    let start_bit = sb.inodes_per_group in
    let end_bit = u32 (get_block_size sb * 8) in
    let i = round_up8 start_bit in
    let bits = set_bits (fill old 0 ((start_bit + 7) / 8) 0) start_bit (i - start_bit) in
    if ltb i end_bit then fill bits (i / 8) ((end_bit - i) / 8) 0xff else bits

unfoldable pub init_inode_bitmap : ℕ → M (Unit {0})
init_inode_bitmap bgid = do
  block_get
  modify λ s.
      let bg = s.groups bgid in
      let lba = get_inode_bitmap bg s.sb in
      let bitmap = fresh_inode_bitmap s.sb (s.blocks lba) in
      write_group (set_block_dirty (write_block s lba bitmap) lba) bgid
        (ialloc_set_bitmap_csum s.sb bg bitmap)
  block_set

-- `for (fblock = first_block; fblock <= last_block; ++fblock)`, `n` rounds left.
unfoldable pub clear_table : ℕ → ℕ → M (Unit {0})
clear_table fblock zero = pure tt
clear_table fblock (suc n) = do
  block_get
  modify λ s.
      set_block_dirty (write_block s fblock (fill (s.blocks fblock) 0 (get_block_size s.sb) 0))
        fblock
  block_set
  clear_table (fblock + 1) n

unfoldable pub init_inode_table : ℕ → M (Unit {0})
init_inode_table bgid = do
  s ← get
  let inodes_per_block = get_block_size s.sb / s.sb.inode_size
  let inodes_in_group = inodes_in_group_cnt s.sb bgid
  let table_blocks =
      inodes_in_group / inodes_per_block
      + (if inodes_in_group % inodes_per_block == 0 then 0 else 1)
  clear_table (get_inode_table_first_block (s.groups bgid) s.sb) table_blocks
