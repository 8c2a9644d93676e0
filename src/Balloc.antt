-- ===== src/Balloc.antt =====
-- The block allocator, SharpExt4/lwext4/src/ext4_balloc.c, over the state of `Fs`. `image` is the
-- memory of a group descriptor, for its checksum. A failed verification of a bitmap's checksum is
-- only printed, so it is left out.
pub mod Range
pub mod Taken
pub mod Near
pub mod Goal
pub mod Effect
pub mod Freed
pub mod Tried
mod Tests
use initramfstool.Base.{
  ℕ, zero, suc, ◌+◌, ◌-◌, ◌*◌, ◌/◌, ◌%◌, ◌^◌, Bool, true, false, not, ◌&&◌, Option, none, some,
  List, ◌==◌, ltb, leb, if◌then◌else◌, u32, u64,
}
use initramfstool.Bitmap.{bit_set, bit_clr, is_bit_clr, bits_free, bit_find_clr}
use initramfstool.Super.{
  Sblock, get_free_blocks_cnt, set_free_blocks_cnt, get_block_size, block_group_cnt,
  blocks_in_group_cnt, sub32,
}
use initramfstool.BlockGroup.{
  Bgroup, get_block_bitmap, get_free_blocks_count, set_free_blocks_count,
}
use initramfstool.Inode.{get_blocks_count, set_blocks_count}
use initramfstool.Address.{bgid_of_block, block_of_bgid, addr_to_idx_bg, bg_idx_to_addr}
use initramfstool.Fs.Monad.{
  Fs, M, get, modify, pure, fail, on_error, ◌>>=◌, ◌>>◌, block_get, block_set, try_revoke_block,
  write_block, write_group, set_block_dirty, invalidate_lba,
}
use initramfstool.Fs.Csum.{balloc_set_bitmap_csum}
use initramfstool.Fs.Desc.{get_block_group_ref, put_block_group_ref}

abbrev pub enospc : ℕ
enospc = 28

-- EXT4_INODE_BLOCK_SIZE
abbrev pub inode_block_size : ℕ
inode_block_size = 512

-- A change to the block bitmap of a group: its bits, its checksum, and the mark on its buffer.
abbrev pub write_bitmap : ℕ → (List ℕ → List ℕ) → Fs → Fs
write_bitmap bgid change s =
    let bg = s.groups bgid in
    let lba = get_block_bitmap bg s.sb in
    let bitmap = change (s.blocks lba) in
    write_group (set_block_dirty (write_block s lba bitmap) lba) bgid
      (balloc_set_bitmap_csum s.sb bg bitmap)

abbrev pub bitmap : Fs → ℕ → List ℕ
bitmap s bgid = s.blocks (get_block_bitmap (s.groups bgid) s.sb)

-- The three counters: of the superblock, of the inode, and of the group, from first to last.
abbrev pub set_counters : ℕ → ℕ → ℕ → ℕ → Fs → Fs
set_counters bgid sb_free ino_blocks bg_free s =
    let sb = set_free_blocks_cnt s.sb sb_free in
    record s {
      sb = sb;
      inode = set_blocks_count sb s.inode ino_blocks;
      inode_dirty = true;
      groups =
          λ g. if bgid == g then set_free_blocks_count (s.groups bgid) sb bg_free else s.groups g;
    }

-- After `cnt` blocks of the group have been freed.
pub count_freed : ℕ → ℕ → Fs → Fs
count_freed bgid cnt s =
    let per_block = get_block_size s.sb / inode_block_size in
    set_counters bgid (u64 (get_free_blocks_cnt s.sb + cnt))
      (u64 (get_blocks_count s.sb s.inode + 2 ^ 64 - u32 (cnt * per_block)))
      (u32 (get_free_blocks_count (s.groups bgid) s.sb + cnt)) s

-- After one block of the group has been allocated.
pub count_taken : ℕ → Fs → Fs
count_taken bgid s =
    let per_block = get_block_size s.sb / inode_block_size in
    set_counters bgid (u64 (get_free_blocks_cnt s.sb + 2 ^ 64 - 1))
      (u64 (get_blocks_count s.sb s.inode + per_block))
      (sub32 (get_free_blocks_count (s.groups bgid) s.sb) 1) s

-- The first index from `i` on, of `left` many, whose bit is clear.
pub scan_near : List ℕ → ℕ → ℕ → Option ℕ
scan_near bmap i zero = none
scan_near bmap i (suc left) =
    let rest = scan_near bmap (i + 1) left in if is_bit_clr bmap i then some i else rest

-- The end of the search near the goal: the next multiple of 64, or the group's end.
pub near_end : ℕ → ℕ → ℕ
near_end idx blk_in_bg =
    let end_idx = u32 (idx + 63) / 64 * 64 in if ltb blk_in_bg end_idx then blk_in_bg else end_idx

module _ (image : Bgroup → List ℕ) where
  pub free_block : ℕ → M (Unit {0})
  free_block baddr = do
    s ← get
    let bgid = bgid_of_block s.sb baddr
    let index_in_group = addr_to_idx_bg s.sb baddr
    dirty ← get_block_group_ref bgid
    on_error block_get (put_block_group_ref image bgid dirty)
    modify (write_bitmap bgid (λ bmap. bit_clr bmap index_in_group))
    on_error block_set (put_block_group_ref image bgid dirty)
    modify (count_freed bgid 1)
    on_error try_revoke_block (put_block_group_ref image bgid false)
    modify (λ t. invalidate_lba t baddr 1)
    put_block_group_ref image bgid true

  -- One round of `ext4_balloc_free_blocks`: how many blocks the round frees.
  pub free_in_group : ℕ → ℕ → ℕ → M ℕ
  free_in_group bgid first count = do
    s ← get
    dirty ← get_block_group_ref bgid
    let idx = addr_to_idx_bg s.sb first
    on_error block_get (put_block_group_ref image bgid dirty)
    let room = sub32 (u32 (get_block_size s.sb * 8)) idx
    let free_cnt = if ltb room count then room else count
    modify (write_bitmap bgid (λ bmap. bits_free bmap idx free_cnt))
    on_error block_set (put_block_group_ref image bgid dirty)
    modify (count_freed bgid free_cnt)
    pure free_cnt

  -- The reference to the block's group is held, and so is the buffer of its bitmap.
  -- The value is the index of the block that was taken.
  pub take_bit : ℕ → ℕ → M (Option ℕ)
  take_bit bgid idx = do
    modify (write_bitmap bgid (λ bmap. bit_set bmap idx))
    block_set
    pure (some idx)

  -- The search of the whole bitmap has given a block, or has not. In the group of the goal an error of
  -- `ext4_block_set` after a block has been taken returns with the reference to the group still held.
  pub take_found : ℕ → Bool → Option ℕ → M (Option ℕ)
  take_found bgid dirty (some rel_blk_idx) = take_bit bgid rel_blk_idx
  take_found bgid dirty none = do
    on_error block_set (put_block_group_ref image bgid dirty)
    pure none

  -- The scan near the goal has given a block, or the bitmap is searched.
  pub search_bitmap : ℕ → Bool → ℕ → Option ℕ → M (Option ℕ)
  search_bitmap bgid dirty idx (some tmp_idx) = take_bit bgid tmp_idx
  search_bitmap bgid dirty idx none = do
    s ← get
    take_found bgid dirty (bit_find_clr (bitmap s bgid) idx (blocks_in_group_cnt s.sb bgid))

  -- The goal itself is not free: near it, then in the rest of the group.
  pub search_rest : ℕ → Bool → ℕ → M (Option ℕ)
  search_rest bgid dirty idx = do
    s ← get
    let blk_in_bg = blocks_in_group_cnt s.sb bgid
    let end_idx = near_end idx blk_in_bg
    let near = scan_near (bitmap s bgid) (idx + 1) (end_idx - (idx + 1))
    search_bitmap bgid dirty idx near

  -- The group of the goal, which has free blocks.
  pub search_goal : ℕ → Bool → ℕ → M (Option ℕ)
  search_goal bgid dirty goal_idx = do
    s ← get
    let first_idx = addr_to_idx_bg s.sb (block_of_bgid s.sb bgid)
    let idx = if ltb goal_idx first_idx then first_idx else goal_idx
    on_error block_get (put_block_group_ref image bgid dirty)
    if is_bit_clr (bitmap s bgid) idx
        then on_error (take_bit bgid idx) (put_block_group_ref image bgid dirty)
        else search_rest bgid dirty idx

  -- Another group that has free blocks.
  pub search_group : ℕ → Bool → M (Option ℕ)
  search_group bgid dirty = do
    s ← get
    on_error block_get (put_block_group_ref image bgid dirty)
    let idx = addr_to_idx_bg s.sb (block_of_bgid s.sb bgid)
    elim (bit_find_clr (bitmap s bgid) idx (blocks_in_group_cnt s.sb bgid)) [
      | some rel_blk_idx ↦
          on_error (take_bit bgid rel_blk_idx) (put_block_group_ref image bgid dirty)
      | none ↦ do on_error block_set (put_block_group_ref image bgid dirty); pure none
    ]

  -- The label `success`.
  pub finish_alloc : ℕ → ℕ → M ℕ
  finish_alloc bgid idx = do
    s ← get
    modify (count_taken bgid)
    put_block_group_ref image bgid true
    pure (bg_idx_to_addr s.sb idx bgid)

  -- `while (count > 0)` over the groups from `bgid` on.
  pub other_groups : ℕ → ℕ → M ℕ
  other_groups bgid zero = fail enospc
  other_groups bgid (suc count) = do
    dirty ← get_block_group_ref bgid
    s ← get
    taken ←
        (if get_free_blocks_count (s.groups bgid) s.sb == 0
          then pure none
          else search_group bgid dirty)
    elim taken [
      | some idx ↦ finish_alloc bgid idx
      | none ↦ do
        put_block_group_ref image bgid dirty
        other_groups (u32 (bgid + 1) % block_group_cnt s.sb) count
    ]

  pub alloc_block : ℕ → M ℕ
  alloc_block goal = do
    s ← get
    let bg_id = bgid_of_block s.sb goal
    let idx_in_bg = addr_to_idx_bg s.sb goal
    dirty ← get_block_group_ref bg_id
    t ← get
    taken ←
        (if get_free_blocks_count (t.groups bg_id) t.sb == 0
          then pure none
          else search_goal bg_id dirty idx_in_bg)
    elim taken [
      | some idx ↦ finish_alloc bg_id idx
      | none ↦ do
        put_block_group_ref image bg_id dirty
        other_groups (u32 (bg_id + 1) % block_group_cnt s.sb) (block_group_cnt s.sb)
    ]

  -- The branch on `*free` after the bitmap has been put back.
  pub finish_try : ℕ → Bool → Bool → M Bool
  finish_try bgid dirty false = do put_block_group_ref image bgid dirty; pure false
  finish_try bgid dirty true = do
    modify (count_taken bgid)
    put_block_group_ref image bgid true
    pure true

  -- The value is `*free`.
  pub try_alloc_block : ℕ → M Bool
  try_alloc_block baddr = do
    s ← get
    let bgid = bgid_of_block s.sb baddr
    let index_in_group = addr_to_idx_bg s.sb baddr
    dirty ← get_block_group_ref bgid
    on_error block_get (put_block_group_ref image bgid dirty)
    t ← get
    let free = is_bit_clr (bitmap t bgid) index_in_group
    modify λ u. if free then write_bitmap bgid (λ bmap. bit_set bmap index_in_group) u else u
    on_error block_set (put_block_group_ref image bgid dirty)
    finish_try bgid dirty free
