-- ===== src/Ialloc.antt =====
-- The inode allocator, SharpExt4/lwext4/src/ext4_ialloc.c, over the state of `Fs`. `image` is the
-- memory of a group descriptor, for its checksum. A failed verification of a bitmap's checksum is
-- only printed, so it is left out.
pub mod Stuck
pub mod Effect
pub mod Freed
pub mod Taken
mod Tests
use initramfstool.Base.{
  ℕ, zero, suc, ◌+◌, ◌-◌, ◌*◌, ◌/◌, ◌%◌, ◌^◌, Bool, true, false, not, ◌&&◌, ◌||◌, Option, none,
  some, List, ◌==◌, ltb, leb, if◌then◌else◌, u32,
}
use initramfstool.Bitmap.{bit_set, bit_clr, bit_find_clr}
use initramfstool.Super.{Sblock, block_group_cnt, inodes_in_group_cnt, sub32}
use initramfstool.BlockGroup.{
  Bgroup, get_inode_bitmap, get_free_inodes_count, set_free_inodes_count, get_used_dirs_count,
  set_used_dirs_count, get_itable_unused, set_itable_unused,
}
use initramfstool.Address.{inode_to_bgidx, bgidx_to_inode, bgid_of_inode}
use initramfstool.Fs.Monad.{
  Fs, M, get, modify, ok, pure, fail, on_error, ◌>>=◌, ◌>>◌, block_get, block_set, write_block,
  write_group, set_block_dirty,
}
use initramfstool.Fs.Csum.{ialloc_set_bitmap_csum}
use initramfstool.Fs.Desc.{get_block_group_ref, put_block_group_ref, map_group}
use initramfstool.Balloc.{enospc}

-- A change to the inode bitmap of a group: its bits, its checksum, and the mark on its buffer.
abbrev pub write_inode_bitmap : ℕ → (List ℕ → List ℕ) → Fs → Fs
write_inode_bitmap bgid change s =
    let bg = s.groups bgid in
    let lba = get_inode_bitmap bg s.sb in
    let bitmap = change (s.blocks lba) in
    write_group (set_block_dirty (write_block s lba bitmap) lba) bgid
      (ialloc_set_bitmap_csum s.sb bg bitmap)

abbrev pub inode_bitmap : Fs → ℕ → List ℕ
inode_bitmap s bgid = s.blocks (get_inode_bitmap (s.groups bgid) s.sb)

abbrev pub set_sb_free_inodes : ℕ → Fs → Fs
set_sb_free_inodes cnt s = record s { sb = record s.sb { free_inodes_count = cnt } }

-- The descriptor of the group after one inode of it has been freed.
pub inode_freed : Sblock → Bool → Bgroup → Bgroup
inode_freed sb is_dir bg =
    let bg' =
      (if is_dir then set_used_dirs_count bg sb (sub32 (get_used_dirs_count bg sb) 1) else bg) in
    set_free_inodes_count bg' sb (u32 (get_free_inodes_count bg' sb + 1))

-- And after the inode with index `idx` of it has been taken.
pub inode_taken : Sblock → Bool → ℕ → ℕ → Bgroup → Bgroup
inode_taken sb is_dir inodes_in_bg idx bg =
    let bg1 = set_free_inodes_count bg sb (sub32 (get_free_inodes_count bg sb) 1) in
    let bg2 =
      (if is_dir then set_used_dirs_count bg1 sb (u32 (get_used_dirs_count bg sb + 1)) else bg1) in
    let free = sub32 inodes_in_bg (get_itable_unused bg2 sb) in
    if leb free idx then set_itable_unused bg2 sb (sub32 inodes_in_bg (u32 (idx + 1))) else bg2

-- A call whose result the code does not look at.
abbrev ignore : M (Unit {0}) → M (Unit {0})
ignore m s = let (_, s') = m s in (ok tt, s')

module _ (image : Bgroup → List ℕ) where
  -- An error of `ext4_trans_block_get` returns with the reference to the group still held.
  pub free_inode : ℕ → Bool → M (Unit {0})
  free_inode index is_dir = do
    s ← get
    let block_group = bgid_of_inode s.sb index
    dirty ← get_block_group_ref block_group
    block_get
    let index_in_group = inode_to_bgidx s.sb index
    modify (write_inode_bitmap block_group (λ bmap. bit_clr bmap index_in_group))
    on_error block_set (put_block_group_ref image block_group dirty)
    map_group block_group (inode_freed s.sb is_dir)
    put_block_group_ref image block_group true
    modify (λ t. set_sb_free_inodes (u32 (t.sb.free_inodes_count + 1)) t)

  -- The result of `ext4_block_set` is dropped. `sb_free_inodes` is the superblock's count as it was
  -- when the search began.
  pub take_inode : ℕ → Bool → ℕ → ℕ → M ℕ
  take_inode bgid is_dir sb_free_inodes idx = do
    s ← get
    modify (write_inode_bitmap bgid (λ bmap. bit_set bmap idx))
    ignore block_set
    map_group bgid (inode_taken s.sb is_dir (inodes_in_group_cnt s.sb bgid) idx)
    put_block_group_ref image bgid true
    modify (λ t. set_sb_free_inodes (sub32 sb_free_inodes 1) (record t { last_inode_bg_id = bgid }))
    pure (bgidx_to_inode s.sb idx bgid)

  -- The group has free inodes. A full bitmap nevertheless ends in `continue`, without `++bgid`.
  pub search_inodes : ℕ → Bool → ℕ → Bool → M (Option ℕ × Bool)
  search_inodes bgid is_dir sb_free_inodes dirty = do
    s ← get
    on_error block_get (put_block_group_ref image bgid dirty)
    elim (bit_find_clr (inode_bitmap s bgid) 0 (inodes_in_group_cnt s.sb bgid)) [
      | none ↦ do
        on_error block_set (put_block_group_ref image bgid dirty)
        put_block_group_ref image bgid dirty
        pure (none, false)
      | some idx ↦ do inode ← take_inode bgid is_dir sb_free_inodes idx; pure (some inode, true)
    ]

  -- The body of the loop at a group: the inode that was taken, or `none` with whether `bgid` goes on.
  pub visit_group : ℕ → Bool → ℕ → M (Option ℕ × Bool)
  visit_group bgid is_dir sb_free_inodes = do
    dirty ← get_block_group_ref bgid
    s ← get
    let skip = (do ignore (put_block_group_ref image bgid dirty); pure (none, true))
    if get_free_inodes_count (s.groups bgid) s.sb == 0
        then skip
        else search_inodes bgid is_dir sb_free_inodes dirty

  -- `while (bgid <= bg_count)`, a round for each unit of fuel; `none` is a loop that still runs.
  pub inode_loop : ℕ → Bool → ℕ → ℕ → ℕ → Bool → M (Option ℕ)
  inode_loop zero is_dir sb_free_inodes bgid bg_count rewind = pure none
  inode_loop (suc fuel) is_dir sb_free_inodes bgid bg_count rewind = do
    s ← get
    let restart = inode_loop fuel is_dir sb_free_inodes 0 s.last_inode_bg_id true
    let visit = (do
      visited ← visit_group bgid is_dir sb_free_inodes
      let (taken, forward) = visited
      elim taken [
        | some inode ↦ pure (some inode)
        | none ↦
            inode_loop fuel is_dir sb_free_inodes (if forward then u32 (bgid + 1) else bgid)
              bg_count rewind
      ])
    if ltb bg_count bgid || bgid == bg_count && rewind
        then fail enospc
        else if bgid == bg_count
        then restart
        else visit

  pub alloc_inode : ℕ → Bool → M (Option ℕ)
  alloc_inode fuel is_dir = do
    s ← get
    inode_loop fuel is_dir s.sb.free_inodes_count s.last_inode_bg_id (block_group_cnt s.sb) false
