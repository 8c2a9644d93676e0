-- ===== src/Ialloc/Tests.antt =====
-- The inode allocator on a group that counts six free inodes: one that has none, and one that has four.
use initramfstool.Base.{
  some, ◌||◌, not, ◌&&◌, ◌+◌, true, ℕ, ◌≡◌, refl, arith, false, none, List, [], ◌∷◌, ◌==◌,
}
use initramfstool.Super.{
  Sblock, get_desc_size, feature_incom, inodes_in_group_cnt, block_group_cnt, get_blocks_cnt,
}
use initramfstool.Inode.Tests.{file}
use initramfstool.Super.Tests.{disk}
use initramfstool.Bitmap.{
  bit_find_clr, find_head, find_aligned, find_bytes, offset, find_bit, is_bit_set, is_bit_clr,
}
use initramfstool.BlockGroup.{Bgroup, get_free_inodes_count, has_flag}
use initramfstool.BlockGroup.Tests.{group0}
use initramfstool.Fs.Monad.{Fs, ok}
use initramfstool.Fs.Ready.{IsReady}
use initramfstool.Ialloc.{inode_bitmap, inode_loop}
use initramfstool.BlockGroup.{get_used_dirs_count}
use initramfstool.Address.{bgid_of_inode, inode_to_bgidx}
use initramfstool.Ialloc.{free_inode}
use initramfstool.Ialloc.{alloc_inode}
use initramfstool.Ialloc.Taken.{alloc_inode-first_free}
use initramfstool.Bitmap.Find.{IsFirstClr}
use initramfstool.Address.{bgidx_to_inode}
use initramfstool.Ialloc.Freed.{free_inode-frees}
use initramfstool.Ialloc.Stuck.{inode_loop-stuck}

abbrev full_disk : Sblock
full_disk = record disk { inodes_count = 24; inodes_per_group = 8 }

abbrev full_fs : Fs
full_fs = record {
  sb = full_disk;
  last_inode_bg_id = 0;
  groups = λ _. group0;
  blocks = λ _. 255 ∷ [];
  inode = file;
  inode_dirty = false;
  dirty = [];
  invalidated = [];
  held = 0;
  outcomes = [];
}

abbrev no_image : Bgroup → List ℕ
no_image _ = []

ready : IsReady full_fs 0
unfolding has_flag
ready = record { no_failure = refl; blocks_ready = refl; inodes_ready = refl }

counts_some : (get_free_inodes_count group0 full_disk == 0) ≡ false
unfolding get_free_inodes_count get_desc_size feature_incom
counts_some = refl

has_none : bit_find_clr (inode_bitmap full_fs 0) 0 (inodes_in_group_cnt full_disk 0) ≡ none
unfolding bit_find_clr find_head find_aligned find_bytes offset find_bit is_bit_clr is_bit_set
    inodes_in_group_cnt block_group_cnt get_blocks_cnt
has_none = refl

inode_loop-stuck_example :
    inode_loop no_image 100 false 20000 0 3 false full_fs ≡ (ok none, full_fs)
inode_loop-stuck_example =
    inode_loop-stuck no_image 0 20000 false full_fs ready counts_some has_none 100 3 false
      (omega arith)

place : (bgid_of_inode full_disk 3 ≡ 0) × (inode_to_bgidx full_disk 3 ≡ 2)
unfolding bgid_of_inode inode_to_bgidx
place = (refl, refl)

full-IsReady : (bgid : ℕ) → IsReady full_fs bgid
unfolding has_flag
full-IsReady bgid = record { no_failure = refl; blocks_ready = refl; inodes_ready = refl }

counters : (get_free_inodes_count group0 full_disk ≡ 6) × (get_used_dirs_count group0 full_disk ≡ 1)
unfolding get_free_inodes_count get_used_dirs_count get_desc_size feature_incom
counters = (refl, refl)

free_inode-frees_example :
    let bgid = bgid_of_inode full_disk 3 in
    let (r, t) = free_inode no_image 3 true full_fs in
    (r ≡ ok tt)
    × ((j : ℕ)
        → is_bit_set (inode_bitmap t bgid) j
          ≡ not (inode_to_bgidx full_disk 3 == j) && is_bit_set (inode_bitmap full_fs bgid) j)
    × (t.sb.free_inodes_count ≡ 20000 + 1)
    × (get_free_inodes_count (t.groups bgid) t.sb ≡ get_free_inodes_count group0 full_disk + 1)
    × (get_used_dirs_count (t.groups bgid) t.sb + 1 ≡ get_used_dirs_count group0 full_disk)
    × (t.held ≡ 0)
free_inode-frees_example =
    free_inode-frees no_image 3 true full_fs (full-IsReady (bgid_of_inode full_disk 3))
      (omega arith, tt) (omega (arith, place.1)) (omega arith) (omega (arith, counters.0))
      (omega (arith, counters.1)) (λ _. omega (arith, counters.1))

abbrev part_fs : Fs
part_fs = record full_fs { blocks = λ _. 15 ∷ [] }

part-IsReady : IsReady part_fs 0
unfolding has_flag
part-IsReady = record { no_failure = refl; blocks_ready = refl; inodes_ready = refl }

sizes : (block_group_cnt full_disk ≡ 3) × (inodes_in_group_cnt full_disk 0 ≡ 8)
unfolding inodes_in_group_cnt block_group_cnt get_blocks_cnt
sizes = (refl, refl)

fifth_free : is_bit_set (inode_bitmap part_fs 0) 5 ≡ false
unfolding is_bit_set
fifth_free = refl

alloc_inode-first_free_example :
    let (r, t) = alloc_inode no_image 1 true part_fs in
    (k : ℕ) × IsFirstClr (inode_bitmap part_fs 0) 0 (inodes_in_group_cnt full_disk 0) (some k)
    × (r ≡ ok (some (bgidx_to_inode full_disk k 0)))
    × ((i : ℕ)
        → is_bit_set (inode_bitmap t 0) i ≡ (k == i) || is_bit_set (inode_bitmap part_fs 0) i)
    × (t.sb.free_inodes_count + 1 ≡ 20000)
    × (get_free_inodes_count (t.groups 0) t.sb + 1 ≡ get_free_inodes_count group0 full_disk)
    × (get_used_dirs_count (t.groups 0) t.sb ≡ get_used_dirs_count group0 full_disk + 1)
    × (t.held ≡ 0)
alloc_inode-first_free_example =
    alloc_inode-first_free no_image 0 5 true part_fs part-IsReady (omega (arith, sizes.0))
      (record { bytes = (omega arith, tt); room = omega (arith, sizes.1) }) (omega (arith, sizes.1))
      (omega arith) (omega arith) (omega (arith, counters.0)) (omega (arith, counters.0))
      (omega (arith, counters.1)) (omega (arith, sizes.1)) fifth_free
