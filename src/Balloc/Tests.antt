-- ===== src/Balloc/Tests.antt =====
-- The allocator on a small file system whose first four blocks are in use.
use initramfstool.Base.{
  u64, ◌-◌, ◌^◌, some, ℕ, ◌+◌, ◌*◌, ◌<◌, ◌≡◌, refl, arith, true, false, not, ◌&&◌, ◌||◌, List, [],
  ◌∷◌, ◌==◌, length, IsBytes,
}
use initramfstool.Super.{get_free_blocks_cnt, get_desc_size, feature_incom}
use initramfstool.Super.{
  Sblock, get_block_size, blocks_in_group_cnt, block_group_cnt, get_blocks_cnt,
}
use initramfstool.Inode.Tests.{file}
use initramfstool.Super.Tests.{disk}
use initramfstool.Bitmap.Find.{IsFirstClr}
use initramfstool.Balloc.{alloc_block}
use initramfstool.Balloc.Range.{free_blocks}
use initramfstool.Balloc.Range.Within.{free_blocks-frees}
use initramfstool.Bitmap.Free.{within}
use initramfstool.Balloc.Taken.{IsTaken, IsCounted}
use initramfstool.Balloc.Goal.{alloc_block-first_free}
use initramfstool.Bitmap.{is_bit_set, is_bit_clr}
use initramfstool.BlockGroup.{Bgroup, get_free_blocks_count, has_flag}
use initramfstool.BlockGroup.Tests.{group0}
use initramfstool.Address.{from_first, bgid_of_block, addr_to_idx_bg}
use initramfstool.Fs.Monad.{Fs, ok}
use initramfstool.Fs.Ready.{IsReady}
use initramfstool.Balloc.{bitmap, try_alloc_block, free_block}
use initramfstool.Balloc.Tried.{try_alloc_block-takes}
use initramfstool.Balloc.Freed.{free_block-frees}

abbrev fs0 : Fs
fs0 = record {
  sb = disk;
  last_inode_bg_id = 0;
  groups = λ _. group0;
  blocks = λ _. 15 ∷ 0 ∷ [];
  inode = record file { blocks_count_lo = 8 };
  inode_dirty = false;
  dirty = [];
  invalidated = [];
  held = 0;
  outcomes = [];
}

-- A descriptor of no bytes in particular: the disk has no checksums.
abbrev no_image : Bgroup → List ℕ
no_image _ = []

ready : (bgid : ℕ) → IsReady fs0 bgid
unfolding has_flag
ready bgid = record { no_failure = refl; blocks_ready = refl; inodes_ready = refl }

bytes : (bgid : ℕ) → IsBytes (bitmap fs0 bgid)
bytes bgid = (omega arith, (omega arith, tt))

room :
    (baddr : ℕ)
    → baddr < 16
    → addr_to_idx_bg disk baddr < 8 * length (bitmap fs0 (bgid_of_block disk baddr))
unfolding addr_to_idx_bg from_first
room baddr h = omega arith

fifth_clear : is_bit_clr (bitmap fs0 (bgid_of_block disk 5)) (addr_to_idx_bg disk 5) ≡ true
unfolding is_bit_clr is_bit_set addr_to_idx_bg from_first
fifth_clear = refl

second_used : is_bit_clr (bitmap fs0 (bgid_of_block disk 2)) (addr_to_idx_bg disk 2) ≡ false
unfolding is_bit_clr is_bit_set addr_to_idx_bg from_first
second_used = refl

sb_free : get_free_blocks_cnt disk ≡ 60000
unfolding get_free_blocks_cnt
sb_free = refl

bg_free : get_free_blocks_count group0 disk ≡ 5
unfolding get_free_blocks_count get_desc_size feature_incom
bg_free = refl

try_alloc_block-takes_example :
    let (r, t) = try_alloc_block no_image 5 fs0 in
    (r ≡ ok true)
    × ((j : ℕ)
        → is_bit_set (bitmap t (bgid_of_block disk 5)) j
          ≡ (addr_to_idx_bg disk 5 == j) || is_bit_set (bitmap fs0 (bgid_of_block disk 5)) j)
    × (get_free_blocks_cnt t.sb + 1 ≡ get_free_blocks_cnt disk)
    × (get_free_blocks_count (t.groups (bgid_of_block disk 5)) t.sb + 1
        ≡ get_free_blocks_count group0 disk)
    × (t.held ≡ 0)
try_alloc_block-takes_example =
    try_alloc_block-takes no_image 5 fs0 (ready (bgid_of_block disk 5))
      (bytes (bgid_of_block disk 5)) (room 5 (omega arith)) fifth_clear (omega (arith, sb_free))
      (omega (arith, sb_free)) (omega (arith, bg_free)) (omega (arith, bg_free))

free_block-frees_example :
    let (r, t) = free_block no_image 2 fs0 in
    (r ≡ ok tt)
    × ((j : ℕ)
        → is_bit_set (bitmap t (bgid_of_block disk 2)) j
          ≡ not (addr_to_idx_bg disk 2 == j) && is_bit_set (bitmap fs0 (bgid_of_block disk 2)) j)
    × (get_free_blocks_cnt t.sb ≡ get_free_blocks_cnt disk + 1)
    × (get_free_blocks_count (t.groups (bgid_of_block disk 2)) t.sb
        ≡ get_free_blocks_count group0 disk + 1)
    × (t.invalidated ≡ (2, 1) ∷ [])
    × (t.held ≡ 0)
free_block-frees_example =
    free_block-frees no_image 2 fs0 (ready (bgid_of_block disk 2)) (bytes (bgid_of_block disk 2))
      (room 2 (omega arith)) (omega (arith, sb_free)) (omega (arith, bg_free))

abbrev small_disk : Sblock
small_disk = record disk { blocks_per_group = 16; blocks_count_lo = 40 }

abbrev small_fs : Fs
small_fs = record fs0 { sb = small_disk }

small-IsReady : IsReady small_fs (bgid_of_block small_disk 2)
unfolding has_flag
small-IsReady = record { no_failure = refl; blocks_ready = refl; inodes_ready = refl }

group_size : blocks_in_group_cnt small_disk (bgid_of_block small_disk 2) ≡ 16
unfolding blocks_in_group_cnt block_group_cnt get_blocks_cnt bgid_of_block from_first
group_size = refl

small_goal : (addr_to_idx_bg small_disk 2 ≡ 2) × (bgid_of_block small_disk 2 ≡ 0)
unfolding addr_to_idx_bg bgid_of_block from_first
small_goal = (refl, refl)

small-IsCounted : IsCounted small_fs (bgid_of_block small_disk 2)
unfolding get_free_blocks_cnt get_free_blocks_count get_desc_size feature_incom
small-IsCounted = record {
  some_sb = omega arith;
  fits_sb = omega arith;
  some_group = omega arith;
  fits_group = omega arith;
}

fifth_free : is_bit_set (bitmap small_fs (bgid_of_block small_disk 2)) 5 ≡ false
unfolding is_bit_set
fifth_free = refl

alloc_block-first_free_example :
    let (r, t) = alloc_block no_image 2 small_fs in
    (k : ℕ) × IsFirstClr
      (bitmap small_fs (bgid_of_block small_disk 2))
      (addr_to_idx_bg small_disk 2)
      (blocks_in_group_cnt small_disk (bgid_of_block small_disk 2))
      (some k)
    × (r ≡ ok (0 + bgid_of_block small_disk 2 * 16 + k))
    × IsTaken (bgid_of_block small_disk 2) k small_fs t
alloc_block-first_free_example =
    alloc_block-first_free no_image 2 5 small_fs small-IsReady
      (record { bytes = bytes (bgid_of_block small_disk 2); room = omega (arith, group_size) })
      (omega (arith, group_size)) (omega (arith, group_size, small_goal.0)) (omega arith)
      (omega arith) (omega (arith, small_goal.1, group_size)) small-IsCounted
      (omega (arith, small_goal.0)) (omega (arith, group_size)) fifth_free

range_place :
    (bgid_of_block small_disk 1 ≡ 0)
    × (addr_to_idx_bg small_disk 1 ≡ 1)
    × (bgid_of_block small_disk (u64 (1 + 2 + (2 ^ 64 - 1))) ≡ bgid_of_block small_disk 1)
unfolding bgid_of_block addr_to_idx_bg from_first
range_place = (refl, refl, refl)

block_size : get_block_size small_disk ≡ 4096
unfolding get_block_size
block_size = refl

range-IsReady : IsReady small_fs (bgid_of_block small_disk 1)
unfolding has_flag
range-IsReady = record { no_failure = refl; blocks_ready = refl; inodes_ready = refl }

small_free :
    (get_free_blocks_cnt small_disk ≡ 60000) × (get_free_blocks_count group0 small_disk ≡ 5)
unfolding get_free_blocks_cnt get_free_blocks_count get_desc_size feature_incom
small_free = (refl, refl)

free_blocks-frees_example :
    let bgid = bgid_of_block small_disk 1 in
    let idx = addr_to_idx_bg small_disk 1 in
    let (r, t) = free_blocks no_image 1 2 small_fs in
    (r ≡ ok 0)
    × ((j : ℕ)
        → is_bit_set (bitmap t bgid) j
          ≡ not (within idx (idx + 2) j) && is_bit_set (bitmap small_fs bgid) j)
    × (get_free_blocks_cnt t.sb ≡ get_free_blocks_cnt small_disk + 2)
    × (get_free_blocks_count (t.groups bgid) t.sb ≡ get_free_blocks_count group0 small_disk + 2)
    × (t.invalidated ≡ (1, 2) ∷ [])
    × (t.held ≡ 0)
free_blocks-frees_example =
    free_blocks-frees {bits = 16} no_image 1 2 small_fs range-IsReady (omega arith) range_place.2
      (record { bytes = bytes (bgid_of_block small_disk 1); room = omega arith })
      (omega (arith, range_place.1)) (omega (arith, range_place.1, block_size))
      (omega (arith, small_free.0)) (omega (arith, small_free.1))
