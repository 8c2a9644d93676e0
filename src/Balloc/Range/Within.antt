-- ===== src/Balloc/Range/Within.antt =====
-- `ext4_balloc_free_blocks` on a range of blocks that lies in one group.
use initramfstool.Base.{
  ℕ, zero, suc, ◌+◌, ◌-◌, ◌*◌, ◌/◌, ◌^◌, ◌<◌, ◌≤◌, ◌≡◌, refl, ap, arith, true, false, List, ◌∷◌, [],
  ◌==◌, ltb, not, ◌&&◌, u32, u64,
}
use initramfstool.Super.{sub32, get_block_size, get_free_blocks_cnt, set_free_blocks_cnt}
use initramfstool.Bitmap.{bits_free, is_bit_set}
use initramfstool.Bitmap.Laws.{IsMap}
use initramfstool.Bitmap.Free.{within, bits_free-is_bit_set}
use initramfstool.BlockGroup.{Bgroup, get_free_blocks_count}
use initramfstool.Inode.{get_blocks_count}
use initramfstool.Address.{bgid_of_block, addr_to_idx_bg}
use initramfstool.Fs.Monad.{Fs, ok, invalidate_lba}
use initramfstool.Fs.Desc.{close_group}
use initramfstool.Fs.Ready.{
  IsReady, block_get-ready, block_set-ready, try_revoke_block-ready, get_block_group_ref-ready,
  put_block_group_ref-ready,
}
use initramfstool.Balloc.{inode_block_size, bitmap, write_bitmap, count_freed, free_in_group}
use initramfstool.Balloc.Effect.{
  after, bitmap-after, sb-after, group-after, held-after, invalidated-after, free_while_written,
  kept_small,
}
use initramfstool.Balloc.Range.{revoke_blocks, free_groups, free_blocks}

revoke_blocks-ready : (n : ℕ) (s : Fs) → s.outcomes ≡ [] → revoke_blocks n s ≡ (ok tt, s)
unfolding revoke_blocks
revoke_blocks-ready zero s e = refl
revoke_blocks-ready (suc n) s e = simp (try_revoke_block-ready s e) (revoke_blocks-ready n s e)

module _ (image : Bgroup → List ℕ) (first count : ℕ) (s : Fs)
    (v : IsReady s (bgid_of_block s.sb first)) where
  -- The state after the range has been freed, before the cache is told.
  unfoldable freed_state : Fs
  freed_state =
      let bgid = bgid_of_block s.sb first in
      let change : List ℕ → List ℕ = λ bmap. bits_free bmap (addr_to_idx_bg s.sb first) count in
      let w = write_bitmap bgid change s in
      after image bgid change (u64 (get_free_blocks_cnt s.sb + count))
        (u64 (
          get_blocks_count s.sb s.inode
          + 2 ^ 64
          - u32 (count * (get_block_size s.sb / inode_block_size))))
        (u32 (get_free_blocks_count (w.groups bgid) s.sb + count)) s

  free_groups-one :
      (ltb (sub32 (u32 (get_block_size s.sb * 8)) (addr_to_idx_bg s.sb first)) count ≡ false)
      → free_groups image 1 (bgid_of_block s.sb first) first count s
        ≡ (ok (0, count - count), freed_state)
  unfolding free_groups free_in_group freed_state after close_group count_freed
  free_groups-one fits =
      let bgid = bgid_of_block s.sb first in
      let change : List ℕ → List ℕ = λ bmap. bits_free bmap (addr_to_idx_bg s.sb first) count in
      let s1 : Fs = record s { held = s.held + 1 } in
      let s2 : Fs = record s { held = s.held + 1 + 1 } in
      let s3 = write_bitmap bgid change s2 in
      let s4 : Fs = record s3 { held = s3.held - 1 } in
      let held_same : s.held + 1 + 1 - 1 - 1 ≡ s.held = omega arith in
      simp
        (
          get_block_group_ref-ready s bgid v,
          block_get-ready s1 v.no_failure,
          fits,
          block_set-ready s3 v.no_failure,
          put_block_group_ref-ready image (count_freed bgid count s4) bgid true v.no_failure,
        )
        (ap (λ h. (ok (0, count - count), record freed_state { held = h })) held_same)

  free_blocks-freed :
      0 < count
      → bgid_of_block s.sb (u64 (first + count + (2 ^ 64 - 1))) ≡ bgid_of_block s.sb first
      → addr_to_idx_bg s.sb first + count ≤ u32 (get_block_size s.sb * 8)
      → free_blocks image first count s ≡ (ok 0, invalidate_lba freed_state first count)
  unfolding free_blocks freed_state after close_group
  free_blocks-freed some same block =
      let bgid = bgid_of_block s.sb first in
      let one : bgid + 1 - bgid ≡ 1 = omega arith in
      let none_left : count - count ≡ 0 = omega arith in
      let some_count : (count == 0) ≡ false = ground arith in
      let whole : ltb (sub32 (u32 (get_block_size s.sb * 8)) (addr_to_idx_bg s.sb first)) count
          ≡ false =
        ground arith in
      simp
        (
          same,
          one,
          free_groups-one whole,
          none_left,
          some_count,
          revoke_blocks-ready count freed_state v.no_failure,
        )
        refl

-- Freeing a range of blocks that lies in one group clears the bits of the range and no other of the group's
-- bitmap, adds their number to the free blocks of the superblock and of the group, tells the cache to
-- forget the range, leaves no block to free, and gives every reference back.
-- No call below fails, the group's bitmaps are in use, the range is not empty, its last block is of the
-- group, its bits lie in the bitmap and in a block, below 2 ^ 32, and the two counters have room in 64 and 16
-- bits.
pub free_blocks-frees :
    {bits : ℕ} (image : Bgroup → List ℕ) (first count : ℕ) (s : Fs)
    → let bgid = bgid_of_block s.sb first in
      let idx = addr_to_idx_bg s.sb first in
      IsReady s bgid
      → 0 < count
      → bgid_of_block s.sb (u64 (first + count + (2 ^ 64 - 1))) ≡ bgid
      → IsMap (bitmap s bgid) bits
      → idx + count ≤ bits
      → idx + count ≤ u32 (get_block_size s.sb * 8)
      → get_free_blocks_cnt s.sb + count < 2 ^ 64
      → get_free_blocks_count (s.groups bgid) s.sb + count < 2 ^ 16
      → let (r, t) = free_blocks image first count s in
        (r ≡ ok 0)
        × ((j : ℕ)
            → is_bit_set (bitmap t bgid) j
              ≡ not (within idx (idx + count) j) && is_bit_set (bitmap s bgid) j)
        × (get_free_blocks_cnt t.sb ≡ get_free_blocks_cnt s.sb + count)
        × (get_free_blocks_count (t.groups bgid) t.sb
            ≡ get_free_blocks_count (s.groups bgid) s.sb + count)
        × (t.invalidated ≡ (first, count) ∷ s.invalidated)
        × (t.held ≡ s.held)
unfolding freed_state
free_blocks-frees {bits} image first count s v some same m room block fits_sb fits_bg =
    let bgid = bgid_of_block s.sb first in
    let idx = addr_to_idx_bg s.sb first in
    let change : List ℕ → List ℕ = λ bmap. bits_free bmap idx count in
    let n = u64 (get_free_blocks_cnt s.sb + count) in
    let i = u64 (
      get_blocks_count s.sb s.inode
      + 2 ^ 64
      - u32 (count * (get_block_size s.sb / inode_block_size))) in
    let c = u32 (get_free_blocks_count (s.groups bgid) s.sb + count) in
    let b = u32 (get_free_blocks_count ((write_bitmap bgid change s).groups bgid) s.sb + count) in
    let run = free_blocks-freed image first count s v some same block in
    (
      rw run refl,
      λ j.
          rw (run, bitmap-after image bgid change n i b s)
            (bits_free-is_bit_set (bitmap s bgid) idx count j m room (omega arith)),
      rw (run, sb-after image bgid change n i b s) (omega arith),
      rw (run, group-after image bgid change n i b s, free_while_written bgid change s)
          (omega (arith, kept_small (set_free_blocks_cnt s.sb n) c (omega arith))),
      rw run (ap (λ l. (first, count) ∷ l) (invalidated-after image bgid change n i b s)),
      rw run (held-after image bgid change n i b s),
    )
