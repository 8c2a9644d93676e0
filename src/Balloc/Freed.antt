-- ===== src/Balloc/Freed.antt =====
-- `ext4_balloc_free_block` frees exactly the block that it is given.
use initramfstool.Base.{
  ℕ, ◌+◌, ◌-◌, ◌*◌, ◌^◌, ◌<◌, ◌≡◌, refl, ap, arith, true, not, ◌&&◌, u32, List, ◌∷◌, ◌==◌, length,
  u64, IsBytes, ◌/◌,
}
use initramfstool.Bitmap.{bit_clr, is_bit_set}
use initramfstool.BlockGroup.{Bgroup}
use initramfstool.Address.{bgid_of_block, addr_to_idx_bg}
use initramfstool.Fs.Monad.{Fs, ok, invalidate_lba}
use initramfstool.Fs.Desc.{close_group}
use initramfstool.Fs.Ready.{
  IsReady, block_get-ready, block_set-ready, try_revoke_block-ready, get_block_group_ref-ready,
  put_block_group_ref-ready,
}
use initramfstool.Balloc.Effect.{
  after, held-after, invalidated-after, bitmap-after, sb-after, group-after, free_while_written,
  kept_small,
}
use initramfstool.Bitmap.Laws.{is_bit_set-bit_clr}
use initramfstool.Super.{set_free_blocks_cnt, get_free_blocks_cnt, get_block_size}
use initramfstool.BlockGroup.{get_free_blocks_count}
use initramfstool.Inode.{get_blocks_count}
use initramfstool.Balloc.{inode_block_size, bitmap, write_bitmap, free_block, count_freed}

-- The state after one block of a group has been freed and every reference has been given back.
pub freed_state : (Bgroup → List ℕ) → ℕ → ℕ → Fs → Fs
freed_state image bgid idx s =
    let w = write_bitmap bgid (λ bmap. bit_clr bmap idx) s in
    after image bgid (λ bmap. bit_clr bmap idx) (u64 (get_free_blocks_cnt s.sb + 1))
      (u64 (
        get_blocks_count s.sb s.inode
        + 2 ^ 64
        - u32 (1 * (get_block_size s.sb / inode_block_size))))
      (u32 (get_free_blocks_count (w.groups bgid) s.sb + 1)) s

module _ (image : Bgroup → List ℕ) (baddr : ℕ) (s : Fs)
    (v : IsReady s (bgid_of_block s.sb baddr)) where
  free_block-freed : free_block image baddr s ≡ (
    ok tt,
    invalidate_lba
        (freed_state image (bgid_of_block s.sb baddr) (addr_to_idx_bg s.sb baddr) s)
        baddr
        1,
  )
  unfolding free_block freed_state after close_group count_freed
  free_block-freed =
      let bgid = bgid_of_block s.sb baddr in
      let idx = addr_to_idx_bg s.sb baddr in
      let s1 : Fs = record s { held = s.held + 1 } in
      let s2 : Fs = record s { held = s.held + 1 + 1 } in
      let s3 = write_bitmap bgid (λ bmap. bit_clr bmap idx) s2 in
      let s4 : Fs = record s3 { held = s3.held - 1 } in
      let s5 = count_freed bgid 1 s4 in
      let held_same : s.held + 1 + 1 - 1 - 1 ≡ s.held = omega arith in
      let done = freed_state image bgid idx s in
      simp
        (
          get_block_group_ref-ready s bgid v,
          block_get-ready s1 v.no_failure,
          block_set-ready s3 v.no_failure,
          try_revoke_block-ready s5 v.no_failure,
          put_block_group_ref-ready image (invalidate_lba s5 baddr 1) bgid true v.no_failure,
        )
        (ap (λ h. (ok tt, record done { invalidated = (baddr, 1) ∷ s.invalidated; held = h }))
          held_same)

  -- Freeing a block clears its bit and no other, adds one to the free blocks of the superblock and of
  -- the group, tells the cache to forget the block, and gives every reference back.
  -- No call below fails, the group's bitmaps are in use, the bit lies in the bitmap, and the two
  -- counters have room in 64 and 16 bits.
  pub free_block-frees :
      IsBytes (bitmap s (bgid_of_block s.sb baddr))
      → addr_to_idx_bg s.sb baddr < 8 * length (bitmap s (bgid_of_block s.sb baddr))
      → get_free_blocks_cnt s.sb + 1 < 2 ^ 64
      → get_free_blocks_count (s.groups (bgid_of_block s.sb baddr)) s.sb + 1 < 2 ^ 16
      → let bgid = bgid_of_block s.sb baddr in
        let (r, t) = free_block image baddr s in
        (r ≡ ok tt)
        × ((j : ℕ)
            → is_bit_set (bitmap t bgid) j
              ≡ not (addr_to_idx_bg s.sb baddr == j) && is_bit_set (bitmap s bgid) j)
        × (get_free_blocks_cnt t.sb ≡ get_free_blocks_cnt s.sb + 1)
        × (get_free_blocks_count (t.groups bgid) t.sb
            ≡ get_free_blocks_count (s.groups bgid) s.sb + 1)
        × (t.invalidated ≡ (baddr, 1) ∷ s.invalidated)
        × (t.held ≡ s.held)
  unfolding freed_state
  free_block-frees bytes room fits_sb fits_bg =
      let bgid = bgid_of_block s.sb baddr in
      let idx = addr_to_idx_bg s.sb baddr in
      let change : List ℕ → List ℕ = λ bmap. bit_clr bmap idx in
      let w = write_bitmap bgid change s in
      let n = u64 (get_free_blocks_cnt s.sb + 1) in
      let i = u64 (
        get_blocks_count s.sb s.inode
        + 2 ^ 64
        - u32 (1 * (get_block_size s.sb / inode_block_size))) in
      let b = u32 (get_free_blocks_count (w.groups bgid) s.sb + 1) in
      rw free_block-freed (
        refl,
        (λ j.
            rw (bitmap-after image bgid change n i b s)
              (is_bit_set-bit_clr (bitmap s bgid) idx j bytes room)),
        rw (sb-after image bgid change n i b s) (omega arith),
        rw (group-after image bgid change n i b s, free_while_written bgid change s)
            (omega (
              arith,
              kept_small (set_free_blocks_cnt s.sb n)
                  (u32 (get_free_blocks_count (s.groups bgid) s.sb + 1)) (omega arith),
            )),
        ap (λ l. (baddr, 1) ∷ l) (invalidated-after image bgid change n i b s),
        held-after image bgid change n i b s,
      )
