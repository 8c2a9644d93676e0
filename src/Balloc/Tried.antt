-- ===== src/Balloc/Tried.antt =====
-- `ext4_balloc_try_alloc_block` takes exactly the block that it is asked for.
use initramfstool.Base.{
  ℕ, ◌+◌, ◌-◌, ◌*◌, ◌^◌, ◌<◌, ◌≡◌, refl, ap, arith, true, false, ◌||◌, List, ◌==◌, length, IsBytes,
}
use initramfstool.Bitmap.{bit_set, is_bit_set, is_bit_clr}
use initramfstool.BlockGroup.{Bgroup}
use initramfstool.Address.{bgid_of_block, addr_to_idx_bg}
use initramfstool.Fs.Monad.{Fs, ok}
use initramfstool.Fs.Desc.{close_group}
use initramfstool.Fs.Ready.{
  IsReady, block_get-ready, block_set-ready, get_block_group_ref-ready, put_block_group_ref-ready,
}
use initramfstool.Balloc.Effect.{after}
use initramfstool.Super.{get_free_blocks_cnt}
use initramfstool.BlockGroup.{get_free_blocks_count}
use initramfstool.Balloc.Taken.{taken_state, IsCounted, taken_state-IsTaken}
use initramfstool.Balloc.{bitmap, write_bitmap, count_taken, finish_try, try_alloc_block}

module _ (image : Bgroup → List ℕ) (baddr : ℕ) (s : Fs)
    (v : IsReady s (bgid_of_block s.sb baddr)) where
  try_alloc_block-taken :
      is_bit_clr (bitmap s (bgid_of_block s.sb baddr)) (addr_to_idx_bg s.sb baddr) ≡ true
      → try_alloc_block image baddr s
        ≡ (ok true, taken_state image (bgid_of_block s.sb baddr) (addr_to_idx_bg s.sb baddr) s)
  unfolding try_alloc_block finish_try taken_state after close_group count_taken
  try_alloc_block-taken clear =
      let bgid = bgid_of_block s.sb baddr in
      let idx = addr_to_idx_bg s.sb baddr in
      let s1 : Fs = record s { held = s.held + 1 } in
      let s2 : Fs = record s { held = s.held + 1 + 1 } in
      let s3 = write_bitmap bgid (λ bmap. bit_set bmap idx) s2 in
      let s4 : Fs = record s3 { held = s3.held - 1 } in
      let held_same : s.held + 1 + 1 - 1 - 1 ≡ s.held = omega arith in
      simp
        (
          get_block_group_ref-ready s bgid v,
          block_get-ready s1 v.no_failure,
          clear,
          block_set-ready s3 v.no_failure,
          put_block_group_ref-ready image (count_taken bgid s4) bgid true v.no_failure,
        )
        (ap (λ h. (ok true, record (taken_state image bgid idx s) { held = h })) held_same)

  -- Taking a free block sets its bit and no other of the group's bitmap, takes one from the free
  -- blocks of the superblock and of the group, and gives every reference back.
  -- No call below fails, the group's bitmaps are in use, the bit lies in the bitmap and is clear, and
  -- the two counters are not 0 and fit 64 and 16 bits.
  pub try_alloc_block-takes :
      IsBytes (bitmap s (bgid_of_block s.sb baddr))
      → addr_to_idx_bg s.sb baddr < 8 * length (bitmap s (bgid_of_block s.sb baddr))
      → is_bit_clr (bitmap s (bgid_of_block s.sb baddr)) (addr_to_idx_bg s.sb baddr) ≡ true
      → 0 < get_free_blocks_cnt s.sb
      → get_free_blocks_cnt s.sb < 2 ^ 64
      → 0 < get_free_blocks_count (s.groups (bgid_of_block s.sb baddr)) s.sb
      → get_free_blocks_count (s.groups (bgid_of_block s.sb baddr)) s.sb < 2 ^ 16
      → let bgid = bgid_of_block s.sb baddr in
        let (r, t) = try_alloc_block image baddr s in
        (r ≡ ok true)
        × ((j : ℕ)
            → is_bit_set (bitmap t bgid) j
              ≡ (addr_to_idx_bg s.sb baddr == j) || is_bit_set (bitmap s bgid) j)
        × (get_free_blocks_cnt t.sb + 1 ≡ get_free_blocks_cnt s.sb)
        × (get_free_blocks_count (t.groups bgid) t.sb + 1
            ≡ get_free_blocks_count (s.groups bgid) s.sb)
        × (t.held ≡ s.held)
  try_alloc_block-takes bytes room clear some_sb fits_sb some_bg fits_bg =
      let bgid = bgid_of_block s.sb baddr in
      let idx = addr_to_idx_bg s.sb baddr in
      let c : IsCounted s bgid = (record {
        some_sb = some_sb;
        fits_sb = fits_sb;
        some_group = some_bg;
        fits_group = fits_bg;
      }) in
      let t = taken_state-IsTaken image bgid idx s bytes room c in
      rw (try_alloc_block-taken clear) (refl, t.bits, t.sb_free, t.group_free, t.held_same)

  -- A block that is in use is refused, and the state is as it was, where no call below fails and the
  -- group's bitmaps are in use.
  try_alloc_block-refuses :
      is_bit_clr (bitmap s (bgid_of_block s.sb baddr)) (addr_to_idx_bg s.sb baddr) ≡ false
      → try_alloc_block image baddr s ≡ (ok false, s)
  unfolding try_alloc_block finish_try close_group
  try_alloc_block-refuses used =
      let bgid = bgid_of_block s.sb baddr in
      let s1 : Fs = record s { held = s.held + 1 } in
      let s2 : Fs = record s { held = s.held + 1 + 1 } in
      let s3 : Fs = record s { held = s.held + 1 + 1 - 1 } in
      let held_same : s.held + 1 + 1 - 1 - 1 ≡ s.held = omega arith in
      simp
        (
          get_block_group_ref-ready s bgid v,
          block_get-ready s1 v.no_failure,
          used,
          block_set-ready s2 v.no_failure,
          put_block_group_ref-ready image s3 bgid false v.no_failure,
        )
        (ap (λ h. (ok false, record s { held = h })) held_same)
