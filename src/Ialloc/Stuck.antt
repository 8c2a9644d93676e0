-- ===== src/Ialloc/Stuck.antt =====
-- A group whose counter of free inodes is not 0 but whose bitmap is full holds the search for ever.
use initramfstool.Base.{
  ℕ, zero, suc, ◌+◌, ◌-◌, ◌<◌, ◌≡◌, refl, ap, arith, Bool, false, none, List, ◌==◌, ltb,
}
use initramfstool.Bitmap.{bit_find_clr}
use initramfstool.Super.{inodes_in_group_cnt}
use initramfstool.BlockGroup.{Bgroup, get_free_inodes_count}
use initramfstool.Fs.Monad.{Fs, ok}
use initramfstool.Fs.Desc.{close_group}
use initramfstool.Fs.Ready.{
  IsReady, block_get-ready, block_set-ready, get_block_group_ref-ready, put_block_group_ref-ready,
}
use initramfstool.Ialloc.{inode_bitmap, search_inodes, visit_group, inode_loop}

module _ (image : Bgroup → List ℕ) (bgid sb_free_inodes : ℕ) (is_dir : Bool) (s : Fs)
    (v : IsReady s bgid) (some_free : (get_free_inodes_count (s.groups bgid) s.sb == 0) ≡ false)
    (full : bit_find_clr (inode_bitmap s bgid) 0 (inodes_in_group_cnt s.sb bgid) ≡ none) where
  visit_group-full : visit_group image bgid is_dir sb_free_inodes s ≡ (ok (none, false), s)
  unfolding visit_group search_inodes close_group
  visit_group-full =
      let s1 : Fs = record s { held = s.held + 1 } in
      let s2 : Fs = record s { held = s.held + 1 + 1 } in
      let s3 : Fs = record s { held = s.held + 1 + 1 - 1 } in
      let held_same : s.held + 1 + 1 - 1 - 1 ≡ s.held = omega arith in
      simp
        (
          get_block_group_ref-ready s bgid v,
          some_free,
          block_get-ready s1 v.no_failure,
          full,
          block_set-ready s2 v.no_failure,
          put_block_group_ref-ready image s3 bgid false v.no_failure,
        )
        (ap (λ h. (ok (none, false), record s { held = h })) held_same)

  -- The search that has come to the group visits it again and again: no number of rounds ends it,
  -- and the state does not change. The group counts free inodes, its bitmap has none, it is below
  -- `bg_count`, its bitmaps are in use, and no call below fails.
  pub inode_loop-stuck :
      (fuel bg_count : ℕ) (rewind : Bool)
      → bgid < bg_count
      → inode_loop image fuel is_dir sb_free_inodes bgid bg_count rewind s ≡ (ok none, s)
  unfolding inode_loop
  inode_loop-stuck zero bg_count rewind h = refl
  inode_loop-stuck (suc fuel) bg_count rewind h =
      let before : ltb bg_count bgid ≡ false = ground arith in
      let within : (bgid == bg_count) ≡ false = ground arith in
      simp (before, within, visit_group-full) (inode_loop-stuck fuel bg_count rewind h)
