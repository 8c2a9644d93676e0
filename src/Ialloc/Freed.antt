-- ===== src/Ialloc/Freed.antt =====
-- `ext4_ialloc_free_inode` frees exactly the inode that it is given.
use initramfstool.Base.{
  ℕ, ◌+◌, ◌-◌, ◌*◌, ◌^◌, ◌<◌, ◌≡◌, refl, ap, arith, Bool, true, false, List, ◌==◌, if◌then◌else◌,
  not, ◌&&◌, u32, length, IsBytes, ◌∙◌,
}
use initramfstool.Super.{Sblock, sub32}
use initramfstool.Bitmap.{bit_clr, is_bit_set}
use initramfstool.Bitmap.Laws.{is_bit_set-bit_clr}
use initramfstool.BlockGroup.{
  Bgroup, get_inode_bitmap, get_free_inodes_count, set_free_inodes_count, get_used_dirs_count,
  set_used_dirs_count,
}
use initramfstool.BlockGroup.Fields.{kept, get-set_counters}
use initramfstool.Address.{inode_to_bgidx, bgid_of_inode}
use initramfstool.Fs.Monad.{Fs, ok, write_group}
use initramfstool.Fs.Desc.{close_group}
use initramfstool.Fs.Ready.{
  IsReady, block_get-ready, block_set-ready, get_block_group_ref-ready, put_block_group_ref-ready,
}
use initramfstool.Balloc.Effect.{kept_small}
use initramfstool.Ialloc.{inode_bitmap, write_inode_bitmap, inode_freed, free_inode}
use initramfstool.Ialloc.Effect.{
  csum_keeps, after, written, inode_bitmap-after, free_inodes-after, used_dirs-after, sb_free-after,
  held-after,
}

inode_freed_lem :
    (sb : Sblock) (is_dir : Bool) (bg : Bgroup)
    → (get_inode_bitmap (inode_freed sb is_dir bg) sb ≡ get_inode_bitmap bg sb)
      × (get_free_inodes_count (inode_freed sb is_dir bg) sb
          ≡ kept sb 16 (u32 (get_free_inodes_count bg sb + 1)))
      × (get_used_dirs_count (inode_freed sb is_dir bg) sb ≡ (
          if is_dir
          then kept sb 16 (sub32 (get_used_dirs_count bg sb) 1)
          else get_used_dirs_count bg sb))
unfolding inode_freed get_inode_bitmap get_free_inodes_count set_free_inodes_count
    get_used_dirs_count set_used_dirs_count
inode_freed_lem sb false bg =
    let (_, e, _, _) = get-set_counters bg sb (u32 (get_free_inodes_count bg sb + 1)) in
    (refl, e, refl)
inode_freed_lem sb true bg =
    let (_, e, _, _) = get-set_counters bg sb (u32 (get_free_inodes_count bg sb + 1)) in
    let (_, _, d, _) = get-set_counters bg sb (sub32 (get_used_dirs_count bg sb) 1) in (refl, e, d)

one_more : (sb : Sblock) (c : ℕ) → c + 1 < 2 ^ 16 → kept sb 16 (u32 (c + 1)) ≡ c + 1
one_more sb c fits = omega (arith, kept_small sb (u32 (c + 1)) (omega arith))

-- The directories before are those after, and one more if the inode is a directory.
one_less :
    (sb : Sblock) (is_dir : Bool) (c : ℕ)
    → c < 2 ^ 16
    → (is_dir ≡ true → 0 < c)
    → (if is_dir then kept sb 16 (sub32 c 1) else c) + (if is_dir then 1 else 0) ≡ c
one_less sb false c fits some_dir = omega arith
one_less sb true c fits some_dir =
    let pos : 0 < c = some_dir refl in omega (arith, kept_small sb (sub32 c 1) (omega arith))

module _ (image : Bgroup → List ℕ) (index : ℕ) (is_dir : Bool) (s : Fs)
    (v : IsReady s (bgid_of_inode s.sb index)) where
  -- The state after the inode has been freed.
  unfoldable freed_state : Fs
  freed_state =
      after image (bgid_of_inode s.sb index) (u32 (s.sb.free_inodes_count + 1))
        (λ bmap. bit_clr bmap (inode_to_bgidx s.sb index)) (inode_freed s.sb is_dir) s
        (λ bg. (inode_freed_lem s.sb is_dir bg).0)

  free_inode-freed : free_inode image index is_dir s ≡ (ok tt, freed_state)
  unfolding free_inode freed_state after close_group
  free_inode-freed =
      let bgid = bgid_of_inode s.sb index in
      let change : List ℕ → List ℕ = λ bmap. bit_clr bmap (inode_to_bgidx s.sb index) in
      let s1 : Fs = record s { held = s.held + 1 } in
      let s2 : Fs = record s { held = s.held + 1 + 1 } in
      let s3 = write_inode_bitmap bgid change s2 in
      let s4 : Fs = record s3 { held = s3.held - 1 } in
      let s5 = write_group s4 bgid (inode_freed s.sb is_dir (s4.groups bgid)) in
      let held_same : s.held + 1 + 1 - 1 - 1 ≡ s.held = omega arith in
      simp
        (
          get_block_group_ref-ready s bgid v,
          block_get-ready s1 v.no_failure,
          block_set-ready s3 v.no_failure,
          put_block_group_ref-ready image s5 bgid true v.no_failure,
        )
        (ap (λ h. (ok tt, record freed_state { held = h })) held_same)

  -- Freeing an inode clears its bit and no other of the group's bitmap, adds one to the free inodes of the
  -- superblock and of the group, takes one from the group's directories if the inode is one, and gives every
  -- reference back.
  -- No call below fails, the group's bitmaps are in use, the bit lies in the bitmap, the free inodes have room in
  -- 32 and 16 bits, and the directories fit 16 bits and are not 0 if the inode is one.
  pub free_inode-frees :
      IsBytes (inode_bitmap s (bgid_of_inode s.sb index))
      → inode_to_bgidx s.sb index < 8 * length (inode_bitmap s (bgid_of_inode s.sb index))
      → s.sb.free_inodes_count + 1 < 2 ^ 32
      → get_free_inodes_count (s.groups (bgid_of_inode s.sb index)) s.sb + 1 < 2 ^ 16
      → get_used_dirs_count (s.groups (bgid_of_inode s.sb index)) s.sb < 2 ^ 16
      → (is_dir ≡ true → 0 < get_used_dirs_count (s.groups (bgid_of_inode s.sb index)) s.sb)
      → let bgid = bgid_of_inode s.sb index in
        let (r, t) = free_inode image index is_dir s in
        (r ≡ ok tt)
        × ((j : ℕ)
            → is_bit_set (inode_bitmap t bgid) j
              ≡ not (inode_to_bgidx s.sb index == j) && is_bit_set (inode_bitmap s bgid) j)
        × (t.sb.free_inodes_count ≡ s.sb.free_inodes_count + 1)
        × (get_free_inodes_count (t.groups bgid) t.sb
            ≡ get_free_inodes_count (s.groups bgid) s.sb + 1)
        × (get_used_dirs_count (t.groups bgid) t.sb + (if is_dir then 1 else 0)
            ≡ get_used_dirs_count (s.groups bgid) s.sb)
        × (t.held ≡ s.held)
  unfolding freed_state written
  free_inode-frees bytes room fits_sb fits_bg fits_dirs some_dir =
      let bgid = bgid_of_inode s.sb index in
      let idx = inode_to_bgidx s.sb index in
      let change : List ℕ → List ℕ = λ bmap. bit_clr bmap idx in
      let n = u32 (s.sb.free_inodes_count + 1) in
      let f = inode_freed s.sb is_dir in
      let keeps : (bg : Bgroup) → get_inode_bitmap (f bg) s.sb ≡ get_inode_bitmap bg s.sb =
        λ bg. (inode_freed_lem s.sb is_dir bg).0 in
      let (_, same_free, same_dirs) =
        csum_keeps s.sb (s.groups bgid) (change (inode_bitmap s bgid)) in
      let bg = written image bgid n change f s keeps in
      let (_, free, dirs) = inode_freed_lem s.sb is_dir bg in
      rw free_inode-freed (
        refl,
        (λ j.
            rw (inode_bitmap-after image bgid n change f s keeps)
              (is_bit_set-bit_clr (inode_bitmap s bgid) idx j bytes room)),
        sb_free-after image bgid n change f s keeps ∙ omega arith,
        (free_inodes-after image bgid n change f s keeps
            ∙ free
            ∙ ap (λ c. kept s.sb 16 (u32 (c + 1))) same_free
            ∙ one_more s.sb _ fits_bg),
        (ap (λ c. c + (if is_dir then 1 else 0))
              (used_dirs-after image bgid n change f s keeps
                ∙ dirs
                ∙ ap (λ c. if is_dir then kept s.sb 16 (sub32 c 1) else c) same_dirs)
            ∙ one_less s.sb is_dir _ fits_dirs some_dir),
        held-after image bgid n change f s keeps,
      )
