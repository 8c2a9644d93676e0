-- ===== src/Ialloc/Taken.antt =====
-- `ext4_ialloc_alloc_inode` when the group of the last allocation has a free inode.
use initramfstool.Base.{
  ℕ, suc, ◌+◌, ◌-◌, ◌^◌, ◌<◌, ◌≡◌, refl, ap, arith, Bool, true, false, List, ◌==◌, if◌then◌else◌,
  ◌||◌, u32, ◌∙◌, some, ltb, leb, Bool-cases, inl, inr,
}
use initramfstool.Super.{Sblock, sub32, block_group_cnt, inodes_in_group_cnt}
use initramfstool.Bitmap.{bit_set, is_bit_set, bit_find_clr}
use initramfstool.Bitmap.Laws.{IsMap, is_bit_set-bit_set}
use initramfstool.Bitmap.Find.{IsFirstClr, bit_find_clr-IsFirstClr}
use initramfstool.BlockGroup.{
  Bgroup, get_inode_bitmap, get_free_inodes_count, set_free_inodes_count, get_used_dirs_count,
  set_used_dirs_count, get_itable_unused, set_itable_unused,
}
use initramfstool.BlockGroup.Fields.{kept, get-set_counters}
use initramfstool.Address.{bgidx_to_inode}
use initramfstool.Fs.Monad.{Fs, ok, write_group}
use initramfstool.Fs.Desc.{close_group}
use initramfstool.Fs.Ready.{
  IsReady, block_get-ready, block_set-ready, get_block_group_ref-ready, put_block_group_ref-ready,
}
use initramfstool.Balloc.Effect.{kept_small}
use initramfstool.Balloc.Goal.{IsFirstClr-some}
use initramfstool.Ialloc.{
  inode_bitmap, write_inode_bitmap, inode_taken, search_inodes, visit_group, take_inode, inode_loop,
  alloc_inode,
}
use initramfstool.Ialloc.Effect.{
  csum_keeps, after, written, inode_bitmap-after, free_inodes-after, used_dirs-after, sb_free-after,
  held-after,
}

-- What taking an inode leaves of a descriptor, whatever becomes of the count of unused inodes.
inode_taken_lem :
    (sb : Sblock) (is_dir : Bool) (n idx : ℕ) (bg : Bgroup)
    → (get_inode_bitmap (inode_taken sb is_dir n idx bg) sb ≡ get_inode_bitmap bg sb)
      × (get_free_inodes_count (inode_taken sb is_dir n idx bg) sb
          ≡ kept sb 16 (sub32 (get_free_inodes_count bg sb) 1))
      × (get_used_dirs_count (inode_taken sb is_dir n idx bg) sb ≡ (
          if is_dir
          then kept sb 16 (u32 (get_used_dirs_count bg sb + 1))
          else get_used_dirs_count bg sb))
unfolding inode_taken get_inode_bitmap get_free_inodes_count set_free_inodes_count
    get_used_dirs_count set_used_dirs_count get_itable_unused set_itable_unused
inode_taken_lem sb is_dir n idx bg =
    let (_, e, _, _) = get-set_counters bg sb (sub32 (get_free_inodes_count bg sb) 1) in
    let (_, _, d, _) = get-set_counters bg sb (u32 (get_used_dirs_count bg sb + 1)) in
    elim (Bool-cases is_dir) [
      | inl dir ↦ elim (Bool-cases (leb (sub32 n (get_itable_unused bg sb)) idx)) [
        | inl c ↦ rw (dir, c) (refl, e, d)
        | inr c ↦ rw (dir, c) (refl, e, d)
      ]
      | inr dir ↦ elim (Bool-cases (leb (sub32 n (get_itable_unused bg sb)) idx)) [
        | inl c ↦ rw (dir, c) (refl, e, refl)
        | inr c ↦ rw (dir, c) (refl, e, refl)
      ]
    ]

module _ (image : Bgroup → List ℕ) (is_dir : Bool) (k : ℕ) (s : Fs)
    (v : IsReady s s.last_inode_bg_id) where
  -- The state after the inode with index `k` of the group has been taken.
  unfoldable taken_state : Fs
  taken_state =
      let bgid = s.last_inode_bg_id in
      after image bgid (sub32 s.sb.free_inodes_count 1) (λ bmap. bit_set bmap k)
        (inode_taken s.sb is_dir (inodes_in_group_cnt s.sb bgid) k) s
        (λ bg. (inode_taken_lem s.sb is_dir (inodes_in_group_cnt s.sb bgid) k bg).0)

  visit_group-taken :
      0 < get_free_inodes_count (s.groups s.last_inode_bg_id) s.sb
      → bit_find_clr
          (inode_bitmap s s.last_inode_bg_id)
          0
          (inodes_in_group_cnt s.sb s.last_inode_bg_id)
        ≡ some k
      → visit_group image s.last_inode_bg_id is_dir s.sb.free_inodes_count s
        ≡ (ok (some (bgidx_to_inode s.sb k s.last_inode_bg_id), true), taken_state)
  unfolding visit_group search_inodes take_inode taken_state after close_group
  visit_group-taken some_free found =
      let bgid = s.last_inode_bg_id in
      let change : List ℕ → List ℕ = λ bmap. bit_set bmap k in
      let s1 : Fs = record s { held = s.held + 1 } in
      let s2 : Fs = record s { held = s.held + 1 + 1 } in
      let s3 = write_inode_bitmap bgid change s2 in
      let s4 : Fs = record s3 { held = s3.held - 1 } in
      let s5 =
        write_group s4 bgid
          (inode_taken s.sb is_dir (inodes_in_group_cnt s.sb bgid) k (s4.groups bgid)) in
      let some_left : (get_free_inodes_count (s.groups bgid) s.sb == 0) ≡ false = ground arith in
      let held_same : s.held + 1 + 1 - 1 - 1 ≡ s.held = omega arith in
      let inode = bgidx_to_inode s.sb k bgid in
      simp
        (
          get_block_group_ref-ready s bgid v,
          some_left,
          block_get-ready s1 v.no_failure,
          found,
          block_set-ready s3 v.no_failure,
          put_block_group_ref-ready image s5 bgid true v.no_failure,
        )
        (ap (λ h. (ok (some inode, true), record taken_state { held = h })) held_same)

  alloc_inode-taken :
      (fuel : ℕ)
      → s.last_inode_bg_id < block_group_cnt s.sb
      → 0 < get_free_inodes_count (s.groups s.last_inode_bg_id) s.sb
      → bit_find_clr
          (inode_bitmap s s.last_inode_bg_id)
          0
          (inodes_in_group_cnt s.sb s.last_inode_bg_id)
        ≡ some k
      → alloc_inode image (suc fuel) is_dir s
        ≡ (ok (some (bgidx_to_inode s.sb k s.last_inode_bg_id)), taken_state)
  unfolding alloc_inode inode_loop
  alloc_inode-taken fuel disk some_free found =
      let before : ltb (block_group_cnt s.sb) s.last_inode_bg_id ≡ false = ground arith in
      let within : (s.last_inode_bg_id == block_group_cnt s.sb) ≡ false = ground arith in
      simp (before, within, visit_group-taken some_free found) refl

one_less : (sb : Sblock) (c : ℕ) → 0 < c → c < 2 ^ 16 → kept sb 16 (sub32 c 1) + 1 ≡ c
one_less sb c pos fits = omega (arith, kept_small sb (sub32 c 1) (omega arith))

-- The directories after are those before, and one more if the inode is a directory.
one_more :
    (sb : Sblock) (is_dir : Bool) (c : ℕ)
    → c + 1 < 2 ^ 16
    → (if is_dir then kept sb 16 (u32 (c + 1)) else c) ≡ c + (if is_dir then 1 else 0)
one_more sb false c fits = omega arith
one_more sb true c fits = omega (arith, kept_small sb (u32 (c + 1)) (omega arith))

-- If the group of the last allocation has a free inode, the first one of the group is allocated: one visit
-- is enough, the result is its number, its bit is set and no other, one is taken from the free inodes of the
-- superblock and of the group, the group's directories count it if it is one, and every reference is given
-- back.
-- No call below fails, the group is one of the disk and its bitmaps are in use, the bitmap has a bit for each
-- inode of the group, of which there are fewer than 2 ^ 32, the free inodes are not 0 and fit 32 and 16 bits,
-- and the directories have room in 16 bits.
pub alloc_inode-first_free :
    (image : Bgroup → List ℕ) (fuel j : ℕ) (is_dir : Bool) (s : Fs)
    → let bgid = s.last_inode_bg_id in
      let inodes_in_bg = inodes_in_group_cnt s.sb bgid in
      IsReady s bgid
      → bgid < block_group_cnt s.sb
      → IsMap (inode_bitmap s bgid) inodes_in_bg
      → inodes_in_bg < 2 ^ 32
      → 0 < s.sb.free_inodes_count
      → s.sb.free_inodes_count < 2 ^ 32
      → 0 < get_free_inodes_count (s.groups bgid) s.sb
      → get_free_inodes_count (s.groups bgid) s.sb < 2 ^ 16
      → get_used_dirs_count (s.groups bgid) s.sb + 1 < 2 ^ 16
      → j < inodes_in_bg
      → is_bit_set (inode_bitmap s bgid) j ≡ false
      → let (r, t) = alloc_inode image (suc fuel) is_dir s in
        (k : ℕ) × IsFirstClr (inode_bitmap s bgid) 0 inodes_in_bg (some k)
        × (r ≡ ok (some (bgidx_to_inode s.sb k bgid)))
        × ((i : ℕ)
            → is_bit_set (inode_bitmap t bgid) i ≡ (k == i) || is_bit_set (inode_bitmap s bgid) i)
        × (t.sb.free_inodes_count + 1 ≡ s.sb.free_inodes_count)
        × (get_free_inodes_count (t.groups bgid) t.sb + 1
            ≡ get_free_inodes_count (s.groups bgid) s.sb)
        × (get_used_dirs_count (t.groups bgid) t.sb
            ≡ get_used_dirs_count (s.groups bgid) s.sb + (if is_dir then 1 else 0))
        × (t.held ≡ s.held)
unfolding taken_state written
alloc_inode-first_free image fuel j is_dir s v disk m w some_sb fits_sb some_bg fits_bg fits_dirs
      inside clear =
    let bgid = s.last_inode_bg_id in
    let cnt = inodes_in_group_cnt s.sb bgid in
    let bmap = inode_bitmap s bgid in
    let search =
      bit_find_clr-IsFirstClr bmap 0 cnt m (omega arith) (omega arith) w
        (λ i p q r. absurd (omega arith)) in
    let (k, e, first) =
      IsFirstClr-some bmap 0 cnt j (bit_find_clr bmap 0 cnt) search (omega arith) inside clear in
    let run = alloc_inode-taken image is_dir k s v fuel disk some_bg e in
    let change : List ℕ → List ℕ = λ b. bit_set b k in
    let n = sub32 s.sb.free_inodes_count 1 in
    let f = inode_taken s.sb is_dir cnt k in
    let keeps : (bg : Bgroup) → get_inode_bitmap (f bg) s.sb ≡ get_inode_bitmap bg s.sb =
      λ bg. (inode_taken_lem s.sb is_dir cnt k bg).0 in
    let (_, same_free, same_dirs) = csum_keeps s.sb (s.groups bgid) (change bmap) in
    let (_, free, dirs) =
      inode_taken_lem s.sb is_dir cnt k (written image bgid n change f s keeps) in
    (
      k,
      first,
      rw run refl,
      λ i.
          rw (run, inode_bitmap-after image bgid n change f s keeps)
            (is_bit_set-bit_set bmap k i m.bytes (omega (arith, first.1, m.room))),
      rw run (ap (λ c. c + 1) (sb_free-after image bgid n change f s keeps) ∙ omega arith),
      rw run (
          ap (λ c. c + 1)
            (free_inodes-after image bgid n change f s keeps
              ∙ free
              ∙ ap (λ c. kept s.sb 16 (sub32 c 1)) same_free)
          ∙ one_less s.sb _ some_bg fits_bg),
      rw run (
          used_dirs-after image bgid n change f s keeps
          ∙ dirs
          ∙ ap (λ c. if is_dir then kept s.sb 16 (u32 (c + 1)) else c) same_dirs
          ∙ one_more s.sb is_dir _ fits_dirs),
      rw run (held-after image bgid n change f s keeps),
    )
