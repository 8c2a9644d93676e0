-- ===== src/Balloc/Goal.antt =====
-- `ext4_balloc_alloc_block` when the group of the goal has a free block at or after the goal.
use initramfstool.Base.{
  ℕ, ◌+◌, ◌-◌, ◌*◌, ◌^◌, ◌<◌, ◌≤◌, ◌≡◌, refl, ap, arith, Bool, true, false, Option, none, some,
  List, [], ◌==◌, ltb, Bool-cases, inl, inr,
}
use initramfstool.Super.{Sblock, blocks_in_group_cnt}
use initramfstool.Bitmap.{bit_set, is_bit_set, is_bit_clr, bit_find_clr}
use initramfstool.Bitmap.Laws.{IsMap}
use initramfstool.Bitmap.Find.{IsFirstClr}
use initramfstool.BlockGroup.{Bgroup, get_free_blocks_count}
use initramfstool.Address.{bgid_of_block, addr_to_idx_bg, block_of_bgid, bg_idx_to_addr}
use initramfstool.Address.Laws.{addr_to_idx_bg-block_of_bgid}
use initramfstool.Fs.Monad.{Fs, Result, ok}
use initramfstool.Fs.Desc.{close_group}
use initramfstool.Fs.Ready.{
  IsReady, block_get-ready, block_set-ready, get_block_group_ref-ready, put_block_group_ref-ready,
}
use initramfstool.Balloc.{
  bitmap, write_bitmap, count_taken, take_bit, take_found, search_bitmap, search_rest, search_goal,
  finish_alloc, alloc_block, scan_near, near_end,
}
use initramfstool.Balloc.Effect.{after}
use initramfstool.Balloc.Near.{choose, or_search, choose-IsFirstClr}
use initramfstool.Balloc.Taken.{taken_state, IsTaken, IsCounted, taken_state-IsTaken}

-- What the search of a group leaves: the bitmap with the chosen bit set, and its buffer given back.
pub after_search : ℕ → Option ℕ → Fs → Result (Option ℕ) × Fs
after_search bgid (some k) t =
    (ok (some k), record (write_bitmap bgid (λ bmap. bit_set bmap k) t) { held = t.held - 1 })
after_search bgid none t = (ok none, record t { held = t.held - 1 })

take_bit-ready :
    (image : Bgroup → List ℕ) (bgid k : ℕ) (t : Fs)
    → t.outcomes ≡ []
    → take_bit image bgid k t ≡ after_search bgid (some k) t
unfolding take_bit after_search
take_bit-ready image bgid k t e =
    simp (block_set-ready (write_bitmap bgid (λ bmap. bit_set bmap k) t) e)

module _ (image : Bgroup → List ℕ) (bgid idx : ℕ) (dirty : Bool) (t : Fs)
    (e : t.outcomes ≡ []) where
  take_found-ready :
      (found : Option ℕ) → take_found image bgid dirty found t ≡ after_search bgid found t
  unfolding take_found after_search
  take_found-ready (some k) = take_bit-ready image bgid k t e
  take_found-ready none = simp (block_set-ready t e)

  search_bitmap-ready :
      (near : Option ℕ)
      → search_bitmap image bgid dirty idx near t
        ≡ after_search bgid (or_search (bitmap t bgid) idx (blocks_in_group_cnt t.sb bgid) near) t
  unfolding search_bitmap or_search
  search_bitmap-ready (some k) = take_bit-ready image bgid k t e
  search_bitmap-ready none =
      take_found-ready (bit_find_clr (bitmap t bgid) idx (blocks_in_group_cnt t.sb bgid))

  search_rest-ready :
      search_rest image bgid dirty idx t
      ≡ after_search bgid
          (or_search (bitmap t bgid) idx (blocks_in_group_cnt t.sb bgid) (
            scan_near
              (bitmap t bgid)
              (idx + 1)
              (near_end idx (blocks_in_group_cnt t.sb bgid) - (idx + 1))))
          t
  unfolding search_rest
  search_rest-ready = search_bitmap-ready (
      scan_near (bitmap t bgid) (idx + 1)
        (near_end idx (blocks_in_group_cnt t.sb bgid) - (idx + 1)))

module _ (image : Bgroup → List ℕ) (bgid goal_idx : ℕ) (dirty : Bool) (s : Fs) (e : s.outcomes ≡ [])
    (from_zero : addr_to_idx_bg s.sb (block_of_bgid s.sb bgid) ≡ 0) where
  -- The search leaves what the choice of an index says.
  search_goal-ready :
      search_goal image bgid dirty goal_idx s
      ≡ after_search bgid
          (choose (bitmap s bgid) goal_idx (blocks_in_group_cnt s.sb bgid))
          (record s { held = s.held + 1 })
  unfolding search_goal choose after_search
  search_goal-ready =
      let t : Fs = record s { held = s.held + 1 } in
      let no_less : ltb goal_idx 0 ≡ false = ground arith in
      elim (Bool-cases (is_bit_clr (bitmap s bgid) goal_idx)) [
        | inl c ↦
            simp
              (from_zero, no_less, block_get-ready s e, c, take_bit-ready image bgid goal_idx t e)
        | inr c ↦
            simp (from_zero, no_less, block_get-ready s e, c)
              (search_rest-ready image bgid goal_idx dirty t e)
      ]

module _ (image : Bgroup → List ℕ) (goal : ℕ) (s : Fs) (v : IsReady s (bgid_of_block s.sb goal))
    (from_zero : addr_to_idx_bg s.sb (block_of_bgid s.sb (bgid_of_block s.sb goal)) ≡ 0)
    (some_free : 0 < get_free_blocks_count (s.groups (bgid_of_block s.sb goal)) s.sb) where
  alloc_block-taken :
      (k : ℕ)
      → let bgid = bgid_of_block s.sb goal in
        choose (bitmap s bgid) (addr_to_idx_bg s.sb goal) (blocks_in_group_cnt s.sb bgid) ≡ some k
        → alloc_block image goal s ≡ (
          ok (bg_idx_to_addr s.sb k (bgid_of_block s.sb goal)),
          taken_state image (bgid_of_block s.sb goal) k s,
        )
  unfolding alloc_block finish_alloc taken_state after close_group count_taken after_search
  alloc_block-taken k chosen =
      let bgid = bgid_of_block s.sb goal in
      let s1 : Fs = record s { held = s.held + 1 } in
      let s2 : Fs = record s { held = s.held + 1 + 1 } in
      let s3 = write_bitmap bgid (λ bmap. bit_set bmap k) s2 in
      let s4 : Fs = record s3 { held = s3.held - 1 } in
      let some_left : (get_free_blocks_count (s.groups bgid) s.sb == 0) ≡ false = ground arith in
      let held_same : s.held + 1 + 1 - 1 - 1 ≡ s.held = omega arith in
      let addr = bg_idx_to_addr s.sb k bgid in
      simp
        (
          get_block_group_ref-ready s bgid v,
          some_left,
          search_goal-ready image bgid (addr_to_idx_bg s.sb goal) false s1 v.no_failure from_zero,
          chosen,
          put_block_group_ref-ready image (count_taken bgid s4) bgid true v.no_failure,
        )
        (ap (λ h. (ok addr, record (taken_state image bgid k s) { held = h })) held_same)

-- A first clear bit is there if some bit of the range is clear.
pub IsFirstClr-some :
    (bmap : List ℕ) (lo hi j : ℕ) (r : Option ℕ)
    → IsFirstClr bmap lo hi r
    → lo ≤ j
    → j < hi
    → is_bit_set bmap j ≡ false
    → (k : ℕ) × (r ≡ some k) × IsFirstClr bmap lo hi (some k)
IsFirstClr-some bmap lo hi j none f p q clear = absurd (ground (arith, f j p q))
IsFirstClr-some bmap lo hi j (some k) f p q clear = (k, refl, f)

-- The address of a block whose group lies below 2 ^ 32.
bg_idx_to_addr-sum :
    (s : Sblock) (index bgid : ℕ)
    → s.first_data_block ≤ 1
    → s.first_data_block + bgid * s.blocks_per_group + index < 2 ^ 32
    → bg_idx_to_addr s index bgid ≡ s.first_data_block + bgid * s.blocks_per_group + index
unfolding bg_idx_to_addr
bg_idx_to_addr-sum s index bgid first fits = ground arith

-- If the group of the goal has a free block at or after the goal, then the first such block is
-- allocated: the result is the first data block, the blocks of the groups before and its index together;
-- its bit is set and no other, one is taken from both counters of free blocks, and every reference is
-- given back.
-- No call below fails, the group's bitmaps are in use, the bitmap has a bit for each block of the group,
-- which has fewer than 2 ^ 31, the goal lies in it, groups have some blocks, the first data block is 0 or
-- 1, the addresses of the group are below 2 ^ 32, and the counters are not 0 and fit 64 and 16 bits.
pub alloc_block-first_free :
    (image : Bgroup → List ℕ) (goal j : ℕ) (s : Fs)
    → let bgid = bgid_of_block s.sb goal in
      let idx = addr_to_idx_bg s.sb goal in
      let blk_in_bg = blocks_in_group_cnt s.sb bgid in
      IsReady s bgid
      → IsMap (bitmap s bgid) blk_in_bg
      → blk_in_bg < 2 ^ 31
      → idx < blk_in_bg
      → 0 < s.sb.blocks_per_group
      → s.sb.first_data_block ≤ 1
      → s.sb.first_data_block + bgid * s.sb.blocks_per_group + blk_in_bg ≤ 2 ^ 32
      → IsCounted s bgid
      → idx ≤ j
      → j < blk_in_bg
      → is_bit_set (bitmap s bgid) j ≡ false
      → let (r, t) = alloc_block image goal s in
        (k : ℕ) × IsFirstClr (bitmap s bgid) idx blk_in_bg (some k)
        × (r ≡ ok (s.sb.first_data_block + bgid * s.sb.blocks_per_group + k))
        × IsTaken bgid k s t
alloc_block-first_free image goal j s v m w inside pos first few c p q clear =
    let bgid = bgid_of_block s.sb goal in
    let idx = addr_to_idx_bg s.sb goal in
    let blk_in_bg = blocks_in_group_cnt s.sb bgid in
    let bmap = bitmap s bgid in
    let from_zero = addr_to_idx_bg-block_of_bgid s.sb bgid pos first (omega arith) in
    let chosen = choose-IsFirstClr bmap idx blk_in_bg m (omega arith) inside w in
    let (k, e, f) =
      IsFirstClr-some bmap idx blk_in_bg j (choose bmap idx blk_in_bg) chosen p q clear in
    let taken = alloc_block-taken image goal s v from_zero c.some_group k e in
    let at = bg_idx_to_addr-sum s.sb k bgid first (omega (arith, f.1)) in
    (
      k,
      f,
      rw (taken, at) refl,
      rw taken (taken_state-IsTaken image bgid k s m.bytes (omega (arith, f.1, m.room)) c),
    )
