-- ===== src/Balloc/Range.antt =====
-- `ext4_balloc_free_blocks` of SharpExt4/lwext4/src/ext4_balloc.c. A last group of 2 ^ 32 - 1, after
-- which the counter of the groups would wrap, is left out.
pub mod Within
use initramfstool.Base.{ℕ, zero, suc, ◌+◌, ◌-◌, ◌^◌, true, List, ◌==◌, if◌then◌else◌, u64}
use initramfstool.BlockGroup.{Bgroup}
use initramfstool.Address.{bgid_of_block}
use initramfstool.Fs.Monad.{
  Result, ok, err, M, get, modify, pure, fail, ◌>>=◌, ◌>>◌, try_revoke_block, invalidate_lba,
}
use initramfstool.Fs.Desc.{put_block_group_ref}
use initramfstool.Balloc.{free_in_group}

-- A result as the code that the C function returns.
abbrev pub code : Result (Unit {0}) → ℕ
code (ok _) = 0
code (err rc) = rc

-- `rc = m`, whatever it is.
abbrev pub status : M (Unit {0}) → M ℕ
status m s = let (r, s') = m s in (ok (code r), s')

-- The last `rc`, and how many blocks are left to free.
abbrev pub Progress : Type 0
Progress = ℕ × ℕ

-- `for (i = 0; i < blk_cnt; i++)`; every call of the journal stands for one address.
pub revoke_blocks : ℕ → M (Unit {0})
revoke_blocks zero = pure tt
revoke_blocks (suc blk_cnt) = do try_revoke_block; revoke_blocks blk_cnt

module _ (image : Bgroup → List ℕ) where
  -- `while (bg_first <= bg_last)`, with `rounds` groups left.
  pub free_groups : ℕ → ℕ → ℕ → ℕ → M Progress
  free_groups zero bg_first first count = pure (0, count)
  free_groups (suc rounds) bg_first first count = do
    free_cnt ← free_in_group image bg_first first count
    rc ← status (put_block_group_ref image bg_first true)
    let rest = free_groups rounds (bg_first + 1) (u64 (first + free_cnt)) (count - free_cnt)
    if rc == 0 then rest else pure (rc, count - free_cnt)

  -- The value is what `ext4_assert` compares with 0.
  pub free_blocks : ℕ → ℕ → M ℕ
  free_blocks first count = do
    s ← get
    let bg_first = bgid_of_block s.sb first
    let bg_last = bgid_of_block s.sb (u64 (first + count + (2 ^ 64 - 1)))
    progress ← free_groups (bg_last + 1 - bg_first) bg_first first count
    revoke_blocks count
    modify (λ t. invalidate_lba t first count)
    let (rc, left) = progress
    if count == 0 then (if rc == 0 then pure left else fail rc) else pure left
