-- ===== src/Fs/Ready.antt =====
-- A run in which no call of the layers below fails, on a group that is in use.
use initramfstool.Base.{ℕ, ◌+◌, ◌-◌, ◌≡◌, Bool, true, false, List, []}
use initramfstool.BlockGroup.{Bgroup, has_flag}
use initramfstool.Fs.Monad.{Fs, ok, block_get, block_set, try_revoke_block}
use initramfstool.Fs.Desc.{
  get_block_group_ref, put_block_group_ref, close_group, ready_blocks, ready_inodes, block_uninit,
  inode_uninit,
}

-- Every call succeeds, and the bitmaps of the group have been written.
pub record IsReady (s : Fs) (bgid : ℕ) : Type 0 where
  pub no_failure : s.outcomes ≡ []
  pub blocks_ready : has_flag (s.groups bgid) block_uninit ≡ false
  pub inodes_ready : has_flag (s.groups bgid) inode_uninit ≡ false

pub block_get-ready :
    (s : Fs) → s.outcomes ≡ [] → block_get s ≡ (ok tt, record s { held = s.held + 1 })
unfolding block_get
block_get-ready s e = simp e

pub block_set-ready :
    (s : Fs) → s.outcomes ≡ [] → block_set s ≡ (ok tt, record s { held = s.held - 1 })
unfolding block_set
block_set-ready s e = simp e

pub try_revoke_block-ready : (s : Fs) → s.outcomes ≡ [] → try_revoke_block s ≡ (ok tt, s)
unfolding try_revoke_block
try_revoke_block-ready s e = simp e

pub get_block_group_ref-ready :
    (s : Fs) (bgid : ℕ)
    → IsReady s bgid
    → get_block_group_ref bgid s ≡ (ok false, record s { held = s.held + 1 })
unfolding get_block_group_ref ready_blocks ready_inodes
get_block_group_ref-ready s bgid v =
    simp (block_get-ready s v.no_failure, v.blocks_ready, v.inodes_ready)

pub put_block_group_ref-ready :
    (image : Bgroup → List ℕ) (s : Fs) (bgid : ℕ) (dirty : Bool)
    → s.outcomes ≡ []
    → put_block_group_ref image bgid dirty s
      ≡ (ok tt, let t = close_group image bgid dirty s in record t { held = t.held - 1 })
unfolding put_block_group_ref close_group
put_block_group_ref-ready image s bgid false e = simp (block_set-ready s e)
put_block_group_ref-ready image s bgid true e = block_set-ready (close_group image bgid true s) e
