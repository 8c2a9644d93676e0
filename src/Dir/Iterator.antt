-- ===== src/Dir/Iterator.antt =====
-- The iterator of a directory: `ext4_dir_iterator_seek`, `ext4_dir_iterator_init`,
-- `ext4_dir_iterator_next` and `ext4_dir_iterator_fini` of SharpExt4/lwext4/src/ext4_dir.c.
use initramfstool.Base.{
  ℕ, zero, suc, ◌+◌, ◌/◌, Bool, true, not, ◌||◌, ◌==◌, leb, if◌then◌else◌, u32, Option, none, some,
}
use initramfstool.Super.{Sblock, get_block_size}
use initramfstool.Inode.Fields.{get_size}
use initramfstool.Fs.Monad.{Result, ok, err}
use initramfstool.Dir.{get_entry_len, get_inode, iterator_set}
use initramfstool.Dir.Blocks.{Store, Layer, block_get, block_set}

-- `lb_id` is the block that is held, 0 if there is none, and `curr` the offset of the entry in it.
pub record Iter : Type 0 where
  pub lb_id : ℕ
  pub curr_off : ℕ
  pub curr : Option ℕ

-- The return code, the iterator and the state.
abbrev pub Outcome : Type 0
Outcome = Result (Unit {0}) × Iter × Store

-- `it->curr_blk.lb_id = 0; if (r != EOK) return r;`.
abbrev pub after_set : Iter → Result (Unit {0}) × Store → (Iter → Store → Outcome) → Outcome
after_set it (ok u, s) next = next (record it { lb_id = 0 }) s
after_set it (err e, s) next = (err e, record it { lb_id = 0 }, s)

unfoldable pub release : Iter → Store → (Iter → Store → Outcome) → Outcome
release it s next = if it.lb_id == 0 then next it s else after_set it (block_set s) next

unfoldable pub publish : Result ℕ → Iter → Store → Outcome
publish (ok en) it s = (ok tt, record it { curr = some en }, s)
publish (err e) it s = (err e, it, s)

module _ (sb : Sblock) (l : Layer) where
  unfoldable pub arrive : ℕ → Iter → Store → Outcome
  arrive pos it s =
      publish (iterator_set sb (s.blocks it.lb_id) pos) (record it { curr_off = pos }) s

  unfoldable pub loaded : ℕ → ℕ → Iter → Result (Unit {0}) × Store → Outcome
  loaded pos next_blk it (ok u, s) = arrive pos (record it { lb_id = next_blk }) s
  loaded pos next_blk it (err e, s) = (err e, record it { lb_id = 0 }, s)

  unfoldable pub load : ℕ → Result ℕ → Iter → Store → Outcome
  load pos (err e) it s = (err e, it, s)
  load pos (ok next_blk) it s = loaded pos next_blk it (block_get s)

  unfoldable pub seek : Iter → Store → ℕ → Outcome
  seek it0 s pos =
      let it = record it0 { curr = none } in
      let block_size = get_block_size sb in
      let next_blk_idx = u32 (pos / block_size) in
      if leb (get_size sb s.parent) pos
      then release it s (λ it1 s1. (ok tt, record it1 { curr_off = pos }, s1))
      else if it.lb_id == 0 || not (it.curr_off / block_size == next_blk_idx)
      then release it s (λ it1 s1. load pos (l.dblk_idx next_blk_idx) it1 s1)
      else arrive pos it s

  unfoldable pub init : Store → ℕ → Outcome
  init s pos = seek (record { lb_id = 0; curr_off = 0; curr = none }) s pos

  -- `ext4_dir_en_get_entry_len(it->curr)`.
  unfoldable pub skip : Iter → Store → Option ℕ → ℕ
  skip it s none = 0
  skip it s (some en) = get_entry_len (s.blocks it.lb_id) en

  -- Whether the loop stops: at the end, or at an entry that is used.
  unfoldable pub stops : Iter → Store → Option ℕ → Bool
  stops it s none = true
  stops it s (some en) = not (get_inode (s.blocks it.lb_id) en == 0)

  unfoldable pub next_round : (Iter → Store → Option Outcome) → Outcome → Option Outcome
  next_round again (err e, it, s) = some (err e, it, s)
  next_round again (ok u, it, s) =
      let rest = again it s in if stops it s it.curr then some (ok u, it, s) else rest

  -- `none` is a loop that runs out of fuel.
  unfoldable pub next_loop : ℕ → Iter → Store → Option Outcome
  next_loop zero it s = none
  next_loop (suc fuel) it s =
      next_round (λ it1 s1. next_loop fuel it1 s1) (seek it s (it.curr_off + skip it s it.curr))

  -- A round adds at least 8 to the position.
  unfoldable pub next : Iter → Store → Option Outcome
  next it s = next_loop (suc (get_size sb s.parent)) it s

unfoldable pub fini : Iter → Store → Outcome
fini it s =
    let ended = record it { curr = none } in
    if it.lb_id == 0 then (ok tt, ended, s) else (let (r, s1) = block_set s in (r, ended, s1))
