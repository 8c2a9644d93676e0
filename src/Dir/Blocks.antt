-- ===== src/Dir/Blocks.antt =====
-- A directory of many blocks: `ext4_dir_find_entry`, `ext4_dir_add_entry`, `ext4_dir_remove_entry` and
-- `ext4_dir_destroy_result` of SharpExt4/lwext4/src/ext4_dir.c.
--
-- `blocks lba` is the buffer of block `lba`, `held` counts the references to buffers, and each call
-- into the block cache takes its return code from `outcomes`, as in Fs. The mapping of the blocks of
-- the directory and the hash index are those of a `Layer`. A checksum that does not verify only
-- prints a message, and so does not appear.
use initramfstool.Base.{
  ℕ, zero, suc, ◌+◌, ◌-◌, ◌/◌, ◌^◌, Bool, true, not, ◌&&◌, List, [], ◌∷◌, ◌==◌, ltb, if◌then◌else◌,
  u16, u32, Option, none, some,
}
use initramfstool.Super.{Sblock, get_block_size, feature_com, feature_ro_com, ro_com_metadata_csum}
use initramfstool.Inode.{Inode}
use initramfstool.Inode.Fields.{get_size, has_flag, clear_flag, is_type, mode_directory, flag_index}
use initramfstool.Fs.Monad.{Result, ok, err}
use initramfstool.Dir.{
  InodeRef, Insert, inserted, no_space, stuck, enoent, find_in_block, try_insert_entry, remove_at,
  write_entry, init_entry_tail, set_csum, tail_len, tail_at,
}
use initramfstool.Dir.Bytes.{Memory}

abbrev pub com_dir_index : ℕ
com_dir_index = 0x20

abbrev pub enotdir : ℕ
enotdir = 20

-- `parent_dirty` is the mark of the inode reference of the directory.
pub record Store : Type 0 where
  pub blocks : ℕ → Memory
  pub parent : Inode
  pub parent_dirty : Bool
  pub held : ℕ
  pub outcomes : List ℕ

-- A result of the hash index, or EXT4_ERR_BAD_DX_DIR.
pub data Indexed (A : Type 0) : Type 0 where
  done : Result A → Indexed A
  bad_dx_dir : Indexed A

-- `dblk_idx i` is `ext4_fs_get_inode_dblk_idx` of block `i` of the directory, and `append_dblk` is
-- `ext4_fs_append_inode_dblk`.
pub record Layer : Type 0 where
  pub dblk_idx : ℕ → Result ℕ
  pub append_dblk : Store → Result ℕ × Store
  pub dx_find_entry : List ℕ → Store → Indexed (ℕ × ℕ) × Store
  pub dx_add_entry : List ℕ → InodeRef → Store → Indexed (Unit {0}) × Store

abbrev pub code : ℕ → Result (Unit {0})
code rc = if rc == 0 then ok tt else err rc

abbrev pub outcome : List ℕ → Store → Result (Unit {0}) × Store
outcome [] s = (ok tt, s)
outcome (rc ∷ rest) s = (code rc, record s { outcomes = rest })

abbrev pub then_do :
    {A : Type 0} → Result (Unit {0}) × Store → (Store → Result A × Store) → Result A × Store
then_do (ok u, s) next = next s
then_do (err e, s) next = (err e, s)

-- `ext4_trans_block_get` and `ext4_trans_block_get_noread`.
unfoldable pub block_get : Store → Result (Unit {0}) × Store
block_get s = then_do (outcome s.outcomes s) (λ t. (ok tt, record t { held = t.held + 1 }))

-- Where `ext4_block_set` fails, the reference stays.
unfoldable pub block_set : Store → Result (Unit {0}) × Store
block_set s = then_do (outcome s.outcomes s) (λ t. (ok tt, record t { held = t.held - 1 }))

abbrev pub write_block : Store → ℕ → Memory → Store
write_block s lba m = record s { blocks = λ i. if i == lba then m else s.blocks i }

unfoldable pub total_blocks : Sblock → Store → ℕ
total_blocks sb s = u32 (get_size sb s.parent / get_block_size sb)

unfoldable pub is_indexed : Sblock → Store → Bool
is_indexed sb s = feature_com sb com_dir_index && has_flag s.parent flag_index

-- "Needed to clear dir index flag if corrupted".
unfoldable pub drop_index : Store → Store
drop_index s = record s { parent = clear_flag s.parent flag_index; parent_dirty = true }

module _ (sb : Sblock) (name : List ℕ) where
  -- What the search of the block gave: the reference is kept at the entry, and given back if not.
  unfoldable pub find_here :
      Result ℕ → ℕ → (Store → Result (ℕ × ℕ) × Store) → Store → Result (ℕ × ℕ) × Store
  find_here (ok de) fblock next s = (ok (fblock, de), s)
  find_here (err e) fblock next s = then_do (block_set s) next

  unfoldable pub find_round :
      Result ℕ → (Store → Result (ℕ × ℕ) × Store) → Store → Result (ℕ × ℕ) × Store
  find_round (err e) next s = (err e, s)
  find_round (ok fblock) next s =
      then_do (block_get s) (λ t. find_here (find_in_block sb name (t.blocks fblock)) fblock next t)

  -- A round for each block that is left.
  unfoldable pub find_blocks : Layer → ℕ → ℕ → Store → Result (ℕ × ℕ) × Store
  find_blocks l zero iblock s = (err enoent, s)
  find_blocks l (suc rounds) iblock s =
      find_round (l.dblk_idx iblock) (λ t. find_blocks l rounds (iblock + 1) t) s

  unfoldable pub find_linear : Layer → Store → Result (ℕ × ℕ) × Store
  find_linear l s = find_blocks l (total_blocks sb s) 0 s

  unfoldable pub find_indexed : Layer → Indexed (ℕ × ℕ) × Store → Result (ℕ × ℕ) × Store
  find_indexed l (done r, s) = (r, s)
  find_indexed l (bad_dx_dir, s) = find_linear l (drop_index s)

  -- The block and the offset of the entry.
  unfoldable pub find_entry : Layer → Store → Result (ℕ × ℕ) × Store
  find_entry l s =
      if is_indexed sb s then find_indexed l (l.dx_find_entry name s) else find_linear l s

  -- `ext4_dir_destroy_result`; `lb_id` is 0 where there is no block.
  unfoldable pub destroy_result : ℕ → Store → Result (Unit {0}) × Store
  destroy_result lb_id s = if lb_id == 0 then (ok tt, s) else block_set s

  unfoldable pub remove_found : ℕ → Result (ℕ × ℕ) × Store → Result (Unit {0}) × Store
  remove_found index (err e, s) = (err e, s)
  remove_found index (ok (fblock, de), s) =
      let ref : InodeRef = record { index = index; inode = s.parent } in
      destroy_result fblock (write_block s fblock (remove_at sb ref (s.blocks fblock) de))

  unfoldable pub remove_entry : Layer → ℕ → Store → Result (Unit {0}) × Store
  remove_entry l index s =
      if not (is_type sb s.parent mode_directory)
      then (err enotdir, s)
      else remove_found index (find_entry l s)

module _ (sb : Sblock) (index : ℕ) (child : InodeRef) (name : List ℕ) where
  abbrev pub parent_ref : Store → InodeRef
  parent_ref s = record { index = index; inode = s.parent }

  -- `none` is a walk of a block that does not end.
  abbrev pub Added : Type 0
  Added = Option (Result (Unit {0}) × Store)

  abbrev pub then_try : Result (Unit {0}) × Store → (Store → Added) → Added
  then_try (ok u, s) next = next s
  then_try (err e, s) next = some (err e, s)

  unfoldable pub add_here : Insert → ℕ → (Store → Added) → Store → Added
  add_here (inserted m) fblock next s = some (block_set (write_block s fblock m))
  add_here no_space fblock next s = then_try (block_set s) next
  add_here stuck fblock next s = none

  unfoldable pub add_round : Result ℕ → (Store → Added) → Store → Added
  add_round (err e) next s = some (err e, s)
  add_round (ok fblock) next s = then_try (block_get s) (λ t.
      add_here (try_insert_entry sb (parent_ref t) child name (t.blocks fblock)) fblock next t)

  -- The first entry of a new block.
  unfoldable pub fresh_block : Store → Memory → Memory
  fresh_block s old =
      let block_size = get_block_size sb in
      let cleared = λ (x : ℕ). if ltb x block_size then 0 else old x in
      let len = u16 (block_size + 2 ^ 32 - tail_len) in
      set_csum sb (parent_ref s) (
        if feature_ro_com sb ro_com_metadata_csum
        then init_entry_tail (write_entry sb cleared 0 len child name) (tail_at sb)
        else write_entry sb cleared 0 (u16 block_size) child name)

  unfoldable pub add_fresh : Result ℕ × Store → Result (Unit {0}) × Store
  add_fresh (err e, s) = (err e, s)
  add_fresh (ok fblock, s) =
      then_do (block_get s)
        (λ t. block_set (write_block t fblock (fresh_block t (t.blocks fblock))))

  unfoldable pub add_blocks : Layer → ℕ → ℕ → Store → Added
  add_blocks l zero iblock s = some (add_fresh (l.append_dblk s))
  add_blocks l (suc rounds) iblock s =
      add_round (l.dblk_idx iblock) (λ t. add_blocks l rounds (iblock + 1) t) s

  unfoldable pub add_linear : Layer → Store → Added
  add_linear l s = add_blocks l (total_blocks sb s) 0 s

  unfoldable pub add_indexed : Layer → Indexed (Unit {0}) × Store → Added
  add_indexed l (done r, s) = some (r, s)
  add_indexed l (bad_dx_dir, s) = add_linear l (drop_index s)

  unfoldable pub add_entry : Layer → Store → Added
  add_entry l s =
      if is_indexed sb s then add_indexed l (l.dx_add_entry name child s) else add_linear l s
