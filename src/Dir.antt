-- ===== src/Dir.antt =====
-- Directories: SharpExt4/lwext4/src/ext4_dir.c and the accessors of an entry in include/ext4_dir.h.
-- The buffer of a block is a `Memory`, from the offset to the byte, and a pointer into it is an
-- offset. An entry is its inode number (4 bytes), its length (2), the length of its name (1), its
-- type or the high byte of that length (1), and the name.
--
-- A name is the list of its `name_len` bytes. `ext4_assert` has no effect here, and neither has the
-- mark of a buffer as dirty: a function gives the new bytes of the buffer.
pub mod Bytes
pub mod Entries
pub mod Found
pub mod Written
pub mod Csum
pub mod Sizes
pub mod Walked
pub mod Numbers
pub mod Inserted
pub mod Merged
pub mod Removed
pub mod Blocks
pub mod Iterator
pub mod Searched
pub mod Stepped
pub mod Published
mod Tests
use initramfstool.Base.{
  ℕ, zero, suc, ◌+◌, ◌-◌, ◌*◌, ◌/◌, ◌%◌, ◌^◌, bit_or, Bool, true, false, not, ◌&&◌, ◌||◌, Option,
  none, some, List, [], ◌∷◌, ◌==◌, ltb, leb, if◌then◌else◌, u16, u32, length,
}
use initramfstool.Crc.{crc32c}
use initramfstool.Super.{Sblock, get_block_size, feature_ro_com, ro_com_metadata_csum}
use initramfstool.Super.Csum.{crc32_init}
use initramfstool.Inode.{Inode}
use initramfstool.Inode.Fields.{
  inode_type, get_generation, mode_fifo, mode_chardev, mode_directory, mode_blockdev, mode_file,
  mode_softlink, mode_socket,
}
use initramfstool.Fs.Monad.{Result, ok, err}
use initramfstool.Fs.Csum.{le32}
use Bytes.{Memory, put8, get16, put16, get32, put32, copy, slice, same_bytes}

-- `struct ext4_inode_ref`.
pub record InodeRef : Type 0 where
  pub index : ℕ
  pub inode : Inode

-- `sizeof(struct ext4_fake_dir_entry)`, the header of an entry.
abbrev pub header_len : ℕ
header_len = 8

-- `sizeof(struct ext4_dir_entry_tail)`.
abbrev pub tail_len : ℕ
tail_len = 12

abbrev pub dir_csum_type : ℕ
dir_csum_type = 0xde

abbrev pub eio : ℕ
eio = 5

abbrev pub enoent : ℕ
enoent = 2

abbrev pub einval : ℕ
einval = 22

-- Before revision 0.5 the eighth byte of an entry belongs to the length of the name.
unfoldable pub long_names : Sblock → Bool
long_names sb = (sb.rev_level == 0) && ltb sb.minor_rev_level 5

unfoldable pub get_inode : Memory → ℕ → ℕ
get_inode m de = get32 m de

unfoldable pub set_inode : Memory → ℕ → ℕ → Memory
set_inode m de inode = put32 m de inode

unfoldable pub get_entry_len : Memory → ℕ → ℕ
get_entry_len m de = get16 m (de + 4)

unfoldable pub set_entry_len : Memory → ℕ → ℕ → Memory
set_entry_len m de l = put16 m (de + 4) l

unfoldable pub get_name_len : Sblock → Memory → ℕ → ℕ
get_name_len sb m de =
    if long_names sb then bit_or (m (de + 7) * 2 ^ 8) (m (de + 6)) else m (de + 6)

unfoldable pub set_name_len : Sblock → Memory → ℕ → ℕ → Memory
set_name_len sb m de len =
    let low = put8 m (de + 6) (len * 2 ^ 8 / 2 ^ 8) in
    if long_names sb then put8 low (de + 7) (len / 2 ^ 8) else low

unfoldable pub get_inode_type : Sblock → Memory → ℕ → ℕ
get_inode_type sb m de = if ltb 0 sb.rev_level || leb 5 sb.minor_rev_level then m (de + 7) else 0

unfoldable pub set_inode_type : Sblock → Memory → ℕ → ℕ → Memory
set_inode_type sb m de t =
    if ltb 0 sb.rev_level || leb 5 sb.minor_rev_level then put8 m (de + 7) t else m

-- The type that an entry has for an inode: the `switch` of `ext4_dir_write_entry`.
unfoldable pub entry_type : ℕ → ℕ
entry_type t =
    if t == mode_directory
    then 2
    else if t == mode_file
    then 1
    else if t == mode_softlink
    then 7
    else if t == mode_chardev
    then 3
    else if t == mode_blockdev
    then 4
    else if t == mode_fifo
    then 5
    else if t == mode_socket
    then 6
    else 0

unfoldable pub write_entry : Sblock → Memory → ℕ → ℕ → InodeRef → List ℕ → Memory
write_entry sb m en entry_len child name =
    let m1 = set_inode_type sb m en (entry_type (inode_type sb child.inode)) in
    let m2 = set_inode m1 en child.index in
    let m3 = set_entry_len m2 en entry_len in
    let m4 = set_name_len sb m3 en (u16 (length name)) in copy m4 (en + 8) name

-- EXT4_DIRENT_TAIL.
abbrev pub tail_at : Sblock → ℕ
tail_at sb = get_block_size sb - tail_len

unfoldable pub get_tail : Sblock → Memory → Option ℕ
get_tail sb m =
    let t = tail_at sb in
    if not (get32 m t == 0) || not (m (t + 6) == 0)
    then none
    else if not (get16 m (t + 4) == tail_len)
    then none
    else if not (m (t + 7) == dir_csum_type)
    then none
    else some t

-- The checksum of the first `size` bytes, after the uuid, the number and the generation of the inode.
unfoldable pub dir_csum : Sblock → InodeRef → Memory → ℕ → ℕ
dir_csum sb ref m size =
    let seed = crc32c crc32_init sb.uuid in
    let numbered = crc32c (crc32c seed (le32 ref.index)) (le32 (get_generation ref.inode)) in
    crc32c numbered (slice m 0 size)

unfoldable pub csum_matches : Sblock → InodeRef → Memory → Option ℕ → Bool
csum_matches sb ref m none = false
csum_matches sb ref m (some t) = get32 m (t + 8) == dir_csum sb ref m t

unfoldable pub csum_verify : Sblock → InodeRef → Memory → Bool
csum_verify sb ref m =
    if feature_ro_com sb ro_com_metadata_csum then csum_matches sb ref m (get_tail sb m) else true

unfoldable pub init_entry_tail : Memory → ℕ → Memory
init_entry_tail m t =
    let cleared = put32 (put32 (put32 m t 0) (t + 4) 0) (t + 8) 0 in
    put8 (put16 cleared (t + 4) tail_len) (t + 7) dir_csum_type

unfoldable pub put_csum : Sblock → InodeRef → Memory → Option ℕ → Memory
put_csum sb ref m none = m
put_csum sb ref m (some t) = put32 m (t + 8) (dir_csum sb ref m t)

unfoldable pub set_csum : Sblock → InodeRef → Memory → Memory
set_csum sb ref m =
    if feature_ro_com sb ro_com_metadata_csum then put_csum sb ref m (get_tail sb m) else m

-- The body of the loop of `ext4_dir_find_in_block`: the entry at `de` has the name.
unfoldable pub is_named : Sblock → Memory → ℕ → List ℕ → Bool
is_named sb m de name =
    not (get_inode m de == 0)
    && ((get_name_len sb m de == length name) && same_bytes m (de + 8) name)

-- A round for each unit of fuel. A round adds at least 1 to `de`.
unfoldable pub find_loop : ℕ → Sblock → List ℕ → Memory → ℕ → Result ℕ
find_loop zero sb name m de = err enoent
find_loop (suc fuel) sb name m de =
    let rest = find_loop fuel sb name m (de + get_entry_len m de) in
    if not (ltb de (get_block_size sb))
    then err enoent
    else if ltb (get_block_size sb) (de + length name)
    then err enoent
    else if is_named sb m de name
    then ok de
    else if get_entry_len m de == 0
    then err einval
    else rest

-- `ok de` is EOK with `*res_entry` at offset `de`.
unfoldable pub find_in_block : Sblock → List ℕ → Memory → Result ℕ
find_in_block sb name m = find_loop (get_block_size sb) sb name m 0

-- `n` made a multiple of 4 by the rest of `rest`.
unfoldable pub pad : ℕ → ℕ → ℕ
pad n rest = if rest % 4 == 0 then n else u16 (n + (4 - rest % 4))

unfoldable pub required_len : List ℕ → ℕ
required_len name = let n = u16 (header_len + length name) in pad n n

-- `stuck` is a walk that does not end.
pub data Insert : Type 0 where
  inserted : Memory → Insert
  no_space : Insert
  stuck : Insert

-- `sz`, what the entry at `start` needs.
unfoldable pub used_size : Sblock → Memory → ℕ → ℕ
used_size sb m start =
    let used_len = get_name_len sb m start in pad (u16 (header_len + used_len)) used_len

-- `free_space`, a `uint16_t`.
unfoldable pub free_space : Sblock → Memory → ℕ → ℕ
free_space sb m start = u16 (get_entry_len m start + 2 ^ 16 - used_size sb m start)

-- The new entry in place of an unused one, and in the tail of a used one.
unfoldable pub reuse : Sblock → InodeRef → InodeRef → List ℕ → Memory → ℕ → Memory
reuse sb ref child name m start =
    set_csum sb ref (write_entry sb m start (get_entry_len m start) child name)

unfoldable pub split : Sblock → InodeRef → InodeRef → List ℕ → Memory → ℕ → Memory
split sb ref child name m start =
    let sz = used_size sb m start in
    let cut = set_entry_len m start sz in
    set_csum sb ref (write_entry sb cut (start + sz) (free_space sb m start) child name)

unfoldable pub is_free : Sblock → List ℕ → Memory → ℕ → Bool
is_free sb name m start =
    (get_inode m start == 0)
    && (not (get_inode_type sb m start == dir_csum_type)
        && leb (required_len name) (get_entry_len m start))

unfoldable pub has_space : Sblock → List ℕ → Memory → ℕ → Bool
has_space sb name m start =
    not (get_inode m start == 0) && leb (required_len name) (free_space sb m start)

unfoldable pub insert_loop : ℕ → Sblock → InodeRef → InodeRef → List ℕ → Memory → ℕ → Insert
insert_loop zero sb ref child name m start = stuck
insert_loop (suc fuel) sb ref child name m start =
    let rest = insert_loop fuel sb ref child name m (start + get_entry_len m start) in
    if not (ltb start (get_block_size sb))
    then no_space
    else if is_free sb name m start
    then inserted (reuse sb ref child name m start)
    else if has_space sb name m start
    then inserted (split sb ref child name m start)
    else rest

-- The block has at most as many entries as bytes, and the round after the last ends the walk.
unfoldable pub try_insert_entry : Sblock → InodeRef → InodeRef → List ℕ → Memory → Insert
try_insert_entry sb ref child name m = insert_loop (suc (get_block_size sb)) sb ref child name m 0

-- The offset of the entry that ends at `pos`, from `offset` on.
unfoldable pub predecessor : ℕ → Memory → ℕ → ℕ → ℕ
predecessor zero m pos offset = offset
predecessor (suc fuel) m pos offset =
    let rest = predecessor fuel m pos (u32 (offset + get_entry_len m offset)) in
    if ltb (offset + get_entry_len m offset) pos then rest else offset

unfoldable pub merge : Memory → ℕ → Memory
merge m pos =
    let prev = predecessor pos m pos 0 in
    set_entry_len m prev (u16 (get_entry_len m prev + get_entry_len m pos))

-- The part of `ext4_dir_remove_entry` after the search, at the entry that it found.
unfoldable pub remove_at : Sblock → InodeRef → Memory → ℕ → Memory
remove_at sb ref m pos =
    let freed = set_inode m pos 0 in
    let merged = if pos == 0 then freed else merge freed pos in set_csum sb ref merged

-- `ext4_dir_iterator_set` at the block of the iterator: the offset of the entry.
unfoldable pub iterator_set : Sblock → Memory → ℕ → Result ℕ
iterator_set sb m curr_off =
    let block_size = get_block_size sb in
    let off_in_block = curr_off % block_size in
    let len = get_entry_len m off_in_block in
    if not (off_in_block % 4 == 0)
    then err eio
    else if ltb (u32 (block_size + 2 ^ 32 - 8)) off_in_block
    then err eio
    else if ltb block_size (u32 (off_in_block + len))
    then err eio
    else if ltb len (8 + get_name_len sb m off_in_block)
    then err eio
    else ok off_in_block
