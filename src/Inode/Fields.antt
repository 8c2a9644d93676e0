-- ===== src/Inode/Fields.antt =====
-- The accessors of an inode: SharpExt4/lwext4/src/ext4_inode.c.
use initramfstool.Base.{
  ℕ, ◌+◌, ◌-◌, ◌*◌, ◌/◌, ◌^◌, bit_and, bit_or, Bool, true, false, ◌||◌, ◌==◌, ltb, if◌then◌else◌,
  u16, u32, u64,
}
use initramfstool.Super.{Sblock, test_mask}
use initramfstool.Inode.{Inode}

abbrev pub os_linux : ℕ
os_linux = 0

abbrev pub os_hurd : ℕ
os_hurd = 1

abbrev pub good_old_inode_size : ℕ
good_old_inode_size = 128

abbrev pub mode_fifo : ℕ
mode_fifo = 0x1000

abbrev pub mode_chardev : ℕ
mode_chardev = 0x2000

abbrev pub mode_directory : ℕ
mode_directory = 0x4000

abbrev pub mode_blockdev : ℕ
mode_blockdev = 0x6000

abbrev pub mode_file : ℕ
mode_file = 0x8000

abbrev pub mode_softlink : ℕ
mode_softlink = 0xa000

abbrev pub mode_socket : ℕ
mode_socket = 0xc000

abbrev pub mode_type_mask : ℕ
mode_type_mask = 0xf000

abbrev pub flag_immutable : ℕ
flag_immutable = 0x10

abbrev pub flag_append : ℕ
flag_append = 0x20

abbrev pub flag_index : ℕ
flag_index = 0x1000

abbrev pub indirect_block : ℕ
indirect_block = 12

unfoldable pub get_mode : Sblock → Inode → ℕ
get_mode sb inode =
    if sb.creator_os == os_hurd
    then bit_or (inode.file_acl_high * 2 ^ 16) inode.mode
    else inode.mode

unfoldable pub set_mode : Sblock → Inode → ℕ → Inode
set_mode sb inode mode = record inode {
  mode = u32 (mode * 2 ^ 16) / 2 ^ 16;
  file_acl_high = if sb.creator_os == os_hurd then u16 (mode / 2 ^ 16) else inode.file_acl_high;
}

unfoldable pub inode_type : Sblock → Inode → ℕ
inode_type sb inode = bit_and (get_mode sb inode) mode_type_mask

unfoldable pub is_type : Sblock → Inode → ℕ → Bool
is_type sb inode type = inode_type sb inode == type

pub get_uid : Inode → ℕ
get_uid inode = inode.uid

-- The field has 16 bits.
pub set_uid : Inode → ℕ → Inode
set_uid inode uid = record inode { uid = u16 uid }

pub get_gid : Inode → ℕ
get_gid inode = inode.gid

pub set_gid : Inode → ℕ → Inode
set_gid inode gid = record inode { gid = u16 gid }

unfoldable pub get_size : Sblock → Inode → ℕ
get_size sb inode =
    if ltb 0 sb.rev_level
    then (if is_type sb inode mode_file
        then bit_or (inode.size_hi * 2 ^ 32) inode.size_lo
        else inode.size_lo)
    else inode.size_lo

unfoldable pub set_size : Inode → ℕ → Inode
set_size inode size = record inode {
  size_lo = u32 (u64 (size * 2 ^ 32) / 2 ^ 32);
  size_hi = u32 (size / 2 ^ 32);
}

unfoldable pub get_csum : Sblock → Inode → ℕ
get_csum sb inode =
    if ltb good_old_inode_size sb.inode_size
    then bit_or (inode.checksum_hi * 2 ^ 16) inode.checksum_lo
    else inode.checksum_lo

unfoldable pub set_csum : Sblock → Inode → ℕ → Inode
set_csum sb inode checksum = record inode {
  checksum_lo = u32 (checksum * 2 ^ 16) / 2 ^ 16;
  checksum_hi =
      if ltb good_old_inode_size sb.inode_size then u16 (checksum / 2 ^ 16) else inode.checksum_hi;
}

pub get_access_time : Inode → ℕ
get_access_time inode = inode.access_time

pub set_access_time : Inode → ℕ → Inode
set_access_time inode time = record inode { access_time = time }

pub get_change_inode_time : Inode → ℕ
get_change_inode_time inode = inode.change_inode_time

pub set_change_inode_time : Inode → ℕ → Inode
set_change_inode_time inode time = record inode { change_inode_time = time }

pub get_modif_time : Inode → ℕ
get_modif_time inode = inode.modification_time

pub set_modif_time : Inode → ℕ → Inode
set_modif_time inode time = record inode { modification_time = time }

pub get_del_time : Inode → ℕ
get_del_time inode = inode.deletion_time

pub set_del_time : Inode → ℕ → Inode
set_del_time inode time = record inode { deletion_time = time }

pub get_links_cnt : Inode → ℕ
get_links_cnt inode = inode.links_count

pub set_links_cnt : Inode → ℕ → Inode
set_links_cnt inode cnt = record inode { links_count = cnt }

unfoldable pub get_flags : Inode → ℕ
get_flags inode = inode.flags

unfoldable pub set_flags : Inode → ℕ → Inode
set_flags inode flags = record inode { flags = flags }

unfoldable pub has_flag : Inode → ℕ → Bool
unfolding get_flags
has_flag inode f = test_mask (get_flags inode) f

-- `flags & ~f` on `uint32_t`.
unfoldable pub clear_flag : Inode → ℕ → Inode
unfolding get_flags set_flags
clear_flag inode f = set_flags inode (bit_and (get_flags inode) (2 ^ 32 - 1 - f))

unfoldable pub set_flag : Inode → ℕ → Inode
unfolding get_flags set_flags
set_flag inode f = set_flags inode (bit_or (get_flags inode) f)

unfoldable pub get_generation : Inode → ℕ
get_generation inode = inode.generation

pub set_generation : Inode → ℕ → Inode
set_generation inode gen = record inode { generation = gen }

pub get_extra_isize : Sblock → Inode → ℕ
get_extra_isize sb inode = if ltb good_old_inode_size sb.inode_size then inode.extra_isize else 0

pub set_extra_isize : Sblock → Inode → ℕ → Inode
set_extra_isize sb inode size =
    if ltb good_old_inode_size sb.inode_size then record inode { extra_isize = size } else inode

-- The shift is one by 16, on `uint32_t`.
unfoldable pub get_file_acl : Inode → Sblock → ℕ
get_file_acl inode sb =
    if sb.creator_os == os_linux
    then bit_or inode.file_acl_lo (u32 (inode.file_acl_high * 2 ^ 16))
    else inode.file_acl_lo

unfoldable pub set_file_acl : Inode → Sblock → ℕ → Inode
set_file_acl inode sb acl = record inode {
  file_acl_lo = u32 (u64 (acl * 2 ^ 32) / 2 ^ 32);
  file_acl_high = if sb.creator_os == os_linux then u16 (acl / 2 ^ 32) else inode.file_acl_high;
}

unfoldable pub get_direct_block : Inode → ℕ → ℕ
get_direct_block inode idx = inode.blocks idx

unfoldable pub set_direct_block : Inode → ℕ → ℕ → Inode
set_direct_block inode idx block = record inode {
  blocks = λ i. if i == idx then block else inode.blocks i;
}

pub get_indirect_block : Inode → ℕ → ℕ
get_indirect_block inode idx = inode.blocks (idx + indirect_block)

pub set_indirect_block : Inode → ℕ → ℕ → Inode
set_indirect_block inode idx block = record inode {
  blocks = λ i. if i == idx + indirect_block then block else inode.blocks i;
}

unfoldable pub get_dev : Inode → ℕ
get_dev inode =
    let dev_0 = get_direct_block inode 0 in if dev_0 == 0 then get_direct_block inode 1 else dev_0

unfoldable pub set_dev : Inode → ℕ → Inode
set_dev inode dev =
    if bit_and dev (2 ^ 32 - 1 - 0xffff) == 0
    then set_direct_block inode 0 dev
    else set_direct_block inode 1 dev

pub can_truncate : Sblock → Inode → Bool
can_truncate sb inode =
    if has_flag inode flag_append || has_flag inode flag_immutable
    then false
    else if is_type sb inode mode_file
        || (is_type sb inode mode_directory || is_type sb inode mode_softlink)
    then true
    else false
