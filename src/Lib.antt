-- ===== src/Lib.antt =====
-- A model of the ext4 library of SharpExt4, SharpExt4/lwext4, which reads and writes the images of
-- ext4 file systems: how blocks and inodes are addressed, counted, allocated and freed, the checksums
-- that guard their metadata, the hashes of names, and the block device with its cache.
--
-- The parts, and how they meet in the C code:
-- - Base: lists, bytes, Boolean tests, the operations of C on words and bits.
-- - Bitmap: SharpExt4/lwext4/src/ext4_bitmap.c and include/ext4_bitmap.h. A bitmap is the list of its
--   bytes. Both allocators search and change bitmaps with it.
-- - Super: include/ext4_super.h and src/ext4_super.c. `Sblock` is struct ext4_sblock; the sizes of
--   groups, the copies of the superblock, the descriptor blocks, the layout of the superblock
--   and its own checksum.
-- - BlockGroup: include/ext4_block_group.h. `Bgroup` is struct ext4_bgroup.
-- - Address: block addresses and inode numbers against groups and indexes, from src/ext4_balloc.c,
--   src/ext4_ialloc.c and include/ext4_fs.h.
-- - Crc: src/ext4_crc32.c, and ext4_bg_crc16 of src/ext4_block_group.c, with their tables.
-- - Inode: src/ext4_inode.c, the fields of an inode.
-- - Fs: src/ext4_fs.c, the references to group descriptors and the first use of a group. `Fs` holds
--   the superblock, the descriptors, the blocks by address, the inode that the caller works on, and
--   what the block cache was told: the blocks marked dirty, the ranges invalidated, and how many
--   buffers are held. An operation is a function from this state to a result and a state.
-- - Balloc: src/ext4_balloc.c, the block allocator. Balloc.Range is ext4_balloc_free_blocks.
-- - Ialloc: src/ext4_ialloc.c, the inode allocator.
-- - Hash: src/ext4_hash.c, the hash of a name in an indexed directory.
-- - Dir: src/ext4_dir.c and include/ext4_dir.h. The buffer of a block is a function from the offset to
--   the byte, and Dir.Entries reads it as the list of its entries. Dir.Blocks has the operations on a
--   directory of many blocks, and Dir.Iterator the iterator; the mapping of blocks, the appending of
--   a block and the hash index are the functions of a `Layer`.
-- - Mbr: src/ext4_mbr.c, the partition table: its bytes, the geometry, and its way to and from the device.
-- - Mkfs: the start of src/ext4_mkfs.c, the parameters and the derived sizes of a new file system.
-- - Bdev, Bcache, Blockdev: src/ext4_blockdev.c and src/ext4_bcache.c, the device, its cache of blocks
--   and the calls that the rest makes. `Bdev` is the device's bytes and the whole cache. Bcache.Valid
--   is the invariant, and `view` is what the callers see of a block; Blockdev.Run is the memory of
--   blocks that the calls follow. Blockdev.Bytes is the transfer of bytes at any offset. A bread or
--   a bwrite answers with the next of `outcomes` and moves whole blocks.
--
-- For the allocators and the directories the layers below (the block cache and the journal) are calls
-- that succeed or fail, apart from the model of the cache: the field `outcomes` of the states `Fs` and
-- `Store` lists what the next calls return, and calls beyond the list succeed. A buffer is counted in
-- `held` from ext4_trans_block_get to ext4_block_set. The memory of a group descriptor, for its
-- checksum, is the parameter `image`; that of the superblock is laid out in Super.Layout, where `rest`
-- holds the fields that `Sblock` lacks.
--
-- Assertions are left out: where ext4_assert stops the program, what a definition gives says nothing
-- of the code. A transfer that would overrun the buffer ph_bbuf of the device ends in `overrun`.
--
-- Numbers are naturals, and what the C code keeps in 16, 32 or 64 bits is cut to that width where it
-- may exceed it. Loops are recursions on the number of rounds that the code computes. The halving
-- loop of ext4_inode_block_bits_count has 32 rounds, since it halves a number of 32 bits. The loop of
-- is_power_of has a round more than its first argument, which every round divides. The loop of
-- ext4_ialloc_alloc_inode takes its fuel as an argument and says when it still runs. The loops of the
-- block device run as often as the tree or the list that they empty is long, and the loop over the
-- blocks of a name as often as the name has characters; in a well-formed cache each round takes one
-- buffer away, and each block has a character.
--
-- The search of a directory block has a round for each byte, and each round goes on by at least one.
-- The walk for an insertion has a round more, and is `stuck` where an entry of length 0 holds it. The
-- iterator has a round more than the directory has bytes, and each goes on by at least 8.
--
-- Not modelled: the journal and its callback on a buffer, extents, the index of a directory, extended
-- attributes, the writing of a new file system by src/ext4_mkfs.c, the rest of src/ext4_fs.c, and the
-- API of src/ext4.c. The managed code over the library is out of scope, and so are its macros for lists
-- and trees (include/misc). The option for unaligned access is off in the build, and the loops under it
-- are not compiled.
pub mod Base
pub mod Bitmap
pub mod Super
pub mod BlockGroup
pub mod Address
pub mod Crc
pub mod Inode
pub mod Fs
pub mod Balloc
pub mod Ialloc
pub mod Bdev
pub mod Bcache
pub mod Blockdev
pub mod Hash
pub mod Dir
pub mod Mbr
pub mod Mkfs
