-- ===== src/Fs.antt =====
-- The file system as the allocators see it: `struct ext4_fs`, block group references
-- (`ext4_fs_get_block_group_ref`, `ext4_fs_put_block_group_ref` of SharpExt4/lwext4/src/ext4_fs.c)
-- and buffers.
--
-- `blocks lba` is what the buffer of block `lba` holds, and `groups g` is the descriptor of group
-- `g`, decoded from the buffer that holds it. `held` counts the buffer references that are taken and
-- not given back, and `dirty` lists the blocks that were marked dirty, the last one first.
-- `invalidated` lists the ranges that the buffer cache was told to forget, the last one first.
-- `inode` is the inode behind the `inode_ref` that an operation is given.
--
-- Each call into the layers below (`ext4_trans_block_get`, `ext4_block_set`,
-- `ext4_trans_try_revoke_block`) takes its return code from `outcomes`, one after the other; when
-- the list is used up the calls succeed. So a theorem about every list is one about every way in
-- which those calls can fail. The operation gives an error code, or EOK with a value.
pub mod Monad
pub mod Desc
pub mod Ready
pub mod Csum
pub mod Uninit
