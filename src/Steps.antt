-- ===== src/Steps.antt =====
-- The functions of done/inode.c, done/filev6.c, done/direntv6.c and done/u6fs.c that change a mounted
-- file system, as steps, in any order, with any arguments for which C defines what they do.
pub mod Follows
pub mod Writes
pub mod Bytes
pub mod Safe
pub mod Low
pub mod Entries
pub mod Reaches
pub mod Mounted
