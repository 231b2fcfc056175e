-- ===== src/Lib.antt =====
-- A model of u6fs, a Unix V6 file system in a file of the host (directory done/).
--
-- The program has these parts. The sector layer reads and writes 512 bytes of the host's file. The
-- inode layer finds an inode's place in the table, reads and writes it there, and finds the sectors
-- of a file. Open files read block by block, seek to block boundaries and append. Directories are
-- files of 16-byte entries, and a path is looked up component by component. Two bitmaps, of data
-- sectors and of inodes, are filled when a file system is mounted, and give free numbers. FUSE
-- calls back to read attributes, directories and files. The command line mounts a disk, runs one
-- command on it, which prints, creates, adds a local file or serves FUSE, and unmounts it.
--
-- Which file models which part (a child module X/Y.antt holds theorems about X, unless it says
-- otherwise):
--   Errors      done/error.h: the codes. A C result -n with n > 0 is `err n`, and n >= 0 is `ok n`.
--   Layout      done/unixv6fs.h, done/inode.h: superblock, inode, their bytes, inode_getsize,
--               inode_getsectorsize
--   Sector      done/sector.c: sector_read, sector_write
--   Bitmap      done/bmblock.c: bm_alloc, bm_get, bm_set, bm_clear, bm_find_next; Bitmap/Print
--               holds bm_print
--   FileSystem  done/mount.h: struct unix_filesystem
--   Inode       done/inode.c: all its functions
--   File        done/filev6.c: all its functions
--   Mount       done/mount.c: all its functions; Mount/Again mounts a disk a second time
--   Directory   done/direntv6.c: directory readers and the lookup of paths; two children hold
--               definitions: Directory/Create, the creation of entries and files, and
--               Directory/Print, direntv6_print_tree, whose children describe directories as a tree
--               (Tree), what a path leads to in it (Lookup), and one more entry (Graft)
--   Fuse        done/u6fs_fuse.c: fs_getattr, fs_readdir, fs_read
--   Utils       done/u6fs_utils.c: utils_print_shafile; Utils/Print holds the other functions; SHA256
--               is an argument
--   Command     done/u6fs.c: u6fs_do_one_cmd, and u6fs_fuse_main of done/u6fs_fuse.c; Command/Main
--               holds usage and main, with the messages of done/error.c; Command/Again and
--               Command/NewDir run a second command on the disk that the first one left
--   Steps       sequences of calls of all the functions above that change a mounted file system, and
--               what every such call keeps; no definition of the source
--   Printed     pps_printf of done/error.h: rows of pieces
--   Stdio       the streams of the C library: which bytes a file has, which seeks and transfers fail
--   Prelude     lists, words, results and bits for all of them
--   Tests       a disk of 20 sectors, runs on it, and the theorems at concrete inputs
--
-- A function has the name that it has in C. The structures that C changes in place are passed
-- along and returned, beside the status. A buffer is a function from places to bytes; an array
-- on the stack that is not initialised is an argument (`junk`, `sector`, `dirs`). What C leaves
-- undefined, a read or a write outside an array or a failed `assert`, is the result `fault`, as
-- is a loop that runs out of its rounds. bm_set and bm_clear have no result: a write outside the
-- words of a vector, which a number in the range of a valid vector does not cause, leaves a
-- vector without words; a read outside them gives 0. Numbers are natural; where C wraps, u8,
-- u16, u32 and u64 are written out, and a negative `int32_t` is its bit pattern, from 2 ^ 31 on.
--
-- Loops over ranges are recursive on the rounds left. The others have a number of rounds, computed
-- from the size of the file or the length of the path, that is enough: `fs_read` reads size / 512 +
-- 1 blocks and one more that is empty; a directory has at most 33 rounds for each of its blocks;
-- each call of `direntv6_dirlookup_core` takes at least one byte off its path; the marking of a
-- file's sectors ends at the first index past its last block; a file is hashed in at most 16
-- blocks; a round of `filev6_writebytes` takes 512 bytes, or ends; the loop over the sectors of the
-- inode table has a round for each and one for the last test. `direntv6_print_tree` has a number of
-- levels of calls, which stands for the size of the stack: no number is enough for a directory that
-- contains itself.
--
-- Not modelled: tests for NULL arguments, but in bm_print and utils_print_inode; how printf writes a
-- number out; the options that FUSE is given, whose fuse_main is an argument, as are atoi,
-- malloc, fopen and fclose of the command line; hello.c, an example of the FUSE library; the macros of
-- util.h for unfinished code. Allocations in direntv6.c and u6fs_fuse.c succeed. The host is
-- little-endian and pads no structure of the disk.
pub mod Prelude
pub mod Errors
pub mod Stdio
pub mod Layout
pub mod Sector
pub mod Bitmap
pub mod FileSystem
pub mod Inode
pub mod File
pub mod Mount
pub mod Directory
pub mod Fuse
pub mod Printed
pub mod Utils
pub mod Command
pub mod Steps
pub mod Tests
