-- ===== src/File/Negative.antt =====
-- done/filev6.c: reading a block that an indirect sector places in the upper half of the disk.
use file_system_public_copy.Prelude.{
  ◌-◌, ◌*◌, ◌/◌, ◌%◌, ◌^◌, ◌≤◌, ◌<◌, ◌≡◌, arith, true, err, get_or,
}
use file_system_public_copy.Layout.{ialloc, has_flag, inode_getsize}
use file_system_public_copy.FileSystem.{FileSystem}
use file_system_public_copy.Sector.Laws.{IsReadable}
use file_system_public_copy.File.{Filev6, filev6_readblock}
use file_system_public_copy.File.Content.{indirect_address, findsector_negative}

-- If the inode of an open file is allocated and has a size from 4096 to below 1792 * 512, the
-- offset is the start of a block of it, and the indirect sector of that block can be read and
-- lists for it an address from 2 ^ 15 to below 2 ^ 16, then filev6_readblock reads nothing of the
-- block: it returns the address less 2 ^ 16, which is negative and so an error, and the open file
-- stays as it was.
pub readblock_negative :
    (u : FileSystem) (f : Filev6)
    → has_flag f.i_node.i_mode ialloc ≡ true
    → 8 * 512 ≤ inode_getsize f.i_node
    → inode_getsize f.i_node < 1792 * 512
    → f.offset < inode_getsize f.i_node
    → f.offset % 512 ≡ 0
    → IsReadable u.f (get_or f.i_node.i_addr (f.offset / 512 / 256) 0)
    → 2 ^ 15 ≤ indirect_address u f.i_node (f.offset / 512)
    → indirect_address u f.i_node (f.offset / 512) < 2 ^ 16
    → filev6_readblock u f ≡ (err (2 ^ 16 - indirect_address u f.i_node (f.offset / 512)), f)
unfolding filev6_readblock
readblock_negative u f allocated large supported inside aligned readable big fits = ground (
  arith,
  inside,
  findsector_negative u f.i_node (f.offset / 512) allocated large supported
      (omega (arith, inside, aligned)) readable big fits,
)
