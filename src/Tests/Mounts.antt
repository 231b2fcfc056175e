-- ===== src/Tests/Mounts.antt =====
-- Mounting: a run, and the theorems at inputs.
use file_system_public_copy.Prelude.{
  ℕ, ◌≡◌, refl, arith, true, some, List, [], ◌∷◌, get_or, ok, fault, u8, inl, ◌≢◌,
}
use file_system_public_copy.Stdio.{File, memcpy}
use file_system_public_copy.Layout.{
  ialloc, inode_getsize, has_flag, decode_inode, decode_superblock, encode_inode,
}
use file_system_public_copy.Sector.{sector_read}
use file_system_public_copy.Bitmap.{bm_get, bm_set, bm_alloc}
use file_system_public_copy.FileSystem.{FileSystem}
use file_system_public_copy.Inode.{inode_read, inode_findsector}
use file_system_public_copy.Layout.Laws.{IsInode}
use file_system_public_copy.Inode.Typed.{inode_read-IsInode}
use file_system_public_copy.Mount.{mountv6, write_sector_on_bitmap}
use file_system_public_copy.Mount.Record.{write_sector_on_bitmap_lem}
use file_system_public_copy.Mount.Mounted.{IsMounted, mountv6_lem}
use file_system_public_copy.Mount.Missed.{bm_get-mountv6}
use file_system_public_copy.Mount.Total.{mountv6_ends}
use file_system_public_copy.Tests.Disk.{
  fs, disk, disk_bytes, superblock, fbm, ibm, root_inode, empty_inode,
}
use file_system_public_copy.Tests.Directories.{addresses, root_inode-IsFile}

-- The first bytes of the superblock.
abbrev fields : List ℕ
fields = 2 ∷ 0 ∷ 19 ∷ 0 ∷ 1 ∷ 0 ∷ 1 ∷ 0 ∷ 2 ∷ 0 ∷ 4 ∷ 0 ∷ []

abbrev pub with_boot : File
with_boot = record disk {
  byte = λ k. u8 (memcpy (memcpy disk_bytes 0 1 (λ j. 7)) 512 12 (λ j. get_or fields j 0) k);
}

abbrev pub mounted : FileSystem
mounted = record { f = with_boot; s = superblock; fbm = fbm; ibm = ibm }

pub mounts : mountv6 (λ n. true) (some with_boot) ≡ (ok 0, some mounted)
unfolding mountv6 inode_read sector_read disk_bytes decode_inode decode_superblock has_flag
    inode_getsize inode_findsector bm_set bm_alloc
mounts = refl

mountv6_lem_example : IsMounted with_boot mounted
mountv6_lem_example = mountv6_lem (λ n. true) with_boot mounted 0 (λ k. omega arith) mounts

write_sector_on_bitmap_lem_example : bm_get (write_sector_on_bitmap root_inode fs).1.fbm 4 ≡ ok 1
unfolding inode_getsize
write_sector_on_bitmap_lem_example =
    write_sector_on_bitmap_lem root_inode fs addresses 0 root_inode-IsFile (omega arith)
      (omega arith) (omega arith)

mountv6_ends_example : (mountv6 (λ n. true) (some with_boot)).0 ≢ fault
mountv6_ends_example = mountv6_ends (λ n. true) (some with_boot)

pub reads_mounted : inode_read mounted 1 ≡ ok root_inode
unfolding inode_read sector_read disk_bytes decode_inode has_flag
reads_mounted = refl

root_typed : IsInode root_inode × (has_flag root_inode.i_mode ialloc ≡ true)
root_typed = inode_read-IsInode mounted 1 root_inode (λ k. omega arith) reads_mounted

-- The same disk with a file in the last sector of the inode table.
abbrev with_seventeen : File
with_seventeen = record disk {
  byte = λ k. u8 (memcpy with_boot.byte 1568 32 (encode_inode empty_inode) k);
}

abbrev seventeen : FileSystem
seventeen = record mounted { f = with_seventeen }

mounts_seventeen : mountv6 (λ n. true) (some with_seventeen) ≡ (ok 0, some seventeen)
unfolding mountv6 inode_read sector_read disk_bytes decode_inode decode_superblock has_flag
    inode_getsize inode_findsector bm_set bm_alloc encode_inode
mounts_seventeen = refl

reads_seventeen : inode_read seventeen 17 ≡ ok empty_inode
unfolding inode_read sector_read disk_bytes decode_inode has_flag encode_inode
reads_seventeen = refl

bm_get-mountv6_example : bm_get seventeen.ibm 17 ≡ ok 0
bm_get-mountv6_example =
    bm_get-mountv6 (λ n. true) with_seventeen seventeen 0 17 (λ k. omega arith) mounts_seventeen
      (omega arith) (omega arith) (omega arith) (omega arith) (omega arith)
      (inl (empty_inode, reads_seventeen))
