-- ===== src/Tests/Files.antt =====
-- Open files and the FUSE functions: runs, and the theorems at inputs.
use file_system_public_copy.Prelude.{
  ℕ, zero, suc, ◌+◌, ◌*◌, ◌/◌, ◌%◌, ◌≤◌, ◌<◌, ◌≡◌, ◌⊎◌, inl, refl, arith, true, false, List, [],
  ◌∷◌, slice, get_or, ok, err,
}
use file_system_public_copy.Errors.{offset_out_of_range, bad_parameter, no_such_file}
use file_system_public_copy.Layout.{Inode, zero_inode, inode_getsize, has_flag, decode_inode}
use file_system_public_copy.Sector.{sector_read}
use file_system_public_copy.Sector.Laws.{IsReadable}
use file_system_public_copy.FileSystem.{FileSystem}
use file_system_public_copy.Inode.{inode_read, inode_findsector}
use file_system_public_copy.File.{Filev6, filev6_open, filev6_readblock, filev6_lseek}
use file_system_public_copy.File.Content.{
  IsFile, content, block_length, readblock_lem, lseek_lem, IsSmallFile, IsSmallFile-IsFile,
  IsLargeFile, IsLargeFile-IsFile, indirect_address, findsector_negative,
}
use file_system_public_copy.File.Negative.{readblock_negative}
use file_system_public_copy.Directory.{direntv6_dirlookup}
use file_system_public_copy.Fuse.{fs_read}
use file_system_public_copy.Fuse.Read.{fs_read_lem}
use file_system_public_copy.Prelude.{slice_ext, some}
use file_system_public_copy.Utils.{utils_print_shafile}
use file_system_public_copy.Utils.Hash.{utils_print_shafile_lem}
use file_system_public_copy.Tests.Disk.{fs, disk_bytes, zeros, file_inode, superblock, fbm, ibm}

abbrev addresses : ℕ → ℕ
addresses k = get_or file_inode.i_addr k 0

file_inode-IsSmallFile : IsSmallFile fs file_inode
unfolding has_flag inode_getsize
file_inode-IsSmallFile = record { allocated = refl; small = omega arith; blocks = blocks }
  where
    blocks :
        (k : ℕ)
        → k * 512 < inode_getsize file_inode
        → IsReadable fs.f (get_or file_inode.i_addr k 0)
    blocks zero h = record { seeks = refl; sound = refl; inside = omega arith; small = omega arith }
    blocks (suc k) h = absurd (omega (arith, h))

file_inode-IsFile : IsFile fs file_inode addresses
file_inode-IsFile = IsSmallFile-IsFile fs file_inode file_inode-IsSmallFile

abbrev open_file : Filev6
open_file = record { i_number = 2; i_node = file_inode; offset = 0 }

readblock_lem_example : filev6_readblock fs open_file ≡ (
  ok (slice (content fs addresses) 0 (block_length open_file)),
  record open_file { offset = 0 + block_length open_file },
)
readblock_lem_example =
    readblock_lem fs open_file addresses file_inode-IsFile (omega arith) (inl refl)

abbrev path : List ℕ
path = b'/' ∷ b'a' ∷ b'b' ∷ []

finds_ab : direntv6_dirlookup fs 1 path ≡ ok 2
unfolding direntv6_dirlookup inode_read sector_read disk_bytes decode_inode has_flag
    filev6_readblock filev6_open inode_getsize inode_findsector
finds_ab = refl

finds_nothing : direntv6_dirlookup fs 1 (b'/' ∷ b'a' ∷ []) ≡ err no_such_file
unfolding direntv6_dirlookup inode_read sector_read disk_bytes decode_inode has_flag
    filev6_readblock filev6_open inode_getsize inode_findsector
finds_nothing = refl

reads_2 : inode_read fs 2 ≡ ok file_inode
unfolding inode_read sector_read disk_bytes decode_inode has_flag
reads_2 = refl

fs_read_lem_example : fs_read zeros fs path 8 0 ≡ ok (slice (content fs addresses) 0 8)
unfolding inode_getsize
fs_read_lem_example =
    fs_read_lem zeros fs path 8 0 2 file_inode addresses finds_ab reads_2 file_inode-IsFile
      (omega arith) (omega arith) (inl refl)

seeks_end : filev6_lseek open_file 20 ≡ (ok 0, record open_file { offset = 20 })
unfolding filev6_lseek inode_getsize
seeks_end = refl

seeks_to_block :
    ((20 ≤ inode_getsize file_inode)
      × ((20 ≡ inode_getsize file_inode) ⊎ (20 % 512 ≡ 0))
      × ((filev6_lseek open_file 20).0 ≡ ok 0)
      × ((filev6_lseek open_file 20).1 ≡ record open_file { offset = 20 }))
    ⊎ ((inode_getsize file_inode < 20)
        × ((filev6_lseek open_file 20).0 ≡ err offset_out_of_range)
        × ((filev6_lseek open_file 20).1 ≡ open_file))
    ⊎ ((20 < inode_getsize file_inode)
        × (1 ≤ 20 % 512)
        × ((filev6_lseek open_file 20).0 ≡ err bad_parameter)
        × ((filev6_lseek open_file 20).1 ≡ open_file))
unfolding inode_getsize
seeks_to_block = lseek_lem open_file 20 (omega arith)

-- A disk whose bytes are all the same, and a file of 8 blocks whose indirect sector is sector 5.
abbrev uniform : ℕ → FileSystem
uniform b = record {
  f = record { size = 40000000; byte = λ k. b; seekable = true; damaged = λ k. false };
  s = superblock;
  fbm = fbm;
  ibm = ibm;
}

abbrev large_inode : Inode
large_inode = record zero_inode {
  i_mode = 0o110000;
  i_size1 = 4096;
  i_addr = 5 ∷ 5 ∷ 5 ∷ 5 ∷ 5 ∷ 5 ∷ 5 ∷ 5 ∷ [];
}

uniform-IsReadable : (b k : ℕ) → k < 60_000 → IsReadable (uniform b).f k
uniform-IsReadable b k h = record {
  seeks = refl;
  sound = refl;
  inside = omega arith;
  small = omega arith;
}

listed_in_5 : (k : ℕ) → k * 512 < 4096 → get_or large_inode.i_addr (k / 256) 0 ≡ 5
listed_in_5 k h = let e : k / 256 ≡ 0 = omega arith in rw e refl

large-IsLargeFile : IsLargeFile (uniform 1) large_inode
unfolding has_flag inode_getsize
large-IsLargeFile = record {
  allocated = refl;
  large = omega arith;
  supported = omega arith;
  indirect = λ k h. rw (listed_in_5 k h) (uniform-IsReadable 1 5 (omega arith));
  positive = λ k h. omega arith;
  blocks = λ k h. uniform-IsReadable 1 257 (omega arith);
}

large_inode-IsFile : IsFile (uniform 1) large_inode (indirect_address (uniform 1) large_inode)
large_inode-IsFile = IsLargeFile-IsFile (uniform 1) large_inode large-IsLargeFile

finds_negative : inode_findsector (uniform 255) large_inode 7 ≡ err 1
unfolding has_flag inode_getsize
finds_negative =
    findsector_negative (uniform 255) large_inode 7 refl (omega arith) (omega arith) (omega arith)
      (uniform-IsReadable 255 5 (omega arith)) (omega arith) (omega arith)

abbrev large_open : Filev6
large_open = record { i_number = 2; i_node = large_inode; offset = 7 * 512 }

readblock_negative_example : filev6_readblock (uniform 255) large_open ≡ (err 1, large_open)
unfolding has_flag inode_getsize
readblock_negative_example =
    readblock_negative (uniform 255) large_open refl (omega arith) (omega arith) (omega arith)
      (omega arith) (uniform-IsReadable 255 5 (omega arith)) (omega arith) (omega arith)

-- The hash that is the list of the bytes.
utils_print_shafile_lem_example :
    utils_print_shafile (λ b n. slice b 0 n) zeros fs 2
    ≡ ok (some (slice (content fs addresses) 0 20))
unfolding has_flag inode_getsize
utils_print_shafile_lem_example =
    utils_print_shafile_lem (λ b n. slice b 0 n) zeros fs 2 file_inode addresses
      (λ b c n same. slice_ext b c 0 0 n λ k h. ground (arith, same k h)) reads_2 refl
      file_inode-IsFile
