-- ===== src/Tests/Inodes.antt =====
-- Sectors and inodes: runs, and the theorems at inputs.
use file_system_public_copy.Prelude.{
  ℕ, zero, suc, ap, ◌+◌, ◌≡◌, ◌⊎◌, ◌*◌, ◌-◌, true, false, [], ◌∷◌, ◌≤◌, ◌<◌, ◌^◌, refl, arith, ok,
  err, get_or,
}
use file_system_public_copy.Errors.{bad_parameter, unallocated_inode, inode_out_of_range}
use file_system_public_copy.Stdio.{Buffer}
use file_system_public_copy.Layout.{decode_inode, encode_inode, has_flag, inode_getsize}
use file_system_public_copy.Layout.Laws.{IsInode, decode-encode}
use file_system_public_copy.Sector.{sector_read, sector_write}
use file_system_public_copy.Sector.Laws.{IsReadable, sector_read-sector_write}
use file_system_public_copy.Inode.{inode_read, inode_write, inode_setsize, inode_scan_print}
use file_system_public_copy.Inode.Scan.{scan_pass, inode_scan_print_lem}
use file_system_public_copy.Inode.Size.{setsize-getsize}
use file_system_public_copy.Inode.Store.{InTable, inode_read-inode_write}
use file_system_public_copy.Bitmap.Bits.{IsValid}
use file_system_public_copy.Inode.Alloc.{IsAllocated, inode_alloc_lem}
use file_system_public_copy.Inode.{inode_alloc}
use file_system_public_copy.Tests.Disk.{fs, disk, disk_bytes, zeros, root_inode, file_inode}

reads_root : inode_read fs 1 ≡ ok root_inode
unfolding inode_read sector_read disk_bytes decode_inode has_flag
reads_root = refl

reads_errors :
    (inode_read fs 4 ≡ err unallocated_inode)
    × (inode_read fs 0 ≡ err inode_out_of_range)
    × (inode_read fs 32 ≡ err inode_out_of_range)
unfolding inode_read sector_read disk_bytes decode_inode has_flag
reads_errors = (refl, refl, refl)

sector_5-IsReadable : IsReadable disk 5
sector_5-IsReadable = record {
  seeks = refl;
  sound = refl;
  inside = omega arith;
  small = omega arith;
}

reads_written_sector :
    (b : Buffer) × (sector_read (sector_write disk 5 zeros).1 5 ≡ ok b)
    × ((k : ℕ) → k < 512 → b k ≡ 0)
reads_written_sector =
    sector_read-sector_write disk 5 5 zeros sector_5-IsReadable sector_5-IsReadable

file_inode-IsInode : IsInode file_inode
file_inode-IsInode = record {
  mode = omega arith;
  nlink = omega arith;
  uid = omega arith;
  gid = omega arith;
  size0 = omega arith;
  size1 = omega arith;
  addr_length = refl;
  addr = small_addr;
  atime0 = omega arith;
  atime1 = omega arith;
  mtime0 = omega arith;
  mtime1 = omega arith;
}
  where
    small_addr : (k : ℕ) → get_or file_inode.i_addr k 0 < 2 ^ 16
    small_addr zero = omega arith
    small_addr (suc zero) = omega arith
    small_addr (suc (suc zero)) = omega arith
    small_addr (suc (suc (suc zero))) = omega arith
    small_addr (suc (suc (suc (suc zero)))) = omega arith
    small_addr (suc (suc (suc (suc (suc zero))))) = omega arith
    small_addr (suc (suc (suc (suc (suc (suc zero)))))) = omega arith
    small_addr (suc (suc (suc (suc (suc (suc (suc zero))))))) = omega arith
    small_addr (suc (suc (suc (suc (suc (suc (suc (suc k)))))))) = omega arith

decodes_file : decode_inode (encode_inode file_inode) 0 ≡ file_inode
decodes_file = decode-encode file_inode (encode_inode file_inode) 0 file_inode-IsInode shifted
  where
    shifted : (k : ℕ) → k < 32 → encode_inode file_inode (0 + k) ≡ encode_inode file_inode k
    shifted k h = ap (encode_inode file_inode) (omega arith)

InTable-2 : InTable fs 2
InTable-2 = record {
  start_small = omega arith;
  size_small = omega arith;
  used = omega arith;
  in_table = omega arith;
  readable = record { seeks = refl; sound = refl; inside = omega arith; small = omega arith };
}

InTable-17 : InTable fs 17
InTable-17 = record {
  start_small = omega arith;
  size_small = omega arith;
  used = omega arith;
  in_table = omega arith;
  readable = record { seeks = refl; sound = refl; inside = omega arith; small = omega arith };
}

inode_read-inode_write_example :
    ((inode_write fs 17 file_inode).0 ≡ ok 0)
    × (inode_read (inode_write fs 17 file_inode).1 17 ≡ ok file_inode)
unfolding has_flag
inode_read-inode_write_example =
    inode_read-inode_write fs 17 17 file_inode InTable-17 InTable-17 file_inode-IsInode refl

setsize-getsize_example :
    ((70_000 < 2 ^ 24)
      × ((inode_setsize file_inode 70_000).0 ≡ ok 0)
      × (inode_getsize (inode_setsize file_inode 70_000).1 ≡ 70_000)
      × ((inode_setsize file_inode 70_000).1 ≡ record file_inode {
        i_size0 = (inode_setsize file_inode 70_000).1.i_size0;
        i_size1 = (inode_setsize file_inode 70_000).1.i_size1;
      }))
    ⊎ ((2 ^ 24 ≤ 70_000)
        × ((inode_setsize file_inode 70_000).0 ≡ err bad_parameter)
        × ((inode_setsize file_inode 70_000).1 ≡ file_inode))
setsize-getsize_example = setsize-getsize file_inode 70_000 (omega arith)

ibm-IsValid : IsValid fs.ibm
ibm-IsValid = omega arith

inode_alloc_lem_example : IsAllocated fs (inode_alloc fs)
inode_alloc_lem_example = inode_alloc_lem fs ibm-IsValid (omega arith)

inode_scan_print_lem_example : inode_scan_print fs ≡ scan_pass fs (16 * (fs.s.s_isize - 1)) 1
inode_scan_print_lem_example = inode_scan_print_lem fs (omega arith) (omega arith) (omega arith)

-- The root directory and two files.
scan_of_disk : scan_pass fs 16 1 ≡ (
  record { inr = 1; dir = true; len = 32 }
      ∷ record { inr = 2; dir = false; len = 20 }
      ∷ record { inr = 3; dir = false; len = 0 }
      ∷ [],
  ok 0,
)
unfolding inode_read sector_read disk_bytes decode_inode has_flag inode_getsize
scan_of_disk = refl
