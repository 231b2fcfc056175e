-- ===== src/Tests/Writes.antt =====
-- Writing to files: runs, and the theorems at inputs.
use file_system_public_copy.Prelude.{
  ℕ, get_or-replicate, ◌+◌, ◌*◌, ◌<◌, ◌≡◌, refl, arith, slice, get_or, set, ok,
}
use file_system_public_copy.Stdio.{Buffer}
use file_system_public_copy.Layout.{has_flag}
use file_system_public_copy.Layout.Laws.{IsInode}
use file_system_public_copy.FileSystem.{FileSystem}
use file_system_public_copy.Bitmap.{bm_find_next}
use file_system_public_copy.Bitmap.Bits.{IsValid}
use file_system_public_copy.File.{Filev6, filev6_readblock, filev6_writesector}
use file_system_public_copy.File.Ready.{IsReady}
use file_system_public_copy.File.Write.{IsAppended, writesector_lem, writesector-IsReady}
use file_system_public_copy.File.Append.{readblock-writesector, writesector_full, writesector_twice}
use file_system_public_copy.Bitmap.{bm_get}
use file_system_public_copy.Inode.{inode_alloc, inode_read}
use file_system_public_copy.File.{filev6_create}
use file_system_public_copy.File.Create.{created_node, filev6_create_lem}
use file_system_public_copy.Inode.Store.{InTable}
use file_system_public_copy.File.{write_loop}
use file_system_public_copy.File.Rounds.{write_loop_enough}
use file_system_public_copy.Tests.Disk.{fs, zeros, empty_inode}

abbrev open_empty : Filev6
open_empty = record { i_number = 3; i_node = empty_inode; offset = 0 }

fbm-IsValid : IsValid fs.fbm
fbm-IsValid = omega arith

empty-IsInode : IsInode empty_inode
empty-IsInode = record {
  mode = omega arith;
  nlink = omega arith;
  uid = omega arith;
  gid = omega arith;
  size0 = omega arith;
  size1 = omega arith;
  addr_length = refl;
  addr = λ k.
      let e : get_or empty_inode.i_addr k 0 ≡ 0 = get_or-replicate {A = ℕ} 8 k 0 in
      rw e (omega arith);
  atime0 = omega arith;
  atime1 = omega arith;
  mtime0 = omega arith;
  mtime1 = omega arith;
}

empty-IsReady : IsReady fs open_empty
unfolding has_flag
empty-IsReady = record {
  fbm_valid = fbm-IsValid;
  fbm_small = omega arith;
  sectors = λ x h. record {
    seeks = refl;
    sound = refl;
    inside = omega (arith, h.above, h.below);
    small = omega (arith, h.below);
  };
  table = record {
    start_small = omega arith;
    size_small = omega arith;
    used = omega arith;
    in_table = omega arith;
    readable = record { seeks = refl; sound = refl; inside = omega arith; small = omega arith };
  };
  apart = omega arith;
  node = empty-IsInode;
  allocated = refl;
}

free_6 : (bm_find_next fs.fbm).0 ≡ ok 6
unfolding bm_find_next
free_6 = refl

letters : Buffer
letters k = 65 + k

writesector_lem_example :
    IsAppended fs open_empty letters 20 0 6 (filev6_writesector zeros fs open_empty letters 20 0)
writesector_lem_example =
    writesector_lem zeros fs open_empty letters 20 0 6 empty-IsReady free_6 (omega arith)
      (omega arith)

still_IsReady :
    IsReady
      (filev6_writesector zeros fs open_empty letters 20 0).2
      (filev6_writesector zeros fs open_empty letters 20 0).1
still_IsReady =
    writesector-IsReady zeros fs open_empty letters 20 0 6 empty-IsReady free_6 (omega arith)
      (omega arith)

reads_appended :
    (filev6_readblock
      (filev6_writesector zeros fs open_empty letters 20 0).2
      (record (filev6_writesector zeros fs open_empty letters 20 0).1 { offset = 0 })).0
    ≡ ok (slice letters 0 20)
reads_appended =
    readblock-writesector zeros fs open_empty letters 20 0 6 empty-IsReady free_6 refl (omega arith)
      (omega arith) (omega arith)

writesector_full_example :
    ((filev6_writesector zeros fs open_empty letters 512 0).0 ≡ ok 0)
    × (get_or (filev6_writesector zeros fs open_empty letters 512 0).1.i_node.i_addr 0 0 ≡ 0)
    × (get_or (filev6_writesector zeros fs open_empty letters 512 0).1.i_node.i_addr 1 0 ≡ 6)
writesector_full_example =
    writesector_full zeros fs open_empty letters 0 6 empty-IsReady free_6 refl (omega arith)

-- The open file and the file system after one sector.
abbrev once : Filev6
once = (filev6_writesector zeros fs open_empty letters 512 0).1

abbrev fs_once : FileSystem
fs_once = (filev6_writesector zeros fs open_empty letters 512 0).2

writesector_twice_example :
    ((filev6_writesector zeros fs_once once zeros 512 512).0 ≡ ok 0)
    × ((filev6_writesector zeros fs_once once zeros 512 512).1.i_node.i_addr
        ≡ set once.i_node.i_addr 2 6)
    × ((k : ℕ)
        → k < 512
        → (filev6_writesector zeros fs_once once zeros 512 512).2.f.byte (6 * 512 + k) ≡ 0)
writesector_twice_example =
    writesector_twice zeros fs open_empty letters zeros 512 512 0 6 empty-IsReady free_6
      (omega arith) (omega arith) (omega arith)

-- The first free inode is number 4.
allocates_4 : (inode_alloc fs).0 ≡ ok 4
unfolding inode_alloc bm_find_next
allocates_4 = refl

InTable-4 : InTable fs 4
InTable-4 = record {
  start_small = omega arith;
  size_small = omega arith;
  used = omega arith;
  in_table = omega arith;
  readable = record { seeks = refl; sound = refl; inside = omega arith; small = omega arith };
}

creates_four :
    ((filev6_create fs 0o644 open_empty).0 ≡ ok 0)
    × ((filev6_create fs 0o644 open_empty).1
        ≡ record { i_number = 4; i_node = created_node 0o644 empty_inode; offset = 0 })
    × (inode_read (filev6_create fs 0o644 open_empty).2 4
        ≡ ok (filev6_create fs 0o644 open_empty).1.i_node)
    × (bm_get fs.ibm 4 ≡ ok 0)
    × (bm_get (filev6_create fs 0o644 open_empty).2.ibm 4 ≡ ok 1)
creates_four =
    filev6_create_lem fs 0o644 open_empty 4 (omega arith) (omega arith) (omega arith) empty-IsInode
      allocates_4 InTable-4

write_loop_enough_example :
    write_loop 2 zeros fs open_empty letters 0 0 700
    ≡ write_loop 5 zeros fs open_empty letters 0 0 700
write_loop_enough_example =
    write_loop_enough 2 5 zeros fs open_empty letters 0 0 700 (omega arith) (omega arith)
