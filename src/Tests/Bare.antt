-- ===== src/Tests/Bare.antt =====
-- A file that is added to an empty directory.
use file_system_public_copy.Prelude.{
  ℕ, ◌+◌, ◌<◌, ◌≡◌, refl, arith, none, [], ◌∷◌, get_or, get_or-replicate, ok,
}
use file_system_public_copy.Layout.{Inode, inode_getsize, has_flag, decode_inode}
use file_system_public_copy.Layout.Laws.{IsInode}
use file_system_public_copy.Bitmap.{bm_get, bm_find_next}
use file_system_public_copy.FileSystem.{FileSystem}
use file_system_public_copy.Sector.{sector_read}
use file_system_public_copy.Inode.{inode_read}
use file_system_public_copy.File.Content.{IsSmallFile-IsFile}
use file_system_public_copy.File.Sound.{IsSound, IsSound-IsSmallFile, address, bytes_of}
use file_system_public_copy.Directory.{find_in_directory, slash}
use file_system_public_copy.Directory.Create.{direntv6_addfile}
use file_system_public_copy.Directory.Find.{find_in_directory_lem}
use file_system_public_copy.Directory.Created.{IsOpen, opened}
use file_system_public_copy.Directory.Overwritten.{addfile_overwrites}
use file_system_public_copy.Tests.Disk.{on_disk, bare_root, bare_bytes, zeros}
use file_system_public_copy.Tests.Creation.{InTable-on_disk, four-IsNext, name_x, letters}

abbrev bare : FileSystem
bare = on_disk bare_bytes

reads_bare : inode_read bare 1 ≡ ok bare_root
unfolding inode_read sector_read bare_bytes decode_inode has_flag
reads_bare = refl

bare-IsInode : IsInode bare_root
bare-IsInode = record {
  mode = omega arith;
  nlink = omega arith;
  uid = omega arith;
  gid = omega arith;
  size0 = omega arith;
  size1 = omega arith;
  addr_length = refl;
  addr = λ k.
      let e : get_or bare_root.i_addr k 0 ≡ 0 = get_or-replicate {A = ℕ} 8 k 0 in
      rw e (omega arith);
  atime0 = omega arith;
  atime1 = omega arith;
  mtime0 = omega arith;
  mtime1 = omega arith;
}

bare-IsSound : IsSound bare (opened 1 bare_root)
unfolding has_flag inode_getsize
bare-IsSound = record {
  ready = record {
    fbm_valid = omega arith;
    fbm_small = omega arith;
    sectors = λ x h. record {
      seeks = refl;
      sound = refl;
      inside = omega (arith, h.above, h.below);
      small = omega (arith, h.below);
    };
    table = InTable-on_disk bare_bytes 1 (omega arith) (omega arith);
    apart = omega arith;
    node = bare-IsInode;
    allocated = refl;
  };
  small = omega arith;
  stored = reads_bare;
  blocks = λ k h. absurd (omega (arith, h));
  used = λ k h. absurd (omega (arith, h));
  distinct = λ j k h h' e. absurd (omega (arith, h));
}

free_6 : (bm_find_next bare.fbm).0 ≡ ok 6
unfolding bm_find_next
free_6 = refl

bare-IsOpen : IsOpen bare 1 bare_root
unfolding bm_get has_flag inode_getsize
bare-IsOpen = record {
  number = omega arith;
  taken = refl;
  sound = bare-IsSound;
  dir = refl;
  whole = refl;
  small = omega arith;
  free = λ z. (6, free_6);
}

no_x : find_in_directory zeros bare 1 name_x ≡ ok none
unfolding has_flag inode_getsize
no_x =
    find_in_directory_lem zeros bare 1 bare_root (address bare_root) name_x reads_bare refl
      (IsSmallFile-IsFile bare bare_root (IsSound-IsSmallFile bare-IsSound)) refl

addfile_overwrites_example :
    ((direntv6_addfile zeros bare (slash ∷ name_x) 0o400 letters 20).0 ≡ ok 0)
    × (i' : Inode) × (inode_read (direntv6_addfile zeros bare (slash ∷ name_x) 0o400 letters 20).1 1
        ≡ ok i')
    × (inode_getsize i' ≡ inode_getsize bare_root + 16)
    × ((k : ℕ)
        → k < 16
        → k < 20
        → bytes_of
            (direntv6_addfile zeros bare (slash ∷ name_x) 0o400 letters 20).1
            i'
            (inode_getsize bare_root + k)
          ≡ letters k)
unfolding inode_getsize
addfile_overwrites_example =
    addfile_overwrites zeros bare 0o400 1 4 bare_root [] name_x letters 20 6
      (four-IsNext bare_bytes) bare-IsOpen (omega arith) refl refl refl refl (omega arith) refl no_x
      refl (omega arith) (omega arith) free_6
