-- ===== src/Tests/Creation.antt =====
-- Growing files and creating entries: runs, and the theorems at inputs.
use file_system_public_copy.Prelude.{
  ℕ, zero, suc, ◌+◌, ◌*◌, ◌^◌, ◌<◌, ◌≡◌, ◌≢◌, refl, arith, true, none, List, [], ◌∷◌,
  get_or-replicate, slice, ok,
}
use file_system_public_copy.Stdio.{Buffer}
use file_system_public_copy.Layout.{Inode, zero_inode, inode_getsize, has_flag}
use file_system_public_copy.Layout.Laws.{IsInode}
use file_system_public_copy.Bitmap.{bm_get, bm_find_next}
use file_system_public_copy.Inode.{inode_alloc, inode_read}
use file_system_public_copy.Inode.Store.{InTable}
use file_system_public_copy.File.{filev6_writebytes, filev6_open, filev6_readblock}
use file_system_public_copy.File.Create.{created_node}
use file_system_public_copy.File.Sound.{IsSound, IsGrown, address}
use file_system_public_copy.File.Bytes.{writebytes_lem}
use file_system_public_copy.Directory.{direntv6_dirlookup, find_in_directory, slash}
use file_system_public_copy.Directory.Create.{
  direntv6_addfile, direntv6_create, split_name_direntv6_create,
}
use file_system_public_copy.Directory.Find.{find_in_directory_lem}
use file_system_public_copy.Directory.Paths.{are_names}
use file_system_public_copy.Directory.Splits.{split-join}
use file_system_public_copy.Directory.Created.{IsNext, IsOpen, opened}
use file_system_public_copy.Directory.Added.{addfile-readblock}
use file_system_public_copy.Directory.NewPath.{create-dirlookup}
use file_system_public_copy.Tests.Disk.{fs, on_disk, disk_bytes, zeros, root_inode}
use file_system_public_copy.Tests.Directories.{
  addresses, reads_root, root_inode-IsFile, name_ab, name_c,
}

pub InTable-on_disk : (b : Buffer) (n : ℕ) → 0 < n → n < 32 → InTable (on_disk b) n
InTable-on_disk b n some' below = record {
  start_small = omega arith;
  size_small = omega arith;
  used = omega (arith, some');
  in_table = omega (arith, below);
  readable = record {
    seeks = refl;
    sound = refl;
    inside = omega (arith, below);
    small = omega (arith, below);
  };
}

root-addr : (k : ℕ) → address root_inode k < 2 ^ 16
root-addr zero = omega arith
root-addr (suc k) =
    let e : address root_inode (suc k) ≡ 0 = get_or-replicate {A = ℕ} 7 k 0 in rw e (omega arith)

pub root-IsInode : IsInode root_inode
root-IsInode = record {
  mode = omega arith;
  nlink = omega arith;
  uid = omega arith;
  gid = omega arith;
  size0 = omega arith;
  size1 = omega arith;
  addr_length = refl;
  addr = root-addr;
  atime0 = omega arith;
  atime1 = omega arith;
  mtime0 = omega arith;
  mtime1 = omega arith;
}

only_block : (k : ℕ) → k * 512 < inode_getsize root_inode → k ≡ 0
unfolding inode_getsize
only_block k h = omega (arith, h)

pub root-IsSound :
    (b : Buffer)
    → inode_read (on_disk b) 1 ≡ ok root_inode
    → IsSound (on_disk b) (opened 1 root_inode)
unfolding has_flag inode_getsize bm_get
root-IsSound b read = record {
  ready = record {
    fbm_valid = omega arith;
    fbm_small = omega arith;
    sectors = λ x h. record {
      seeks = refl;
      sound = refl;
      inside = omega (arith, h.above, h.below);
      small = omega (arith, h.below);
    };
    table = InTable-on_disk b 1 (omega arith) (omega arith);
    apart = omega arith;
    node = root-IsInode;
    allocated = refl;
  };
  small = omega arith;
  stored = read;
  blocks = λ k h. rw (only_block k h) (record { above = omega arith; below = omega arith });
  used = λ k h. rw (only_block k h) refl;
  distinct = λ j k h h' e. omega (arith, only_block j h, only_block k h');
}

pub root-IsOpen :
    (b : Buffer) → inode_read (on_disk b) 1 ≡ ok root_inode → IsOpen (on_disk b) 1 root_inode
unfolding bm_get has_flag inode_getsize
root-IsOpen b read = record {
  number = omega arith;
  taken = refl;
  sound = root-IsSound b read;
  dir = refl;
  whole = refl;
  small = omega arith;
  free = λ z. absurd (omega (arith, z));
}

pub four-IsNext : (b : Buffer) → IsNext (on_disk b) 4
unfolding inode_alloc bm_find_next
four-IsNext b = record {
  valid = omega arith;
  small = omega arith;
  found = refl;
  table = InTable-on_disk b 4 (omega arith) (omega arith);
}

abbrev pub name_x : List ℕ
name_x = b'x' ∷ []

pub no_x : find_in_directory zeros fs 1 name_x ≡ ok none
unfolding has_flag inode_getsize disk_bytes
no_x =
    find_in_directory_lem zeros fs 1 root_inode addresses name_x reads_root refl root_inode-IsFile
      refl

abbrev pub letters : Buffer
letters k = 65 + k

writebytes_lem_example :
    IsGrown fs
      (opened 1 root_inode)
      letters
      20
      (filev6_writebytes zeros fs (opened 1 root_inode) letters 20)
unfolding inode_getsize
writebytes_lem_example =
    writebytes_lem zeros fs (opened 1 root_inode) letters 20 (root-IsSound disk_bytes reads_root)
      (omega arith) (omega arith) (omega arith) (omega arith) (λ z. absurd (omega (arith, z)))

create-dirlookup_example :
    ((direntv6_create zeros fs (slash ∷ name_x) 0o400).0 ≡ ok 4)
    × (inode_read (direntv6_create zeros fs (slash ∷ name_x) 0o400).1 4
        ≡ ok (created_node 0o400 zero_inode))
    × (direntv6_dirlookup (direntv6_create zeros fs (slash ∷ name_x) 0o400).1 1 (slash ∷ name_x)
        ≡ ok 4)
    × ((other : List ℕ)
        → are_names (other ∷ []) ≡ true
        → other ≢ name_x
        → direntv6_dirlookup (direntv6_create zeros fs (slash ∷ name_x) 0o400).1 1 (slash ∷ other)
          ≡ direntv6_dirlookup fs 1 (slash ∷ other))
create-dirlookup_example =
    create-dirlookup zeros fs 0o400 1 4 root_inode [] name_x (four-IsNext disk_bytes)
      (root-IsOpen disk_bytes reads_root) (omega arith) refl refl refl refl (omega arith) refl no_x

splits_ab_c :
    split_name_direntv6_create (slash ∷ b'a' ∷ b'b' ∷ slash ∷ b'c' ∷ [])
    ≡ ok (name_c, slash ∷ name_ab)
splits_ab_c = split-join (name_ab ∷ []) name_c refl refl (omega arith)

pub free_6 : (bm_find_next fs.fbm).0 ≡ ok 6
unfolding bm_find_next
free_6 = refl

adds_x :
    ((direntv6_addfile zeros fs (slash ∷ name_x) 0o400 letters 20).0 ≡ ok 0)
    × (direntv6_dirlookup
          (direntv6_addfile zeros fs (slash ∷ name_x) 0o400 letters 20).1
          1
          (slash ∷ name_x)
        ≡ ok 4)
    × (c : Inode) × (filev6_open (direntv6_addfile zeros fs (slash ∷ name_x) 0o400 letters 20).1 4
        ≡ ok (opened 4 c))
    × (c.i_mode ≡ (created_node 0o400 zero_inode).i_mode)
    × ((filev6_readblock
          (direntv6_addfile zeros fs (slash ∷ name_x) 0o400 letters 20).1
          (opened 4 c)).0
        ≡ ok (slice letters 0 20))
unfolding inode_getsize
adds_x =
    addfile-readblock zeros fs 0o400 1 4 root_inode [] name_x letters 20 6 (four-IsNext disk_bytes)
      (root-IsOpen disk_bytes reads_root) (omega arith) refl refl refl refl (omega arith) refl no_x
      (omega arith) (omega arith) (omega arith) free_6
