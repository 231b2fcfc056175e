-- ===== src/Tests/Trees.antt =====
-- Trees of directories with one more entry: the theorems at inputs.
use file_system_public_copy.Prelude.{◌≡◌, refl, arith, false, [], ◌∷◌, ok, slice}
use file_system_public_copy.Layout.{ifdir, has_flag, inode_getsize}
use file_system_public_copy.Bitmap.{bm_get}
use file_system_public_copy.Directory.{direntv6_dirlookup, slash}
use file_system_public_copy.Directory.Create.{direntv6_create, direntv6_addfile}
use file_system_public_copy.Directory.Paths.{join}
use file_system_public_copy.Directory.Print.{direntv6_print_tree}
use file_system_public_copy.Directory.Print.Tree.{leaf, node, empty, HasTree, tree_rows, tree_depth}
use file_system_public_copy.Directory.Print.Graft.{
  append, graft, InUse, HasApart, file, parent, none_left, one_part,
}
use file_system_public_copy.Directory.Print.Lookup.{walk_tree, dirlookup-walk_tree}
use file_system_public_copy.Directory.Print.NewEntry.{create-print_tree}
use file_system_public_copy.Directory.Print.NewFile.{addfile-print_tree}
use file_system_public_copy.Fuse.{Stat, fs_getattr, fs_read}
use file_system_public_copy.Fuse.NewFile.{addfile-fs_read}
use file_system_public_copy.Tests.Disk.{fs, zeros, disk_bytes, root_inode}
use file_system_public_copy.Tests.Directories.{reads_root, name_ab}
use file_system_public_copy.Tests.Printing.{forest, reads_ab, reads_c, root-HasTree}
use file_system_public_copy.Tests.Creation.{
  InTable-on_disk, root-IsOpen, four-IsNext, name_x, letters, no_x, free_6,
}

two-InUse : InUse fs 2
unfolding bm_get
two-InUse = record {
  table = InTable-on_disk disk_bytes 2 (omega arith) (omega arith);
  taken = refl;
}

three-InUse : InUse fs 3
unfolding bm_get
three-InUse = record {
  table = InTable-on_disk disk_bytes 3 (omega arith) (omega arith);
  taken = refl;
}

root-HasApart : HasApart fs 1 root_inode 1 (node forest)
unfolding disk_bytes has_flag inode_getsize
root-HasApart =
    parent refl
      (one_part (file two-InUse reads_ab refl) (one_part (file three-InUse reads_c refl) none_left))

dirlookup-walk_tree_example :
    direntv6_dirlookup fs 1 (join (name_ab ∷ [])) ≡ walk_tree 1 (node forest) (name_ab ∷ [])
dirlookup-walk_tree_example =
    dirlookup-walk_tree fs 1 (node forest) (name_ab ∷ []) root-HasTree refl

walks_to_two : walk_tree 1 (node forest) (name_ab ∷ []) ≡ ok 2
unfolding walk_tree
walks_to_two = refl

-- One level of calls is added by the new directory.
create-print_tree_example :
    let (status, u') = direntv6_create zeros fs (slash ∷ name_x) ifdir in
    let after = graft 1 name_x 4 (node empty) 1 (node forest) in
    (direntv6_print_tree 2 zeros fs 1 [] ≡ (tree_rows 1 [] (node forest), ok 0))
    × (status ≡ ok 4)
    × HasTree u' 1 after
    × (direntv6_print_tree 2 zeros u' 1 [] ≡ (tree_rows 1 [] after, ok 0))
unfolding tree_depth graft append has_flag
create-print_tree_example =
    create-print_tree zeros fs ifdir 1 4 root_inode [] name_x forest 2 zeros
      (four-IsNext disk_bytes) (root-IsOpen disk_bytes reads_root) (omega arith) refl refl refl refl
      refl (omega arith) refl no_x root-HasApart (omega arith)

addfile-print_tree_example :
    let (status, u') = direntv6_addfile zeros fs (slash ∷ name_x) 0o400 letters 20 in
    let after = graft 1 name_x 4 leaf 1 (node forest) in
    (direntv6_print_tree 1 zeros fs 1 [] ≡ (tree_rows 1 [] (node forest), ok 0))
    × (status ≡ ok 0)
    × HasTree u' 1 after
    × (direntv6_print_tree 1 zeros u' 1 [] ≡ (tree_rows 1 [] after, ok 0))
unfolding tree_depth has_flag inode_getsize
addfile-print_tree_example =
    addfile-print_tree zeros fs 0o400 1 4 root_inode [] name_x letters 20 6 forest
      (four-IsNext disk_bytes) (root-IsOpen disk_bytes reads_root) (omega arith) refl refl refl refl
      refl (omega arith) refl no_x (omega arith) (omega arith) (omega arith) free_6 root-HasApart 1
      zeros (omega arith)

addfile-fs_read_example :
    let (status, u') = direntv6_addfile zeros fs (slash ∷ name_x) 0o400 letters 20 in
    (status ≡ ok 0)
    × (direntv6_dirlookup u' 1 (slash ∷ name_x) ≡ ok 4)
    × ((s : Stat) × (fs_getattr u' (slash ∷ name_x) ≡ ok s)
        × (s.st_ino ≡ 4)
        × (s.st_size ≡ 20)
        × (s.is_dir ≡ false))
    × (fs_read zeros u' (slash ∷ name_x) 512 0 ≡ ok (slice letters 0 20))
unfolding has_flag inode_getsize
addfile-fs_read_example =
    addfile-fs_read zeros fs 0o400 1 4 root_inode [] name_x letters 20 6 forest zeros 512
      (four-IsNext disk_bytes) (root-IsOpen disk_bytes reads_root) (omega arith) refl refl refl refl
      refl (omega arith) refl no_x (omega arith) (omega arith) (omega arith) free_6 root-HasApart
