-- ===== src/Command/NewDir.antt =====
-- done/u6fs.c: the command mkdir, and then the command tree on the disk that it leaves.
use file_system_public_copy.Prelude.{
  ℕ, ◌≤◌, ◌<◌, ◌≡◌, refl, ap, arith, true, if◌then◌else◌, none, some, List, [], ◌∷◌, ◌++◌, length,
  ok, err, ◌∙◌,
}
use file_system_public_copy.Errors.{io}
use file_system_public_copy.Layout.{Inode, zero_inode, ifdir, has_flag, inode_getsize, root_inumber}
use file_system_public_copy.FileSystem.{FileSystem}
use file_system_public_copy.Inode.{scanned_inr, scanned_rows}
use file_system_public_copy.Mount.{mountv6}
use file_system_public_copy.Mount.Small.{IsSmall, IsFreeOrSmall}
use file_system_public_copy.File.Create.{created_node}
use file_system_public_copy.Directory.{find_in_directory, slash}
use file_system_public_copy.Directory.Create.{direntv6_create}
use file_system_public_copy.Directory.Paths.{no_slash, are_names, join, walk}
use file_system_public_copy.Directory.Entries.{no_nul}
use file_system_public_copy.Directory.Created.{IsNext, IsOpen}
use file_system_public_copy.Directory.Print.Tree.{Forest, node, empty, tree_rows, tree_depth}
use file_system_public_copy.Directory.Print.Listing.{print_tree_lem}
use file_system_public_copy.Directory.Print.Graft.{graft, HasApart}
use file_system_public_copy.Directory.Print.NewEntry.{create_lem}
use file_system_public_copy.Directory.Print.Same.{HasTree-same}
use file_system_public_copy.Command.{
  Host, u6fs_do_one_cmd, run_mkdir, run_command, finish, mkdir_word, tree_word,
}
use file_system_public_copy.Command.Adding.{finish_lem}
use file_system_public_copy.Command.Again.{
  HasTable, scanned-InTable, left-IsFreeOrSmall, remounts, next_host, tree_run,
}

run_mkdir_lem :
    (h : Host) (u u' : FileSystem) (path : List ℕ) (n : ℕ)
    → direntv6_create h.junk u path ifdir ≡ (ok n, u')
    → ((run_mkdir h u path).1 ≡ ok 0) × ((run_mkdir h u path).2 ≡ u')
unfolding run_mkdir
run_mkdir_lem h u u' path n e = ground (arith, ap (λ t. t.0) e, ap (λ t. t.1) e)

run_lem :
    (h : Host) (u : FileSystem) (execname disk path : List ℕ)
    → mountv6 h.malloc (h.disk disk) ≡ (ok 0, some u)
    → u6fs_do_one_cmd h (execname ∷ disk ∷ mkdir_word ∷ path ∷ []) ≡ finish h (run_mkdir h u path)
unfolding u6fs_do_one_cmd run_command
run_lem h u execname disk path e = ground (arith, ap (λ t. t.0) e, ap (λ t. t.1) e)

new_dir-IsSmall : IsSmall (created_node ifdir zero_inode)
unfolding has_flag inode_getsize
new_dir-IsSmall = record { allocated = refl; few = omega arith }

module _ (h : Host) (u : FileSystem) (p n : ℕ) (i : Inode) (names : List (List ℕ))
    (name execname disk : List ℕ) (forest : Forest)
    (mounts : mountv6 h.malloc (h.disk disk) ≡ (ok 0, some u)) (next : IsNext u n)
    (parent : IsOpen u p i) (led_by : are_names names ≡ true) (named : are_names (name ∷ []) ≡ true)
    (plain : no_slash name ≡ true) (valid : no_nul name ≡ true) (short : length name < 14)
    (led : walk u root_inumber names ≡ ok p) (new : find_in_directory (λ k. 0) u p name ≡ ok none)
    (tree : HasApart u p i root_inumber (node forest)) (table : HasTable u)
    (after : 2 ≤ u.s.s_inode_start)
    (slots : (row t : ℕ) → row < scanned_rows u.s → t < 16 → IsFreeOrSmall u (scanned_inr row t))
    (deep : tree_depth (graft p name n (node empty) root_inumber (node forest)) ≤ h.stack) where
  -- If the disk named on the command line mounts, the next inode number n can be had and has its
  -- place in the inode table, names lead from the root to a directory p that is sound, is in use
  -- and can take one more entry, a name that is new in it has 1 to 13 bytes without a slash or
  -- NUL, the root is the root of a tree in which every inode number is in use and has its place
  -- in the table, and every directory but p is small and has blocks of its own, which are data
  -- sectors in use, the inode table starts after the superblock, can be read and has from 1 to 2
  -- ^ 12 - 1 sectors, every inode that mountv6 visits is not allocated or has fewer than 4096
  -- bytes, and the stack holds the calls for that tree with the new directory, then
  -- u6fs_do_one_cmd with the command mkdir and the path of those names and the new name leaves a
  -- file system; and u6fs_do_one_cmd with the command tree on the disk that this is stored on,
  -- mounted anew, prints the tree of the root with a new, empty directory in p; both return
  -- ERR_NONE, or ERR_IO if the disk cannot be closed.
  pub mkdir-tree :
      let make = execname ∷ disk ∷ mkdir_word ∷ (join names ++ slash ∷ name) ∷ [] in
      let show = execname ∷ disk ∷ tree_word ∷ [] in
      (u' : FileSystem) × ((u6fs_do_one_cmd h make).left ≡ some u')
      × ((u6fs_do_one_cmd h make).status ≡ (if h.closes then ok 0 else err io))
      × ((u6fs_do_one_cmd (next_host h u'.f) show).rows
          ≡ tree_rows root_inumber [] (graft p name n (node empty) root_inumber (node forest)))
      × ((u6fs_do_one_cmd (next_host h u'.f) show).status ≡ (if h.closes then ok 0 else err io))
  unfolding has_flag graft
  mkdir-tree =
      let path = join names ++ slash ∷ name in
      let (u', i', run, t, stored, leaves, entry, super, low) =
        create_lem h.junk u ifdir p n i names name forest next parent (omega arith) refl led_by
          named plain valid short led new tree in
      let ran = run_mkdir_lem h u u' path n run in
      let ends = finish_lem h (run_mkdir h u path) ran.0 in
      let made = run_lem h u execname disk path mounts in
      let (v, again, file_same, super_same) =
        remounts h disk u u' mounts super after low (λ row t below slot.
          left-IsFreeOrSmall u u' p n i i' (created_node ifdir zero_inode) name (scanned_inr row t)
            leaves entry stored new_dir-IsSmall (scanned-InTable u row t table below slot)
            (slots row t below slot)) in
      let printed =
        print_tree_lem h.stack h.junk v root_inumber _ []
          (HasTree-same u' v root_inumber _ file_same super_same t) deep in
      let shown = tree_run (next_host h u'.f) v execname disk _ again printed in
      (
        u',
        ap (λ r. r.left) made ∙ ends.1 ∙ ap some ran.1,
        ap (λ r. r.status) made ∙ ends.0,
        shown.0,
        shown.1,
      )
