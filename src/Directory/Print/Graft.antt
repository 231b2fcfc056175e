-- ===== src/Directory/Print/Graft.antt =====
-- done/direntv6.c: a tree of directories with one more entry in one of them.
use file_system_public_copy.Prelude.{
  ℕ, suc, ◌+◌, ◌*◌, ◌/◌, ◌%◌, ◌<◌, ◌≡◌, ◌≢◌, true, false, List, ok, ◌==◌, if◌then◌else◌,
}
use file_system_public_copy.Stdio.{Buffer}
use file_system_public_copy.Layout.{Inode, ifdir, has_flag, inode_getsize}
use file_system_public_copy.Bitmap.{bm_get}
use file_system_public_copy.Bitmap.Bits.{InRange}
use file_system_public_copy.FileSystem.{FileSystem}
use file_system_public_copy.Inode.{inode_read}
use file_system_public_copy.Inode.Store.{InTable}
use file_system_public_copy.File.Content.{IsSmallFile, IsSmallFile-IsFile}
use file_system_public_copy.File.Sound.{address, bytes_of}
use file_system_public_copy.Directory.Reader.{entry_at}
use file_system_public_copy.Directory.Print.Tree.{
  Tree, leaf, node, Forest, empty, entry, HasTree, is_file, is_dir, HasForest, no_more, one_more,
}

-- An entry after the others of a directory.
unfoldable pub append : List ℕ → ℕ → Tree → Forest → Forest
append name n new empty = entry name n new empty
append name n new (entry name' m t f) = entry name' m t (append name n new f)

-- The tree below the inode `m` with a new entry, with what it leads to, in the directory `p` wherever
-- that stands.
unfoldable mutual
  pub graft : ℕ → List ℕ → ℕ → Tree → ℕ → Tree → Tree
  graft p name n new m leaf = leaf
  graft p name n new m (node f) = node (
      if m == p
      then append name n new (graft_entries p name n new f)
      else graft_entries p name n new f)

  pub graft_entries : ℕ → List ℕ → ℕ → Tree → Forest → Forest
  graft_entries p name n new empty = empty
  graft_entries p name n new (entry name' m t f) =
      entry name' m (graft p name n new m t) (graft_entries p name n new f)

-- The inode number is set in the bitmap, and has its place in the table.
pub record InUse (u : FileSystem) (m : ℕ) : Type 0 where
  pub table : InTable u m
  pub taken : bm_get u.ibm m ≡ ok 1

-- A small file whose blocks are data sectors in use, none of them a block of another file.
pub record IsApart (u : FileSystem) (i j : Inode) : Type 0 where
  pub small : IsSmallFile u j
  pub inside : (k : ℕ) → k * 512 < inode_getsize j → InRange u.fbm (address j k)
  pub used : (k : ℕ) → k * 512 < inode_getsize j → bm_get u.fbm (address j k) ≡ ok 1
  pub apart :
      (k l : ℕ) → k * 512 < inode_getsize j → l * 512 < inode_getsize i → address j k ≢ address i l

-- The inode `m` is the root of a tree in which every number is in use, and every directory but `p`,
-- whose inode is `i`, is small and has its own blocks.
mutual
  pub data HasApart (u : FileSystem) (p : ℕ) (i : Inode) : ℕ → Tree → Type 0 where
    file :
        {m : ℕ} {j : Inode}
        → InUse u m
        → inode_read u m ≡ ok j
        → has_flag j.i_mode ifdir ≡ false
        → HasApart u p i m leaf
    parent :
        {m : ℕ} {f : Forest}
        → m ≡ p
        → HasParts u p i (bytes_of u i) 0 (inode_getsize i / 16) f
        → HasApart u p i m (node f)
    directory :
        {m : ℕ} {j : Inode} {f : Forest}
        → InUse u m
        → m ≢ p
        → inode_read u m ≡ ok j
        → has_flag j.i_mode ifdir ≡ true
        → IsApart u i j
        → inode_getsize j % 16 ≡ 0
        → HasParts u p i (bytes_of u j) 0 (inode_getsize j / 16) f
        → HasApart u p i m (node f)

  pub data HasParts (u : FileSystem) (p : ℕ) (i : Inode) : Buffer → ℕ → ℕ → Forest → Type 0 where
    none_left : {g : Buffer} {k : ℕ} → HasParts u p i g k 0 empty
    one_part :
        {g : Buffer} {k left : ℕ} {t : Tree} {f : Forest}
        → HasApart u p i (entry_at g k).child_inr t
        → HasParts u p i g (k + 1) left f
        → HasParts u p i g k (suc left) (entry (entry_at g k).name (entry_at g k).child_inr t f)

-- Such a tree is a tree.
module _ (u : FileSystem) (p : ℕ) (i : Inode) (read : inode_read u p ≡ ok i)
    (dir : has_flag i.i_mode ifdir ≡ true) (small : IsSmallFile u i)
    (whole : inode_getsize i % 16 ≡ 0) where
  mutual
    tree_of : {m : ℕ} {t : Tree} → HasApart u p i m t → HasTree u m t
    tree_of (file used r flag) = is_file r flag
    tree_of (parent e parts) =
        rw e (is_dir (address i) read dir (IsSmallFile-IsFile u i small) whole (forest_of parts))
    tree_of (directory {j = j} used ne r flag apart w parts) =
        is_dir (address j) r flag (IsSmallFile-IsFile u j apart.small) w (forest_of parts)

    forest_of :
        {g : Buffer} {k left : ℕ} {f : Forest} → HasParts u p i g k left f → HasForest u g k left f
    forest_of none_left = no_more
    forest_of (one_part t parts) = one_more (tree_of t) (forest_of parts)

  pub HasTree-HasApart : {m : ℕ} {t : Tree} → HasApart u p i m t → HasTree u m t
  HasTree-HasApart h = tree_of h
