-- ===== src/Directory/Print/Tree.antt =====
-- done/direntv6.c: direntv6_print_tree, on directories that form a tree.
use file_system_public_copy.Prelude.{
  ℕ, suc, ◌+◌, ◌/◌, ◌%◌, ◌≡◌, max, true, false, List, [], ◌∷◌, ◌++◌, ok,
}
use file_system_public_copy.Stdio.{Buffer}
use file_system_public_copy.Printed.{Row}
use file_system_public_copy.Layout.{Inode, ifdir, has_flag, inode_getsize}
use file_system_public_copy.FileSystem.{FileSystem}
use file_system_public_copy.Inode.{inode_read}
use file_system_public_copy.File.Content.{IsFile, content}
use file_system_public_copy.Directory.{slash}
use file_system_public_copy.Directory.Reader.{entry_at}
use file_system_public_copy.Directory.Print.{dir_row, file_row}

-- A file, or a directory with its entries: name, inode number and what it leads to.
mutual
  pub data Tree : Type 0 where
    leaf : Tree
    node : Forest → Tree

  pub data Forest : Type 0 where
    empty : Forest
    entry : List ℕ → ℕ → Tree → Forest → Forest

-- The inode `n` of a file system is the root of a tree, and the entries of a directory from `k` on
-- are those of a forest.
mutual
  pub data HasTree (u : FileSystem) : ℕ → Tree → Type 0 where
    is_file :
        {n : ℕ} {i : Inode}
        → inode_read u n ≡ ok i
        → has_flag i.i_mode ifdir ≡ false
        → HasTree u n leaf
    is_dir :
        {n : ℕ} {i : Inode} {f : Forest} (addr : ℕ → ℕ)
        → inode_read u n ≡ ok i
        → has_flag i.i_mode ifdir ≡ true
        → IsFile u i addr
        → inode_getsize i % 16 ≡ 0
        → HasForest u (content u addr) 0 (inode_getsize i / 16) f
        → HasTree u n (node f)

  pub data HasForest (u : FileSystem) : Buffer → ℕ → ℕ → Forest → Type 0 where
    no_more : {g : Buffer} {k : ℕ} → HasForest u g k 0 empty
    one_more :
        {g : Buffer} {k left : ℕ} {t : Tree} {f : Forest}
        → HasTree u (entry_at g k).child_inr t
        → HasForest u g (k + 1) left f
        → HasForest u g k (suc left) (entry (entry_at g k).name (entry_at g k).child_inr t f)

-- The listing: a directory stands before its entries, in their order.
unfoldable mutual
  pub tree_rows : ℕ → List ℕ → Tree → List Row
  tree_rows n prefix leaf = []
  tree_rows n prefix (node f) = dir_row n prefix ∷ forest_rows prefix f

  pub forest_rows : List ℕ → Forest → List Row
  forest_rows prefix empty = []
  forest_rows prefix (entry name n leaf f) = file_row prefix name ∷ forest_rows prefix f
  forest_rows prefix (entry name n (node g) f) =
      (dir_row n (prefix ++ slash ∷ name) ∷ forest_rows (prefix ++ slash ∷ name) g)
      ++ forest_rows prefix f

unfoldable mutual
  pub tree_depth : Tree → ℕ
  tree_depth leaf = 0
  tree_depth (node f) = suc (forest_depth f)

  pub forest_depth : Forest → ℕ
  forest_depth empty = 0
  forest_depth (entry name n t f) = max (tree_depth t) (forest_depth f)
