-- ===== src/Directory/Print/Same.antt =====
-- done/direntv6.c: what trees and files of a disk are does not depend on the bitmaps.
use file_system_public_copy.Prelude.{ℕ, ◌≡◌, sym, subst}
use file_system_public_copy.Stdio.{Buffer}
use file_system_public_copy.Layout.{Inode}
use file_system_public_copy.Bitmap.{Bitmap}
use file_system_public_copy.FileSystem.{FileSystem}
use file_system_public_copy.Inode.{inode_read, inode_findsector, inode_findsector_bigfile}
use file_system_public_copy.File.Content.{IsFile}
use file_system_public_copy.Directory.Print.Tree.{
  Tree, Forest, HasTree, is_file, is_dir, HasForest, no_more, one_more,
}

module _ (u : FileSystem) (b c : Bitmap) where
  abbrev other : FileSystem
  other = record u { fbm = b; ibm = c }

  IsFile-same : (i : Inode) (addr : ℕ → ℕ) → IsFile u i addr → IsFile other i addr
  unfolding inode_findsector inode_findsector_bigfile
  IsFile-same i addr h = record { located = h.located; readable = h.readable }

  mutual
    unfolding inode_read

    tree_lem : {m : ℕ} {t : Tree} → HasTree u m t → HasTree other m t
    tree_lem (is_file r flag) = is_file r flag
    tree_lem (is_dir {i = i} addr r flag h whole f) =
        is_dir addr r flag (IsFile-same i addr h) whole (forest_lem f)

    forest_lem :
        {g : Buffer} {k left : ℕ} {f : Forest} → HasForest u g k left f → HasForest other g k left f
    forest_lem no_more = no_more
    forest_lem (one_more h rest) = one_more (tree_lem h) (forest_lem rest)

-- The same file and superblock have the same trees.
pub HasTree-same :
    (u v : FileSystem) (m : ℕ) (t : Tree) → v.f ≡ u.f → v.s ≡ u.s → HasTree u m t → HasTree v m t
HasTree-same u v m t file super h =
    let e : v ≡ other u v.fbm v.ibm =
      λ j. record { f = file j; s = super j; fbm = v.fbm; ibm = v.ibm } in
    subst (λ x. HasTree x m t) (sym e) (tree_lem u v.fbm v.ibm h)
