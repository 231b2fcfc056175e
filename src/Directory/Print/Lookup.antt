-- ===== src/Directory/Print/Lookup.antt =====
-- done/direntv6.c: direntv6_dirlookup, on directories that form a tree.
use file_system_public_copy.Prelude.{
  ℕ, ◌≡◌, refl, ap, arith, true, false, List, [], ◌∷◌, Result, ok, err, ◌∙◌, if◌then◌else◌,
  Bool-cases, inl, inr, ◌==◌,
}
use file_system_public_copy.Errors.{no_such_file, invalid_directory_inode}
use file_system_public_copy.Stdio.{Buffer}
use file_system_public_copy.Layout.{Inode, ifdir, has_flag}
use file_system_public_copy.FileSystem.{FileSystem}
use file_system_public_copy.Inode.{inode_read}
use file_system_public_copy.File.{filev6_open}
use file_system_public_copy.Directory.{
  bytes_eq, direntv6_opendir, find_in_directory, direntv6_dirlookup,
}
use file_system_public_copy.Directory.Find.{first_named, find_in_directory_lem}
use file_system_public_copy.Directory.Paths.{are_names, join, descend, walk, dirlookup_lem}
use file_system_public_copy.Directory.Reader.{entry_at}
use file_system_public_copy.Directory.Print.Tree.{
  Tree, leaf, node, Forest, empty, entry, HasTree, is_file, is_dir, HasForest, no_more, one_more,
}
use file_system_public_copy.Directory.Print.Graft.{append, graft, graft_entries}

-- Where names lead in a tree from its root `m`: each to the first entry of that name.
unfoldable mutual
  pub walk_tree : ℕ → Tree → List (List ℕ) → Result ℕ
  walk_tree m t [] = ok m
  walk_tree m leaf (name ∷ names) = err invalid_directory_inode
  walk_tree m (node f) (name ∷ names) = walk_entries f name names

  pub walk_entries : Forest → List ℕ → List (List ℕ) → Result ℕ
  walk_entries empty name names = err no_such_file
  walk_entries (entry name' n t f) name names =
      if bytes_eq name name' then walk_tree n t names else walk_entries f name names

-- A file is no directory to search.
find_in_file :
    (u : FileSystem) (m : ℕ) (j : Inode) (name : List ℕ)
    → inode_read u m ≡ ok j
    → has_flag j.i_mode ifdir ≡ false
    → find_in_directory (λ k. 0) u m name ≡ err invalid_directory_inode
unfolding find_in_directory direntv6_opendir filev6_open
find_in_file u m j name read flag = ground (arith, read, flag)

module _ (u : FileSystem) where
  mutual
    unfolding walk_tree walk_entries

    walk_lem :
        {m : ℕ} {t : Tree} (names : List (List ℕ))
        → HasTree u m t
        → walk u m names ≡ walk_tree m t names
    walk_lem [] h = refl
    walk_lem {m} (name ∷ names) (is_file {i = j} read flag) =
        ap (descend (λ child. walk u child names)) (find_in_file u m j name read flag)
    walk_lem {m} (name ∷ names) (is_dir {i = j} addr read flag file whole h) =
        ap (descend (λ child. walk u child names))
          (find_in_directory_lem (λ k. 0) u m j addr name read flag file whole)
        ∙ entries_lem name names h

    entries_lem :
        {g : Buffer} {k left : ℕ} {f : Forest} (name : List ℕ) (names : List (List ℕ))
        → HasForest u g k left f
        → descend (λ child. walk u child names) (ok (first_named g name left k))
          ≡ walk_entries f name names
    entries_lem name names no_more = refl
    entries_lem {g} {k} name names (one_more h rest) =
        elim (Bool-cases (bytes_eq name (entry_at g k).name)) [
          | inl e ↦ rw e (walk_lem names h)
          | inr e ↦ rw e (entries_lem name names rest)
        ]

-- If an inode is the root of a tree of directories, which can be read, whose blocks are located
-- in readable sectors and whose sizes are multiples of 16, and of inodes that are no directories,
-- then direntv6_dirlookup from it, of the path that has names after a slash each, which are not
-- empty and have no slash, gives what the walk down that tree gives: the number of the first
-- entry of each name, ERR_NO_SUCH_FILE where there is none, and ERR_INVALID_DIRECTORY_INODE below
-- a file.
pub dirlookup-walk_tree :
    (u : FileSystem) (m : ℕ) (t : Tree) (names : List (List ℕ))
    → HasTree u m t
    → are_names names ≡ true
    → direntv6_dirlookup u m (join names) ≡ walk_tree m t names
dirlookup-walk_tree u m t names h valid = dirlookup_lem u m names valid ∙ walk_lem u names h

module _ (p : ℕ) (name : List ℕ) (n : ℕ) (new : Tree) where
  -- A name that led somewhere leads there with one more entry behind the others.
  walk-append :
      (f : Forest) (sought : List ℕ) (names : List (List ℕ)) (q : ℕ)
      → walk_entries f sought names ≡ ok q
      → walk_entries (append name n new f) sought names ≡ ok q
  unfolding walk_entries append
  walk-append empty sought names q h = cc
  walk-append (entry name' m t f) sought names q h = elim (Bool-cases (bytes_eq sought name')) [
    | inl e ↦ ground (arith, e, h)
    | inr e ↦ rw e (walk-append f sought names q (ground (arith, e, h)))
  ]

  mutual
    unfolding walk_tree walk_entries graft graft_entries

    tree_kept :
        (m : ℕ) (t : Tree) (names : List (List ℕ)) (q : ℕ)
        → walk_tree m t names ≡ ok q
        → walk_tree m (graft p name n new m t) names ≡ ok q
    tree_kept m t [] q h = h
    tree_kept m leaf (sought ∷ names) q h = h
    tree_kept m (node f) (sought ∷ names) q h = elim (Bool-cases (m == p)) [
      | inl e ↦ rw e (
          walk-append (graft_entries p name n new f) sought names q
            (entries_kept f sought names q h))
      | inr e ↦ rw e (entries_kept f sought names q h)
    ]

    entries_kept :
        (f : Forest) (sought : List ℕ) (names : List (List ℕ)) (q : ℕ)
        → walk_entries f sought names ≡ ok q
        → walk_entries (graft_entries p name n new f) sought names ≡ ok q
    entries_kept empty sought names q h = h
    entries_kept (entry name' m t f) sought names q h = elim (Bool-cases (bytes_eq sought name')) [
      | inl e ↦ rw e (tree_kept m t names q (ground (arith, e, h)))
      | inr e ↦ rw e (entries_kept f sought names q (ground (arith, e, h)))
    ]

  -- Names that led to an inode lead to it after the graft.
  pub walk_tree-graft :
      (m : ℕ) (t : Tree) (names : List (List ℕ)) (q : ℕ)
      → walk_tree m t names ≡ ok q
      → walk_tree m (graft p name n new m t) names ≡ ok q
  walk_tree-graft m t names q h = tree_kept m t names q h
