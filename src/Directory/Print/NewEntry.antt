-- ===== src/Directory/Print/NewEntry.antt =====
-- done/direntv6.c: direntv6_create, and the tree of directories afterwards.
use file_system_public_copy.Prelude.{
  ℕ, ◌/◌, ◌^◌, ◌≤◌, ◌<◌, ◌≡◌, refl, sym, ap, arith, true, none, List, [], ◌∷◌, ◌++◌, length, ok,
  ◌∙◌, subst, inl, inr,
}
use file_system_public_copy.Stdio.{Buffer}
use file_system_public_copy.Layout.{Inode, zero_inode, ifdir, has_flag, inode_getsize, root_inumber}
use file_system_public_copy.Bitmap.{bm_get}
use file_system_public_copy.Bitmap.Bits.{InRange}
use file_system_public_copy.FileSystem.{FileSystem}
use file_system_public_copy.Inode.{inode_read}
use file_system_public_copy.Inode.Alloc.{inode_alloc_lem}
use file_system_public_copy.File.{Written, filev6_writebytes}
use file_system_public_copy.File.Create.{created_node}
use file_system_public_copy.File.Sectors.{SameSector, SameSector-trans}
use file_system_public_copy.Sector.Laws.{IsReadable}
use file_system_public_copy.Steps.Low.{writebytes_low}
use file_system_public_copy.File.Sound.{IsGrown, IsSound-IsSmallFile, address, bytes_of}
use file_system_public_copy.File.Kept.{IsKept, IsCreated}
use file_system_public_copy.Directory.{find_in_directory, slash}
use file_system_public_copy.Directory.Create.{direntv6_create, dirent_bytes}
use file_system_public_copy.Directory.Paths.{no_slash, are_names, join, walk}
use file_system_public_copy.Directory.Entries.{no_nul, entry_at-dirent}
use file_system_public_copy.Directory.Created.{IsNext, IsOpen, opened, stages}
use file_system_public_copy.Directory.Child.{zero-size, none_of}
use file_system_public_copy.Directory.NewPath.{create_run}
use file_system_public_copy.Directory.Print.{direntv6_print_tree}
use file_system_public_copy.Directory.Print.Tree.{
  node, Forest, empty, HasTree, is_dir, no_more, tree_rows, tree_depth,
}
use file_system_public_copy.Directory.Print.Listing.{print_tree_lem}
use file_system_public_copy.Directory.Print.Graft.{graft, HasApart, HasTree-HasApart}
use file_system_public_copy.Directory.Print.Depth.{depth-graft}
use file_system_public_copy.Directory.Print.Grafted.{Leaves, HasEntry, HasTree-graft}

-- The next inode number is not in use.
unused-IsNext : {u : FileSystem} {n : ℕ} → IsNext u n → bm_get u.ibm n ≡ ok 0
unused-IsNext {u} {n} next = elim (inode_alloc_lem u next.valid (omega (arith, next.small))).2 [
  | inl (m, e, _, free, _) ↦
      let same : m ≡ n = ground (arith, e, next.found) in
      subst (λ x. bm_get u.ibm x ≡ ok 0) same free
  | inr (e, _) ↦ absurd (ground (arith, e, next.found))
]

module _ (u u1 : FileSystem) (p n : ℕ) (i : Inode) (name : List ℕ) (o : Written) (next : IsNext u n)
    (parent : IsOpen u p i) (valid : no_nul name ≡ true) (short : length name < 14)
    (kept : IsKept u u1 (opened p i)) (made : IsCreated u u1 n)
    (grown : IsGrown u1 (opened p i) (dirent_bytes n name) 16 o) (fits : n < 2 ^ 16) where
  pub Leaves-entry : Leaves u o.2 p n i
  Leaves-entry = record {
    inodes = λ m t ne new. grown.others m (made.places m t) ne ∙ made.others m t new;
    sectors = λ y r used ne. SameSector-trans (made.sectors y r) (
        grown.sectors y (subst (λ b. InRange b y) (sym kept.bitmap) r)
          (ap (λ b. bm_get b y) kept.bitmap ∙ used) ne);
  }

  pub HasEntry-entry : HasEntry u o.2 p n i name o.1.i_node
  HasEntry-entry = record {
    read = parent.sound.stored;
    dir = parent.dir;
    whole = parent.whole;
    unused = unused-IsNext next;
    stored = grown.stored;
    mode = rw grown.mode parent.dir;
    small = grown.file;
    grown = grown.size;
    old = λ q h. grown.old q h ∙ kept.bytes q h;
    last =
        entry_at-dirent (bytes_of o.2 o.1.i_node) (inode_getsize i / 16) n name valid short fits
          (λ j h. ap (bytes_of o.2 o.1.i_node) (omega (arith, parent.whole)) ∙ grown.new j h);
  }

-- A new directory has no entries.
empty-HasTree :
    (u : FileSystem) (mode n : ℕ)
    → inode_read u n ≡ ok (created_node mode zero_inode)
    → has_flag (created_node mode zero_inode).i_mode ifdir ≡ true
    → HasTree u n (node empty)
empty-HasTree u mode n read flag =
    let none' : inode_getsize (created_node mode zero_inode) / 16 ≡ 0 =
      omega (arith, zero-size mode) in
    is_dir (address (created_node mode zero_inode)) read flag
      (record { located = λ k h. none_of mode k h; readable = λ k h. none_of mode k h })
      (omega (arith, zero-size mode)) (rw none' no_more)

-- The entry is not written before the inode table.
pub low_entry :
    (junk : Buffer) (u u1 : FileSystem) (p n : ℕ) (i : Inode) (buf : Buffer) (o : Written)
    → IsKept u u1 (opened p i)
    → IsCreated u u1 n
    → o ≡ filev6_writebytes junk u1 (opened p i) buf 16
    → (y : ℕ) → IsReadable u.f y
    → y < u.s.s_inode_start
    → SameSector u.f o.2.f y
low_entry junk u u1 p n i buf o kept created wrote y r h =
    let one = created.beside y r (λ e. omega (arith, e, h)) in
    let two : SameSector u1.f o.2.f y = rw wrote (
      writebytes_low junk u1 (opened p i) buf 16 kept.sound created.inodes y one.readable
        (rw created.super h)) in
    SameSector-trans one two

module _ (junk : Buffer) (u : FileSystem) (mode p n : ℕ) (i : Inode) (names : List (List ℕ))
    (name : List ℕ) (f : Forest) (next : IsNext u n) (parent : IsOpen u p i)
    (mode_small : mode < 2 ^ 16)
    (flag : has_flag (created_node mode zero_inode).i_mode ifdir ≡ true)
    (path : are_names names ≡ true) (named : are_names (name ∷ []) ≡ true)
    (plain : no_slash name ≡ true) (valid : no_nul name ≡ true) (short : length name < 14)
    (led : walk u root_inumber names ≡ ok p) (new : find_in_directory (λ k. 0) u p name ≡ ok none)
    (tree : HasApart u p i root_inumber (node f)) where
  -- The file system that is left: its tree, the new inode, the directory, and what stays.
  pub create_lem :
      (u' : FileSystem) × (i' : Inode) × (direntv6_create junk u (join names ++ slash ∷ name) mode
        ≡ (ok n, u'))
      × HasTree u' root_inumber (graft p name n (node empty) root_inumber (node f))
      × (inode_read u' n ≡ ok (created_node mode zero_inode))
      × Leaves u u' p n i
      × HasEntry u u' p n i name i'
      × (u'.s ≡ u.s)
      × ((y : ℕ) → IsReadable u.f y → y < u.s.s_inode_start → SameSector u.f u'.f y)
  create_lem =
      let (u1, o, run, kept, _, read, grown, fits, _, made, wrote) =
        stages junk u mode p n i name next parent mode_small valid short in
      let leaves = Leaves-entry u u1 p n i name o next parent valid short kept made grown fits in
      let entry = HasEntry-entry u u1 p n i name o next parent valid short kept made grown fits in
      (
        o.2,
        o.1.i_node,
        create_run junk u mode p n i names name next parent mode_small path named plain valid short
              led new
            ∙ run,
        HasTree-graft u o.2 p n i o.1.i_node name (node empty) leaves entry
            (empty-HasTree o.2 mode n read flag) tree,
        read,
        leaves,
        entry,
        grown.super ∙ made.super,
        low_entry junk u u1 p n i _ o kept made wrote,
      )

module _ (junk : Buffer) (u : FileSystem) (mode p n : ℕ) (i : Inode) (names : List (List ℕ))
    (name : List ℕ) (f : Forest) (depth : ℕ) (dirs : Buffer) (next : IsNext u n)
    (parent : IsOpen u p i) (mode_small : mode < 2 ^ 16)
    (flag : has_flag (created_node mode zero_inode).i_mode ifdir ≡ true)
    (path : are_names names ≡ true) (named : are_names (name ∷ []) ≡ true)
    (plain : no_slash name ≡ true) (valid : no_nul name ≡ true) (short : length name < 14)
    (led : walk u root_inumber names ≡ ok p) (new : find_in_directory (λ k. 0) u p name ≡ ok none)
    (tree : HasApart u p i root_inumber (node f))
    (deep : tree_depth (graft p name n (node empty) root_inumber (node f)) ≤ depth) where
  -- If the next inode number n can be had and has its place in the inode table, names lead from
  -- the root to a directory p that is sound, is in use and can take one more entry, a name that
  -- is new in it has 1 to 13 bytes without a slash or NUL, the mode has 16 bits and is that of a
  -- directory, the root is the root of a tree in which every inode number is in use and has its
  -- place in the table, and every directory but p is small and has blocks of its own, which are
  -- data sectors in use, and there are at least as many levels of calls as the tree with the new
  -- directory has directories below one another, then direntv6_print_tree of the root prints the
  -- listing of the old tree; direntv6_create at the path of the names and the new name returns n;
  -- and afterwards the root is the root of the same tree with one entry more, an empty directory
  -- of that name with number n as the last one of p, and direntv6_print_tree prints the listing
  -- of this tree.
  pub create-print_tree :
      let (status, u') = direntv6_create junk u (join names ++ slash ∷ name) mode in
      let after = graft p name n (node empty) root_inumber (node f) in
      (direntv6_print_tree depth dirs u root_inumber []
        ≡ (tree_rows root_inumber [] (node f), ok 0))
      × (status ≡ ok n)
      × HasTree u' root_inumber after
      × (direntv6_print_tree depth dirs u' root_inumber []
          ≡ (tree_rows root_inumber [] after, ok 0))
  unfolding graft
  create-print_tree =
      let (u', i', run, t, _, _, _, _, _) =
        create_lem junk u mode p n i names name f next parent mode_small flag path named plain valid
          short led new tree in
      rw run (
        print_tree_lem depth dirs u root_inumber f []
            (HasTree-HasApart u p i parent.sound.stored parent.dir
              (IsSound-IsSmallFile parent.sound) parent.whole tree)
            (omega (arith, (depth-graft p name n (node empty) root_inumber (node f)).0, deep)),
        refl,
        t,
        print_tree_lem depth dirs u' root_inumber _ [] t deep,
      )
