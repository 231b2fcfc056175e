-- ===== src/Directory/Print/NewFile.antt =====
-- done/direntv6.c: direntv6_addfile, and the tree of directories afterwards.
use file_system_public_copy.Prelude.{
  ℕ, ◌*◌, ◌/◌, ◌%◌, ◌^◌, ◌≤◌, ◌<◌, ◌≡◌, refl, sym, ap, arith, true, false, none, List, [], ◌∷◌,
  ◌++◌, length, ok, ◌∙◌, subst,
}
use file_system_public_copy.Stdio.{Buffer}
use file_system_public_copy.Layout.{Inode, zero_inode, ifdir, has_flag, inode_getsize, root_inumber}
use file_system_public_copy.Bitmap.{bm_get, bm_find_next}
use file_system_public_copy.Bitmap.Bits.{IsValid, InRange}
use file_system_public_copy.FileSystem.{FileSystem}
use file_system_public_copy.Inode.{inode_read}
use file_system_public_copy.Inode.Store.{InTable}
use file_system_public_copy.File.{Written, filev6_writebytes}
use file_system_public_copy.File.Content.{IsSmallFile}
use file_system_public_copy.File.Create.{created_node}
use file_system_public_copy.File.Kept.{IsKept, IsCreated}
use file_system_public_copy.File.Sectors.{SameSector, SameSector-trans, IsSmallFile-SameSector}
use file_system_public_copy.File.Sound.{IsGrown, IsSound-IsSmallFile, address, bytes_of}
use file_system_public_copy.Directory.{find_in_directory, slash}
use file_system_public_copy.Directory.Create.{direntv6_addfile, dirent_bytes}
use file_system_public_copy.Directory.Paths.{no_slash, are_names, join, walk}
use file_system_public_copy.Directory.Entries.{no_nul}
use file_system_public_copy.Directory.Reader.{entry_ext}
use file_system_public_copy.Directory.Created.{IsNext, IsOpen, opened, stages}
use file_system_public_copy.Directory.Child.{InTable-IsGrown, zero-size, none_of}
use file_system_public_copy.Directory.NewPath.{create_run}
use file_system_public_copy.Directory.Added.{addfile_run, child, second, directory_kept}
use file_system_public_copy.Sector.Laws.{IsReadable}
use file_system_public_copy.Steps.Low.{writebytes_low, writebytes-IsValid}
use file_system_public_copy.Directory.Print.{direntv6_print_tree}
use file_system_public_copy.Directory.Print.Tree.{
  leaf, node, Forest, HasTree, is_file, tree_rows, tree_depth,
}
use file_system_public_copy.Directory.Print.Listing.{print_tree_lem}
use file_system_public_copy.Directory.Print.Graft.{graft, HasApart, HasTree-HasApart}
use file_system_public_copy.Directory.Print.Depth.{depth-graft}
use file_system_public_copy.Directory.Print.Grafted.{Leaves, HasEntry, HasTree-graft}
use file_system_public_copy.Directory.Print.NewEntry.{low_entry, Leaves-entry, HasEntry-entry}

-- A write to the new file, which is empty, leaves all that the entry left.
Leaves-write :
    (u u' : FileSystem) (mode p n : ℕ) (i : Inode) (buf : Buffer) (len : ℕ) (o : Written)
    → Leaves u u' p n i
    → u'.fbm ≡ u.fbm
    → ((m : ℕ) → InTable u m → InTable u' m)
    → IsGrown u' (opened n (created_node mode zero_inode)) buf len o
    → Leaves u o.2 p n i
Leaves-write u u' mode p n i buf len o l bitmap places g = record {
  inodes = λ m t ne new. g.others m (places m t) new ∙ l.inodes m t ne new;
  sectors = λ y r used ne. SameSector-trans (l.sectors y r used ne) (
      g.sectors y (subst (λ b. InRange b y) (sym bitmap) r) (ap (λ b. bm_get b y) bitmap ∙ used)
        (λ k h. none_of mode k h));
}

-- The directory keeps its new entry.
HasEntry-write :
    (u u' u'' : FileSystem) (p n : ℕ) (i i' : Inode) (name : List ℕ)
    → HasEntry u u' p n i name i'
    → inode_read u'' p ≡ ok i'
    → ((k : ℕ) → k * 512 < inode_getsize i' → SameSector u'.f u''.f (address i' k))
    → HasEntry u u'' p n i name i'
HasEntry-write u u' u'' p n i i' name e stored same =
    let (small, bytes) = IsSmallFile-SameSector u' u'' i' e.small same in
    record {
      read = e.read;
      dir = e.dir;
      whole = e.whole;
      unused = e.unused;
      stored = stored;
      mode = e.mode;
      small = small;
      grown = e.grown;
      old = λ q h. bytes q (omega (arith, h, e.grown)) ∙ e.old q h;
      last =
          entry_ext (bytes_of u'' i') (bytes_of u' i') (inode_getsize i / 16) (inode_getsize i / 16)
            (λ q h. bytes _ (omega (arith, h, e.grown, e.whole)))
          ∙ e.last;
    }

-- Neither write, nor that of the new inode, is before the inode table.
low_kept :
    (junk : Buffer) (u u1 : FileSystem) (mode p n : ℕ) (i : Inode) (buf : Buffer) (o : Written)
    (kept : IsKept u u1 (opened p i)) (table : InTable u1 n)
    (read : inode_read o.2 n ≡ ok (created_node mode zero_inode))
    (grown : IsGrown u1 (opened p i) buf 16 o) (mode_small : mode < 2 ^ 16)
    (partial : 0 < inode_getsize i % 512) (whole : inode_getsize i % 16 ≡ 0) (data' : Buffer)
    (len : ℕ)
    → IsCreated u u1 n
    → o ≡ filev6_writebytes junk u1 (opened p i) buf 16
    → (y : ℕ) → IsReadable u.f y
    → y < u.s.s_inode_start
    → SameSector u.f
        (filev6_writebytes junk o.2 (opened n (created_node mode zero_inode)) data' len).2.f
        y
low_kept junk u u1 mode p n i buf o kept table read grown mode_small partial whole data' len created
      wrote y r h =
    let h1 : y < u1.s.s_inode_start = rw created.super h in
    let h2 : y < o.2.s.s_inode_start = rw grown.super h1 in
    let two = low_entry junk u u1 p n i buf o kept created wrote y r h in
    let valid : IsValid o.2.ibm =
      rw wrote (writebytes-IsValid junk u1 (opened p i) buf 16 kept.sound created.inodes) in
    SameSector-trans two (
      writebytes_low junk o.2 (opened n (created_node mode zero_inode)) data' len
        (child u u1 mode p n i buf o kept table read grown mode_small partial whole) valid y
        two.readable h2)

-- The inode `n` holds a new file with these bytes.
pub record HasNewFile (u : FileSystem) (n : ℕ) (c : Inode) (mode : ℕ) (data' : Buffer) (len : ℕ)
    : Type 0 where
  pub stored : inode_read u n ≡ ok c
  pub small : IsSmallFile u c
  pub size : inode_getsize c ≡ len
  pub kind : c.i_mode ≡ (created_node mode zero_inode).i_mode
  pub bytes : (k : ℕ) → k < len → bytes_of u c k ≡ data' k

HasNewFile-write :
    (u : FileSystem) (mode n : ℕ) (data' : Buffer) (len : ℕ) (o : Written)
    → IsGrown u (opened n (created_node mode zero_inode)) data' len o
    → HasNewFile o.2 n o.1.i_node mode data' len
HasNewFile-write u mode n data' len o g = record {
  stored = g.stored;
  small = g.file;
  size = omega (arith, g.size, zero-size mode);
  kind = g.mode;
  bytes = λ k h. ap (bytes_of o.2 o.1.i_node) (omega (arith, zero-size mode)) ∙ g.new k h;
}

module _ (junk : Buffer) (u : FileSystem) (mode p n : ℕ) (i : Inode) (names : List (List ℕ))
    (name : List ℕ) (data' : Buffer) (len x : ℕ) (f : Forest) (next : IsNext u n)
    (parent : IsOpen u p i) (mode_small : mode < 2 ^ 16)
    (flag : has_flag (created_node mode zero_inode).i_mode ifdir ≡ false)
    (path : are_names names ≡ true) (named : are_names (name ∷ []) ≡ true)
    (plain : no_slash name ≡ true) (valid : no_nul name ≡ true) (short : length name < 14)
    (led : walk u root_inumber names ≡ ok p) (new : find_in_directory (λ k. 0) u p name ≡ ok none)
    (partial : 0 < inode_getsize i % 512) (some' : 0 < len) (fits : len < 512)
    (free : (bm_find_next u.fbm).0 ≡ ok x) (tree : HasApart u p i root_inumber (node f)) where
  -- The file system that is left: its tree, the new file, the directory, and what stays.
  pub addfile_lem :
      (u' : FileSystem) × (c i' : Inode) × (direntv6_addfile junk u
          (join names ++ slash ∷ name)
          mode
          data'
          len
        ≡ (ok 0, u'))
      × HasTree u' root_inumber (graft p name n leaf root_inumber (node f))
      × HasNewFile u' n c mode data' len
      × (n < 2 ^ 16)
      × Leaves u u' p n i
      × HasEntry u u' p n i name i'
      × (u'.s ≡ u.s)
      × ((y : ℕ) → IsReadable u.f y → y < u.s.s_inode_start → SameSector u.f u'.f y)
  addfile_lem =
      let (u1, o, run, kept, table, read, grown, small, other, created, wrote) =
        stages junk u mode p n i name next parent mode_small valid short in
      let made =
        create_run junk u mode p n i names name next parent mode_small path named plain valid short
          led new
        ∙ run in
      let c = opened n (created_node mode zero_inode) in
      let o' = filev6_writebytes junk o.2 c data' len in
      let buf = dirent_bytes n name in
      let g : IsGrown o.2 c data' len o' =
        second u u1 mode p n i buf o kept table read grown mode_small partial parent.whole junk
          data' len x some' fits free in
      let leaves =
        Leaves-write u o.2 mode p n i data' len o'
          (Leaves-entry u u1 p n i name o next parent valid short kept created grown small)
          ((grown.partial partial).0 ∙ kept.bitmap)
          (λ m t. InTable-IsGrown grown m (created.places m t)) g in
      let entry =
        HasEntry-write u o.2 o'.2 p n i o.1.i_node name
          (HasEntry-entry u u1 p n i name o next parent valid short kept created grown small)
          (g.others p (InTable-IsGrown grown p kept.sound.ready.table) (λ e. other (sym e))
            ∙ grown.stored)
          (directory_kept u u1 mode p n i buf o kept table read grown mode_small partial
            parent.whole data' len o' g) in
      let t =
        HasTree-graft u o'.2 p n i o.1.i_node name leaf leaves entry
          (is_file g.stored (rw g.mode flag)) tree in
      (
        o'.2,
        o'.1.i_node,
        o.1.i_node,
        addfile_run junk u o.2 (join names ++ slash ∷ name) mode n (created_node mode zero_inode)
            data' len o' made (omega (arith, small)) read refl g.status,
        t,
        HasNewFile-write o.2 mode n data' len o' g,
        small,
        leaves,
        entry,
        g.super ∙ grown.super ∙ created.super,
        low_kept junk u u1 mode p n i buf o kept table read grown mode_small partial parent.whole
            data' len created wrote,
      )

  module _ (depth : ℕ) (dirs : Buffer) (deep : tree_depth (node f) ≤ depth) where
    -- If the next inode number n can be had and has its place in the inode table, names lead from
    -- the root to a directory p that is sound, is in use, can take one more entry, and whose last
    -- sector is partly filled, a name that is new in it has 1 to 13 bytes without a slash or NUL,
    -- the mode has 16 bits and is not that of a directory, there is a free data sector, between 1
    -- and 511 bytes are given, the root is the root of a tree in which every inode number is in
    -- use and has its place in the table, and every directory but p is small and has blocks of
    -- its own, which are data sectors in use, and there are at least as many levels of calls as
    -- the tree has directories below one another, then direntv6_print_tree of the root prints the
    -- listing of that tree; direntv6_addfile at the path of the names and the new name returns
    -- ERR_NONE; and afterwards the root is the root of the same tree with one entry more, a file
    -- of that name with number n as the last one of p, and direntv6_print_tree prints the listing
    -- of this tree.
    pub addfile-print_tree :
        let (status, u') = direntv6_addfile junk u (join names ++ slash ∷ name) mode data' len in
        let after = graft p name n leaf root_inumber (node f) in
        (direntv6_print_tree depth dirs u root_inumber []
          ≡ (tree_rows root_inumber [] (node f), ok 0))
        × (status ≡ ok 0)
        × HasTree u' root_inumber after
        × (direntv6_print_tree depth dirs u' root_inumber []
            ≡ (tree_rows root_inumber [] after, ok 0))
    unfolding graft tree_depth
    addfile-print_tree =
        let (u', _, _, run, t, _, _, _, _, _, _) = addfile_lem in
        rw run (
          print_tree_lem depth dirs u root_inumber f []
              (HasTree-HasApart u p i parent.sound.stored parent.dir
                (IsSound-IsSmallFile parent.sound) parent.whole tree)
              deep,
          refl,
          t,
          print_tree_lem depth dirs u' root_inumber _ [] t
              (omega (arith, (depth-graft p name n leaf root_inumber (node f)).1 refl, deep)),
        )
